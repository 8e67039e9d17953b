-- ===== src/Uart.antt =====
-- kernel/uart.c: the driver of the serial port, with its ring of characters to send. What the
-- registers answer is an argument, and what goes to THR is a list, oldest first.
pub mod Order
use snu_os.Base.{
  ℕ, zero, suc, ◌+◌, ◌-◌, ◌%◌, ◌^◌, Bool, true, false, not, ◌||◌, Option, none, some, List, [], ◌∷◌,
  ◌++◌, ◌==◌, if◌then◌else◌, update,
}
use snu_os.Console.{Console, consoleintr}

-- UART_TX_BUF_SIZE
abbrev pub tx_size : ℕ
tx_size = 32

abbrev pub add64 : ℕ → ℕ → ℕ
add64 a b = (a + b) % 2 ^ 64

-- uart_tx_buf, uart_tx_w and uart_tx_r, and what has been written to THR
pub record Uart : Type 0 where
  pub buf : ℕ → ℕ
  pub w : ℕ
  pub r : ℕ
  pub sent : List ℕ

-- The registers that uartinit writes, with the values.
abbrev pub uartinit : List (ℕ × ℕ)
uartinit = (1, 0) ∷ (3, 128) ∷ (0, 3) ∷ (1, 0) ∷ (3, 3) ∷ (2, 7) ∷ (1, 3) ∷ []

-- The loop of uartstart from round `i` on; `idle i` is LSR_TX_IDLE in that round.
unfoldable pub uartstart_from : ℕ → ℕ → (ℕ → Bool) → Uart → Uart
uartstart_from zero i idle u = u
uartstart_from (suc k) i idle u = elim (u.w == u.r || not (idle i)) [
  | true ↦ u
  | false ↦
      uartstart_from k (i + 1) idle
        (record u { r = add64 u.r 1; sent = u.sent ++ (u.buf (u.r % tx_size) ∷ []) })
]

-- One round for each character that waits, and one to leave the loop.
unfoldable pub uartstart : (ℕ → Bool) → Uart → Uart
uartstart idle u = uartstart_from (suc ((u.w + 2 ^ 64 - u.r) % 2 ^ 64)) 0 idle u

abbrev pub is_full : Uart → Bool
is_full u = u.w == add64 u.r tx_size

-- uartputc of a byte while the machine has not panicked; `none` sleeps, and tests again when it is woken.
unfoldable pub uartputc : ℕ → (ℕ → Bool) → Uart → Option Uart
uartputc c idle u =
    if is_full u
    then none
    else some (uartstart idle (record u { buf = update u.buf (u.w % tx_size) c; w = add64 u.w 1 }))

-- uartputc_sync behind its loop
unfoldable pub uartputc_sync : ℕ → Uart → Uart
uartputc_sync c u = record u { sent = u.sent ++ (c ∷ []) }

-- uartgetc, where `input` are the characters that RHR still gives: `none` is -1.
unfoldable pub uartgetc : List ℕ → Option ℕ × List ℕ
uartgetc [] = (none, [])
uartgetc (c ∷ input) = (some c, input)

-- the loop of uartintr over the input
unfoldable pub receive_from : List ℕ → Console → Console
unfolding consoleintr
receive_from [] s = s
receive_from (c ∷ input) s = receive_from input (consoleintr c s)

unfoldable pub uartintr : List ℕ → (ℕ → Bool) → Console → Uart → Console × Uart
unfolding receive_from
uartintr input idle s u = (receive_from input s, uartstart idle u)
