-- ===== src/Examples/Devices.antt =====
-- The drivers of kernel/virtio_disk.c and kernel/uart.c and the printing of kernel/printf.c, run.
use snu_os.Base.{
  ℕ, ◌<◌, ◌≡◌, refl, Bool, true, false, Option, none, some, List, [], ◌∷◌, ◌++◌, ◌-◌, ◌^◌,
  if◌then◌else◌, arith, ◌==◌, update,
}
use snu_os.Base.Outcome.{ok, panic}
use snu_os.Virtio.{
  num, Disk, zero_desc, init_rings, first_desc, alloc_desc, alloc_third, alloc_second, alloc3_desc,
  format_request, offer, rw_start, rw_finish,
}
use snu_os.Virtio.Chains.{InChain}
use snu_os.Virtio.Requests.{System, Reach, here, more, start, booted, requests_safe, no_leak}
use snu_os.Uart.{Uart, uartstart_from, uartstart, uartputc}
use snu_os.Uart.Order.{
  IsValid, Event, putc, interrupt, run, stream, pending, run-stream, uartstart-drains,
}
use snu_os.Printf.{digits_from, print_back, printint, int, print_arg, printf}

abbrev raw_disk : Disk
raw_disk = record {
  desc = λ _. zero_desc;
  free = λ _. false;
  ring = λ _. 0;
  idx = 0;
  used_ring = λ _. 0;
  used_end = 0;
  used_idx = 0;
  info_b = λ _. none;
  status = λ _. 0;
  ops = λ _. record { type_of = 0; reserved = 0; sector = 0 };
  busy = λ _. false;
}

abbrev places : ℕ → ℕ
places i = i

-- Block 33 is being written from buffer 5.
abbrev writing_disk : Disk
writing_disk = elim (rw_start places places places 5 33 true (init_rings raw_disk)) [
  | panic ↦ raw_disk
  | ok r ↦ r.1
]

abbrev writing : System
writing = record { disk = writing_disk; active = update (λ _. false) 0 true }

writing_run :
    rw_start places places places 5 33 true (booted raw_disk).disk ≡ ok (some 0, writing_disk)
unfolding init_rings rw_start alloc3_desc alloc_second alloc_third alloc_desc first_desc
    format_request offer
writing_run = refl

writing-Reach : Reach places places places (booted raw_disk) writing
writing-Reach = more here (start 5 33 true writing_run)

requests_safe_example :
    ((b blockno : ℕ) (write : Bool)
      → (r : Option ℕ × Disk) × (rw_start places places places b blockno write writing.disk ≡ ok r))
    × ((i : ℕ) → writing.active i ≡ true → (d' : Disk) × (rw_finish i writing.disk ≡ ok d'))
requests_safe_example = requests_safe places places places raw_disk writing writing-Reach

no_leak_example :
    ((x : ℕ)
      → x < num
      → writing.disk.free x ≡ false
      → (h : ℕ) × (writing.active h ≡ true)
        × InChain writing.disk h x
        × ((g : ℕ) → writing.active g ≡ true → InChain writing.disk g x → g ≡ h))
    × (((h : ℕ) → writing.active h ≡ false) → (x : ℕ) → x < num → writing.disk.free x ≡ true)
no_leak_example = no_leak places places places raw_disk writing writing-Reach

-- Two characters wait where the ring and the counters wrap.
abbrev wrapping : Uart
wrapping = record { buf = λ i. if i == 31 then 104 else 105; w = 1; r = 2 ^ 64 - 1; sent = [] }

wrapping-IsValid : IsValid wrapping
wrapping-IsValid = record { counters = (omega arith, omega arith); fits = omega arith }

abbrev events : List Event
events = putc 33 (λ _. false) ∷ interrupt (λ i. i == 0) ∷ []

events_taken : ((run events wrapping).0 ≡ 33 ∷ []) × ((run events wrapping).1.sent ≡ 104 ∷ [])
unfolding run uartputc uartstart uartstart_from
events_taken = (refl, refl)

run-stream_example :
    (stream (run events wrapping).1 ≡ stream wrapping ++ (run events wrapping).0)
    × IsValid (run events wrapping).1
run-stream_example = run-stream events wrapping wrapping-IsValid

uartstart-drains_example :
    (pending (uartstart (λ _. true) wrapping) ≡ [])
    × ((uartstart (λ _. true) wrapping).sent ≡ wrapping.sent ++ pending wrapping)
uartstart-drains_example = uartstart-drains (λ _. true) wrapping wrapping-IsValid (λ _. refl)

-- -42 and the least int
printed : printint (2 ^ 32 - 42) 10 true ≡ 45 ∷ 52 ∷ 50 ∷ []
unfolding printint digits_from print_back
printed = refl

-- printf("%d%%%x", 7, 255)
formatted :
    printf (37 ∷ 100 ∷ 37 ∷ 37 ∷ 37 ∷ 120 ∷ []) (int 7 ∷ int 255 ∷ [])
    ≡ some (55 ∷ 37 ∷ 102 ∷ 102 ∷ [])
unfolding printf print_arg printint digits_from print_back
formatted = refl
