-- ===== src/Pipe.antt =====
-- kernel/pipe.c: the ring of a pipe, and the loops of pipewrite and piperead. Each function runs
-- under `pi->lock` and gives it up only in sleep(), where the model hands the pipe back.
pub mod Ring
pub mod Transfer
pub mod Stream
use snu_os.Base.{
  ℕ, zero, suc, ◌+◌, ◌%◌, Bool, true, false, not, ◌&&◌, ◌||◌, Option, none, some, List, [], ◌∷◌,
  ◌==◌, if◌then◌else◌, update,
}
use snu_os.Base.Words.{add32}

abbrev pub pipe_size : ℕ
pipe_size = 512

-- `struct pipe` without its lock; `nread` and `nwrite` are uints that wrap.
pub record Pipe : Type 0 where
  pub bytes : ℕ → ℕ
  pub nread : ℕ
  pub nwrite : ℕ
  pub readopen : Bool
  pub writeopen : Bool

-- the assignments of pipealloc to a fresh page
abbrev pub fresh_pipe : (ℕ → ℕ) → Pipe
fresh_pipe page = record { bytes = page; nread = 0; nwrite = 0; readopen = true; writeopen = true }

abbrev pub is_full : Pipe → Bool
is_full p = p.nwrite == add32 p.nread pipe_size

abbrev pub is_empty : Pipe → Bool
is_empty p = p.nread == p.nwrite

-- `pi->data[pi->nwrite++ % PIPESIZE] = ch`
unfoldable pub put_byte : ℕ → Pipe → Pipe
put_byte ch p = record p {
  bytes = update p.bytes (p.nwrite % pipe_size) ch;
  nwrite = add32 p.nwrite 1;
}

-- `ch = pi->data[pi->nread++ % PIPESIZE]`
unfoldable pub get_byte : Pipe → ℕ × Pipe
get_byte p = (p.bytes (p.nread % pipe_size), record p { nread = add32 p.nread 1 })

-- How a run of pipewrite ends: it returns (with -1 as `failed`), or sleeps with `i` bytes written,
-- to go on in the pipe that it finds when it is woken.
pub data WriteEnd : Type 0 where
  wrote : ℕ → WriteEnd
  failed : WriteEnd
  asleep : ℕ → WriteEnd

-- The loop of pipewrite from round `i`, with `k` bytes to go. `src` is copyin of one byte, and
-- `killed` what killed(pr) answers in each round.
unfoldable pub pipewrite_from : (ℕ → Option ℕ) → (ℕ → Bool) → ℕ → ℕ → Pipe → WriteEnd × Pipe
pipewrite_from src killed zero i p = (wrote i, p)
pipewrite_from src killed (suc k) i p =
    if not p.readopen || killed i
    then (failed, p)
    else if is_full p
    then (asleep i, p)
    else elim (src i) [
      | none ↦ (wrote i, p)
      | some ch ↦ pipewrite_from src killed k (i + 1) (put_byte ch p)
    ]

unfoldable pub pipewrite : (ℕ → Option ℕ) → (ℕ → Bool) → ℕ → Pipe → WriteEnd × Pipe
unfolding pipewrite_from
pipewrite src killed n p = pipewrite_from src killed n 0 p

-- The copying loop of piperead from round `i`: the bytes that reached the user, and the pipe.
-- `dst` is whether copyout of one byte succeeds.
unfoldable pub piperead_from : (ℕ → Bool) → ℕ → ℕ → Pipe → List ℕ × Pipe
piperead_from dst zero i p = ([], p)
piperead_from dst (suc k) i p =
    if is_empty p
    then ([], p)
    else (let (ch, p') = get_byte p in
        elim (dst i) [
          | false ↦ ([], p')
          | true ↦ (let (out, p'') = piperead_from dst k (i + 1) p' in (ch ∷ out, p''))
        ])

pub data ReadEnd : Type 0 where
  got : List ℕ → ReadEnd
  refused : ReadEnd
  waiting : ReadEnd

-- piperead; the number returned is the length of what `got` holds.
unfoldable pub piperead : (ℕ → Bool) → Bool → ℕ → Pipe → ReadEnd × Pipe
unfolding piperead_from
piperead dst killed n p =
    if is_empty p && p.writeopen
    then (if killed then refused else waiting, p)
    else (let (out, p') = piperead_from dst n 0 p in (got out, p'))

-- pipeclose: whether the page goes back to kfree, and the pipe.
unfoldable pub pipeclose : Bool → Pipe → Bool × Pipe
pipeclose writable p =
    let closed =
      if writable then record p { writeopen = false } else record p { readopen = false } in
    (not closed.readopen && not closed.writeopen, closed)
