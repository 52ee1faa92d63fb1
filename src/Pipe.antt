-- ===== src/Pipe.antt =====
-- kernel/pipe.c on one pipe: reading, writing and closing.
-- A process that sleeps is woken with the pipe as the others left it: the list of wakes says how,
-- and whether a signal is actionable then. When the list is used up the caller still sleeps.
pub mod Fifo
pub mod Read
pub mod Write
mod Tests
use sbunix.Base.{
  ℕ, zero, suc, ◌+◌, ◌%◌, ◌&&◌, Bool, true, false, not, List, [], ◌∷◌, ◌==◌, ltb, if◌then◌else◌,
  length, update, add32,
}
use sbunix.Base.Int.{ℤ, pos, pos_part, minus}
use sbunix.Base.Errno.{epipe, erestartsys}

abbrev pub pipe_size : ℕ
pipe_size = 512

-- `struct pipe`: `bytes` is its field `data`.
pub record Pipe : Type 0 where
  pub bytes : ℕ → ℕ
  pub nread : ℕ
  pub nwrite : ℕ
  pub readopen : Bool
  pub writeopen : Bool

pub record Wake : Type 0 where
  pub others : Pipe → Pipe
  pub signalled : Bool

-- The end of a call, with the pipe it leaves and its calls of `proc_wakeup_chan` on the way.
-- `killed` says that it sent SIGPIPE to the caller.
pub record Outcome (A : Type 0) : Type 0 where
  pub result : A
  pub pipe : Pipe
  pub wakeups : ℕ
  pub killed : Bool

-- `asleep`: the call has not returned.
pub data Return : Type 0 where
  returned : ℤ → Return
  asleep : Return

pub is_empty : Pipe → Bool
is_empty p = p.nread == p.nwrite

pub is_full : Pipe → Bool
is_full p = p.nwrite == add32 p.nread pipe_size

-- `data[nread % PIPESIZE]`, `nread++`
pub fetch : Pipe → ℕ
fetch p = p.bytes (p.nread % pipe_size)

pub advance : Pipe → Pipe
advance p = record p { nread = add32 p.nread 1 }

-- `data[nwrite % PIPESIZE] = c`, `nwrite++`
pub store : Pipe → ℕ → Pipe
store p c = record p { bytes = update p.bytes (p.nwrite % pipe_size) c; nwrite = add32 p.nwrite 1 }

-- What a wait ends in: `ready` with the wakes that are left.
pub data Waited : Type 0 where
  ready : Pipe → List Wake → Waited
  interrupted : Pipe → Waited
  waiting : Pipe → Waited

-- The first loop of `pipe_read`.
pub wait_bytes : List Wake → Pipe → Waited
unfolding is_empty
wait_bytes [] p = if is_empty p && p.writeopen then waiting p else ready p []
wait_bytes (w ∷ ws) p =
    if is_empty p && p.writeopen
    then if w.signalled then interrupted (w.others p) else wait_bytes ws (w.others p)
    else ready p (w ∷ ws)

-- The copy loop of `pipe_read`, of at most `n` rounds.
pub copy_out : ℕ → Pipe → List ℕ × Pipe
unfolding is_empty fetch advance
copy_out zero p = ([], p)
copy_out (suc n) p =
    let rest = copy_out n (advance p) in if is_empty p then ([], p) else (fetch p ∷ rest.0, rest.1)

-- What is stored through `buf` stands beside the returned value.
pub pipe_read : List Wake → Pipe → ℤ → Outcome (Return × List ℕ)
unfolding wait_bytes copy_out
pipe_read ws p n = elim (wait_bytes ws p) [
  | waiting q ↦ record { result = (asleep, []); pipe = q; wakeups = 0; killed = false }
  | interrupted q ↦ record {
    result = (returned (minus erestartsys), []);
    pipe = q;
    wakeups = 0;
    killed = false;
  }
  | ready q _ ↦
      let (bs, r) = copy_out (pos_part n) q in
      record { result = (returned (pos (length bs)), bs); pipe = r; wakeups = 1; killed = false }
]

-- What the wait for room in `pipe_write` ends in, with its calls of `proc_wakeup_chan`.
pub data Room : Type 0 where
  room : Pipe → List Wake → ℕ → Room
  broken : Pipe → ℕ → Room
  stopped : Pipe → ℕ → Room
  blocked : Pipe → ℕ → Room

-- The inner loop of `pipe_write`; `k` counts the wakeups.
pub wait_room : List Wake → Pipe → ℕ → Room
unfolding is_full
wait_room [] p k =
    if is_full p then if p.readopen then blocked p (k + 1) else broken p k else room p [] k
wait_room (w ∷ ws) p k =
    if is_full p
    then if p.readopen
      then if w.signalled then stopped (w.others p) (k + 1) else wait_room ws (w.others p) (k + 1)
      else broken p k
    else room p (w ∷ ws) k

-- The loop of `pipe_write` from `buf[i]` on.
pub write_from : List ℕ → ℕ → List Wake → Pipe → ℕ → Outcome Return
unfolding wait_room store
write_from [] i ws p k = record {
  result = returned (pos i);
  pipe = p;
  wakeups = k + 1;
  killed = false;
}
write_from (c ∷ cs) i ws p k = elim (wait_room ws p k) [
  | broken q l ↦ record { result = returned (minus epipe); pipe = q; wakeups = l; killed = true }
  | stopped q l ↦
      let r : ℤ = if ltb 0 i then pos i else minus erestartsys in
      record { result = returned r; pipe = q; wakeups = l; killed = false }
  | blocked q l ↦ record { result = asleep; pipe = q; wakeups = l; killed = false }
  | room q vs l ↦ elim q.readopen [
    | false ↦ record { result = returned (minus epipe); pipe = q; wakeups = l; killed = true }
    | true ↦ write_from cs (i + 1) vs (store q c) l
  ]
]

-- `buf[0..n)` is the list.
pub pipe_write : List Wake → Pipe → List ℕ → Outcome Return
unfolding write_from
pipe_write ws p cs = write_from cs 0 ws p 0

pub pipe_close : Pipe → Bool → Outcome Unit
pipe_close p writable = record {
  result = tt;
  pipe = if writable then record p { writeopen = false } else record p { readopen = false };
  wakeups = 1;
  killed = false;
}
