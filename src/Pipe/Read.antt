-- ===== src/Pipe/Read.antt =====
-- `pipe_read`: which bytes it returns, and when it waits.
use sbunix.Base.{
  ℕ, zero, suc, ◌<◌, ◌≡◌, refl, ◌⊎◌, inl, inr, ap, true, false, List, [], ◌∷◌, min, length, take,
  drop, All, length-take, arith, ◌&&◌, Bool-cases,
}
use sbunix.Base.Int.{ℤ, pos, pos_part, minus}
use sbunix.Base.Errno.{erestartsys}
use sbunix.Pipe.{
  Pipe, Wake, Outcome, Return, returned, asleep, is_empty, fetch, wait_bytes, Waited, ready,
  interrupted, waiting, copy_out, pipe_read,
}
use sbunix.Pipe.Fifo.{
  count, IsValid, contents, length-contents, is_empty_iff, advance-IsValid, contents-advance,
}

-- What the others do to a pipe keeps it valid.
abbrev pub Keeps : List Wake → Type 0
Keeps ws = All (λ w. (p : Pipe) → IsValid p → IsValid (w.others p)) ws

-- The pipe after the others' changes of all these wakes.
abbrev pub after : List Wake → Pipe → Pipe
after [] p = p
after (w ∷ ws) p = after ws (w.others p)

pub after-IsValid : (ws : List Wake) {p : Pipe} → Keeps ws → IsValid p → IsValid (after ws p)
after-IsValid [] k v = v
after-IsValid (w ∷ ws) k v = after-IsValid ws k.1 (k.0 _ v)

contents-empty : (p : Pipe) → count p ≡ 0 → contents p ≡ []
contents-empty p e = rw e

pub copy_out_lem :
    (n : ℕ) {p : Pipe}
    → IsValid p
    → ((copy_out n p).0 ≡ take n (contents p))
      × (contents (copy_out n p).1 ≡ drop n (contents p))
      × IsValid (copy_out n p).1
unfolding copy_out
copy_out_lem zero v = (refl, refl, v)
copy_out_lem (suc n) {p} v = elim (Bool-cases (is_empty p)) [
  | inl e ↦
      let z : count p ≡ 0 = ground (arith, is_empty_iff v) in
      rw (e, contents-empty p z) (refl, refl, v)
  | inr e ↦
      let h : 0 < count p = ground (arith, is_empty_iff v) in
      let ih = copy_out_lem n (advance-IsValid v h) in
      rw (e, contents-advance v h) (ap (λ bs. fetch p ∷ bs) ih.0, ih.1, ih.2)
]

-- No byte to read, and a writer that may still come.
abbrev pub Starved : Pipe → Type 0
Starved p = (count p ≡ 0) × (p.writeopen ≡ true)

-- The caller was right to wait through the first `j` wakes: the pipe was starved before each, and
-- no signal was actionable after any.
abbrev pub WaitedOn : ℕ → List Wake → Pipe → Type 0
WaitedOn zero ws p = Unit
WaitedOn (suc j) [] p = ⊥
WaitedOn (suc j) (w ∷ ws) p = Starved p × (w.signalled ≡ false) × WaitedOn j ws (w.others p)

-- A signal was actionable after the wake `j`, counted from 0, and not before; until then the caller
-- was right to wait.
abbrev pub Interrupted : ℕ → List Wake → Pipe → Type 0
Interrupted j [] p = ⊥
Interrupted zero (w ∷ ws) p = Starved p × (w.signalled ≡ true)
Interrupted (suc j) (w ∷ ws) p = Starved p × (w.signalled ≡ false) × Interrupted j ws (w.others p)

-- How the wait may end, with the pipe it leaves.
WaitEnd : List Wake → Pipe → Waited → Type 0
WaitEnd ws p (ready q _) =
    (j : ℕ) × WaitedOn j ws p
    × (q ≡ after (take j ws) p)
    × ((is_empty q && q.writeopen) ≡ false)
    × IsValid q
WaitEnd ws p (interrupted q) =
    (j : ℕ) × Interrupted j ws p × (q ≡ after (take (suc j) ws) p) × IsValid q
WaitEnd ws p (waiting q) = WaitedOn (length ws) ws p × (q ≡ after ws p) × Starved q × IsValid q

starved : {p : Pipe} → IsValid p → (is_empty p && p.writeopen) ≡ true → Starved p
starved v e = (ground (arith, is_empty_iff v), ground (arith, e))

wait_bytes_lem : (ws : List Wake) {p : Pipe} → Keeps ws → IsValid p → WaitEnd ws p (wait_bytes ws p)
unfolding wait_bytes WaitEnd
wait_bytes_lem [] {p} k v = elim (Bool-cases (is_empty p && p.writeopen)) [
  | inl e ↦ rw e (tt, refl, starved v e, v)
  | inr e ↦ rw e (0, tt, refl, e, v)
]
wait_bytes_lem (w ∷ ws) {p} k v = elim (Bool-cases (is_empty p && p.writeopen)) [
  | inr e ↦ rw e (0, tt, refl, e, v)
  | inl e ↦ rw e (elim (Bool-cases w.signalled) [
    | inl s ↦ simp s (0, (starved v e, s), refl, k.0 _ v)
    | inr s ↦
        simp s
          (later (starved v e) s (wait_bytes ws (w.others p)) (wait_bytes_lem ws k.1 (k.0 _ v)))
  ])
]
  where
    later :
        Starved p
        → w.signalled ≡ false
        → (r : Waited) → WaitEnd ws (w.others p) r
        → WaitEnd (w ∷ ws) p r
    later h s (ready q vs) (j, on, at, stop, ok) = (suc j, (h, s, on), at, stop, ok)
    later h s (interrupted q) (j, on, at, ok) = (suc j, (h, s, on), at, ok)
    later h s (waiting q) (on, at, g, ok) = ((h, s, on), at, g, ok)

-- A read that returns bytes: it saw the pipe `q`, after some of the wakes.
pub record Took (ws : List Wake) (p : Pipe) (n : ℤ) (o : Outcome (Return × List ℕ)) : Type 0 where
  pub seen : Pipe
  pub wakes : ℕ
  pub waited : WaitedOn wakes ws p
  pub at : seen ≡ after (take wakes ws) p
  pub awake : (0 < count seen) ⊎ (seen.writeopen ≡ false)
  pub value :
      o.result ≡ (returned (pos (min (pos_part n) (count seen))), take (pos_part n) (contents seen))
  pub rest : contents o.pipe ≡ drop (pos_part n) (contents seen)
  pub valid : IsValid o.pipe
  pub woken : o.wakeups ≡ 1

-- A read that returns none, and why: the pipe was starved all the while and it sleeps on, or a
-- signal has ended its sleep.
abbrev pub Why : List Wake → Pipe → Outcome (Return × List ℕ) → Type 0
Why ws p o =
    ((o.result ≡ (asleep, [])) × WaitedOn (length ws) ws p × Starved o.pipe × (o.pipe ≡ after ws p))
    ⊎ ((o.result ≡ (returned (minus erestartsys), []))
        × ((j : ℕ) × Interrupted j ws p × (o.pipe ≡ after (take (suc j) ws) p)))

pub record Idle (ws : List Wake) (p : Pipe) (o : Outcome (Return × List ℕ)) : Type 0 where
  pub why : Why ws p o
  pub valid : IsValid o.pipe
  pub woken : o.wakeups ≡ 0

-- Whatever valid changes the others make while it sleeps, `pipe_read` goes to sleep only while the
-- pipe has no byte and a writer, and no signal was actionable after an earlier wake. Where the pipe
-- has a byte or no writer, at the start or after a wake without an actionable signal, it takes the
-- oldest bytes, at most `n`, and wakes the others once. After the first wake with an actionable
-- signal it returns -ERESTARTSYS, and after the last wake it sleeps on; then it takes nothing and
-- leaves the pipe as the others made it.
pub pipe_read_lem :
    (ws : List Wake) {p : Pipe} (n : ℤ)
    → Keeps ws
    → IsValid p
    → Took ws p n (pipe_read ws p n) ⊎ Idle ws p (pipe_read ws p n)
unfolding pipe_read WaitEnd
pipe_read_lem ws {p} n k v = split (wait_bytes ws p) refl (wait_bytes_lem ws k v)
  where
    split :
        (r : Waited)
        → wait_bytes ws p ≡ r
        → WaitEnd ws p r
        → Took ws p n (pipe_read ws p n) ⊎ Idle ws p (pipe_read ws p n)
    split (waiting q) e (on, at, h, ok) =
        inr (rw (e, pipe_read) (record { why = inl (refl, on, h, at); valid = ok; woken = refl }))
    split (interrupted q) e (j, on, at, ok) =
        inr (rw (e, pipe_read) (record { why = inr (refl, (j, on, at)); valid = ok; woken = refl }))
    split (ready q vs) e (j, on, at, stop, ok) =
        let c = copy_out_lem (pos_part n) ok in
        inl (
          rw (e, pipe_read)
            (record {
              seen = q;
              wakes = j;
              waited = on;
              at = at;
              awake = ground (arith, is_empty_iff ok);
              value = rw c.0 (
                  ap (λ m. (returned (pos m), take (pos_part n) (contents q)))
                    (omega (arith, length-take (pos_part n) (contents q), length-contents q)));
              rest = c.1;
              valid = c.2;
              woken = refl;
            }))
