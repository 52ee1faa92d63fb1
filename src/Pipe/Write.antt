-- ===== src/Pipe/Write.antt =====
-- `pipe_write`: what it stores, when it waits for room, and when the pipe is broken.
use sbunix.Base.{
  ℕ, zero, suc, ◌+◌, ◌≤◌, ◌<◌, ◌≡◌, refl, sym, ap, ◌∙◌, subst, inl, inr, min, true, false, List, [],
  ◌∷◌, ◌++◌, map, append-nil, append_assoc, length, drop, All, length-append, length-drop,
  drop-append, drop-drop, arith, Bool-cases,
}
use sbunix.Base.Int.{pos, minus}
use sbunix.Base.Errno.{epipe}
use sbunix.Pipe.{
  Pipe, Wake, Outcome, Return, returned, pipe_size, is_full, advance, store, copy_out, wait_room,
  room, write_from, pipe_write,
}
use sbunix.Pipe.Fifo.{
  count, IsValid, contents, length-contents, is_full_iff, store-IsValid, contents-store,
}
use sbunix.Pipe.Read.{copy_out_lem}

-- With room at hand there is no wait, and none of the wakes is used.
wait_room_free :
    (ws : List Wake) {p : Pipe} (k : ℕ)
    → IsValid p
    → count p < pipe_size
    → wait_room ws p k ≡ room p ws k
unfolding wait_room
wait_room_free [] k v h = ground (arith, is_full_iff v)
wait_room_free (w ∷ ws) k v h = ground (arith, is_full_iff v)

readopen-store : (p : Pipe) (c : ℕ) → (store p c).readopen ≡ p.readopen
unfolding store
readopen-store p c = refl

count-store : {p : Pipe} (c : ℕ) → IsValid p → count p < pipe_size → count (store p c) ≡ count p + 1
unfolding store
count-store c v h = omega arith

-- The state after a write: its contents, and that it is still a pipe with a reader.
record Holds (p : Pipe) (bs : List ℕ) : Type 0 where
  valid : IsValid p
  bytes : contents p ≡ bs
  reader : p.readopen ≡ true

Holds-store :
    {p : Pipe} {bs : List ℕ} (c : ℕ)
    → Holds p bs
    → count p < pipe_size
    → Holds (store p c) (bs ++ (c ∷ []))
Holds-store {p} c h lt = record {
  valid = store-IsValid c h.valid lt;
  bytes = contents-store c h.valid lt ∙ ap (λ xs. xs ++ (c ∷ [])) h.bytes;
  reader = readopen-store p c ∙ h.reader;
}

write_from_room :
    (cs : List ℕ) (i : ℕ) (ws : List Wake) {p : Pipe} {bs : List ℕ} (k : ℕ)
    → Holds p bs
    → count p + length cs ≤ pipe_size
    → let o = write_from cs i ws p k in
      (o.result ≡ returned (pos (i + length cs)))
      × Holds o.pipe (bs ++ cs)
      × (o.wakeups ≡ k + 1)
      × (o.killed ≡ false)
unfolding write_from
write_from_room [] i ws {p} {bs} k h fit =
    (ap (λ n. returned (pos n)) (omega arith), rw (append-nil bs) h, refl, refl)
write_from_room (c ∷ cs) i ws {p} {bs} k h fit =
    let lt : count p < pipe_size = omega arith in
    let fit' : count (store p c) + length cs ≤ pipe_size =
      omega (arith, count-store c h.valid lt) in
    let (a, b, d, e) = write_from_room cs (i + 1) ws k (Holds-store c h lt) fit' in
    rw (wait_room_free ws k h.valid lt, h.reader, write_from)
      (a ∙ ap (λ n. returned (pos n)) (omega arith), rw (append_assoc bs (c ∷ []) cs) at b, d, e)

-- A write that fits into a pipe with a reader stores all its bytes behind those in the pipe, in one
-- go, with no wait; it returns their number and wakes the sleepers once.
pub pipe_write-append :
    (ws : List Wake) {p : Pipe} (cs : List ℕ)
    → IsValid p
    → p.readopen ≡ true
    → count p + length cs ≤ pipe_size
    → let o = pipe_write ws p cs in
      (o.result ≡ returned (pos (length cs)))
      × (contents o.pipe ≡ contents p ++ cs)
      × IsValid o.pipe
      × (o.wakeups ≡ 1)
      × (o.killed ≡ false)
unfolding pipe_write
pipe_write-append ws cs v r fit =
    let h = write_from_room cs 0 ws 0 (record { valid = v; bytes = refl; reader = r }) fit in
    (h.0 ∙ ap (λ n. returned (pos n)) (omega arith), h.1.bytes, h.1.valid, h.2, h.3)

-- With no reader a write of one byte or more stores nothing, fails with EPIPE and sends SIGPIPE,
-- also when the pipe is full.
pub pipe_write-broken :
    (ws : List Wake) (p : Pipe) (c : ℕ) (cs : List ℕ)
    → p.readopen ≡ false
    → pipe_write ws p (c ∷ cs)
      ≡ record { result = returned (minus epipe); pipe = p; wakeups = 0; killed = true }
unfolding pipe_write write_from wait_room
pipe_write-broken [] p c cs r = ground arith
pipe_write-broken (w ∷ ws) p c cs r = ground arith

-- A reader that runs while the writer sleeps, and takes up to `n` bytes.
abbrev pub reader : ℕ → Wake
reader n = record { others = λ p. (copy_out n p).1; signalled = false }

readopen-advance : (p : Pipe) → (advance p).readopen ≡ p.readopen
unfolding advance
readopen-advance p = refl

readopen-copy_out : (n : ℕ) (p : Pipe) → (copy_out n p).1.readopen ≡ p.readopen
unfolding copy_out
readopen-copy_out zero p = refl
readopen-copy_out (suc n) p = ground (arith, readopen-copy_out n (advance p), readopen-advance p)

Holds-reader : (n : ℕ) {p : Pipe} {bs : List ℕ} → Holds p bs → Holds (copy_out n p).1 (drop n bs)
Holds-reader n {p} h =
    let c = copy_out_lem n h.valid in
    record {
      valid = c.2;
      bytes = c.1 ∙ ap (drop n) h.bytes;
      reader = readopen-copy_out n p ∙ h.reader;
    }

wait_room_wake :
    (w : Wake) (ws : List Wake) (p : Pipe) (k : ℕ)
    → is_full p ≡ true
    → p.readopen ≡ true
    → w.signalled ≡ false
    → wait_room (w ∷ ws) p k ≡ wait_room ws (w.others p) (k + 1)
unfolding wait_room
wait_room_wake w ws p k full open_ quiet = ground arith

-- A full pipe waits for one reader at most.
wait_room_reader :
    (n : ℕ) (ws : List Wake) {p : Pipe} {bs : List ℕ} (k : ℕ)
    → Holds p bs
    → count p ≡ pipe_size
    → 0 < n
    → (wait_room (reader n ∷ ws) p k ≡ room (copy_out n p).1 ws (k + 1))
      × (count (copy_out n p).1 < pipe_size)
wait_room_reader n ws {p} {bs} k h full pos_n =
    (wait_room_wake (reader n) ws p k is_full-true h.reader refl ∙ rest, less)
  where
    h' : Holds (copy_out n p).1 (drop n bs)
    h' = Holds-reader n h

    is_full-true : is_full p ≡ true
    is_full-true = ground (arith, is_full_iff h.valid)

    less : count (copy_out n p).1 < pipe_size
    less = omega (
      arith,
      sym (length-contents (copy_out n p).1) ∙ ap length h'.bytes,
      length-drop n bs,
      sym (length-contents p) ∙ ap length h.bytes,
    )

    rest : wait_room ws (copy_out n p).1 (k + 1) ≡ room (copy_out n p).1 ws (k + 1)
    rest = wait_room_free ws (k + 1) h'.valid less

-- The result of a write of `cs` to a pipe that held `bs`, of which the readers took `d` bytes.
record Passed (o : Outcome Return) (n : ℕ) (bs : List ℕ) : Type 0 where
  taken : ℕ
  all_stored : o.result ≡ returned (pos n)
  holds : Holds o.pipe (drop taken bs)
  no_more : taken ≤ length bs

Passed-drop :
    (m : ℕ) {o : Outcome Return} {n : ℕ} (bs ys : List ℕ)
    → Passed o n (drop m bs ++ ys)
    → Passed o n (bs ++ ys)
Passed-drop m {o} bs ys r = record {
  taken = min m (length bs) + r.taken;
  all_stored = r.all_stored;
  holds =
      subst (Holds o.pipe)
        (ap (drop r.taken) (drop-append m bs ys) ∙ drop-drop r.taken (min m (length bs)) (bs ++ ys))
        r.holds;
  no_more = omega (
    arith,
    length-append {0} (drop m bs) ys,
    length-append {0} bs ys,
    length-drop {0} m bs,
    r.no_more,
  );
}

Passed-assoc :
    {o : Outcome Return} {n m : ℕ} (bs : List ℕ) (c : ℕ) (cs : List ℕ)
    → n ≡ m
    → Passed o n ((bs ++ (c ∷ [])) ++ cs)
    → Passed o m (bs ++ c ∷ cs)
Passed-assoc {o} bs c cs e r =
    subst (λ k. Passed o k (bs ++ c ∷ cs)) e (rw (append_assoc bs (c ∷ []) cs) at r)

write_from_drained :
    (cs : List ℕ) (i : ℕ) (ms : List ℕ) {p : Pipe} {bs : List ℕ} (k : ℕ)
    → Holds p bs
    → All (λ m. 0 < m) ms
    → length cs ≤ length ms
    → Passed (write_from cs i (map reader ms) p k) (i + length cs) (bs ++ cs)
unfolding write_from
write_from_drained [] i ms {p} {bs} k h pos_ms fit = record {
  taken = 0;
  all_stored = ap (λ n. returned (pos n)) (omega arith);
  holds = rw (append-nil bs) h;
  no_more = omega arith;
}
write_from_drained (c ∷ cs) i [] k h pos_ms fit = absurd (omega arith)
write_from_drained (c ∷ cs) i (m ∷ ms) {p} {bs} k h pos_ms fit = elim (Bool-cases (is_full p)) [
  | inr e ↦
      let lt : count p < pipe_size = ground (arith, is_full_iff h.valid, h.valid) in
      rw (wait_room_free (map reader (m ∷ ms)) k h.valid lt, h.reader, write_from)
        (Passed-assoc bs c cs (omega arith)
          (write_from_drained cs (i + 1) (m ∷ ms) k (Holds-store c h lt) pos_ms (omega arith)))
  | inl e ↦
      let full : count p ≡ pipe_size = ground (arith, is_full_iff h.valid) in
      let w = wait_room_reader m (map reader ms) k h full pos_ms.0 in
      let h' = Holds-reader m h in
      rw (w.0, h'.reader, write_from)
        (Passed-drop m bs (c ∷ cs) (
          Passed-assoc (drop m bs) c cs (omega arith) (
            write_from_drained cs (i + 1) ms (k + 1) (Holds-store c h' w.1) pos_ms.1
              (omega arith))))
]

-- A write of any length returns once the readers take at least one byte at each wake, with no
-- signal and a wake for every byte at hand: it stores all its bytes, in order and behind those in
-- the pipe, and what the pipe then holds is all of them but the oldest, which the readers took.
pub pipe_write-drained :
    (ms : List ℕ) {p : Pipe} (cs : List ℕ)
    → IsValid p
    → p.readopen ≡ true
    → All (λ m. 0 < m) ms
    → length cs ≤ length ms
    → let o = pipe_write (map reader ms) p cs in
      (o.result ≡ returned (pos (length cs)))
      × IsValid o.pipe
      × ((taken : ℕ) × (taken ≤ length (contents p ++ cs))
          × (contents o.pipe ≡ drop taken (contents p ++ cs)))
unfolding pipe_write
pipe_write-drained ms cs v r pos_ms fit =
    let h =
      write_from_drained cs 0 ms 0 (record { valid = v; bytes = refl; reader = r }) pos_ms fit in
    (
      h.all_stored ∙ ap (λ n. returned (pos n)) (omega arith),
      h.holds.valid,
      (h.taken, h.no_more, h.holds.bytes),
    )
