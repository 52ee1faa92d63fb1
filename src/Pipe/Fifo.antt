-- ===== src/Pipe/Fifo.antt =====
-- The bytes that a pipe holds, oldest first, and the invariant of its two counters.
use sbunix.Base.{
  ℕ, zero, suc, ◌+◌, ◌-◌, ◌%◌, ◌^◌, ◌≤◌, ◌<◌, ◌≡◌, ◌≢◌, refl, ap, ap₂, ◌∙◌, List, [], ◌∷◌, ◌++◌,
  length, arith, ◌==◌, update, update_self, update_ne, add32, sub32,
}
use sbunix.Pipe.{Pipe, pipe_size, is_empty, is_full, fetch, advance, store}

-- The bytes in the buffer, by the counters' difference modulo 2 ^ 32.
abbrev pub count : Pipe → ℕ
count p = sub32 p.nwrite p.nread

pub record IsValid (p : Pipe) : Type 0 where
  pub read_word : p.nread < 2 ^ 32
  pub write_word : p.nwrite < 2 ^ 32
  pub fits : count p ≤ pipe_size

-- The `n` bytes from the counter value `k` on.
abbrev pub window : (ℕ → ℕ) → ℕ → ℕ → List ℕ
window f k zero = []
window f k (suc n) = f (k % pipe_size) ∷ window f (add32 k 1) n

abbrev pub contents : Pipe → List ℕ
contents p = window p.bytes p.nread (count p)

pub length-contents : (p : Pipe) → length (contents p) ≡ count p
length-contents p = go p.nread (count p)
  where
    go : (k n : ℕ) → length (window p.bytes k n) ≡ n
    go k zero = refl
    go k (suc n) = ap suc (go (add32 k 1) n)

pub window_of_pos :
    (f : ℕ → ℕ) (k n : ℕ) → 0 < n → window f k n ≡ f (k % pipe_size) ∷ window f (add32 k 1) (n - 1)
window_of_pos f k zero h = absurd (omega arith)
window_of_pos f k (suc n) h = ap (λ m. window f k (suc m)) (omega arith)

-- Writing just past a window extends it.
pub window-update :
    (f : ℕ → ℕ) (c k n i : ℕ)
    → k < 2 ^ 32
    → n < pipe_size
    → i ≡ (k + n) % pipe_size
    → window (update f i c) k (suc n) ≡ window f k n ++ (c ∷ [])
window-update f c k zero i hk hn e =
    let e' : k % pipe_size ≡ i = omega arith in ap (λ x. x ∷ []) (rw e' (update_self f i c))
window-update f c k (suc n) i hk hn e =
    let ne : k % pipe_size ≢ i = omega arith in
    ap₂ ◌∷◌ (update_ne f i (k % pipe_size) c ne)
      (window-update f c (add32 k 1) n i (omega arith) (omega arith) (omega arith))

-- `nread == nwrite` tests that there is no byte, `nwrite == nread + PIPESIZE` that all are used.
pub is_empty_iff : {p : Pipe} → IsValid p → is_empty p ≡ (count p == 0)
unfolding is_empty
is_empty_iff v = ground arith

pub is_full_iff : {p : Pipe} → IsValid p → is_full p ≡ (count p == pipe_size)
unfolding is_full
is_full_iff v = ground arith

pub advance-IsValid : {p : Pipe} → IsValid p → 0 < count p → IsValid (advance p)
unfolding advance
advance-IsValid v h = omega arith

pub store-IsValid : {p : Pipe} (c : ℕ) → IsValid p → count p < pipe_size → IsValid (store p c)
unfolding store
store-IsValid c v h = omega arith

pub contents-advance :
    {p : Pipe} → IsValid p → 0 < count p → contents p ≡ fetch p ∷ contents (advance p)
unfolding advance fetch
contents-advance {p} v h =
    window_of_pos p.bytes p.nread (count p) h
    ∙ ap (λ n. fetch p ∷ window p.bytes (add32 p.nread 1) n) (omega arith)

-- The byte goes behind those in the buffer.
pub contents-store :
    {p : Pipe} (c : ℕ)
    → IsValid p
    → count p < pipe_size
    → contents (store p c) ≡ contents p ++ (c ∷ [])
unfolding store
contents-store {p} c v h =
    let e : count (store p c) ≡ suc (count p) = omega arith in
    rw e
      (window-update p.bytes c p.nread (count p) (p.nwrite % pipe_size) v.read_word h (omega arith))
