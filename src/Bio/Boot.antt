-- ===== src/Bio/Boot.antt =====
-- `binit`: the cache of a machine that starts.
use sbunix.Base.{
  ℕ, zero, suc, ◌+◌, ◌<◌, ◌≡◌, refl, sym, ◌∙◌, Bool, true, false, ◌||◌, ◌==◌, List, [], ◌∷◌, ◌++◌,
  arith, subst, if◌then◌else◌,
}
use sbunix.Base.Sets.{has, Nodup, count, count-congr}
use sbunix.Bio.{Cache, nbuf, is_victim, init_slot, init_from, binit}
use sbunix.Bio.Cached.{IsCache}
use sbunix.Bio.Write.{IsSmall}

has-append : (j i : ℕ) (xs : List ℕ) → has j (xs ++ (i ∷ [])) ≡ (has j xs || (i == j))
has-append j i [] = ground arith
has-append j i (x ∷ xs) = ground (arith, has-append j i xs)

Nodup-append : (i : ℕ) (xs : List ℕ) → Nodup xs → has i xs ≡ false → Nodup (xs ++ (i ∷ []))
Nodup-append i [] d h = (refl, tt)
Nodup-append i (x ∷ xs) d h =
    (ground (arith, has-append x i xs), Nodup-append i xs d.1 (ground arith))

count-append :
    (f : ℕ → Bool) (i : ℕ) (xs : List ℕ)
    → count f (xs ++ (i ∷ [])) ≡ count f xs + (if f i then 1 else 0)
count-append f i [] = omega arith
count-append f i (x ∷ xs) = omega (arith, count-append f i xs)

-- The first `m` buffers are in the ring, free and empty; disk and small counts are as in `c0`.
record Fresh (m : ℕ) (c0 c : Cache) : Type 0 where
  nodup : Nodup c.order
  below : (j : ℕ) → has j c.order ≡ true → j < m
  free : (j : ℕ) → has j c.order ≡ true → is_victim c j ≡ true
  empty : (j : ℕ) → has j c.order ≡ true → (c.slot j).valid ≡ false
  all : count (is_victim c) c.order ≡ m
  small : IsSmall c
  disk : c.disk ≡ c0.disk
  trace : c.trace ≡ c0.trace

init_slot-Fresh : (m : ℕ) (c0 c : Cache) → Fresh m c0 c → Fresh (m + 1) c0 (init_slot c m)
init_slot-Fresh m c0 c f = record {
  nodup = Nodup-append m c.order f.nodup (new (has m c.order) refl);
  below = λ j h. ground (arith, has-append j m c.order, f.below j);
  free = λ j h. ground (arith, has-append j m c.order, f.free j);
  empty = λ j h. ground (arith, has-append j m c.order, f.empty j);
  all = rw (count-append (is_victim (init_slot c m)) m c.order) (ground (arith, f.all, same));
  small = λ j. ground (arith, f.small j);
  disk = f.disk;
  trace = f.trace;
}
  where
    new : (b : Bool) → has m c.order ≡ b → b ≡ false
    new true e = absurd (omega (arith, f.below m e))
    new false e = refl

    same : count (is_victim (init_slot c m)) c.order ≡ count (is_victim c) c.order
    same =
        count-congr (is_victim (init_slot c m)) (is_victim c) c.order
          (λ j h. ground (arith, f.below j h))

init_from-Fresh : (n m : ℕ) (c0 c : Cache) → Fresh m c0 c → Fresh (n + m) c0 (init_from n m c)
unfolding init_from
init_from-Fresh zero m c0 c f = let e : m ≡ 0 + m = omega arith in subst (λ x. Fresh x c0 c) e f
init_from-Fresh (suc n) m c0 c f =
    let e : n + (m + 1) ≡ suc n + m = omega arith in
    subst (λ x. Fresh x c0 (init_from n (m + 1) (init_slot c m))) e
      (init_from-Fresh n (m + 1) c0 (init_slot c m) (init_slot-Fresh m c0 c f))

-- What `binit` establishes: all 32 buffers are free and clean, no block is cached, and nothing is
-- read or written.
pub record Booted (c c' : Cache) : Type 0 where
  pub cached : IsCache c'
  pub small : IsSmall c'
  pub free : count (is_victim c') c'.order ≡ nbuf
  pub clean : (j : ℕ) → has j c'.order ≡ true → is_victim c' j ≡ true
  pub disk : c'.disk ≡ c.disk
  pub trace : c'.trace ≡ c.trace

-- From a memory without huge reference counts, `binit` makes a cache that keeps the invariant, with
-- all buffers free and nothing read or written.
pub binit-Booted : (c : Cache) → IsSmall c → Booted c (binit c)
unfolding binit
binit-Booted c s =
    let f : Fresh nbuf c (init_from nbuf 0 (record c { order = [] })) =
      init_from-Fresh nbuf 0 c (record c { order = [] })
        (record {
          nodup = tt;
          below = λ j h. cc;
          free = λ j h. cc;
          empty = λ j h. cc;
          all = refl;
          small = s;
          disk = refl;
          trace = refl;
        }) in
    record {
      cached = record {
        nodup = f.nodup;
        unique = λ i j hi hj vi vj e. cc (sym vi ∙ f.empty i hi);
        coherent = λ i hi vi di. cc (sym vi ∙ f.empty i hi);
      };
      small = f.small;
      free = f.all;
      clean = f.free;
      disk = f.disk;
      trace = f.trace;
    }
