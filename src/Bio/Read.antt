-- ===== src/Bio/Read.antt =====
-- `bread`, `bwrite` and `brelse`: what they do to the cache and to the disk.
use sbunix.Base.{
  ℕ, ◌<◌, ◌≡◌, refl, sym, ap, ◌∙◌, ◌⊎◌, Bool, true, false, Option, none, some, List, [], ◌∷◌, arith,
  ◌==◌, if◌then◌else◌, update, update_self, eq_of_==, Bool-cases, inl, inr, add32, update-update,
}
use sbunix.Base.Sets.{has, count, SameSet, SameSet-refl, SameSet-front}
use sbunix.Bio.{
  Buf, Cache, set_slot, is_hit, is_victim, find_first, find_last, to_front, bget, fill, bread,
}
use sbunix.Bio.Cached.{IsCache}

-- What a search over the ring says.
abbrev pub Found : (ℕ → Bool) → List ℕ → Option ℕ → Type 0
Found f xs none = (j : ℕ) → has j xs ≡ true → f j ≡ false
Found f xs (some i) = (has i xs ≡ true) × (f i ≡ true)

pub find_first_lem : (f : ℕ → Bool) (xs : List ℕ) → Found f xs (find_first f xs)
unfolding find_first
find_first_lem f [] = λ j h. cc
find_first_lem f (x ∷ xs) = elim (Bool-cases (f x)) [
  | inl e ↦ simp e (ground arith, refl)
  | inr e ↦ simp e (more (find_first f xs) (find_first_lem f xs) e)
]
  where
    more : (r : Option ℕ) → Found f xs r → f x ≡ false → Found f (x ∷ xs) r
    more none h e = λ j hj. elim (Bool-cases (x == j)) [
      | inl q ↦ ap f (sym (eq_of_== x j q)) ∙ e
      | inr q ↦ h j (ground arith)
    ]
    more (some i) h e = (ground arith, h.1)

find_last_lem : (f : ℕ → Bool) (xs : List ℕ) → Found f xs (find_last f xs)
unfolding find_last
find_last_lem f [] = λ j h. cc
find_last_lem f (x ∷ xs) = more (find_last f xs) (find_last_lem f xs)
  where
    more :
        (r : Option ℕ)
        → Found f xs r
        → Found f (x ∷ xs) (elim r [ some j ↦ some j | none ↦ if f x then some x else none ])
    more (some i) h = (ground arith, h.1)
    more none h = elim (Bool-cases (f x)) [
      | inl e ↦ simp e (ground arith, refl)
      | inr e ↦ simp e (λ j hj. elim (Bool-cases (x == j)) [
        | inl q ↦ ap f (sym (eq_of_== x j q)) ∙ e
        | inr q ↦ h j (ground arith)
      ])
    ]

-- A count above zero: the search finds one.
count_zero :
    (f : ℕ → Bool) (xs : List ℕ) → ((j : ℕ) → has j xs ≡ true → f j ≡ false) → count f xs ≡ 0
count_zero f [] h = refl
count_zero f (x ∷ xs) h =
    rw (h x (ground arith)) (omega (arith, count_zero f xs (λ j hj. h j (ground arith))))

-- What a `bread` of block `b` returns: the buffer `i`, valid and pinned once more. A clean buffer
-- holds the disk's block; a dirty one is as it was. No other buffer and not the disk changes.
pub record Got (c : Cache) (b i : ℕ) (c' : Cache) : Type 0 where
  pub buf : Buf
  pub same : SameSet c.order c'.order
  pub here : has i c.order ≡ true
  pub slots : c'.slot ≡ update c.slot i buf
  pub valid : buf.valid ≡ true
  pub number : buf.blockno ≡ b
  pub pinned : buf.refcnt ≡ add32 (c.slot i).refcnt 1
  pub dirty : buf.dirty ≡ (c.slot i).dirty
  pub clean : (c.slot i).dirty ≡ false → buf.block ≡ c.disk b
  pub kept :
      (c.slot i).dirty ≡ true
      → ((c.slot i).blockno ≡ b) × ((c.slot i).valid ≡ true) × (buf.block ≡ (c.slot i).block)
  pub only :
      (j : ℕ) → has j c.order ≡ true → (c.slot j).valid ≡ true → (c.slot j).blockno ≡ b → j ≡ i
  pub reused : (((c.slot i).blockno ≡ b) × ((c.slot i).valid ≡ true)) ⊎ (is_victim c i ≡ true)
  pub disk : c'.disk ≡ c.disk
  pub trace : c'.trace ≡ c.trace

pub Got-at : {c c' : Cache} {b i : ℕ} (g : Got c b i c') → c'.slot i ≡ g.buf
Got-at {c} {i} g = ap (λ f. f i) g.slots ∙ update_self c.slot i g.buf

-- The cache after a hit, and after a miss that is filled.
abbrev hit : Cache → ℕ → Cache
hit c i = set_slot c i (record (c.slot i) { refcnt = add32 (c.slot i).refcnt 1 })

abbrev loaded : Cache → ℕ → ℕ → Buf
loaded c b i = record { valid = true; dirty = false; refcnt = 1; blockno = b; block = c.disk b }

abbrev emptied : Cache → ℕ → ℕ → Cache
emptied c b i =
    to_front
      (set_slot c i (record (c.slot i) { blockno = b; valid = false; dirty = false; refcnt = 1 })) i

fill-hit : (c : Cache) (i : ℕ) → (c.slot i).valid ≡ true → fill (hit c i) i ≡ hit c i
fill-hit c i e = ground arith

fill-emptied :
    (c : Cache) (b i : ℕ) → fill (emptied c b i) i ≡ to_front (set_slot c i (loaded c b i)) i
fill-emptied c b i =
    let at =
      update_self c.slot i
        (record (c.slot i) { blockno = b; valid = false; dirty = false; refcnt = 1 }) in
    rw at (ap (λ f. record (emptied c b i) { slot = f }) (update-update c.slot i _ _))

hit-Got :
    {c : Cache} (b i : ℕ)
    → IsCache c
    → has i c.order ≡ true
    → is_hit c b i ≡ true
    → Got c b i (hit c i)
hit-Got {c} b i v h e =
    let ok : (c.slot i).valid ≡ true = ground arith in
    let eq : (c.slot i).blockno ≡ b = ground arith in
    record {
      buf = record (c.slot i) { refcnt = add32 (c.slot i).refcnt 1 };
      same = SameSet-refl v.nodup;
      here = h;
      slots = refl;
      valid = ok;
      number = eq;
      pinned = refl;
      dirty = refl;
      clean = λ d. v.coherent i h ok d ∙ ap c.disk eq;
      kept = λ d. (eq, ok, refl);
      only = λ j hj vj bj. v.unique j i hj h vj ok (bj ∙ sym eq);
      reused = inl (eq, ok);
      disk = refl;
      trace = refl;
    }

loaded-Got :
    {c : Cache} (b i : ℕ)
    → IsCache c
    → has i c.order ≡ true
    → is_victim c i ≡ true
    → ((j : ℕ) → has j c.order ≡ true → is_hit c b j ≡ false)
    → Got c b i (to_front (set_slot c i (loaded c b i)) i)
loaded-Got {c} b i v h e miss =
    let z : (c.slot i).refcnt ≡ 0 = ground arith in
    let d : (c.slot i).dirty ≡ false = ground arith in
    record {
      buf = loaded c b i;
      same = SameSet-front i h v.nodup;
      here = h;
      slots = refl;
      valid = refl;
      number = refl;
      pinned = ap (λ r. add32 r 1) (sym z);
      dirty = sym d;
      clean = λ _. refl;
      kept = λ t. cc;
      only = λ j hj vj bj. ground (arith, miss j hj);
      reused = inr e;
      disk = refl;
      trace = refl;
    }

bget-hit :
    (c : Cache) (b i : ℕ) → find_first (is_hit c b) c.order ≡ some i → bget c b ≡ some (i, hit c i)
unfolding bget
bget-hit c b i e = ground arith

bget-miss :
    (c : Cache) (b i : ℕ)
    → find_first (is_hit c b) c.order ≡ none
    → find_last (is_victim c) c.order ≡ some i
    → bget c b ≡ some (i, emptied c b i)
unfolding bget
bget-miss c b i e e' = ground arith

-- In a cache that keeps the invariant and has an unpinned clean buffer, `bread` does not panic. It
-- returns a buffer of the ring that is valid, is of the block, is the only one of it and is pinned
-- once more; it holds the disk's block when it is clean and is as it was when it is dirty. The ring
-- has the same buffers, and no other buffer and not the disk changes.
pub bread-Got :
    {c : Cache} (b : ℕ)
    → IsCache c
    → 0 < count (is_victim c) c.order
    → (i : ℕ) × ((c' : Cache) × (bread c b ≡ some (i, c')) × Got c b i c')
unfolding bread
bread-Got {c} b v room =
    first (find_first (is_hit c b) c.order) refl (find_first_lem (is_hit c b) c.order)
  where
    Goal : Type 0
    Goal = (i : ℕ) × ((c' : Cache) × (bread c b ≡ some (i, c')) × Got c b i c')

    last :
        (r : Option ℕ)
        → find_first (is_hit c b) c.order ≡ none
        → ((j : ℕ) → has j c.order ≡ true → is_hit c b j ≡ false)
        → find_last (is_victim c) c.order ≡ r
        → Found (is_victim c) c.order r
        → Goal
    last none e miss e' f = absurd (omega (arith, count_zero (is_victim c) c.order f))
    last (some i) e miss e' f = (
      i,
      (
        to_front (set_slot c i (loaded c b i)) i,
        rw (bget-miss c b i e e') (ap (λ x. some (i, x)) (fill-emptied c b i)),
        loaded-Got b i v f.0 f.1 miss,
      ),
    )

    first :
        (r : Option ℕ) → find_first (is_hit c b) c.order ≡ r → Found (is_hit c b) c.order r → Goal
    first none e f =
        last (find_last (is_victim c) c.order) e f refl (find_last_lem (is_victim c) c.order)
    first (some i) e f = (
      i,
      (
        hit c i,
        rw (bget-hit c b i e) (ap (λ x. some (i, x)) (fill-hit c i (ground (arith, f.1)))),
        hit-Got b i v f.0 f.1,
      ),
    )
