-- ===== src/Base/Sets.antt =====
-- Lists of distinct numbers as sets: membership, removal and counting.
use Prim.Native.Nat.{ℕ, ◌+◌, ◌≤◌}
use mathlib.Core.Path.{◌≡◌, refl, sym, ap, ◌∙◌}
use mathlib.Core.Logic.{◌≢◌, inl, inr}
use mathlib.Core.Bool.{Bool, true, false, not, ◌&&◌, ◌||◌}
use mathlib.Core.List.{List, [], ◌∷◌}
use native.Mathlib.Omega.{arith}
use sbunix.Base.Tests.{◌==◌, if◌then◌else◌, Bool-cases, eq_of_==}

abbrev pub has : ℕ → List ℕ → Bool
has i [] = false
has i (x ∷ xs) = (x == i) || has i xs

-- Without the first occurrence of `i`.
abbrev pub remove : ℕ → List ℕ → List ℕ
remove i [] = []
remove i (x ∷ xs) = if x == i then xs else x ∷ remove i xs

abbrev pub Nodup : List ℕ → Type 0
Nodup [] = Unit
Nodup (x ∷ xs) = (has x xs ≡ false) × Nodup xs

-- How many of them pass a test.
abbrev pub count : (ℕ → Bool) → List ℕ → ℕ
count f [] = 0
count f (x ∷ xs) = (if f x then 1 else 0) + count f xs

pub has-remove :
    (i j : ℕ) (xs : List ℕ) → Nodup xs → has j (remove i xs) ≡ (has j xs && not (j == i))
has-remove i j [] d = refl
has-remove i j (x ∷ xs) d = ground (arith, has-remove i j xs d.1)

pub Nodup-remove : (i : ℕ) (xs : List ℕ) → Nodup xs → Nodup (remove i xs)
Nodup-remove i [] d = tt
Nodup-remove i (x ∷ xs) d = ground (arith, Nodup-remove i xs, has-remove i x xs)

pub count-remove :
    (f : ℕ → Bool) (i : ℕ) (xs : List ℕ)
    → has i xs ≡ true
    → count f xs ≡ (if f i then 1 else 0) + count f (remove i xs)
count-remove f i [] h = cc
count-remove f i (x ∷ xs) h = ground (arith, count-remove f i xs)

pub count-congr :
    (f g : ℕ → Bool) (xs : List ℕ)
    → ((j : ℕ) → has j xs ≡ true → f j ≡ g j)
    → count f xs ≡ count g xs
count-congr f g [] e = refl
count-congr f g (x ∷ xs) e =
    rw (e x (ground arith))
      (ap (λ n. (if g x then 1 else 0) + n) (count-congr f g xs (λ j h. e j (ground arith))))

pub count_mono :
    (f g : ℕ → Bool) (xs : List ℕ)
    → ((j : ℕ) → has j xs ≡ true → f j ≡ true → g j ≡ true)
    → count f xs ≤ count g xs
count_mono f g [] e = omega arith
count_mono f g (x ∷ xs) e =
    let ih = count_mono f g xs (λ j h. e j (ground arith)) in
    elim (Bool-cases (f x)) [
      | inl t ↦ rw (t, e x (ground arith) t) (omega arith)
      | inr t ↦ rw t (ground arith)
    ]

-- The count falls by one at most when one member stops to pass.
pub count_mono_but :
    (f g : ℕ → Bool) (i : ℕ) (xs : List ℕ)
    → Nodup xs
    → ((j : ℕ) → has j xs ≡ true → j ≢ i → f j ≡ true → g j ≡ true)
    → count f xs ≤ count g xs + 1
count_mono_but f g i [] d e = omega arith
count_mono_but f g i (x ∷ xs) d e = elim (Bool-cases (x == i)) [
  | inl t ↦
      let q : x ≡ i = eq_of_== x i t in
      let h : has i xs ≡ false = ap (λ y. has y xs) (sym q) ∙ d.0 in
      let m =
        count_mono f g xs
          (λ j hj. e j (ground arith) (λ r. cc (sym hj ∙ ap (λ y. has y xs) r ∙ h))) in
      ground (arith, m)
  | inr t ↦
      let ih = count_mono_but f g i xs d.1 (λ j h. e j (ground arith)) in
      elim (Bool-cases (f x)) [
        | inl u ↦ rw (u, e x (ground arith) (ground arith) u) (omega (arith, ih))
        | inr u ↦ rw u (ground (arith, ih))
      ]
]

-- The same distinct numbers, perhaps in another order.
pub record SameSet (xs ys : List ℕ) : Type 0 where
  pub nodup : Nodup ys
  pub members : (j : ℕ) → has j ys ≡ has j xs
  pub counts : (f : ℕ → Bool) → count f ys ≡ count f xs

pub SameSet-refl : {xs : List ℕ} → Nodup xs → SameSet xs xs
SameSet-refl d = record { nodup = d; members = λ j. refl; counts = λ f. refl }

pub SameSet-trans : {xs ys zs : List ℕ} → SameSet xs ys → SameSet ys zs → SameSet xs zs
SameSet-trans p q = record {
  nodup = q.nodup;
  members = λ j. q.members j ∙ p.members j;
  counts = λ f. q.counts f ∙ p.counts f;
}

pub SameSet-front :
    (i : ℕ) {xs : List ℕ} → has i xs ≡ true → Nodup xs → SameSet xs (i ∷ remove i xs)
SameSet-front i {xs} h d = record {
  nodup = (ground (arith, has-remove i i xs d), Nodup-remove i xs d);
  members = λ j. ground (arith, has-remove i j xs d);
  counts = λ f. sym (count-remove f i xs h);
}
