-- ===== src/Malloc/Fit.antt =====
-- Rounding of sizes, and the best fit of `arena_alloc`.
use sbunix.Base.{
  ℕ, ◌+◌, ◌-◌, ◌%◌, ◌^◌, ◌≤◌, ◌<◌, ◌≡◌, refl, sym, ◌⊎◌, inl, inr, true, ltb, leb, ◌==◌, arith,
  Bool-cases, eq_of_==, subst, Option, none, some, List, [], ◌∷◌,
}
use sbunix.Base.Sets.{has}
use sbunix.Malloc.{Chunk, align, align_up, best_from}

-- A size of 64 bits is rounded up to the next multiple of 16, or the result is 0 when that multiple
-- does not fit into 64 bits.
pub align_up_lem :
    (n : ℕ)
    → n < 2 ^ 64
    → (((align_up n align % align ≡ 0) × (n ≤ align_up n align)) × (align_up n align < n + align))
      ⊎ ((align_up n align ≡ 0) × (2 ^ 64 < n + align))
unfolding align_up
align_up_lem n h = elim (Bool-cases (ltb (2 ^ 64 - 1 - (align - 1)) n)) [
  | inl e ↦ rw e (inr (refl, ground (arith, e)))
  | inr e ↦ rw e (inl ((omega arith, omega arith), omega arith))
]

-- The smallest chunk of the list, or the one at hand, that has the size.
abbrev pub Best : (ℕ → Chunk) → List ℕ → ℕ → Option ℕ → Type 0
Best h cs size none = (c : ℕ) → has c cs ≡ true → (h c).size < size
Best h cs size (some b) =
    (has b cs ≡ true)
    × (size ≤ (h b).size)
    × ((c : ℕ) → has c cs ≡ true → size ≤ (h c).size → (h b).size ≤ (h c).size)

-- The search with the chunk `b` at hand.
abbrev Better : (ℕ → Chunk) → List ℕ → ℕ → ℕ → Option ℕ → Type 0
Better h cs size b none = ⊥
Better h cs size b (some r) =
    ((r ≡ b) ⊎ (has r cs ≡ true))
    × (size ≤ (h r).size)
    × ((h r).size ≤ (h b).size)
    × ((c : ℕ) → has c cs ≡ true → size ≤ (h c).size → (h r).size ≤ (h c).size)

best_from-Better :
    (h : ℕ → Chunk) (cs : List ℕ) (size b : ℕ)
    → size ≤ (h b).size
    → Better h cs size b (best_from h cs size (some b))
unfolding best_from
best_from-Better h [] size b le = (inl refl, le, omega arith, λ c q. cc)
best_from-Better h (x ∷ xs) size b le = elim (Bool-cases (leb size (h x).size)) [
  | inr e ↦ rw e (
      keep (best_from h xs size (some b)) (λ s. ground (arith, e))
        (best_from-Better h xs size b le))
  | inl e ↦ elim (Bool-cases (ltb (h x).size (h b).size)) [
    | inl e' ↦
        rw (e, e')
          (swap (best_from h xs size (some x)) (ground (arith, e'))
            (best_from-Better h xs size x (ground (arith, e))))
    | inr e' ↦
        rw (e, e')
          (keep (best_from h xs size (some b)) (λ s. ground (arith, e'))
            (best_from-Better h xs size b le))
  ]
]
  where
    at :
        (c r : ℕ)
        → has c (x ∷ xs) ≡ true
        → (size ≤ (h x).size → (h r).size ≤ (h x).size)
        → ((has c xs ≡ true) → size ≤ (h c).size → (h r).size ≤ (h c).size)
        → size ≤ (h c).size
        → (h r).size ≤ (h c).size
    at c r q first later s = elim (Bool-cases (x == c)) [
      | inl t ↦
          let u : x ≡ c = eq_of_== x c t in
          subst (λ y. (h r).size ≤ (h y).size) u (first (subst (λ y. size ≤ (h y).size) (sym u) s))
      | inr t ↦ later (ground arith) s
    ]

    keep :
        (r : Option ℕ)
        → (size ≤ (h x).size → (h b).size ≤ (h x).size)
        → Better h xs size b r
        → Better h (x ∷ xs) size b r
    keep (some r) first (from, s, k, m) =
        (ground arith, s, k, λ c q. at c r q (λ z. omega (arith, k, first z)) (m c))
    keep none first z = z

    swap :
        (r : Option ℕ) → (h x).size < (h b).size → Better h xs size x r → Better h (x ∷ xs) size b r
    swap (some r) lt (from, s, k, m) =
        (ground arith, s, omega arith, λ c q. at c r q (λ z. k) (m c))
    swap none lt z = z

-- The search of `arena_alloc` finds the smallest free chunk that has the size, and none only when
-- every free chunk is smaller.
pub best_from-Best :
    (h : ℕ → Chunk) (cs : List ℕ) (size : ℕ) → Best h cs size (best_from h cs size none)
unfolding best_from
best_from-Best h [] size = λ c q. cc
best_from-Best h (x ∷ xs) size = elim (Bool-cases (leb size (h x).size)) [
  | inr e ↦ rw e (skip (best_from h xs size none) (ground (arith, e)) (best_from-Best h xs size))
  | inl e ↦
      rw e (take (best_from h xs size (some x)) (best_from-Better h xs size x (ground (arith, e))))
]
  where
    skip : (r : Option ℕ) → (h x).size < size → Best h xs size r → Best h (x ∷ xs) size r
    skip none lt f = λ c q. elim (Bool-cases (x == c)) [
      | inl t ↦ subst (λ y. (h y).size < size) (eq_of_== x c t) lt
      | inr t ↦ f c (ground arith)
    ]
    skip (some r) lt (a, s, m) = (
      ground arith,
      s,
      λ c q z. elim (Bool-cases (x == c)) [
        | inl t ↦ absurd (omega (arith, z, subst (λ y. (h y).size < size) (eq_of_== x c t) lt))
        | inr t ↦ m c (ground arith) z
      ],
    )

    take : (r : Option ℕ) → Better h xs size x r → Best h (x ∷ xs) size r
    take none z = absurd z
    take (some r) (from, s, k, m) = (
      elim from [ inl e ↦ ground arith | inr e ↦ ground arith ],
      s,
      λ c q z. elim (Bool-cases (x == c)) [
        | inl t ↦ subst (λ y. (h r).size ≤ (h y).size) (eq_of_== x c t) k
        | inr t ↦ m c (ground arith) z
      ],
    )
