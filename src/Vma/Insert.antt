-- ===== src/Vma/Insert.antt =====
-- `vma_insert` and `vma_find` on an ordered list of areas.
use sbunix.Base.{
  ℕ, ◌≤◌, ◌<◌, ◌≡◌, refl, ◌⊎◌, inl, inr, Bool, true, false, ◌&&◌, ◌||◌, ltb, leb, arith,
  if◌then◌else◌, Bool-cases, Option, none, some, List, [], ◌∷◌, All,
}
use sbunix.Base.Int.{ℤ, pos, minus}
use sbunix.Base.Sets.{has}
use sbunix.Base.Errno.{einval}
use sbunix.Vma.{Slab, vma_find, insert_from, vma_insert}

-- The areas are not empty, and each ends where the next starts or before.
abbrev pub Ordered : Slab → List ℕ → Type 0
Ordered s [] = Unit
Ordered s (v ∷ []) = (s.area v).start < (s.area v).end
Ordered s (v ∷ w ∷ vs) =
    ((s.area v).start < (s.area v).end) × ((s.area v).end ≤ (s.area w).start) × Ordered s (w ∷ vs)

-- Is the address in an area of the list?
abbrev pub covers : Slab → List ℕ → ℕ → Bool
covers s [] va = false
covers s (v ∷ vs) va = (leb (s.area v).start va && ltb va (s.area v).end) || covers s vs va

-- The area has no address in common with one of the list.
abbrev pub Free : Slab → ℕ → List ℕ → Type 0
Free s v = All (λ x. ((s.area v).end ≤ (s.area x).start) ⊎ ((s.area x).end ≤ (s.area v).start))

-- What stands before the place ends before the area `v`, and starts before it.
abbrev Before : Slab → Option ℕ → ℕ → Type 0
Before s none v = Unit
Before s (some p) v = (s.area p).start < (s.area v).start

abbrev After : Slab → Option ℕ → List ℕ → Type 0
After s none xs = Ordered s xs
After s (some p) xs = Ordered s (p ∷ xs)

-- The result of an insertion at a place.
abbrev Inserted : Slab → Option ℕ → List ℕ → ℕ → Option (List ℕ) → Type 0
Inserted s prev xs v none = Unit
Inserted s prev xs v (some ys) =
    After s prev ys
    × ((va : ℕ)
        → covers s ys va ≡ ((leb (s.area v).start va && ltb va (s.area v).end) || covers s xs va))

insert_from-Inserted :
    (s : Slab) (prev : Option ℕ) (xs : List ℕ) (v : ℕ)
    → (s.area v).start < (s.area v).end
    → Before s prev v
    → After s prev xs
    → Inserted s prev xs v (insert_from s prev xs v)
unfolding insert_from
insert_from-Inserted s none [] v h b o = (h, λ va. refl)
insert_from-Inserted s (some p) [] v h b o =
    elim (Bool-cases (ltb (s.area v).start (s.area p).end)) [
      | inl e ↦ rw e tt
      | inr e ↦ rw e ((o, ground (arith, e), h), λ va. refl)
    ]
insert_from-Inserted s prev (x ∷ xs) v h b o =
    elim (Bool-cases (ltb (s.area x).start (s.area v).start)) [
      | inl e ↦ rw e (
          later (insert_from s (some x) xs v)
            (insert_from-Inserted s (some x) xs v h (ground (arith, e)) (tail prev o)))
      | inr e ↦ elim (Bool-cases (ltb (s.area x).start (s.area v).end)) [
        | inl e' ↦ rw (e, e') tt
        | inr e' ↦ rw (e, e') (here prev b o (ground (arith, e')))
      ]
    ]
  where
    tail : (prev : Option ℕ) → After s prev (x ∷ xs) → Ordered s (x ∷ xs)
    tail none o = o
    tail (some p) (_, _, o) = o

    behind :
        (prev : Option ℕ) (ys : List ℕ)
        → After s prev (x ∷ xs)
        → Ordered s (x ∷ ys)
        → After s prev (x ∷ ys)
    behind none ys o o' = o'
    behind (some p) ys (a, c, _) o' = (a, c, o')

    later :
        (r : Option (List ℕ))
        → Inserted s (some x) xs v r
        → Inserted s prev (x ∷ xs) v (elim r [ none ↦ none | some ys ↦ some (x ∷ ys) ])
    later none i = tt
    later (some ys) (o', c) = (behind prev ys o o', λ va. ground (arith, c va))

    here :
        (prev : Option ℕ)
        → Before s prev v
        → After s prev (x ∷ xs)
        → (s.area v).end ≤ (s.area x).start
        → Inserted s prev (x ∷ xs) v (elim prev [
          | none ↦ some (v ∷ x ∷ xs)
          | some p ↦ if ltb (s.area v).start (s.area p).end then none else some (v ∷ x ∷ xs)
        ])
    here none b o le = ((h, le, o), λ va. refl)
    here (some p) b (a, c, o) le = elim (Bool-cases (ltb (s.area v).start (s.area p).end)) [
      | inl e ↦ rw e tt
      | inr e ↦ rw e ((a, ground (arith, e), (h, le, o)), λ va. refl)
    ]

-- What stands before the place has no address in common with the area.
abbrev Clear : Slab → Option ℕ → ℕ → Type 0
Clear s none v = Unit
Clear s (some p) v = (s.area p).end ≤ (s.area v).start

insert_from-Free :
    (s : Slab) (prev : Option ℕ) (xs : List ℕ) (v : ℕ)
    → (s.area v).start < (s.area v).end
    → Clear s prev v
    → After s prev xs
    → Free s v xs
    → (ys : List ℕ) × (insert_from s prev xs v ≡ some ys)
unfolding insert_from
insert_from-Free s none [] v h b o f = (v ∷ [], refl)
insert_from-Free s (some p) [] v h b o f = (v ∷ [], ground arith)
insert_from-Free s prev (x ∷ xs) v h b o f =
    elim (Bool-cases (ltb (s.area x).start (s.area v).start)) [
      | inl e ↦
          let sx : (s.area x).start < (s.area v).start = ground (arith, e) in
          let (ys, r) =
            insert_from-Free s (some x) xs v h (omega (arith, f.0, sx, h)) (tail prev o) f.1 in
          (x ∷ ys, rw (e, r) refl)
      | inr e ↦
          let le : (s.area v).end ≤ (s.area x).start = ground (arith, e, f.0, filled prev o) in
          (v ∷ x ∷ xs, here prev b e le)
    ]
  where
    tail : (prev : Option ℕ) → After s prev (x ∷ xs) → Ordered s (x ∷ xs)
    tail none o = o
    tail (some p) (_, _, o) = o

    filled_in : (zs : List ℕ) → Ordered s (x ∷ zs) → (s.area x).start < (s.area x).end
    filled_in [] o = o
    filled_in (z ∷ zs) o = o.0

    filled : (prev : Option ℕ) → After s prev (x ∷ xs) → (s.area x).start < (s.area x).end
    filled prev o = filled_in xs (tail prev o)

    here :
        (prev : Option ℕ)
        → Clear s prev v
        → ltb (s.area x).start (s.area v).start ≡ false
        → (s.area v).end ≤ (s.area x).start
        → insert_from s prev (x ∷ xs) v ≡ some (v ∷ x ∷ xs)
    here none b e le = ground arith
    here (some p) b e le = ground arith

-- Inserting an area that is not empty into an ordered list keeps it ordered on every branch; when
-- the call succeeds the list covers the area's addresses besides those of before, and when it fails
-- the list is as it was.
pub vma_insert-Ordered :
    (s : Slab) (list : List ℕ) (v : ℕ)
    → (s.area v).start < (s.area v).end
    → Ordered s list
    → Ordered s (vma_insert s list v).1
      × (((vma_insert s list v ≡ (minus einval, list)))
          ⊎ ((((vma_insert s list v).0 ≡ pos 0)
              × ((va : ℕ)
                  → covers s (vma_insert s list v).1 va
                    ≡ ((leb (s.area v).start va && ltb va (s.area v).end) || covers s list va)))))
unfolding vma_insert
vma_insert-Ordered s list v h o =
    go (insert_from s none list v) (insert_from-Inserted s none list v h tt o)
  where
    pick : Option (List ℕ) → ℤ × List ℕ
    pick r = elim r [ none ↦ (minus einval, list) | some ys ↦ (pos 0, ys) ]

    go :
        (r : Option (List ℕ))
        → Inserted s none list v r
        → Ordered s (pick r).1
          × ((pick r ≡ (minus einval, list))
              ⊎ (((pick r).0 ≡ pos 0)
                  × ((va : ℕ)
                      → covers s (pick r).1 va ≡ (
                          (leb (s.area v).start va && ltb va (s.area v).end) || covers s list va))))
    go none i = (o, inl refl)
    go (some ys) (o', c) = (o', inr (refl, c))

-- An area that is not empty and has no address in common with those of an ordered list is inserted.
pub vma_insert-Free :
    (s : Slab) (list : List ℕ) (v : ℕ)
    → (s.area v).start < (s.area v).end
    → Ordered s list
    → Free s v list
    → (vma_insert s list v).0 ≡ pos 0
unfolding vma_insert
vma_insert-Free s list v h o f =
    let (ys, e) = insert_from-Free s none list v h tt o f in rw (e, vma_insert) refl

-- What `vma_find` may return for the address.
abbrev pub IsFound : Slab → List ℕ → ℕ → Option ℕ → Type 0
IsFound s list va none = covers s list va ≡ false
IsFound s list va (some v) = (has v list ≡ true) × ((s.area v).start ≤ va) × (va < (s.area v).end)

-- `vma_find` returns an area of the list that has the address, and the null pointer when and only
-- when no area of the list has it.
pub vma_find-IsFound : (s : Slab) (list : List ℕ) (va : ℕ) → IsFound s list va (vma_find s list va)
unfolding vma_find
vma_find-IsFound s [] va = refl
vma_find-IsFound s (v ∷ vs) va =
    elim (Bool-cases (leb (s.area v).start va && ltb va (s.area v).end)) [
      | inl e ↦ rw e (ground arith, ground (arith, e), ground (arith, e))
      | inr e ↦ rw e (more (vma_find s vs va) e (vma_find-IsFound s vs va))
    ]
  where
    more :
        (r : Option ℕ)
        → (leb (s.area v).start va && ltb va (s.area v).end) ≡ false
        → IsFound s vs va r
        → IsFound s (v ∷ vs) va r
    more none e f = ground arith
    more (some w) e f = (ground (arith, f.0), f.1, f.2)
