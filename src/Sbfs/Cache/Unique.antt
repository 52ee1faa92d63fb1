-- ===== src/Sbfs/Cache/Unique.antt =====
-- The inode cache has one live entry at most for each inode.
use sbunix.Base.{
  ℕ, zero, suc, ◌+◌, ◌^◌, ◌≤◌, ◌<◌, ◌≡◌, ◌≢◌, refl, sym, ap, ◌∙◌, ◌⊎◌, inl, inr, Bool, true, false,
  Option, none, some, arith, ◌==◌, Bool-cases, eq_of_==,
}
use sbunix.Sbfs.Inode.{Inode}
use sbunix.Sbfs.Cache.{Icache, is_free, is_live_as, first_slot, Slot, choose_slot, claim_slot}

abbrev Chosen : (Inode → Bool) → Icache → ℕ → ℕ → Option ℕ → Type 0
Chosen test c n i none = (j : ℕ) → i ≤ j → j < i + n → test (c j) ≡ false
Chosen test c n i (some k) = (i ≤ k) × (k < i + n) × (test (c k) ≡ true)

first_slot-Chosen :
    (test : Inode → Bool) (c : Icache) (n i : ℕ) → Chosen test c n i (first_slot test c n i)
unfolding first_slot
first_slot-Chosen test c zero i = λ j h h'. absurd (omega arith)
first_slot-Chosen test c (suc n) i = elim (Bool-cases (test (c i))) [
  | inl e ↦ simp e (omega arith, omega arith, refl)
  | inr e ↦ simp e (more (first_slot test c n (i + 1)) (first_slot-Chosen test c n (i + 1)) e)
]
  where
    at :
        (j : ℕ)
        → test (c i) ≡ false
        → (j ≡ i) ⊎ (i + 1 ≤ j)
        → (i + 1 ≤ j → test (c j) ≡ false)
        → test (c j) ≡ false
    at j e (inl q) f = ap (λ k. test (c k)) q ∙ e
    at j e (inr q) f = f q

    more :
        (r : Option ℕ) → Chosen test c n (i + 1) r → test (c i) ≡ false → Chosen test c (suc n) i r
    more none f e = λ j h h'. at j e (omega arith) (λ q. f j q (omega arith))
    more (some k) f e = (omega (arith, f), omega (arith, f), f.2)

-- No two live entries have one number.
abbrev pub Unique : Icache → Type 0
Unique c =
    (i j : ℕ)
    → i < 64
    → j < 64
    → 0 < (c i).vnode.refcnt
    → 0 < (c j).vnode.refcnt
    → (c i).inum ≡ (c j).inum
    → i ≡ j

-- What `sbfs_iget` chose for `inum` in the array `c`.
abbrev pub Choice : Icache → ℕ → Slot → Type 0
Choice c inum (Slot.hit i) = (i < 64) × (0 < (c i).vnode.refcnt) × ((c i).inum ≡ inum)
Choice c inum (Slot.taken i) =
    (i < 64)
    × ((c i).vnode.refcnt ≡ 0)
    × ((j : ℕ) → j < 64 → 0 < (c j).vnode.refcnt → (c j).inum ≢ inum)
Choice c inum Slot.pinned_all =
    ((j : ℕ) → j < 64 → 0 < (c j).vnode.refcnt) × ((j : ℕ) → j < 64 → (c j).inum ≢ inum)

choose_slot-Choice : (c : Icache) (inum : ℕ) → Choice c inum (choose_slot c inum)
unfolding choose_slot
choose_slot-Choice c inum =
    go (first_slot (is_live_as inum) c 64 0) (first_slot-Chosen (is_live_as inum) c 64 0)
  where
    Picked : Option ℕ → Type 0
    Picked r = Choice c inum (elim r [
      | some i ↦ Slot.hit i
      | none ↦ elim (first_slot is_free c 64 0) [ some i ↦ Slot.taken i | none ↦ Slot.pinned_all ]
    ])

    next :
        (r : Option ℕ)
        → Chosen is_free c 64 0 r
        → ((j : ℕ) → 0 ≤ j → j < 0 + 64 → is_live_as inum (c j) ≡ false)
        → Choice c inum (elim r [ some i ↦ Slot.taken i | none ↦ Slot.pinned_all ])
    next (some i) (_, lt, z) miss = (
      omega (arith, lt),
      ground (arith, z),
      λ j h live. ground (arith, live, miss j (omega arith) (omega (arith, h))),
    )
    next none full miss = (
      λ j h. ground (arith, full j (omega arith) (omega (arith, h))),
      λ j h.
          ground (
            arith,
            full j (omega arith) (omega (arith, h)),
            miss j (omega arith) (omega (arith, h)),
          ),
    )

    go : (r : Option ℕ) → Chosen (is_live_as inum) c 64 0 r → Picked r
    go (some i) (_, lt, t) = (omega (arith, lt), ground (arith, t), ground (arith, t))
    go none miss = next (first_slot is_free c 64 0) (first_slot-Chosen is_free c 64 0) miss

-- The slot that was chosen, if any, is live with the number.
abbrev pub IsLive : Icache → ℕ → Slot → Type 0
IsLive c inum (Slot.hit i) = (0 < (c i).vnode.refcnt) × ((c i).inum ≡ inum)
IsLive c inum (Slot.taken i) = (0 < (c i).vnode.refcnt) × ((c i).inum ≡ inum)
IsLive c inum Slot.pinned_all = Unit

-- In an inode cache with one live entry at most for each number, whose counts are below 2^31,
-- `sbfs_iget` chooses the live entry of the number when there is one, else a free slot, and none
-- only when all are live and none has the number. Afterwards no two live entries have one number
-- either, and the slot chosen is live with the number.
pub claim_slot-Unique :
    (c : Icache) (inum : ℕ)
    → Unique c
    → ((i : ℕ) → (c i).vnode.refcnt < 2 ^ 31)
    → Choice c inum (choose_slot c inum)
      × Unique (claim_slot c inum (choose_slot c inum))
      × IsLive (claim_slot c inum (choose_slot c inum)) inum (choose_slot c inum)
unfolding claim_slot
claim_slot-Unique c inum u small =
    let h = choose_slot-Choice c inum in
    (h, unique (choose_slot c inum) h, live (choose_slot c inum) h)
  where
    unique : (r : Slot) → Choice c inum r → Unique (claim_slot c inum r)
    unique (Slot.hit i) (lt, pinned, e) = λ a b ha hb la lb q.
        u a b ha hb (ground (arith, la, pinned)) (ground (arith, lb, pinned)) (ground (arith, q))
    unique (Slot.taken i) (lt, free, miss) = λ a b ha hb la lb q. elim (Bool-cases (a == i)) [
      | inl qa ↦ elim (Bool-cases (b == i)) [
        | inl qb ↦ eq_of_== a i qa ∙ sym (eq_of_== b i qb)
        | inr qb ↦ absurd (miss b hb (ground (arith, lb, qb)) (ground (arith, q, qa, qb)))
      ]
      | inr qa ↦ elim (Bool-cases (b == i)) [
        | inl qb ↦ absurd (miss a ha (ground (arith, la, qa)) (ground (arith, q, qa, qb)))
        | inr qb ↦
            u a b ha hb (ground (arith, la, qa)) (ground (arith, lb, qb))
              (ground (arith, q, qa, qb))
      ]
    ]
    unique Slot.pinned_all h = u

    live : (r : Slot) → Choice c inum r → IsLive (claim_slot c inum r) inum r
    live (Slot.hit i) (lt, pinned, e) = (ground (arith, pinned, small i), ground (arith, e))
    live (Slot.taken i) h = (ground arith, ground arith)
    live Slot.pinned_all h = tt
