-- ===== src/Bio/Cached.antt =====
-- The invariant of the buffer cache, and that a change of one buffer keeps it.
use sbunix.Base.{
  ℕ, ◌≡◌, ◌≢◌, sym, ap, ◌∙◌, ◌⊎◌, true, false, arith, ◌==◌, update, update_self, update_ne,
  eq_of_==, Bool-cases, inl, inr,
}
use sbunix.Base.Sets.{has, Nodup, SameSet}
use sbunix.Bio.{Buf, Cache}

-- At most one buffer caches a block, and what is cached is the disk's block unless it is dirty.
pub record IsCache (c : Cache) : Type 0 where
  pub nodup : Nodup c.order
  pub unique :
      (i j : ℕ)
      → has i c.order ≡ true
      → has j c.order ≡ true
      → (c.slot i).valid ≡ true
      → (c.slot j).valid ≡ true
      → (c.slot i).blockno ≡ (c.slot j).blockno
      → i ≡ j
  pub coherent :
      (i : ℕ)
      → has i c.order ≡ true
      → (c.slot i).valid ≡ true
      → (c.slot i).dirty ≡ false
      → (c.slot i).block ≡ c.disk (c.slot i).blockno

-- A valid buffer that is the only one of its block can be replaced by another of that block, if
-- the disk is that block of it, or it is dirty and the disk is as it was.
pub IsCache-set :
    {c : Cache} (c' : Cache) (i : ℕ) (s : Buf)
    → IsCache c
    → SameSet c.order c'.order
    → c'.slot ≡ update c.slot i s
    → has i c.order ≡ true
    → ((j : ℕ)
        → has j c.order ≡ true
        → (c.slot j).valid ≡ true
        → (c.slot j).blockno ≡ s.blockno
        → j ≡ i)
    → ((b : ℕ) → b ≢ s.blockno → c'.disk b ≡ c.disk b)
    → (s.dirty ≡ false → s.block ≡ c'.disk s.blockno)
    → (s.valid ≡ true)
    → IsCache c'
IsCache-set {c} c' i s v same e here only others own ok = record {
  nodup = same.nodup;
  unique = λ j k hj hk vj vk eq. two j k (at j) (at k) (back j hj) (back k hk) vj vk eq;
  coherent = λ j hj vj dj. one j (at j) (back j hj) vj dj;
}
  where
    At : ℕ → Type 0
    At j = ((j ≡ i) × (c'.slot j ≡ s)) ⊎ ((j ≢ i) × (c'.slot j ≡ c.slot j))

    at : (j : ℕ) → At j
    at j = elim (Bool-cases (j == i)) [
      | inl h ↦
          let q : j ≡ i = eq_of_== j i h in
          inl (q, ap (λ f. f j) e ∙ ap (λ k. update c.slot i s k) q ∙ update_self c.slot i s)
      | inr h ↦ let q : j ≢ i = ground arith in inr (q, ap (λ f. f j) e ∙ update_ne c.slot i j s q)
    ]

    back : (j : ℕ) → has j c'.order ≡ true → has j c.order ≡ true
    back j h = sym (same.members j) ∙ h

    two :
        (j k : ℕ)
        → At j
        → At k
        → has j c.order ≡ true
        → has k c.order ≡ true
        → (c'.slot j).valid ≡ true
        → (c'.slot k).valid ≡ true
        → (c'.slot j).blockno ≡ (c'.slot k).blockno
        → j ≡ k
    two j k (inl (p, _)) (inl (q, _)) hj hk vj vk eq = p ∙ sym q
    two j k (inl (p, ej)) (inr (_, ek)) hj hk vj vk eq =
        p
        ∙ sym (
            only k hk (sym (ap (λ (x : Buf). x.valid) ek) ∙ vk)
              (sym (ap (λ (x : Buf). x.blockno) ek) ∙ sym eq ∙ ap (λ (x : Buf). x.blockno) ej))
    two j k (inr (_, ej)) (inl (q, ek)) hj hk vj vk eq =
        only j hj (sym (ap (λ (x : Buf). x.valid) ej) ∙ vj)
          (sym (ap (λ (x : Buf). x.blockno) ej) ∙ eq ∙ ap (λ (x : Buf). x.blockno) ek)
        ∙ sym q
    two j k (inr (_, ej)) (inr (_, ek)) hj hk vj vk eq =
        v.unique j k hj hk (sym (ap (λ (x : Buf). x.valid) ej) ∙ vj)
          (sym (ap (λ (x : Buf). x.valid) ek) ∙ vk)
          (sym (ap (λ (x : Buf). x.blockno) ej) ∙ eq ∙ ap (λ (x : Buf). x.blockno) ek)

    one :
        (j : ℕ)
        → At j
        → has j c.order ≡ true
        → (c'.slot j).valid ≡ true
        → (c'.slot j).dirty ≡ false
        → (c'.slot j).block ≡ c'.disk (c'.slot j).blockno
    one j (inl (p, ej)) hj vj dj =
        ap (λ (x : Buf). x.block) ej
        ∙ own (sym (ap (λ (x : Buf). x.dirty) ej) ∙ dj)
        ∙ ap (λ (x : Buf). c'.disk x.blockno) (sym ej)
    one j (inr (ne, ej)) hj vj dj =
        let vj' = sym (ap (λ (x : Buf). x.valid) ej) ∙ vj in
        ap (λ (x : Buf). x.block) ej
        ∙ v.coherent j hj vj' (sym (ap (λ (x : Buf). x.dirty) ej) ∙ dj)
        ∙ sym (others (c.slot j).blockno (λ eq. ne (only j hj vj' eq)))
        ∙ ap (λ (x : Buf). c'.disk x.blockno) (sym ej)
