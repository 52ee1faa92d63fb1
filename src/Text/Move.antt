-- ===== src/Text/Move.antt =====
-- `memcpy` and `memmove`: what the memory holds afterwards.
use sbunix.Base.{
  ℕ, zero, suc, ◌+◌, ◌≤◌, ◌<◌, ◌≡◌, refl, sym, ap, ◌∙◌, ◌⊎◌, inl, inr, ltb, arith, update,
  Bool-cases, update_self, update_ne, subst,
}
use sbunix.Text.{Bytes, memcpy_from, memcpy, copy_down, memmove}

-- The bytes from `lo` to `hi` of the target are those of the source in `m`, and no other byte
-- changes.
pub record Moved (m m' : Bytes) (dst src lo hi : ℕ) : Type 0 where
  pub copied : (j : ℕ) → lo ≤ j → j < hi → m' (dst + j) ≡ m (src + j)
  pub kept : (a : ℕ) → (a < dst + lo) ⊎ (dst + hi ≤ a) → m' a ≡ m a

-- Upwards: right when the target does not begin inside the source.
memcpy_from-Moved :
    (n i : ℕ) (m : Bytes) (dst src : ℕ)
    → (dst ≤ src) ⊎ (src + i + n ≤ dst + i)
    → Moved m (memcpy_from n i m dst src) dst src i (i + n)
unfolding memcpy_from
memcpy_from-Moved zero i m dst src h = record {
  copied = λ j q q'. absurd (omega arith);
  kept = λ a h. refl;
}
memcpy_from-Moved (suc n) i m dst src h =
    let m1 = update m (dst + i) (m (src + i)) in
    let r = memcpy_from-Moved n (i + 1) m1 dst src (omega (arith, h)) in
    record {
      copied = λ j q q'.
          let split : (j ≡ i) ⊎ (i + 1 ≤ j) = omega arith in
          elim split [
            | inl e ↦
                r.kept (dst + j) (inl (omega arith))
                ∙ ap (λ x. m1 (dst + x)) e
                ∙ update_self m (dst + i) (m (src + i))
                ∙ ap (λ x. m (src + x)) (sym e)
            | inr e ↦
                r.copied j e (omega arith)
                ∙ update_ne m (dst + i) (src + j) (m (src + i)) (λ u. omega (arith, u, h, e, q'))
          ];
      kept = λ a o.
          r.kept a (omega (arith, o))
          ∙ update_ne m (dst + i) a (m (src + i)) (λ u. omega (arith, u, o));
    }

upwards :
    (n : ℕ) (m : Bytes) (dst src : ℕ)
    → (dst ≤ src) ⊎ (src + n ≤ dst)
    → Moved m (memcpy_from n 0 m dst src) dst src 0 n
upwards n m dst src h =
    let e : 0 + n ≡ n = omega arith in
    subst (λ k. Moved m (memcpy_from n 0 m dst src) dst src 0 k) e
      (memcpy_from-Moved n 0 m dst src (omega (arith, h)))

-- Downwards: right when the source does not begin inside the target.
copy_down-Moved :
    (n : ℕ) (m : Bytes) (dst src : ℕ) → src ≤ dst → Moved m (copy_down n m dst src) dst src 0 n
unfolding copy_down
copy_down-Moved zero m dst src h = record {
  copied = λ j q q'. absurd (omega arith);
  kept = λ a h. refl;
}
copy_down-Moved (suc i) m dst src h =
    let m1 = update m (dst + i) (m (src + i)) in
    let r = copy_down-Moved i m1 dst src h in
    record {
      copied = λ j q q'.
          let split : (j ≡ i) ⊎ (j < i) = omega arith in
          elim split [
            | inl e ↦
                r.kept (dst + j) (inr (omega arith))
                ∙ ap (λ x. m1 (dst + x)) e
                ∙ update_self m (dst + i) (m (src + i))
                ∙ ap (λ x. m (src + x)) (sym e)
            | inr e ↦
                r.copied j q e
                ∙ update_ne m (dst + i) (src + j) (m (src + i)) (λ u. omega (arith, u, h, e))
          ];
      kept = λ a o.
          r.kept a (omega (arith, o))
          ∙ update_ne m (dst + i) a (m (src + i)) (λ u. omega (arith, u, o));
    }

-- Wherever the two ranges lie, overlapping or not, `memmove` leaves in the target the bytes that
-- the source had before the call, and changes no byte outside the target.
pub memmove-Moved : (m : Bytes) (dst src n : ℕ) → Moved m (memmove m dst src n) dst src 0 n
unfolding memmove
memmove-Moved m dst src n = elim (Bool-cases (ltb dst src)) [
  | inl e ↦ rw e (upwards n m dst src (inl (ground (arith, e))))
  | inr e ↦ rw e (copy_down-Moved n m dst src (ground (arith, e)))
]

-- When the target does not begin inside the source, `memcpy` does what `memmove` does: the target
-- gets the bytes that the source had, and no other byte changes.
pub memcpy-Moved :
    (m : Bytes) (dst src n : ℕ)
    → (dst ≤ src) ⊎ (src + n ≤ dst)
    → Moved m (memcpy m dst src n) dst src 0 n
unfolding memcpy
memcpy-Moved m dst src n h = upwards n m dst src h
