-- ===== src/Sbfs/Write/Slot.antt =====
-- A direct slot that is filled by `balloc` when it is empty.
use sbunix.Base.{
  ℕ, ◌+◌, ◌/◌, ◌%◌, ◌<◌, ◌≡◌, ◌≢◌, refl, sym, ap, ◌∙◌, ◌⊎◌, inl, inr, ◌||◌, true, false, arith,
  ◌==◌, update, update_self, update_ne, Bool-cases, eq_of_==, ==_refl,
}
use sbunix.Bio.{Block}
use sbunix.Sbfs.{Superblock}
use sbunix.Sbfs.Bytes.{get_byte, get_byte_zero}
use sbunix.Sbfs.Bitmap.{is_used, mark, is_used-mark}
use sbunix.Sbfs.Inode.{Dinode}
use sbunix.Sbfs.Write.Contents.{Direct, content}

-- The data block `k`, and the image and the file after the slot `i` took it.
abbrev pub data_block : Superblock → ℕ → ℕ
data_block sb k = sb.bmapstart + 1 + k

abbrev pub image_after : Superblock → (ℕ → Block) → ℕ → ℕ → Block
image_after sb v k =
    update (update v sb.bmapstart (mark (v sb.bmapstart) k)) (data_block sb k) (λ j. 0)

abbrev pub dinode_after : Superblock → Dinode → ℕ → ℕ → Dinode
dinode_after sb d i k = record d { addrs = update d.addrs i (data_block sb k) }

-- The file after an empty slot took a new block: the addresses are still apart, and the bytes the
-- same.
module _ (sb : Superblock) (v : ℕ → Block) (d : Dinode) (i k : ℕ) (h : Direct sb v d)
    (small : i < 7) (empty : d.addrs i ≡ 0) (lt : k < sb.nblocks)
    (free : is_used (v sb.bmapstart) k ≡ false) where
  bitmap_after : image_after sb v k sb.bmapstart ≡ mark (v sb.bmapstart) k
  bitmap_after =
      update_ne (update v sb.bmapstart (mark (v sb.bmapstart) k)) (data_block sb k) sb.bmapstart
        (λ j. 0) (omega arith)
      ∙ update_self v sb.bmapstart (mark (v sb.bmapstart) k)

  used_after :
      (m : ℕ) → is_used (image_after sb v k sb.bmapstart) m ≡ (m == k || is_used (v sb.bmapstart) m)
  used_after m = ap (λ b. is_used b m) bitmap_after ∙ is_used-mark (v sb.bmapstart) k m

  -- No address of the file is the new (data_block sb k).
  fresh : (j : ℕ) → j < 7 → d.addrs j ≢ (data_block sb k)
  fresh j hj e = elim (h.own j hj) [
    | inl z ↦ omega (arith, z, e)
    | inr (m, lm, em, um) ↦
        let same : m ≡ k = omega (arith, em, e) in
        cc (sym um ∙ ap (is_used (v sb.bmapstart)) same ∙ free)
  ]

  pub fill-Direct : Direct sb (image_after sb v k) (dinode_after sb d i k)
  fill-Direct = record {
    own = λ j hj. elim (Bool-cases (j == i)) [
      | inl q ↦ inr (k, lt, rw q refl, used_after k ∙ ground arith)
      | inr q ↦ elim (h.own j hj) [
        | inl z ↦ inl (rw q z)
        | inr (m, lm, em, um) ↦ inr (m, lm, rw q em, used_after m ∙ ground (arith, um))
      ]
    ];
    apart = λ a b ha hb n e. elim (Bool-cases (a == i)) [
      | inl qa ↦ elim (Bool-cases (b == i)) [
        | inl qb ↦ eq_of_== a i qa ∙ sym (eq_of_== b i qb)
        | inr qb ↦ absurd (fresh b hb (ground (arith, e, qa, qb)))
      ]
      | inr qa ↦ elim (Bool-cases (b == i)) [
        | inl qb ↦ absurd (fresh a ha (ground (arith, e, qa, qb)))
        | inr qb ↦ h.apart a b ha hb (ground (arith, n, qa)) (ground (arith, e, qa, qb))
      ]
    ];
  }

  pub content-fill :
      (p : ℕ) → p / 512 < 7 → content (image_after sb v k) (dinode_after sb d i k) p ≡ content v d p
  unfolding content
  content-fill p hp = elim (Bool-cases (p / 512 == i)) [
    | inl q ↦
        let r : p / 512 ≡ i = eq_of_== (p / 512) i q in
        let e : (d.addrs i == 0) ≡ true = ground (arith, empty) in
        let n : ((data_block sb k) == 0) ≡ false = ground arith in
        rw (r, ==_refl i, e, n, ==_refl (data_block sb k)) (get_byte_zero (p % 512))
    | inr q ↦ elim (Bool-cases (d.addrs (p / 512) == 0)) [
      | inl z ↦ rw (q, z)
      | inr f ↦
          let n : d.addrs (p / 512) ≢ 0 = ground (arith, f) in
          let m : d.addrs (p / 512) ≢ sb.bmapstart = not_bitmap (p / 512) n (h.own (p / 512) hp) in
          let e : image_after sb v k (d.addrs (p / 512)) ≡ v (d.addrs (p / 512)) =
            update_ne (update v sb.bmapstart (mark (v sb.bmapstart) k)) (data_block sb k)
              (d.addrs (p / 512)) (λ j. 0) (fresh (p / 512) hp)
            ∙ update_ne v sb.bmapstart (d.addrs (p / 512)) (mark (v sb.bmapstart) k) m in
          rw (q, f) (ap (λ x. get_byte x (p % 512)) e)
    ]
  ]
    where
      not_bitmap :
          (j : ℕ)
          → d.addrs j ≢ 0
          → (d.addrs j ≡ 0)
            ⊎ ((k : ℕ) × (k < sb.nblocks)
                × (d.addrs j ≡ sb.bmapstart + 1 + k)
                × (is_used (v sb.bmapstart) k ≡ true))
          → d.addrs j ≢ sb.bmapstart
      not_bitmap j n (inl z) = absurd (n z)
      not_bitmap j n (inr (m, lm, em, um)) = omega (arith, em)
