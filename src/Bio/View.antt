-- ===== src/Bio/View.antt =====
-- What the holders of buffers see of a block: the buffer that caches it, or else the disk.
use sbunix.Base.{
  ℕ, ◌≡◌, ◌≢◌, refl, sym, ap, ◌∙◌, ◌⊎◌, true, false, Option, none, some, arith, ◌==◌, update,
  update_self, update_ne, eq_of_==, Bool-cases, inl, inr, fun_ext,
}
use sbunix.Base.Sets.{has, SameSet}
use sbunix.Bio.{Buf, Block, Cache, is_hit, find_first}
use sbunix.Bio.Cached.{IsCache}
use sbunix.Bio.Read.{Found, find_first_lem}

abbrev pub view : Cache → ℕ → Block
view c b = elim (find_first (is_hit c b) c.order) [ some i ↦ (c.slot i).block | none ↦ c.disk b ]

-- The view is the valid buffer of the block, when there is one.
pub view-hit :
    {c : Cache} (b i : ℕ)
    → IsCache c
    → has i c.order ≡ true
    → (c.slot i).valid ≡ true
    → (c.slot i).blockno ≡ b
    → view c b ≡ (c.slot i).block
view-hit {c} b i v h ok e =
    go (find_first (is_hit c b) c.order) (find_first_lem (is_hit c b) c.order)
  where
    go :
        (r : Option ℕ)
        → Found (is_hit c b) c.order r
        → elim r [ some j ↦ (c.slot j).block | none ↦ c.disk b ] ≡ (c.slot i).block
    go none f = absurd (ground (arith, f i h))
    go (some j) f =
        ap (λ k. (c.slot k).block)
          (v.unique j i f.0 h (ground (arith, f.1)) ok (ground (arith, f.1)))

-- When the buffers of the block are clean, or there is none, it is the disk.
pub view-clean :
    {c : Cache} (b : ℕ)
    → IsCache c
    → ((i : ℕ) → has i c.order ≡ true → is_hit c b i ≡ true → (c.slot i).dirty ≡ false)
    → view c b ≡ c.disk b
view-clean {c} b v h = go (find_first (is_hit c b) c.order) (find_first_lem (is_hit c b) c.order)
  where
    go :
        (r : Option ℕ)
        → Found (is_hit c b) c.order r
        → elim r [ some j ↦ (c.slot j).block | none ↦ c.disk b ] ≡ c.disk b
    go none f = refl
    go (some j) f =
        let e : (c.slot j).blockno ≡ b = ground (arith, f.1) in
        v.coherent j f.0 (ground (arith, f.1)) (h j f.0 f.1) ∙ ap c.disk e

-- A buffer that becomes the valid buffer `s` of its block changes the view there only, when it was
-- of that block or clean.
pub view-set :
    {c : Cache} (c' : Cache) (i : ℕ) (s : Buf)
    → IsCache c
    → IsCache c'
    → SameSet c.order c'.order
    → c'.slot ≡ update c.slot i s
    → c'.disk ≡ c.disk
    → has i c.order ≡ true
    → s.valid ≡ true
    → ((c.slot i).blockno ≡ s.blockno) ⊎ ((c.slot i).dirty ≡ false)
    → view c' ≡ update (view c) s.blockno s.block
view-set {c} c' i s v v' same e d here ok was = fun_ext λ b. elim (Bool-cases (b == s.blockno)) [
  | inl q ↦
      let p : b ≡ s.blockno = eq_of_== b s.blockno q in
      view-hit b i v' (same.members i ∙ here) (ap (λ (x : Buf). x.valid) at ∙ ok)
        (ap (λ (x : Buf). x.blockno) at ∙ sym p)
      ∙ ap (λ (x : Buf). x.block) at
      ∙ sym (ap (update (view c) s.blockno s.block) p ∙ update_self (view c) s.blockno s.block)
  | inr q ↦
      let ne : b ≢ s.blockno = ground arith in
      other b ne (find_first (is_hit c b) c.order) (find_first_lem (is_hit c b) c.order)
      ∙ sym (update_ne (view c) s.blockno b s.block ne)
]
  where
    at : c'.slot i ≡ s
    at = ap (λ f. f i) e ∙ update_self c.slot i s

    off : (j : ℕ) → j ≢ i → c'.slot j ≡ c.slot j
    off j ne = ap (λ f. f j) e ∙ update_ne c.slot i j s ne

    disk_at : (b : ℕ) → c'.disk b ≡ c.disk b
    disk_at b = ap (λ f. f b) d

    -- A hit of another block is another buffer.
    elsewhere : (b j : ℕ) → b ≢ s.blockno → is_hit c' b j ≡ true → j ≢ i
    elsewhere b j ne h q =
        ne (
          sym (ground (arith, h))
          ∙ ap (λ k. (c'.slot k).blockno) q
          ∙ ap (λ (x : Buf). x.blockno) at)

    other :
        (b : ℕ)
        → b ≢ s.blockno
        → (r : Option ℕ) → Found (is_hit c b) c.order r
        → view c' b ≡ elim r [ some j ↦ (c.slot j).block | none ↦ c.disk b ]
    other b ne none f =
        view-clean b v' (λ j hj t.
          let o = off j (elsewhere b j ne t) in
          absurd (ground (arith, f j (sym (same.members j) ∙ hj), o)))
        ∙ disk_at b
    other b ne (some j) f = elim (Bool-cases (j == i)) [
      | inl q ↦
          let p : j ≡ i = eq_of_== j i q in
          let x : (c.slot j).dirty ≡ false = elim was [
            | inl w ↦ absurd (ne (ground (arith, f.1, w, ap (λ k. (c.slot k).blockno) p)))
            | inr w ↦ ap (λ k. (c.slot k).dirty) p ∙ w
          ] in
          view-clean b v' (λ k hk t.
            let n = elsewhere b k ne t in
            let o = off k n in
            absurd (
              n (
                v.unique k j (sym (same.members k) ∙ hk) f.0 (ground (arith, o, t))
                  (ground (arith, f.1)) (ground (arith, o, t, f.1))
                ∙ p)))
          ∙ disk_at b
          ∙ sym (v.coherent j f.0 (ground (arith, f.1)) x ∙ ap c.disk (ground (arith, f.1)))
      | inr q ↦
          let n : j ≢ i = ground arith in
          let o = off j n in
          view-hit b j v' (same.members j ∙ f.0) (ground (arith, f.1, o)) (ground (arith, f.1, o))
          ∙ ap (λ (x : Buf). x.block) o
    ]
