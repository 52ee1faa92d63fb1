-- ===== src/Sbfs/Bytes.antt =====
-- The bytes of a block of 128 little-endian words.
use sbunix.Base.{
  ℕ, zero, suc, ◌+◌, ◌-◌, ◌*◌, ◌/◌, ◌%◌, ◌^◌, ◌<◌, ◌≡◌, ◌≢◌, refl, ap, ◌∙◌, ◌⊎◌, inl, inr, true,
  false, arith, ◌==◌, update, update_self, Bool-cases, eq_of_==, ==_refl, fun_ext, if◌then◌else◌,
}
use sbunix.Bio.{Block}

-- The byte `l` of a word, and the word with another byte there.
unfoldable pub byte_of : ℕ → ℕ → ℕ
byte_of w l = w / 256 ^ l % 256

unfoldable pub with_byte : ℕ → ℕ → ℕ → ℕ
unfolding byte_of
with_byte w l v = w - byte_of w l * 256 ^ l + v * 256 ^ l

byte_of_self : (w l v : ℕ) → l < 4 → v < 256 → byte_of (with_byte w l v) l ≡ v
unfolding byte_of with_byte
byte_of_self w zero v h h' = omega arith
byte_of_self w (suc zero) v h h' = omega arith
byte_of_self w (suc (suc zero)) v h h' = omega arith
byte_of_self w (suc (suc (suc zero))) v h h' = omega arith
byte_of_self w (suc (suc (suc (suc l)))) v h h' = absurd (omega arith)

byte_of_ne :
    (w l m v : ℕ) → l < 4 → m < 4 → v < 256 → m ≢ l → byte_of (with_byte w l v) m ≡ byte_of w m
unfolding byte_of with_byte
byte_of_ne w zero zero v h h' h'' n = absurd (n refl)
byte_of_ne w zero (suc zero) v h h' h'' n = omega arith
byte_of_ne w zero (suc (suc zero)) v h h' h'' n = omega arith
byte_of_ne w zero (suc (suc (suc zero))) v h h' h'' n = omega arith
byte_of_ne w (suc zero) zero v h h' h'' n = omega arith
byte_of_ne w (suc zero) (suc zero) v h h' h'' n = absurd (n refl)
byte_of_ne w (suc zero) (suc (suc zero)) v h h' h'' n = omega arith
byte_of_ne w (suc zero) (suc (suc (suc zero))) v h h' h'' n = omega arith
byte_of_ne w (suc (suc zero)) zero v h h' h'' n = omega arith
byte_of_ne w (suc (suc zero)) (suc zero) v h h' h'' n = omega arith
byte_of_ne w (suc (suc zero)) (suc (suc zero)) v h h' h'' n = absurd (n refl)
byte_of_ne w (suc (suc zero)) (suc (suc (suc zero))) v h h' h'' n = omega arith
byte_of_ne w (suc (suc (suc zero))) zero v h h' h'' n = omega arith
byte_of_ne w (suc (suc (suc zero))) (suc zero) v h h' h'' n = omega arith
byte_of_ne w (suc (suc (suc zero))) (suc (suc zero)) v h h' h'' n = omega arith
byte_of_ne w (suc (suc (suc zero))) (suc (suc (suc zero))) v h h' h'' n = absurd (n refl)
byte_of_ne w l (suc (suc (suc (suc m)))) v h h' h'' n = absurd (omega arith)
byte_of_ne w (suc (suc (suc (suc l)))) m v h h' h'' n = absurd (omega arith)

with_byte_same : (w l : ℕ) → l < 4 → with_byte w l (byte_of w l) ≡ w
unfolding byte_of with_byte
with_byte_same w zero h = omega arith
with_byte_same w (suc zero) h = omega arith
with_byte_same w (suc (suc zero)) h = omega arith
with_byte_same w (suc (suc (suc zero))) h = omega arith
with_byte_same w (suc (suc (suc (suc l)))) h = absurd (omega arith)

with_byte_twice :
    (w l v u : ℕ) → l < 4 → v < 256 → with_byte (with_byte w l v) l u ≡ with_byte w l u
unfolding byte_of with_byte
with_byte_twice w zero v u h h' = omega arith
with_byte_twice w (suc zero) v u h h' = omega arith
with_byte_twice w (suc (suc zero)) v u h h' = omega arith
with_byte_twice w (suc (suc (suc zero))) v u h h' = omega arith
with_byte_twice w (suc (suc (suc (suc l)))) v u h h' = absurd (omega arith)

byte_of_zero : (l : ℕ) → l < 4 → byte_of 0 l ≡ 0
unfolding byte_of
byte_of_zero zero h = refl
byte_of_zero (suc zero) h = refl
byte_of_zero (suc (suc zero)) h = refl
byte_of_zero (suc (suc (suc zero))) h = refl
byte_of_zero (suc (suc (suc (suc l)))) h = absurd (omega arith)

-- `data[k]` of the block as an array of bytes.
unfoldable pub get_byte : Block → ℕ → ℕ
get_byte d k = byte_of (d (k / 4)) (k % 4)

unfoldable pub put_byte : Block → ℕ → ℕ → Block
put_byte d k v = update d (k / 4) (with_byte (d (k / 4)) (k % 4) v)

pub get_byte_zero : (k : ℕ) → get_byte (λ j. 0) k ≡ 0
unfolding get_byte
get_byte_zero k = byte_of_zero (k % 4) (omega arith)

pub get_byte_bound : (d : Block) (k : ℕ) → get_byte d k < 256
unfolding get_byte byte_of
get_byte_bound d k = omega arith

pub get_byte-put_byte :
    (d : Block) (k v j : ℕ)
    → v < 256
    → get_byte (put_byte d k v) j ≡ (if j == k then v else get_byte d j)
unfolding get_byte put_byte
get_byte-put_byte d k v j h = elim (Bool-cases (j == k)) [
  | inl q ↦
      let p : j ≡ k = eq_of_== j k q in
      rw (q, p)
        (ap (λ w. byte_of w (k % 4)) (update_self d (k / 4) (with_byte (d (k / 4)) (k % 4) v))
          ∙ byte_of_self (d (k / 4)) (k % 4) v (omega arith) h)
  | inr q ↦ rw q (other (Bool-cases (j / 4 == k / 4)) (ground arith))
]
  where
    Goal : Type 0
    Goal =
        byte_of (update d (k / 4) (with_byte (d (k / 4)) (k % 4) v) (j / 4)) (j % 4)
        ≡ byte_of (d (j / 4)) (j % 4)

    other : ((j / 4 == k / 4) ≡ true) ⊎ ((j / 4 == k / 4) ≡ false) → j ≢ k → Goal
    other (inl e) n =
        let w : j / 4 ≡ k / 4 = eq_of_== (j / 4) (k / 4) e in
        rw (w, ==_refl (k / 4))
          (byte_of_ne (d (k / 4)) (k % 4) (j % 4) v (omega arith) (omega arith) h
            (omega (arith, w)))
    other (inr e) n = rw e

-- A byte put back as it was.
pub put_byte-put_byte :
    (d : Block) (k v : ℕ) → v < 256 → put_byte (put_byte d k v) k (get_byte d k) ≡ d
unfolding get_byte put_byte
put_byte-put_byte d k v h = fun_ext λ j. elim (Bool-cases (j == k / 4)) [
  | inl q ↦
      let p : j ≡ k / 4 = eq_of_== j (k / 4) q in
      rw (p, ==_refl (k / 4))
        (with_byte_twice (d (k / 4)) (k % 4) v (byte_of (d (k / 4)) (k % 4)) (omega arith) h
          ∙ with_byte_same (d (k / 4)) (k % 4) (omega arith))
  | inr q ↦ rw q
]
