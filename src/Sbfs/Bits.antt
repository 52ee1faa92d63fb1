-- ===== src/Sbfs/Bits.antt =====
-- The bits of a byte: the laws of the masks, each a table that is checked by evaluation.
use Prim.Native.Nat.{bit_and, bit_or}
use sbunix.Base.{
  ℕ, zero, suc, ◌-◌, ◌^◌, ◌<◌, ◌≡◌, refl, Bool, true, false, not, ◌&&◌, ◌||◌, arith, ◌==◌, ltb,
  if◌then◌else◌,
}

-- `byte & (1u << k)`
unfoldable pub has_bit : ℕ → ℕ → Bool
has_bit x k = not (bit_and x (2 ^ k) == 0)

-- `byte |= (1u << k)` and `byte &= ~(1u << k)`
unfoldable pub with_bit : ℕ → ℕ → ℕ
with_bit x k = bit_or x (2 ^ k)

unfoldable pub without_bit : ℕ → ℕ → ℕ
without_bit x k = bit_and x (255 - 2 ^ k)

all_below : (ℕ → Bool) → ℕ → Bool
all_below f zero = true
all_below f (suc n) = if f n then all_below f n else false

all_below→true : (f : ℕ → Bool) (n i : ℕ) → all_below f n ≡ true → i < n → f i ≡ true
unfolding all_below
all_below→true f zero i e h = absurd (omega arith)
all_below→true f (suc n) i e h = ground (arith, all_below→true f n i)

same : Bool → Bool → Bool
same true b = b
same false b = not b

-- What the tables say of a byte and two bits.
law : ℕ → ℕ → ℕ → Bool
unfolding same has_bit with_bit without_bit
law x k m =
    same (has_bit (with_bit x k) m) (m == k || has_bit x m)
    && same (has_bit (without_bit x k) m) (not (m == k) && has_bit x m)
    && ltb (with_bit x k) 256
    && ltb (without_bit x k) 256
    && (has_bit x k || without_bit (with_bit x k) k == x)

table : ℕ → Bool
unfolding all_below law
table x = all_below (λ k. all_below (law x k) 8) 8

table_holds : all_below table 256 ≡ true
unfolding all_below table law same has_bit with_bit without_bit
table_holds = refl

table-law : (x k m : ℕ) → x < 256 → k < 8 → m < 8 → law x k m ≡ true
unfolding table
table-law x k m hx hk hm =
    all_below→true (law x k) 8 m
      (all_below→true (λ j. all_below (law x j) 8) 8 k (all_below→true table 256 x table_holds hx)
        hk)
      hm

same→eq : (a b : Bool) → same a b ≡ true → a ≡ b
unfolding same
same→eq true b e = ground arith
same→eq false b e = ground arith

-- The parts of the law.
module _ (x k m : ℕ) (hx : x < 256) (hk : k < 8) (hm : m < 8) where
  parts :
      (same (has_bit (with_bit x k) m) (m == k || has_bit x m) ≡ true)
      × (same (has_bit (without_bit x k) m) (not (m == k) && has_bit x m) ≡ true)
      × (ltb (with_bit x k) 256 ≡ true)
      × (ltb (without_bit x k) 256 ≡ true)
      × ((has_bit x k || without_bit (with_bit x k) k == x) ≡ true)
  unfolding law
  parts = five _ _ _ _ _ (table-law x k m hx hk hm)
    where
      five :
          (a b c d e : Bool)
          → (a && b && c && d && e) ≡ true
          → (a ≡ true) × (b ≡ true) × (c ≡ true) × (d ≡ true) × (e ≡ true)
      five a b c d e h = (ground arith, ground arith, ground arith, ground arith, ground arith)

  pub has_bit-with_bit : has_bit (with_bit x k) m ≡ (m == k || has_bit x m)
  has_bit-with_bit = same→eq _ _ parts.0

  pub has_bit-without_bit : has_bit (without_bit x k) m ≡ (not (m == k) && has_bit x m)
  has_bit-without_bit = same→eq _ _ parts.1

pub with_bit_byte : (x k : ℕ) → x < 256 → k < 8 → with_bit x k < 256
with_bit_byte x k hx hk = let (_, _, e, _, _) = parts x k 0 hx hk (omega arith) in ground (arith, e)

pub without_bit_byte : (x k : ℕ) → x < 256 → k < 8 → without_bit x k < 256
without_bit_byte x k hx hk =
    let (_, _, _, e, _) = parts x k 0 hx hk (omega arith) in ground (arith, e)

pub without_bit-with_bit :
    (x k : ℕ) → x < 256 → k < 8 → has_bit x k ≡ false → without_bit (with_bit x k) k ≡ x
without_bit-with_bit x k hx hk free =
    let (_, _, _, _, e) = parts x k 0 hx hk (omega arith) in ground (arith, e, free)
