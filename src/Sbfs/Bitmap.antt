-- ===== src/Sbfs/Bitmap.antt =====
-- The bitmap of the data blocks: `balloc` and `bfree`.
pub mod Alloc
pub mod Free
use sbunix.Base.{
  ℕ, zero, suc, ◌+◌, ◌-◌, ◌/◌, ◌%◌, ◌^◌, ◌≤◌, ◌<◌, ◌≡◌, refl, ◌||◌, ◌&&◌, Bool, true, false, not,
  Option, none, some, arith, ◌==◌, ltb, leb, if◌then◌else◌, add32, sub32, ◌>>=◌, ap, ◌∙◌,
  Bool-cases, inl, inr, eq_of_==, ==_refl,
}
use sbunix.Bio.{Block}
use sbunix.Log.{Log, System}
use sbunix.Sbfs.{Superblock, visit}
use sbunix.Sbfs.Bits.{
  has_bit, with_bit, without_bit, has_bit-with_bit, with_bit_byte, without_bit_byte,
  without_bit-with_bit,
}
use sbunix.Sbfs.Bytes.{get_byte, put_byte, get_byte_bound, get_byte-put_byte, put_byte-put_byte}

-- The bit `i` of a block, with `byte = i / 8` and `bit = i % 8`.
unfoldable pub is_used : Block → ℕ → Bool
is_used d i = has_bit (get_byte d (i / 8)) (i % 8)

pub mark : Block → ℕ → Block
mark d i = put_byte d (i / 8) (with_bit (get_byte d (i / 8)) (i % 8))

pub unmark : Block → ℕ → Block
unmark d i = put_byte d (i / 8) (without_bit (get_byte d (i / 8)) (i % 8))

-- The first free bit among `n` from `i` on.
pub first_free : ℕ → ℕ → Block → Option ℕ
first_free zero i d = none
first_free (suc n) i d =
    let rest = first_free n (i + 1) d in if not (is_used d i) then some i else rest

-- The loop of `balloc` on the data of the bitmap: the bit that it takes, and the new data.
abbrev pub taking : Block → Option ℕ → Option ℕ × Option Block
taking d none = (none, none)
taking d (some i) = (some i, some (mark d i))

abbrev pub claim : ℕ → Block → Option ℕ × Option Block
claim n d = taking d (first_free n 0 d)

-- The rest of a round that found the bit `i`.
pub zero_block : Superblock → System → Option ℕ → Option (ℕ × System)
zero_block sb s none = some (0, s)
zero_block sb s (some i) = do
  let dblock = add32 (add32 sb.bmapstart 1) i
  (u, s') ← visit s dblock (λ d. (dblock, some (λ j. 0)))
  some (dblock, s')

-- The result is a block number, or 0 when no block is free.
pub balloc : Superblock → System → Option (ℕ × System)
unfolding zero_block first_free
balloc sb s = do (r, s') ← visit s sb.bmapstart (claim sb.nblocks); zero_block sb s' r

pub bfree : Superblock → System → ℕ → Option System
bfree sb s bno =
    let data_start = add32 sb.bmapstart 1 in
    if ltb bno data_start || leb (add32 data_start sb.nblocks) bno then some s else (do
      (u, s') ← visit s sb.bmapstart (λ d. (bno, some (unmark d (sub32 bno data_start))))
      some s')

-- The bits of a bitmap that is marked in one place, and that marking can be undone.
pub is_used-mark : (d : Block) (i j : ℕ) → is_used (mark d i) j ≡ (j == i || is_used d j)
unfolding is_used mark
is_used-mark d i j =
    let x = get_byte d (i / 8) in
    let bx = get_byte_bound d (i / 8) in
    let e =
      get_byte-put_byte d (i / 8) (with_bit x (i % 8)) (j / 8)
        (with_bit_byte x (i % 8) bx (omega arith)) in
    rw e (elim (Bool-cases (j / 8 == i / 8)) [
      | inl q ↦
          let p : j / 8 ≡ i / 8 = eq_of_== (j / 8) (i / 8) q in
          let bits = has_bit-with_bit x (i % 8) (j % 8) bx (omega arith) (omega arith) in
          let same : (j % 8 == i % 8) ≡ (j == i) = ground (arith, p) in rw (q, bits, same, p)
      | inr q ↦ let ne : (j == i) ≡ false = ground arith in rw (q, ne)
    ])

pub unmark-mark : (d : Block) (i : ℕ) → is_used d i ≡ false → unmark (mark d i) i ≡ d
unfolding is_used mark unmark
unmark-mark d i free =
    let x = get_byte d (i / 8) in
    let bx = get_byte_bound d (i / 8) in
    let bw = with_bit_byte x (i % 8) bx (omega arith) in
    let e = get_byte-put_byte d (i / 8) (with_bit x (i % 8)) (i / 8) bw in
    rw (e, ==_refl (i / 8), without_bit-with_bit x (i % 8) bx (omega arith) free)
      (put_byte-put_byte d (i / 8) (with_bit x (i % 8)) bw)
