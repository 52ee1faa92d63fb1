-- ===== src/Log/Header.antt =====
-- The header block of the log: what is put there, and what is read back.
use sbunix.Base.{
  ℕ, zero, suc, ◌+◌, ◌^◌, ◌≤◌, ◌<◌, ◌≡◌, refl, sym, ap, ◌∙◌, ◌⊎◌, inl, inr, Bool, true, false,
  arith, update, update_ne, update_self, Bool-cases,
}
use sbunix.Bio.{Block}
use sbunix.Log.{Log, header, put_entries, is_oob, read_entries}
use sbunix.Log.Write.{Outside}
use sbunix.Log.Writes.{Disk, homes}
use sbunix.Log.Commit.{cleared}

put_entries-zero : (n : ℕ) (l : Log) (d : Block) → put_entries n l d 0 ≡ d 0
unfolding put_entries
put_entries-zero zero l d = refl
put_entries-zero (suc n) l d =
    update_ne (put_entries n l d) (1 + n) 0 (l.blocks n) (λ e. omega (arith, e))
    ∙ put_entries-zero n l d

put_entries-at : (n j : ℕ) (l : Log) (d : Block) → j < n → put_entries n l d (1 + j) ≡ l.blocks j
unfolding put_entries
put_entries-at zero j l d h = absurd (omega arith)
put_entries-at (suc n) j l d h =
    ground (arith, put_entries-at n j l d, update_self (put_entries n l d) (1 + n) (l.blocks n))

pub header-zero : (l : Log) (d : Block) → header l d 0 ≡ l.nblocks
header-zero l d = put_entries-zero l.nblocks l (update d 0 l.nblocks) ∙ update_self d 0 l.nblocks

pub header-at : (j : ℕ) (l : Log) (d : Block) → j < l.nblocks → header l d (1 + j) ≡ l.blocks j
header-at j l d h = put_entries-at l.nblocks j l (update d 0 l.nblocks) h

pub header-cleared : (l : Log) (d : Block) → header (cleared l) d ≡ update d 0 0
unfolding put_entries
header-cleared l d = refl

pub is_oob-Outside :
    (l : Log) (b : ℕ) → l.start + l.size < 2 ^ 32 → is_oob l b ≡ false → Outside l b
unfolding is_oob
is_oob-Outside l b s h = ground arith

-- The log after the entries from `i` on were read.
pub record Loaded (n i : ℕ) (d : Block) (l l' : Log) (good : Bool) : Type 0 where
  pub start : l'.start ≡ l.start
  pub size : l'.size ≡ l.size
  pub nblocks : l'.nblocks ≡ l.nblocks
  pub early : (j : ℕ) → j < i → l'.blocks j ≡ l.blocks j
  pub entries :
      good ≡ true
      → (j : ℕ) → i ≤ j
      → j < i + n
      → (l'.blocks j ≡ d (1 + j)) × (is_oob l (d (1 + j)) ≡ false)
  pub accepts : ((j : ℕ) → i ≤ j → j < i + n → is_oob l (d (1 + j)) ≡ false) → good ≡ true

pub read_entries-Loaded :
    (n i : ℕ) (d : Block) (l : Log)
    → Loaded n i d l (read_entries n i d l).0 (read_entries n i d l).1
unfolding read_entries is_oob
read_entries-Loaded zero i d l = record {
  start = refl;
  size = refl;
  nblocks = refl;
  early = λ j h. refl;
  entries = λ g j h h'. absurd (omega arith);
  accepts = λ h. refl;
}
read_entries-Loaded (suc n) i d l = elim (Bool-cases (is_oob l (d (1 + i)))) [
  | inl e ↦ rw e (record {
    start = refl;
    size = refl;
    nblocks = refl;
    early = λ j h. refl;
    entries = λ g j h h'. cc;
    accepts = λ h. cc (sym (h i (omega arith) (omega arith)) ∙ e);
  })
  | inr e ↦ rw e (
      more (read_entries-Loaded n (i + 1) d (record l { blocks = update l.blocks i (d (1 + i)) }))
        e)
]
  where
    more :
        {l' : Log} {good : Bool}
        → Loaded n (i + 1) d (record l { blocks = update l.blocks i (d (1 + i)) }) l' good
        → is_oob l (d (1 + i)) ≡ false
        → Loaded (suc n) i d l l' good
    more {l'} {good} r e = record {
      start = r.start;
      size = r.size;
      nblocks = r.nblocks;
      early = λ j h.
          r.early j (omega arith) ∙ update_ne l.blocks i j (d (1 + i)) (λ q. omega (arith, q));
      entries = λ g j h h'.
          let split : (j ≡ i) ⊎ (i + 1 ≤ j) = omega arith in
          elim split [
            | inl q ↦ (
              ap (λ x. l'.blocks x) q
                  ∙ r.early i (omega arith)
                  ∙ update_self l.blocks i (d (1 + i))
                  ∙ ap (λ x. d (1 + x)) (sym q),
              ap (λ x. is_oob l (d (1 + x))) q ∙ e,
            )
            | inr q ↦ r.entries g j q (omega arith)
          ];
      accepts = λ h. r.accepts (λ j q q'. h j (omega arith) (omega arith));
    }

pub homes-congr :
    (n i : ℕ) (l l' : Log) (w w' : Disk)
    → ((j : ℕ) → i ≤ j → j < i + n → (l'.blocks j ≡ l.blocks j) × (w' j ≡ w j))
    → homes n i l' w' ≡ homes n i l w
homes-congr zero i l l' w w' h = refl
homes-congr (suc n) i l l' w w' h =
    let (e, e') = h i (omega arith) (omega arith) in
    rw (e, e', homes-congr n (i + 1) l l' w w' (λ j q q'. h j (omega arith) (omega arith)))
