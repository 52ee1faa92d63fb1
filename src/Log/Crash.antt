-- ===== src/Log/Crash.antt =====
-- A crash during the commit: what recovery makes of the disk after each prefix of the writes.
use sbunix.Base.{
  ℕ, zero, suc, ◌+◌, ◌≤◌, ◌<◌, ◌≡◌, ◌≢◌, refl, ap, ◌∙◌, ◌⊎◌, inl, inr, Bool, true, false, ◌||◌,
  ◌==◌, List, [], ◌∷◌, ◌++◌, arith, update, update_ne, Bool-cases, take, ltb,
}
use sbunix.Bio.{Block}
use sbunix.Log.{Log, header, is_oob, read_entries, log_hdr_max}
use sbunix.Log.Writes.{Disk, apply, apply-append, Misses, homes}
use sbunix.Log.Header.{header-zero, header-at, read_entries-Loaded, homes-congr}
use sbunix.Log.Recover.{parsed, clearing, recover_writes}

-- Is there a write to `b`?
abbrev hits : ℕ → List (ℕ × Block) → Bool
hits b [] = false
hits b ((x, _) ∷ ws) = (x == b) || hits b ws

-- The writes give equal blocks where the disks are equal or a write comes.
pub apply-same :
    (b : ℕ) (ws : List (ℕ × Block)) (d e : Disk)
    → (hits b ws ≡ true) ⊎ (d b ≡ e b)
    → apply ws d b ≡ apply ws e b
apply-same b [] d e (inl h) = cc
apply-same b [] d e (inr h) = h
apply-same b ((x, y) ∷ ws) d e h =
    apply-same b ws (update d x y) (update e x y) (elim (Bool-cases (x == b)) [
      | inl q ↦ inr (ground arith)
      | inr q ↦ elim h [ inl t ↦ inl (ground arith) | inr t ↦ inr (ground arith) ]
    ])

pub apply-no-hits :
    (b : ℕ) (ws : List (ℕ × Block)) (d : Disk) → hits b ws ≡ false → apply ws d b ≡ d b
apply-no-hits b [] d h = refl
apply-no-hits b ((x, y) ∷ ws) d h = apply-no-hits b ws (update d x y) (ground arith) ∙ ground arith

hits-take : (b k : ℕ) (ws : List (ℕ × Block)) → hits b (take k ws) ≡ true → hits b ws ≡ true
hits-take b zero ws h = cc
hits-take b (suc k) [] h = cc
hits-take b (suc k) ((x, y) ∷ ws) h = ground (arith, hits-take b k ws)

pub Misses-take : (b k : ℕ) (ws : List (ℕ × Block)) → Misses b ws → Misses b (take k ws)
Misses-take b zero ws m = tt
Misses-take b (suc k) [] m = tt
Misses-take b (suc k) ((x, y) ∷ ws) m = (m.0, Misses-take b k ws m.1)

-- Writes that were begun and are done again from the start are as if done once.
pub apply-again :
    (b k : ℕ) (ws : List (ℕ × Block)) (d : Disk) → apply ws (apply (take k ws) d) b ≡ apply ws d b
apply-again b k ws d =
    apply-same b ws (apply (take k ws) d) d (elim (Bool-cases (hits b (take k ws))) [
      | inl h ↦ inl (hits-take b k ws h)
      | inr h ↦ inr (apply-no-hits b (take k ws) d h)
    ])

-- A prefix of two lists in a row ends in the first or in the second.
pub take-cases :
    (k : ℕ) (xs ys : List (ℕ × Block))
    → (take k (xs ++ ys) ≡ take k xs) ⊎ ((m : ℕ) × (take k (xs ++ ys) ≡ xs ++ take m ys))
take-cases k [] ys = inr (k, refl)
take-cases zero (x ∷ xs) ys = inl refl
take-cases (suc k) (x ∷ xs) ys = elim (take-cases k xs ys) [
  | inl e ↦ inl (ap (λ zs. x ∷ zs) e)
  | inr (m, e) ↦ inr (m, ap (λ zs. x ∷ zs) e)
]

pub take-all : (ws : List (ℕ × Block)) → (m : ℕ) × (take m ws ≡ ws)
take-all [] = (0, refl)
take-all (x ∷ ws) = let (m, e) = take-all ws in (suc m, ap (λ zs. x ∷ zs) e)

pub take-one :
    (k : ℕ) (x : ℕ × Block) (xs : List (ℕ × Block))
    → (take k (x ∷ xs) ≡ []) ⊎ ((m : ℕ) × (take k (x ∷ xs) ≡ x ∷ take m xs))
take-one zero x xs = inl refl
take-one (suc k) x xs = inr (k, refl)

-- The disk after recovery.
abbrev pub recovered : Log → Disk → Disk
recovered l d = apply (recover_writes l d) d

-- With no transaction in the header, recovery writes nothing.
pub recovered-empty : (l : Log) (d : Disk) → d l.start 0 ≡ 0 → recovered l d ≡ d
unfolding read_entries
recovered-empty l d e = rw e refl

-- With a whole transaction in the header and its data in the log, recovery does its installs.
pub recovered-full :
    (l : Log) (w d : Disk) (h : Block) (b : ℕ)
    → 0 < l.nblocks
    → l.nblocks ≤ log_hdr_max
    → ((j : ℕ) → j < l.nblocks → is_oob l (l.blocks j) ≡ false)
    → d l.start ≡ header l h
    → ((j : ℕ) → j < l.nblocks → d (l.start + 1 + j) ≡ w j)
    → b ≢ l.start
    → recovered l d b ≡ apply (homes l.nblocks 0 l w) d b
unfolding is_oob
recovered-full l w d h b some' few fine eh ew ne =
    let n = d l.start 0 in
    let en : n ≡ l.nblocks = ap (λ f. f 0) eh ∙ header-zero l h in
    let entry = λ (j : ℕ) (q : j < l.nblocks).
      let z : d l.start (1 + j) ≡ l.blocks j = ap (λ f. f (1 + j)) eh ∙ header-at j l h q in z in
    let p = read_entries-Loaded n 0 (d l.start) (record l { nblocks = n }) in
    let good : (parsed l (d l.start)).1 ≡ true =
      p.accepts (λ j q q'.
        ap (λ x. is_oob l x) (entry j (omega (arith, en))) ∙ fine j (omega (arith, en))) in
    let few' : ltb log_hdr_max n ≡ false = ground (arith, en) in
    let more : ltb 0 n ≡ true = ground (arith, en) in
    let same : homes n 0 (parsed l (d l.start)).0 (λ j. d (l.start + 1 + j))
        ≡ homes l.nblocks 0 l w =
      homes-congr n 0 l (parsed l (d l.start)).0 w (λ j. d (l.start + 1 + j))
        (λ j q q'.
          ((p.entries good j q q').0 ∙ entry j (omega (arith, en)), ew j (omega (arith, en))))
      ∙ ap (λ m. homes m 0 l w) en in
    let writes : recover_writes l d ≡ homes l.nblocks 0 l w ++ clearing l d =
      rw (few', good, more) (ap (λ ws. ws ++ clearing l d) same) in
    ap (λ ws. apply ws d b) writes
    ∙ ap (λ f. f b) (apply-append (homes l.nblocks 0 l w) (clearing l d) d)
    ∙ update_ne (apply (homes l.nblocks 0 l w) d) l.start b (update (d l.start) 0 0) ne
