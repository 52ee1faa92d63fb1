-- ===== src/Log/Atomic.antt =====
-- A transaction reaches the file system whole or not at all, whatever write the crash follows.
use sbunix.Base.{
  ℕ, zero, suc, ◌+◌, ◌^◌, ◌≤◌, ◌<◌, ◌≡◌, ◌≢◌, refl, sym, ap, ◌∙◌, ◌⊎◌, inl, inr, false, List, [],
  ◌∷◌, ◌++◌, arith, update, update_ne, update_self, take, subst,
}
use sbunix.Bio.{Block}
use sbunix.Log.{Log, header, is_oob, log_hdr_max}
use sbunix.Log.Write.{Outside}
use sbunix.Log.Writes.{
  Disk, apply, apply-append, Misses, apply-Misses, logs, homes, logs-Misses, apply-logs,
}
use sbunix.Log.Commit.{cleared, homes-Misses, commit_writes}
use sbunix.Log.Header.{header-zero, is_oob-Outside}
use sbunix.Log.Crash.{
  apply-same, apply-again, take-cases, take-one, take-all, recovered, recovered-empty,
  recovered-full, Misses-take,
}

take-nil : (n : ℕ) → take {A = ℕ × Block} n [] ≡ []
take-nil zero = refl
take-nil (suc n) = refl

-- What recovery leaves outside the log: the blocks of `d`, or those with the transaction.
abbrev pub Old : Log → Disk → Disk → Type 0
Old l d e = (b : ℕ) → Outside l b → e b ≡ d b

abbrev pub New : Log → Disk → Disk → Disk → Type 0
New l w d e = (b : ℕ) → Outside l b → e b ≡ apply (homes l.nblocks 0 l w) d b

module _ (l : Log) (w d : Disk) (few : l.nblocks ≤ log_hdr_max)
    (bounded : l.start + l.size < 2 ^ 32) (fits : l.nblocks + 1 ≤ l.size)
    (fine : (j : ℕ) → j < l.nblocks → is_oob l (l.blocks j) ≡ false) (empty : d l.start 0 ≡ 0) where
  -- The parts of the commit.
  step1 : List (ℕ × Block)
  step1 = logs l.nblocks 0 l w

  step3 : List (ℕ × Block)
  step3 = homes l.nblocks 0 l w

  clear : ℕ × Block
  clear = (l.start, header (cleared l) (header l (d l.start)))

  logged : Disk
  logged = apply step1 d

  committed : Disk
  committed = update logged l.start (header l (d l.start))

  home_out : (j : ℕ) → 0 ≤ j → j < 0 + l.nblocks → Outside l (l.blocks j)
  home_out j _ h = is_oob-Outside l (l.blocks j) bounded (fine j (omega (arith, h)))

  step1_misses : (b : ℕ) → Outside l b → Misses b step1
  unfolding step1
  step1_misses b o = logs-Misses b l.nblocks 0 l w (omega (arith, o, fits))

  start_misses : Misses l.start step1
  unfolding step1
  start_misses = logs-Misses l.start l.nblocks 0 l w (omega arith)

  inside : (b : ℕ) → l.start ≤ b → b ≤ l.start + l.nblocks → Misses b step3
  unfolding step3
  inside b h h' = homes-Misses b l.nblocks 0 l w home_out (h, omega (arith, h', fits))

  -- A crash before the header is written.
  early : (k : ℕ) → Old l d (recovered l (apply (take k step1) d))
  early k b o =
      ap (λ f. f b)
        (recovered-empty l (apply (take k step1) d) (
          ap (λ f. f 0)
            (apply-Misses l.start (take k step1) d (Misses-take l.start k step1 start_misses))
          ∙ empty))
      ∙ apply-Misses b (take k step1) d (Misses-take b k step1 (step1_misses b o))

  committed_out : (b : ℕ) → Outside l b → committed b ≡ d b
  unfolding committed logged
  committed_out b o =
      update_ne logged l.start b (header l (d l.start)) (λ e. omega (arith, o, e, fits))
      ∙ apply-Misses b step1 d (step1_misses b o)

  -- A crash between the header and the end of the installs.
  middle : (m : ℕ) → New l w d (recovered l (apply (take m step3) committed))
  unfolding committed logged step1 step3
  middle m b o =
      let e = apply (take m step3) committed in
      let split : (l.nblocks ≡ 0) ⊎ (0 < l.nblocks) = omega arith in
      let ne : b ≢ l.start = λ q. omega (arith, o, q, fits) in
      let keep = λ (x : ℕ) (h : l.start ≤ x) (h' : x ≤ l.start + l.nblocks).
        let z : e x ≡ committed x =
          apply-Misses x (take m step3) committed (Misses-take x m step3 (inside x h h')) in
        z in
      let head : e l.start ≡ header l (d l.start) =
        keep l.start (omega arith) (omega arith)
        ∙ update_self logged l.start (header l (d l.start)) in
      elim split [
        | inl z ↦
            ap (λ f. f b) (recovered-empty l e (ap (λ f. f 0) head ∙ header-zero l (d l.start) ∙ z))
            ∙ sym (ap (λ ws. apply ws e b) (ap (λ n. homes n 0 l w) z))
            ∙ apply-again b m step3 committed
            ∙ apply-same b step3 committed d (inr (committed_out b o))
        | inr more ↦
            recovered-full l w e (d l.start) b more few fine head
              (λ j h.
                keep (l.start + 1 + j) (omega arith) (omega arith)
                ∙ update_ne logged l.start (l.start + 1 + j) (header l (d l.start))
                    (λ q. omega (arith, q))
                ∙ apply-logs l.nblocks 0 j l w d (omega arith) (omega arith))
              ne
            ∙ apply-again b m step3 committed
            ∙ apply-same b step3 committed d (inr (committed_out b o))
      ]

  -- A crash after the cleared header.
  late : New l w d (recovered l (apply (clear ∷ []) (apply step3 committed)))
  unfolding clear step3
  late b o =
      let e = apply step3 committed in
      let f = update e l.start (header (cleared l) (header l (d l.start))) in
      ap (λ g. g b)
        (recovered-empty l f (
          ap (λ g. g 0) (update_self e l.start (header (cleared l) (header l (d l.start))))
          ∙ header-zero (cleared l) (header l (d l.start))))
      ∙ update_ne e l.start b (header (cleared l) (header l (d l.start)))
          (λ q. omega (arith, o, q, fits))
      ∙ apply-same b step3 committed d (inr (committed_out b o))

  -- The commit's writes after those to the log.
  later : List (ℕ × Block)
  later = (l.start, header l (d l.start)) ∷ (step3 ++ (clear ∷ []))

  Fine : Disk → Type 0
  Fine e = Old l d (recovered l e) ⊎ New l w d (recovered l e)

  after_header : (p : ℕ) → Fine (apply (take p (step3 ++ (clear ∷ []))) committed)
  unfolding Fine
  after_header p = elim (take-cases p step3 (clear ∷ [])) [
    | inl e ↦ inr (subst (λ ws. New l w d (recovered l (apply ws committed))) (sym e) (middle p))
    | inr (q, e) ↦
        let at = λ (ws : List (ℕ × Block)) (h : take q (clear ∷ []) ≡ ws).
          let z : apply (take p (step3 ++ (clear ∷ []))) committed
              ≡ apply ws (apply step3 committed) =
            ap (λ vs. apply vs committed) e
            ∙ apply-append step3 (take q (clear ∷ [])) committed
            ∙ ap (λ vs. apply vs (apply step3 committed)) h in
          z in
        inr (elim (take-one q clear []) [
          | inl h ↦
              let (m, f) = take-all step3 in
              subst (λ x. New l w d (recovered l x)) (sym (at [] h))
                (subst (λ ws. New l w d (recovered l (apply ws committed))) f (middle m))
          | inr (n, h) ↦
              subst (λ x. New l w d (recovered l x))
                (sym (at (clear ∷ []) (h ∙ ap (λ ws. clear ∷ ws) (take-nil n)))) late
        ])
  ]

  after_log : (m : ℕ) → Fine (apply (take m later) logged)
  unfolding logged committed later Fine
  after_log m = elim (take-one m (l.start, header l (d l.start)) (step3 ++ (clear ∷ []))) [
    | inl h ↦
        let (n, f) = take-all step1 in
        inl (
          subst (λ ws. Old l d (recovered l (apply ws logged))) (sym h)
            (subst (λ ws. Old l d (recovered l (apply ws d))) f (early n)))
    | inr (p, h) ↦ subst (λ ws. Fine (apply ws logged)) (sym h) (after_header p)
  ]

  -- Let the log end below the block 2^32, the header on the disk `d` be empty, the transaction fit
  -- into the log, and its entries be acceptable to recovery. If the machine stops after any number `k` of the writes of a commit,
  -- then recovery leaves every block outside the log as it was before the commit, or every one as
  -- it is after all installs.
  pub crash_atomic :
      (k : ℕ)
      → Old l d (recovered l (apply (take k (commit_writes l w (d l.start))) d))
        ⊎ New l w d (recovered l (apply (take k (commit_writes l w (d l.start))) d))
  unfolding step1 step3 clear committed logged later Fine
  crash_atomic k = elim (take-cases k step1 later) [
    | inl e ↦ inl (subst (λ ws. Old l d (recovered l (apply ws d))) (sym e) (early k))
    | inr (m, e) ↦
        subst (λ x. Fine x) (sym (ap (λ ws. apply ws d) e ∙ apply-append step1 (take m later) d))
          (after_log m)
  ]
