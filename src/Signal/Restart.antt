-- ===== src/Signal/Restart.antt =====
-- kernel/signal.c: `check_signals_after_syscall`, and that both of its picks find one signal.
use sbunix.Base.{
  ℕ, ◌+◌, ◌-◌, ◌/◌, ◌%◌, ◌^◌, ◌<◌, ◌≡◌, sym, ap, ◌∙◌, ◌⊎◌, inl, inr, Bool, true, false, not, ◌&&◌,
  ◌||◌, ◌==◌, ltb, leb, arith, if◌then◌else◌, sub64,
}
use sbunix.Base.Int.{ℤ, pos, negsuc}
use sbunix.Base.Errno.{eintr, erestartsys}
use sbunix.Signal.{
  Pcb, Table, Next, set_pcb, check_signals, pick_actionable, sig_is_no_op, deliverable, sig_ign,
}
use sbunix.Signal.Pick.{Picked, kept, no_op_pending, pick_actionable-Picked}

-- The words of the trap frame that the call changes.
pub record TrapFrame : Type 0 where
  pub a0 : ℕ
  pub sepc : ℕ

abbrev pub is_restart : ℤ → Bool
is_restart (pos n) = false
is_restart (negsuc n) = n + 1 == erestartsys

-- A handler with SA_RESTART: the bit 28 of the flags.
abbrev pub restarts : Pcb → ℕ → Bool
restarts p sig =
    ltb sig_ign (p.sig_handlers sig).handler && (((p.sig_handlers sig).flags / 2 ^ 28) % 2 == 1)

-- `ret` is the result of the system call, `orig_a0` its first argument.
pub check_signals_after_syscall : Table → ℕ → TrapFrame → ℤ → ℕ → (Table × Next) × TrapFrame
check_signals_after_syscall t i tf ret orig_a0 =
    let (p, sig) = pick_actionable (t.pcb i) in
    let surfaced : TrapFrame = record tf { a0 = 2 ^ 64 - eintr } in
    let rewound : TrapFrame = record { a0 = orig_a0; sepc = sub64 tf.sepc 4 } in
    if not (t.pcb i).is_user || not (is_restart ret) then (check_signals t i, tf) else (
      check_signals (set_pcb t i p) i,
      if not (sig == 0) && restarts p sig then rewound else surfaced,
    )

module _ (p q : Pcb) (f : ℕ) (a : Picked p q f) where
  same_no_op : (j : ℕ) → sig_is_no_op q j ≡ sig_is_no_op p j
  same_no_op j =
      ap (λ x. sig_is_no_op x j) a.after ∙ no_op_pending p (kept 31 1 (deliverable p) p) j

  down : (j : ℕ) → deliverable q j ≡ true → deliverable p j ≡ true
  down j h =
      let e = sym (ap (λ x. deliverable x j) a.after) ∙ h in
      bits (p.sig_pending j)
        (not (leb 1 j && ltb j (1 + 31) && deliverable p j && sig_is_no_op p j))
        (not (p.sig_blocked j)) e
    where
      bits : (x y z : Bool) → ((x && y) && z) ≡ true → (x && z) ≡ true
      bits x y z e = ground arith

  up : (j : ℕ) → deliverable p j ≡ true → sig_is_no_op p j ≡ false → deliverable q j ≡ true
  up j h n =
      ap (λ x. deliverable x j) a.after
      ∙ bits (p.sig_pending j) (not (p.sig_blocked j)) (leb 1 j) (ltb j (1 + 31)) (deliverable p j)
          (sig_is_no_op p j) h n
    where
      bits :
          (x z l m d g : Bool)
          → (x && z) ≡ true
          → g ≡ false
          → ((x && not (l && m && d && g)) && z) ≡ true
      bits x z l m d g h n = ground arith

  clash : (j : ℕ) → sig_is_no_op q j ≡ true → sig_is_no_op p j ≡ false → ⊥
  clash j h n = cc (sym h ∙ same_no_op j ∙ n)

  clash' : (j : ℕ) → sig_is_no_op p j ≡ true → sig_is_no_op q j ≡ false → ⊥
  clash' j h n = cc (sym h ∙ sym (same_no_op j) ∙ n)

  not_less : (r : Pcb) (g : ℕ) → Picked q r g → g < f → ⊥
  not_less r g b lt =
      let (hi, df, nf) = a.effective (omega arith) in
      let split : (g ≡ 0) ⊎ (0 < g) = omega arith in
      elim split [
        | inl z ↦ clash f (b.none_left z f (omega arith) hi (up f df nf)) nf
        | inr h ↦ let (hg, dg, ng) = b.effective h in clash' g (a.lowest g h lt (down g dg)) ng
      ]

  not_more : (r : Pcb) (g : ℕ) → Picked q r g → f < g → ⊥
  not_more r g b lt =
      let (hg, dg, ng) = b.effective (omega arith) in
      let split : (f ≡ 0) ⊎ (0 < f) = omega arith in
      elim split [
        | inl z ↦ clash' g (a.none_left z g (omega arith) hg (down g dg)) ng
        | inr h ↦ let (hi, df, nf) = a.effective h in clash f (b.lowest f h lt (up f df nf)) nf
      ]

  same_pick : (r : Pcb) (g : ℕ) → Picked q r g → g ≡ f
  same_pick r g b =
      let split : (g ≡ f) ⊎ ((g < f) ⊎ (f < g)) = omega arith in
      elim split [
        | inl e ↦ e
        | inr (inl lt) ↦ absurd (not_less r g b lt)
        | inr (inr lt) ↦ absurd (not_more r g b lt)
      ]

-- Two picks in a row find one signal: the second, which delivers it, agrees with the first, which
-- decides on the restart.
pub pick_actionable-again :
    (p : Pcb) → (pick_actionable (pick_actionable p).0).1 ≡ (pick_actionable p).1
pick_actionable-again p =
    let q = (pick_actionable p).0 in
    same_pick p q (pick_actionable p).1 (pick_actionable-Picked p) (pick_actionable q).0
      (pick_actionable q).1 (pick_actionable-Picked q)
