-- ===== src/Signal/Pick.antt =====
-- `pick_actionable`: which signal it finds and which it drops.
use sbunix.Base.{
  ℕ, zero, suc, ◌+◌, ◌≤◌, ◌<◌, ◌≡◌, refl, sym, ap, ◌∙◌, ◌⊎◌, inl, inr, Bool, true, false, not, ◌&&◌,
  ◌==◌, ltb, leb, arith, if◌then◌else◌, subst, eq_of_==, Bool-cases, fun_ext,
}
use sbunix.Signal.{
  any_from, nsig, sig_has_actionable, Pcb, Sigset, deliverable, sig_is_no_op, pick_from,
  pick_actionable, lower,
}

-- What a search for the signals of `d` from `i` on finds: the lowest that has an effect.
abbrev Lowest : ℕ → ℕ → Sigset → Pcb → ℕ → Type 0
Lowest n i d p f =
    ((f ≡ 0) × ((j : ℕ) → i ≤ j → j < i + n → d j ≡ true → sig_is_no_op p j ≡ true))
    ⊎ ((i ≤ f)
        × (f < i + n)
        × (d f ≡ true)
        × (sig_is_no_op p f ≡ false)
        × ((j : ℕ) → i ≤ j → j < f → d j ≡ true → sig_is_no_op p j ≡ true))

-- The pending signals that stay.
abbrev pub kept : ℕ → ℕ → Sigset → Pcb → Sigset
kept n i d p j = p.sig_pending j && not (leb i j && ltb j (i + n) && d j && sig_is_no_op p j)

-- A change of the pending signals does not change which are without effect.
pub no_op_pending :
    (p : Pcb) (m : Sigset) (j : ℕ)
    → sig_is_no_op (record p { sig_pending = m }) j ≡ sig_is_no_op p j
unfolding sig_is_no_op
no_op_pending p m j = refl

same_bits :
    (d g : ℕ → Bool) (i n j : ℕ) (b : Bool)
    → (d i && g i) ≡ false
    → (b && not (leb (i + 1) j && ltb j (i + 1 + n) && d j && g j))
      ≡ (b && not (leb i j && ltb j (i + suc n) && d j && g j))
same_bits d g i n j b h = elim (Bool-cases (j == i)) [
  | inl e ↦ ground (arith, ap d (eq_of_== j i e), ap g (eq_of_== j i e))
  | inr e ↦ ground arith
]

drop_bits :
    (d g m : ℕ → Bool) (i n j : ℕ)
    → d i ≡ true
    → g i ≡ true
    → (lower m i j && not (leb (i + 1) j && ltb j (i + 1 + n) && d j && g j))
      ≡ (m j && not (leb i j && ltb j (i + suc n) && d j && g j))
drop_bits d g m i n j h h' = elim (Bool-cases (j == i)) [
  | inl e ↦ ground (arith, ap d (eq_of_== j i e), ap g (eq_of_== j i e))
  | inr e ↦ ground arith
]

pick_from-found : (n i : ℕ) (d : Sigset) (p : Pcb) (f : ℕ) → 0 < f → ((pick_from n i d p f).1 ≡ f)
unfolding pick_from
pick_from-found zero i d p f h = refl
pick_from-found (suc n) i d p f h = elim (Bool-cases (d i)) [
  | inr e ↦ rw e (pick_from-found n (i + 1) d p f h)
  | inl e ↦ elim (Bool-cases (sig_is_no_op p i)) [
    | inl e' ↦
        rw (e, e')
          (pick_from-found n (i + 1) d (record p { sig_pending = lower p.sig_pending i }) f h)
    | inr e' ↦ simp (e, e') (ground (arith, pick_from-found n (i + 1) d p f h))
  ]
]

pick_from-kept :
    (n i : ℕ) (d : Sigset) (p : Pcb) (f : ℕ)
    → (pick_from n i d p f).0 ≡ record p { sig_pending = kept n i d p }
unfolding pick_from
pick_from-kept zero i d p f = ap (λ m. record p { sig_pending = m }) (fun_ext λ j. ground arith)
pick_from-kept (suc n) i d p f = elim (Bool-cases (d i)) [
  | inr e ↦ rw e (
      pick_from-kept n (i + 1) d p f
      ∙ ap (λ m. record p { sig_pending = m }) (fun_ext λ j. same (ground arith) j))
  | inl e ↦ elim (Bool-cases (sig_is_no_op p i)) [
    | inl e' ↦
        rw (e, e')
          (pick_from-kept n (i + 1) d (record p { sig_pending = lower p.sig_pending i }) f
            ∙ ap (λ m. record p { sig_pending = m }) (fun_ext λ j. drop (e, e') j))
    | inr e' ↦
        rw (e, e')
          (pick_from-kept n (i + 1) d p (if f == 0 then i else f)
            ∙ ap (λ m. record p { sig_pending = m }) (fun_ext λ j. same (ground arith) j))
  ]
]
  where
    same : (d i && sig_is_no_op p i) ≡ false → (j : ℕ) → kept n (i + 1) d p j ≡ kept (suc n) i d p j
    same none_here j = same_bits d (sig_is_no_op p) i n j (p.sig_pending j) none_here

    drop :
        (d i ≡ true) × (sig_is_no_op p i ≡ true)
        → (j : ℕ)
        → kept n (i + 1) d (record p { sig_pending = lower p.sig_pending i }) j
          ≡ kept (suc n) i d p j
    drop here j =
        ap (λ b. lower p.sig_pending i j && not (leb (i + 1) j && ltb j (i + 1 + n) && d j && b))
          (no_op_pending p (lower p.sig_pending i) j)
        ∙ drop_bits d (sig_is_no_op p) p.sig_pending i n j here.0 here.1

Lowest-pending :
    (n i : ℕ) (d : Sigset) (p : Pcb) (m : Sigset) (f : ℕ)
    → Lowest n i d (record p { sig_pending = m }) f
    → Lowest n i d p f
Lowest-pending n i d p m f (inl (z, a)) =
    inl (z, λ j q q' dj. sym (no_op_pending p m j) ∙ a j q q' dj)
Lowest-pending n i d p m f (inr (lo, hi, df, nf, a)) = inr (
  lo,
  hi,
  df,
  sym (no_op_pending p m f) ∙ nf,
  λ j q q' dj. sym (no_op_pending p m j) ∙ a j q q' dj,
)

pick_from-Lowest : (n i : ℕ) (d : Sigset) (p : Pcb) → 0 < i → Lowest n i d p (pick_from n i d p 0).1
unfolding pick_from
pick_from-Lowest zero i d p h = inl (refl, λ j q q'. absurd (omega arith))
pick_from-Lowest (suc n) i d p h = elim (Bool-cases (d i)) [
  | inr e ↦
      rw e (
        widen (pick_from n (i + 1) d p 0).1 (pick_from-Lowest n (i + 1) d p (omega arith))
          (λ u. cc))
  | inl e ↦ elim (Bool-cases (sig_is_no_op p i)) [
    | inl e' ↦
        let q = record p { sig_pending = lower p.sig_pending i } in
        rw (e, e')
          (widen (pick_from n (i + 1) d q 0).1
            (Lowest-pending n (i + 1) d p (lower p.sig_pending i) (pick_from n (i + 1) d q 0).1
              (pick_from-Lowest n (i + 1) d q (omega arith)))
            (λ u. e'))
    | inr e' ↦
        let at : (pick_from n (i + 1) d p i).1 ≡ i = pick_from-found n (i + 1) d p i h in
        let start : (if i == 0 then i else 0) ≡ 0 = ground arith in
        simp (e, e')
          (subst (λ x. Lowest (suc n) i d p x) (sym at)
            (inr (omega arith, omega arith, e, e', λ j q q' dj. absurd (omega arith))))
  ]
]
  where
    widen :
        (f : ℕ)
        → Lowest n (i + 1) d p f
        → (d i ≡ true → sig_is_no_op p i ≡ true)
        → Lowest (suc n) i d p f
    widen f (inl (z, a)) b = inl (z, λ j q q' dj. more j q dj (λ r. a j r (omega arith) dj))
      where
        more :
            (j : ℕ)
            → i ≤ j
            → d j ≡ true
            → (i + 1 ≤ j → sig_is_no_op p j ≡ true)
            → sig_is_no_op p j ≡ true
        more j q dj r =
            let split : (i ≡ j) ⊎ (i + 1 ≤ j) = omega arith in
            elim split [
              | inl e ↦
                  subst (λ x. sig_is_no_op p x ≡ true) e (b (subst (λ x. d x ≡ true) (sym e) dj))
              | inr r' ↦ r r'
            ]
    widen f (inr (lo, hi, df, nf, a)) b =
        inr (omega arith, omega arith, df, nf, λ j q q' dj. low j q q' dj)
      where
        low : (j : ℕ) → i ≤ j → j < f → d j ≡ true → sig_is_no_op p j ≡ true
        low j q q' dj =
            let split : (i ≡ j) ⊎ (i + 1 ≤ j) = omega arith in
            elim split [
              | inl e ↦
                  subst (λ x. sig_is_no_op p x ≡ true) e (b (subst (λ x. d x ≡ true) (sym e) dj))
              | inr r ↦ a j r q' dj
            ]

any_from-true :
    (n i : ℕ) (g : ℕ → Bool) (j : ℕ) → i ≤ j → j < i + n → g j ≡ true → any_from n i g ≡ true
unfolding any_from
any_from-true zero i g j h h' e = absurd (omega arith)
any_from-true (suc n) i g j h h' e =
    let split : (i ≡ j) ⊎ (i + 1 ≤ j) = omega arith in
    elim split [
      | inl q ↦ let at : g i ≡ true = ap g q ∙ e in ground arith
      | inr q ↦ let r = any_from-true n (i + 1) g j q (omega arith) e in ground arith
    ]

any_from-false :
    (n i : ℕ) (g : ℕ → Bool) → ((j : ℕ) → i ≤ j → j < i + n → g j ≡ false) → any_from n i g ≡ false
unfolding any_from
any_from-false zero i g h = refl
any_from-false (suc n) i g h =
    let at = h i (omega arith) (omega arith) in
    let r = any_from-false n (i + 1) g (λ j q q'. h j (omega arith) (omega arith)) in ground arith

ltb_pos : (f : ℕ) → 1 ≤ f → true ≡ ltb 0 f
ltb_pos f h = ground arith

-- What `pick_actionable` returns for the process `p`.
pub record Picked (p q : Pcb) (f : ℕ) : Type 0 where
  pub none_left :
      f ≡ 0 → (j : ℕ) → 1 ≤ j → j < nsig → deliverable p j ≡ true → sig_is_no_op p j ≡ true
  pub effective : 0 < f → (f < nsig) × (deliverable p f ≡ true) × (sig_is_no_op p f ≡ false)
  pub lowest : (j : ℕ) → 1 ≤ j → j < f → deliverable p j ≡ true → sig_is_no_op p j ≡ true
  pub agrees : sig_has_actionable p ≡ ltb 0 f
  pub after : q ≡ record p { sig_pending = kept 31 1 (deliverable p) p }

-- `pick_actionable` finds the lowest deliverable signal that is not without effect, and 0 when
-- there is none, which is when `sig_has_actionable` says no. Of the process it changes the pending
-- signals only: it drops those that are deliverable and without effect.
pub pick_actionable-Picked : (p : Pcb) → Picked p (pick_actionable p).0 (pick_actionable p).1
unfolding pick_actionable sig_has_actionable
pick_actionable-Picked p =
    go (pick_from 31 1 (deliverable p) p 0).1 refl
      (pick_from-Lowest 31 1 (deliverable p) p (omega arith))
  where
    after : (pick_actionable p).0 ≡ record p { sig_pending = kept 31 1 (deliverable p) p }
    after = pick_from-kept 31 1 (deliverable p) p 0

    go :
        (f : ℕ)
        → (pick_from 31 1 (deliverable p) p 0).1 ≡ f
        → Lowest 31 1 (deliverable p) p f
        → Picked p (pick_actionable p).0 f
    go f e (inl (z, a)) = record {
      none_left = λ _ j q q' d. a j q (omega arith) d;
      effective = λ h. absurd (omega arith);
      lowest = λ j q q' d. absurd (omega arith);
      agrees =
          any_from-false 31 1 (λ i. deliverable p i && not (sig_is_no_op p i))
            (λ j q q'. quiet j (a j q q'))
          ∙ ap (λ x. ltb 0 x) (sym z);
      after = after;
    }
      where
        quiet :
            (j : ℕ)
            → (deliverable p j ≡ true → sig_is_no_op p j ≡ true)
            → (deliverable p j && not (sig_is_no_op p j)) ≡ false
        quiet j h = elim (Bool-cases (deliverable p j)) [
          | inl t ↦ rw (t, h t) refl
          | inr t ↦ rw t refl
        ]
    go f e (inr (lo, hi, df, nf, a)) = record {
      none_left = λ z. absurd (omega arith);
      effective = λ h. (omega arith, df, nf);
      lowest = a;
      agrees =
          any_from-true 31 1 (λ i. deliverable p i && not (sig_is_no_op p i)) f lo (omega arith)
            (rw (df, nf) refl)
          ∙ ltb_pos f lo;
      after = after;
    }
