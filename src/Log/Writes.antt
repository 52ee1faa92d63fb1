-- ===== src/Log/Writes.antt =====
-- Sequences of disk writes of the log, as the cache makes them.
use sbunix.Base.{
  ℕ, zero, suc, ◌+◌, ◌≤◌, ◌<◌, ◌≡◌, ◌≢◌, refl, sym, ap, ◌∙◌, ◌⊎◌, inl, inr, true, List, [], ◌∷◌,
  ◌++◌, arith, update, update_ne, update_self, append_assoc, append-nil,
}
use sbunix.Base.Sets.{SameSet, SameSet-refl, SameSet-trans}
use sbunix.Bio.{Block, Cache}
use sbunix.Bio.Write.{Wrote}
use sbunix.Log.{Log}
use sbunix.Log.Write.{Ready}

abbrev pub Disk : Type 0
Disk = ℕ → Block

-- The disk after some writes, the first of them first.
abbrev pub apply : List (ℕ × Block) → Disk → Disk
apply [] d = d
apply ((b, x) ∷ ws) d = apply ws (update d b x)

pub apply-append :
    (ws vs : List (ℕ × Block)) (d : Disk) → apply (ws ++ vs) d ≡ apply vs (apply ws d)
apply-append [] vs d = refl
apply-append ((b, x) ∷ ws) vs d = apply-append ws vs (update d b x)

-- No write is to the block `b`.
abbrev pub Misses : ℕ → List (ℕ × Block) → Type 0
Misses b [] = Unit
Misses b ((x, _) ∷ ws) = (b ≢ x) × Misses b ws

pub apply-Misses : (b : ℕ) (ws : List (ℕ × Block)) (d : Disk) → Misses b ws → apply ws d b ≡ d b
apply-Misses b [] d m = refl
apply-Misses b ((x, y) ∷ ws) d m = apply-Misses b ws (update d x y) m.1 ∙ update_ne d x b y m.0

-- From `c` to `c'` exactly the writes `ws` reach the disk, in this order.
pub record Wrotes (l : Log) (c : Cache) (ws : List (ℕ × Block)) (c' : Cache) : Type 0 where
  pub ready : Ready l c'
  pub same : SameSet c.order c'.order
  pub disk : c'.disk ≡ apply ws c.disk
  pub trace : c'.trace ≡ c.trace ++ ws
  pub pins : (j : ℕ) → (c'.slot j).refcnt ≡ (c.slot j).refcnt
  pub dirt : (j : ℕ) → (c'.slot j).dirty ≡ true → ((c.slot j).dirty ≡ true) × (c'.slot j ≡ c.slot j)

pub Wrotes-refl : {l : Log} {c : Cache} → Ready l c → Wrotes l c [] c
Wrotes-refl {c} r = record {
  ready = r;
  same = SameSet-refl r.cached.nodup;
  disk = refl;
  trace = sym (append-nil c.trace);
  pins = λ j. refl;
  dirt = λ j t. (t, refl);
}

pub Wrotes-cons :
    {l : Log} {c c1 c2 : Cache} {b : ℕ} {d : Block} {ws : List (ℕ × Block)}
    → Wrote c b d c1
    → Wrotes l c1 ws c2
    → Wrotes l c ((b, d) ∷ ws) c2
Wrotes-cons {c} {b} {d} {ws} w v = record {
  ready = v.ready;
  same = SameSet-trans w.same v.same;
  disk = v.disk ∙ ap (λ x. apply ws x) w.disk;
  trace = v.trace ∙ ap (λ t. t ++ ws) w.trace ∙ append_assoc c.trace ((b, d) ∷ []) ws;
  pins = λ j. v.pins j ∙ w.pins j;
  dirt = λ j t. let (t1, e1) = v.dirt j t in let (t0, e0) = w.dirt j t1 in (t0, e1 ∙ e0);
}

pub Wrotes-trans :
    {l : Log} {c c1 c2 : Cache} {ws vs : List (ℕ × Block)}
    → Wrotes l c ws c1
    → Wrotes l c1 vs c2
    → Wrotes l c (ws ++ vs) c2
Wrotes-trans {c} {ws} {vs} w v = record {
  ready = v.ready;
  same = SameSet-trans w.same v.same;
  disk = v.disk ∙ ap (λ x. apply vs x) w.disk ∙ sym (apply-append ws vs c.disk);
  trace = v.trace ∙ ap (λ t. t ++ vs) w.trace ∙ append_assoc c.trace ws vs;
  pins = λ j. v.pins j ∙ w.pins j;
  dirt = λ j t. let (t1, e1) = v.dirt j t in let (t0, e0) = w.dirt j t1 in (t0, e1 ∙ e0);
}

-- The writes of the data `w` to the log's blocks, and to their homes: `n` entries from `i` on.
abbrev pub logs : ℕ → ℕ → Log → Disk → List (ℕ × Block)
logs zero i l w = []
logs (suc n) i l w = (l.start + 1 + i, w i) ∷ logs n (i + 1) l w

abbrev pub homes : ℕ → ℕ → Log → Disk → List (ℕ × Block)
homes zero i l w = []
homes (suc n) i l w = (l.blocks i, w i) ∷ homes n (i + 1) l w

pub logs-Misses :
    (b n i : ℕ) (l : Log) (w : Disk)
    → (b < l.start + 1 + i) ⊎ (l.start + 1 + i + n ≤ b)
    → Misses b (logs n i l w)
logs-Misses b zero i l w h = tt
logs-Misses b (suc n) i l w h =
    (λ e. omega (arith, h, e), logs-Misses b n (i + 1) l w (omega (arith, h)))

-- The log's block `j` holds the data `w j` afterwards.
pub apply-logs :
    (n i j : ℕ) (l : Log) (w d : Disk)
    → i ≤ j
    → j < i + n
    → apply (logs n i l w) d (l.start + 1 + j) ≡ w j
apply-logs zero i j l w d h h' = absurd (omega arith)
apply-logs (suc n) i j l w d h h' =
    let split : (j ≡ i) ⊎ (i + 1 ≤ j) = omega arith in
    elim split [
      | inl e ↦
          ap (λ x. apply (logs n (i + 1) l w) (update d (l.start + 1 + i) (w i)) (l.start + 1 + x))
            e
          ∙ apply-Misses (l.start + 1 + i) (logs n (i + 1) l w) (update d (l.start + 1 + i) (w i))
              (logs-Misses (l.start + 1 + i) n (i + 1) l w (inl (omega arith)))
          ∙ update_self d (l.start + 1 + i) (w i)
          ∙ ap w (sym e)
      | inr e ↦ apply-logs n (i + 1) j l w (update d (l.start + 1 + i) (w i)) e (omega arith)
    ]
