-- ===== src/Bio/Write.antt =====
-- Reading a block, changing it, writing it back and releasing it, as the log does.
use sbunix.Base.{
  ℕ, ◌^◌, ◌≤◌, ◌<◌, ◌≡◌, ◌≢◌, refl, sym, ap, ap₂, ◌∙◌, true, false, [], ◌∷◌, ◌++◌, arith, ◌==◌,
  update, update_self, update_ne, Bool-cases, inl, inr, add32, sub32, fun_ext, subst,
}
use sbunix.Base.Sets.{
  has, count, Nodup, SameSet, SameSet-refl, SameSet-trans, SameSet-front, count_mono,
}
use sbunix.Bio.{Buf, Block, Cache, is_victim, bwrite, brelse, set_block}
use sbunix.Bio.Cached.{IsCache, IsCache-set}
use sbunix.Bio.Read.{Got, Got-at}

-- No reference count is near the end of `int`.
abbrev pub IsSmall : Cache → Type 0
IsSmall c = (j : ℕ) → (c.slot j).refcnt < 2 ^ 31

-- The effect of a write of `d` to block `b` through the cache: the disk changes in that block, the
-- pins are as before, no buffer becomes dirty, and the dirty buffers of other blocks are untouched.
pub record Wrote (c : Cache) (b : ℕ) (d : Block) (c' : Cache) : Type 0 where
  pub cached : IsCache c'
  pub same : SameSet c.order c'.order
  pub disk : c'.disk ≡ update c.disk b d
  pub trace : c'.trace ≡ c.trace ++ ((b, d) ∷ [])
  pub pins : (j : ℕ) → (c'.slot j).refcnt ≡ (c.slot j).refcnt
  pub dirt : (j : ℕ) → (c'.slot j).dirty ≡ true → ((c.slot j).dirty ≡ true) × (c'.slot j ≡ c.slot j)
  pub spared : (j : ℕ) → (c.slot j).dirty ≡ true → (c.slot j).blockno ≢ b → c'.slot j ≡ c.slot j

pub Wrote-IsSmall : {c c' : Cache} {b : ℕ} {d : Block} → IsSmall c → Wrote c b d c' → IsSmall c'
Wrote-IsSmall s w = λ j. rw (w.pins j) (s j)

-- A write leaves at least as many buffers to evict.
pub Wrote-room :
    {c c' : Cache} {b : ℕ} {d : Block}
    → Wrote c b d c'
    → count (is_victim c) c.order ≤ count (is_victim c') c'.order
Wrote-room {c} {c'} w =
    rw (w.same.counts (is_victim c'))
      (count_mono (is_victim c) (is_victim c') c.order (λ j h f. keep j f))
  where
    keep : (j : ℕ) → is_victim c j ≡ true → is_victim c' j ≡ true
    keep j f = elim (Bool-cases (c'.slot j).dirty) [
      | inl t ↦ let (d, _) = w.dirt j t in ground arith
      | inr t ↦ rw (w.pins j, t) (ground arith)
    ]

-- `brelse` lowers the count, and may move the buffer to the front.
pub record Released (c : Cache) (i : ℕ) (c' : Cache) : Type 0 where
  pub same : SameSet c.order c'.order
  pub slots : c'.slot ≡ update c.slot i (record (c.slot i) { refcnt = sub32 (c.slot i).refcnt 1 })
  pub disk : c'.disk ≡ c.disk
  pub trace : c'.trace ≡ c.trace

pub brelse-Released :
    (c : Cache) (i : ℕ) → Nodup c.order → has i c.order ≡ true → Released c i (brelse c i)
unfolding brelse
brelse-Released c i n h = elim (Bool-cases ((update c.slot i lower i).refcnt == 0)) [
  | inl e ↦ rw e (record { same = SameSet-front i h n; slots = refl; disk = refl; trace = refl })
  | inr e ↦ rw e (record { same = SameSet-refl n; slots = refl; disk = refl; trace = refl })
]
  where
    lower : Buf
    lower = record (c.slot i) { refcnt = sub32 (c.slot i).refcnt 1 }

-- A holder replaces the data and writes it to the disk.
abbrev pub overwrite : Cache → ℕ → Block → Cache
overwrite c i d = bwrite (set_block c i d) i

-- The buffer as `overwrite` leaves it.
abbrev pub written : Buf → Block → Buf
written s d = record s { block = d; dirty = false }

pub record Overwrote (c : Cache) (i : ℕ) (d : Block) (c' : Cache) : Type 0 where
  pub order : c'.order ≡ c.order
  pub slots : c'.slot ≡ update c.slot i (written (c.slot i) d)
  pub disk : c'.disk ≡ update c.disk (c.slot i).blockno d
  pub trace : c'.trace ≡ c.trace ++ (((c.slot i).blockno, d) ∷ [])

pub overwrite-Overwrote : (c : Cache) (i : ℕ) (d : Block) → Overwrote c i d (overwrite c i d)
unfolding bwrite
overwrite-Overwrote c i d =
    let at : (set_block c i d).slot i ≡ record (c.slot i) { block = d } =
      update_self c.slot i (record (c.slot i) { block = d }) in
    record { order = refl; slots = fun_ext λ j. ground arith; disk = rw at; trace = rw at }

pub restored : (r : ℕ) → r < 2 ^ 31 → sub32 (add32 r 1) 1 ≡ r
restored r h = omega arith

-- Reading block `b`, replacing its data by `d`, writing it back and releasing it.
module _ {c c1 c3 c4 : Cache} {b i : ℕ} (d : Block) (v : IsCache c) (small : IsSmall c)
    (g : Got c b i c1) (o : Overwrote c1 i d c3) (r : Released c3 i c4) where
  put_same : SameSet c.order c4.order
  put_same = SameSet-trans g.same (subst (λ xs. SameSet xs c4.order) o.order r.same)

  put_number : (c1.slot i).blockno ≡ b
  put_number = ap (λ (x : Buf). x.blockno) (Got-at g) ∙ g.number

  put_final : Buf
  put_final = record {
    valid = true;
    dirty = false;
    refcnt = (c.slot i).refcnt;
    blockno = b;
    block = d;
  }

  put_released : record (c3.slot i) { refcnt = sub32 (c3.slot i).refcnt 1 } ≡ put_final
  unfolding put_final
  put_released =
      let e : c3.slot i ≡ written g.buf d =
        ap (λ f. f i) o.slots
        ∙ update_self c1.slot i (written (c1.slot i) d)
        ∙ ap (λ x. written x d) (Got-at g) in
      let n : sub32 g.buf.refcnt 1 ≡ (c.slot i).refcnt =
        ap (λ x. sub32 x 1) g.pinned ∙ restored (c.slot i).refcnt (small i) in
      rw e (ground (arith, n, g.valid, g.number))

  put_slots : c4.slot ≡ update c.slot i put_final
  put_slots =
      r.slots
      ∙ fun_ext λ j. ground (arith, put_released, ap (λ f. f j) o.slots, ap (λ f. f j) g.slots)

  put_disk : c4.disk ≡ update c.disk b d
  put_disk = r.disk ∙ o.disk ∙ ap₂ (λ f x. update f x d) g.disk put_number

  pub put-Wrote : Wrote c b d c4
  unfolding put_final
  put-Wrote = record {
    cached =
        IsCache-set c4 i put_final v put_same put_slots g.here g.only
          (λ x ne. ap (λ f. f x) put_disk ∙ update_ne c.disk b x d ne)
          (λ _. sym (ap (λ f. f b) put_disk ∙ update_self c.disk b d)) refl;
    same = put_same;
    disk = put_disk;
    trace = r.trace ∙ o.trace ∙ ap₂ (λ t x. t ++ ((x, d) ∷ [])) g.trace put_number;
    pins = λ j. ground (arith, ap (λ f. f j) put_slots);
    dirt = λ j t. ground (arith, ap (λ f. f j) put_slots);
    spared = λ j t ne. ground (arith, ap (λ f. f j) put_slots, g.kept);
  }
