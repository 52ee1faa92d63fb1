-- ===== src/Bio/Peek.antt =====
-- Reading a clean block and releasing it: the cache keeps its invariant, the disk is not touched.
use sbunix.Base.{ℕ, ◌≡◌, sym, ap, ap₂, ◌∙◌, true, false, arith, update, fun_ext, sub32}
use sbunix.Base.Sets.{SameSet, SameSet-trans}
use sbunix.Bio.{Buf, Cache}
use sbunix.Bio.Cached.{IsCache, IsCache-set}
use sbunix.Bio.Read.{Got, Got-at}
use sbunix.Bio.Write.{IsSmall, Released, restored}

pub record Peeked (c c' : Cache) : Type 0 where
  pub cached : IsCache c'
  pub same : SameSet c.order c'.order
  pub disk : c'.disk ≡ c.disk
  pub trace : c'.trace ≡ c.trace
  pub pins : (j : ℕ) → (c'.slot j).refcnt ≡ (c.slot j).refcnt
  pub dirt : (j : ℕ) → (c'.slot j).dirty ≡ true → ((c.slot j).dirty ≡ true) × (c'.slot j ≡ c.slot j)
  pub undirty : (j : ℕ) → (c'.slot j).dirty ≡ (c.slot j).dirty

module _ {c c1 c2 : Cache} {b i : ℕ} (v : IsCache c) (small : IsSmall c)
    (clean : (c.slot i).dirty ≡ false) (g : Got c b i c1) (r : Released c1 i c2) where
  peek_final : Buf
  peek_final = record g.buf { refcnt = (c.slot i).refcnt }

  peek_same : SameSet c.order c2.order
  peek_same = SameSet-trans g.same r.same

  peek_released : record (c1.slot i) { refcnt = sub32 (c1.slot i).refcnt 1 } ≡ peek_final
  unfolding peek_final
  peek_released =
      let n : sub32 g.buf.refcnt 1 ≡ (c.slot i).refcnt =
        ap (λ x. sub32 x 1) g.pinned ∙ restored (c.slot i).refcnt (small i) in
      rw (Got-at g) (ground (arith, n))

  peek_slots : c2.slot ≡ update c.slot i peek_final
  peek_slots = r.slots ∙ fun_ext λ j. ground (arith, peek_released, ap (λ f. f j) g.slots)

  pub peek-Peeked : Peeked c c2
  unfolding peek_final
  peek-Peeked = record {
    cached =
        IsCache-set c2 i peek_final v peek_same peek_slots g.here
          (λ j hj vj bj. g.only j hj vj (bj ∙ g.number)) (λ x ne. ap (λ f. f x) (r.disk ∙ g.disk))
          (λ _. g.clean clean ∙ ap₂ (λ f x. f x) (sym (r.disk ∙ g.disk)) (sym g.number)) g.valid;
    same = peek_same;
    disk = r.disk ∙ g.disk;
    trace = r.trace ∙ g.trace;
    pins = λ j. ground (arith, ap (λ f. f j) peek_slots);
    dirt = λ j t. ground (arith, ap (λ f. f j) peek_slots, g.dirty);
    undirty = λ j. ground (arith, ap (λ f. f j) peek_slots, g.dirty);
  }
