-- ===== src/Bio/Copy.antt =====
-- Copying one block to another through the cache, as `install_trans` does: both are read, the
-- second takes the first's data and is written back, and both are released.
use sbunix.Base.{
  ℕ, ◌+◌, ◌≤◌, ◌≡◌, ◌≢◌, refl, sym, ap, ap₂, ◌∙◌, true, false, [], ◌∷◌, ◌++◌, arith, update,
  update_self, update_ne, add32, sub32, fun_ext, subst,
}
use sbunix.Base.Sets.{has, count, count_mono_but, SameSet, SameSet-refl, SameSet-trans}
use sbunix.Bio.{Buf, Cache, is_victim}
use sbunix.Bio.Cached.{IsCache, IsCache-set}
use sbunix.Bio.Read.{Got, Got-at}
use sbunix.Bio.Write.{IsSmall, Wrote, Released, Overwrote, written, restored}

-- A read keeps the invariant of the cache.
pub Got-IsCache : {c c' : Cache} {b i : ℕ} → IsCache c → Got c b i c' → IsCache c'
Got-IsCache {c} {c'} {b} {i} v g =
    IsCache-set c' i g.buf v g.same g.slots g.here (λ j hj vj bj. g.only j hj vj (bj ∙ g.number))
      (λ x ne. ap (λ f. f x) g.disk)
      (λ d. g.clean (sym g.dirty ∙ d) ∙ ap₂ (λ f x. f x) (sym g.disk) (sym g.number)) g.valid

-- A read takes one buffer at most from those to evict.
pub Got-room :
    {c c' : Cache} {b i : ℕ}
    → IsCache c
    → Got c b i c'
    → count (is_victim c) c.order ≤ count (is_victim c') c'.order + 1
Got-room {c} {c'} {i} v g = rw (g.same.counts (is_victim c')) (
    count_mono_but (is_victim c) (is_victim c') i c.order v.nodup
      (λ j h ne f. ground (arith, ap (λ s. s j) g.slots)))

module _ {c c1 c2 c3 c4 c5 : Cache} {src dst i k : ℕ} (v : IsCache c) (small : IsSmall c)
    (ne : src ≢ dst) (clean : (c.slot i).dirty ≡ false) (g : Got c src i c1) (h : Got c1 dst k c2)
    (o : Overwrote c2 k ((c2.slot i).block) c3) (r : Released c3 i c4) (s : Released c4 k c5) where
  -- The two buffers are different: the first is pinned and holds another block.
  apart : i ≢ k
  apart e = ground (arith, e, Got-at g, g.number, g.pinned, small i, h.reused)

  copy_same : SameSet c.order c5.order
  copy_same = SameSet-trans g.same (
      SameSet-trans h.same
        (SameSet-trans (subst (λ xs. SameSet xs c4.order) o.order r.same) s.same))

  -- The first buffer at the end, and the second.
  first : Buf
  first = record g.buf { refcnt = (c.slot i).refcnt }

  second : Buf
  second = record {
    valid = true;
    dirty = false;
    refcnt = (c.slot k).refcnt;
    blockno = dst;
    block = (c2.slot i).block;
  }

  at_i : (c2.slot i).block ≡ c.disk src
  at_i =
      ap (λ (x : Buf). x.block)
        (ap (λ f. f i) h.slots ∙ update_ne c1.slot k i h.buf apart ∙ Got-at g)
      ∙ g.clean clean

  k_old : c1.slot k ≡ c.slot k
  k_old = ap (λ f. f k) g.slots ∙ update_ne c.slot i k g.buf (λ e. apart (sym e))

  count_i : sub32 g.buf.refcnt 1 ≡ (c.slot i).refcnt
  count_i = ap (λ x. sub32 x 1) g.pinned ∙ restored (c.slot i).refcnt (small i)

  count_k : sub32 h.buf.refcnt 1 ≡ (c.slot k).refcnt
  count_k =
      ap (λ x. sub32 x 1) h.pinned
      ∙ ap (λ (x : Buf). sub32 (add32 x.refcnt 1) 1) k_old
      ∙ restored (c.slot k).refcnt (small k)

  old_i : c3.slot i ≡ g.buf
  old_i =
      ap (λ f. f i) o.slots
      ∙ update_ne c2.slot k i (written (c2.slot k) ((c2.slot i).block)) apart
      ∙ ap (λ f. f i) h.slots
      ∙ update_ne c1.slot k i h.buf apart
      ∙ Got-at g

  new_k : c4.slot k ≡ written h.buf ((c2.slot i).block)
  new_k =
      ap (λ f. f k) r.slots
      ∙ update_ne c3.slot i k (record (c3.slot i) { refcnt = sub32 (c3.slot i).refcnt 1 })
          (λ e. apart (sym e))
      ∙ ap (λ f. f k) o.slots
      ∙ update_self c2.slot k (written (c2.slot k) ((c2.slot i).block))
      ∙ ap (λ x. written x ((c2.slot i).block)) (Got-at h)

  last_k : record (c4.slot k) { refcnt = sub32 (c4.slot k).refcnt 1 } ≡ second
  unfolding second
  last_k = rw new_k (ground (arith, count_k, h.valid, h.number))

  last_i : record (c3.slot i) { refcnt = sub32 (c3.slot i).refcnt 1 } ≡ first
  unfolding first
  last_i = rw old_i (ground (arith, count_i))

  copy_slots : c5.slot ≡ update (update c.slot i first) k second
  copy_slots = fun_ext λ j. ground (
    arith,
    ap (λ f. f j) s.slots,
    last_k,
    ap (λ f. f j) r.slots,
    last_i,
    ap (λ f. f j) o.slots,
    ap (λ f. f j) h.slots,
    ap (λ f. f j) g.slots,
  )

  copy_disk : c5.disk ≡ update c.disk dst ((c2.slot i).block)
  copy_disk =
      s.disk
      ∙ r.disk
      ∙ o.disk
      ∙ ap₂ (λ f x. update f x ((c2.slot i).block)) (h.disk ∙ g.disk)
          (ap (λ (x : Buf). x.blockno) (Got-at h) ∙ h.number)

  -- The cache with only the first block read and released.
  borrowed : Cache
  borrowed = record c { slot = update c.slot i first }

  borrowed-IsCache : IsCache borrowed
  unfolding borrowed first
  borrowed-IsCache =
      IsCache-set borrowed i first v (SameSet-refl v.nodup) refl g.here
        (λ j hj vj bj. g.only j hj vj (bj ∙ g.number)) (λ x n. refl)
        (λ d. g.clean clean ∙ ap c.disk (sym g.number)) g.valid

  copy-IsCache : IsCache c5
  unfolding borrowed first second
  copy-IsCache =
      IsCache-set c5 k second borrowed-IsCache copy_same copy_slots
        (sym (g.same.members k) ∙ h.here) only
        (λ x n. ap (λ f. f x) copy_disk ∙ update_ne c.disk dst x ((c2.slot i).block) n)
        (λ _. sym (ap (λ f. f dst) copy_disk ∙ update_self c.disk dst ((c2.slot i).block))) refl
    where
      only :
          (j : ℕ)
          → has j c.order ≡ true
          → (borrowed.slot j).valid ≡ true
          → (borrowed.slot j).blockno ≡ dst
          → j ≡ k
      only j hj vj bj =
          h.only j (g.same.members j ∙ hj) (ground (arith, ap (λ f. f j) g.slots))
            (ground (arith, ap (λ f. f j) g.slots))

  pub copy-Wrote : Wrote c dst (c.disk src) c5
  unfolding first second
  copy-Wrote =
      subst (λ d. Wrote c dst d c5) at_i
        (record {
          cached = copy-IsCache;
          same = copy_same;
          disk = copy_disk;
          trace =
              s.trace
              ∙ r.trace
              ∙ o.trace
              ∙ ap₂ (λ t x. t ++ ((x, (c2.slot i).block) ∷ [])) (h.trace ∙ g.trace)
                  (ap (λ (x : Buf). x.blockno) (Got-at h) ∙ h.number);
          pins = λ j. ground (arith, ap (λ f. f j) copy_slots);
          dirt = λ j t. ground (arith, ap (λ f. f j) copy_slots, g.dirty);
          spared =
              λ j t n. ground (arith, ap (λ f. f j) copy_slots, g.dirty, h.kept, k_old, h.dirty);
        })
