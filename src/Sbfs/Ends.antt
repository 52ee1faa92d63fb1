-- ===== src/Sbfs/Ends.antt =====
-- The end of one use of a block: the buffer as `brelse` leaves it, in each case of `log_write`.
use sbunix.Base.{
  ℕ, ◌+◌, ◌≤◌, ◌<◌, ◌≡◌, refl, sym, ap, ◌∙◌, ◌⊎◌, inl, inr, Bool, true, false, some, arith, update,
  update_self, Bool-cases, sub32, fun_ext,
}
use sbunix.Base.Sets.{count, count_mono, count_mono_but, SameSet}
use sbunix.Bio.{Buf, Block, Cache, is_victim}
use sbunix.Bio.Read.{Got}
use sbunix.Bio.Write.{Released, restored}
use sbunix.Bio.View.{view, view-hit, view-clean}
use sbunix.Log.{Log, System, log_hdr_max}
use sbunix.Log.Write.{Outside}
use sbunix.Log.Transaction.{Open}
use sbunix.Sbfs.Settle.{Settled}

-- The holder of a buffer has the view of its block.
pub Got-view :
    {a : System} {b i : ℕ} {c1 : Cache}
    → Open a
    → (g : Got a.cache b i c1) → g.buf.block ≡ view a.cache b
Got-view {a} {b} {i} o g = elim (Bool-cases (a.cache.slot i).dirty) [
  | inl t ↦ let (e, v, d) = g.kept t in d ∙ sym (view-hit b i o.ready.cached g.here v e)
  | inr f ↦
      g.clean f
      ∙ sym (
          view-clean b o.ready.cached (λ j hj t.
            ap (λ k. (a.cache.slot k).dirty) (g.only j hj (ground (arith, t)) (ground (arith, t)))
            ∙ f))
]

-- The buffer at the end of a visit.
abbrev pub final : System → ℕ → ℕ → Bool → Block → Buf
final a b i dirty d = record {
  valid = true;
  dirty = dirty;
  refcnt = (a.cache.slot i).refcnt;
  blockno = b;
  block = d;
}

-- The slots after a buffer, got from `c`, was changed to `w` and released.
pub final_slots :
    (a : System) {b i : ℕ} {c1 : Cache} (c3 c4 : Cache) (w : Buf)
    → Open a
    → (g : Got a.cache b i c1) → c3.slot ≡ update c1.slot i w
    → w.refcnt ≡ g.buf.refcnt
    → w.valid ≡ true
    → w.blockno ≡ b
    → Released c3 i c4
    → c4.slot ≡ update a.cache.slot i (final a b i w.dirty w.block)
final_slots a {b} {i} {c1} c3 c4 w o g e r v n z =
    let at : c3.slot i ≡ w = ap (λ f. f i) e ∙ update_self c1.slot i w in
    let m : sub32 w.refcnt 1 ≡ (a.cache.slot i).refcnt =
      ap (λ x. sub32 x 1) (r ∙ g.pinned) ∙ restored (a.cache.slot i).refcnt (o.ready.small i) in
    let q : record w { refcnt = sub32 w.refcnt 1 } ≡ final a b i w.dirty w.block =
      ground (arith, m, v, n) in
    let q' : record (c3.slot i) { refcnt = sub32 (c3.slot i).refcnt 1 }
        ≡ final a b i w.dirty w.block =
      ap (λ (x : Buf). record x { refcnt = sub32 x.refcnt 1 }) at ∙ q in
    z.slots ∙ fun_ext λ j. ground (arith, q', ap (λ f. f j) e, ap (λ f. f j) g.slots)

-- The three ends of a visit: no change, a new entry, and an entry that was there.
module _ (a : System) (b i : ℕ) {c1 : Cache} (o : Open a) (out : Outside a.log b)
    (g : Got a.cache b i c1) where
  kept_view :
      (d : Bool)
      → ((a.cache.slot i).dirty ≡ true → d ≡ true)
      → (a.cache.slot i).dirty ≡ true
      → (d ≡ true) × ((a.cache.slot i).blockno ≡ b)
  kept_view d h t = (h t, (g.kept t).0)

  of_block : ((a.cache.slot i).blockno ≡ b) ⊎ ((a.cache.slot i).dirty ≡ false)
  of_block = elim (Bool-cases (a.cache.slot i).dirty) [ inl t ↦ inl (g.kept t).0 | inr f ↦ inr f ]

module _ (a : System) (b i : ℕ) {c1 : Cache} (c4 : Cache) (o : Open a) (out : Outside a.log b)
    (g : Got a.cache b i c1) where
  pub left_Settled :
      SameSet a.cache.order c4.order
      → c4.slot ≡ update a.cache.slot i (final a b i g.buf.dirty g.buf.block)
      → c4.disk ≡ a.cache.disk
      → Settled a i (final a b i g.buf.dirty g.buf.block) (record a { cache = c4 })
  left_Settled same slots disk = record {
    same = same;
    slots = slots;
    disk = disk;
    here = g.here;
    valid = refl;
    pins = refl;
    only = λ j hj vj bj. g.only j hj vj bj;
    clean = λ d. g.clean (sym g.dirty ∙ d);
    kept = kept_view a b i o out g g.buf.dirty (λ t. g.dirty ∙ t);
    was = of_block a b i o out g;
    outside = out;
    outstanding = o.outstanding;
    start = refl;
    size = refl;
    fits = o.pending.fits;
    few = o.pending.few;
    entered = λ j h. inl (h, refl, refl);
  }

  pub changed_Settled :
      (d : Block) (l' : Log) (sie' : Bool)
      → SameSet a.cache.order c4.order
      → c4.slot ≡ update a.cache.slot i (final a b i true d)
      → c4.disk ≡ a.cache.disk
      → l'.outstanding ≡ true
      → l'.start ≡ a.log.start
      → l'.size ≡ a.log.size
      → l'.nblocks + 1 ≤ l'.size
      → l'.nblocks ≤ log_hdr_max
      → ((j : ℕ)
          → j < l'.nblocks
          → ((j < a.log.nblocks) × (l'.bufs j ≡ a.log.bufs j) × (l'.blocks j ≡ a.log.blocks j))
            ⊎ ((l'.bufs j ≡ some i) × (l'.blocks j ≡ b)))
      → Settled a i (final a b i true d) (record { log = l'; cache = c4; sie = sie' })
  changed_Settled d l' sie' same slots disk outstanding start size fits few entered = record {
    same = same;
    slots = slots;
    disk = disk;
    here = g.here;
    valid = refl;
    pins = refl;
    only = λ j hj vj bj. g.only j hj vj bj;
    clean = λ f. cc;
    kept = kept_view a b i o out g true (λ _. refl);
    was = of_block a b i o out g;
    outside = out;
    outstanding = outstanding;
    start = start;
    size = size;
    fits = fits;
    few = few;
    entered = λ j h. elim (entered j h) [ inl old ↦ inl old | inr (e, n) ↦ inr (e, n, refl) ];
  }

  -- The buffers that can be evicted: all but one at most stay so, and all when nothing is dirtied.
  pub evictable :
      (dirty : Bool) (d : Block)
      → SameSet a.cache.order c4.order
      → c4.slot ≡ update a.cache.slot i (final a b i dirty d)
      → count (is_victim a.cache) a.cache.order ≤ count (is_victim c4) c4.order + 1
  evictable dirty d same slots = rw (same.counts (is_victim c4)) (
      count_mono_but (is_victim a.cache) (is_victim c4) i a.cache.order o.ready.cached.nodup
        (λ j h ne f. ground (arith, ap (λ s. s j) slots)))

  pub evictable_left :
      (dirty : Bool) (d : Block)
      → dirty ≡ (a.cache.slot i).dirty
      → SameSet a.cache.order c4.order
      → c4.slot ≡ update a.cache.slot i (final a b i dirty d)
      → count (is_victim a.cache) a.cache.order ≤ count (is_victim c4) c4.order
  evictable_left dirty d e same slots = rw (same.counts (is_victim c4)) (
      count_mono (is_victim a.cache) (is_victim c4) a.cache.order
        (λ j h f. ground (arith, ap (λ s. s j) slots)))
