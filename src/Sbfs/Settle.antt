-- ===== src/Sbfs/Settle.antt =====
-- One use of a block inside a transaction as a whole, and that the transaction stays open.
use sbunix.Base.{
  ℕ, ◌+◌, ◌≤◌, ◌<◌, ◌≡◌, ◌≢◌, sym, ap, ◌∙◌, ◌⊎◌, inl, inr, true, false, some, arith, ◌==◌, update,
  update_self, update_ne, eq_of_==, Bool-cases,
}
use sbunix.Base.Sets.{has, count, SameSet}
use sbunix.Bio.{Buf, is_victim}
use sbunix.Bio.Cached.{IsCache, IsCache-set}
use sbunix.Bio.View.{view, view-set}
use sbunix.Log.{Log, System, log_hdr_max}
use sbunix.Log.Write.{Outside}
use sbunix.Log.Commit.{Pinned}
use sbunix.Log.Transaction.{Open, entry_data}

-- The entry `j` of a later log is an old one, or belongs to the buffer `i` of block `b`.
abbrev Entered : Log → Log → ℕ → Buf → ℕ → Type 0
Entered l l' i s j =
    ((j < l.nblocks) × (l'.bufs j ≡ l.bufs j) × (l'.blocks j ≡ l.blocks j))
    ⊎ ((l'.bufs j ≡ some i) × (l'.blocks j ≡ s.blockno) × (s.dirty ≡ true))

-- A use of the buffer `i` as a whole: it ends as `s`, with the pins that it had.
pub record Settled (a : System) (i : ℕ) (s : Buf) (a' : System) : Type 0 where
  pub same : SameSet a.cache.order a'.cache.order
  pub slots : a'.cache.slot ≡ update a.cache.slot i s
  pub disk : a'.cache.disk ≡ a.cache.disk
  pub here : has i a.cache.order ≡ true
  pub valid : s.valid ≡ true
  pub pins : s.refcnt ≡ (a.cache.slot i).refcnt
  pub only :
      (j : ℕ)
      → has j a.cache.order ≡ true
      → (a.cache.slot j).valid ≡ true
      → (a.cache.slot j).blockno ≡ s.blockno
      → j ≡ i
  pub clean : s.dirty ≡ false → s.block ≡ a.cache.disk s.blockno
  pub kept :
      (a.cache.slot i).dirty ≡ true → (s.dirty ≡ true) × ((a.cache.slot i).blockno ≡ s.blockno)
  pub was : ((a.cache.slot i).blockno ≡ s.blockno) ⊎ ((a.cache.slot i).dirty ≡ false)
  pub outside : Outside a.log s.blockno
  pub outstanding : a'.log.outstanding ≡ true
  pub start : a'.log.start ≡ a.log.start
  pub size : a'.log.size ≡ a.log.size
  pub fits : a'.log.nblocks + 1 ≤ a'.log.size
  pub few : a'.log.nblocks ≤ log_hdr_max
  pub entered : (j : ℕ) → j < a'.log.nblocks → Entered a.log a'.log i s j

module _ {a a' : System} {i : ℕ} {s : Buf} (o : Open a) (t : Settled a i s a') where
  at_i : a'.cache.slot i ≡ s
  at_i = ap (λ f. f i) t.slots ∙ update_self a.cache.slot i s

  off_i : (j : ℕ) → j ≢ i → a'.cache.slot j ≡ a.cache.slot j
  off_i j ne = ap (λ f. f j) t.slots ∙ update_ne a.cache.slot i j s ne

  Settled-IsCache : IsCache a'.cache
  Settled-IsCache =
      IsCache-set a'.cache i s o.ready.cached t.same t.slots t.here t.only
        (λ b ne. ap (λ f. f b) t.disk) (λ d. t.clean d ∙ ap (λ f. f s.blockno) (sym t.disk)) t.valid

  pub Settled-view : view a'.cache ≡ update (view a.cache) s.blockno s.block
  Settled-view =
      view-set a'.cache i s o.ready.cached Settled-IsCache t.same t.slots t.disk t.here t.valid
        t.was

  Settled-Pinned :
      (j : ℕ) → j < a'.log.nblocks → Pinned a'.log a'.cache (entry_data a'.log a'.cache) j
  Settled-Pinned j h = elim (t.entered j h) [
    | inl (lt, eb, en) ↦
        let (m, em, hm, dm, bm, vm, xm) = o.pending.pinned j lt in
        elim (Bool-cases (m == i)) [
          | inl q ↦
              let p : m ≡ i = eq_of_== m i q in
              let d : (a.cache.slot i).dirty ≡ true =
                ap (λ k. (a.cache.slot k).dirty) (sym p) ∙ dm in
              let e : a'.cache.slot m ≡ s = ap a'.cache.slot p ∙ at_i in
              (
                m,
                eb ∙ em,
                t.same.members m ∙ hm,
                ap (λ (x : Buf). x.dirty) e ∙ (t.kept d).0,
                ap (λ (x : Buf). x.blockno) e
                    ∙ sym (t.kept d).1
                    ∙ ap (λ k. (a.cache.slot k).blockno) (sym p)
                    ∙ bm
                    ∙ sym en,
                ap (λ (x : Buf). x.valid) e ∙ t.valid,
                held m (eb ∙ em),
              )
          | inr q ↦
              let e : a'.cache.slot m ≡ a.cache.slot m = off_i m (ground arith) in
              (
                m,
                eb ∙ em,
                t.same.members m ∙ hm,
                ap (λ (x : Buf). x.dirty) e ∙ dm,
                ap (λ (x : Buf). x.blockno) e ∙ bm ∙ sym en,
                ap (λ (x : Buf). x.valid) e ∙ vm,
                held m (eb ∙ em),
              )
        ]
    | inr (eb, en, d) ↦ (
      i,
      eb,
      t.same.members i ∙ t.here,
      ap (λ (x : Buf). x.dirty) at_i ∙ d,
      ap (λ (x : Buf). x.blockno) at_i ∙ sym en,
      ap (λ (x : Buf). x.valid) at_i ∙ t.valid,
      held i eb,
    )
  ]
    where
      held :
          (m : ℕ) → a'.log.bufs j ≡ some m → (a'.cache.slot m).block ≡ entry_data a'.log a'.cache j
      held m e = ground (arith, e)

  pub Settled-Open : 2 ≤ count (is_victim a'.cache) a'.cache.order → Open a'
  Settled-Open room = record {
    outstanding = t.outstanding;
    ready = record {
      cached = Settled-IsCache;
      small = λ j. elim (Bool-cases (j == i)) [
        | inl q ↦ rw (ap a'.cache.slot (eq_of_== j i q) ∙ at_i, t.pins) (o.ready.small i)
        | inr q ↦ rw (off_i j (ground arith)) (o.ready.small j)
      ];
      room = room;
      bounded = omega (arith, o.ready.bounded, t.start, t.size);
      clean = λ j h d. elim (Bool-cases (j == i)) [
        | inl q ↦
            let e =
              ap (λ k. (a'.cache.slot k).blockno) (eq_of_== j i q)
              ∙ ap (λ (x : Buf). x.blockno) at_i in
            omega (arith, t.outside, e, t.start, t.size)
        | inr q ↦
            let e = off_i j (ground arith) in
            let u =
              o.ready.clean j (sym (t.same.members j) ∙ h)
                (sym (ap (λ (x : Buf). x.dirty) e) ∙ d) in
            let e' = ap (λ (x : Buf). x.blockno) e in omega (arith, u, e', t.start, t.size)
      ];
    };
    pending = record { fits = t.fits; few = t.few; pinned = Settled-Pinned };
  }
