-- ===== src/Log/Transaction.antt =====
-- A transaction from `begin_op` over `log_write` to `end_op`.
use sbunix.Base.{
  ℕ, zero, suc, ◌+◌, ◌≤◌, ◌<◌, ◌≡◌, ◌≢◌, refl, sym, ap, ◌∙◌, ◌⊎◌, inl, inr, true, false, ◌||◌, ◌==◌,
  Option, none, some, ◌++◌, arith, update, Bool-cases, subst, leb,
}
use sbunix.Base.Sets.{has, count-congr, SameSet-refl}
use sbunix.Bio.{Cache, set_slot, is_victim}
use sbunix.Bio.Cached.{IsCache-set}
use sbunix.Log.{Log, System, log_write, end_op, find_entry, log_hdr_max, clear_bufs}
use sbunix.Log.Write.{Outside, Ready}
use sbunix.Log.Writes.{Disk, apply}
use sbunix.Log.Commit.{Pinned, Pending, commit_writes, commit-Wrotes}

-- The data of the entries, as their buffers hold it.
abbrev pub entry_data : Log → Cache → Disk
entry_data l c i = elim (l.bufs i) [ some k ↦ (c.slot k).block | none ↦ λ j. 0 ]

-- A system inside a transaction.
pub record Open (s : System) : Type 0 where
  pub outstanding : s.log.outstanding ≡ true
  pub ready : Ready s.log s.cache
  pub pending : Pending s.log s.cache (entry_data s.log s.cache)

-- The search for an entry with block number `b`.
abbrev pub Entry : ℕ → ℕ → Log → ℕ → Option ℕ → Type 0
Entry n i l b none = (j : ℕ) → i ≤ j → j < i + n → l.blocks j ≢ b
Entry n i l b (some j) = (i ≤ j) × (j < i + n) × (l.blocks j ≡ b)

pub find_entry-Entry : (n i : ℕ) (l : Log) (b : ℕ) → Entry n i l b (find_entry n i l b)
unfolding find_entry
find_entry-Entry zero i l b = λ j h h'. absurd (omega arith)
find_entry-Entry (suc n) i l b = elim (Bool-cases (l.blocks i == b)) [
  | inl e ↦ simp e (omega arith, omega arith, ground arith)
  | inr e ↦ simp e (more (find_entry n (i + 1) l b) (find_entry-Entry n (i + 1) l b) e)
]
  where
    more :
        (r : Option ℕ) → Entry n (i + 1) l b r → (l.blocks i == b) ≡ false → Entry (suc n) i l b r
    more none h e = λ j q q'.
        let split : (j ≡ i) ⊎ (i + 1 ≤ j) = omega arith in
        elim split [ inl r ↦ λ u. ground (arith, ap l.blocks r) | inr r ↦ h j r (omega arith) ]
    more (some j) h e = (omega (arith, h), omega (arith, h), h.2)

-- What a caller of `log_write` has: a buffer that it got by `bread` of a block outside the log.
pub record Held (l : Log) (c : Cache) (k : ℕ) : Type 0 where
  pub here : has k c.order ≡ true
  pub valid : (c.slot k).valid ≡ true
  pub pinned : 0 < (c.slot k).refcnt
  pub outside : Outside l ((c.slot k).blockno)

-- Marking a held buffer dirty.
abbrev dirtied : Cache → ℕ → Cache
dirtied c k = set_slot c k (record (c.slot k) { dirty = true })

dirtied-Ready : (l : Log) (c : Cache) (k : ℕ) → Ready l c → Held l c k → Ready l (dirtied c k)
dirtied-Ready l c k r h = record {
  cached =
      IsCache-set (dirtied c k) k (record (c.slot k) { dirty = true }) r.cached
        (SameSet-refl r.cached.nodup) refl h.here
        (λ j hj vj bj. r.cached.unique j k hj h.here vj h.valid bj) (λ b ne. refl) (λ q. cc)
        h.valid;
  small = λ j. ground (arith, r.small j);
  room =
      rw
        (count-congr (is_victim (dirtied c k)) (is_victim c) c.order
          (λ j hj. ground (arith, h.pinned)))
        r.room;
  bounded = r.bounded;
  clean = λ j hj t. ground (arith, r.clean j hj, h.outside);
}

-- The transaction after `log_write` of a block that it does not have, and of one that it has.
abbrev pub added : System → ℕ → System
added s k = record s {
  log = record s.log {
    nblocks = s.log.nblocks + 1;
    blocks = update s.log.blocks s.log.nblocks ((s.cache.slot k).blockno);
    bufs = update s.log.bufs s.log.nblocks (some k);
  };
  cache = dirtied s.cache k;
}

abbrev pub renewed : System → ℕ → ℕ → System
renewed s k i = record s { log = record s.log { bufs = update s.log.bufs i (some k) } }

-- The entry `i` has the buffer `k`.
abbrev pub HasEntry : System → ℕ → ℕ → Type 0
HasEntry s k i =
    (i < s.log.nblocks) × (s.log.bufs i ≡ some k) × (s.log.blocks i ≡ (s.cache.slot k).blockno)

added-Pending :
    (s : System) (k : ℕ)
    → Open s
    → Held s.log s.cache k
    → s.log.nblocks < log_hdr_max
    → s.log.nblocks + 2 ≤ s.log.size
    → Open (added s k)
added-Pending s k o h few fits = record {
  outstanding = o.outstanding;
  ready =
      let r = dirtied-Ready s.log s.cache k o.ready h in
      record {
        cached = r.cached;
        small = r.small;
        room = r.room;
        bounded = r.bounded;
        clean = r.clean;
      };
  pending = record {
    fits = omega (arith, fits);
    few = omega (arith, few);
    pinned = λ i q.
        let split : (i ≡ s.log.nblocks) ⊎ (i < s.log.nblocks) = omega (arith, q) in
        elim split [ inl e ↦ new i e | inr lt ↦ old i lt (o.pending.pinned i lt) ];
  };
}
  where
    s' : System
    s' = added s k

    At : ℕ → Type 0
    At i = Pinned s'.log s'.cache (entry_data s'.log s'.cache) i

    new : (i : ℕ) → i ≡ s.log.nblocks → At i
    new i e =
        (k, ground arith, h.here, ground arith, ground arith, ground (arith, h.valid), ground arith)

    old : (i : ℕ) → i < s.log.nblocks → Pinned s.log s.cache (entry_data s.log s.cache) i → At i
    old i lt (m, e, hm, t, b, v, x) =
        (m, ground arith, hm, ground arith, ground arith, ground arith, ground arith)

renewed-Open :
    (s : System) (k i : ℕ)
    → Open s
    → Held s.log s.cache k
    → i < s.log.nblocks
    → s.log.blocks i ≡ (s.cache.slot k).blockno
    → Open (renewed s k i)
renewed-Open s k i o h lt eb = record {
  outstanding = o.outstanding;
  ready =
      let r = o.ready in
      record {
        cached = r.cached;
        small = r.small;
        room = r.room;
        bounded = r.bounded;
        clean = r.clean;
      };
  pending = record {
    fits = o.pending.fits;
    few = o.pending.few;
    pinned = λ j q. elim (Bool-cases (j == i)) [
      | inl e ↦ new j (ground (arith, e)) (o.pending.pinned i lt)
      | inr e ↦ old j e (o.pending.pinned j q)
    ];
  };
}
  where
    At : ℕ → Type 0
    At j = Pinned (renewed s k i).log s.cache (entry_data (renewed s k i).log s.cache) j

    new : (j : ℕ) → j ≡ i → Pinned s.log s.cache (entry_data s.log s.cache) i → At j
    new j e (m, em, hm, t, b, v, x) =
        let same : m ≡ k = o.ready.cached.unique m k hm h.here v h.valid (b ∙ eb) in
        let dk : (s.cache.slot k).dirty ≡ true =
          subst (λ y. (s.cache.slot y).dirty ≡ true) same t in
        (k, ground arith, h.here, dk, sym eb ∙ ap s.log.blocks (sym e), h.valid, ground arith)

    old : (j : ℕ) → (j == i) ≡ false → Pinned s.log s.cache (entry_data s.log s.cache) j → At j
    old j ne (m, em, hm, t, b, v, x) = (m, ground arith, hm, t, b, v, ground arith)

-- `log_write` finds no entry of the block, or one that it renews.
pub log_write-added :
    (a : System) (k : ℕ)
    → a.log.outstanding ≡ true
    → a.log.nblocks < log_hdr_max
    → find_entry a.log.nblocks 0 a.log ((a.cache.slot k).blockno) ≡ none
    → log_write a k ≡ some (added a k)
unfolding log_write
log_write-added a k out few e =
    let q : leb log_hdr_max a.log.nblocks ≡ false = ground arith in simp (e, out, q) refl

pub log_write-renewed :
    (a : System) (k j : ℕ)
    → a.log.outstanding ≡ true
    → a.log.nblocks < log_hdr_max
    → find_entry a.log.nblocks 0 a.log ((a.cache.slot k).blockno) ≡ some j
    → log_write a k ≡ some (renewed a k j)
unfolding log_write
log_write-renewed a k j out few e =
    let q : leb log_hdr_max a.log.nblocks ≡ false = ground arith in simp (e, out, q) refl

-- Inside a transaction with room for a block more, in the entries and in the log, `log_write` of a
-- valid pinned buffer of a block outside the log does not panic, keeps the
-- transaction fit for a commit, and gives the buffer an entry under its block number. It adds one
-- entry at most, and no disk write is made.
pub log_write-Open :
    (s : System) (k : ℕ)
    → Open s
    → Held s.log s.cache k
    → s.log.nblocks < log_hdr_max
    → s.log.nblocks + 2 ≤ s.log.size
    → (s' : System) × (log_write s k ≡ some s')
      × Open s'
      × ((i : ℕ) × HasEntry s' k i)
      × (s'.log.nblocks ≤ s.log.nblocks + 1)
      × (s'.cache.disk ≡ s.cache.disk)
      × (s'.cache.trace ≡ s.cache.trace)
unfolding log_write
log_write-Open s k o h few fits =
    go (find_entry s.log.nblocks 0 s.log ((s.cache.slot k).blockno)) refl
      (find_entry-Entry s.log.nblocks 0 s.log ((s.cache.slot k).blockno))
  where
    Goal : Type 0
    Goal =
        (s' : System) × (log_write s k ≡ some s')
        × Open s'
        × ((i : ℕ) × HasEntry s' k i)
        × (s'.log.nblocks ≤ s.log.nblocks + 1)
        × (s'.cache.disk ≡ s.cache.disk)
        × (s'.cache.trace ≡ s.cache.trace)

    room : leb log_hdr_max s.log.nblocks ≡ false
    room = ground arith

    go :
        (r : Option ℕ)
        → find_entry s.log.nblocks 0 s.log ((s.cache.slot k).blockno) ≡ r
        → Entry s.log.nblocks 0 s.log ((s.cache.slot k).blockno) r
        → Goal
    go none e miss = (
      added s k,
      simp (e, o.outstanding, room) refl,
      added-Pending s k o h few fits,
      (s.log.nblocks, (omega arith, ground arith, ground arith)),
      omega arith,
      refl,
      refl,
    )
    go (some i) e (_, lt, eb) = (
      renewed s k i,
      simp (e, o.outstanding, room) refl,
      renewed-Open s k i o h (omega (arith, lt)) eb,
      (i, (omega (arith, lt), ground arith, eb)),
      omega arith,
      refl,
      refl,
    )

-- The last step does not write.
clear_bufs_lem :
    (n : ℕ) (l : Log) (c : Cache)
    → ((clear_bufs n l c).0.nblocks ≡ l.nblocks)
      × ((clear_bufs n l c).1.disk ≡ c.disk)
      × ((clear_bufs n l c).1.trace ≡ c.trace)
      × ((j : ℕ) → j < n → (clear_bufs n l c).0.bufs j ≡ none)
unfolding clear_bufs
clear_bufs_lem zero l c = (refl, refl, refl, λ j h. absurd (omega arith))
clear_bufs_lem (suc n) l c =
    let ih = clear_bufs_lem n l c in
    (
      ground (arith, ih.0),
      ground (arith, ih.1),
      ground (arith, ih.2),
      λ j h. ground (arith, ih.3 j),
    )

-- The system after `end_op`, with the cache `c` after the commit.
abbrev ended : System → Cache → System
ended s c =
    let (l, c') = clear_bufs log_hdr_max (record s.log { nblocks = 0 }) c in
    record { log = record l { outstanding = false }; cache = c'; sie = s.log.saved_sie || s.sie }

-- Inside a transaction `end_op` does not panic, writes exactly the blocks of the commit, in its
-- order, leaves no transaction and no pending buffer, and restores the interrupt bit.
pub end_op-writes :
    (s : System)
    → Open s
    → (s' : System) × (end_op s ≡ some s')
      × (s'.log.outstanding ≡ false)
      × (s'.log.nblocks ≡ 0)
      × (s'.cache.disk
          ≡ apply
              (commit_writes s.log (entry_data s.log s.cache) (s.cache.disk s.log.start))
              s.cache.disk)
      × (s'.cache.trace
          ≡ s.cache.trace
            ++ commit_writes s.log (entry_data s.log s.cache) (s.cache.disk s.log.start))
      × ((j : ℕ) → j < log_hdr_max → s'.log.bufs j ≡ none)
      × (s'.sie ≡ (s.log.saved_sie || s.sie))
unfolding end_op
end_op-writes s o =
    let (c, e, v) = commit-Wrotes s.log (entry_data s.log s.cache) o.ready o.pending in
    let (n0, d, t, b) = clear_bufs_lem log_hdr_max (record s.log { nblocks = 0 }) c in
    (ended s c, simp (o.outstanding, e) refl, refl, n0, d ∙ v.disk, t ∙ v.trace, b, refl)
