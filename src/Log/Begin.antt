-- ===== src/Log/Begin.antt =====
-- `begin_op`, and a transaction that is ended at once.
use sbunix.Base.{
  ℕ, ◌<◌, ◌≡◌, ◌≢◌, refl, ap, ◌∙◌, inl, inr, Bool, true, false, ◌||◌, Option, none, some, arith,
  Bool-cases, ltb, if◌then◌else◌,
}
use sbunix.Log.{System, begin_op, end_op, log_hdr_max}
use sbunix.Log.Write.{Ready}
use sbunix.Log.Writes.{apply-Misses}
use sbunix.Log.Commit.{commit_writes}
use sbunix.Log.Transaction.{Open, entry_data, end_op-writes}

-- The transaction that `begin_op` opened is ended at once: the interrupt bit is as it was before,
-- and no block but that of the log's header has changed.
abbrev pub EndsQuietly : System → System → Type 0
EndsQuietly s s' =
    (t : System) × (end_op s' ≡ some t)
    × (t.log.outstanding ≡ false)
    × (t.sie ≡ s.sie)
    × ((b : ℕ) → b ≢ s.log.start → t.cache.disk b ≡ s.cache.disk b)

-- What `begin_op` may do in the system `s`: panic, or go to the system `s'`.
abbrev pub Begun : System → Option System → Type 0
Begun s none = s.log.outstanding ≡ true
Begun s (some s') =
    (s.log.outstanding ≡ false)
    × Open s'
    × ((i : ℕ) → i < log_hdr_max → s'.log.bufs i ≡ none)
    × (s'.log.nblocks ≡ 0)
    × ((s'.log.start ≡ s.log.start)
        × (s'.log.size ≡ s.log.size)
        × (s'.log.disk_size ≡ s.log.disk_size)
        × (s'.cache ≡ s.cache))
    × (s'.sie ≡ false)
    × (begin_op s' ≡ none)
    × EndsQuietly s s'

-- The system after `begin_op`.
abbrev started : System → System
started s = record {
  log = record s.log {
    saved_sie = s.sie;
    outstanding = true;
    nblocks = 0;
    bufs = λ i. if ltb i log_hdr_max then none else s.log.bufs i;
  };
  cache = s.cache;
  sie = false;
}

started-Open : (s : System) → 0 < s.log.size → Ready s.log s.cache → Open (started s)
started-Open s size r = record {
  outstanding = refl;
  ready = record {
    cached = r.cached;
    small = r.small;
    room = r.room;
    bounded = r.bounded;
    clean = r.clean;
  };
  pending = record { fits = size; few = omega arith; pinned = λ i h. absurd (none_below i h) };
}
  where
    none_below : (i : ℕ) → i < 0 → ⊥
    none_below i h = omega arith

or_false : (b : Bool) → (b || false) ≡ b
or_false b = ground arith

started-EndsQuietly : (s : System) → Open (started s) → EndsQuietly s (started s)
started-EndsQuietly s o =
    let (t, e, out, _, d, _, _, sie) = end_op-writes (started s) o in
    (
      t,
      e,
      out,
      sie ∙ or_false s.sie,
      λ b n.
          ap (λ f. f b) d
          ∙ apply-Misses b
              (commit_writes (started s).log (entry_data (started s).log s.cache)
                (s.cache.disk s.log.start))
              s.cache.disk (n, (n, tt)),
    )

-- With a log of one block or more, on a cache that the log can work with, `begin_op` panics exactly
-- inside a transaction. Otherwise it opens one, without pending blocks or buffers, with the
-- interrupts off and the cache and the log's place as they were; `begin_op` panics there, and
-- `end_op` there succeeds, closes the transaction, restores the interrupt bit and changes no block
-- but that of the log's header.
pub begin_op-Begun : (s : System) → 0 < s.log.size → Ready s.log s.cache → Begun s (begin_op s)
unfolding begin_op
begin_op-Begun s size r = elim (Bool-cases s.log.outstanding) [
  | inl t ↦ simp t refl
  | inr f ↦
      let o = started-Open s size r in
      simp f (
        refl,
        o,
        (λ i h. ground (arith, h)),
        refl,
        (refl, refl, refl, refl),
        refl,
        refl,
        started-EndsQuietly s o,
      )
]
