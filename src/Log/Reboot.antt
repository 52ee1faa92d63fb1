-- ===== src/Log/Reboot.antt =====
-- The machine starts again after a crash during a commit: `binit`, `log_init`, `recover_from_log`.
use sbunix.Base.{
  ℕ, zero, suc, ◌+◌, ◌^◌, ◌≤◌, ◌<◌, ◌≡◌, refl, sym, ap, ◌∙◌, ◌⊎◌, inl, inr, true, false, some, List,
  ◌++◌, arith, update, Bool-cases, take, subst,
}
use sbunix.Bio.{Block, Cache, binit, is_victim}
use sbunix.Bio.Write.{IsSmall}
use sbunix.Bio.Boot.{binit-Booted}
use sbunix.Log.Transaction.{Open, entry_data, end_op-writes}
use sbunix.Log.{Log, System, end_op, log_init, is_oob, read_entries, recover_from_log, log_hdr_max}
use sbunix.Log.Write.{Ready}
use sbunix.Log.Writes.{Disk, apply, homes}
use sbunix.Log.Commit.{commit_writes}
use sbunix.Log.Header.{read_entries-Loaded, homes-congr}
use sbunix.Log.Recover.{parsed, recover_writes, recover_from_log-Wrotes}
use sbunix.Log.Crash.{recovered}
use sbunix.Log.Atomic.{Old, New, crash_atomic}

-- Two logs at the same place of the same disk.
record SamePlace (l l' : Log) : Type 0 where
  start : l'.start ≡ l.start
  size : l'.size ≡ l.size
  disk_size : l'.disk_size ≡ l.disk_size

is_oob-SamePlace : {l l' : Log} (b : ℕ) → SamePlace l l' → is_oob l' b ≡ is_oob l b
unfolding is_oob
is_oob-SamePlace b p = rw (p.start, p.size, p.disk_size) refl

read_entries-SamePlace :
    (n i : ℕ) (d : Block) (l l' : Log)
    → SamePlace l l'
    → (read_entries n i d l').1 ≡ (read_entries n i d l).1
unfolding read_entries
read_entries-SamePlace zero i d l l' p = refl
read_entries-SamePlace (suc n) i d l l' p =
    let ih =
      read_entries-SamePlace n (i + 1) d (record l { blocks = update l.blocks i (d (1 + i)) })
        (record l' { blocks = update l'.blocks i (d (1 + i)) })
        (record { start = p.start; size = p.size; disk_size = p.disk_size }) in
    elim (Bool-cases (is_oob l (d (1 + i)))) [
      | inl e ↦ rw (e, is_oob-SamePlace (d (1 + i)) p ∙ e) refl
      | inr e ↦ rw (e, is_oob-SamePlace (d (1 + i)) p ∙ e) ih
    ]

-- What recovery writes depends on the place of the log only.
recover_writes-SamePlace :
    (l l' : Log) (d : Disk) → SamePlace l l' → recover_writes l' d ≡ recover_writes l d
recover_writes-SamePlace l l' d p =
    ap (λ s. recover_writes (record l' { start = s }) d) p.start ∙ moved
  where
    h : Block
    h = d l.start

    m : Log
    m = record l' { start = l.start }

    place : SamePlace (record l { nblocks = h 0 }) (record m { nblocks = h 0 })
    place = record { start = refl; size = p.size; disk_size = p.disk_size }

    good : (parsed m h).1 ≡ (parsed l h).1
    good =
        read_entries-SamePlace (h 0) 0 h (record l { nblocks = h 0 }) (record m { nblocks = h 0 })
          place

    same :
        (parsed l h).1 ≡ true
        → homes (h 0) 0 (parsed m h).0 (λ j. d (l.start + 1 + j))
          ≡ homes (h 0) 0 (parsed l h).0 (λ j. d (l.start + 1 + j))
    same g =
        homes-congr (h 0) 0 (parsed l h).0 (parsed m h).0 (λ j. d (l.start + 1 + j))
          (λ j. d (l.start + 1 + j))
          (λ j q q'. (
            ((read_entries-Loaded (h 0) 0 h (record m { nblocks = h 0 })).entries (good ∙ g) j q
                  q').0
                ∙ sym
                    ((read_entries-Loaded (h 0) 0 h (record l { nblocks = h 0 })).entries g j q
                      q').0,
            refl,
          ))

    moved : recover_writes m d ≡ recover_writes l d
    moved = elim (Bool-cases (parsed l h).1) [
      | inr g ↦ rw (good ∙ g, g) refl
      | inl g ↦ rw (good ∙ g, g, same g) refl
    ]

-- A cache fresh from `binit` is one that the log can work with.
binit-Ready : (l : Log) (c : Cache) → l.start + l.size < 2 ^ 32 → IsSmall c → Ready l (binit c)
binit-Ready l c ends s =
    let b = binit-Booted c s in
    record {
      cached = b.cached;
      small = b.small;
      room = omega (arith, b.free);
      bounded = ends;
      clean = λ k h t. cc (sym t ∙ victim_clean (binit c) k (b.clean k h));
    }
  where
    victim_clean : (c' : Cache) (k : ℕ) → is_victim c' k ≡ true → (c'.slot k).dirty ≡ false
    victim_clean c' k h = ground arith

-- Let a commit run on a disk `d` with an empty log header, for a transaction that fits into the log
-- and whose blocks recovery accepts, on a log that ends below the block 2^32, and let the machine stop after any number `k` of its writes.
-- When it starts again, with any memory `mem` that has no huge reference counts and any old log
-- state `old`, then `binit`, `log_init` and `recover_from_log` do not panic and leave no pending
-- transaction. Outside the log every block of the disk is as before the commit, or every one is as
-- after all of its installs.
pub reboot_atomic :
    (l : Log) (w d : Disk) (k : ℕ) (old : Log) (mem : Cache)
    → l.nblocks ≤ log_hdr_max
    → log_hdr_max < l.size
    → l.start + l.size < 2 ^ 32
    → ((j : ℕ) → j < l.nblocks → is_oob l (l.blocks j) ≡ false)
    → d l.start 0 ≡ 0
    → mem.disk ≡ apply (take k (commit_writes l w (d l.start))) d
    → IsSmall mem
    → (l' : Log) × ((c' : Cache) × (recover_from_log
            (log_init old l.start l.size l.disk_size)
            (binit mem)
          ≡ some (l', c'))
        × (l'.nblocks ≡ 0)
        × (Old l d c'.disk ⊎ New l w d c'.disk))
unfolding log_init
reboot_atomic l w d k old mem few big ends fine empty crash small =
    let boot = binit-Booted mem small in
    let fresh = log_init old l.start l.size l.disk_size in
    let (l', found) = recover_from_log-Wrotes fresh (binit-Ready fresh mem ends small) big in
    let (c', e, z, v) = found in
    let same : c'.disk ≡ recovered l (apply (take k (commit_writes l w (d l.start))) d) =
      v.disk
      ∙ ap (λ x. recovered fresh x) (boot.disk ∙ crash)
      ∙ ap (λ ws. apply ws (apply (take k (commit_writes l w (d l.start))) d))
          (recover_writes-SamePlace l fresh (apply (take k (commit_writes l w (d l.start))) d)
            (record { start = refl; size = refl; disk_size = refl })) in
    (
      l',
      (
        c',
        e,
        z,
        subst (λ x. Old l d x ⊎ New l w d x) (sym same)
            (crash_atomic l w d few ends (omega (arith, few, big)) fine empty k),
      ),
    )

-- Let `s` be inside a transaction that recovery accepts, with an empty log header on the disk. Then
-- `end_op` does not panic, and makes some writes `ws`, which bring the disk to what the cache then
-- has. If the machine stops after any number `k` of them, then `binit`, `log_init` and
-- `recover_from_log` at the next start, from any memory `mem` without huge reference counts and any
-- old log state `old`, do not panic, leave no pending transaction, and leave outside the log
-- either every block as before `end_op`, or every one with the data of the transaction's buffers.
pub end_op-atomic :
    (s : System)
    → Open s
    → log_hdr_max < s.log.size
    → ((j : ℕ) → j < s.log.nblocks → is_oob s.log (s.log.blocks j) ≡ false)
    → s.cache.disk s.log.start 0 ≡ 0
    → (s' : System) × ((ws : List (ℕ × Block)) × (end_op s ≡ some s')
        × (s'.cache.trace ≡ s.cache.trace ++ ws)
        × (s'.cache.disk ≡ apply ws s.cache.disk)
        × ((k : ℕ) (old : Log) (mem : Cache)
            → mem.disk ≡ apply (take k ws) s.cache.disk
            → IsSmall mem
            → (l' : Log) × ((c' : Cache) × (recover_from_log
                    (log_init old s.log.start s.log.size s.log.disk_size)
                    (binit mem)
                  ≡ some (l', c'))
                × (l'.nblocks ≡ 0)
                × (Old s.log s.cache.disk c'.disk
                    ⊎ New s.log (entry_data s.log s.cache) s.cache.disk c'.disk))))
end_op-atomic s o big fine empty =
    let (s', e, _, _, d, t, _, _) = end_op-writes s o in
    (
      s',
      (
        commit_writes s.log (entry_data s.log s.cache) (s.cache.disk s.log.start),
        e,
        t,
        d,
        λ k old mem crash small.
            reboot_atomic s.log (entry_data s.log s.cache) s.cache.disk k old mem o.pending.few big
              o.ready.bounded fine empty crash small,
      ),
    )
