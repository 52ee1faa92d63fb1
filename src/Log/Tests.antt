-- ===== src/Log/Tests.antt =====
-- kernel/log.c at concrete inputs.
use sbunix.Base.{
  ℕ, ◌+◌, ◌≤◌, ◌<◌, ◌≡◌, refl, ◌⊎◌, inr, arith, true, false, ◌==◌, ltb, if◌then◌else◌, ◌||◌, none,
  some, List, [], ◌∷◌, ◌++◌, take,
}
use sbunix.Bio.{Block, Cache, binit}
use sbunix.Bio.Write.{IsSmall, Wrote}
use sbunix.Log.{
  Log, System, is_oob, begin_op, log_write, end_op, commit, recover_from_log, log_init, log_hdr_max,
  install_block,
}
use sbunix.Log.Write.{Ready, install_block-Wrote}
use sbunix.Log.Writes.{apply, Wrotes}
use sbunix.Log.Commit.{Pending, commit_writes, commit-Wrotes}
use sbunix.Log.Recover.{recover_writes, recover_from_log-Wrotes}
use sbunix.Log.Crash.{recovered}
use sbunix.Log.Atomic.{Old, New, crash_atomic}
use sbunix.Log.Begin.{Begun, begin_op-Begun}
use sbunix.Log.Transaction.{entry_data, Open, HasEntry, log_write-Open, end_op-writes}
use sbunix.Log.Reboot.{end_op-atomic}

-- Four buffers: 0 is a dirty copy of block 40, and 1 a pinned copy of block 41.
abbrev four : Cache
four = record {
  order = 0 ∷ 1 ∷ 2 ∷ 3 ∷ [];
  slot = λ i. record {
    valid = ltb i 2;
    dirty = i == 0;
    refcnt = if i == 1 then 1 else 0;
    blockno = 40 + i;
    block = λ j. if i == 0 then 7 else 0;
  };
  disk = λ b j. 0;
  trace = [];
}

-- The log in the blocks 2 to 17, with one entry, block 40.
abbrev small_log : Log
small_log = record {
  start = 2;
  size = 16;
  disk_size = 100;
  outstanding = true;
  nblocks = 1;
  blocks = λ i. 40;
  bufs = λ i. if i == 0 then some 0 else none;
  saved_sie = true;
}

abbrev inside : System
inside = record { log = small_log; cache = four; sie = false }

abbrev outside_log : Log
outside_log = record small_log { outstanding = false; nblocks = 0 }

four-Ready : Ready small_log four
four-Ready = record {
  cached = record {
    nodup = (refl, (refl, (refl, (refl, tt))));
    unique = λ i j hi hj vi vj e. omega (arith, e);
    coherent = λ i h v d. ground arith;
  };
  small = λ j. ground arith;
  room = omega arith;
  bounded = omega arith;
  clean = λ k h t. omega arith;
}

outside-Ready : Ready outside_log four
outside-Ready = record {
  cached = four-Ready.cached;
  small = four-Ready.small;
  room = four-Ready.room;
  bounded = omega arith;
  clean = four-Ready.clean;
}

four-Pending : Pending small_log four (entry_data small_log four)
four-Pending = record {
  fits = omega arith;
  few = omega arith;
  pinned = λ i h. (0, ground arith, refl, refl, refl, refl, ground arith);
}

inside-Open : Open inside
inside-Open = record { outstanding = refl; ready = four-Ready; pending = four-Pending }

fine : (j : ℕ) → j < 1 → is_oob small_log 40 ≡ false
unfolding is_oob
fine j h = refl

end_op-atomic_example :
    (s' : System) × ((ws : List (ℕ × Block)) × (end_op inside ≡ some s')
      × (s'.cache.trace ≡ [] ++ ws)
      × (s'.cache.disk ≡ apply ws four.disk)
      × ((k : ℕ) (old : Log) (mem : Cache)
          → mem.disk ≡ apply (take k ws) four.disk
          → IsSmall mem
          → (l' : Log) × ((c' : Cache) × (recover_from_log (log_init old 2 16 100) (binit mem)
                ≡ some (l', c'))
              × (l'.nblocks ≡ 0)
              × (Old small_log four.disk c'.disk
                  ⊎ New small_log (entry_data small_log four) four.disk c'.disk))))
end_op-atomic_example = end_op-atomic inside inside-Open (omega arith) fine refl

end_op-writes_example :
    (s' : System) × (end_op inside ≡ some s')
    × (s'.log.outstanding ≡ false)
    × (s'.log.nblocks ≡ 0)
    × (s'.cache.disk
        ≡ apply (commit_writes small_log (entry_data small_log four) (four.disk 2)) four.disk)
    × (s'.cache.trace ≡ [] ++ commit_writes small_log (entry_data small_log four) (four.disk 2))
    × ((j : ℕ) → j < log_hdr_max → s'.log.bufs j ≡ none)
    × (s'.sie ≡ (true || false))
end_op-writes_example = end_op-writes inside inside-Open

commit-Wrotes_example :
    (c' : Cache) × (commit small_log four ≡ some c')
    × Wrotes small_log four (commit_writes small_log (entry_data small_log four) (four.disk 2)) c'
commit-Wrotes_example = commit-Wrotes small_log (entry_data small_log four) four-Ready four-Pending

crash_atomic_example :
    Old small_log four.disk (
      recovered small_log
        (apply (take 2 (commit_writes small_log (λ i j. 7) (four.disk 2))) four.disk))
    ⊎ New small_log
        (λ i j. 7)
        four.disk
        (recovered small_log
          (apply (take 2 (commit_writes small_log (λ i j. 7) (four.disk 2))) four.disk))
crash_atomic_example =
    crash_atomic small_log (λ i j. 7) four.disk (omega arith) (omega arith) (omega arith) fine refl
      2

log_write-Open_example :
    (s' : System) × (log_write inside 1 ≡ some s')
    × Open s'
    × ((i : ℕ) × HasEntry s' 1 i)
    × (s'.log.nblocks ≤ 1 + 1)
    × (s'.cache.disk ≡ four.disk)
    × (s'.cache.trace ≡ [])
log_write-Open_example =
    log_write-Open inside 1 inside-Open
      (record { here = refl; valid = refl; pinned = omega arith; outside = inr (omega arith) })
      (omega arith) (omega arith)

recover_from_log-Wrotes_example :
    (l' : Log) × ((c' : Cache) × (recover_from_log small_log four ≡ some (l', c'))
      × (l'.nblocks ≡ 0)
      × Wrotes small_log four (recover_writes small_log four.disk) c')
recover_from_log-Wrotes_example = recover_from_log-Wrotes small_log four-Ready (omega arith)

abbrev idle : System
idle = record { log = outside_log; cache = four; sie = true }

begin_op-Begun_example : Begun idle (begin_op idle)
begin_op-Begun_example = begin_op-Begun idle (omega arith) outside-Ready

install_block-Wrote_example :
    (c' : Cache) × (install_block small_log 0 four ≡ some c') × Wrote four 40 (four.disk 3) c'
install_block-Wrote_example =
    install_block-Wrote small_log 0 four-Ready (omega arith, omega arith) (inr (omega arith))
