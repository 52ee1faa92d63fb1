-- ===== src/Malloc/Tests.antt =====
-- libc/malloc.c at concrete inputs.
use sbunix.Base.{ℕ, ◌*◌, false, none, [], ◌∷◌}
use sbunix.Malloc.{Chunk, best_from}
use sbunix.Malloc.Fit.{Best, best_from-Best}

abbrev chunks : ℕ → Chunk
chunks c = record { size = c * 16; used = false; direct = false }

best_from-Best_example : Best chunks (7 ∷ 3 ∷ 5 ∷ []) 64 (best_from chunks (7 ∷ 3 ∷ 5 ∷ []) 64 none)
best_from-Best_example = best_from-Best chunks (7 ∷ 3 ∷ 5 ∷ []) 64
