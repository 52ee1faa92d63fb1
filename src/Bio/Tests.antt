-- ===== src/Bio/Tests.antt =====
-- kernel/bio.c at concrete inputs.
use sbunix.Base.{ℕ, ◌≡◌, refl, arith, ◌==◌, some, [], ◌∷◌}
use sbunix.Bio.{Cache, binit, bread}
use sbunix.Bio.Cached.{IsCache}
use sbunix.Bio.Write.{IsSmall}
use sbunix.Bio.Read.{Got, bread-Got}
use sbunix.Bio.Boot.{Booted, binit-Booted}

-- Three buffers; the buffer 0 is a dirty copy of block 40.
abbrev three : Cache
three = record {
  order = 0 ∷ 1 ∷ 2 ∷ [];
  slot = λ i. record { valid = i == 0; dirty = i == 0; refcnt = 0; blockno = 40; block = λ j. 7 };
  disk = λ b j. 0;
  trace = [];
}

three-IsCache : IsCache three
three-IsCache = record {
  nodup = (refl, (refl, (refl, tt)));
  unique = λ i j hi hj vi vj e. ground arith;
  coherent = λ i h v d. ground arith;
}

three-IsSmall : IsSmall three
three-IsSmall = λ j. omega arith

bread-Got_example : (i : ℕ) × ((c' : Cache) × (bread three 41 ≡ some (i, c')) × Got three 41 i c')
bread-Got_example = bread-Got 41 three-IsCache (omega arith)

binit-Booted_example : Booted three (binit three)
binit-Booted_example = binit-Booted three three-IsSmall
