-- ===== src/Memory/Tests.antt =====
-- kernel/pmem.c and kernel/page_ref.c at concrete inputs.
use sbunix.Base.{
  ℕ, ◌+◌, ◌-◌, ◌/◌, ◌%◌, ◌≤◌, ◌<◌, ◌≡◌, ◌≢◌, refl, arith, true, false, ◌==◌, some, none, List, [],
  ◌∷◌, All, map, if◌then◌else◌,
}
use sbunix.Memory.{
  Memory, page_size, kern_base, phymem_end, kvmem_offset, virt_to_phys, page_alloc, page_get,
  page_put, pmem_init, pmem_rebase, page_round_up,
}
use sbunix.Memory.Free.{IsPage, Free}
use sbunix.Memory.Count.{Sound, page_alloc-Sound, page_put-last, page_put-free, page_get-page_put}
use sbunix.Memory.Boot.{pushed, pmem_init_lem}
use sbunix.Memory.Rebase.{moved, pmem_rebase_lem}

-- Two free pages; the page 0x80003000 has one reference and 0x80004000 has two.
abbrev two : Memory
two = record {
  freelist = 0x80001000;
  word = λ a. if a == 0x80001000 then 0x80002000 else 0;
  refs = λ i. if i == 3 then 1 else (if i == 4 then 2 else 0);
  refs_ready = true;
  offset = 0;
}

-- Before `pmem_init`.
abbrev blank : Memory
blank = record { freelist = 0; word = λ a. 0; refs = λ i. 0; refs_ready = false; offset = 0 }

abbrev pages : List ℕ
pages = 0x80001000 ∷ 0x80002000 ∷ []

page_at : (p : ℕ) → p % 4096 ≡ 0 → kern_base ≤ p → p < phymem_end → IsPage p
page_at p a h h' = record { aligned = a; above = ground arith; below = ground arith }

two-Free : Free two pages
two-Free = record {
  chain = (refl, (refl, refl));
  pages = (
    page_at 0x80001000 refl (omega arith) (omega arith),
    (page_at 0x80002000 refl (omega arith) (omega arith), tt),
  );
  distinct = ((omega arith, tt), (tt, tt));
}

two-Sound : Sound two pages
two-Sound = record { free = two-Free; ready = refl; unused = (refl, (refl, tt)) }

page_alloc-Sound_example :
    (m' : Memory) × (page_alloc two ≡ some (0x80001000, m'))
    × Sound m' (0x80002000 ∷ [])
    × (m'.refs 1 ≡ 1)
page_alloc-Sound_example = page_alloc-Sound two-Sound

page_put-last_example :
    (m' : Memory) × (page_put two 0x80003000 ≡ some m') × Sound m' (0x80003000 ∷ pages)
page_put-last_example =
    page_put-last 0x80003000 two-Sound
      (record { aligned = refl; above = omega arith; below = omega arith }) refl refl
      (omega arith, (omega arith, tt)) refl

page_put-free_example : page_put two 0x80002000 ≡ none
page_put-free_example = page_put-free (0x80001000 ∷ []) 0x80002000 [] two-Sound

page_get-page_put_example :
    (m' : Memory) × (page_get two 0x80004000 ≡ some m')
    × (m'.refs 4 ≡ 2 + 1)
    × (page_put m' 0x80004000 ≡ some two)
page_get-page_put_example =
    page_get-page_put two 0x80004000
      (record { aligned = refl; above = omega arith; below = omega arith }) (omega arith)
      (omega arith)

pmem_init_lem_example :
    (m' : Memory) × (pmem_init blank 0x80000800 0x80003000 ≡ some m')
    × Free m'
        (pushed ((0x80003000 - page_round_up 0x80000800) / page_size) (page_round_up 0x80000800) [])
unfolding page_round_up
pmem_init_lem_example =
    pmem_init_lem blank 0x80000800 0x80003000 refl refl (λ i. refl) (omega arith) (omega arith)
      (omega arith) (omega arith)

pmem_rebase_lem_example :
    (m' : Memory) × (pmem_rebase 3 two kvmem_offset ≡ some m')
    × Free m' (map moved pages)
    × ((a : ℕ) → All (λ q. virt_to_phys q ≢ a) pages → m'.word a ≡ two.word a)
pmem_rebase_lem_example =
    pmem_rebase_lem two pages 3 two-Free
      (
        record { aligned = refl; above = omega arith; below = omega arith },
        (record { aligned = refl; above = omega arith; below = omega arith }, tt),
      )
      (omega arith)
