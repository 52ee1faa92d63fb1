-- ===== src/Memory.antt =====
-- kernel/pmem.c and kernel/page_ref.c: the free list of physical pages, and the reference counts.
-- Memory is 64-bit words by physical address, so that an address and its alias in the high half
-- name the same word. The first word of a free page is its `next`. `none` is a panic.
pub mod Free
pub mod Count
pub mod Boot
pub mod Rebase
mod Tests
use sbunix.Base.{
  ℕ, zero, suc, ◌+◌, ◌-◌, ◌*◌, ◌/◌, ◌%◌, ◌^◌, ◌||◌, ◌&&◌, Bool, true, false, not, Option, none,
  some, ◌==◌, ltb, leb, if◌then◌else◌, update, add64,
}

abbrev pub page_size : ℕ
page_size = 4096

abbrev pub kern_base : ℕ
kern_base = 0x80000000

abbrev pub phymem_end : ℕ
phymem_end = 0x88000000

abbrev pub kvmem_offset : ℕ
kvmem_offset = 0xFFFFFFFF00000000

-- `refs` is `page_refs` by page frame number, `offset` is `mem_offset`.
pub record Memory : Type 0 where
  pub freelist : ℕ
  pub word : ℕ → ℕ
  pub refs : ℕ → ℕ
  pub refs_ready : Bool
  pub offset : ℕ

abbrev pub virt_to_phys : ℕ → ℕ
virt_to_phys va = if ltb va kvmem_offset then va else va - kvmem_offset

abbrev pub phys_to_virt : Memory → ℕ → ℕ
phys_to_virt m pa = add64 pa m.offset

abbrev pub pa2pfn : ℕ → ℕ
pa2pfn pa = (pa - kern_base) / page_size

pub page_round_up : ℕ → ℕ
page_round_up addr = let a = add64 addr (page_size - 1) in a - a % page_size

-- `p->next` through the virtual address `p`.
abbrev pub load : Memory → ℕ → ℕ
load m p = m.word (virt_to_phys p)

abbrev pub store_next : Memory → ℕ → ℕ → Memory
store_next m p q = record m { word = update m.word (virt_to_phys p) q }

-- `memset(p, 0, PAGE_SIZE)`
abbrev pub zero_page : Memory → ℕ → Memory
zero_page m p = record m {
  word = λ a. if leb (virt_to_phys p) a && ltb a (virt_to_phys p + page_size) then 0 else m.word a;
}

-- The range checks of `page_alloc`, `page_free` and `check_page_pa`.
abbrev pub is_bad : ℕ → ℕ → Bool
is_bad addr pa = not (addr % page_size == 0) || ltb pa kern_base || leb phymem_end pa

pub page_ref_set : Memory → ℕ → ℕ → Memory
page_ref_set m pa v = record m { refs = update m.refs (pa2pfn pa) v }

pub page_ref_get : Memory → ℕ → ℕ
page_ref_get m pa = m.refs (pa2pfn pa)

pub page_ref_init : Memory → Memory
page_ref_init m = record m {
  refs = λ i. if ltb i ((phymem_end - kern_base) / page_size) then 0 else m.refs i;
  refs_ready = true;
}

-- The result is 0 (`NULL`) when the list is empty.
pub page_alloc : Memory → Option (ℕ × Memory)
unfolding page_ref_set
page_alloc m =
    let p = m.freelist in
    let m' = zero_page (record m { freelist = load m p }) p in
    if p == 0
    then some (0, m)
    else if is_bad p (virt_to_phys p)
    then none
    else some (p, if m.refs_ready then page_ref_set m' (virt_to_phys p) 1 else m')

pub page_free : Memory → ℕ → Option Memory
unfolding page_ref_set page_ref_get
page_free m page =
    let pa = virt_to_phys page in
    let m' = if m.refs_ready then page_ref_set m pa 0 else m in
    let ref = page_ref_get m pa in
    if is_bad page pa
    then none
    else if m.refs_ready && not (ref == 1) && not (ref == 0)
    then none
    else some (record (store_next m' page m'.freelist) { freelist = page })

pub page_get : Memory → ℕ → Option Memory
page_get m pa =
    if is_bad pa pa
    then none
    else if m.refs (pa2pfn pa) == 65535
    then none
    else some (record m { refs = update m.refs (pa2pfn pa) (m.refs (pa2pfn pa) + 1) })

pub page_put : Memory → ℕ → Option Memory
page_put m pa =
    let m' = record m { refs = update m.refs (pa2pfn pa) (m.refs (pa2pfn pa) - 1) } in
    if is_bad pa pa
    then none
    else if m.refs (pa2pfn pa) == 0
    then none
    else if m'.refs (pa2pfn pa) == 0
    then page_free m' (phys_to_virt m' pa)
    else some m'

-- The loop of `pmem_init`, with fuel; it frees the pages from `p` on.
pub init_from : ℕ → Memory → ℕ → ℕ → Option Memory
init_from zero m p end = none
init_from (suc fuel) m p end = elim (leb (p + page_size) end) [
  | false ↦ some m
  | true ↦ elim (page_free m p) [ none ↦ none | some m' ↦ init_from fuel m' (p + page_size) end ]
]

pub pmem_init : Memory → ℕ → ℕ → Option Memory
unfolding init_from page_round_up
pmem_init m start end = let p = page_round_up start in init_from ((end - p) / page_size + 1) m p end

-- The walk of `pmem_rebase` from the node `p`; `none` means that the fuel ran out.
pub rebase_from : ℕ → Memory → ℕ → ℕ → Option Memory
rebase_from zero m p off = none
rebase_from (suc fuel) m p off =
    let m' = if load m p == 0 then m else store_next m p (add64 (load m p) off) in
    let rest = rebase_from fuel m' (load m' p) off in if p == 0 then some m else rest

pub pmem_rebase : ℕ → Memory → ℕ → Option Memory
unfolding rebase_from
pmem_rebase fuel m off =
    let m' = if m.freelist == 0 then m else record m { freelist = add64 m.freelist off } in
    rebase_from fuel m' m'.freelist off

-- The walk of `pmem_free_count` from `p`, with `n` pages counted.
pub count_from : ℕ → Memory → ℕ → ℕ → Option ℕ
count_from zero m p n = none
count_from (suc fuel) m p n =
    let rest = count_from fuel m (load m p) (n + 1) in if p == 0 then some n else rest

pub pmem_free_count : ℕ → Memory → Option ℕ
unfolding count_from
pmem_free_count fuel m = count_from fuel m m.freelist 0
