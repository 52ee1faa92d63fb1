-- ===== src/Memory/Boot.antt =====
-- Boot: `pmem_init` makes the free list, `pmem_rebase` moves it to the high half, and
-- `pmem_free_count` counts it.
use sbunix.Base.{
  ℕ, zero, suc, ◌+◌, ◌-◌, ◌*◌, ◌/◌, ◌%◌, ◌≤◌, ◌<◌, ◌≡◌, ap, ◌∙◌, true, false, some, List, [], ◌∷◌,
  All, length, arith, ◌==◌, leb,
}
use sbunix.Memory.{
  Memory, page_size, kern_base, phymem_end, virt_to_phys, pa2pfn, page_round_up, init_from,
  pmem_init, count_from, pmem_free_count,
}
use sbunix.Memory.Free.{Chain, IsPage, Apart, Free, page_free-cons}

-- `n` pages from `p` on, pushed one by one in front of `ps`.
abbrev pub pushed : ℕ → ℕ → List ℕ → List ℕ
pushed zero p ps = ps
pushed (suc n) p ps = pushed n (p + page_size) (p ∷ ps)

pub length-pushed : (n p : ℕ) (ps : List ℕ) → length (pushed n p ps) ≡ n + length ps
length-pushed zero p ps = omega arith
length-pushed (suc n) p ps = omega (arith, length-pushed n (p + page_size) (p ∷ ps))

-- Identity-mapped pages below `p`.
abbrev Below : ℕ → List ℕ → Type 0
Below p ps = All (λ q. q < p) ps

Below-mono : (p r : ℕ) (ps : List ℕ) → p ≤ r → Below p ps → Below r ps
Below-mono p r [] le b = tt
Below-mono p r (q ∷ ps) le b = (omega arith, Below-mono p r ps le b.1)

Below-Apart : (p : ℕ) (ps : List ℕ) → p < phymem_end → Below p ps → Apart p ps
Below-Apart p [] h b = tt
Below-Apart p (q ∷ ps) h b = (ground arith, Below-Apart p ps h b.1)

init_from_lem :
    (n fuel : ℕ) {m : Memory} (p end : ℕ) (ps : List ℕ)
    → n < fuel
    → p % page_size ≡ 0
    → kern_base ≤ p
    → p + n * page_size ≤ end
    → end < p + n * page_size + page_size
    → end ≤ phymem_end
    → Free m ps
    → Below p ps
    → m.refs_ready ≡ false
    → ((i : ℕ) → m.refs i ≡ 0)
    → (m' : Memory) × (init_from fuel m p end ≡ some m') × Free m' (pushed n p ps)
unfolding init_from
init_from_lem n zero p end ps lt a k lo hi top f b r z = absurd (omega arith)
init_from_lem zero (suc fuel) {m} p end ps lt a k lo hi top f b r z =
    let e : leb (p + page_size) end ≡ false = ground arith in (m, rw (e, init_from), f)
init_from_lem (suc n) (suc fuel) {m} p end ps lt a k lo hi top f b r z =
    let e : leb (p + page_size) end ≡ true = ground arith in
    let page : IsPage p = ground arith in
    let low : m.refs (pa2pfn (virt_to_phys p)) ≤ 1 = omega (arith, z (pa2pfn (virt_to_phys p))) in
    let (m', e', f', _, keep, ready, _) =
      page_free-cons p f page (Below-Apart p ps (omega arith) b) low in
    let later =
      init_from_lem n fuel (p + page_size) end (p ∷ ps) (omega arith) (omega arith) (omega arith)
        (omega arith) (omega arith) top f'
        (omega arith, Below-mono p (p + page_size) ps (omega arith) b) (ready ∙ r)
        (λ i. rw (keep r) (z i)) in
    (later.0, rw (e, e', init_from) later.1, later.2)

-- At boot, with the counts not yet in use, `pmem_init` frees exactly the whole pages of
-- `[start, end)`, rounded up at the start, and they are free pages in descending order.
pub pmem_init_lem :
    (m : Memory) (start end : ℕ)
    → m.freelist ≡ 0
    → m.refs_ready ≡ false
    → ((i : ℕ) → m.refs i ≡ 0)
    → kern_base ≤ start
    → start ≤ end
    → page_round_up start ≤ end
    → end ≤ phymem_end
    → (m' : Memory) × (pmem_init m start end ≡ some m')
      × Free m' (pushed ((end - page_round_up start) / page_size) (page_round_up start) [])
unfolding pmem_init
pmem_init_lem m start end e r z lo le0 le top =
    init_from_lem n (n + 1) p end [] (omega arith) aligned (omega arith) (omega arith) (omega arith)
      top (record { chain = e; pages = tt; distinct = tt }) tt r z
  where
    p : ℕ
    p = page_round_up start

    n : ℕ
    n = (end - p) / page_size

    aligned : p % page_size ≡ 0
    aligned = omega arith

-- `pmem_free_count` counts the pages of the list, given a round of the walk for each and one more.
pub pmem_free_count_lem :
    {m : Memory} (ps : List ℕ) (fuel : ℕ)
    → Free m ps
    → length ps < fuel
    → pmem_free_count fuel m ≡ some (length ps)
unfolding pmem_free_count count_from
pmem_free_count_lem {m} ps fuel f lt =
    go ps fuel m.freelist 0 f.chain f.pages lt ∙ ap some (omega arith)
  where
    go :
        (ps : List ℕ) (fuel h n : ℕ)
        → Chain m.word h ps
        → All IsPage ps
        → length ps < fuel
        → count_from fuel m h n ≡ some (n + length ps)
    go ps zero h n c pp lt = absurd (omega arith)
    go [] (suc fuel) h n c pp lt = rw (c, count_from) (ap some (omega arith))
    go (p ∷ ps) (suc fuel) h n c pp lt =
        let ne : (p == 0) ≡ false = ground (arith, pp.0) in
        rw (c.0, ne, count_from)
          (go ps fuel (m.word (virt_to_phys p)) (n + 1) c.1 pp.1 (omega arith)
            ∙ ap some (omega arith))
