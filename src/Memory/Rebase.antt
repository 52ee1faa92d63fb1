-- ===== src/Memory/Rebase.antt =====
-- `pmem_rebase`: the free list moves to the kernel's high half.
use sbunix.Base.{
  ℕ, zero, suc, ◌%◌, ◌≤◌, ◌<◌, ◌≡◌, ◌≢◌, refl, sym, subst, ◌∙◌, ap, Option, some, List, [], ◌∷◌,
  map, All, length, arith, ◌==◌, if◌then◌else◌, add64, false,
}
use sbunix.Memory.{
  Memory, page_size, kern_base, phymem_end, kvmem_offset, virt_to_phys, load, store_next,
  rebase_from, pmem_rebase,
}
use sbunix.Memory.Free.{Chain, Chain-same, IsPage, Apart, Distinct, Free}

-- A page by its physical address, as during early boot.
pub record IsLow (q : ℕ) : Type 0 where
  pub aligned : q % page_size ≡ 0
  pub above : kern_base ≤ q
  pub below : q < phymem_end

abbrev pub moved : ℕ → ℕ
moved q = add64 q kvmem_offset

-- A link after the move; the null pointer stays.
abbrev link : ℕ → ℕ
link h = if h == 0 then 0 else moved h

moved-phys : {q : ℕ} → IsLow q → virt_to_phys (moved q) ≡ q
moved-phys l = ground arith

low-phys : {q : ℕ} → IsLow q → virt_to_phys q ≡ q
low-phys l = ground arith

moved-IsPage : {q : ℕ} → IsLow q → IsPage (moved q)
moved-IsPage l = ground arith

module _ (p : ℕ) (lp : IsLow p) where
  Apart-moved : (ps : List ℕ) → All IsLow ps → Apart p ps → Apart (moved p) (map moved ps)
  Apart-moved [] l a = tt
  Apart-moved (q ∷ ps) l a = (
    rw (moved-phys lp, moved-phys l.0) (rw (low-phys lp, low-phys l.0) at a.0),
    Apart-moved ps l.1 a.1,
  )

All-moved : (ps : List ℕ) → All IsLow ps → All IsPage (map moved ps)
All-moved [] l = tt
All-moved (q ∷ ps) l = (moved-IsPage l.0, All-moved ps l.1)

Distinct-moved : (ps : List ℕ) → All IsLow ps → Distinct ps → Distinct (map moved ps)
Distinct-moved [] l d = tt
Distinct-moved (q ∷ ps) l d = (Apart-moved q l.0 ps l.1 d.0, Distinct-moved ps l.1 d.1)

-- What the walk leaves: the moved chain, and all other words as they were.
record Rebased (m : Memory) (h : ℕ) (ps : List ℕ) (r : Option Memory) : Type 0 where
  after : Memory
  done : r ≡ some after
  chain : Chain after.word (link h) (map moved ps)
  others : (a : ℕ) → All (λ q. virt_to_phys q ≢ a) ps → after.word a ≡ m.word a
  head : after.freelist ≡ m.freelist

-- The link of one node is moved.
stepped : Memory → ℕ → Memory
stepped m q = if load m (moved q) == 0 then m else store_next m (moved q) (moved (load m (moved q)))

rebase_from-stepped :
    (fuel : ℕ) (m : Memory) (q : ℕ)
    → IsLow q
    → rebase_from (suc fuel) m (moved q) kvmem_offset
      ≡ rebase_from fuel (stepped m q) (load (stepped m q) (moved q)) kvmem_offset
unfolding rebase_from stepped
rebase_from-stepped fuel m q l = let e : (moved q == 0) ≡ false = ground arith in rw e

stepped_self : (m : Memory) (q : ℕ) → IsLow q → (stepped m q).word q ≡ link (m.word q)
unfolding stepped
stepped_self m q l = ground arith

stepped-other : (m : Memory) (q a : ℕ) → IsLow q → a ≢ q → (stepped m q).word a ≡ m.word a
unfolding stepped
stepped-other m q a l ne = ground arith

stepped-head : (m : Memory) (q : ℕ) → (stepped m q).freelist ≡ m.freelist
unfolding stepped
stepped-head m q = ground arith

-- The list's later nodes keep their links while the first is moved.
Chain-stepped :
    (m : Memory) (q : ℕ) (ps : List ℕ)
    → IsLow q
    → All IsLow ps
    → Apart q ps
    → Chain m.word (m.word q) ps
    → Chain (stepped m q).word (m.word q) ps
Chain-stepped m q ps lq l a c = Chain-same m.word (stepped m q).word (m.word q) ps (same ps l a) c
  where
    same :
        (ps : List ℕ)
        → All IsLow ps
        → Apart q ps
        → All (λ p. (stepped m q).word (virt_to_phys p) ≡ m.word (virt_to_phys p)) ps
    same [] l a = tt
    same (p ∷ ps) l a =
        (stepped-other m q (virt_to_phys p) lq (λ e. a.0 (e ∙ sym (low-phys lq))), same ps l.1 a.1)

rebase_from-Rebased :
    (ps : List ℕ) (fuel : ℕ) (m : Memory) (h : ℕ)
    → Chain m.word h ps
    → All IsLow ps
    → Distinct ps
    → length ps < fuel
    → Rebased m h ps (rebase_from fuel m (link h) kvmem_offset)
rebase_from-Rebased ps zero m h c l d lt = absurd (omega arith)
rebase_from-Rebased [] (suc fuel) m h c l d lt = rw c (
    unfold rebase_from in
    record { after = m; done = refl; chain = refl; others = λ a n. refl; head = refl })
rebase_from-Rebased (q ∷ ps) (suc fuel) m h c l d lt =
    let lq : IsLow q = l.0 in
    let m1 = stepped m q in
    let c1 : Chain m.word (m.word q) ps = rw (low-phys lq) at c.1 in
    let ih =
      rebase_from-Rebased ps fuel m1 (m.word q) (Chain-stepped m q ps lq l.1 d.0 c1) l.1 d.1
        (omega arith) in
    let e1 : link h ≡ moved q = ground (arith, c.0) in
    let e2 : load m1 (moved q) ≡ link (m.word q) =
      ap m1.word (moved-phys lq) ∙ stepped_self m q lq in
    let run =
      ap (λ (x : ℕ). rebase_from (suc fuel) m x kvmem_offset) e1
      ∙ rebase_from-stepped fuel m q lq
      ∙ ap (λ (x : ℕ). rebase_from fuel m1 x kvmem_offset) e2 in
    let at_q : ih.after.word (virt_to_phys (moved q)) ≡ link (m.word q) =
      ap ih.after.word (moved-phys lq) ∙ ih.others q (not_self ps d.0) ∙ stepped_self m q lq in
    record {
      after = ih.after;
      done = run ∙ ih.done;
      chain = (e1, subst (λ x. Chain ih.after.word x (map moved ps)) (sym at_q) ih.chain);
      others = λ a n. ih.others a n.1 ∙ stepped-other m q a lq (λ e. n.0 (low-phys lq ∙ sym e));
      head = ih.head ∙ stepped-head m q;
    }
  where
    not_self : (ps : List ℕ) → Apart q ps → All (λ p. virt_to_phys p ≢ q) ps
    not_self [] a = tt
    not_self (p ∷ ps) a = ((λ e. a.0 (e ∙ sym (low-phys l.0))), not_self ps a.1)

-- Started on a list of identity-mapped pages, `pmem_rebase` with the high half's offset ends, given
-- a round of the walk for each page and one more; then the list is that of the same pages at
-- their high addresses, in the same order, and no other word of memory has changed.
pub pmem_rebase_lem :
    (m : Memory) (ps : List ℕ) (fuel : ℕ)
    → Free m ps
    → All IsLow ps
    → length ps < fuel
    → (m' : Memory) × (pmem_rebase fuel m kvmem_offset ≡ some m')
      × Free m' (map moved ps)
      × ((a : ℕ) → All (λ q. virt_to_phys q ≢ a) ps → m'.word a ≡ m.word a)
unfolding pmem_rebase
pmem_rebase_lem m ps fuel f l lt =
    let m0 = record m { freelist = link m.freelist } in
    let r = rebase_from-Rebased ps fuel m0 m.freelist f.chain l f.distinct lt in
    (
      r.after,
      start m fuel ∙ r.done,
      record {
        chain = subst (λ x. Chain r.after.word x (map moved ps)) (sym r.head) r.chain;
        pages = All-moved ps l;
        distinct = Distinct-moved ps l f.distinct;
      },
      r.others,
    )
  where
    start :
        (m : Memory) (fuel : ℕ)
        → pmem_rebase fuel m kvmem_offset
          ≡ rebase_from fuel
              (record m { freelist = link m.freelist })
              (link m.freelist)
              kvmem_offset
    start m fuel = ground arith
