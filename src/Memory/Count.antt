-- ===== src/Memory/Count.antt =====
-- The reference counts together with the free list: a free page has count 0, and a page with a
-- reference is never on the list.
use sbunix.Base.{
  ℕ, ◌+◌, ◌-◌, ◌%◌, ◌≤◌, ◌<◌, ◌≡◌, ◌≢◌, sym, subst, ◌∙◌, ap, fun_ext, true, none, some, List, [],
  ◌∷◌, ◌++◌, All, arith, update, update_self, update_ne,
}
use sbunix.Memory.{
  Memory, page_size, kern_base, phymem_end, virt_to_phys, phys_to_virt, pa2pfn, page_alloc,
  page_free, page_get, page_put,
}
use sbunix.Memory.Free.{IsPage, Free, page_alloc-cons, page_free-cons}

-- The physical address of a page of RAM.
pub record IsFrame (pa : ℕ) : Type 0 where
  pub aligned : pa % page_size ≡ 0
  pub above : kern_base ≤ pa
  pub below : pa < phymem_end

pub record Sound (m : Memory) (ps : List ℕ) : Type 0 where
  pub free : Free m ps
  pub ready : m.refs_ready ≡ true
  pub unused : All (λ p. m.refs (pa2pfn (virt_to_phys p)) ≡ 0) ps

-- Two pages with one frame number are one page.
pfn_ne : (p q : ℕ) → IsFrame p → IsFrame q → q ≢ p → pa2pfn q ≢ pa2pfn p
pfn_ne p q a b ne = omega arith

IsPage-IsFrame : {p : ℕ} → IsPage p → IsFrame (virt_to_phys p)
IsPage-IsFrame h = ground arith

-- A new count of one page keeps those of the others.
unused-update :
    (m : Memory) (pa v : ℕ) (ps : List ℕ)
    → IsFrame pa
    → All IsPage ps
    → All (λ q. virt_to_phys q ≢ pa) ps
    → All (λ q. m.refs (pa2pfn (virt_to_phys q)) ≡ 0) ps
    → All (λ q. update m.refs (pa2pfn pa) v (pa2pfn (virt_to_phys q)) ≡ 0) ps
unused-update m pa v [] h pages apart z = tt
unused-update m pa v (q ∷ ps) h pages apart z = (
  rw
      (update_ne m.refs (pa2pfn pa) (pa2pfn (virt_to_phys q)) v
        (pfn_ne pa (virt_to_phys q) h (IsPage-IsFrame pages.0) apart.0))
      z.0,
  unused-update m pa v ps h pages.1 apart.1 z.1,
)

-- Allocation keeps the free list and the counts sound, and the page starts with one reference.
pub page_alloc-Sound :
    {m : Memory} {p : ℕ} {ps : List ℕ}
    → Sound m (p ∷ ps)
    → (m' : Memory) × (page_alloc m ≡ some (p, m'))
      × Sound m' ps
      × (m'.refs (pa2pfn (virt_to_phys p)) ≡ 1)
page_alloc-Sound {m} {p} {ps} s =
    let (m', e, f, _, _, refs, ready) = page_alloc-cons s.free in
    let pp = s.free.pages.0 in
    let r = refs s.ready in
    (
      m',
      e,
      record {
        free = f;
        ready = ready ∙ s.ready;
        unused = rw r (
            unused-update m (virt_to_phys p) 1 ps (IsPage-IsFrame pp) s.free.pages.1
              s.free.distinct.0 s.unused.1);
      },
      rw r (update_self m.refs (pa2pfn (virt_to_phys p)) 1),
    )

-- The counts as `page_put` lowers them.
abbrev pub lowered : Memory → ℕ → Memory
lowered m pa = record m { refs = update m.refs (pa2pfn pa) (m.refs (pa2pfn pa) - 1) }

unused-freed :
    {pa : ℕ} (m : Memory) (f : ℕ → ℕ) (va : ℕ) (ps : List ℕ)
    → virt_to_phys va ≡ pa
    → IsFrame pa
    → All IsPage ps
    → All (λ q. virt_to_phys q ≢ pa) ps
    → All (λ q. m.refs (pa2pfn (virt_to_phys q)) ≡ 0) ps
    → f ≡ update m.refs (pa2pfn (virt_to_phys va)) 0
    → All (λ q. f (pa2pfn (virt_to_phys q)) ≡ 0) (va ∷ ps)
unused-freed {pa} m f va ps alias h pages apart z e =
    subst (λ (g : ℕ → ℕ). All (λ q. g (pa2pfn (virt_to_phys q)) ≡ 0) (va ∷ ps)) (sym e)
      (
        update_self m.refs (pa2pfn (virt_to_phys va)) 0,
        subst (λ (x : ℕ). All (λ q. update m.refs (pa2pfn x) 0 (pa2pfn (virt_to_phys q)) ≡ 0) ps)
            (sym alias) (unused-update m pa 0 ps h pages apart z),
      )

page_put_one :
    (m : Memory) (pa : ℕ)
    → IsFrame pa
    → m.refs (pa2pfn pa) ≡ 1
    → page_put m pa ≡ page_free (lowered m pa) (phys_to_virt m pa)
unfolding page_put
page_put_one m pa h one = ground arith

-- The last `page_put` of a page puts it on the free list; the list and the counts stay sound. The
-- page is reached at its kernel address, which is an alias of the frame.
pub page_put-last :
    {m : Memory} (pa : ℕ) {ps : List ℕ}
    → Sound m ps
    → IsFrame pa
    → virt_to_phys (phys_to_virt m pa) ≡ pa
    → phys_to_virt m pa % page_size ≡ 0
    → All (λ q. virt_to_phys q ≢ pa) ps
    → m.refs (pa2pfn pa) ≡ 1
    → (m' : Memory) × (page_put m pa ≡ some m') × Sound m' (phys_to_virt m pa ∷ ps)
page_put-last {m} pa {ps} s h alias aligned apart one =
    let m1 = lowered m pa in
    let va = phys_to_virt m pa in
    let free1 : Free m1 ps = record {
      chain = s.free.chain;
      pages = s.free.pages;
      distinct = s.free.distinct;
    } in
    let page : IsPage va = record {
      aligned = aligned;
      above = rw alias h.above;
      below = rw alias h.below;
    } in
    let low : m1.refs (pa2pfn (virt_to_phys va)) ≤ 1 = rw alias (ground arith) in
    let (m', e, f, refs, _, ready, _) = page_free-cons va free1 page (rw alias apart) low in
    let z = unused-update m pa (m.refs (pa2pfn pa) - 1) ps h s.free.pages apart s.unused in
    let r = refs s.ready in
    (
      m',
      page_put_one m pa h one ∙ e,
      record {
        free = f;
        ready = ready ∙ s.ready;
        unused = unused-freed m1 (m'.refs) va ps alias h s.free.pages apart z r;
      },
    )

unused-mid :
    (m : Memory) (qs : List ℕ) (p : ℕ) (rs : List ℕ)
    → All (λ q. m.refs (pa2pfn (virt_to_phys q)) ≡ 0) (qs ++ p ∷ rs)
    → m.refs (pa2pfn (virt_to_phys p)) ≡ 0
unused-mid m [] p rs z = z.0
unused-mid m (q ∷ qs) p rs z = unused-mid m qs p rs z.1

-- A page on the free list cannot be put once more: `page_put` of it panics.
pub page_put-free :
    {m : Memory} (qs : List ℕ) (p : ℕ) (rs : List ℕ)
    → Sound m (qs ++ p ∷ rs)
    → page_put m (virt_to_phys p) ≡ none
unfolding page_put
page_put-free {m} qs p rs s = ground (arith, unused-mid m qs p rs s.unused)

-- With more than one reference `page_put` only lowers the count.
pub page_put-shared :
    (m : Memory) (pa : ℕ)
    → IsFrame pa
    → 1 < m.refs (pa2pfn pa)
    → page_put m pa ≡ some (lowered m pa)
unfolding page_put
page_put-shared m pa h more = ground arith

-- A reference taken and dropped again leaves all as it was, and neither call panics.
pub page_get-page_put :
    (m : Memory) (pa : ℕ)
    → IsFrame pa
    → 0 < m.refs (pa2pfn pa)
    → m.refs (pa2pfn pa) < 65535
    → (m' : Memory) × (page_get m pa ≡ some m')
      × (m'.refs (pa2pfn pa) ≡ m.refs (pa2pfn pa) + 1)
      × (page_put m' pa ≡ some m)
unfolding page_get page_put
page_get-page_put m pa h lo hi =
    let m1 = record m { refs = update m.refs (pa2pfn pa) (m.refs (pa2pfn pa) + 1) } in
    (m1, ground arith, ground arith, page_put-shared m1 pa h (ground arith) ∙ ap some (same m))
  where
    same :
        (m : Memory)
        → lowered (record m { refs = update m.refs (pa2pfn pa) (m.refs (pa2pfn pa) + 1) }) pa ≡ m
    same m = ap (λ f. record m { refs = f }) (fun_ext λ i. ground arith)
