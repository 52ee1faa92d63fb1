-- ===== src/Memory/Free.antt =====
-- The free list as a list of pages, and what allocating and freeing do to it.
use sbunix.Base.{
  ℕ, ◌+◌, ◌%◌, ◌≤◌, ◌<◌, ◌≡◌, ◌≢◌, refl, ◌⊎◌, true, false, some, List, [], ◌∷◌, All, arith,
  update_self, update_ne, if◌then◌else◌, update,
}
use sbunix.Memory.{
  Memory, page_size, kern_base, phymem_end, virt_to_phys, pa2pfn, load, zero_page, page_ref_set,
  page_ref_get, page_alloc, page_free,
}

-- From `h` the `next` words lead through these pages to the null pointer.
abbrev pub Chain : (ℕ → ℕ) → ℕ → List ℕ → Type 0
Chain w h [] = h ≡ 0
Chain w h (p ∷ ps) = (h ≡ p) × Chain w (w (virt_to_phys p)) ps

-- An address of a page of RAM, identity-mapped or in the high half.
pub record IsPage (p : ℕ) : Type 0 where
  pub aligned : p % page_size ≡ 0
  pub above : kern_base ≤ virt_to_phys p
  pub below : virt_to_phys p < phymem_end

-- The page is none of these, under whatever alias.
abbrev pub Apart : ℕ → List ℕ → Type 0
Apart p ps = All (λ q. virt_to_phys q ≢ virt_to_phys p) ps

abbrev pub Distinct : List ℕ → Type 0
Distinct [] = Unit
Distinct (p ∷ ps) = Apart p ps × Distinct ps

-- The free pages are `ps`, in the order in which they are handed out.
pub record Free (m : Memory) (ps : List ℕ) : Type 0 where
  pub chain : Chain m.word m.freelist ps
  pub pages : All IsPage ps
  pub distinct : Distinct ps

-- A change of memory that spares the pages' first words spares the list.
pub Chain-same :
    (w v : ℕ → ℕ) (h : ℕ) (ps : List ℕ)
    → All (λ p. v (virt_to_phys p) ≡ w (virt_to_phys p)) ps
    → Chain w h ps
    → Chain v h ps
Chain-same w v h [] same c = c
Chain-same w v h (p ∷ ps) same c =
    (c.0, Chain-same w v (v (virt_to_phys p)) ps same.1 (rw same.0 c.1))

pub All-ne :
    {R : ℕ → Type 0} (p : ℕ) (ps : List ℕ)
    → ((q : ℕ) → virt_to_phys q ≢ virt_to_phys p → R q)
    → Apart p ps
    → All R ps
All-ne p [] f a = tt
All-ne p (q ∷ ps) f a = (f q a.0, All-ne p ps f a.1)

pub All-zip :
    {P Q R : ℕ → Type 0} (ps : List ℕ)
    → ((p : ℕ) → P p → Q p → R p)
    → All P ps
    → All Q ps
    → All R ps
All-zip [] f a b = tt
All-zip (p ∷ ps) f a b = (f p a.0 b.0, All-zip ps f a.1 b.1)

-- What `page_alloc` leaves when the first free page is `p`.
abbrev allocated : Memory → ℕ → Memory
allocated m p = record m {
  freelist = load m p;
  word = (zero_page m p).word;
  refs = if m.refs_ready then update m.refs (pa2pfn (virt_to_phys p)) 1 else m.refs;
}

zero_page-same :
    (m : Memory) (p : ℕ)
    → IsPage p
    → (q : ℕ) → IsPage q
    → virt_to_phys q ≢ virt_to_phys p
    → (zero_page m p).word (virt_to_phys q) ≡ m.word (virt_to_phys q)
zero_page-same m p pp q pq ne = ground arith

-- Allocation hands out the first free page and keeps the others free. The page is all zeros, its
-- count is 1 once the counts are in use, and no word outside the page and no other count changes.
pub page_alloc-cons :
    {m : Memory} {p : ℕ} {ps : List ℕ}
    → Free m (p ∷ ps)
    → (m' : Memory) × (page_alloc m ≡ some (p, m'))
      × Free m' ps
      × ((a : ℕ) → virt_to_phys p ≤ a → a < virt_to_phys p + page_size → m'.word a ≡ 0)
      × ((a : ℕ) → (a < virt_to_phys p) ⊎ (virt_to_phys p + page_size ≤ a) → m'.word a ≡ m.word a)
      × (m.refs_ready ≡ true → m'.refs ≡ update m.refs (pa2pfn (virt_to_phys p)) 1)
      × (m'.refs_ready ≡ m.refs_ready)
unfolding page_alloc page_ref_set
page_alloc-cons {m} {p} {ps} f = (
  allocated m p,
  ground arith,
  record {
    chain =
        Chain-same m.word (allocated m p).word (load m p) ps
          (All-zip ps (λ q. zero_page-same m p f.pages.0 q) f.pages.1 f.distinct.0) f.chain.1;
    pages = f.pages.1;
    distinct = f.distinct.1;
  },
  λ a lo hi. ground arith,
  λ a out. ground arith,
  λ r. rw r,
  refl,
)

-- With no free page `page_alloc` returns the null pointer and changes nothing.
pub page_alloc-nil : {m : Memory} → Free m [] → page_alloc m ≡ some (0, m)
unfolding page_alloc
page_alloc-nil f = ground (arith, f.chain)

-- A page that is in no list and whose count is 0 or 1 goes back to the front of the list, and
-- its count becomes 0.
pub page_free-cons :
    {m : Memory} (p : ℕ) {ps : List ℕ}
    → Free m ps
    → IsPage p
    → Apart p ps
    → m.refs (pa2pfn (virt_to_phys p)) ≤ 1
    → (m' : Memory) × (page_free m p ≡ some m')
      × Free m' (p ∷ ps)
      × (m.refs_ready ≡ true → m'.refs ≡ update m.refs (pa2pfn (virt_to_phys p)) 0)
      × (m.refs_ready ≡ false → m'.refs ≡ m.refs)
      × (m'.refs_ready ≡ m.refs_ready)
      × ((a : ℕ) → a ≢ virt_to_phys p → m'.word a ≡ m.word a)
unfolding page_free page_ref_set page_ref_get
page_free-cons {m} p {ps} f pp apart le = (
  freed,
  ground arith,
  record {
    chain = (
      refl,
      Chain-same m.word freed.word (freed.word (virt_to_phys p)) ps
          (All-ne p ps (λ q ne. update_ne m.word (virt_to_phys p) (virt_to_phys q) m.freelist ne)
            apart)
          (rw (update_self m.word (virt_to_phys p) m.freelist) f.chain),
    );
    pages = (pp, f.pages);
    distinct = (apart, f.distinct);
  },
  λ r. rw r,
  λ r. rw r,
  refl,
  λ a ne. ground arith,
)
  where
    freed : Memory
    freed = record m {
      freelist = p;
      word = update m.word (virt_to_phys p) m.freelist;
      refs = if m.refs_ready then update m.refs (pa2pfn (virt_to_phys p)) 0 else m.refs;
    }
