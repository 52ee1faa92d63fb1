-- ===== src/Vma/Tests.antt =====
-- kernel/vma.c at concrete inputs.
use sbunix.Base.{ℕ, ◌+◌, ◌*◌, ◌≡◌, ◌⊎◌, arith, none, [], ◌∷◌, ◌&&◌, ◌||◌, leb, ltb}
use sbunix.Base.Int.{pos, minus}
use sbunix.Base.Errno.{einval}
use sbunix.Vma.{Slab, vma_insert}
use sbunix.Vma.Insert.{Ordered, covers, vma_insert-Ordered}

-- The area `i` is the page `i`.
abbrev slab : Slab
slab = record {
  area = λ i. record {
    start = i * 4096;
    end = i * 4096 + 4096;
    prot = 3;
    type = 1;
    flags = 0;
    file = none;
    file_off = 0;
  };
  freelist = [];
  pages = [];
  inode_refs = λ i. 0;
}

ordered : Ordered slab (2 ∷ 5 ∷ [])
ordered = (omega arith, omega arith, omega arith)

vma_insert-Ordered_example :
    Ordered slab (vma_insert slab (2 ∷ 5 ∷ []) 3).1
    × ((vma_insert slab (2 ∷ 5 ∷ []) 3 ≡ (minus einval, 2 ∷ 5 ∷ []))
        ⊎ (((vma_insert slab (2 ∷ 5 ∷ []) 3).0 ≡ pos 0)
            × ((va : ℕ)
                → covers slab (vma_insert slab (2 ∷ 5 ∷ []) 3).1 va
                  ≡ ((leb 12288 va && ltb va 16384) || covers slab (2 ∷ 5 ∷ []) va))))
vma_insert-Ordered_example = vma_insert-Ordered slab (2 ∷ 5 ∷ []) 3 (omega arith) ordered
