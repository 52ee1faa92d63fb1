-- ===== src/Vma.antt =====
-- kernel/vma.c: the list of the memory areas of a process. An area is named by an index of the
-- slab; the list holds the names in the order of its `next` pointers. The pages that the slab gets
-- from `page_alloc` are an argument, `pages`: the slots of each, in the order in which they are
-- pushed; when it is used up, no page is free.
pub mod Insert
mod Tests
use sbunix.Base.{
  ℕ, zero, suc, ◌+◌, ◌-◌, ◌&&◌, Bool, true, false, Option, none, some, List, [], ◌∷◌, ◌++◌, ◌==◌,
  ltb, leb, if◌then◌else◌, update, add32, sub32, add64,
}
use sbunix.Base.Int.{ℤ, pos, minus}
use sbunix.Base.Errno.{einval}
use sbunix.Base.Sets.{remove}

abbrev pub vma_type_file : ℕ
vma_type_file = 2

abbrev pub vma_type_stack : ℕ
vma_type_stack = 3

-- `struct vma`; `file` is the inode's name.
pub record Area : Type 0 where
  pub start : ℕ
  pub end : ℕ
  pub prot : ℕ
  pub type : ℕ
  pub flags : ℕ
  pub file : Option ℕ
  pub file_off : ℕ

abbrev pub blank_area : Area
blank_area = record { start = 0; end = 0; prot = 0; type = 0; flags = 0; file = none; file_off = 0 }

-- The slab, and the reference counts of the inodes.
pub record Slab : Type 0 where
  pub area : ℕ → Area
  pub freelist : List ℕ
  pub pages : List (List ℕ)
  pub inode_refs : ℕ → ℕ

abbrev pub set_area : Slab → ℕ → Area → Slab
set_area s v a = record s { area = update s.area v a }

-- The slots of a page go to the front of the free list one by one.
abbrev pub push_all : List ℕ → List ℕ → List ℕ
push_all [] fs = fs
push_all (v ∷ vs) fs = push_all vs (v ∷ fs)

-- `none` is the result -1.
pub vma_slab_refill : Slab → Option Slab
vma_slab_refill s = elim s.pages [
  | [] ↦ none
  | (p ∷ ps) ↦ some (record s { freelist = push_all p s.freelist; pages = ps })
]

-- The first slot of the free list, zeroed.
abbrev pub take_slot : Slab → Option (ℕ × Slab)
take_slot s = elim s.freelist [
  | [] ↦ none
  | (v ∷ vs) ↦ some (v, record (set_area s v blank_area) { freelist = vs })
]

-- `none` is the null pointer.
pub vma_alloc : Slab → Option (ℕ × Slab)
unfolding vma_slab_refill
vma_alloc s = elim s.freelist [
  | (_ ∷ _) ↦ take_slot s
  | [] ↦ elim (vma_slab_refill s) [ none ↦ none | some s' ↦ take_slot s' ]
]

pub vma_free : Slab → ℕ → Slab
vma_free s v = record (set_area s v blank_area) { freelist = v ∷ s.freelist }

pub vma_find : Slab → List ℕ → ℕ → Option ℕ
vma_find s [] va = none
vma_find s (v ∷ vs) va =
    let rest = vma_find s vs va in
    if leb (s.area v).start va && ltb va (s.area v).end then some v else rest

-- The walk of `vma_insert` from a place of the list on, and what stands before it. `none` is
-- -EINVAL.
pub insert_from : Slab → Option ℕ → List ℕ → ℕ → Option (List ℕ)
insert_from s prev [] v = elim prev [
  | none ↦ some (v ∷ [])
  | some p ↦ if ltb (s.area v).start (s.area p).end then none else some (v ∷ [])
]
insert_from s prev (x ∷ xs) v =
    let rest = insert_from s (some x) xs v in
    if ltb (s.area x).start (s.area v).start
    then elim rest [ none ↦ none | some ys ↦ some (x ∷ ys) ]
    else if ltb (s.area x).start (s.area v).end
    then none
    else elim prev [
      | none ↦ some (v ∷ x ∷ xs)
      | some p ↦ if ltb (s.area v).start (s.area p).end then none else some (v ∷ x ∷ xs)
    ]

pub vma_insert : Slab → List ℕ → ℕ → ℤ × List ℕ
unfolding insert_from
vma_insert s list v = elim (insert_from s none list v) [
  | none ↦ (minus einval, list)
  | some list' ↦ (pos 0, list')
]

pub vma_remove : List ℕ → ℕ → List ℕ
vma_remove list v = remove v list

pub vma_list_free : Slab → List ℕ → Slab
unfolding vma_free
vma_list_free s [] = s
vma_list_free s (v ∷ vs) = vma_list_free (vma_free s v) vs

abbrev pub inode_get : Slab → ℕ → Slab
inode_get s f = record s { inode_refs = update s.inode_refs f (add32 (s.inode_refs f) 1) }

-- The reference that a file area holds.
abbrev pub hold_file : Slab → Area → Slab
hold_file s a =
    if a.type == vma_type_file then elim a.file [ none ↦ s | some f ↦ inode_get s f ] else s

-- The loop of `vma_list_dup` over the rest of the source, with the copies made so far; the result
-- `[]` with the slab as it then is when a slot is missing.
pub dup_from : Slab → List ℕ → List ℕ → List ℕ × Slab
unfolding vma_alloc vma_list_free
dup_from s done [] = (done, s)
dup_from s done (v ∷ vs) = elim (vma_alloc s) [
  | none ↦ ([], vma_list_free s done)
  | some (c, s1) ↦
      dup_from (hold_file (set_area s1 c (s1.area v)) (s1.area v)) (done ++ (c ∷ [])) vs
]

pub vma_list_dup : Slab → List ℕ → List ℕ × Slab
unfolding dup_from
vma_list_dup s src = dup_from s [] src

-- The middle cut of `vma_split`. The inode's count is taken back when the insertion fails.
abbrev pub cut_middle : Slab → List ℕ → ℕ → ℕ → ℕ → ℤ × List ℕ × Slab
cut_middle s list v start end = elim (vma_alloc s) [
  | none ↦ (minus 1, list, s)
  | some (r, s1) ↦
      let a = s1.area v in
      let plain : Area = record {
        start = end;
        end = a.end;
        prot = a.prot;
        type = a.type;
        flags = a.flags;
        file = none;
        file_off = 0;
      } in
      let right : Area =
        if a.type == vma_type_file
        then elim a.file [
          | none ↦ plain
          | some f ↦ record plain { file = some f; file_off = add64 a.file_off (end - a.start) }
        ]
        else plain in
      let s2 = hold_file (set_area s1 r right) a in
      let s3 = set_area s2 v (record a { end = start }) in
      elim (insert_from s3 none list r) [
        | some list' ↦ (pos 0, list', s3)
        | none ↦
            let s4 = set_area s3 v a in
            let s5 = elim right.file as (λ _. Slab) [
              | none ↦ s4
              | some f ↦ record s4 {
                inode_refs = update s4.inode_refs f (sub32 (s4.inode_refs f) 1);
              }
            ] in
            (minus 1, list, vma_free s5 r)
      ]
]

pub vma_split : Slab → List ℕ → ℕ → ℕ → ℕ → ℤ × List ℕ × Slab
unfolding vma_free vma_remove
vma_split s list v start end =
    let a = s.area v in
    if leb start a.start && leb a.end end
    then (pos 0, vma_remove list v, vma_free s v)
    else if ltb a.start start && ltb end a.end
    then cut_middle s list v start end
    else if leb start a.start
    then (
      pos 0,
      list,
      set_area s v (record a {
        start = end;
        file_off = if a.type == vma_type_file then add64 a.file_off (end - a.start) else a.file_off;
      }),
    )
    else (pos 0, list, set_area s v (record a { end = start }))

pub find_stack_vma : Slab → List ℕ → Option ℕ
find_stack_vma s [] = none
find_stack_vma s (v ∷ vs) =
    let rest = find_stack_vma s vs in if (s.area v).type == vma_type_stack then some v else rest
