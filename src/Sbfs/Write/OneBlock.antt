-- ===== src/Sbfs/Write/OneBlock.antt =====
-- `sbfs_writei` of a range inside one direct block, as the directories do it for their entries.
use sbunix.Base.{
  ℕ, zero, suc, ◌+◌, ◌-◌, ◌/◌, ◌%◌, ◌^◌, ◌≤◌, ◌<◌, ◌≡◌, ◌≢◌, refl, sym, ap, subst, ◌∙◌, ◌⊎◌, inl,
  inr, ◌&&◌, true, false, some, List, [], ◌∷◌, arith, ◌==◌, ltb, leb, add64, if◌then◌else◌, update,
  update_ne, length, take, get_or, All, Bool-cases, eq_of_==,
}
use sbunix.Bio.{Block}
use sbunix.Bio.View.{view}
use sbunix.Log.{System}
use sbunix.Log.Transaction.{Open}
use sbunix.Sbfs.{Superblock, visit}
use sbunix.Sbfs.Bytes.{get_byte}
use sbunix.Sbfs.Visit.{Room, Visited, visit-at}
use sbunix.Sbfs.Bitmap.{is_used}
use sbunix.Sbfs.Bitmap.Alloc.{Laid}
use sbunix.Sbfs.Inode.{Inode, Vnode}
use sbunix.Sbfs.Read.{chunk}
use sbunix.Sbfs.Write.{Place, Written, place, ensure_slot, map_alloc, splice, write_from}
use sbunix.Sbfs.Write.Contents.{Direct, content, content-at, content-update, get_byte-splice}
use sbunix.Sbfs.Write.Filled.{Filled, Exhausted, Ensured, ensure_slot-Ensured}

-- A valid copy of a known inode, in step with its generic fields, with its direct blocks in order.
pub record IsFile (sb : Superblock) (s : System) (si : Inode) : Type 0 where
  pub known : si.inum < sb.ninodes
  pub valid : si.valid ≡ true
  pub kind : si.d.kind < 2 ^ 16
  pub ten : (i : ℕ) → 10 ≤ i → si.d.addrs i ≡ 0
  pub direct : Direct sb (view s.cache) si.d
  pub step : si.vnode.size ≡ si.d.size
  pub width : si.d.size < 2 ^ 32

take_all : (xs : List ℕ) → take (length xs) xs ≡ xs
take_all [] = refl
take_all (x ∷ xs) = ap (λ ys. x ∷ ys) (take_all xs)

-- When all is written, the loop ends.
write_from-done :
    (f : ℕ) (sb : Superblock) (s : System) (si : Inode) (off : ℕ) (src : List ℕ) (n : ℕ)
    → write_from f sb s si off src n n
      ≡ some (record { total = n; no_space = false; inode = si; system = s })
unfolding write_from
write_from-done zero sb s si off src n = refl
write_from-done (suc f) sb s si off src n = let e : ltb n n ≡ false = ground arith in rw e

Direct-bitmap :
    (sb : Superblock) (v w : ℕ → Block) (si : Inode)
    → w sb.bmapstart ≡ v sb.bmapstart
    → Direct sb v si.d
    → Direct sb w si.d
Direct-bitmap sb v w si e h = record {
  own = λ i hi. elim (h.own i hi) [
    | inl z ↦ inl z
    | inr (k, lt, q, u) ↦ inr (k, lt, q, ap (λ x. is_used x k) e ∙ u)
  ];
  apart = h.apart;
}

-- How the loop ended: nothing is written, because no block is free, or everything is.
abbrev pub Outcome : Superblock → System → Inode → ℕ → List ℕ → Written → Type 0
Outcome sb s si off src w =
    ((w.total ≡ 0)
      × (w.no_space ≡ true)
      × (w.inode ≡ si)
      × Exhausted sb (view s.cache)
      × ((p : ℕ)
          → p / 512 < 7
          → content (view w.system.cache) w.inode.d p ≡ content (view s.cache) si.d p))
    ⊎ ((w.total ≡ length src)
        × (w.no_space ≡ false)
        × (w.inode.d.addrs (off / 512) ≢ 0)
        × ((p : ℕ)
            → p / 512 < 7
            → content (view w.system.cache) w.inode.d p ≡ (
                if leb off p && ltb p (off + length src)
                then get_or src (p - off) 0
                else content (view s.cache) si.d p)))

module _ (sb : Superblock) (s : System) (si : Inode) (off : ℕ) (src : List ℕ) (o : Open s)
    (laid : Laid sb s.log) (file : IsFile sb s si) (some_bytes : 0 < length src)
    (inside : off % 512 + length src ≤ 512) (near : off / 512 < 7)
    (bytes : All (λ x. x < 256) src) where
  abbrev n : ℕ
  n = length src

  abbrev slot : ℕ
  slot = off / 512

  here : add64 off 0 ≡ off
  here = omega (arith, near)

  few : off / 512 % 2 ^ 32 ≡ off / 512
  few = omega (arith, near)

  all : chunk off (n - 0) ≡ n
  all = ground (arith, inside)

  close : ltb (off / 512) 7 ≡ true
  close = ground (arith, near)

  -- The bytes of the file after the write.
  abbrev pub overwritten : ℕ → ℕ
  overwritten p =
      if leb off p && ltb p (off + n) then get_or src (p - off) 0 else content (view s.cache) si.d p

  abbrev pub Wrote : Written → Type 0
  Wrote w =
      Open w.system
      × Laid sb w.system.log
      × Room 1 w.system
      × IsFile sb w.system w.inode
      × (w.inode.d.size ≡ si.d.size)
      × Outcome sb s si off src w

  exhausted :
      (f : ℕ) (s' : System)
      → Room 1 s'
      → ensure_slot sb s si slot ≡ some ((0, si), s')
      → Open s'
      → Laid sb s'.log
      → Exhausted sb (view s.cache)
      → view s'.cache ≡ view s.cache
      → (w : Written) × (write_from (suc f) sb s si off src n 0 ≡ some w) × Wrote w
  unfolding write_from map_alloc
  exhausted f s' room e o' laid' full same =
      let pos_n : ltb 0 n ≡ true = ground (arith, some_bytes) in
      (
        record { total = 0; no_space = true; inode = si; system = s' },
        rw (here, few, pos_n, close, e) refl,
        (
          o',
          laid',
          room,
          record {
            known = file.known;
            valid = file.valid;
            kind = file.kind;
            ten = file.ten;
            direct = subst (λ v. Direct sb v si.d) (sym same) file.direct;
            step = file.step;
            width = file.width;
          },
          refl,
          inl (refl, refl, refl, full, λ p hp. ap (λ v. content v si.d p) same),
        ),
      )

  -- The contents after the data went to the block of the slot.
  written_contents :
      (si' : Inode) (s1 s2 : System) (b : ℕ)
      → Filled sb s si slot b si' s1
      → view s2.cache ≡ update (view s1.cache) b (splice (view s1.cache b) (off % 512) src)
      → (p : ℕ) → p / 512 < 7
      → content (view s2.cache) si'.d p ≡ overwritten p
  written_contents si' s1 s2 b f e p hp =
      content-update sb (view s1.cache) (view s2.cache) si'.d slot
        (splice (view s1.cache b) (off % 512) src) p f.direct near
        (λ z. f.some_block (sym f.at ∙ z))
        (e
          ∙ ap (λ k. update (view s1.cache) k (splice (view s1.cache b) (off % 512) src))
              (sym f.at))
        hp
      ∙ joined (Bool-cases (p / 512 == slot))
    where
      at_slot :
          p / 512 ≡ slot → content (view s1.cache) si'.d p ≡ get_byte (view s1.cache b) (p % 512)
      at_slot q = content-at (view s1.cache) si'.d p b (ap si'.d.addrs q ∙ f.at) f.some_block

      joined :
          ((p / 512 == slot) ≡ true) ⊎ ((p / 512 == slot) ≡ false)
          → (if p / 512 == slot
              then get_byte (splice (view s1.cache b) (off % 512) src) (p % 512)
              else content (view s1.cache) si'.d p)
            ≡ overwritten p
      joined (inr q) =
          let out : (leb off p && ltb p (off + n)) ≡ false = ground (arith, q, inside) in
          rw (q, out) (f.contents p hp)
      joined (inl q) =
          let r : p / 512 ≡ slot = eq_of_== (p / 512) slot q in
          rw q (
            get_byte-splice (view s1.cache b) (off % 512) src (p % 512) bytes
            ∙ within r (Bool-cases (leb off p && ltb p (off + n))))
        where
          within :
              p / 512 ≡ slot
              → ((leb off p && ltb p (off + n)) ≡ true) ⊎ ((leb off p && ltb p (off + n)) ≡ false)
              → (if leb (off % 512) (p % 512) && ltb (p % 512) (off % 512 + n)
                  then get_or src (p % 512 - off % 512) 0
                  else get_byte (view s1.cache b) (p % 512))
                ≡ overwritten p
          within r (inl t) =
              let t' : (leb (off % 512) (p % 512) && ltb (p % 512) (off % 512 + n)) ≡ true =
                ground (arith, t, r) in
              let e : p % 512 - off % 512 ≡ p - off = omega (arith, r) in rw (t, t', e)
          within r (inr u) =
              let u' : (leb (off % 512) (p % 512) && ltb (p % 512) (off % 512 + n)) ≡ false =
                ground (arith, u, r) in
              rw (u, u') (sym (at_slot r) ∙ f.contents p hp)

  -- The address of a slot of the file is no bitmap.
  not_bitmap :
      (si' : Inode) (v : ℕ → Block)
      → Direct sb v si'.d
      → si'.d.addrs slot ≢ 0
      → si'.d.addrs slot ≢ sb.bmapstart
  not_bitmap si' v h f = elim (h.own slot near) [
    | inl z ↦ absurd (f z)
    | inr (k, lt, e, u) ↦ omega (arith, e)
  ]

  written :
      (f : ℕ) (si' : Inode) (s1 s2 : System) (b : ℕ)
      → Room 1 s2
      → ensure_slot sb s si slot ≡ some ((b, si'), s1)
      → (place b ≡ Place.found b)
      → Filled sb s si slot b si' s1
      → visit s1 b (λ x. (b, some (splice x (off % 512) src))) ≡ some (b, s2)
      → Visited s1 b (some (splice (view s1.cache b) (off % 512) src)) s2
      → (w : Written) × (write_from (suc f) sb s si off src n 0 ≡ some w) × Wrote w
  unfolding write_from map_alloc
  written f si' s1 s2 b room e eb fl ev v =
      let pos_n : ltb 0 n ≡ true = ground (arith, some_bytes) in
      let zero_n : 0 + n ≡ n = omega arith in
      let far = not_bitmap si' (view s1.cache) fl.direct (λ z. fl.some_block (sym fl.at ∙ z)) in
      let bitmap : view s2.cache sb.bmapstart ≡ view s1.cache sb.bmapstart =
        ap (λ w. w sb.bmapstart) v.seen
        ∙ update_ne (view s1.cache) b sb.bmapstart (splice (view s1.cache b) (off % 512) src)
            (λ q. far (fl.at ∙ sym q)) in
      (
        record { total = n; no_space = false; inode = si'; system = s2 },
        rw (here, few, pos_n, close, e, eb, here, all, take_all src, ev, zero_n)
            (write_from-done f sb s2 si' off src n),
        (
          v.still_open,
          record {
            log_first = omega (arith, fl.laid.log_first, v.start, v.size);
            inodes_next = laid.inodes_next;
            one_bitmap = laid.one_bitmap;
            numbers = laid.numbers;
          },
          room,
          record {
            known = subst (λ k. k < sb.ninodes) (sym fl.same.inum) file.known;
            valid = fl.same.valid ∙ file.valid;
            kind = subst (λ k. k < 2 ^ 16) (sym fl.same.kind) file.kind;
            ten = λ i h. fl.same.others i (omega (arith, near, h)) ∙ file.ten i h;
            direct = Direct-bitmap sb (view s1.cache) (view s2.cache) si' bitmap fl.direct;
            step = ap (λ (x : Vnode). x.size) fl.same.vnode ∙ file.step ∙ sym fl.same.size;
            width = subst (λ k. k < 2 ^ 32) (sym fl.same.size) file.width;
          },
          fl.same.size,
          inr (
            refl,
            refl,
            λ z. fl.some_block (sym fl.at ∙ z),
            written_contents si' s1 s2 b fl v.seen,
          ),
        ),
      )

  pub looped :
      (f : ℕ)
      → Room 4 s
      → (w : Written) × (write_from (suc f) sb s si off src n 0 ≡ some w) × Wrote w
  looped f room =
      go (ensure_slot-Ensured sb s si slot o laid file.direct near (less 2 room (omega arith)))
    where
      less : (m : ℕ) → Room 4 s → m ≤ 4 → Room m s
      less m r h = record {
        entries = omega (arith, r.entries);
        blocks = omega (arith, r.blocks);
        buffers = omega (arith, r.buffers);
      }

      go :
          Ensured sb s si slot
          → (w : Written) × (write_from (suc f) sb s si off src n 0 ≡ some w) × Wrote w
      go (inl (s', e, o', laid', more, full, same)) =
          exhausted f s' (more 1 (less (2 + 1) room (omega arith))) e o' laid' full same
      go (inr (b, (si', (s1, e, fl)))) =
          let nz : (b == 0) ≡ false = ground (arith, fl.some_block) in
          let eb : place b ≡ Place.found b = rw nz in
          let (k, near_b) = block_of fl in
          let (s2, ev, v) =
            visit-at s1 b (λ x. (b, some (splice x (off % 512) src))) b
              (some (splice (view s1.cache b) (off % 512) src)) refl fl.still_open
              (omega (arith, near_b, fl.laid.log_first, fl.laid.inodes_next))
              (fl.room 1 (less (2 + 1) room (omega arith))) in
          written f si' s1 s2 b (v.room 1 (fl.room (1 + 1) (less (2 + (1 + 1)) room (omega arith))))
            e eb fl ev v
        where
          block_of : Filled sb s si slot b si' s1 → (k : ℕ) × (b ≡ sb.bmapstart + 1 + k)
          block_of fl = elim (fl.direct.own slot near) [
            | inl z ↦ absurd (fl.some_block (sym fl.at ∙ z))
            | inr (k, lt, q, u) ↦ (k, sym fl.at ∙ q)
          ]
