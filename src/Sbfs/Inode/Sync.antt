-- ===== src/Sbfs/Inode/Sync.antt =====
-- An inode that is written back is read again as it was, and the others of its block are not
-- touched.
use sbunix.Base.{
  ℕ, suc, ◌+◌, ◌-◌, ◌*◌, ◌/◌, ◌%◌, ◌^◌, ◌≤◌, ◌<◌, ◌≡◌, sym, ap, ap₂, ◌∙◌, ◌⊎◌, ◌&&◌, true, false,
  arith, ltb, leb, if◌then◌else◌, Bool-cases, inl, inr,
}
use sbunix.Bio.{Block}
use sbunix.Sbfs.Inode.{Dinode, IsDinode, word, get_dinode, put_dinode}

put_inside : (b : Block) (off k : ℕ) (x : Dinode) → k < 16 → put_dinode b off x (off + k) ≡ word x k
unfolding put_dinode
put_inside b off k x h =
    let t : (leb off (off + k) && ltb (off + k) (off + 16)) ≡ true = ground (arith, h) in
    let e : off + k - off ≡ k = omega arith in rw (t, e)

put_outside :
    (b : Block) (off j : ℕ) (x : Dinode) → (j < off) ⊎ (off + 16 ≤ j) → put_dinode b off x j ≡ b j
unfolding put_dinode
put_outside b off j x h =
    let t : (leb off j && ltb j (off + 16)) ≡ false = ground (arith, h) in rw t

-- Equal fields make equal dinodes.
same_fields :
    {a b : Dinode}
    → a.kind ≡ b.kind
    → a.nlink ≡ b.nlink
    → a.size ≡ b.size
    → a.mtime ≡ b.mtime
    → a.mode ≡ b.mode
    → a.uid ≡ b.uid
    → a.gid ≡ b.gid
    → ((i : ℕ) → a.addrs i ≡ b.addrs i)
    → a ≡ b
same_fields k n s t m u g a = λ i. record {
  kind = k i;
  nlink = n i;
  size = s i;
  mtime = t i;
  mode = m i;
  uid = u i;
  gid = g i;
  addrs = λ j. a j i;
}

pub get_dinode-put_dinode :
    (b : Block) (off : ℕ) (x : Dinode) → IsDinode x → get_dinode (put_dinode b off x) off ≡ x
unfolding get_dinode word
get_dinode-put_dinode b off x w =
    let first : put_dinode b off x off ≡ x.kind + x.nlink * 2 ^ 16 =
      ap (put_dinode b off x) (omega arith) ∙ put_inside b off 0 x (omega arith) in
    let owner : put_dinode b off x (off + 5) ≡ x.uid + x.gid * 2 ^ 16 =
      put_inside b off 5 x (omega arith) in
    same_fields (ap (λ v. v % 2 ^ 16) first ∙ omega (arith, w.kind_width))
      (ap (λ v. v / 2 ^ 16 % 2 ^ 16) first ∙ omega (arith, w.kind_width, w.nlink_width))
      (put_inside b off 1 x (omega arith))
      (ap₂ (λ u v. u + v * 2 ^ 32) (put_inside b off 2 x (omega arith))
          (put_inside b off 3 x (omega arith))
        ∙ omega arith)
      (put_inside b off 4 x (omega arith)) (ap (λ v. v % 2 ^ 16) owner ∙ omega (arith, w.uid_width))
      (ap (λ v. v / 2 ^ 16 % 2 ^ 16) owner ∙ omega (arith, w.uid_width, w.gid_width)) addrs
  where
    addrs : (i : ℕ) → (if ltb i 10 then put_dinode b off x (off + 6 + i) else 0) ≡ x.addrs i
    addrs i = elim (Bool-cases (ltb i 10)) [
      | inl t ↦ rw t (
          ap (put_dinode b off x) (omega arith)
          ∙ put_inside b off (suc (suc (suc (suc (suc (suc i)))))) x (ground (arith, t)))
      | inr t ↦ rw t (sym (w.ten i (ground (arith, t))))
    ]

pub get_dinode-put_other :
    (b : Block) (off off' : ℕ) (x : Dinode)
    → (off' + 16 ≤ off) ⊎ (off + 16 ≤ off')
    → get_dinode (put_dinode b off x) off' ≡ get_dinode b off'
unfolding get_dinode
get_dinode-put_other b off off' x h =
    let at = λ (k : ℕ) (q : k < 16). put_outside b off (off' + k) x (omega (arith, h, q)) in
    let first : put_dinode b off x off' ≡ b off' = put_outside b off off' x (omega (arith, h)) in
    let owner = at 5 (omega arith) in
    same_fields (ap (λ v. v % 2 ^ 16) first) (ap (λ v. v / 2 ^ 16 % 2 ^ 16) first)
      (at 1 (omega arith)) (ap₂ (λ u v. u + v * 2 ^ 32) (at 2 (omega arith)) (at 3 (omega arith)))
      (at 4 (omega arith)) (ap (λ v. v % 2 ^ 16) owner) (ap (λ v. v / 2 ^ 16 % 2 ^ 16) owner) addrs
  where
    addrs :
        (i : ℕ)
        → (if ltb i 10 then put_dinode b off x (off' + 6 + i) else 0)
          ≡ (if ltb i 10 then b (off' + 6 + i) else 0)
    addrs i = elim (Bool-cases (ltb i 10)) [
      | inl t ↦ rw t (put_outside b off (off' + 6 + i) x (ground (arith, t, h)))
      | inr t ↦ rw t
    ]
