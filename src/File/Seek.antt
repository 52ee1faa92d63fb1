-- ===== src/File/Seek.antt =====
-- `fileseek`, and `filedup` against `fileclose`.
use sbunix.Base.{
  ℕ, suc, ◌==◌, ◌%◌, ◌+◌, ◌-◌, ◌^◌, ◌≤◌, ◌<◌, ◌≡◌, refl, ap, ◌∙◌, ◌⊎◌, inl, inr, true, false, arith,
  Bool-cases, Option, none, some, fun_ext, subst, sym, add32, sub32,
}
use sbunix.Base.Int.{ℤ, pos, negsuc, minus, pos_part, neg_part, word64, int64}
use sbunix.Base.Errno.{einval, espipe}
use sbunix.File.{
  Files, FileType, fd_none, fd_inode, fd_pipe, set_file, seek_base, seek_to, is_chr_file, fileseek,
  filedup, fileclose,
}

-- The value of an `int64_t`.
abbrev pub IsInt64 : ℤ → Type 0
IsInt64 z = (pos_part z < 2 ^ 63) × (neg_part z ≤ 2 ^ 63)

-- Pipes, free slots of the table and character devices have no offset.
abbrev pub Unseekable : Files → ℕ → Type 0
Unseekable t f =
    ((t.ftable f).type ≡ fd_pipe)
    ⊎ ((t.ftable f).type ≡ fd_none)
    ⊎ ((i : ℕ) × ((t.ftable f).ip ≡ some i) × ((t.inodes i).is_chr ≡ true))

-- The place from which the names SEEK_SET (0), SEEK_CUR (1) and SEEK_END (2) count.
abbrev pub CountsFrom : Files → ℕ → ℕ → ℕ → Type 0
CountsFrom t f whence b =
    ((whence ≡ 0) × (b ≡ 0))
    ⊎ ((whence ≡ 1) × (b ≡ (t.ftable f).off))
    ⊎ ((whence ≡ 2) × ((i : ℕ) × ((t.ftable f).ip ≡ some i) × (b ≡ (t.inodes i).size)))

abbrev pub Seekable : Files → ℕ → Type 0
Seekable t f =
    ((t.ftable f).type ≡ fd_inode)
    × ((i : ℕ) → (t.ftable f).ip ≡ some i → (t.inodes i).is_chr ≡ false)

-- What a seek by `z` from the place `b` does: an error with nothing changed, or the new offset.
abbrev pub Moved : Files → ℕ → ℤ → ℕ → Option (ℤ × Files) → Type 0
Moved t f z b r =
    ((b + pos_part z < neg_part z) × (r ≡ some (minus einval, t)))
    ⊎ ((n : ℕ) × (n + neg_part z ≡ b + pos_part z)
        × (r ≡ some (pos n, set_file t f (record (t.ftable f) { off = n }))))

-- What a seek does on a seekable file: it moves, fails, or faults where SEEK_END has no inode.
abbrev pub Placed : Files → ℕ → ℤ → ℕ → Option (ℤ × Files) → Type 0
Placed t f z whence r =
    ((b : ℕ) × CountsFrom t f whence b × Moved t f z b r)
    ⊎ ((2 < whence) × (r ≡ some (minus einval, t)))
    ⊎ ((whence ≡ 2) × ((t.ftable f).ip ≡ none) × (r ≡ none))

abbrev pub Sought : Files → ℕ → ℤ → ℕ → Option (ℤ × Files) → Type 0
Sought t f z whence r =
    (Unseekable t f × (r ≡ some (minus espipe, t))) ⊎ (Seekable t f × Placed t f z whence r)

-- The sum in 64 bits, where it is in range.
int64_sum :
    (b : ℕ) (z : ℤ)
    → IsInt64 z
    → b + pos_part z < 2 ^ 63
    → ((n : ℕ) × (int64 (b + word64 z) ≡ negsuc n) × (b + pos_part z < neg_part z))
      ⊎ ((n : ℕ) × (int64 (b + word64 z) ≡ pos n) × (n + neg_part z ≡ b + pos_part z))
int64_sum b (pos m) w s = inr (b + m, ground arith, omega arith)
int64_sum b (negsuc m) w s =
    let e : word64 (negsuc m) ≡ 2 ^ 64 - 1 - m = ground (arith, w.1) in
    let split : (b < suc m) ⊎ (suc m ≤ b) = omega arith in
    elim split [
      | inl h ↦
          let k : (b + (2 ^ 64 - 1 - m)) % 2 ^ 64 ≡ b + (2 ^ 64 - 1 - m) = omega (arith, w.1, h) in
          inl (m - b, rw (e, k) (ground (arith, w.1, h)), omega (arith, h))
      | inr h ↦
          let k : (b + (2 ^ 64 - 1 - m)) % 2 ^ 64 ≡ b - suc m = omega (arith, w.1, h, s) in
          inr (b - suc m, rw (e, k) (ground (arith, w.1, h, s)), omega (arith, h))
    ]

-- The last steps of a seek from the place `b`.
seek_to-Moved :
    (t : Files) (f : ℕ) (z : ℤ) (b : ℕ)
    → IsInt64 z
    → b + pos_part z < 2 ^ 63
    → Moved t f z b (some (seek_to t f (int64 (b + word64 z))))
seek_to-Moved t f z b w s = elim (int64_sum b z w s) [
  | inl (n, e, h) ↦ inl (h, ap (λ x. some (seek_to t f x)) e)
  | inr (n, e, h) ↦ inr (n, h, ap (λ x. some (seek_to t f x)) e)
]

-- For an offset of type int64_t, on a file whose base, its own offset or the size of its inode,
-- gives with it a sum below 2^63, `fileseek` returns -ESPIPE on a file without an offset. Else it
-- goes by the offset from the start, the file's offset or the end of its inode: to a place before
-- the start it returns -EINVAL, and else it sets the file's offset to the place and returns it. For
-- a base of another name it returns -EINVAL. With an error nothing changes. It faults exactly at
-- SEEK_END on a seekable file without an inode.
pub fileseek-Sought :
    (t : Files) (f : ℕ) (z : ℤ) (whence : ℕ)
    → IsInt64 z
    → (t.ftable f).off + pos_part z < 2 ^ 63
    → ((i : ℕ) → (t.inodes i).size + pos_part z < 2 ^ 63)
    → Sought t f z whence (fileseek t f z whence)
unfolding fileseek
fileseek-Sought t f z whence w so si = by_type (t.ftable f).type refl
  where
    rest : Option (Option ℕ) → Option (ℤ × Files)
    rest none = none
    rest (some none) = some (minus einval, t)
    rest (some (some base)) = some (seek_to t f (int64 (base + word64 z)))

    seek_end :
        (o : Option ℕ)
        → (t.ftable f).ip ≡ o
        → whence ≡ 2
        → Placed t f z whence
            (rest (elim o [ none ↦ none | some i ↦ some (some (t.inodes i).size) ]))
    seek_end none e h = inr (inr (h, e, refl))
    seek_end (some i) e h = inl (
      (t.inodes i).size,
      inr (inr (h, (i, e, refl))),
      seek_to-Moved t f z (t.inodes i).size w (si i),
    )

    placed : Placed t f z whence (rest (seek_base t f whence))
    placed = elim (Bool-cases (whence == 0)) [
      | inl a ↦
          let h : whence ≡ 0 = ground (arith, a) in
          simp a (inl (0, inl (h, refl), seek_to-Moved t f z 0 w (omega (arith, w.0))))
      | inr a ↦ elim (Bool-cases (whence == 1)) [
        | inl b ↦
            let h : whence ≡ 1 = ground (arith, b) in
            simp (a, b) (inl ((t.ftable f).off, inr (inl (h, refl)), seek_to-Moved t f z _ w so))
        | inr b ↦ elim (Bool-cases (whence == 2)) [
          | inl c ↦ simp (a, b, c) (seek_end (t.ftable f).ip refl (ground (arith, c)))
          | inr c ↦ simp (a, b, c) (inr (inl (ground (arith, a, b, c), refl)))
        ]
      ]
    ]

    rest_elim :
        (r : Option (Option ℕ))
        → (elim r [
          | none ↦ none
          | some none ↦ some (minus einval, t)
          | some (some base) ↦ some (seek_to t f (int64 (base + word64 z)))
        ])
          ≡ rest r
    rest_elim none = refl
    rest_elim (some none) = refl
    rest_elim (some (some base)) = refl

    run :
        (t.ftable f).type ≡ fd_inode
        → is_chr_file t f ≡ false
        → fileseek t f z whence ≡ rest (seek_base t f whence)
    run e c = simp (e, c, fileseek) (rest_elim (seek_base t f whence))

    chr :
        (o : Option ℕ)
        → (t.ftable f).ip ≡ o
        → is_chr_file t f ≡ true
        → (i : ℕ) × ((t.ftable f).ip ≡ some i) × ((t.inodes i).is_chr ≡ true)
    chr none q c = absurd (ground (arith, q, c))
    chr (some i) q c = (i, q, ground (arith, q, c))

    by_type : (y : FileType) → (t.ftable f).type ≡ y → Sought t f z whence (fileseek t f z whence)
    by_type fd_none e = inl (inr (inl e), simp (e, fileseek) refl)
    by_type fd_pipe e = inl (inl e, simp (e, fileseek) refl)
    by_type fd_inode e = elim (Bool-cases (is_chr_file t f)) [
      | inl c ↦ inl (inr (inr (chr (t.ftable f).ip refl c)), simp (e, c, fileseek) refl)
      | inr c ↦
          subst (λ r. Sought t f z whence r) (sym (run e c))
            (inr ((e, λ i q. ground (arith, c, q)), placed))
    ]

dropped : Files → ℕ → Files
dropped t f = set_file t f (record (t.ftable f) { refcnt = sub32 (t.ftable f).refcnt 1 })

fileclose-shared :
    (t : Files) (f : ℕ)
    → 1 < (t.ftable f).refcnt
    → (t.ftable f).refcnt < 2 ^ 31
    → fileclose t f ≡ some (dropped t f)
unfolding fileclose dropped
fileclose-shared t f h u = ground arith

-- A reference taken by `filedup` and dropped by `fileclose` leaves all as it was, for a count of 1
-- or more that is below INT_MAX.
pub filedup-fileclose :
    (t : Files) (f : ℕ)
    → 0 < (t.ftable f).refcnt
    → (t.ftable f).refcnt < 2 ^ 31 - 1
    → (t' : Files) × (filedup t f ≡ some t')
      × ((t'.ftable f).refcnt ≡ (t.ftable f).refcnt + 1)
      × (fileclose t' f ≡ some t)
unfolding filedup dropped
filedup-fileclose t f h u =
    let t1 = set_file t f (record (t.ftable f) { refcnt = add32 (t.ftable f).refcnt 1 }) in
    let same : dropped t1 f ≡ t = ap (λ g. record t { ftable = g }) (fun_ext λ j. ground arith) in
    (
      t1,
      ground arith,
      ground arith,
      fileclose-shared t1 f (ground arith) (ground arith) ∙ ap some same,
    )
