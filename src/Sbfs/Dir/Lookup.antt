-- ===== src/Sbfs/Dir/Lookup.antt =====
-- `sbfs_dirlookup` finds the number of the first entry with the name.
use sbunix.Base.{
  ℕ, ◌^◌, ◌≤◌, ◌<◌, ◌≡◌, ◌≢◌, refl, sym, ap, ap₂, ◌∙◌, ◌⊎◌, inl, inr, Bool, not, ◌&&◌, true, false,
  some, List, [], ◌∷◌, arith, ◌==◌, length, zero, suc, ◌+◌, ◌*◌, get_or, drop, Bool-cases, eq_of_==,
  if◌then◌else◌, subst,
}
use sbunix.Bio.{Block}
use sbunix.Bio.View.{view}
use sbunix.Log.{System}
use sbunix.Log.Transaction.{Open}
use sbunix.Sbfs.{Superblock}
use sbunix.Sbfs.Quiet.{Quiet}
use sbunix.Sbfs.Bitmap.Alloc.{Laid}
use sbunix.Sbfs.Inode.{Inode, Dinode, ilock}
use sbunix.Sbfs.Inode.Table.{ilock-valid}
use sbunix.Sbfs.Read.Walk.{Mapped}
use sbunix.Sbfs.Dir.{Found, rounds, is_named, same_name, dirent_name, dirent_inum, dirlookup}
use sbunix.Sbfs.Dir.Search.{entry, Failing, Scanned, scan-Scanned}

-- The text of an array of `n` bytes from the byte `i` on: those before the first zero.
abbrev pub text_from : ℕ → ℕ → (ℕ → ℕ) → List ℕ
text_from zero i f = []
text_from (suc n) i f = let rest = text_from n (i + 1) f in if f i == 0 then [] else f i ∷ rest

-- An entry in use whose name is the text of the first 14 bytes of `name`.
abbrev pub Named : List ℕ → List ℕ → Type 0
Named name de =
    (dirent_inum de ≢ 0) × (text_from 14 0 (dirent_name de) ≡ text_from 14 0 (λ i. get_or name i 0))

same_name-text :
    (n i : ℕ) (de name : List ℕ)
    → same_name n i de name ≡ true
    → text_from n i (dirent_name de) ≡ text_from n i (λ j. get_or name j 0)
unfolding same_name
same_name-text zero i de name e = refl
same_name-text (suc n) i de name e = elim (Bool-cases (dirent_name de i == get_or name i 0)) [
  | inr t ↦ absurd (ground arith)
  | inl t ↦
      let q : dirent_name de i ≡ get_or name i 0 = eq_of_== _ _ t in
      elim (Bool-cases (dirent_name de i == 0)) [
        | inl z ↦ ground (arith, z, q)
        | inr z ↦
            let w : (get_or name i 0 == 0) ≡ false = ground (arith, z, q) in
            rw (z, w)
              (ap₂ (λ c s. c ∷ s) q (same_name-text n (i + 1) de name (ground (arith, e, t, z))))
      ]
]

text-same_name :
    (n i : ℕ) (de name : List ℕ)
    → text_from n i (dirent_name de) ≡ text_from n i (λ j. get_or name j 0)
    → same_name n i de name ≡ true
unfolding same_name
text-same_name zero i de name e = refl
text-same_name (suc n) i de name e =
    both (dirent_name de i) (get_or name i 0) _ _ _ e (text-same_name n (i + 1) de name)
  where
    full : (a : ℕ) (r : List ℕ) → (if suc a == 0 then [] else suc a ∷ r) ≡ suc a ∷ r
    full a r = ground arith

    both :
        (a b : ℕ) (r q : List ℕ) (t : Bool)
        → (if a == 0 then [] else a ∷ r) ≡ (if b == 0 then [] else b ∷ q)
        → (r ≡ q → t ≡ true)
        → (if not (a == b) then false else if a == 0 then true else t) ≡ true
    both zero zero r q t e f = refl
    both zero (suc b) r q t e f = absurd (grind (arith, ap length e))
    both (suc a) zero r q t e f = absurd (grind (arith, ap length e))
    both (suc a) (suc b) r q t e f =
        let g : suc a ∷ r ≡ suc b ∷ q = sym (full a r) ∙ e ∙ full b q in
        let h : a ≡ b = omega (arith, ap (λ l. get_or l 0 0) g) in
        ground (arith, h, f (ap (drop 1) g))

is_named-Named : (name de : List ℕ) → is_named name de ≡ true → Named name de
unfolding is_named
is_named-Named name de h = (ground (arith, h), same_name-text 14 0 de name (ground (arith, h)))

not_Named : (name de : List ℕ) → is_named name de ≡ false → ¬ Named name de
unfolding is_named
not_Named name de h (used, same) =
    clash (dirent_inum de) (same_name 14 0 de name) used h (text-same_name 14 0 de name same)
  where
    clash : (k : ℕ) (b : Bool) → k ≢ 0 → (not (k == 0) && b) ≡ false → b ≡ true → ⊥
    clash k b used h t = ground arith

-- The first `m` entries are complete and none has the name.
abbrev pub NoneNamed : (ℕ → Block) → Dinode → List ℕ → ℕ → Type 0
NoneNamed v d name m =
    (j : ℕ) → j < m → (length (entry v d (j * 16)) ≡ 16) × (¬ Named name (entry v d (j * 16)))

-- The answer is the number of the first entry with the name. The answer 0 means that no entry
-- before the end, or before an incomplete one, has the name.
abbrev pub Answer : (ℕ → Block) → Dinode → List ℕ → ℕ → Type 0
Answer v d name k =
    ((k ≢ 0)
      × ((m : ℕ) × (m * 16 < d.size)
          × (k ≡ dirent_inum (entry v d (m * 16)))
          × (length (entry v d (m * 16)) ≡ 16)
          × Named name (entry v d (m * 16))
          × NoneNamed v d name m))
    ⊎ ((k ≡ 0)
        × ((m : ℕ) × ((d.size ≤ m * 16) ⊎ (length (entry v d (m * 16)) ≢ 16))
            × NoneNamed v d name m))

Failing-NoneNamed :
    (v : ℕ → Block) (d : Dinode) (name : List ℕ) (m o : ℕ)
    → o ≡ 0 + m * 16
    → Failing v d (is_named name) 0 o
    → NoneNamed v d name m
Failing-NoneNamed v d name m o e f = λ j h.
    let z : 0 + j * 16 ≡ j * 16 = omega arith in
    let g = f j (omega (arith, h, e)) in
    subst (λ a. (length (entry v d a) ≡ 16) × (¬ Named name (entry v d a))) z
      (g.0, not_Named name (entry v d (0 + j * 16)) g.1)

-- Inside a transaction, on an image in the right order, for a valid copy of a known directory whose
-- addresses stay out of the log, `sbfs_dirlookup` does not panic and changes nothing. The entries
-- are the records of 16 bytes at the multiples of 16 of the directory's contents. It finds the
-- number of the first entry in use whose name, up to its terminator, is the text of the first 14
-- bytes of the name that is looked for; this number is not 0, and the entries before it are
-- complete. Or it finds 0, and there is no such entry before the size or before the first
-- incomplete entry.
pub dirlookup-Answer :
    (sb : Superblock) (s : System) (sd : Inode) (name : List ℕ)
    → Open s
    → Laid sb s.log
    → sd.inum < sb.ninodes
    → sd.valid ≡ true
    → sd.d.kind ≡ 2
    → sd.d.size < 2 ^ 32
    → Mapped s.log (view s.cache) sd.d
    → (k : ℕ) × ((s' : System) × (dirlookup sb s sd name ≡ some ((k, sd), s'))
        × Quiet s s'
        × Answer (view s.cache) sd.d name k)
unfolding dirlookup
dirlookup-Answer sb s sd name o laid known ok dir width m =
    go (scan-Scanned (rounds sd) sb s sd (is_named name) 0 (omega arith) o laid known ok width m)
  where
    locked : ilock sb s sd ≡ some (sd, s)
    locked = ilock-valid sb s sd ok

    is_dir : (sd.d.kind == 2) ≡ true
    is_dir = ground (arith, dir)

    v : ℕ → Block
    v = view s.cache

    first :
        (off : ℕ) (de : List ℕ) (m : ℕ)
        → off ≡ 0 + m * 16
        → off < sd.d.size
        → de ≡ entry v sd.d off
        → length de ≡ 16
        → is_named name de ≡ true
        → Failing v sd.d (is_named name) 0 off
        → (dirent_inum de ≢ 0)
          × ((m : ℕ) × (m * 16 < sd.d.size)
              × (dirent_inum de ≡ dirent_inum (entry v sd.d (m * 16)))
              × (length (entry v sd.d (m * 16)) ≡ 16)
              × Named name (entry v sd.d (m * 16))
              × NoneNamed v sd.d name m)
    first off de m ek lt ed full named f =
        let at : de ≡ entry v sd.d (m * 16) = ed ∙ ap (λ a. entry v sd.d a) (omega (arith, ek)) in
        let use_it = is_named-Named name de named in
        (
          use_it.0,
          (
            m,
            omega (arith, lt, ek),
            ap dirent_inum at,
            ap length (sym at) ∙ full,
            subst (Named name) at use_it,
            Failing-NoneNamed v sd.d name m off ek f,
          ),
        )

    none_left :
        (off m : ℕ)
        → off ≡ 0 + m * 16
        → (sd.d.size ≤ off) ⊎ (length (entry v sd.d off) ≢ 16)
        → Failing v sd.d (is_named name) 0 off
        → (m : ℕ) × ((sd.d.size ≤ m * 16) ⊎ (length (entry v sd.d (m * 16)) ≢ 16))
          × NoneNamed v sd.d name m
    none_left off m ek end f =
        let at : off ≡ m * 16 = omega (arith, ek) in
        (
          m,
          subst (λ a. (sd.d.size ≤ a) ⊎ (length (entry v sd.d a) ≢ 16)) at end,
          Failing-NoneNamed v sd.d name m off ek f,
        )

    go :
        Scanned (rounds sd) sb s sd (is_named name) 0
        → (k : ℕ) × ((s' : System) × (dirlookup sb s sd name ≡ some ((k, sd), s'))
            × Quiet s s'
            × Answer (view s.cache) sd.d name k)
    go (Found.found off de, (s', e, q, (lt, ed, full, named, (m, ek), f))) = (
      dirent_inum de,
      (s', rw (locked, is_dir, e) refl, q, inl (first off de m ek lt ed full named f)),
    )
    go (Found.ended off, (s', e, q, (end, (m, ek), f))) =
        (0, (s', rw (locked, is_dir, e) refl, q, inr (refl, none_left off m ek end f)))
