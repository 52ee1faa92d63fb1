-- ===== src/Sbfs/Dir.antt =====
-- The directories of sbfs: a file of records of 16 bytes, an inode number and a name.
pub mod Search
pub mod Lookup
use sbunix.Base.{
  ℕ, zero, suc, ◌+◌, ◌*◌, ◌/◌, ◌%◌, ◌^◌, Bool, true, false, not, ◌&&◌, ◌||◌, Option, none, some,
  List, [], ◌∷◌, ◌++◌, ◌==◌, ltb, leb, if◌then◌else◌, ◌>>=◌, length, get_or, take, drop,
}
use sbunix.Base.Int.{ℤ, pos, negsuc, minus}
use sbunix.Base.Errno.{enametoolong, enospc, enoent, eio}
use sbunix.Log.{System}
use sbunix.Sbfs.{Superblock}
use sbunix.Sbfs.Inode.{Inode, ilock}
use sbunix.Sbfs.Read.{readi}
use sbunix.Sbfs.Write.{writei, sbfs_max_file_size}

abbrev pub dirsiz : ℕ
dirsiz = 14

-- `sizeof(struct sb_dirent)`
abbrev pub dirent_size : ℕ
dirent_size = 16

-- `de.inum` and the byte `i` of `de.name`.
abbrev pub dirent_inum : List ℕ → ℕ
dirent_inum de = get_or de 0 0 + get_or de 1 0 * 256

abbrev pub dirent_name : List ℕ → ℕ → ℕ
dirent_name de i = get_or de (2 + i) 0

-- `strncmp(de.name, name, n) == 0` from the byte `i` on; a name is its bytes before the terminator.
pub same_name : ℕ → ℕ → List ℕ → List ℕ → Bool
same_name zero i de name = true
same_name (suc n) i de name =
    let rest = same_name n (i + 1) de name in
    if not (dirent_name de i == get_or name i 0)
    then false
    else if dirent_name de i == 0
    then true
    else rest

-- An entry of the directory with this name, as `sbfs_dirlookup` and `sbfs_dirunlink` test it.
pub is_named : List ℕ → List ℕ → Bool
unfolding same_name
is_named name de = not (dirent_inum de == 0) && same_name dirsiz 0 de name

-- A free slot, as `sbfs_dirlink` tests it.
abbrev pub is_free : List ℕ → Bool
is_free de = dirent_inum de == 0

-- What a loop over the entries found: the offset and the bytes of the first that passes the test,
-- or the offset where it ended.
pub data Found : Type 0 where
  found : ℕ → List ℕ → Found
  ended : ℕ → Found

-- The loop over the entries from `off` on, with a round for each.
pub scan : ℕ → Superblock → System → Inode → (List ℕ → Bool) → ℕ → Option ((Found × Inode) × System)
scan zero sb s si test off = some ((Found.ended off, si), s)
scan (suc f) sb s si test off =
    if not (ltb off si.d.size) then some ((Found.ended off, si), s) else (do
      ((de, si'), s') ← readi sb s si off dirent_size
      if not (length de == dirent_size)
          then some ((Found.ended off, si'), s')
          else if test de
          then some ((Found.found off de, si'), s')
          else scan f sb s' si' test (off + dirent_size))

-- Enough rounds for all entries.
abbrev pub rounds : Inode → ℕ
rounds si = si.d.size / dirent_size + 1

-- `sbfs_dirlookup`, up to the `sbfs_iget` of the number: 0 if there is none.
pub dirlookup : Superblock → System → Inode → List ℕ → Option ((ℕ × Inode) × System)
unfolding scan is_named
dirlookup sb s sd name = do
  (sd', s1) ← ilock sb s sd
  if not (sd'.d.kind == 2) then some ((0, sd'), s1) else (do
    ((r, sd''), s2) ← scan (rounds sd') sb s1 sd' (is_named name) 0
    elim r [ found off de ↦ some ((dirent_inum de, sd''), s2) | ended off ↦ some ((0, sd''), s2) ])

-- `strncpy` into the zeroed name of 14 bytes, of which the last stays zero.
pub padded : ℕ → List ℕ → List ℕ
padded zero name = []
padded (suc n) [] = 0 ∷ padded n []
padded (suc n) (x ∷ xs) = x ∷ padded n xs

abbrev pub new_dirent : ℕ → List ℕ → List ℕ
new_dirent inum name = (inum % 2 ^ 16 % 256) ∷ (inum % 2 ^ 16 / 256) ∷ (padded 13 name ++ (0 ∷ []))

-- The new entry goes to `off`.
pub put_dirent : Superblock → ℕ → System → Inode → ℕ → List ℕ → Option ((ℤ × Inode) × System)
put_dirent sb now s sd off de = do
  ((r, sd'), s') ← writei sb now s sd off de
  some (
    (
      elim r [ pos n ↦ if n == dirent_size then pos 0 else minus enospc | negsuc n ↦ minus enospc ],
      sd',
    ),
    s',
  )

pub dirlink : Superblock → ℕ → System → Inode → List ℕ → ℕ → Option ((ℤ × Inode) × System)
unfolding scan put_dirent padded
dirlink sb now s sd name inum =
    if length name == 0 || leb dirsiz (length name) then some ((minus enametoolong, sd), s) else (do
      (sd', s1) ← ilock sb s sd
      ((r, sd''), s2) ← scan (rounds sd') sb s1 sd' is_free 0
      elim r [
        | found off de ↦ put_dirent sb now s2 sd'' off (new_dirent inum name)
        | ended off ↦
            if ltb sbfs_max_file_size (sd''.d.size + dirent_size)
            then some ((minus enospc, sd''), s2)
            else put_dirent sb now s2 sd'' sd''.d.size (new_dirent inum name)
      ])

-- The entry at `off` is cleared.
pub clear_dirent : Superblock → ℕ → System → Inode → ℕ → Option ((ℤ × Inode) × System)
unfolding padded
clear_dirent sb now s sd off = do
  ((r, sd'), s') ← writei sb now s sd off (padded dirent_size [])
  some ((elim r [ pos n ↦ if ltb 0 n then pos 0 else minus eio | negsuc n ↦ minus eio ], sd'), s')

pub dirunlink : Superblock → ℕ → System → Inode → List ℕ → Option ((ℤ × Inode) × System)
unfolding scan is_named clear_dirent
dirunlink sb now s sd name = do
  (sd', s1) ← ilock sb s sd
  ((r, sd''), s2) ← scan (rounds sd') sb s1 sd' (is_named name) 0
  elim r [
    | found off de ↦ clear_dirent sb now s2 sd'' off
    | ended off ↦ some ((minus enoent, sd''), s2)
  ]
