-- ===== src/File.antt =====
-- kernel/file.c, the table of open files, and `pipe_alloc` of kernel/pipe.c. A file, a pipe and an
-- inode are named by their indices; `none` for the result of an operation is a panic. The
-- operations of an inode are arguments: what they return, and what `release` does, is the file
-- system's.
pub mod Seek
mod Tests
use sbunix.Base.{
  ℕ, zero, suc, ◌+◌, ◌%◌, ◌^◌, ◌&&◌, ◌||◌, Bool, true, false, not, Option, none, some, List, [],
  ◌∷◌, ◌++◌, ◌==◌, ltb, leb, if◌then◌else◌, update, add32, sub32, ◌>>=◌,
}
use sbunix.Base.Int.{ℤ, pos, negsuc, minus, is_negative, pos_part, word64, int64}
use sbunix.Base.Errno.{enomem, ebadf, espipe, einval}
use sbunix.Pipe.{Pipe, pipe_close}

abbrev pub nfile : ℕ
nfile = 256

abbrev pub npipe : ℕ
npipe = 8

pub data FileType : Type 0 where
  fd_none : FileType
  fd_inode : FileType
  fd_pipe : FileType

-- `struct file`, less its path. `refcnt` is the 32 bits of an `int`, which wrap.
pub record File : Type 0 where
  pub type : FileType
  pub refcnt : ℕ
  pub readable : Bool
  pub writable : Bool
  pub append : Bool
  pub off : ℕ
  pub ip : Option ℕ
  pub pipe : Option ℕ

-- The fields of `struct inode` that the open files use; `refcnt` is as in a file.
pub record Inode : Type 0 where
  pub refcnt : ℕ
  pub size : ℕ
  pub is_chr : Bool
  pub has_read : Bool
  pub has_write : Bool
  pub has_release : Bool

-- The tables, the inodes whose `release` was called, the last one first, and the number of calls of
-- `proc_wakeup_chan`.
pub record Files : Type 0 where
  pub ftable : ℕ → File
  pub pipes : ℕ → Pipe
  pub inodes : ℕ → Inode
  pub released : List ℕ
  pub wakeups : ℕ

abbrev pub set_file : Files → ℕ → File → Files
set_file t f x = record t { ftable = update t.ftable f x }

abbrev pub set_pipe : Files → ℕ → Pipe → Files
set_pipe t p x = record t { pipes = update t.pipes p x }

-- `refcnt < 1`, for an `int`.
abbrev pub is_bad_refcnt : ℕ → Bool
is_bad_refcnt r = r == 0 || leb (2 ^ 31) r

pub inode_get : Files → Option ℕ → Files
inode_get t none = t
inode_get t (some i) = record t {
  inodes = update t.inodes i (record (t.inodes i) { refcnt = add32 (t.inodes i).refcnt 1 });
}

pub inode_put : Files → Option ℕ → Files
inode_put t none = t
inode_put t (some i) =
    let t' = record t {
      inodes = update t.inodes i (record (t.inodes i) { refcnt = sub32 (t.inodes i).refcnt 1 });
    } in
    if ((t'.inodes i).refcnt == 0) && (t.inodes i).has_release
    then record t' { released = i ∷ t'.released }
    else t'

abbrev pub is_none : FileType → Bool
is_none fd_none = true
is_none fd_inode = false
is_none fd_pipe = false

-- The first of the `n` entries from `i` on that passes.
unfoldable pub first_from : ℕ → ℕ → (ℕ → Bool) → Option ℕ
first_from zero i f = none
first_from (suc n) i f = let rest = first_from n (i + 1) f in if f i then some i else rest

-- `none` is the null pointer.
pub filealloc : Files → Option (ℕ × Files)
filealloc t = elim (first_from nfile 0 (λ i. is_none (t.ftable i).type)) [
  | none ↦ none
  | some i ↦
      some (i, set_file t i (record (t.ftable i) { type = fd_inode; refcnt = 1; append = false }))
]

pub filedup : Files → ℕ → Option Files
filedup t f =
    if is_bad_refcnt (t.ftable f).refcnt
    then none
    else some (set_file t f (record (t.ftable f) { refcnt = add32 (t.ftable f).refcnt 1 }))

-- The release of the last reference. A pipe file without a pipe is a fault.
pub file_release : Files → ℕ → Option Files
unfolding inode_put
file_release t f = elim (t.ftable f).type [
  | fd_pipe ↦ elim (t.ftable f).pipe [
    | none ↦ none
    | some p ↦
        let o = pipe_close (t.pipes p) (t.ftable f).writable in
        let t' = record (set_pipe t p o.pipe) { wakeups = t.wakeups + o.wakeups } in
        some (set_file t' f (record (t'.ftable f) { pipe = none; type = fd_none }))
  ]
  | fd_inode ↦
      let t' = inode_put t (t.ftable f).ip in
      some (set_file t' f (record (t'.ftable f) { ip = none; type = fd_none }))
  | fd_none ↦
      let t' = inode_put t (t.ftable f).ip in
      some (set_file t' f (record (t'.ftable f) { ip = none; type = fd_none }))
]

pub fileclose : Files → ℕ → Option Files
unfolding file_release
fileclose t f =
    let t' = set_file t f (record (t.ftable f) { refcnt = sub32 (t.ftable f).refcnt 1 }) in
    if is_bad_refcnt (t.ftable f).refcnt
    then none
    else if (t'.ftable f).refcnt == 0
    then file_release t' f
    else some t'

-- A pipe of the pool with both ends closed, zeroed.
pub pipe_pool_alloc : Files → Option (ℕ × Files)
pipe_pool_alloc t =
    elim (first_from npipe 0 (λ i. not (t.pipes i).readopen && not (t.pipes i).writeopen)) [
      | none ↦ none
      | some i ↦ some (
        i,
        set_pipe t i
            (record { bytes = λ j. 0; nread = 0; nwrite = 0; readopen = false; writeopen = false }),
      )
    ]

-- The file that `pipe_alloc` makes for an end of the pipe.
abbrev pub pipe_file : File → ℕ → Bool → File
pipe_file f p writable = record f {
  type = fd_pipe;
  readable = not writable;
  writable = writable;
  pipe = some p;
  ip = none;
}

-- The result, the tables, and the files of the two ends when it is 0.
pub pipe_alloc : Files → Option (ℤ × Files × Option (ℕ × ℕ))
unfolding filealloc fileclose pipe_pool_alloc
pipe_alloc t = elim (pipe_pool_alloc t) [
  | none ↦ some (minus enomem, t, none)
  | some (p, t1) ↦ elim (filealloc t1) [
    | none ↦ some (minus enomem, t1, none)
    | some (rf, t2) ↦ elim (filealloc t2) [
      | none ↦ elim (fileclose t2 rf) [ none ↦ none | some t3 ↦ some (minus enomem, t3, none) ]
      | some (wf, t3) ↦
          let t4 =
            set_pipe t3 p
              (record (t3.pipes p) { readopen = true; writeopen = true; nread = 0; nwrite = 0 }) in
          let t5 = set_file t4 rf (pipe_file (t4.ftable rf) p false) in
          some (pos 0, set_file t5 wf (pipe_file (t5.ftable wf) p true), some (rf, wf))
    ]
  ]
]

-- What a read or write goes on with: an error, the pipe, or the inode at an offset.
pub data Route : Type 0 where
  fails : ℕ → Route
  to_pipe : Option ℕ → Route
  to_inode : ℕ → ℕ → Route

abbrev pub route : Files → ℕ → Bool → (Inode → Bool) → Route
route t f allowed has_op =
    let x = t.ftable f in
    if not allowed then fails ebadf else elim x.type [
      | fd_pipe ↦ to_pipe x.pipe
      | fd_none ↦ fails ebadf
      | fd_inode ↦ elim x.ip [
        | none ↦ fails ebadf
        | some i ↦ if has_op (t.inodes i) then to_inode i x.off else fails ebadf
      ]
    ]

-- How `fileread` and `filewrite` begin; an appending file goes to the end first.
pub fileread_route : Files → ℕ → Route
fileread_route t f = route t f (t.ftable f).readable (λ (i : Inode). i.has_read)

pub filewrite_route : Files → ℕ → Route
filewrite_route t f = elim (route t f (t.ftable f).writable (λ (i : Inode). i.has_write)) [
  | fails e ↦ fails e
  | to_pipe p ↦ to_pipe p
  | to_inode i off ↦ to_inode i (if (t.ftable f).append then (t.inodes i).size else off)
]

-- How `filepread` and `filepwrite` begin, at the offset `off` of the call.
pub positioned_route : Files → ℕ → Bool → (Inode → Bool) → ℕ → Route
positioned_route t f allowed has_op off =
    let x = t.ftable f in
    if not allowed then fails ebadf else elim x.type [
      | fd_pipe ↦ fails espipe
      | fd_none ↦ fails ebadf
      | fd_inode ↦ elim x.ip [
        | none ↦ fails ebadf
        | some i ↦
            if not (has_op (t.inodes i))
            then fails ebadf
            else if (t.inodes i).is_chr
            then fails espipe
            else to_inode i off
      ]
    ]

-- `f->off += r` after an inode operation at `off` that returned `r`.
pub advance_off : Files → ℕ → ℕ → ℤ → Files
advance_off t f off r = set_file t f (record (t.ftable f) { off = (off + pos_part r) % 2 ^ 64 })

-- `none` is the fault of SEEK_END on a file without an inode.
abbrev pub seek_base : Files → ℕ → ℕ → Option (Option ℕ)
seek_base t f whence =
    if whence == 0
    then some (some 0)
    else if whence == 1
    then some (some (t.ftable f).off)
    else if whence == 2
    then elim (t.ftable f).ip [ none ↦ none | some i ↦ some (some (t.inodes i).size) ]
    else some none

abbrev pub is_chr_file : Files → ℕ → Bool
is_chr_file t f = elim (t.ftable f).ip [ none ↦ false | some i ↦ (t.inodes i).is_chr ]

-- The last steps of `fileseek`.
abbrev pub seek_to : Files → ℕ → ℤ → ℤ × Files
seek_to t f (negsuc n) = (minus einval, t)
seek_to t f (pos n) = (pos n, set_file t f (record (t.ftable f) { off = n }))

-- `off` is an `int64_t`, and so is the sum.
pub fileseek : Files → ℕ → ℤ → ℕ → Option (ℤ × Files)
fileseek t f off whence = elim (t.ftable f).type [
  | fd_pipe ↦ some (minus espipe, t)
  | fd_none ↦ some (minus espipe, t)
  | fd_inode ↦ if is_chr_file t f then some (minus espipe, t) else elim (seek_base t f whence) [
    | none ↦ none
    | some none ↦ some (minus einval, t)
    | some (some base) ↦ some (seek_to t f (int64 (base + word64 off)))
  ]
]
