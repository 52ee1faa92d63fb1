-- ===== src/Base/Errno.antt =====
-- The numbers of kernel/include/errno.h that the models return.
use Prim.Native.Nat.{ℕ}

abbrev pub eperm : ℕ
eperm = 1

abbrev pub eintr : ℕ
eintr = 4

abbrev pub esrch : ℕ
esrch = 3

abbrev pub eio : ℕ
eio = 5

abbrev pub ebadf : ℕ
ebadf = 9

abbrev pub enomem : ℕ
enomem = 12

abbrev pub efault : ℕ
efault = 14

abbrev pub ebusy : ℕ
ebusy = 16

abbrev pub einval : ℕ
einval = 22

abbrev pub enotty : ℕ
enotty = 25

abbrev pub espipe : ℕ
espipe = 29

abbrev pub epipe : ℕ
epipe = 32

abbrev pub erestartsys : ℕ
erestartsys = 512

abbrev pub efbig : ℕ
efbig = 27

abbrev pub enospc : ℕ
enospc = 28

abbrev pub enoent : ℕ
enoent = 2

abbrev pub enametoolong : ℕ
enametoolong = 36
