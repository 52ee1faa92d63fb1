-- ===== src/File/Tests.antt =====
-- kernel/file.c at concrete inputs.
use sbunix.Base.{◌+◌, ◌≡◌, true, false, arith, some, none, []}
use sbunix.Base.Int.{pos}
use sbunix.File.{Files, fd_inode, fileseek, filedup, fileclose}
use sbunix.File.Seek.{Sought, fileseek-Sought, filedup-fileclose}

-- Every file is open on the inode 0 once.
abbrev opened : Files
opened = record {
  ftable = λ i. record {
    type = fd_inode;
    refcnt = 1;
    readable = true;
    writable = true;
    append = false;
    off = 10;
    ip = some 0;
    pipe = none;
  };
  pipes =
      λ i. record { bytes = λ j. 0; nread = 0; nwrite = 0; readopen = false; writeopen = false };
  inodes = λ i. record {
    refcnt = 1;
    size = 100;
    is_chr = false;
    has_read = true;
    has_write = true;
    has_release = false;
  };
  released = [];
  wakeups = 0;
}

fileseek-Sought_example : Sought opened 3 (pos 5) 1 (fileseek opened 3 (pos 5) 1)
fileseek-Sought_example =
    fileseek-Sought opened 3 (pos 5) 1 (omega arith, omega arith) (omega arith) (λ i. omega arith)

filedup-fileclose_example :
    (t' : Files) × (filedup opened 3 ≡ some t')
    × ((t'.ftable 3).refcnt ≡ 1 + 1)
    × (fileclose t' 3 ≡ some opened)
filedup-fileclose_example = filedup-fileclose opened 3 (omega arith) (omega arith)
