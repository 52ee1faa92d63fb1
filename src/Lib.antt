-- ===== src/Lib.antt =====
-- The core of the sbunix kernel and of its C library.
--
-- Each file models the source file that its first comment names, by paths from the repository's
--   root. A function of the source is a definition of the same name, over the state that it
--   reads and changes; `none` is a panic or a fault, and an error return is a value. Numbers are
--   natural numbers; where the source counts in a machine word, the wrap-around is written out.
--
-- - Base: Booleans, lists, sets of numbers, machine words, the signed integers, the errno
--   values.
-- - Log: kernel/log.c, the write-ahead log. Its client is the file system, which brackets its
--   changes by `begin_op` and `end_op` and announces each changed buffer by `log_write`; it
--   works on Bio. A cache that the log can work with has two buffers that can be evicted and no
--   dirty block of the log, and the log ends below the block 2^32.
-- - Bio: kernel/bio.c, the buffer cache over the disk. The disk driver is one block read or
--   written whole, and the history of the writes is kept, so that a crash after any of them can
--   be stated. The locking by the interrupt bit is not modelled: there is one hart, and the
--   model runs one function at a time.
-- - Sbfs: kernel/fs/sbfs.c, the file system on disk, over Bio and Log: the bitmap of the data
--   blocks, the table of inodes, sbfs_readi and sbfs_writei, the entries of a directory, the
--   inode cache. The names are the source's without `sbfs_`. The view of a block is the data of
--   the buffer that caches it or else of the disk; the room of a transaction is for how many
--   more blocks it has entries, log blocks and buffers. The loops run on fuel, a round for each
--   byte: every round reads or writes a byte at least.
-- - Memory: kernel/pmem.c and kernel/page_ref.c, the free pages and their reference counts. The
--   walks over the free list run on fuel; one round for each page and one more is enough, and
--   the theorems about them say so.
-- - Pipe: kernel/pipe.c on one pipe. What other processes do while the caller sleeps is an
--   argument, a list of the changes that they make before each wake.
-- - Vma: the list operations of kernel/vma.c, on the list as a list of records.
-- - Signal: kernel/signal.c, the pending, blocked and handled signals of the processes of the
--   list.
-- - Malloc: libc/malloc.c, malloc and free over the list of free chunks.
-- - File: kernel/file.c, the table of open files, and the allocation of a pipe. The counts of
--   references are ints, taken as their 32 bits, which wrap; offsets are words of 64 bits.
-- - Text: libc/string.c, libc/string_ext.c and libc/ctype.c, on a string as the list of its
--   bytes before the terminator, and on memory as its bytes by address where ranges may overlap.
--
-- Not modelled: the drivers, the trap and boot code, the system call table, what makes, empties
--   and removes the files of sbfs, the other file systems, page tables, the scheduler, and the
--   parts of the C library that only call the kernel.
pub mod Base
pub mod Log
pub mod Bio
pub mod Memory
pub mod Pipe
pub mod File
pub mod Malloc
pub mod Sbfs
pub mod Signal
pub mod Text
pub mod Vma
