-- ===== src/Lib.antt =====
-- A verification library for the kernel of xv6_lab3, a C kernel in the style of Unix with exit
-- statuses, `waitpid`, a scheduler by priority, and stacks that grow on a page fault.
--
-- The parts and their files:
--
-- * Proc/ is xv6_lab3/proc.c and proc.h. `Proc.Table` has `struct proc` as the record `Proc`, the
--   table `ptable.proc` as a function from indices below NPROC, a pointer into it as an index, and
--   `wakeup1`. `Proc.Sched` is `scheduler`: one turn of its `for(;;)` is `round`, made of `pick` (the
--   loop for the highest priority, then the two search loops), `dispatch` (up to `swtch`) and
--   `retire` (behind it). `Proc.Life` is `allocproc`, `userinit`, `fork`, `exit`, `wait`, `waitpid`,
--   `growproc` and `sleep`; `Proc.Signal` is `kill`, `yield`, `getpriority` and `setpriority`.
--   `Proc.Invariant` is the invariant of the table, and `Proc.System` has all of them as the steps
--   of one system. What proc.c calls of vm.c, kalloc.c, file.c and fs.c is the record `Services`, of
--   which no theorem assumes any law.
-- * Log/ is xv6_lab3/log.c. `Log.Disk` has the operations that write the disk: `write_log`,
--   `write_head`, `install_trans`, `read_head`, `commit`, `recover_from_log`. `Log.Admission` has the
--   log in memory: `begin_op`, `end_op`, `log_write`.
-- * Pipe.antt is xv6_lab3/pipe.c: `pipewrite`, `piperead`, `pipeclose`.
-- * Kalloc.antt is xv6_lab3/kalloc.c: `kfree`, `kalloc` and `freerange`.
-- * File.antt is the reference counts of xv6_lab3/file.c: `filealloc`, `filedup`, `fileclose`.
-- * Cache.antt is xv6_lab3/bio.c: `binit`, `bget`, `brelse`, with the list of buffers from `head.next` on.
-- * Spinlock.antt is xv6_lab3/spinlock.c: `pushcli`, `popcli`, `acquire`, `release`, `holding`.
-- * Sleeplock.antt is xv6_lab3/sleeplock.c: `acquiresleep`, `releasesleep`, `holdingsleep`.
-- * Str.antt is xv6_lab3/string.c: all but `memset`, on a memory of bytes.
-- * Grep.antt is the matcher of xv6_lab3/grep.c, and `Grep.Regex` what its expressions mean.
-- * Fs/ is xv6_lab3/fs.c over the disk as a running transaction sees it. `Fs.Bitmap` is `balloc` and
--   `bfree`, `Fs.Bmap` is `bmap`, `Fs.Dinode` is `iupdate` with the reading part of `ilock`,
--   `Fs.Content` is `readi` and `writei`, and `Fs.Trunc` is `itrunc`. `Fs.Icache` is `iget`, `idup`,
--   `ialloc` and `iput`, where `iput` has the sleep lock of its inode from the start. `Fs.Dir` is
--   `dirlookup` and `dirlink`, whose loops run over the entries of the directory, and `Fs.Path` is
--   `skipelem`. The loops of `readi` and `writei` have one pass more than there are bytes to copy,
--   which is enough, since each pass copies one at least.
-- * Common.antt is what the parts share: Boolean tests, arrays with their search loop, C's `int`.
--
-- How they are modelled:
--
-- * State is passed explicitly. A function that sleeps in a loop is one pass of the loop, from when
--   it has its lock up to its return or its next sleep, and its result says which of the two comes;
--   so the passes of different callers interleave in any order. What stands between `acquire` and
--   `release` of a lock is one step, apart from Spinlock.antt itself. In `Proc.System`, `fork`, `exit`
--   and `setpriority`, which take their lock more than once or do more outside it, are one step too.
-- * A panic is `none`, or has no result. A return of -1 is `none`, `false` or a constructor.
-- * An `unsigned` or `uint` that can wrap is computed mod 2 ^ 32; pids are counted the same way, and
--   `Proc.System` follows the system as long as their counter does not wrap. A signed `int` that is
--   compared is a `ℤ`.
-- * A crash is a limit on the number of disk writes, the field `power` of a `Store`: once it is used
--   up, later writes do not reach the disk, and of the state after a crash only the disk is left. A
--   write of one block is atomic.
-- * Loops over a table or a list of blocks run over the number of entries that are left.
--
-- Not modelled: the virtual memory of vm.c, the locks of inodes and `namex` of fs.c, the disk driver (the
-- log takes `bread` as reading the cached or stored block), system call arguments, traps, boot code,
-- and the user programs other than grep; `swtch`, page table switches, and the fields `name` and
-- `context` of a process.
pub mod Common
pub mod Proc
pub mod Log
pub mod Pipe
pub mod Kalloc
pub mod File
pub mod Grep
pub mod Str
pub mod Sleeplock
pub mod Spinlock
pub mod Cache
pub mod Fs
