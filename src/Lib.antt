-- ===== src/Lib.antt =====
-- Verification of octopos, an xv6-like kernel for RISC-V in Rust.
--
-- The kernel keeps its state in a few tables, each under a lock: the process table, the page
-- tables, the log, the pipes, the console, the inodes. A call works on such a table under its lock,
-- and may sleep in the middle and go on later; what a definition here does in one step is one
-- stretch of such a call under the lock, so that an order of steps is an interleaving of calls.
-- Code that panics returns `none`, or a constructor of a result type.
--
-- Base: Boolean tests, lists over the native numbers, stores as functions, results.
--
-- Log (kernel/src/log.rs): the write-ahead log. `LogInner` has the source's fields; `Bio` is the
-- part of the buffer cache and of the disk below it (`BCACHE.write`, `pin` and `unpin` of
-- kernel/src/buf.rs). Its `power` is the number of writes that still reach the disk, so that every
-- number is a point at which the machine stops. read_head, write_head, write_log, install_trans,
-- commit, recover_from_log, init, begin_op, end_op and write are the functions of those names.
-- Their loops recurse on the number of rounds left, which the source fixes before the loop.
-- Log/Header, Log/WriteLog, Log/Recovery and Log/Commit have the lemmas on one step each;
-- Log/Durable says what a well-formed log on a disk is, Log/Crash and Log/Reserve have the theorems
-- on crashes and on the space that begin_op reserves.
--
-- Buf (kernel/src/buf.rs): the table of the buffer cache and its ring: init, get, read, release,
-- pin and unpin. The array is a function on places, and the theorems keep every place that is read
-- below NBUF. The search for a buffer to recycle has as many rounds as there are buffers, which
-- Buf/Get shows to be enough. Buf/Ring has the ring as a list of places, Buf/Release, Buf/Get and
-- Buf/Init the operations on it. The contents of the buffers are not part of it: these are in Log,
-- as a store of blocks.
--
-- Proc (kernel/src/proc.rs): the process table as a list of `ProcInner`. set_tickets, min_pass,
-- alloc, free, the body of stride_scheduler, yield, sleep, wakeup, kill, pid_exists and getpinfo.
-- The body of the scheduler is cut at the context switch: `dispatch` before it, `switch_back` after
-- it. `rounds k` runs k rounds in which each process yields at once. Proc/Tickets, Proc/MinPass,
-- Proc/Schedule, Proc/Wakeup, Proc/Kill and Proc/Pids are about the operations; Proc/Fair and
-- Proc/Share about the shares of the CPU. The counter of pids wraps as PID_COUNT does. Registers,
-- memory and open files of a process are not in the model.
--
-- Sleep (kernel/src/sleeplock.rs): the sleep lock over that table. A step is one test of the loop
-- of lock, which takes the lock or goes to sleep, or the drop of a guard; Sleep/Steps has these in
-- any order, with any other steps that put nobody to sleep in the lock.
--
-- Family (kernel/src/proc.rs): parents and children over that table: fork, reparent, exit and wait,
-- one round of its loop. A call of each is one step, from the lock of the parents on; whether pages
-- can be had, or the status be copied out, are arguments. Family/Tree has the invariant of parents,
-- Family/Exit, Family/Wait and Family/Fork the calls; Family/Steps puts them together with the
-- steps of the scheduler (dispatch, normalisation, charge), yield, both ends of sleep, set_tickets,
-- wakeup and kill into one step relation, which counts the calls of fork, and Family/Kept and
-- Family/Orderly have its invariant.
--
-- Vm (kernel/src/vm.rs, with the constants of kernel/src/riscv.rs and the page counts of
-- kernel/src/kalloc.rs): page tables as trees of three levels: walk, walk_mut, walk_addr, map_pages
-- and unmap. An entry of the last level is its number, whose single bits are read and written by
-- division. The buddy allocator below Kmem is another crate's; `Phys` has what it will answer as a
-- list of pages, of which `none` is a null pointer. Vm/Supply says when a walk or a mapping runs
-- out of memory. Vm/Walk has the view of a table as a function from addresses to entries, Vm/Entry,
-- Vm/Pages, Vm/MapPages and Vm/Unmap the entries, the allocations and the two operations against
-- that view. Loops recurse on the number of pages, which the source fixes before the loop.
--
-- Uvm (kernel/src/vm.rs): the user tables over Vm: alloc, dealloc, copy, clear, vmfault and
-- copy_to. copy_to recurses on at most as many rounds as there are bytes, which is enough since
-- each copies one at least. Uvm/Faults is about page faults, Uvm/Share and Uvm/Fork about the copy
-- for fork, Uvm/Isolation about the two together, Uvm/CopyTo about the rounds of copy_to.
--
-- Pipe (kernel/src/pipe.rs): the ring buffer of a pipe, with counters that wrap on usize. User
-- memory is a function that a call takes: which byte can be copied in, or whether one can be copied
-- out. Pipe/Queue has the bytes that a pipe holds and its invariant, Pipe/Write and Pipe/Read the
-- two calls, Pipe/Fifo their sequences.
--
-- Console (kernel/src/console.rs): the circular input buffer with its counters `r`, `w` and `e`,
-- which wrap on usize: handle_interrupt, read by stretches, ioctl. Console/Input has the invariant
-- and the interrupt handler, Console/Read the reader. The loop that erases a line recurses on the
-- number of bytes between `w` and `e`, which it cannot exceed.
--
-- Line (user/src/line.rs): the line editor's buffer and cursor: insert, backspace, kill_line,
-- kill_word and the moves. backspace, kill_line and kill_word share one loop, which moves the bytes
-- from the cursor on to the left; it is `remove_left` here. Line/Shift has the loops, Line/Edit the
-- operations. The history and the drawing are not in the model.
--
-- Shell (user/bin/sh.rs): the tokenizer of the shell, on the list of characters that are left;
-- whether a character is white space is a parameter. The tokens are counted, and Shell/Tokens shows
-- that as many as there are characters are enough. The parser is not in the model.
--
-- Fs (kernel/src/fs.rs): directory entries (set_name, is_name_equal, lookup, link), path components
-- (next_component), and the reference counts of the inode table (get and dup). A directory is the
-- list of its entries. What `Inode::read`, `Inode::write` and `Inode::get` answer to link, errors
-- and short counts included, is an argument, `Calls`: their effects are in Inode and Inode/Disk,
-- and a write of one entry lies in one block. Fs/Names, Fs/Reads, Fs/Link, Fs/Paths and Fs/Inodes
-- are about these in turn.
--
-- Blocks (kernel/src/fs.rs): the free map: Block::alloc, free and zero. A block's contents are its
-- bits, as the buffer cache shows them. The loops recurse on the number of blocks of the map and of
-- bits of a block, which the source fixes. Blocks/Scan has the search, Blocks/FreeMap both
-- operations.
--
-- Inode (kernel/src/fs.rs): the contents of an inode, over the blocks of Blocks, with its lock
-- held: map, and the loops of read and write. The addresses in the inode are a function on places;
-- a block read as bytes or as addresses is its bits, eight to a byte, little-endian. `map_entry` is
-- the part of map behind the block of addresses, `fill` its test and allocation, which it has
-- twice. User memory is the number of bytes that can be copied before a fault; a write from kernel
-- memory that runs over the end of the block, which the source does not rule out, is `none`. The
-- loops have as many rounds as there are bytes, which is enough since each round but the last moves
-- one at least. Inode/Bytes is about bytes and addresses in a block, Inode/Slots has the view of an
-- inode as places with addresses, of which it owns the blocks, Inode/Grow and Inode/Fill one new
-- block, Inode/Map the whole of map; Inode/Contents and Inode/Round are about one round of a write,
-- Inode/Write about the loop; Inode/FileBytes and Inode/Read about the loop of read.
--
-- Inode/Disk (kernel/src/fs.rs): `InodeInner` and the operations on a whole inode: update, the load
-- of lock, read, write and trunc, with the 64 bytes of a `DiskInode` written out. A read cuts the
-- length of its buffer to a u32, as the source does. Inode/Disk/Encode is about update and lock,
-- Inode/Disk/Home has the invariant of a file, Inode/Disk/Write, Inode/Disk/Read and
-- Inode/Disk/Trunc the operations, Inode/Disk/Free the loops of trunc.
--
-- Files (kernel/src/file.rs): an entry of the table of open files: alloc, dup and close, with what
-- the last close releases. Files/Refs follows an entry over any sequence of dup and close.
-- Files/Chunks is the loop of File::write on an inode, over the write of Inode/Disk, each round a
-- transaction; its rounds are counted, since it may have no last one.
--
-- Message (kernel/src/message.rs): the message box, set_msg and get_msg, with their round trip in
-- Message/RoundTrip.
--
-- Not modelled are the spin lock, devices, traps, boot and the assembly (there is no state of the
-- kernel's own logic in them), and so far the allocation and the last put of an inode, directories
-- read through their inode, reads and writes through open files, the kernel's own page table, the
-- loading of programs, the rest of the shell and the other user programs.
pub mod Base
pub mod Blocks
pub mod Buf
pub mod Console
pub mod Family
pub mod Files
pub mod Fs
pub mod Inode
pub mod Line
pub mod Log
pub mod Message
pub mod Pipe
pub mod Proc
pub mod Shell
pub mod Sleep
pub mod Uvm
pub mod Vm
