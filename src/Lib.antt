-- ===== src/Lib.antt =====
-- The operating-systems laboratory programs of this repository: a model of their core and its proofs.
--
-- The program's parts. weensyos1 (MiniprocOS) and weensyos2 (SchedOS) are two small kernels with a
-- process table, system calls and a scheduler, over one library of memory functions. lab3 is a file
-- system (OSPFS) for Linux on a disk image in memory. lab2 is a RAM disk with read and write locks,
-- lab1 a shell, lab4 a peer-to-peer client. ospfsformat of lab3 makes the disk image that the file
-- system is given; the other parts do not call each other.
--
-- Which file models which part:
--   Prelude           shared notation, Boolean tests on ℕ, tables, bits of a word, a small ℤ
--   Weensy            weensyos1/lib.c (weensyos2/lib.c is a copy): memcpy, memmove, memset, strlen,
--                     strnlen; Weensy/Registers: registers_t of x86.h and procstate_t
--   Mpos              weensyos1/mpos-kern.c and mpos-kern.h: Mpos/Process has process_t, proc_array
--                     and current, Mpos/Kernel schedule, do_fork, copy_stack, do_newthread and
--                     interrupt with one function per system call, Mpos/Boot start
--   Schedos           weensyos2/schedos-kern.c and schedos-kern.h: Schedos/Process has process_t and
--                     the kernel's variables, Schedos/Kernel schedule with one function per value of
--                     scheduling_algorithm and interrupt, Schedos/Boot start
--   Shell             lab1/execute-command.c, print-command.c, main.c and command-internals.h:
--                     Shell/Syntax has the command trees, Shell/System the system calls as a
--                     parameter, Shell/Execute one function per kind of command and the lines of the
--                     profile, Shell/Print the printed tree, Shell/Main the loop over a script,
--                     Shell/Parse lab1/read-command.c: its words, the kind of the next command, one
--                     function per kind of command, and the stream of a script
--   Osprd             lab2/osprd.c: Osprd/Device has the lock fields of osprd_info_t and osprd_ioctl
--                     and osprd_close_last, cut where other processes can run; Osprd/Request
--                     osprd_process_request, with end_request as a parameter
--   Peer              lab4/osppeer.c: Peer/Buffer has the bounded buffer of task_t, with the answers of
--                     read and write as parameters, Peer/Queue the queue of bytes that it keeps
--   Ospfs             lab3/ospfsmod.c and lab3/ospfs.h: Ospfs/Disk has the layout of the disk,
--                     Ospfs/Bitvector the bitmap, Ospfs/Alloc allocate_block and free_block,
--                     Ospfs/Index the way from a file's block to its pointer, Ospfs/Resize add_block,
--                     remove_block and change_size, Ospfs/Read ospfs_read and Ospfs/Write
--                     ospfs_write, with the copies to and from the user as parameters, Ospfs/Dir
--                     the directory entries and every operation on names, links and attributes
--   Format            lab3/ospfsformat.c, the program that makes the image of a disk: Format/Blocks has the
--                     words of a block and their byte order, Format/Cache the program's variables and
--                     the cache with getblk, putblk and flushb (below it flushdisk), Format/Image
--                     opendisk and finishfs, Format/Inodes storeblk, allocinode, allocdirentry and the
--                     hard links, Format/Files readn, writefile, addsymlink and writesymlink,
--                     Format/Program writedirectory and main
--
-- State and representation. The file system's memory is a function from word addresses to 32-bit
-- words; block b starts at word (b * 1024 % 2^32) / 4, and an inode is the address of its first
-- word. `uint32_t` arithmetic wraps by `% 2 ^ 32`. Block numbers are below 2^22 in the theorems on
-- sound disks, so that the address of a block does not wrap. A kernel is the process table as a
-- function of the index, the index of the current process, and memory as a function from addresses
-- to bytes. `run` does not return: a handler's result is `running` with the kernel that the process
-- is left with, or `spinning` for an endless loop. Signed fields hold their 32-bit pattern. In the
-- formatter a pointer to a block is the index of its entry in the cache, a pointer to an inode or to
-- a directory entry such an index with a place in the block; an abort, and a fault, is `none`. The
-- files and directories of the host are a parameter, as are the digests of MD5 and what strtol makes
-- of an argument; the host is a little-endian machine of 32 bits, and the counter of the cache's
-- uses is not bounded. In the kernels the process table is kept apart from the memory that the
-- stacks and the console stand in: the theorems say where the kernel writes, and take it that a
-- process that forks has its stack pointer in its stack and that no character is printed past the
-- console's addresses, which the code does not look after. Every system call that the shell makes
-- returns: a process that waits for ever is not modelled. The words of a script have fewer than 24
-- bytes, so that the zero byte after a word is in the chunk of memory that malloc has given for it;
-- a longer word ends the parser as an overrun.
--
-- Loops and fuel. The schedulers' `while (1)` runs on fuel, and one turn round the table (16 rounds for
-- MiniprocOS, 5 for SchedOS) is enough in the theorems, whose loops look at each process once. The loops
-- of change_size run on fuel above 65801, the largest number of blocks in the theorem; each round
-- changes the number of blocks by one. ospfs_read takes more fuel than the bytes asked for, since each
-- round copies at least one, and ospfs_write more than the bytes given. The loops over a directory have
-- as many rounds as the directory has entries. The executor of lab1 runs on fuel for the depth of
-- the tree and the rounds of its loops, its parser on fuel for the depth of the commands and the bytes
-- that a function reads. strlen and the loop over the invalid tickets of lab2 run on fuel, `none`
-- means that it ran out. The loop of writefile over the blocks of a file gets one
-- round more than the file has answers of read and bytes. The other loops are counted.
--
-- Not modelled: hardware access, the boot sector and the loading of programs (the entry points that
-- the loader stores are parameters of start), the spin lock that the SchedOS applications share, the
-- Linux interface of lab2 and lab3, the wait queue and the queue of requests of lab2, the messages
-- of the formatter and the limits on its path names, the other image tools of lab3, the storage
-- allocation of lab1, the sockets, files and formatted messages of the peer-to-peer client, and MD5.
pub mod Prelude
pub mod Weensy
pub mod Mpos
pub mod Schedos
pub mod Ospfs
pub mod Osprd
pub mod Format
pub mod Peer
pub mod Shell
