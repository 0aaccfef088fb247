-- ===== src/Lib.antt =====
-- A model of kernel-hobby, a small RISC-V kernel in C, and the theorems that make its parts correct.
--
-- The program. The kernel boots on the virt machine of QEMU: main.c starts the memory allocator
-- (src/kalloc.c), the page tables (src/vm.c), the disk driver (src/virtio.c), the file system
-- (src/fs.c), the network (src/net.c) and the processes (src/proc.c). A user program enters by a
-- system call (src/trap.c, src/user.c), which reads files, makes processes and maps pages.
--
-- The files.
--   Base: Boolean tests on the native numbers, lists, functions changed at one place, and the bytes and
--   little-endian words of a block.
--   Fs: src/fs.c and src/fsformat.h. The static variables are the record `Fs`; the disk is a function
--   from block numbers to blocks, with the record of every image it had, the last first, so that a
--   power failure is the choice of one image. Fs/Format has the layout and its encoding, Fs/Log the
--   write-ahead log (log_begin, log_write, log_commit, recover), Fs/Alloc the bitmap, Fs/Mount
--   fs_init, Fs/Read the reading functions, Fs/Change fs_create and fs_delete. Fs/Inv states the
--   invariant of a mounted file system, Fs/Crash and Fs/Files the theorems, Fs/Restart the mounts after power
--   failures, Fs/Tests the runs. Fs/Read/Pages is about fs_read_page, Fs/Change/Survive about the files that
--   stay when one is deleted.
--   Kalloc: src/kalloc.c. `Kmem` has the words of the memory, in which the free list lies, and the
--   static variables. Kalloc/Heap states the invariant, Kalloc/Laws what each call does to the counts
--   of references, Kalloc/Init what kinit makes.
--   Vm: src/vm.c and src/vm.h, over the memory of Kalloc: walk, mappages and all that use them. Vm/Pte is
--   about the entries of a table, Vm/Cow about the write fault on a shared page. Vm/Tree is about a page
--   table as a tree of tables in memory: its children Grow, Paths, Leaf, Maps, Loop and Ranges are about walk
--   and mappages, Data about the pages that are no tables, Root and Kernel about kvminit.
--   Proc: src/proc.c and src/proc.h, over Vm and Kalloc. A process is the number of its slot, Proc/Table
--   has the types. A function that calls swtch is split there; the code between two releases of pt_lock
--   is one step. Proc/Cores has the steps of the cores, Proc/Wait the wakeup of a parent, Proc/Fork the
--   pids; Proc/User has make_user_proc, proc_exec, proc_mmap and proc_pagefault, and
--   Proc/Fault is about a fault in the heap or in a mapped file, Proc/Pass about a pass of the scheduler.
--   Console: src/console.c. The ring of input bytes refines a queue (Console/Queue); what goes back to
--   the serial port is a function of its own, which the interrupt of Uart/Port sends.
--   Spinlock: src/spinlock.c. Spinlock/Nesting is about push_off and pop_off on one core,
--   Spinlock/Exclusion about the steps of all cores at one lock.
--   Elf: src/elf.c. Elf/Bounds says which images stay within their page.
--   Syscall: src/user.c, the dispatch of the system calls. Syscall/Path is about the strings it copies.
--   Net: src/net.c. Net/Bytes and Net/Checksum have the byte order and the checksum, Net/Device the two
--   queues of the card, Net/Arp, Net/Ip, Net/Udp, Net/Icmp and Net/Tcp the protocols, Net/Dns the query of
--   a name, Net/Tcp/Demo the session that echoes, Net/Demo the run at boot, and
--   Net/Init net_init, with its stores in Net/Init/Bringup.
--   Uart: src/uart.c, what the serial port sends, and its interrupt; Uart/Port has the same functions over the
--   registers of the port, which is a parameter.
--   Mkfs: tools/mkfs.c, the image of a disk with given files. Mkfs/Layout is about where the files lie,
--   Mkfs/Mounts and Mkfs/Reads mount the image with Fs and read it.
--   Trap: src/trap.c, the dispatch of interrupts, system calls and page faults. Trap/Serial follows the
--   bytes of the serial port through Uart into the queue of Console.
--   Virtio: src/virtio.c over a device that is a parameter. Virtio/Port has the registers of a card, Virtio/Init
--   virtio_disk_init; Virtio/Handshake states the order of its stores, Virtio/Bringup and Virtio/Ready that the
--   initialisation keeps to it and makes a driver. Virtio/Refine states what a
--   device of virtio-blk does with a request, and that the driver then is the disk of Fs/Disk.
--   Shell: user/init.c, what the shell makes of a line. Shell/Typed has the lines that ask for each command.
--   KernelShell: src/shell.c, the shell in the kernel, and KernelShell/Editor the line editor that it is.
--   Uthread: user/uthread.c. Uthread/Turns is about one turn of a thread, Uthread/Rounds about the scheduler.
--   Hart: the registers of src/csr.h, and the functions of trap.c, vm.c and proc.c that set them. Plic:
--   src/plic.c.
--   Boot: src/main.c, which composes Hart, Plic, Kalloc, Vm, Virtio, Fs, Net and Proc. Boot/Mounted is about the
--   disk and the files, Boot/Memory about the allocator and paging, Boot/Once about the harts that come later.
--
-- Bounds. A block write is atomic, and virtio_disk_rw of a disk that is not ready does nothing; this is
-- what the code of Fs relies on. Loops count down their rounds: kinit has at most one round for each page of the
-- memory, the search for free blocks at most one for each block of the bitmap, and a page table has three
-- levels, which freewalk goes down.
-- A loop that waits for a frame polls a list of what each poll finds, and finds nothing behind the end of
-- the list; a buffer on the stack is a function from offsets to bytes, whose contents at the start are
-- an argument. A full round of polls of net.c (2 * 10^8 and more) is a number like any other. The loops
-- over a DNS name and the wait for a SYN take fuel, and there is a theorem that enough was given.
--
-- The loops of uart.c that wait for the registers of the port take fuel, a load or a byte each. The
-- scheduler of uthread.c takes fuel, a round each, and there is a theorem that enough was given.
--
-- Not modelled: the messages of the kernel other than those of fs_ls, fs_cat, proc_dump, net_init and shell.c; the
-- .S files and the instructions that the C code inlines, which are no C (usys.h and most of csr.h are such
-- instructions); the flushes of the TLB and memory fences, since a step of the model sees the memory as it is; and
-- the user programs other than the shell and uthread.c, which print a few lines around one or two system calls.
pub mod Base
pub mod Fs
pub mod Kalloc
pub mod Vm
pub mod Proc
pub mod Console
pub mod Spinlock
pub mod Elf
pub mod Syscall
pub mod Net
pub mod Uart
pub mod Mkfs
pub mod Trap
pub mod Virtio
pub mod Shell
pub mod KernelShell
pub mod Uthread
pub mod Hart
pub mod Plic
pub mod Boot
