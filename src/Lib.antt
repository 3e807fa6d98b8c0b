-- ===== src/Lib.antt =====
-- camellia is a small operating system. This library models parts of its kernel (src/kernel), of the
-- library that the kernel shares with user space (src/libk), of the C library (src/libc), the parser of
-- its shell, and its network server.
--
-- The kernel keeps processes, handles, backends and requests, which point to each other. A system call
-- on a file makes a request to the backend of the handle; the caller waits. A backend in user space has
-- a server, which waits for requests and gets each one as a handle; a backend in the kernel is a driver.
-- A finished request wakes its caller. Pipes connect processes without a backend: a reader and a writer
-- that meet are copied between. Handles are counted, and closing the last reference of one closes a
-- file, a pipe end or an unfinished request. A process that ends stays until its parent waits for it.
--
-- Base: numbers, lists, and the outcome of code with assertions.
-- Libk/Ring: src/libk/ring.c. `put` is ring_put, `get` is ring_get; the state is the record `Ring`. The
--   loop of ring_get runs twice, as it is written, since a ring wraps at most once.
-- Libk/Path: src/libk/path.c. `simplify` is path_simplify. Its loop has one unit of fuel for each byte of
--   the input; each round takes at least the slash. Lengths are those that an `int` holds.
-- Libk/Mem: src/libk/mem.c; the functions have their names there. A loop has one unit of fuel for each byte;
--   strcmp and strlen have fuel for the characters up to the NUL byte.
-- Libk/Fsutil: src/libk/fsutil.c. `normslice` is fs_normslice.
-- Libk/Printf: src/libk/printf.c. `printf_internal` is __printf_internal, with `back` and its state as
--   parameters; other functions have their names there. A format that C leaves undefined gives none. The
--   main loop has one unit of fuel for each byte of the format, which is enough; a number below 2^64 has at
--   most 22 octal digits, and `digits` has the 24 bytes of the code's buffer.
-- Kernel/State: the objects of src/kernel/proc.h, handle.h, vfs/request.h and vfs/mount.h, each at an
--   address. The kernel runs one handler at a time, so its code is a function of the whole state.
--   Update and Runs have the lemmas on writes and on sequences of code, Samples the states of examples.
-- Kernel/Pcpy: what is asked of src/kernel/pcpy.c, the copies between address spaces: a parameter.
-- Kernel/Copy: src/kernel/pcpy.c and the lookups of src/kernel/arch/amd64/pagedir.c; the functions have their
--   names there. The loop of virt_cpy has one unit of fuel for each byte and one more.
-- Kernel/Machine: what is asked of src/kernel/arch and of src/kernel/vfs/procfs.c: a parameter.
-- Kernel/Proc: the states of a process, proc_setstate of src/kernel/proc.c.
-- Kernel/Tree: its walks over the tree of processes and its namespaces. `proc_next` is proc_next; `ns_id`,
--   `ns_next`, `ns_byid` and `ns_create` are the functions with `proc_` before these words. A climb has
--   fuel by the address where it starts, a walk by the number of addresses given out.
-- Kernel/Fork: its `proc_fork`. Kernel/Death: `tryreap` and `prune_leaves`, and in Death/Kill `kill` and
--   `intr`, which are proc_tryreap, proc_prune_leaves, proc_kill and proc_intr.
-- Kernel/Pipe: src/kernel/pipe.c. `join_queue`, `try_transfer` and `invalidate_end` are pipe_joinqueue,
--   pipe_trytransfer and pipe_invalidate_end.
-- Kernel/Table: the handle table of a process, src/kernel/proc.c: `find_free_handle`, `handle_get`,
--   `init_handle` and `hid_take` are the functions with `proc_` before these words.
-- Kernel/Request: src/kernel/vfs/request.c. `create`, `try_accept`, `user_accept` are vfsreq_create,
--   vfs_backend_tryaccept and vfs_backend_user_accept; `refdown_use` and `refdown_prov` are
--   vfs_backend_refdown with true and false. The functions of drivers are a parameter.
-- Kernel/Handle: src/kernel/handle.c; `handle_dup`, `handle_close` and `handle_put` of
--   src/kernel/proc.c; and `finish`, which is vfsreq_finish.
-- Kernel/Mount: src/kernel/vfs/mount.c.
-- Kernel/Timer: src/kernel/arch/amd64/time.c. `schedule` is timer_schedule, `deschedule` is
--   timer_deschedule; the counter of the HPET is an argument, its comparator the field `alarm`.
-- Kernel/Malloc: src/kernel/malloc.c. `page_alloc` and `page_free` work on indices of pages; Heap has kmalloc
--   and kfree, whose allocations are the indices of their first pages.
-- Kernel/Syscalls: src/kernel/syscalls.c. A call `_sys_x` is `sys_x`, of the process `cur`; Files, Servers,
--   Pipes, Procs and Memory hold the calls, Dispatch is _syscall, Schedule is proc_switch_any, and Execbuf
--   is src/kernel/execbuf.c, whose interpreter has one unit of fuel for each byte of its buffer.
-- Libc/Text: src/libc/string/basic.c; the functions have their names there.
-- Cmd/Shell: src/cmd/shell/parser.c. The loop of `parse` has one unit of fuel for each character.
-- Cmd/Netstack: src/cmd/netstack. Util has util.h and the checksum of util.c, whose carries are gone after
--   three rounds; Arp is arp.c and ether_start of ether.c; Icmp is icmp.c; Tcp is tcp.c. tcp_parse is `tcp_parse`, one
--   function for each of its branches, on the list `conns`; `handle_known` is what it does from the test for
--   SYN_SENT on. The user behind the callbacks of a connection is a parameter there; Fs has the user that fs.c
--   is, with a list of its calls of _sys_fs_respond.
--
-- Addresses are natural numbers, and an allocation always succeeds with one that was never given out,
-- so that the use of freed memory is not modelled; the page allocator is modelled apart. The members of
-- a union are separate fields. Not modelled: the building of page tables and what else src/kernel/arch
-- has, which are parameters, the contents of pages in src/kernel/malloc.c, src/kernel/vfs/procfs.c, the
-- first process, the other parts of the C library, IP and UDP and the opening of files of the network
-- server, and the other programs in user space.
pub mod Base
pub mod Cmd
pub mod Kernel
pub mod Libc
pub mod Libk
