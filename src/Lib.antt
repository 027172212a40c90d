-- ===== src/Lib.antt =====
-- The kernel of Raspberry-Pi-3-JOS, an exokernel-style operating system for the Raspberry Pi 3.
--
-- Parts, and how they interact. `page_init` and `env_init` fill two linked lists, of free pages and
-- of free environments, once the kernel has started. An environment has a directory of four-level
-- page tables that the page allocator's pages make up; a system call of the environment that runs
-- changes tables and environments, and the scheduler switches between runnable environments.
--   Queue    OS/include/queue.h: LIST_INIT, LIST_INSERT_HEAD, LIST_REMOVE on the pointers
--            `le_next` and `le_prev`. Chain says which sequence such a list stands for.
--   Mmu      OS/include/mmu.h and the inline functions of OS/include/pmap.h.
--   Pmap     OS/mm/pmap.c: the state is the memory that holds the tables (u_longs at kernel
--            addresses), the reference counts of `pages` and the list of free pages. Alloc is about
--            the list, Tables about the tables, Grown about adding one, Enter about one level of a
--            walk, Walk about `pgdir_walk`, Leaf about entries of the last level, Insert and Remove about the
--            operations of these names, Maps about mappings as a whole, Absent about addresses with
--            no page, Root about a new directory, Same about pages of data and Bytes about `bcopy`.
--   Elf      OS/lib/kernel_elfloader.c and OS/include/kerelf.h: the loader, with a parameter for the
--            function that maps a segment. Segments is about the program headers, Keeps about
--            what a segment's mapper keeps.
--   Env      OS/lib/env.c and OS/lib/sched.c: the state is that of Pmap with `envs`, `curenv`, the
--            list of free slots, the static variables, the saved registers and the table base.
--            Invariant says what holds of the slots between two operations and Keeps that the
--            operations keep it; Free is about the free slots, Ids about the ids, Window and Setup about
--            `env_setup_vm`, Alloc about `env_alloc`, Switch about `env_run`, Sched about
--            `sched_yield`. Load has `load_icode` and `env_create`: Frame says what loading leaves
--            alone, Step is about one page, Segment and Loops about a segment, Program about an
--            image, Create about `env_create`, Keeps about the slots.
--   Boot     OS/init/main.c: `load_program`, `main` and the clock interrupt. Programs is about
--            `load_program`, Start about `main`, Shown about what a directory shows of a program,
--            Keeps about the slots.
--   Syscall  OS/lib/syscall_all.c: the handlers, on the state of Env. Ipc is about messages, Memory
--            about the calls that map pages, Transfer about messages with a page, Entry about
--            `sys_pgtable_entry` and `pageref` of OS/user/pageref.c, Fork about the
--            loop of `sys_fork`, with Round for one page, Unmap about `sys_mem_unmap`, Status
--            about `sys_set_env_status`; Stubs has the stubs of OS/user/syscall_lib.c and the table
--            of OS/lib/utility.S that leads to the handlers, System the exception of a call, which
--            runs the handler and sets the result, and Yield is about its switch. Keeps says what
--            each handler does to the slots, and Reach has the steps of the whole kernel, in any
--            order, from `main` on.
--   Fs       OS/user/fs.c and OS/user/filesystem.h, the file system of the server: the state is the
--            server's memory in u_ints, the pages mapped in it, the SD card and the three global
--            variables. Fs has the blocks, with theorems in Bitmap; Files the blocks of a file, with
--            theorems in Map; Paths directories and paths, with theorems in Walks.
--   Serve    OS/user/serv.c, the requests to the server, on the state of Fs with the table of open
--            files; what `pageref` reads is an argument. Table is about that table.
--   Fd       OS/user/fd.c and OS/user/fd.h, the table of file descriptors over a device that is a
--            parameter. Slots is about `fd_alloc`, Reads about `read`.
--   File     OS/user/file.c, the functions of `devfile`, over the requests to the server as an
--            interface; its `file_close` is `devfile_close`. Sizes is about a file that grows, Data
--            about reading what was written.
--   Timer    OS/drivers/timer.c: waits over the sequence of the timer's readings.
--   Strings  OS/user/string.c, on a memory of bytes.
--   Examples concrete states on which the theorems are applied.
--
-- A C function is a definition of the same name. Pointers to `struct Page` and `struct Env` are
-- indices of their arrays. An operation on a state `S` is a function to `Option (A × S)`: `none` is
-- a run that panics, reads through NULL or never ends, since nothing runs in the kernel after that.
-- Loops are recursion on the number of rounds, which the source's bounds give, or on fuel where
-- they look for a NUL or the end of a path; theorems say how much is enough. The loop of
-- `sched_yield` has none: it gets fuel for NENV rounds, after which every slot was looked at and
-- the state is the first one again.
--
-- Arithmetic is on natural numbers with the wrap-around of the C type written out where a value can
-- reach it: `next_env_id`, the ids, `pp_ref`. Addresses stay below 2 ^ 64 by the code's bounds.
--
-- What `emmc_read_sector` reads is the parameter `card` of `sys_emmc_read`, `load_program` and `main`.
-- The kernel's variables are kept apart from the memory of pages in which they lie: `envs`, `pages` and
-- the saved registers are fields. What a program stores there through a mapping of such a page is not
-- modelled; so in Reach programs and calls go on only from states where no environment in use maps a
-- page of the kernel writable and none of these is free. Within that a program's step may leave any
-- registers and any memory of pages; a call that panics or never returns has no step. The calls that
-- map pages are modelled for any attributes, and their theorems are about attributes without bits of an
-- address.
-- In File a page that the server maps replaces the program's bytes at its address; what the program
-- stores in it later is not shown to the server.
--
-- Not modelled: the rest of the assembly (start.S, utility.S), the devices (emmc, mbox,
-- uart, the clock interrupt), the output functions, which are another project's, the tables that
-- OS/boot/vm.c makes before the kernel runs, the request buffers of OS/user/fsipc.c and user programs;
-- cache and TLB maintenance and waits, which leave this state unchanged.
mod Prelude
pub mod Queue
pub mod Mmu
pub mod Pmap
pub mod Boot
pub mod Elf
pub mod Env
pub mod Syscall
pub mod Fs
pub mod Serve
pub mod Fd
pub mod File
pub mod Timer
pub mod Strings
mod Examples
