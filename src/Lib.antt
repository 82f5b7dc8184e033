-- ===== src/Lib.antt =====
-- The kernel of a small 32-bit operating system (BananaOS): its terminals, its screen, its memory,
-- its processes and its file system.
--
-- The parts and how they work together:
--   Segment descriptors (mem/gdt.c) and interrupt gates (sys/int.c) lead every interrupt to one
--   handler, which looks for the kernel function that is registered for it, or stops with a message.
--   Interrupt 0x80 is the system call: its table (sys/syscall.c) is filled by the parts that offer
--   calls, and programs reach it by the functions of sys/user/interface.c. The timer (sys/timer.c)
--   polls the keyboard and ends a process's quantum.
--   The keyboard controller fills a queue of 32 bytes (io/kb.c). The terminal driver (io/tty.c)
--   takes the bytes from it, turns scan codes into keys by a table, keeps the modifier flags,
--   switches between two terminals and puts characters into the queue of the one that is shown,
--   which is also drawn on the screen (video/video.c). A process that reads (`sys_std_read`) waits
--   until Enter makes it ready; the scheduler (proc/schedule.c) then runs it in its turn, and on its
--   way empties the slots of dead processes, whose page directories go back to the frame allocator
--   (mem/paging.c). User pages come from another allocator (mem/alloc.c); both keep bitmaps
--   (common/common.c). fork copies a process and shares its pages until one of the two writes to
--   them, exec replaces its program and puts its arguments on the new stack, and a process that ends
--   gives up its pages and hands itself over to its father, which waits for it (proc/proc.c).
--   Files (fs/fs.c) are kept in sectors of a disk, with their names in a root directory and a table
--   of inodes in memory that is written back after each change; a disk that is not known is
--   formatted at the start. Kernel and programs share a library of strings (sys/user/utils.c).
--
-- Files:
--   Prelude/        runs that return, hang or leave an object (`Outcome`), arrays with checked
--                   accesses, bits as arithmetic, circular windows of arrays
--   Common/Bitmap   `get_bit` and `set_bit` of common/common.c
--   Io/Kb           io/kb.c, and `get_byte_from_buffer` of io/tty.c
--   Io/Terminal     `tty_t` of io/tty.h, with video memory and the display's registers
--   Io/Keys, Io/Keymap   the key codes and the table of io/tty.c
--   Io/Tty          input queues, `sys_switch_tty`, `init_ttys`, the line reader of `sys_std_read`
--   Io/Driver       `transfer_buffer` and `tty_driver`
--   Io/Syscalls     `sys_std_read` and `sys_std_write`
--   Video           video/video.c
--   Mem/Alloc       mem/alloc.c
--   Mem/Paging      addresses, page frames and `frame_copy_map` of mem/paging.c
--   Mem/Fault       `page_fault_handler` of mem/paging.c
--   Mem/Boot        `init_paging`: the first page directory
--   Mem/Copy        `sys_copy_pages` and `sys_create_proc_page_table`
--   Mem/Cleanup     `sys_cleanup_memory`
--   Mem/Gdt         mem/gdt.c, segment descriptors and the task state
--   Sys/Frame, Sys/Selectors   `isr_param_t` of sys/int.h, selectors of common/common.h
--   Sys/Int         sys/int.c: gates, handlers, the message for an interrupt without one
--   Sys/Syscall     sys/syscall.c, and the registrations of the parts (Sys/Syscall/Calls)
--   Sys/Timer       sys/timer.c
--   Sys/User        sys/user/interface.c and sys/user/utils.c
--   Proc/Table, Proc/Schedule   proc/proc.h and proc/schedule.c
--   Proc/Wait       `sys_wait`, and how `sys_exit` meets it, of proc/proc.c
--   Proc/Fork       `init_proc`, `setup_init`, `sys_setup_kernel_process` and `sys_fork`
--   Proc/Exit       `sys_exit`
--   Proc/Exec       `sys_exec`: the arguments, the segments of the program, the new stack
--   Fs/Ata          `read_sector`, `write_sector` and `get_sectors` at the ports of the drive
--   Fs/Format       `sys_format` and `init_fs`
--   Fs/Calls        the system calls over files, which take their arguments from registers
--   Fs/Disk, Fs/Sectors   the tables of fs/fs.h, `sync_inode` and `alloc_sector` of fs/fs.c
--   Fs/File         `sys_do_read`, `sys_do_write`, `sys_do_close`
--   Fs/Directory, Fs/Open   names, entries, `sys_do_unlink`, `create_file`, `sys_do_open` and
--                   `sys_listdir`
--   Program         the shell's words (program/shell/shell.c), the sizes of dir (program/dir/dir.c)
--
-- Conventions:
--   A definition has the name of the C function that it models; a loop or a branch of one has a name
--   of its own. C globals are records that are passed on. A pointer into an array is its index, an
--   address of video memory its number of cells from 0xc00b8000. Numbers are natural numbers with the
--   wrap-around of their C type written out where it can happen. `fault` is an access outside of an
--   array, which C leaves undefined; `hang` is a `while(1);` or a wait that nothing ends. Ports are
--   either a list of bytes that a device delivers, in order, or registers that are written.
--   `mark` in `transfer_buffer` is declared without a value: what it holds is an argument.
--
-- Fuel:
--   `roll_while` has one round more than the position has units; a round takes 80 of them.
--   `schedule` goes on for 33 slots; if a process is ready the first of the 32 slots that has one
--   ends it. `tty_driver` has one round for each value that `mark` is given, and waits for the
--   keyboard in as many rounds as `polls` has lists. `grow` has 30 rounds, of which 29 can add a block
--   of a file. `align` in exec has 3 rounds, as a word has four bytes. A loop over a string of n
--   characters ends in n + 1 rounds, and the theorems ask for these. The loop over the program
--   headers of a file has 2^16 rounds, as their number is 16 bits wide. All other loops count.
--
-- Not modelled: the entry of the kernel (sys/kernel.c), which calls the parts in order, what the user
-- programs (program/) do by system calls alone, and the assembly files. Instructions that load a
-- table or a register are fields of a record; `sti` and `cli` have no part. Of the translations that
-- the processor keeps only that of a page fault comes in, as an argument of its handler. The array
-- `user_stack` of exec is a list, which the segments of a program do not reach. Interrupts come in only
-- where the code raises one itself: `sys_std_read` is two definitions, before and after it, and
-- `sys_wait` and `sys_exit` are single rounds up to it.
pub mod Common
pub mod Fs
pub mod Io
pub mod Sys
pub mod Mem
pub mod Video
pub mod Proc
pub mod Program
pub mod Prelude
