-- ===== src/Lib.antt =====
-- QuadOS: a 32-bit graphical kernel and its userspace heap, modelled from kernel/ and
-- userspace/api/src/.
--
-- Parts and files:
--
-- Base            shared names; lists as C arrays (an index past the end reads a default and a write
--                 there is dropped), integers, 32-bit words, and the outcome of kernel code: a value,
--                 a stop of the machine (kernel_assert of kernel/util.c), or an endless loop.
-- PhysAlloc       kernel/physalloc.c. Pmm is the file's static variables and the bitmap. Bits has the
--                 arithmetic of one byte, Scan the search, Valid the invariant.
-- Malloc          the allocator that kernel/kmalloc.c and userspace/api/src/malloc.c share. Heap holds
--                 the chunk headers by address and the static variables; malloc is kmalloc and
--                 user_malloc, free is kfree and user_free, init is kmalloc_init and malloc_init.
--                 How the heap grows is the parameter `change` (change_heap_size). Chunks is the
--                 abstract allocator on a list of chunks, Layout says when memory holds such a list,
--                 Fit and Free refine the two loops.
-- Kmalloc         kernel/kmalloc.c: the growth of the kernel heap by whole pages. The frames of
--                 kernel/physalloc.c and the mappings of kernel/memory.c are the interface Paging
--                 there, which Kmalloc/Examples fills with PhysAlloc. Growth has the pages of a heap
--                 that grows.
-- Paging          kernel/memory.c. Paging is the physical frames that hold page directories and page
--                 tables, cr3, the slots in use and the frame allocator, which is PhysAlloc; Image says
--                 where the linker puts the directories. Pages has the operations on one page,
--                 Directories those on a directory; Valid has the invariant, Map the table and entry
--                 of a mapping, Edit and Sync what keeps the directories alike, Translate and Unmap
--                 with Vanish a page that is mapped and unmapped, Build and Create a new directory,
--                 Owned, Release and Destroy the end of one, Init the start, Boot the state after kernel/boot.asm.
-- Userheap        kernel/userheap.c, over Paging.
-- Util            the string functions of kernel/util.c over arrays of bytes.
-- Windows         kernel/windows.c. Desktop is the table of windows, the order from front to back, the
--                 focus and the shared memory, which is the interface SharedMem (kernel/sharedmem.c).
--                 Order has the order, Slots the table, Life the invariant and the end of windows,
--                 Create new ones, Hit the windows and buttons under the mouse pointer, Title the
--                 titles.
-- Interrupts      the critical sections of kernel/interrupts.c: push_cli and pop_cli, and their nesting.
-- Pools           the pools of mappings of kernel/sharedmem.c.
-- Shmem           the objects of kernel/sharedmem.c, with the pools of the kernel and of the tasks. The
--                 kernel heap, page frames and page tables are the interface Pages. Create has new
--                 objects, Remap mapping and unmapping.
-- Tasks           kernel/tasks.c. Tasks is the table, what an id past its end would read, the current task
--                 and the critical sections; the
--                 kernel heap, page directories and shared memory are the interface Memory. Schedule
--                 has the choice of the next task, Table the creation of tasks, Kill their end.
--
-- Events          kernel/events.c, and the timers of kernel/syscall.c. Events is the tasks of Tasks and
--                 the event buffers by address; handle_event adds the windows of Windows and the
--                 console. Buffer has the ring, Timers and Handle the other operations, Fire,
--                 TimerLoop and TaskLoop the timers, Route the
--                 way of an event to a task.
-- Console         kernel/console.c; shell_execute of kernel/shell.c is a parameter. Prompt and Keys
--                 have the prompt as a line of text, Cursor the cursor.
-- Mouse           kernel/driver/mouse.c from the interrupt on: the argument of handle_mouse_interrupt is
--                 the byte that read_mouse returns. Packets has what a stream of packets moves.
-- Gui             kernel/gui.c, over Mouse, Windows and Events: Gui is the pointer, the window that is
--                 dragged and the state of those three. The end of a window, that of a task and the
--                 start of a program are parameters. Pointer has the edges of the screen, Drag a window
--                 that is dragged.
-- Graphics        sgfx/sgfx.c: the filled rectangle; Pixels has the loops, Fill the rectangle. The
--                 framebuffer is a function of the index of a pixel.
--
-- Integers are natural numbers with the wrap-around of their C type written out (add32, sub32,
-- mul32, `% 2 ^ 16`); a signed field keeps its bit pattern and signed16 reads it.
--
-- Loops over an array are structural. The loops of the allocator and of the string functions follow
-- data in memory and take fuel: one unit for each chunk, or for each byte up to the byte 0. The search
-- of the scheduler takes one unit for each slot of the table, and the loops of sharedmem_destroy one
-- for each mapping of a pool and one to end. With less the model says `spins`, or `none` for a string;
-- the theorems give the fuel that is enough.
--
-- A chunk header is one entry of the map at its address: in a well-formed heap chunks stand at
-- multiples of 16, so that headers do not overlap.
--
-- Not modelled: drawing but for the filled rectangle, hardware ports and descriptor tables, the boot sequence, the applications,
-- and the copies of other projects (FatFs, printf, the C library of userspace); nor the loading of
-- user tasks, the shell and the dispatch of system calls. Of the paging, the buffer for address
-- translation (TLB) is left out.
pub mod Base
pub mod PhysAlloc
pub mod Malloc
pub mod Kmalloc
pub mod Paging
pub mod Userheap
pub mod Util
pub mod Windows
pub mod Interrupts
pub mod Pools
pub mod Tasks
pub mod Shmem
pub mod Events
pub mod Console
pub mod Mouse
pub mod Gui
pub mod Graphics
