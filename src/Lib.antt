-- ===== src/Lib.antt =====
-- The kernel of a teaching operating system: processes with a scheduler, mutexes, condition
-- variables and fifos between them, an allocator of pages, and drivers. This library models the
-- kernel's core in C, from Kernel/, and proves how it behaves.
--
-- The parts and their files:
--   Base            lists, tests and integers over the native numbers, for all other modules.
--   Memory          Kernel/lib.c: `memset` and `memcpy`. A block of memory is the list of its
--                   bytes; an access outside it is the result `none`.
--   Strings         Kernel/strings.c. A C string is the list of its characters before the NUL.
--   Ctype           Kernel/ctype.c: the classes of characters.
--   Numbers         `itoa` and `atoi` of Kernel/lib.c, and `uintToBase` of Kernel/naiveConsole.c.
--   CircularBuffer  Kernel/fifo.c: the buffer of a fifo, over the `memcpy` of Memory. Inv says
--                   which buffers are valid and which bytes they hold, Slots what the copies do to
--                   the array, Write and Read what the two operations do to the bytes held.
--   Allocator       Kernel/memoryAllocator.c: the stacks of free pages and of process stacks, as
--                   they are worked while their mutex is held.
--   Process         Kernel/process.c: the process structure and the functions on one process. A
--                   pointer is an address, NULL is 0, and `Store` gives the structure there.
--   Kernel          the state that the components share, and the steps of one process: a function
--                   returns, or gives the processor away; what follows a yield is no part of the
--                   step.
--   Mutex           Kernel/kernelMutex.c: `mutex_lock` and `mutex_unlock`, with `get_page` and
--                   `store_page` of Kernel/memoryAllocator.c and `enqueue` and `dequeue` of
--                   Kernel/queueADT.c, through which they go; Open has `mutex_open`, `mutex_close` and
--                   the list of open mutexes.
--   CondVariable    Kernel/condVariable.c, over the mutexes; `cond_wait` up to the yield.
--   ProcessTable    Kernel/process.c: the table of processes, the process in the foreground, the
--                   end of a process, and the calls of the allocator of stacks.
--   Scheduler       Kernel/processManager.c: the ring of processes and the timer tick.
--   Stdio           Kernel/stdio.c: `printf` as the characters that it writes, and `readline`,
--                   `readline_no_spaces` and `scanf` on the characters that `getchar` gives; Buffer has
--                   `getchar` and `fill_buffer` on the keys that are typed.
--   Keyboard        Kernel/keyboardDriver.c: the ring of scancodes and the flags; Queue is what it is
--                   to be, a queue of at most BUFFSIZE scancodes. Keymap has the tables of
--                   Kernel/include/keyboardmap.h.
--   Video           Kernel/videoDriver.c: colours and pixels in the bytes of the frame buffer; Text has
--                   the characters, the cursor and the numbers.
--   Philosophers    Kernel/philo.c: what the philosophers and the commands do while they hold the mutex
--                   of the table; Safety has these sections as a step relation.
--   Fifo            Kernel/fifo.c over CircularBuffer and Mutex. Readers has the queue of those who wait,
--                   Transfer the reads and writes, Files opening and closing; Serve is what the readers
--                   are to get, a function on the bytes and the sizes that they want; Exchange joins a
--                   read that waits and a later write.
--   SystemCalls     Kernel/systemCalls.c: the table with its wrappers; Processes, Pages and Io have the
--                   calls.
--   Launcher        Kernel/executer.c: the page in which a program is given its arguments.
--   Shell           Kernel/shell.c: a round of the shell, from the line to the call of `execute`.
--   Commands        Kernel/commands.c: the table of commands, and what they do with their arguments.
--   Console         the text memory of Kernel/naiveConsole.c.
--   ModuleLoader    Kernel/moduleLoader.c over a memory, and the image that
--                   Toolchain/ModulePacker/main.c writes.
--   Links           fields of nodes in memory, for Timer, QueueNodes and NumberList.
--   Timer           Kernel/timer.c: the list of sleeping processes, its nodes in memory.
--   QueueNodes      Kernel/queueADT.c with its nodes in memory; Held says which elements a queue
--                   holds.
--   NumberList      Kernel/intLinkedlistADT.c with its nodes in memory.
--   Clock           Kernel/time.c and Kernel/random.c.
--   Sample          a kernel for the tests.
--
-- How the parts interact: a contended `mutex_lock` queues the process, the queue takes a page for
-- its node, and the page allocator locks a mutex of its own; so lock, unlock, `get_page` and
-- `store_page` call one another. `mutex_ops` of Mutex gives them on fuel, the depth of such calls.
-- Depth 2 is enough while no process is in the allocator, and the theorems on a held mutex say so;
-- when the allocator's mutex is itself contended no depth is. The loops of `mutex_unlock` and
-- `mutex_close` have a round for each process queued, `send_to_readers` one for each reader and one
-- more, `ncNewline` one for each place of a line, `itoa` and `count_digits` one for each binary
-- digit of an `int`, `timer_handler` one for each process asleep; the
-- walk of the scheduler round the ring has as many as its caller gives, and the theorem on it asks
-- for one more than the processes that it passes.
--
-- Machine integers: a counter or an address wraps where the source's type does (`% 2 ^ 64`,
-- `% 2 ^ 32`), but for a quantum, which has no bound here; a shift by the width of its type or more is
-- `none`. A module that the loader copies onto a range that overlaps it is `none` too; the text memory of
-- the console is apart from the memory of the loader.
--
-- The line of the shell meets the launcher at the text of the arguments: Launcher.Split has how
-- `build_arguments` takes it apart, for both. A program that is started is named, and its arguments are
-- given; it is not run.
--
-- The drivers meet the rest at values: `get_key` gives the bytes that the functions take, and where a driver calls on processes, mutexes or the allocator, the calls are recorded in
-- their order. The font that `pixel_map` looks up is a parameter of Video.
--
-- Not modelled: assembly, the boot loader, the bitmap of the font and the hardware's tables; what a
-- process does behind a yield; the programs of Userland, the commands that only test fifos or list
-- processes, Kernel/producerConsumer.c, Kernel/process_info.c and Kernel/ipc_info.c; the drawing of
-- the philosophers; the making of a process and its first stack, and the system calls for it; a queue
-- that could not be created for want of a page; the contents of the processor's registers. The
-- exchange of Kernel/asm/test_lock.asm is written out in `test_lock`.
pub mod Base
pub mod Memory
pub mod Strings
pub mod Ctype
pub mod Numbers
pub mod CircularBuffer
pub mod Allocator
pub mod Process
pub mod Kernel
pub mod Mutex
pub mod CondVariable
pub mod ProcessTable
pub mod Scheduler
pub mod Stdio
pub mod Keyboard
pub mod Video
pub mod Philosophers
pub mod Links
pub mod Timer
pub mod Fifo
pub mod SystemCalls
pub mod Launcher
pub mod Shell
pub mod Commands
pub mod Console
pub mod ModuleLoader
pub mod QueueNodes
pub mod NumberList
pub mod Clock
pub mod Sample
