-- ===== src/Lib.antt =====
-- A verification library for the kernel in Kernel/, a 64-bit monolithic kernel in C with a round-robin
-- scheduler, semaphores, pipes and two memory managers.
--
-- The parts and the files that model them:
--
--   Base      shared helpers: Boolean tests, lists, tables as functions, signed counters.
--   Text      Kernel/lib.c: strcmp, strlen, concat_strings, uint64ToHex. A C string is the list of the
--             bytes before its NUL. Text/Compare and Text/Hex hold the laws. Text/Memory is memset and
--             memcpy on a memory of bytes, with what they leave in Text/Memory/Copy.
--   Kernel    the state that the files share: the process control block of
--             Kernel/process_contextswitch/process.c (record Process, with the accessors setState,
--             setRSP, setPriority, useQuantum and so on), the globals of scheduler.c (record Kernel) and
--             the objects of semaphore.c (record Semaphore). Kernel/Facts states what it means that the
--             scheduler's accounts are in order (IsSound) and the kernel is at rest (InOrder).
--   Queue     Kernel/queue.c on nodes and pointers. Queue/Chain says how the nodes are linked, Queue/Fifo
--             states enqueue and pollQueue, Queue/Remove follows removeNodeFromQueue and Queue/Filter
--             states removeFromQueue and freeQueue. The other files use the list that a queue stands for.
--   Ready     the ready queue of scheduler.c with setReady, setBlocked, setCurrentBlocked, getCurrentPID.
--   Schedule  schedule, getNextPID and timer_handler (Kernel/interruptions/timer.c). Schedule/Sound and
--             Schedule/Turns say what one call does, Schedule/Fairness what many do.
--   Table     the process table of scheduler.c: findFreePid (Table/Free), getProcessesCount and
--             getProcessInfo (Table/Info), setPriorityOnPID and the foreground set.
--   Semaphore Kernel/semaphores/semaphore.c over Ready and Schedule: newSemaphore, semWait, semPost,
--             semTryWait, freeSemaphore. Semaphore/Loop is the loop of semPost.
--   Shared    Kernel/semaphores/sharedSemaphores.c over Semaphore and Text: sharedSemOpen,
--             sharedSemClose, sharedSemWait, sharedSemPost. Shared/Slots and Shared/Counts follow the
--             table, Shared/Calls states the calls.
--   Heap      Kernel/memory/memoryManager.c: mem_init, mem_alloc, mem_free, mem_status on the headers
--             of the blocks and their pointers. Heap/Layout says how the headers lie, Heap/Fit follows the
--             writes of mem_alloc, Heap/Release and Heap/Freed those of mem_free. Heap/Pieces and
--             Heap/Returns hold the laws of first fit and of release on the row of blocks, Heap/Calls and
--             Heap/Status state the calls.
--   Buddy     Kernel/memory/memoryManagerBuddy.c, the other memory manager: the pool of nodes with createNode,
--             splitNode and mem_init; Buddy/Search is findAndAllocate, mem_alloc, mem_free and mem_status.
--             Buddy/Trees says which tree of blocks a pool holds, Buddy/Slots, Buddy/Split, Buddy/Found,
--             Buddy/Children and Buddy/Find follow the search, Buddy/Orders is about log2Int and getOrder,
--             Buddy/Blocks about where blocks lie, and Buddy/Calls states the calls.
--   Buffer    Kernel/circularBuffer.c, with its invariant in Buffer/Valid and its contract in Buffer/Fifo.
--   Pipe      Kernel/IPC/pipe.c: newPipe, freePipe and the counts of references and writers. Pipe/Wake
--             follows the posts of forceReadersWakeUp, Pipe/Counts and Pipe/Refs the counts, Pipe/Eof states
--             the end of file.
--   Stream    the reading and writing of pipe.c (pipeRead, pipeWrite, drainBuffer, removePipeWriter) as steps
--             of the processes that share a pipe. Stream/Locks, Stream/Order, Stream/Space and Stream/Signal
--             hold the invariants, Stream/Reached what follows for every interleaving.
--   File      Kernel/IPC/fileAccess.c: newFileAccess, cloneFile, the references and freeFileAccess.
--             File/Holders counts the files of a pipe, File/Counts the holders of a file.
--   Fds       the descriptors of process.c (openFd, addFd, closeFd, dupFd, reopenFd, closeAllFDs,
--             copyFdTable) and the calls of scheduler.c on them. Fds/Wired states that all counts fit
--             (IsWired), Fds/Calls, Fds/Dup and Fds/Tables that the calls keep this and what they change.
--   Spawn     newProcess and freeProcess of process.c, startNewProcess and startNewProcessWithFds of
--             scheduler.c. Spawn/Made follows newProcess, Spawn/Inherit copyFdTable onto a process that is
--             not in the table yet, Spawn/Started the whole start. A pointer to a process that the code
--             keeps over a wait is named by the slot of the process.
--   Exit      terminateProcess, killFromIsr and reapProcess of scheduler.c; Exit/Waits is wait_pid, wait_any
--             and reap_zombies.
--   Keyboard  Kernel/Drivers/keyboardDriver.c: getKeyPress and keyboardInterrupt, whose calls into other
--             files are effects. Keyboard/Keys is about the keys that are held and the bytes they give,
--             Keyboard/Interrupt about what the handler asks for.
--   Standard  Userland/SampleCodeModule/cstandard.c: numToString, stringToInt, isNumericalString,
--             randomRange and the tests on characters. Standard/Decimal is the round trip, Standard/Letters
--             the case of letters, Standard/Random the bounds of randomRange.
--   Shell     Userland/SampleCodeModule/shell.c: readLine without its echo (Shell/Lines), splitPipeline
--             (Shell/Stages), tokenize (Shell/Words) and hasBackground (Shell/Background). Shell/Launch is
--             runStage and runLine: the list of the system calls that a line makes, with their answers as
--             a parameter; Shell/Settled and Shell/Jobs follow the descriptors and the processes.
--   Mvar      Userland/SampleCodeModule/mvar.c: the steps of the writers and readers that share one slot,
--             with the order of the bytes in Mvar/Order and the absence of deadlock in Mvar/Progress.
--   Tests     runs at fixed inputs.
--
-- How the state is modelled. A pid_t is its 16-bit pattern, so that -1 is 65535 and the guard
-- `pid < 0 || pid >= MAX_PROCESSES` is bad_pid. A pointer is an Option whose `none` is NULL; kernel
-- objects are named by the number of the request to mem_alloc that made them, and the field `grants`
-- says which requests succeed, so a statement holds for every pattern of failures unless it assumes
-- HasMemory. The processTable is a function from slots, read as empty beyond its 64 slots. The value
-- of a semaphore and a count of references (C int) are integers without a bound: their overflow takes
-- 2^31 calls without a return. A call that does not return, since it spins on a lock that is held on the
-- only processor, goes through a NULL or dangling pointer or writes past an array, has the result
-- `none`. System calls and interrupt handlers run with interrupts off, so a call is one step; where
-- semWait gives up the processor the result is the state in which the next process runs.
--
-- Loops recur on the list or the counter that they walk. The walks of Heap along `next` take one step
-- of fuel for each byte of the heap: a block has a header of 32 bytes, so there are fewer blocks, and
-- the theorems on the calls have no hypothesis on the fuel. The walks of Buddy take one for each level of
-- the tree, the loops on orders one for each bit of a word. In the theorem on starvation the fuel is
-- the bound that the theorem states.
--
-- Not modelled: the other drivers, the boot code, interrupt set-up and the rest of the userland (the
-- terminal, the commands, the music), which are input and output. The results of pipeRead and pipeWrite
-- are not modelled, only what they do to the pipe; a process that is killed inside them and the wake-ups
-- of forceWakeOnPipe are no steps of Stream. What an open of a name of 39 bytes or more does to the
-- table of sharedSemaphores.c is not followed.
pub mod Base
pub mod Buddy
pub mod Buffer
pub mod Exit
pub mod Fds
pub mod File
pub mod Heap
pub mod Kernel
pub mod Keyboard
pub mod Mvar
pub mod Pipe
pub mod Queue
pub mod Ready
pub mod Schedule
pub mod Semaphore
pub mod Shared
pub mod Shell
pub mod Spawn
pub mod Standard
pub mod Stream
pub mod Table
pub mod Tests
pub mod Text
