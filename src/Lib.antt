-- ===== src/Lib.antt =====
-- libuc is a C library whose threads are fibers on one io_uring. The files of src/ that carry its
-- logic, and their models:
--
-- * src/scheduler/scheduler.c (Scheduler): the ready queue, a list linked through the fiber records;
--   the reactor loop, `run`, which takes each ready fiber, resumes it, and does what its request
--   asks (`handle`: yield, EXIT, AWAIT, SPAWN, JOIN, DETACH, process exit), then submits the batch
--   and wakes the fibers whose operations have completed. The state is `State` of Machine: the
--   scheduler's words, the fiber records by address, the ring, and the thread register. Spec is the
--   scheduler as its clients know it, a step relation on threads and the lists in which they wait, with
--   no ring, link, count, stack or register; View says which of its states a state of the reactor is.
-- * src/fiber/fiber.c (Fiber): the life of a fiber's record, and a resume. A fiber runs on its own
--   stack between two switches; what it does there is a parameter, an `Event` for each resume with
--   the request that it comes back with, and with what mmap and munmap answer in that turn.
-- * src/ring/ring.c (Ring): the batch of submission entries, the loop around io_uring_enter, the
--   completion queue. The kernel is a parameter, a function from the number of the call and what it
--   is given to its result and its side of the completion queue.
-- * src/thread_local (ThreadLocal): the image of the executable's PT_TLS segment, the placement of a
--   block on both architectures, the creation of a block.
-- * src/unistd and src/sys/socket (Calls): the entry that each call awaits, and errno and the return
--   value that it makes of the result. src/threads/thrd.c (Threads): what each function asks of the
--   scheduler and what it makes of the answer. src/sys/auxv (Auxv): the search of the auxiliary
--   vector. src/uc/scheduler (Uc): the ring of a second scheduler, which does what the first one
--   does, and the operations that it drives.
-- * src/start.c (Start): `__libuc_start`, the walk over the initial stack, the layout that the auxiliary
--   vector gives, the ring, the root fiber, and the reactor; and what the root fiber runs, where the
--   program's constructors and its main are parameters.
-- * src/arch (Arch): the switch between two contexts, the entry of a fresh one and the process entry,
--   the assembly of both architectures as lists of instructions that a small machine runs. The
--   scheduler's model uses the context of x86-64.
-- * src/string (Memory), src/syscall.h with the registers of src/arch/*/syscall_arch.h and src/errno
--   (System), and the bit operations on words that all of these use (Bits).
--
-- A command on the state ends with a value, traps as the code does on a broken contract, faults at
-- a record that is not mapped, or is out of fuel. Pointers and words are natural numbers, with the
-- wrap of their width written out. Fuel bounds two loops that the world can prolong: the submit
-- loop, where each pass uses up an interrupt to come or an entry of the batch, so that their number
-- and one more are enough; and the rounds of the reactor, which runs as long as fibers ask. The
-- dispatch loop and the reap loop count down what is there at their start. The walk over the
-- environment, the search of the auxiliary vector and the loop over the constructors have fuel for
-- their entries and the end, and the two scans of memcmp for the bytes and one more.
--
-- A request lives on the frame of the fiber that asks, and a suspended fiber has one, so it stands
-- in the fiber's record. The memory order of the two completion words is not modelled: the kernel
-- writes between two calls.
--
-- Not modelled: the sanitizer's handlers, which only trap, and the instructions that read and write
-- the thread register.
pub mod Arch
pub mod Auxv
pub mod Bits
pub mod Calls
pub mod Fiber
pub mod Machine
pub mod Memory
pub mod Prelude
pub mod Ring
pub mod Scheduler
pub mod Start
pub mod System
pub mod ThreadLocal
pub mod Threads
pub mod Uc
