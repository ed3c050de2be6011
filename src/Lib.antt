-- ===== src/Lib.antt =====
-- The programs of the repository: a shell, a race of threads, a queue between threads, a kernel
-- module with its trial program, and CMake's identification of the compiler. They share no code.
-- Paths are from the repository's root.
--
-- Shell: Praktikum 2 Aufg 1/main.c. Shell/Text has the C strings and trimString, Shell/Process
-- startProcess and the loop hawsh. The input is a list of bytes, an array of char a list with a 0
-- behind the string in it. What fork and waitpid answer is an argument, what the shell does to the
-- outside is a list of effects. hawsh does not end by itself, so it is a function of a number of
-- rounds that are looked at.
--
-- Race: Praktikum 2 Aufg 2/main.c. Race/Sort has swap and sort, whose loops have the bounds of the
-- source, Race/Flight the function fliegen as moves of a thread, in any order with the others,
-- over the variable crashed, Race/Main what main prints once the threads have returned. rand is
-- any number; a racer's time is a number without bound, which five laps below 1000 keep far below
-- 2^31.
--
-- PacketQueue: Praktikum 3, the functions add_paket and get_paket of queue.c on the memory that
-- they share, and the functions that call them. PacketQueue/Store is that memory: elements,
-- packets and mutexes at addresses, queue_index and errno. A command there is a call that one
-- thread makes while no other is in the queue: it ends, waits for ever, or uses a pointer to
-- nothing. PacketQueue/Operations follows queue.c, the local parts of the two functions with names
-- of their own. PacketQueue/Cells says which list of cells a memory stands for. The loop of
-- add_paket has a number of rounds for its fuel, and a round for each cell and the head is enough.
-- An address that malloc gives is an argument, and its element is written with the first field of
-- it. PacketQueue/Elements has create_queue_element and consume_queue_element,
-- PacketQueue/Observer the function print_queue_status of observer.c.
--
-- PacketQueue/Bounded states what the queue promises a caller, whatever sequence of calls is made;
-- PacketQueue/Dangling and PacketQueue/Stolen put a call or a lock of a second thread between two
-- parts of a call, PacketQueue/Waits follows a producer that finds the queue full, PacketQueue/Index
-- has the accesses to queue_index of several calls in any order.
--
-- PacketQueue/Threads has any number of calls of add_paket and get_paket at the same time.
-- Threads/Blocks cuts the two functions at pthread_mutex_lock: a call runs from one lock to the next
-- while the others stand still, and the calls take turns in any order. Each call is made once; a
-- thread that makes several is several calls there. Threads/Alone compares the pieces with the whole
-- functions, Threads/Single has what they do to the list that the queue stands for, Threads/Place says what a waiting call relies on, Threads/Inv and Threads/Keep that a
-- move of one leaves it to the others, Threads/Linear and Threads/Progress what follows,
-- Threads/Measure and Threads/Ends how many moves there can be, Threads/Schedule runs calls in a given
-- order, Threads/Together what a caller is promised. The packets, numbers and addresses of the calls are
-- arguments and all different: an address that malloc gives again after a free is not among them.
--
-- Workers: Praktikum 3, the threads. Workers/Loop has the loops of run_producer and run_consumer,
-- which have the same text, as moves of threads that main created, in any order, over the counter
-- and its mutex. Workers/Program is the whole of main.c: create_threads and wait_for_termination,
-- both kinds of threads, run_observer of observer.c and run_queue of queue.c. A call on the queue and
-- a print of the observer is a move there, which ends. Workers/Joining has what main knows at each
-- place, Workers/Whole what holds when it returns, Workers/Waiting and Workers/Finish how it comes to
-- return.
--
-- Caesar: Praktikum_4/caesar.c. Caesar/Cipher has encrypt and decrypt over bytes and a 32-bit
-- translate_shift, whose sums wrap, and Caesar/Rounds their
-- counter, an int compared with a size_t: its fuel is a pass for each value that is not negative and
-- one more. Caesar/Alphabet has what they mean: an alphabet of 53 characters
-- that is rotated. Caesar/Device has dev_open, dev_read, dev_write and dev_release over the static
-- variables of the module; the kernel's mutexes, kmalloc and the copies to and from user space are
-- a parameter, with the documented behaviour as laws, in Caesar/Kernel. Caesar/Sessions has the
-- steps of any processes on the two devices. A read or write outside every buffer, a second kfree
-- among them, is an outcome of its own. Caesar/Registration has caesar_init and caesar_exit as the
-- calls that they make.
-- Caesar/Trial is Praktikum_4/testcaecar.c; the file layer between it and the handlers is a parameter
-- too, in Caesar/Syscalls.
--
-- CompilerId: cmake-build-debug/CMakeFiles/3.27.8/CompilerIdC/CMakeCCompilerId.c in Praktikum 2 Aufg 1
-- and, with the same text, in Praktikum 2 Aufg 2. The predefined macros of a compiler are a function
-- from names to numbers, so what the preprocessor decides is computed: CompilerId/Macros has DEC and
-- HEX, CompilerId/Early and CompilerId/Late what each branch of the chain of compilers defines,
-- CompilerId/Branches the chain, CompilerId/Platform PLATFORM_ID and ARCHITECTURE_ID, CompilerId/Info
-- the strings and main.
--
-- Base holds the tests on numbers, lists over them, 32-bit integers, and threads by their number.
--
-- Not modelled: what is printed for debugging or of errno, sleeping, the seeds of rand, and the text
-- of messages; the order of single reads and writes of two calls of the queue between their locks,
-- but for those of Dangling, Stolen and Index; the build files.
pub mod Base
pub mod Caesar
pub mod CompilerId
pub mod PacketQueue
pub mod Race
pub mod Shell
pub mod Workers
