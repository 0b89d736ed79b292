-- ===== src/Lib.antt =====
-- A verification of parts of the system programming labs of this repository.
--
-- The allocator, malloclab-handout/mm.c, keeps its free segments in a red-black tree that is ordered
-- by size and address. Malloc/Tree.antt has the tree: `null` is the sentinel `data->null`, and `node`
-- holds colour, size, address and children of a `struct MM_Node`. A subtree is a value, since a node
-- is reached through its parent alone. `rotate_left`, `search_node`, `insert_node`, `delete_left`,
-- `delete_node` and so on are the functions of that name with the prefix `mm_`; `Insert.insert` and
-- `Delete.delete` are `mm_insert` and `mm_delete`. `mm_delete_node` is `delete_min` where it is called
-- with a target and `delete_node` where it is not. A read through the sentinel's null children, and
-- a write that would colour the shared sentinel red, are faults, `none`. Recursion is structural, so
-- there is no fuel. Below Malloc/Tree, Balance has the red-black invariant, Order the sorted list that
-- the tree stands for, Refine the two together, Search the best fit, and Check `mm_check_node`.
--
-- Malloc/Heap.antt has the segment list over the memory: a list of units of 8 bytes, each read as the
-- header that may stand there, with the break of malloclab-handout/memlib.c. Malloc/Heap/Entry.antt
-- has the entry points; `init`, `malloc`, `free`, `realloc` and `check` are `mm_init` and so on. A
-- header is an index, and the user's pointers are bytes from the start of the heap. The loops over
-- segments take the number of units as fuel, since a segment has one unit at least. The result of
-- `mem_sbrk` is used as the code does, without a check, so a failure is a fault. State has the
-- invariant of the heap: its blocks are linked both ways, and the tree is valid and holds exactly the
-- free ones, as a permutation. Regions has what a call leaves alone. Alloc is about `mm_malloc`,
-- Release about `mm_free`, Start about `mm_init`, Check about `mm_check`, Request about the size of a
-- segment, Frag about `mm_frag_node`, Extend about `mm_sbrk` and Resize about `mm_realloc`; Layout,
-- Blocks and Place have the lists of blocks that they share.
--
-- The shell, shlab-handout/tsh.c, is in Shell.antt and below. Shell/Jobs.antt has the job list: the
-- global variables are a record, a `struct job_t *` is an index, and a negative `pid_t` is the number
-- 0. What the shell prints and the signals that it sends are a list of messages. Shell/Signals.antt
-- has the handlers and `waitfg`. What the kernel reports is a list of events, and one call of
-- `waitpid` after the other is a list too, so each loop recurs on its list. Signals are delivered at the
-- pauses of `waitfg` and at the prompt, and in `do_bgfg` also before and behind its look at the state of
-- the job, as a `Resuming` says; signals between other statements are not modelled. Shell/Parse.antt has
-- `parseline`, whose loop takes the length of the line and one as fuel: each argument takes at least one
-- byte. Shell/Eval.antt has `eval`, `builtin_cmd`, `do_bgfg` and the loop of `main`. The answers of
-- malloc, sigprocmask, fork and kill are a record, and libc's `strtol` is a parameter. A read of a job
-- through the null pointer is a fault. Below Shell/Eval, Resume is about `do_bgfg`, Launch about commands
-- that are not built in, Return about every command, Race about a signal in the middle of `fg`, and Faults
-- about the null pointers.
--
-- The proxy, proxylab-handout/proxy.c, is in Proxy.antt and below. A connection, Proxy/Stream.antt, is
-- what its reads give, byte by byte up to the end of the input, what its writes answer, and what has
-- been written; so the loops recur on the input, the answers or the buffer, which is the list of its
-- MAXLINE bytes. The buffers keep what they held, since `readline` writes no final 0, and Proxy/Text.antt
-- has libc's functions on them, where a read behind the buffer or through a null pointer is a fault.
-- Proxy/Relay.antt has `relay_header`, whose fuel is the number of bytes to read and one since a line has
-- a byte at least, and `relay_content`. Proxy/Request.antt has the parsers, Proxy/Socket.antt
-- `open_proxyfd` and `open_serverfd` over the answers of the system, Proxy/Process.antt `process`, and
-- Proxy/Main.antt `main`, whose endless loop is taken over a list of what comes to it.
-- The calls on descriptors and mutexes are a list in the order in which they are made. The mutex of the
-- log may be one that cannot be locked, and an entry of the log that is longer than the buffer is a
-- fault. In `main` the call of malloc is taken to succeed.
--
-- The bit puzzles, datalab-handout/bits.c, are in Bits/Puzzles.antt, and datalab-handout/tests.c, which
-- says what they are to compute, in Bits/Reference.antt. Bits/Word.antt has the words: an `int` is its
-- pattern of 32 bits as a number, with the rules that bits.c states for it, and a shift by a count that
-- may be too large has no result. Below Bits/Word are the laws of the bitwise operations, and Logic,
-- Shift, Count, Compare and Log have the proofs. Bits/Floats.antt has `float_neg` and `float_twice`, and
-- the value of the pattern of a float, and Bits/Convert.antt `float_i2f`. Its two loops take 33 rounds as
-- fuel, since each drops a digit of a word, which has 32.
--
-- Prelude.antt passes library names on, with lists, Boolean tests and the monad of faults.
--
-- Not modelled: the course's drivers and support code, which are not this repository's own, the earlier
-- drafts of the allocator, and the bytes that are printed.
pub mod Bits
pub mod Prelude
pub mod Proxy
pub mod Malloc
pub mod Shell
