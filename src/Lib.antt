-- ===== src/Lib.antt =====
-- A key-value store in a Linux kernel module, with the daemon that serves it over the network.
--
-- A client sends lines of text to the daemon. The daemon checks the user by PAM, takes a command
-- apart, and calls the device of the module by `ioctl`. The module looks the key up in a hash
-- table with a lock for each bucket. The daemon saves the table to a file and restores it from
-- there.
--
--   Message    include/kv_ioctl.h: commands, messages, limits
--   Hash       kernel/kv_hash.c, kernel/kv_hash.h. Table has the state (the table, the allocator, the
--              locks that the thread holds) and what makes a table valid, Ops the operations
--              (`kv_hash_init`, `_destroy`, `_add`, `_remove`, `_lookup`, `_count`, `_snapshot`), View
--              the map that a table stands for; Add, Remove, Lookup, Count, Snapshot, Export and
--              Lifecycle have the proofs. Locks is `kv_hash_add`, `_remove` and `_lookup` on several
--              threads, with taking the lock of a bucket, the walk over its chain, the write and the
--              release as steps of their own (Safe and Invariant have who is behind a lock, Serial and
--              Sections the whole calls, Operations the operations on the kernel, Progress and Rounds
--              that threads get their locks, Calls the threads from their start)
--   Device     kernel/kvlkm.c. Handlers has `_handle_insert` and the other handlers (without their
--              underscore), Ioctl `kv_ioctl` and the copies from and to the caller, Spec the promise
--              over a function from keys to values, Meets and Refine the refinement, Values, RoundTrip
--              and Snapshot what follows from it; Interleave is the handlers of insert, update, get
--              and delete on several threads (Promise and Atomic have the promise, Race what
--              follows), Locked is these threads down to the steps of Hash/Locks
--              (Sections, Steps, Turn, Advance and Serial have the proofs), and Walk is the count and
--              the snapshot among the threads, bucket by bucket; Module and Loading are
--              `init_module`, `init_netpoll` and `cleanup_module`
--   Daemon     user/daemon. Words and Key are the stream operations and `parse_key`, Auth is auth.cpp,
--              Operation `do_kv_operation`, Files `do_kv_snapshot_to_file` and
--              `do_kv_restore_from_file`, Command `parse_and_handle_command`, Session
--              `handle_client`, Connections several of these at once (Shared and Isolated have the
--              proofs), Main the rest from `main` to the shutdown; Protocol is the promise of texts
--              over a map that the commands on a key keep
--   Client     user/client/client.cpp from `main` on; Login, Connection and Session have the proofs
--              about it and the daemon
--   Benchmark  benchmark/benchmark.cpp: the connection, the four operations and `check_value`;
--              Baseline, Concurrent and Latency are the benchmarks, Promise, Serving and Connections
--              what they ask of their peers and that the daemon gives it; Latency/Threads is the 8
--              threads at once, Menu is `main` and `run_bench`
--   Text       what <string.h> and `snprintf` do to arrays of bytes, and decimal digits
--   Prelude    lists, tests and C's signed numbers over the native numbers
--   Tests      small inputs
--
-- Reading the models. Code that may fail for reasons outside it has an argument for them: `Env`
-- says which copies and allocations of one call succeed and what memory stands behind the message,
-- `Boot` what the kernel answers during a load, `Pam` is libpam, `Saving` the rest of the system
-- during a save, `Life` during a run of the daemon. `Hashing` stands for `hash_min` of the kernel,
-- of which only its range is assumed. A key is a number, and the daemon gives 64-bit ones only; a
-- byte is a number; `unsigned int` and `int` wrap at 2^32 where the code counts. A NULL pointer is
-- `none`, and a loop that reads through a NULL array ends with `none`. The device answers a code,
-- the caller's memory, and the new state.
--
-- Loops run over lists, over the buckets by their number in the table (`1U << bits`, the rounds of
-- `count_chains` and its kin), or, in `digits_of`, on fuel: 20 digits are enough for any number
-- below 2^64, as `Daemon.Key.Parse` uses it; the two menus run for as many rounds as they are given,
-- and `Client.Session` and `Benchmark.Menu.Ends` give them enough.
--
-- Not modelled. Of other threads, a save sees what they do between its two calls, and the daemon
-- what they have done as a whole while it listens. Several connections take turns command by command
-- (Daemon/Connections); inside a command the threads take turns at the hash table
-- (Device/Interleave), and inside an operation of the hash table at the locks of its buckets
-- (Hash/Locks, Device/Locked). There no interrupt handler and no weak memory order is modelled, and a
-- thread that finds its lock taken tries again at its next turn. A socket delivers a command whole, or
-- other bytes, in one read; pieces of one command are not put together, as the source does not. Output
-- to the logs and to the screen but for `send_command`. `get_password`, which turns the echo off
-- around one `getline`. Of the benchmark the times and the files; the logins of the 8 threads of
-- `run_latency_bench_multi_thread` stand before their commands.
pub mod Prelude
pub mod Text
pub mod Message
pub mod Hash
pub mod Device
pub mod Daemon
pub mod Client
pub mod Benchmark
mod Tests
