-- ===== src/Lib.antt =====
-- peekbeam shows what one target (a process, a container or a pod) does: its syscalls and their
-- latency, its TCP connections, its files and its kernel allocations. Six eBPF programs run in the
-- kernel at tracepoints, filter on the target and write records to four ring buffers; the userspace
-- drains the ring buffers into tables, and its views read the tables.
--
-- The parts and the files that model them:
--
-- - peekbeam-common/src/lib.rs, the records that both sides share: Common (the records), Common/Layout
--   (their bytes, as `repr(C)` lays them out on a little-endian machine), Common/RoundTrip.
-- - peekbeam-ebpf/src/main.rs, the programs. Ebpf/Host is the interface to aya-ebpf and the kernel: a
--   bounded hash map may refuse an insertion and a ring buffer may refuse a record, and a tracepoint's
--   context gives the task, the clock and fallible reads of the kernel's record. Ebpf/State has the
--   `static` maps as one record, an action for each change of one, and `matches_target`; Ebpf/Files has
--   `handle_file_syscall` and its callees, Ebpf/Net `try_net_state` and `try_net_retransmit`, Ebpf/Mem
--   `try_kmalloc` and `try_kfree`, Ebpf/Syscalls `try_emit`, Ebpf/Programs the entry points (`fire`) and
--   a run of firings. A program is a function from the state to a result and a state, so what it wrote
--   before an error stays written. Proofs are in Ebpf/Proofs.
-- - peekbeam/src/main.rs, the tables (Userspace/Stats), what each of the four loops does with one record
--   (Userspace/Apply), and the loops over the items of the ring buffers with `poll_events`
--   (Userspace/Drain). Proofs are in Userspace/Proofs.
-- - peekbeam/src/file_table.rs: FileTable.
-- - peekbeam/src/container.rs and peekbeam/src/pod.rs: Container and Pod, over a parameter `System` for
--   the processes, the environment and the files that the code reads; Container/Inversion has the lemmas on
--   chains of steps that may fail.
-- - peekbeam/src/main.rs, `main`: Startup (the arguments, the target, the privileges, the filter),
--   Startup/Launch (loading, attaching, the ring buffers; programs that are attached fire while the next
--   are being attached), Startup/Label (the label, and what the views are called with) and Startup/View
--   (which view is started).
-- - peekbeam/src/signals.rs: Signals.
-- - peekbeam/src/net_table.rs and peekbeam/src/syscall_table.rs, the names: NetTable and SyscallTable.
-- - peekbeam/src/mem_stats.rs: MemStats, over the files of the same `System`.
-- - peekbeam/src/summary.rs: Summary (`build`, `to_json`) and Summary/Plain (`to_plain_text`). What the
--   views take from libraries is the record in Libs: f64 arithmetic (Data/Floats), the names of the
--   syscalls, the printers of addresses, and the order in which a HashMap yields its entries.
-- - peekbeam/src/headless.rs: Userspace/Headless, the loop over turns that are given the ring buffers, the
--   flag of peekbeam/src/signals.rs, the clock and the machine, with the texts that it prints.
-- - peekbeam/src/tui.rs: Tui. A panel is drawn as data (Tui/Screen; Tui/Syscalls, Tui/Network, Tui/Memory
--   and Tui/Files for the four `draw_` functions); Tui/Keys is what an event does, Tui/Loop is `run_loop`
--   over rounds that are given the flag, the event, the ring buffers, the clock and whether drawing
--   succeeds, and Tui/Run is `run` with its calls, each of which may fail.
--
-- Tracing puts both sides together: what the programs write is what the loops read.
--
-- Prelude has the shared names; Data has integers and their casts, lists by native numbers, the execution
-- monad (Data/Exec) with the rules for invariants of its programs (Data/Keeps), `std`'s HashMap as an
-- association list, the lossy UTF-8 decoder of `std`, the stable sort of slices (Data/Sort), and what the
-- source uses of `str` (Data/Text). Tests applies the theorems on concrete hosts, machines and terminals.
--
-- Bounds: u64 counters wrap around at 2^64, as in a release build; casts keep the low bits; paths have 64
-- bytes and addresses 16. The loops of the modelled code go over a finite list of items, turns or rounds,
-- and `format_bytes` divides at most four times; only the decimal digits of a number run on fuel, 20
-- steps, which a number of 64 bits never uses up. The firings of the programs are taken one after the
-- other; what happens inside one firing is not interleaved with another on a second processor. A path
-- longer than its buffer, and the kernel's and aya's maps, ring buffers and helpers, are what the
-- parameters in Ebpf/Host say of them.
--
-- Not modelled: the layout of the panels on the terminal (ratatui) and the terminal itself (crossterm),
-- how signal_hook registers a handler, the printer of JSON (serde_json), a standard output that cannot be
-- written to, the logger and the limit of locked memory, the parser of the command line (clap), and what
-- aya does to load and attach a program (that a call succeeds or fails is a parameter). The build scripts
-- are left out as build glue.
pub mod Prelude
pub mod Data
pub mod Common
pub mod Ebpf
pub mod FileTable
pub mod Userspace
pub mod Container
pub mod Pod
pub mod Startup
pub mod NetTable
pub mod SyscallTable
pub mod MemStats
pub mod Libs
pub mod Signals
pub mod Summary
pub mod Tui
pub mod Tracing
pub mod Tests
