-- ===== src/Summary/Plain.antt =====
-- peekbeam/src/summary.rs, `to_plain_text`.
use peekbeam.Prelude.{Option, none, some, List, [], ◌∷◌, ◌++◌, map}
use peekbeam.Data.Text.{Text, text, decimal, signed, pad_right, concat}
use peekbeam.Data.Floats.{Floats}
use peekbeam.MemStats.{MemReport, of_controller, of_processes, FaultStats, format_bytes}
use peekbeam.Summary.{Summary, SyscallSummary, ConnectionSummary, FileSummary}

unfoldable pub connection_line : ConnectionSummary → Text
connection_line c = concat (
    text "  "
    ∷ c.local
    ∷ text " -> "
    ∷ c.remote
    ∷ text "  state="
    ∷ c.state
    ∷ text "  retransmits="
    ∷ decimal c.retransmits
    ∷ text "\n"
    ∷ [])

unfoldable pub file_line : FileSummary → Text
file_line f = concat (
    text "  "
    ∷ f.path
    ∷ text " (pid="
    ∷ decimal f.pid
    ∷ text ",fd="
    ∷ signed f.fd
    ∷ text ")  "
    ∷ f.status
    ∷ text "  read="
    ∷ decimal f.bytes_read
    ∷ text " written="
    ∷ decimal f.bytes_written
    ∷ text "\n"
    ∷ [])

-- A section that is left out when it has no rows.
section : {A : Type 0} → Text → (A → Text) → List A → Text
section title line [] = []
section title line (a ∷ as_) = title ++ concat (map line (a ∷ as_))

fault_line : Option FaultStats → Text
fault_line none = []
fault_line (some f) = concat (
    text "Page faults: minor="
    ∷ decimal f.min_flt
    ∷ text " major="
    ∷ decimal f.maj_flt
    ∷ text "\n"
    ∷ [])

module _ (f : Floats) where
  unfoldable pub syscall_line : SyscallSummary f → Text
  syscall_line s = concat (
      text "  "
      ∷ pad_right 20 s.name
      ∷ text " count="
      ∷ pad_right 8 (decimal s.count)
      ∷ text " total="
      ∷ f.fixed 2 s.total_us
      ∷ text "us avg="
      ∷ f.fixed 2 s.avg_us
      ∷ text "us  ["
      ∷ s.category
      ∷ text "]\n"
      ∷ [])

  memory_line : Option MemReport → Text
  memory_line (some (of_controller r)) =
      concat (text "Memory (cgroup): " ∷ format_bytes f r.current_bytes ∷ text "\n" ∷ [])
  memory_line (some (of_processes r)) = concat (
      text "Memory (proc): "
      ∷ format_bytes f r.rss_bytes
      ∷ text " RSS across "
      ∷ decimal r.num_processes
      ∷ text " process(es)\n"
      ∷ [])
  memory_line none = text "Memory: unavailable\n"

  unfoldable pub to_plain_text : Summary f → Text
  unfolding section fault_line memory_line syscall_line connection_line file_line
  to_plain_text s = concat (
      text "peekbeam summary — "
      ∷ s.target
      ∷ text "  (uptime "
      ∷ decimal s.uptime_secs
      ∷ text "s)\n"
      ∷ text "\nSyscalls:\n"
      ∷ concat (map syscall_line s.syscalls)
      ∷ section (text "\nConnections:\n") connection_line s.connections
      ∷ section (text "\nFiles:\n") file_line s.files
      ∷ text "\nKernel allocs: "
      ∷ decimal s.kernel_allocs
      ∷ text " ("
      ∷ format_bytes f s.kernel_alloc_bytes
      ∷ text ")\nKernel frees: "
      ∷ decimal s.kernel_frees
      ∷ text "\n"
      ∷ memory_line s.memory
      ∷ fault_line s.page_faults
      ∷ [])
