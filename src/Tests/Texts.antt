-- ===== src/Tests/Texts.antt =====
-- The panels and the plain text of a summary, for the tables of Tests/Snapshot.
use peekbeam.Prelude.{◌≡◌, refl, list_beq, none, [], ◌∷◌, ◌++◌, map}
use peekbeam.Data.Lists.{take, drop}
use peekbeam.Userspace.Stats.{add64}
use peekbeam.Data.Sort.{sort_by, sorted_insert}
use peekbeam.Data.Text.{
  text, decimal, decimal_on, concat, signed, lines, first_in, parse, unsigned, digits, is_digit,
  is_whitespace, split_whitespace, goes_on, after_last,
}
use peekbeam.Startup.{of_pid}
use peekbeam.FileTable.{truncate_middle}
use peekbeam.NetTable.{state_name, format_addr}
use peekbeam.MemStats
use peekbeam.Summary.{build, endpoint}
use peekbeam.Summary.Plain.{to_plain_text, connection_line}
use peekbeam.Tui.Files.{draw_files, file_cells}
use peekbeam.Tui.Memory.{draw_memory}
use peekbeam.Tui.Network.{draw_network, retransmitting}
use peekbeam.Tui.Proofs.Panels.{cells_of}
use peekbeam.Tests.Memory.{fractions, alone}
use peekbeam.Tests.Snapshot.{libs, seen}

network_header :
    (draw_network libs (text "PID 42") 9000000000 seen.connections.entries).header_text
    ≡ text "PID 42  |  uptime 9s  |  2 connections, 1 retransmitting  |  (Tab to cycle panels)"
unfolding draw_network retransmitting sort_by sorted_insert decimal decimal_on concat
network_header = refl

file_cells_shown :
    map cells_of (draw_files fractions (text "PID 42") 0 seen.files.entries).rows
    ≡ (text "/var/log/web.log" ∷ text "42:4" ∷ text "open" ∷ text "0 B" ∷ text "2048 KiB" ∷ [])
      ∷ (text "/etc/hosts" ∷ text "42:3" ∷ text "closed" ∷ text "10 B" ∷ text "0 B" ∷ [])
      ∷ []
unfolding draw_files file_cells truncate_middle sort_by sorted_insert decimal decimal_on concat
    signed MemStats.format_bytes MemStats.scale add64
file_cells_shown = refl

-- Process 42 has 12 KiB, 310 minor faults and 7 major ones.
memory_values_shown :
    map
      (λ r. take 1 (drop 1 (cells_of r)))
      (draw_memory fractions alone (text "PID 42") 0 (of_pid 42) seen.mem_events).rows
    ≡ map
        (λ t. t ∷ [])
        (text "12288 KiB"
          ∷ text "8192 KiB"
          ∷ text "0 B"
          ∷ text "0 B"
          ∷ text "0 (0 B)"
          ∷ text "0"
          ∷ text "310"
          ∷ text "7"
          ∷ [])
unfolding draw_memory MemStats.read MemStats.read_faults MemStats.read_processes
    MemStats.all_processes MemStats.add_process MemStats.add_status MemStats.key_value
    MemStats.status_of MemStats.stat_of MemStats.pids_of MemStats.add_faults MemStats.add_after
    MemStats.add_fields MemStats.format_bytes MemStats.scale list_beq decimal decimal_on lines
    first_in split_whitespace goes_on is_whitespace after_last parse unsigned digits is_digit concat
    add64
memory_values_shown = refl

plain_connections :
    to_plain_text fractions (record (build libs alone (text "PID 42") 5 seen (of_pid 42)) {
      syscalls = [];
      files = [];
      memory = none;
      page_faults = none;
    })
    ≡ text "peekbeam summary — PID 42  (uptime 5s)\n\nSyscalls:\n\nConnections:\n"
      ++ text "  10.0.0.1:5001 -> 10.0.0.1:443  state=CLOSE_WAIT  retransmits=4\n"
      ++ text "  10.0.0.1:5000 -> 10.0.0.1:443  state=ESTABLISHED  retransmits=0\n"
      ++ text "\nKernel allocs: 0 (0 B)\nKernel frees: 0\nMemory: unavailable\n"
unfolding build endpoint to_plain_text connection_line state_name format_addr sort_by sorted_insert
    decimal decimal_on concat MemStats.format_bytes MemStats.scale
plain_connections = refl
