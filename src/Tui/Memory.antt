-- ===== src/Tui/Memory.antt =====
-- peekbeam/src/tui.rs, `draw_memory`: the memory files are read again each time it draws.
use peekbeam.Prelude.{ℕ, List, [], ◌∷◌, ◌++◌}
use peekbeam.Data.Text.{Text, text, decimal, concat}
use peekbeam.Data.Floats.{Floats}
use peekbeam.Userspace.Stats.{MemEventStats}
use peekbeam.Startup.{MemoryTarget}
use peekbeam.Container.{System, Outcome, done, failed}
use peekbeam.MemStats
use peekbeam.MemStats.{MemReport, of_controller, of_processes, FaultStats, format_bytes}
use peekbeam.Tui.Screen.{exactly, at_least, Row, Screen, layout, names, plain, uptime_text}

abbrev metric : Text → Text → Text → Row
metric name value meaning = plain (name ∷ value ∷ meaning ∷ [])

-- The rows of `faults`, if there are any.
fault_rows : Outcome FaultStats → List Row
fault_rows (failed e) = []
fault_rows (done f) =
    metric (text "Minor faults") (decimal f.min_flt)
      (text "page already in memory, just needed a new mapping (cheap)")
    ∷ metric (text "Major faults") (decimal f.maj_flt)
        (text "page had to be read from disk/swap (signals memory pressure)")
    ∷ []

module _ (f : Floats) where
  -- the `match &report`
  memory_rows : Outcome MemReport → List Row × Text
  memory_rows (failed e) =
      ([], text "unavailable: no live processes found for this target (may have exited)")
  memory_rows (done (of_controller r)) = (
    metric (text "Total (memory.current)") (format_bytes f r.current_bytes)
          (text "charged to this cgroup: anon + file cache + kernel structures")
        ∷ metric (text "Anonymous") (format_bytes f r.anon_bytes)
            (text "heap/stack memory, not backed by a file")
        ∷ metric (text "File cache") (format_bytes f r.file_bytes)
            (text "file-backed memory, reclaimable under pressure")
        ∷ metric (text "Active anon") (format_bytes f r.active_anon_bytes)
            (text "anon memory used recently, unlikely to be reclaimed soon")
        ∷ metric (text "Inactive anon") (format_bytes f r.inactive_anon_bytes)
            (text "anon memory not used recently, first candidate if swap is needed")
        ∷ [],
    text "Source: cgroup memory controller.",
  )
  memory_rows (done (of_processes r)) = (
    metric (text "RSS (VmRSS)") (format_bytes f r.rss_bytes) (
          concat (
            text "resident memory summed across "
            ∷ decimal r.num_processes
            ∷ text " process(es)"
            ∷ []))
        ∷ metric (text "Anonymous") (format_bytes f r.anon_bytes)
            (text "heap/stack memory, not backed by a file")
        ∷ metric (text "File-backed") (format_bytes f r.file_bytes)
            (text "mapped/cached file pages, reclaimable under pressure")
        ∷ metric (text "Shared") (format_bytes f r.shmem_bytes)
            (text "shared memory (tmpfs, shm segments)")
        ∷ [],
    text "Source: /proc/<pid>/status (cgroup memory controller not delegated on this host).",
  )

  kernel_rows : MemEventStats → List Row
  kernel_rows m =
      metric (text "Kernel allocs")
        (concat (decimal m.alloc_count ∷ text " (" ∷ format_bytes f m.alloc_bytes ∷ text ")" ∷ []))
        (text "kmalloc calls attributed to this target, and their total requested size")
      ∷ metric (text "Kernel frees") (decimal m.free_count)
          (text "kfree calls attributed to this target")
      ∷ []

  unfoldable pub draw_memory : System → Text → ℕ → MemoryTarget → MemEventStats → Screen
  unfolding memory_rows kernel_rows fault_rows
  draw_memory sys target uptime memory_target mem_events =
      let (table_rows, footer) = memory_rows (MemStats.read sys memory_target) in
      record {
        chunks = layout;
        title = text "peekbeam — Memory";
        header_text = uptime_text target uptime (text "(Tab to cycle panels)" ∷ []);
        header = names (text "Metric" ∷ text "Value" ∷ text "What it means" ∷ []);
        widths = exactly 24 ∷ exactly 18 ∷ at_least 30 ∷ [];
        rows =
            table_rows
            ++ kernel_rows mem_events
            ++ fault_rows (MemStats.read_faults sys memory_target);
        footer = footer;
      }
