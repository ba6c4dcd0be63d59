-- ===== src/Tests/Snapshot.antt =====
-- Summaries of two connections, and the loop that prints them.
use mathlib.Core.List.Perm
use peekbeam.Prelude.{ℕ, ◌≡◌, refl, arith, true, false, Option, none, some, List, [], ◌∷◌, inl, inr}
use peekbeam.Data.Int.{pos}
use peekbeam.Data.Lists.{All}
use peekbeam.Data.Text.{Text, text}
use peekbeam.Startup.{of_pid}
use peekbeam.Userspace.Stats.{ConnectionKey, Tables}
use peekbeam.Userspace.Drain.{
  poll_events, drain, drain_syscalls, drain_net_events, drain_file_events, drain_mem_events, Rings,
}
use peekbeam.Libs.{Libs}
use peekbeam.Summary.{Summary, build}
use peekbeam.Summary.Proofs.{Shows, build-Shows}
use peekbeam.Userspace.Headless.{Settings, Tick, Loop, sample}
use peekbeam.Userspace.Proofs.Sampling.{Polls, PrintedOnce, timed_run}
use peekbeam.Userspace.Proofs.Streaming.{Streamed, stream_rate}
use peekbeam.Tests.Viewer.{empty_tables}
use peekbeam.Tests.Memory.{fractions, alone}

abbrev pub libs : Libs
libs = record {
  floats = fractions;
  sysno = λ nr. some (text "openat");
  addrs = record { ipv4 = λ bytes. text "10.0.0.1"; ipv6 = λ bytes. text "::1" };
  iter = λ A l. l;
  iter-perm = λ A l. Perm.rfl;
}

abbrev peer : ℕ → ConnectionKey
peer port = record { family = 2; sport = port; dport = 443; saddr = []; daddr = [] }

-- Two of each kind; the second connection and the second file come first when sorted.
abbrev pub seen : Tables
seen = record empty_tables {
  syscalls = record {
    pending = record { entries = [] };
    stats = record {
      entries =
          (0, record { count = 3; total_ns = 900 })
          ∷ (257, record { count = 1; total_ns = 1000 })
          ∷ [];
    };
  };
  connections = record {
    entries =
        (peer 5000, record { state = 1; retransmits = 0 })
        ∷ (peer 5001, record { state = 8; retransmits = 4 })
        ∷ [];
  };
  files = record {
    entries =
        (
          (42, pos 3),
          record { path = text "/etc/hosts"; bytes_read = 10; bytes_written = 0; closed = true },
        )
        ∷ (
          (42, pos 4),
          record {
            path = text "/var/log/web.log";
            bytes_read = 0;
            bytes_written = 2048;
            closed = false;
          },
        )
        ∷ [];
  };
}

build-Shows_example : Shows libs seen (build libs alone (text "PID 42") 5 seen (of_pid 42))
build-Shows_example = build-Shows libs alone (text "PID 42") 5 seen (of_pid 42)

abbrev pub quiet : Rings
quiet = record { ring_buf = []; net_ring_buf = []; file_ring_buf = []; mem_ring_buf = [] }

abbrev tick : ℕ → Tick
tick now = record {
  rings = quiet;
  requested = false;
  tested = now;
  built = now;
  sys = alone;
  emitted = now;
}

pub quiet-polls : (s : Tables) → (s' : Tables) × (poll_events quiet s ≡ some s')
unfolding poll_events drain drain_syscalls drain_net_events drain_file_events drain_mem_events
quiet-polls s = (s, refl)

abbrev window : Option ℕ → Settings
window duration = record {
  target = text "PID 42";
  memory_target = of_pid 42;
  duration = duration;
  json = true;
  refresh = 10;
  start = 5;
}

abbrev fresh : Loop
fresh = record { last_emit = 5; tables = seen; printed = [] }

abbrev ticks : List Tick
ticks = tick 10 ∷ tick 200 ∷ []

ticks-Polls : All Polls ticks
ticks-Polls = (quiet-polls, (quiet-polls, tt))

abbrev serde : Summary fractions → Option Text
serde s = some (text "{..}")

-- Two turns: the window of 100 ns is over at the second, and the second is the first to print.
timed_run_example :
    PrintedOnce libs serde
      (window (some 100))
      100
      ticks
      fresh
      (sample libs serde (window (some 100)) ticks fresh)
timed_run_example =
    timed_run libs serde (window (some 100)) 100 ticks fresh refl ticks-Polls
      (inr (inl (inr (omega arith))))

stream_rate_example :
    Streamed libs serde (window none) fresh (sample libs serde (window none) ticks fresh)
stream_rate_example =
    stream_rate libs serde (window none) ticks fresh refl ticks-Polls (refl, (refl, tt))
      (omega arith, omega arith, (omega arith, omega arith, tt))
