-- ===== src/Libs.antt =====
-- What peekbeam takes from libraries when it shows its tables: f64 arithmetic, the names of the
-- machine's syscalls (the crate `syscalls`), the printers of addresses, and the order in which
-- `HashMap::iter` yields the entries.
use mathlib.Core.List.{Perm}
use peekbeam.Prelude.{ℕ, Option, List}
use peekbeam.Data.Text.{Text}
use peekbeam.Data.Floats.{Floats}
use peekbeam.NetTable.{AddrPrinter}

pub record Libs : Type 1 where
  pub floats : Floats
  pub sysno : ℕ → Option Text
  pub addrs : AddrPrinter
  pub iter : (A : Type 0) → List A → List A
  pub iter-perm : (A : Type 0) (l : List A) → Perm (iter A l) l
