-- ===== src/Tests/Starting.antt =====
-- Starting on the process 7.
use peekbeam.Prelude.{ℕ, ◌≡◌, refl, true, false, some, none, nat_eq, []}
use peekbeam.Data.Text.{text}
use peekbeam.Data.HashMap
use peekbeam.Data.HashMap.{HashMap, get-new}
use peekbeam.Ebpf.State.{matches_target}
use peekbeam.Container.{done}
use peekbeam.Startup.{
  Args, process, choose_target, check_target_exists, set_filter, check_privileges,
}
use peekbeam.Startup.Proofs.{set_filter-matches_target}
use peekbeam.Tests.Machine.{host, begin, fired}
use peekbeam.Tests.Tools.{machine}

set_filter-matches_target_example : matches_target host (fired 7 100 []) 7 begin ≡ true
unfolding HashMap.insert HashMap.put HashMap.get HashMap.find set_filter
set_filter-matches_target_example =
    set_filter-matches_target host (process 7) HashMap.new HashMap.new (fired 7 100 []) begin
      (λ k. get-new {V = ℕ} k) (λ k. get-new {V = ℕ} k) refl

abbrev pub args : Args
args = record {
  pid = some 7;
  container = none;
  pod = none;
  namespace = text "default";
  refresh_ms = 1000;
  json = false;
  duration = none;
}

chooses : choose_target machine args ≡ done (process 7)
unfolding choose_target check_target_exists
chooses = refl

privileged : check_privileges (record { euid = 1000; cap_bpf = true; cap_perfmon = true }) ≡ done tt
unfolding check_privileges
privileged = refl
