-- ===== src/Tests/Tools.antt =====
-- A host with one container in one pod, and the headless loop.
use peekbeam.Prelude.{◌≡◌, refl, ◌↔◌, true, false, Option, none, some, [], list_beq, if◌then◌else◌}
use peekbeam.Data.Text.{
  Text, text, trim, trim_start, trim_end, is_whitespace, strip_prefix, split_once, parse, unsigned,
  digits, is_digit, decimal, decimal_on, lines, first_in, eq_ignore_ascii_case, lower,
}
use peekbeam.Data.Utf8.{from_utf8_lossy, decode_from, step_byte, first_byte}
use peekbeam.Container
use peekbeam.Container.{
  Output, System, done, ContainerTarget, cgroup_path_for_pid, from_pid, unified_entry, proc_cgroup,
  docker_command,
}
use peekbeam.Container.Proofs.{IsResolved, resolve_iff}
use peekbeam.Pod
use peekbeam.Pod.{hostname, check_same_node, resolve_containerd, by_runtime}
use peekbeam.Pod.Proofs.{IsPod, resolve-IsPod_iff}

tools : Unit {0}
unfolding trim trim_start trim_end is_whitespace strip_prefix split_once parse unsigned digits
    is_digit decimal decimal_on lines first_in eq_ignore_ascii_case lower from_utf8_lossy
    decode_from step_byte first_byte cgroup_path_for_pid from_pid unified_entry proc_cgroup
    docker_command Container.resolve hostname check_same_node resolve_containerd by_runtime
    Pod.resolve list_beq
tools = tt

abbrev pub prints : Text → Option Output
prints out = some (record { success = true; stdout = out; stderr = [] })

-- `docker` and `kubectl` answer; the container's first process is 42.
abbrev pub machine : System
machine = record {
  output = λ c.
      if list_beq c.program (text "docker")
      then prints (text "42|abc123\n")
      else prints (text "node-1|docker://abc123");
  var_is_set = λ v. false;
  var = λ v. none;
  exists_ = λ p. true;
  read_to_string = λ p.
      if list_beq p (text "/proc/42/cgroup")
      then some (text "0::/docker-abc\n")
      else some (text "Node-1\n");
  inode = λ p. some 4711;
}

abbrev web : ContainerTarget
web = record { cgroup_id = 4711; full_id = text "abc123"; cgroup_path = text "/docker-abc" }

resolves : Container.resolve machine (text "web") ≡ done web
unfolding tools
resolves = refl

resolve_iff_example :
    (Container.resolve machine (text "web") ≡ done web) ↔ IsResolved machine (text "web") web
resolve_iff_example = resolve_iff machine (text "web") web

resolves_pod : Pod.resolve machine (text "web-0") (text "default") ≡ done web
unfolding tools
resolves_pod = refl

resolve-IsPod_iff_example :
    (Pod.resolve machine (text "web-0") (text "default") ≡ done web)
    ↔ IsPod machine (text "web-0") (text "default") web
resolve-IsPod_iff_example = resolve-IsPod_iff machine (text "web-0") (text "default") web
