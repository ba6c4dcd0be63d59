-- ===== src/Pod.antt =====
-- peekbeam/src/pod.rs: from a pod to its container, by `kubectl` and then `docker` or `crictl`.
pub mod Proofs
use Prim.Native.String.{String}
use peekbeam.Prelude.{
  ℕ, Bool, true, false, not, Option, none, some, List, [], ◌∷◌, ◌++◌, nat_beq, if◌then◌else◌,
  list_beq,
}
use peekbeam.Data.Text.{Text, text, trim, split_once, parse, eq_ignore_ascii_case}
use peekbeam.Data.Utf8.{from_utf8_lossy}
use peekbeam.Container
use peekbeam.Container.{
  Output, Command, System, Failure, cannot_run, unexpected_output, bad_pid, no_such_pod,
  no_running_container, other_node, bad_container_id, unsupported_runtime, no_such_containerd,
  Outcome, done, failed, ◌>>=◌, ◌>>◌, or_fail, unless, ContainerTarget, from_pid,
}

abbrev pub is_empty : Text → Bool
is_empty [] = true
is_empty (c ∷ cs) = false

-- `unwrap_or_default`
abbrev pub or_empty : Option Text → Text
or_empty none = []
or_empty (some t) = t

abbrev crictl : Text → Command
crictl id = record {
  program = text "crictl";
  args =
      text "inspect"
      ∷ text "--output"
      ∷ text "go-template"
      ∷ text "--template"
      ∷ text "{{.info.pid}}"
      ∷ id
      ∷ [];
  envs = [];
}

abbrev pub kubectl : Text → Text → Command
kubectl pod namespace = record {
  program = text "kubectl";
  args =
      text "get"
      ∷ text "pod"
      ∷ pod
      ∷ text "-n"
      ∷ namespace
      ∷ text "-o"
      ∷ text "jsonpath={.spec.nodeName}|{.status.containerStatuses[0].containerID}"
      ∷ [];
  envs = [];
}

module _ (sys : System) where
  unfoldable pub hostname : Text
  hostname = trim (or_empty (sys.read_to_string (text "/proc/sys/kernel/hostname")))

  unfoldable pub check_same_node : Text → Outcome (Unit {0})
  check_same_node node_name =
      if eq_ignore_ascii_case (hostname) node_name
      then done tt
      else failed (other_node node_name (hostname))

  unfoldable pub resolve_containerd : Text → Outcome ContainerTarget
  resolve_containerd id = do
    output ← or_fail (cannot_run (text "crictl")) (sys.output (crictl id))
    unless (not output.success) (no_such_containerd id (trim (from_utf8_lossy output.stderr)))
    let stdout = from_utf8_lossy output.stdout
    pid ← or_fail (bad_pid stdout) (parse 32 (trim stdout))
    from_pid sys pid id

  -- the `match runtime`
  unfoldable pub by_runtime : Text → Text → Outcome ContainerTarget
  unfolding list_beq
  by_runtime runtime id =
      if list_beq runtime (text "docker")
      then Container.resolve sys id
      else if list_beq runtime (text "containerd")
      then resolve_containerd id
      else failed (unsupported_runtime runtime)

  unfoldable pub resolve : Text → Text → Outcome ContainerTarget
  resolve pod namespace = do
    output ← or_fail (cannot_run (text "kubectl")) (sys.output (kubectl pod namespace))
    unless (not output.success) (no_such_pod pod namespace (trim (from_utf8_lossy output.stderr)))
    let stdout = from_utf8_lossy output.stdout
    parts ← or_fail (unexpected_output stdout) (split_once (text "|") (trim stdout))
    let node_name = parts.0
    let container_ref = parts.1
    unless (is_empty container_ref) (no_running_container pod namespace)
    check_same_node node_name
    named ← or_fail (bad_container_id container_ref) (split_once (text "://") container_ref)
    by_runtime named.0 named.1
