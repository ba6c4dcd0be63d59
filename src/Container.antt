-- ===== src/Container.antt =====
-- peekbeam/src/container.rs: from a container's name to its cgroup, by `docker inspect` and the cgroup
-- file of its first process. `System` is what the code takes from `std`: processes, the environment
-- and the file system.
pub mod Inversion
pub mod Proofs
use Prim.Native.String.{String}
use peekbeam.Prelude.{
  ℕ, Bool, true, false, not, Option, none, some, List, [], ◌∷◌, ◌++◌, nat_beq, if◌then◌else◌,
}
use peekbeam.Data.Text.{Text, text, trim, strip_prefix, split_once, parse, decimal, lines}
use peekbeam.Data.Utf8.{from_utf8_lossy}

-- `std::process::Output`
pub record Output : Type 0 where
  pub success : Bool
  pub stdout : List ℕ
  pub stderr : List ℕ

-- A command line, with what it adds to the environment.
pub record Command : Type 0 where
  pub program : Text
  pub args : List Text
  pub envs : List (Text × Text)

-- `output` fails if the program cannot be run; `var_is_set` is `var_os(..).is_some()`; `inode` is the
-- inode number of a path's metadata.
pub record System : Type 0 where
  pub output : Command → Option Output
  pub var_is_set : Text → Bool
  pub var : Text → Option Text
  pub exists_ : Text → Bool
  pub read_to_string : Text → Option Text
  pub inode : Text → Option ℕ

-- The errors of peekbeam/src/container.rs, peekbeam/src/pod.rs, peekbeam/src/mem_stats.rs and the start
-- of peekbeam/src/main.rs, one for each message; `unreachable` stands for the panic in the last.
pub data Failure : Type 0 where
  cannot_run : Text → Failure
  no_such_container : Text → Text → Failure
  unexpected_output : Text → Failure
  bad_pid : Text → Failure
  not_running : Text → Failure
  no_metadata : Text → Failure
  no_cgroup_v2 : Failure
  unreadable_cgroup : ℕ → Failure
  no_unified_entry : ℕ → Failure
  no_such_pod : Text → Text → Text → Failure
  no_running_container : Text → Text → Failure
  other_node : Text → Text → Failure
  bad_container_id : Text → Failure
  unsupported_runtime : Text → Failure
  no_such_containerd : Text → Text → Failure
  no_such_process : ℕ → Failure
  no_privileges unreachable no_live_processes : Failure
  unreadable unparsable : Text → Failure

-- `anyhow::Result`
pub data Outcome {ℓ} (A : Type ℓ) : Type ℓ where
  done : A → Outcome A
  failed : Failure → Outcome A

infixl 5 ◌>>=◌
abbrev pub ◌>>=◌ {ℓ κ} : {A : Type ℓ} {B : Type κ} → Outcome A → (A → Outcome B) → Outcome B
done a >>= f = f a
failed e >>= f = failed e

infixl 5 ◌>>◌
abbrev pub ◌>>◌ {ℓ κ} : {A : Type ℓ} {B : Type κ} → Outcome A → Outcome B → Outcome B
done a >> b = b
failed e >> b = failed e

-- `ok_or_else` and `context`
abbrev pub or_fail {ℓ} : {A : Type ℓ} → Failure → Option A → Outcome A
or_fail e none = failed e
or_fail e (some a) = done a

-- `if bad { return Err(e) }`
abbrev pub unless : Bool → Failure → Outcome (Unit {0})
unless true e = failed e
unless false e = done tt

pub record ContainerTarget : Type 0 where
  pub cgroup_id : ℕ
  pub full_id : Text
  pub cgroup_path : Text

abbrev pub cgroup_root : Text
cgroup_root = text "/sys/fs/cgroup"

-- `lines().find_map(|line| line.strip_prefix("0::"))`
unfoldable pub unified_entry : List Text → Option Text
unified_entry [] = none
unified_entry (l ∷ ls) =
    let rest = unified_entry ls in
    elim (strip_prefix (text "0::") l) [ some path ↦ some path | none ↦ rest ]

unfoldable pub proc_cgroup : ℕ → Text
proc_cgroup pid = text "/proc/" ++ decimal pid ++ text "/cgroup"

abbrev pub inspect_args : Text → List Text
inspect_args id_or_name =
    text "inspect" ∷ text "--format" ∷ text "{{.State.Pid}}|{{.Id}}" ∷ id_or_name ∷ []

module _ (sys : System) where
  unfoldable pub cgroup_path_for_pid : ℕ → Outcome Text
  cgroup_path_for_pid pid = do
    unless (not (sys.exists_ (cgroup_root ++ text "/cgroup.controllers"))) no_cgroup_v2
    contents ← or_fail (unreadable_cgroup pid) (sys.read_to_string (proc_cgroup pid))
    or_fail (no_unified_entry pid) (unified_entry (lines contents))

  unfoldable pub from_pid : ℕ → Text → Outcome ContainerTarget
  from_pid pid full_id = do
    unless (nat_beq pid 0) (not_running full_id)
    cgroup_path ← cgroup_path_for_pid pid
    let full_path = cgroup_root ++ cgroup_path
    cgroup_id ← or_fail (no_metadata full_path) (sys.inode full_path)
    done (record { cgroup_id = cgroup_id; full_id = full_id; cgroup_path = cgroup_path })

  abbrev socket_of : ℕ → Text
  socket_of uid = text "/run/user/" ++ decimal uid ++ text "/docker.sock"

  -- what `docker_command` adds to the environment once the caller's id is known
  host_env : Option ℕ → List (Text × Text)
  host_env none = []
  host_env (some uid) =
      if sys.exists_ (socket_of uid)
      then (text "DOCKER_HOST", text "unix://" ++ socket_of uid) ∷ []
      else []

  -- `var("SUDO_UID").ok().and_then(|s| s.parse::<u32>().ok())`
  sudo_uid : Option ℕ
  sudo_uid = elim (sys.var (text "SUDO_UID")) [ none ↦ none | some s ↦ parse 32 s ]

  unfoldable pub docker_command : List Text → Command
  unfolding host_env sudo_uid
  docker_command args = record {
    program = text "docker";
    args = args;
    envs = if sys.var_is_set (text "DOCKER_HOST") then [] else host_env sudo_uid;
  }

  unfoldable pub resolve : Text → Outcome ContainerTarget
  resolve id_or_name = do
    output ←
        or_fail (cannot_run (text "docker")) (sys.output (docker_command (inspect_args id_or_name)))
    unless (not output.success)
        (no_such_container id_or_name (trim (from_utf8_lossy output.stderr)))
    let stdout = from_utf8_lossy output.stdout
    parts ← or_fail (unexpected_output stdout) (split_once (text "|") (trim stdout))
    pid ← or_fail (bad_pid parts.0) (parse 32 parts.0)
    from_pid pid (trim parts.1)
