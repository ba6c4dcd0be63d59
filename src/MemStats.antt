-- ===== src/MemStats.antt =====
-- peekbeam/src/mem_stats.rs: the memory of the target, read from the files of its cgroup or from
-- `/proc`, and its page faults. `MemoryTarget` stands in Startup.
pub mod Proofs
use Prim.Native.String.{String}
use peekbeam.Prelude.{
  ℕ, zero, suc, ◌+◌, ◌*◌, ◌%◌, ◌^◌, Bool, true, false, Option, none, some, List, [], ◌∷◌, ◌++◌,
  foldl, nat_beq, list_beq, if◌then◌else◌, ◌&&◌, ltb,
}
use peekbeam.Data.Lists.{get_elem?}
use peekbeam.Data.HashMap.{or_default}
use peekbeam.Data.Text.{Text, text, trim, parse, decimal, lines, split_whitespace, after_last}
use peekbeam.Data.Floats.{Floats}
use peekbeam.Userspace.Stats.{add64}
use peekbeam.Startup.{MemoryTarget, of_pid, of_cgroup}
use peekbeam.Container.{System, Failure, Outcome, done, failed, ◌>>=◌, ◌>>◌, or_fail, cgroup_root}

-- The two forms of `MemReport`.
pub record CgroupReport : Type 0 where
  pub current_bytes : ℕ
  pub anon_bytes : ℕ
  pub file_bytes : ℕ
  pub active_anon_bytes : ℕ
  pub inactive_anon_bytes : ℕ

pub record ProcessReport : Type 0 where
  pub rss_bytes : ℕ
  pub anon_bytes : ℕ
  pub file_bytes : ℕ
  pub shmem_bytes : ℕ
  pub num_processes : ℕ

pub data MemReport : Type 0 where
  of_controller : CgroupReport → MemReport
  of_processes : ProcessReport → MemReport

-- A line's first word, and its second as a number of 64 bits.
abbrev pub numbered : Text → Option ℕ → Option (Text × ℕ)
numbered key none = none
numbered key (some n) = some (key, n)

abbrev pub first_two : List Text → Option (Text × ℕ)
first_two (key ∷ val ∷ rest) = numbered key (parse 64 val)
first_two _ = none

unfoldable pub key_value : Text → Option (Text × ℕ)
key_value line = first_two (split_whitespace line)

-- the `match key` of `read_cgroup`
unfoldable pub set_stat : Option (Text × ℕ) → CgroupReport → CgroupReport
unfolding list_beq
set_stat none r = r
set_stat (some (key, val)) r =
    if list_beq key (text "anon")
    then record r { anon_bytes = val }
    else if list_beq key (text "file")
    then record r { file_bytes = val }
    else if list_beq key (text "active_anon")
    then record r { active_anon_bytes = val }
    else if list_beq key (text "inactive_anon")
    then record r { inactive_anon_bytes = val }
    else r

unfoldable pub read_stat : CgroupReport → Text → CgroupReport
unfolding set_stat key_value
read_stat r stat = foldl (λ r line. set_stat (key_value line) r) r (lines stat)

-- `kb * 1024`, as a release build computes it
abbrev pub kib : ℕ → ℕ
kib kb = kb * 1024 % 2 ^ 64

-- the `match key` of `read_processes`
unfoldable pub add_status : Option (Text × ℕ) → ProcessReport → ProcessReport
unfolding list_beq
add_status none r = r
add_status (some (key, kb)) r =
    if list_beq key (text "VmRSS:")
    then record r { rss_bytes = add64 r.rss_bytes (kib kb) }
    else if list_beq key (text "RssAnon:")
    then record r { anon_bytes = add64 r.anon_bytes (kib kb) }
    else if list_beq key (text "RssFile:")
    then record r { file_bytes = add64 r.file_bytes (kib kb) }
    else if list_beq key (text "RssShmem:")
    then record r { shmem_bytes = add64 r.shmem_bytes (kib kb) }
    else r

unfoldable pub add_process : Option Text → ProcessReport → ProcessReport
unfolding key_value add_status
add_process none r = r
add_process (some status) r =
    foldl (λ r line. add_status (key_value line) r)
      (record r { num_processes = add64 r.num_processes 1 }) (lines status)

abbrev pub no_processes : ProcessReport
no_processes = record {
  rss_bytes = 0;
  anon_bytes = 0;
  file_bytes = 0;
  shmem_bytes = 0;
  num_processes = 0;
}

pub record FaultStats : Type 0 where
  pub min_flt : ℕ
  pub maj_flt : ℕ

-- `s.parse().unwrap_or(0)`
abbrev pub count_of : Text → ℕ
count_of s = or_default 0 (parse 64 s)

-- one process of the loop of `read_faults`: the fields 7 and 9 behind the last parenthesis
unfoldable pub add_fields : Option Text → Option Text → Option FaultStats → Option FaultStats
add_fields (some min_flt) (some maj_flt) found =
    let stats = or_default (record { min_flt = 0; maj_flt = 0 }) found in
    some (record {
      min_flt = add64 stats.min_flt (count_of min_flt);
      maj_flt = add64 stats.maj_flt (count_of maj_flt);
    })
add_fields _ _ found = found

unfoldable pub add_after : Option Text → Option FaultStats → Option FaultStats
unfolding add_fields
add_after none found = found
add_after (some after_comm) found =
    let fields = split_whitespace after_comm in
    add_fields (get_elem? fields 7) (get_elem? fields 9) found

-- `stats` and `found_any`: nothing is found as long as this is none.
unfoldable pub add_faults : Option Text → Option FaultStats → Option FaultStats
unfolding add_after
add_faults none found = found
add_faults (some stat) found = add_after (after_last 41 stat) found

abbrev pub proc_file : ℕ → Text → Text
proc_file pid name = text "/proc/" ++ (decimal pid ++ name)

-- `filter_map(|l| l.trim().parse().ok())`
unfoldable pub pids_in : List Text → List ℕ
pids_in [] = []
pids_in (l ∷ ls) =
    let rest = pids_in ls in elim (parse 32 (trim l)) [ none ↦ rest | some pid ↦ pid ∷ rest ]

-- `or_else`
abbrev pub or_try {ℓ} : {A : Type ℓ} → Outcome A → Outcome A → Outcome A
or_try (done a) other = done a
or_try (failed e) other = other

module _ (sys : System) where
  unfoldable pub read_cgroup : Text → Outcome MemReport
  read_cgroup cgroup_path = do
    let base = cgroup_root ++ cgroup_path
    let current = base ++ text "/memory.current"
    contents ← or_fail (Failure.unreadable current) (sys.read_to_string current)
    current_bytes ← or_fail (Failure.unparsable current) (parse 64 (trim contents))
    let path = base ++ text "/memory.stat"
    stat ← or_fail (Failure.unreadable path) (sys.read_to_string path)
    done (
        of_controller (
          read_stat
            (record {
              current_bytes = current_bytes;
              anon_bytes = 0;
              file_bytes = 0;
              active_anon_bytes = 0;
              inactive_anon_bytes = 0;
            })
            stat))

  unfoldable pub read_cgroup_procs : Text → Outcome (List ℕ)
  read_cgroup_procs cgroup_path = do
    let path = cgroup_root ++ (cgroup_path ++ text "/cgroup.procs")
    contents ← or_fail (Failure.unreadable path) (sys.read_to_string path)
    done (pids_in (lines contents))

  unfoldable pub status_of : ℕ → Option Text
  status_of pid = sys.read_to_string (proc_file pid (text "/status"))

  unfoldable pub stat_of : ℕ → Option Text
  stat_of pid = sys.read_to_string (proc_file pid (text "/stat"))

  unfoldable pub all_processes : List ℕ → ProcessReport
  all_processes pids = foldl (λ r pid. add_process (status_of pid) r) no_processes pids

  unfoldable pub read_processes : List ℕ → Outcome MemReport
  read_processes pids =
      let r = all_processes pids in
      if nat_beq r.num_processes 0 then failed Failure.no_live_processes else done (of_processes r)

  unfoldable pub read : MemoryTarget → Outcome MemReport
  read (of_pid pid) = read_processes (pid ∷ [])
  read (of_cgroup path) =
      or_try (read_cgroup path) (do pids ← read_cgroup_procs path; read_processes pids)

  unfoldable pub pids_of : MemoryTarget → Outcome (List ℕ)
  pids_of (of_pid pid) = done (pid ∷ [])
  pids_of (of_cgroup path) = read_cgroup_procs path

  unfoldable pub read_faults : MemoryTarget → Outcome FaultStats
  unfolding pids_of
  read_faults target = do
    pids ← pids_of target
    or_fail Failure.no_live_processes
        (foldl (λ found pid. add_faults (stat_of pid) found) none pids)

abbrev pub units : List Text
units = text "B" ∷ text "KiB" ∷ text "MiB" ∷ text "GiB" ∷ text "TiB" ∷ []

-- `while value >= 1024.0 && unit < UNITS.len() - 1`: `left` is `UNITS.len() - 1 - unit`.
module _ (f : Floats) where
  unfoldable pub scale : ℕ → ℕ → f.F64 → ℕ × f.F64
  scale zero unit value = (unit, value)
  scale (suc left) unit value =
      let rest = scale left (unit + 1) (f.div value 1024) in
      if f.ge value 1024 then rest else (unit, value)

  unfoldable pub format_bytes : ℕ → Text
  format_bytes bytes =
      let (unit, value) = scale 4 0 (f.of_u64 bytes) in
      let name = or_default [] (get_elem? units unit) in
      if nat_beq unit 0 then decimal bytes ++ (32 ∷ name) else f.fixed 1 value ++ (32 ∷ name)
