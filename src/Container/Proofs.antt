-- ===== src/Container/Proofs.antt =====
-- What a resolved container is (peekbeam/src/container.rs).
use peekbeam.Prelude.{
  ℕ, ◌≡◌, refl, ◌≢◌, ◌↔◌, true, false, not, none, some, List, [], ◌∷◌, ◌++◌, arith, nat_beq,
  Option-cases, inl, inr,
}
use peekbeam.Data.Text.{Text, text, trim, strip_prefix, split_once, parse, lines}
use peekbeam.Data.Utf8.{from_utf8_lossy}
use peekbeam.Container.Inversion.{bind-done, then-done, unless-done, or_fail-done}
use peekbeam.Container.{
  Output, System, done, or_fail, unless, ContainerTarget, cgroup_root, unified_entry, proc_cgroup,
  cgroup_path_for_pid, from_pid, docker_command, inspect_args, resolve, Failure,
}

-- The line `0::path` stands in the list and no earlier line begins with `0::`.
pub data FirstEntry (path : Text) : List Text → Type 0 where
  here :
      (l : Text) (ls : List Text)
      → strip_prefix (text "0::") l ≡ some path
      → FirstEntry path (l ∷ ls)
  later :
      (l : Text) (ls : List Text)
      → strip_prefix (text "0::") l ≡ none
      → FirstEntry path ls
      → FirstEntry path (l ∷ ls)

unified_entry-FirstEntry :
    (ls : List Text) (path : Text) → unified_entry ls ≡ some path → FirstEntry path ls
unfolding unified_entry strip_prefix
unified_entry-FirstEntry [] path e = absurd (ground (arith, e))
unified_entry-FirstEntry (l ∷ ls) path e = elim (Option-cases (strip_prefix (text "0::") l)) [
  | inl miss ↦ later l ls miss (unified_entry-FirstEntry ls path (rw miss at e))
  | inr (p, hit) ↦ here l ls (ground (arith, hit, e))
]

FirstEntry-unified_entry :
    (ls : List Text) (path : Text) → FirstEntry path ls → unified_entry ls ≡ some path
unfolding unified_entry strip_prefix
FirstEntry-unified_entry [] path p = elim p [ ]
FirstEntry-unified_entry (l ∷ ls) path (here _ _ hit) = rw hit refl
FirstEntry-unified_entry (l ∷ ls) path (later _ _ miss p) =
    rw miss (FirstEntry-unified_entry ls path p)

module _ (sys : System) where
  -- The target is the cgroup of the process `pid`.
  pub record IsCgroupOf (pid : ℕ) (full_id : Text) (t : ContainerTarget) : Type 0 where
    pub running : pid ≢ 0
    pub cgroup_v2 : sys.exists_ (cgroup_root ++ text "/cgroup.controllers") ≡ true
    pub contents : Text
    pub contents_read : sys.read_to_string (proc_cgroup pid) ≡ some contents
    pub entry : FirstEntry t.cgroup_path (lines contents)
    pub inode : sys.inode (cgroup_root ++ t.cgroup_path) ≡ some t.cgroup_id
    pub id : t.full_id ≡ full_id

  -- `from_pid` yields a target only for a process that is running, on a host with cgroups v2; the
  -- target's path is that of the first line of the process's cgroup file that begins with `0::`, its
  -- cgroup id is the inode of that path under the root, and its id is the one given.
  pub from_pid_sound :
      (pid : ℕ) (full_id : Text) (t : ContainerTarget)
      → from_pid sys pid full_id ≡ done t
      → IsCgroupOf pid full_id t
  unfolding from_pid cgroup_path_for_pid
  from_pid_sound pid full_id t e =
      let (_, alive, e₁) = then-done (unless (nat_beq pid 0) (Failure.not_running full_id)) _ e in
      let (path, found, e₂) = bind-done (cgroup_path_for_pid sys pid) _ e₁ in
      let (id, stat, e₃) =
        bind-done
          (or_fail (Failure.no_metadata (cgroup_root ++ path)) (sys.inode (cgroup_root ++ path))) _
          e₂ in
      let (_, v2, f₁) =
        then-done
          (unless (not (sys.exists_ (cgroup_root ++ text "/cgroup.controllers")))
            Failure.no_cgroup_v2)
          _ found in
      let (contents, got, f₂) =
        bind-done (or_fail (Failure.unreadable_cgroup pid) (sys.read_to_string (proc_cgroup pid))) _
          f₁ in
      let same : record { cgroup_id = id; full_id = full_id; cgroup_path = path } ≡ t =
        ground (arith, e₃) in
      rw (← same) (record {
        running = ground (arith, unless-done (nat_beq pid 0) (Failure.not_running full_id) alive);
        cgroup_v2 = ground (
          arith,
          unless-done (not (sys.exists_ (cgroup_root ++ text "/cgroup.controllers")))
              Failure.no_cgroup_v2 v2,
        );
        contents = contents;
        contents_read = or_fail-done _ _ got;
        entry = unified_entry-FirstEntry (lines contents) path (or_fail-done _ _ f₂);
        inode = or_fail-done _ _ stat;
        id = refl;
      })

  -- `resolve` yields a target only if `docker inspect` ran with success and printed, between white
  -- space, a process id and a container id with a bar between: then the id is the container id, and
  -- the rest is as for that process, which is not 0.
  pub record IsResolved (id_or_name : Text) (t : ContainerTarget) : Type 0 where
    pub output : Output
    pub ran : sys.output (docker_command sys (inspect_args id_or_name)) ≡ some output
    pub success : output.success ≡ true
    pub left : Text
    pub right : Text
    pub printed : split_once (text "|") (trim (from_utf8_lossy output.stdout)) ≡ some (left, right)
    pub pid : ℕ
    pub pid_read : parse 32 left ≡ some pid
    pub cgroup : IsCgroupOf pid (trim right) t

  pub resolve_sound :
      (id_or_name : Text) (t : ContainerTarget)
      → resolve sys id_or_name ≡ done t
      → IsResolved id_or_name t
  unfolding resolve
  resolve_sound id_or_name t e =
      let (output, ran, e₁) =
        bind-done
          (or_fail (Failure.cannot_run (text "docker"))
            (sys.output (docker_command sys (inspect_args id_or_name))))
          _ e in
      let stdout = from_utf8_lossy output.stdout in
      let complaint = Failure.no_such_container id_or_name (trim (from_utf8_lossy output.stderr)) in
      let (_, fine, e₂) = then-done (unless (not output.success) complaint) _ e₁ in
      let (parts, printed, e₃) =
        bind-done (or_fail _ (split_once (text "|") (trim (from_utf8_lossy output.stdout)))) _ e₂ in
      let (pid, number, e₄) =
        bind-done (or_fail (Failure.bad_pid parts.0) (parse 32 parts.0)) _ e₃ in
      record {
        output = output;
        ran = or_fail-done _ _ ran;
        success = ground (arith, unless-done (not output.success) complaint fine);
        left = parts.0;
        right = parts.1;
        printed = or_fail-done _ _ printed;
        pid = pid;
        pid_read = or_fail-done _ _ number;
        cgroup = from_pid_sound pid (trim parts.1) t e₄;
      }

  from_pid_complete :
      (pid : ℕ) (full_id : Text) (t : ContainerTarget)
      → IsCgroupOf pid full_id t
      → from_pid sys pid full_id ≡ done t
  unfolding from_pid cgroup_path_for_pid
  from_pid_complete pid full_id t r =
      let alive : nat_beq pid 0 ≡ false = ground (arith, r.running) in
      let found = FirstEntry-unified_entry (lines r.contents) t.cgroup_path r.entry in
      rw (alive, r.cgroup_v2, r.contents_read, found, r.inode, ← r.id) refl

  -- `resolve` yields a target exactly if `docker inspect` ran with success and printed, between
  -- white space, a process id and a container id with a bar between, the process is not 0, the host
  -- has cgroups v2, and the target is made of the container id, of the path of the first line of the
  -- process's cgroup file that begins with `0::`, and of the inode of that path under the root.
  pub resolve_iff :
      (id_or_name : Text) (t : ContainerTarget)
      → (resolve sys id_or_name ≡ done t) ↔ IsResolved id_or_name t
  unfolding resolve
  resolve_iff id_or_name t = (
    resolve_sound id_or_name t,
    λ r.
        rw (r.ran, r.success, r.printed, r.pid_read)
          (from_pid_complete r.pid (trim r.right) t r.cgroup),
  )
