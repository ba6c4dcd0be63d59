-- ===== src/Pod/Proofs.antt =====
-- When a pod is resolved (peekbeam/src/pod.rs).
use peekbeam.Prelude.{
  ◌≡◌, refl, ◌↔◌, inl, inr, true, false, not, some, [], ◌∷◌, arith, list_beq, list_beq_iff,
  Bool-cases,
}
use peekbeam.Data.Text.{Text, text, trim, strip_prefix, split_once, eq_ignore_ascii_case}
use peekbeam.Data.Utf8.{from_utf8_lossy}
use peekbeam.Container
use peekbeam.Container.{
  Output, System, Outcome, done, failed, ◌>>=◌, ◌>>◌, or_fail, unless, ContainerTarget, Failure,
}
use peekbeam.Container.Inversion.{bind-done, then-done, unless-done, or_fail-done}
use peekbeam.Pod.{
  hostname, check_same_node, resolve_containerd, by_runtime, kubectl, is_empty, resolve,
}

module _ (sys : System) where
  -- The container that a reference `runtime://id` names.
  pub data Named (runtime id : Text) (t : ContainerTarget) : Type 0 where
    by_docker : runtime ≡ text "docker" → Container.resolve sys id ≡ done t → Named runtime id t
    by_containerd :
        runtime ≡ text "containerd" → resolve_containerd sys id ≡ done t → Named runtime id t

  by_runtime-Named :
      (runtime id : Text) (t : ContainerTarget)
      → by_runtime sys runtime id ≡ done t
      → Named runtime id t
  unfolding by_runtime
  by_runtime-Named runtime id t e = elim (Bool-cases (list_beq runtime (text "docker"))) [
    | inl d ↦ by_docker ((list_beq_iff runtime (text "docker")).0 d) (rw d at e)
    | inr n ↦ elim (Bool-cases (list_beq runtime (text "containerd"))) [
      | inl c ↦ by_containerd ((list_beq_iff runtime (text "containerd")).0 c) (rw (n, c) at e)
      | inr m ↦ absurd (ground (arith, rw (n, m) at e))
    ]
  ]

  -- What a resolved pod is.
  pub record IsPod (pod namespace : Text) (t : ContainerTarget) : Type 0 where
    pub output : Output
    pub ran : sys.output (kubectl pod namespace) ≡ some output
    pub success : output.success ≡ true
    pub node : Text
    pub reference : Text
    pub printed :
        split_once (text "|") (trim (from_utf8_lossy output.stdout)) ≡ some (node, reference)
    pub here : eq_ignore_ascii_case (hostname sys) node ≡ true
    pub runtime : Text
    pub id : Text
    pub parts : split_once (text "://") reference ≡ some (runtime, id)
    pub container : Named runtime id t

  same_node-done :
      (node : Text) {u : Unit {0}}
      → check_same_node sys node ≡ done u
      → eq_ignore_ascii_case (hostname sys) node ≡ true
  unfolding check_same_node
  same_node-done node e = ground (arith, e)

  resolve-IsPod :
      (pod namespace : Text) (t : ContainerTarget)
      → resolve sys pod namespace ≡ done t
      → IsPod pod namespace t
  unfolding resolve
  resolve-IsPod pod namespace t e =
      let (output, ran, e₁) =
        bind-done
          (or_fail (Failure.cannot_run (text "kubectl")) (sys.output (kubectl pod namespace))) _
          e in
      let stdout = from_utf8_lossy output.stdout in
      let complaint = Failure.no_such_pod pod namespace (trim (from_utf8_lossy output.stderr)) in
      let (_, fine, e₂) = then-done (unless (not output.success) complaint) _ e₁ in
      let (parts, printed, e₃) =
        bind-done (or_fail (Failure.unexpected_output stdout) (split_once (text "|") (trim stdout)))
          _ e₂ in
      let (_, _, e₄) =
        then-done (unless (is_empty parts.1) (Failure.no_running_container pod namespace)) _ e₃ in
      let (_, same, e₅) = then-done (check_same_node sys parts.0) _ e₄ in
      let (named, split, e₆) =
        bind-done (or_fail (Failure.bad_container_id parts.1) (split_once (text "://") parts.1)) _
          e₅ in
      record {
        output = output;
        ran = or_fail-done _ _ ran;
        success = ground (arith, unless-done (not output.success) complaint fine);
        node = parts.0;
        reference = parts.1;
        printed = or_fail-done _ _ printed;
        here = same_node-done parts.0 same;
        runtime = named.0;
        id = named.1;
        parts = or_fail-done _ _ split;
        container = by_runtime-Named named.0 named.1 t e₆;
      }

  Named-by_runtime :
      (runtime id : Text) (t : ContainerTarget)
      → Named runtime id t
      → by_runtime sys runtime id ≡ done t
  unfolding by_runtime list_beq
  Named-by_runtime runtime id t (by_docker d e) = rw d e
  Named-by_runtime runtime id t (by_containerd c e) = rw c e

  refers :
      (reference : Text) {p : Text × Text}
      → split_once (text "://") reference ≡ some p
      → is_empty reference ≡ false
  unfolding split_once strip_prefix
  refers [] e = absurd (ground (arith, e))
  refers (c ∷ cs) e = refl

  -- `resolve` yields a target exactly if `kubectl get pod` ran with success and printed, between
  -- white space, a node and a reference with a bar between, the node is this host's name but for the
  -- case of ASCII letters, and the reference is `docker://` or `containerd://` and an id that the
  -- container's runtime resolves to the target.
  pub resolve-IsPod_iff :
      (pod namespace : Text) (t : ContainerTarget)
      → (resolve sys pod namespace ≡ done t) ↔ IsPod pod namespace t
  unfolding resolve check_same_node
  resolve-IsPod_iff pod namespace t = (
    resolve-IsPod pod namespace t,
    λ r.
        rw (r.ran, r.success, r.printed, refers r.reference r.parts, r.here, r.parts)
          (Named-by_runtime r.runtime r.id t r.container),
  )
