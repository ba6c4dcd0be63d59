-- ===== src/MemStats/Proofs/Totals.antt =====
-- The sums over the processes of the target (`read_processes` of peekbeam/src/mem_stats.rs).
use peekbeam.Prelude.{
  ℕ, ◌+◌, ◌%◌, ◌^◌, ◌≤◌, ◌<◌, ◌≡◌, refl, ◌∙◌, Option, none, some, List, [], ◌∷◌, foldl, arith,
  nat_beq, list_beq, list_beq_iff, if◌then◌else◌, Bool-cases, Option-cases, inl, inr,
}
use peekbeam.Data.Lists.{length}
use peekbeam.Data.Text.{Text, text, lines}
use peekbeam.Userspace.Stats.{add64}
use peekbeam.Container.{System, Failure, done, failed}
use peekbeam.MemStats.{
  of_processes, ProcessReport, key_value, kib, add_status, add_process, status_of, all_processes,
  read_processes,
}

-- What a line says of `key`, in bytes, and what the lines say together.
abbrev pub said : Text → Option (Text × ℕ) → ℕ
said key none = 0
said key (some (k, kb)) = if list_beq k key then kib kb else 0

abbrev pub amount : Text → List Text → ℕ
amount key [] = 0
amount key (l ∷ ls) = said key (key_value l) + amount key ls

-- The statuses of the processes that can be read, and the sum over them.
abbrev pub live_with : Option Text → List Text → List Text
live_with none rest = rest
live_with (some status) rest = status ∷ rest

abbrev pub live : System → List ℕ → List Text
live sys [] = []
live sys (pid ∷ pids) = live_with (status_of sys pid) (live sys pids)

abbrev pub total : Text → List Text → ℕ
total key [] = 0
total key (s ∷ ss) = amount key (lines s) + total key ss

abbrev pub rss : Text
rss = text "VmRSS:"

abbrev pub anon : Text
anon = text "RssAnon:"

abbrev pub file : Text
file = text "RssFile:"

abbrev pub shmem : Text
shmem = text "RssShmem:"

abbrev report : ℕ → ℕ → ℕ → ℕ → ℕ → ProcessReport
report a b c d n = record {
  rss_bytes = a % 2 ^ 64;
  anon_bytes = b % 2 ^ 64;
  file_bytes = c % 2 ^ 64;
  shmem_bytes = d % 2 ^ 64;
  num_processes = n % 2 ^ 64;
}

add_key :
    (key : Text) (kb a b c d n : ℕ)
    → add_status (some (key, kb)) (report a b c d n)
      ≡ report
          (a + said rss (some (key, kb)))
          (b + said anon (some (key, kb)))
          (c + said file (some (key, kb)))
          (d + said shmem (some (key, kb)))
          n
unfolding add_status add64 list_beq
add_key key kb a b c d n = elim (Bool-cases (list_beq key rss)) [
  | inl r ↦ let e = (list_beq_iff key rss).0 r in rw e (ground arith)
  | inr r ↦ elim (Bool-cases (list_beq key anon)) [
    | inl x ↦ let e = (list_beq_iff key anon).0 x in rw e (ground arith)
    | inr x ↦ elim (Bool-cases (list_beq key file)) [
      | inl y ↦ let e = (list_beq_iff key file).0 y in rw e (ground arith)
      | inr y ↦ elim (Bool-cases (list_beq key shmem)) [
        | inl z ↦ let e = (list_beq_iff key shmem).0 z in rw e (ground arith)
        | inr z ↦ rw (r, x, y, z) (ground arith)
      ]
    ]
  ]
]

add_line :
    (o : Option (Text × ℕ)) (a b c d n : ℕ)
    → add_status o (report a b c d n)
      ≡ report (a + said rss o) (b + said anon o) (c + said file o) (d + said shmem o) n
unfolding add_status
add_line none a b c d n = ground arith
add_line (some (key, kb)) a b c d n = add_key key kb a b c d n

add_lines :
    (ls : List Text) (a b c d n : ℕ)
    → foldl (λ r line. add_status (key_value line) r) (report a b c d n) ls
      ≡ report (a + amount rss ls) (b + amount anon ls) (c + amount file ls) (d + amount shmem ls) n
add_lines [] a b c d n = ground arith
add_lines (l ∷ ls) a b c d n =
    let o = key_value l in
    rw (add_line o a b c d n) (
      add_lines ls (a + said rss o) (b + said anon o) (c + said file o) (d + said shmem o) n
      ∙ ground arith)

add_processes :
    (sys : System) (pids : List ℕ) (a b c d n : ℕ)
    → foldl (λ r pid. add_process (status_of sys pid) r) (report a b c d n) pids
      ≡ report
          (a + total rss (live sys pids))
          (b + total anon (live sys pids))
          (c + total file (live sys pids))
          (d + total shmem (live sys pids))
          (n + length (live sys pids))
unfolding add_process add64
add_processes sys [] a b c d n = ground arith
add_processes sys (pid ∷ pids) a b c d n = elim (Option-cases (status_of sys pid)) [
  | inl gone ↦ rw gone (add_processes sys pids a b c d n)
  | inr (s, there) ↦
      let ls = lines s in
      let more : report a b c d (n + 1)
          ≡ record (report a b c d n) { num_processes = (n % 2 ^ 64 + 1) % 2 ^ 64 } =
        ground arith in
      rw (there, ← more, add_lines ls a b c d (n + 1))
        (add_processes sys pids (a + amount rss ls) (b + amount anon ls) (c + amount file ls)
            (d + amount shmem ls) (n + 1)
          ∙ ground arith)
]

live_few : (sys : System) (pids : List ℕ) → length (live sys pids) ≤ length pids
live_few sys [] = omega arith
live_few sys (pid ∷ pids) = ground (arith, live_few sys pids)

-- For fewer than 2^64 processes: `read_processes` fails exactly if the status of none of them can be
-- read; else each field is, modulo 2^64, the sum of what all lines with its key say in all statuses
-- that can be read, and the number of these is counted.
pub read_processes_totals :
    (sys : System) (pids : List ℕ)
    → length pids < 2 ^ 64
    → read_processes sys pids ≡ (
        if nat_beq (length (live sys pids)) 0
        then failed Failure.no_live_processes
        else done (
            of_processes (record {
              rss_bytes = total rss (live sys pids) % 2 ^ 64;
              anon_bytes = total anon (live sys pids) % 2 ^ 64;
              file_bytes = total file (live sys pids) % 2 ^ 64;
              shmem_bytes = total shmem (live sys pids) % 2 ^ 64;
              num_processes = length (live sys pids);
            })))
unfolding read_processes all_processes
read_processes_totals sys pids few =
    let whole : length (live sys pids) % 2 ^ 64 ≡ length (live sys pids) =
      omega (arith, few, live_few sys pids) in
    let summed : all_processes sys pids ≡ record {
      rss_bytes = total rss (live sys pids) % 2 ^ 64;
      anon_bytes = total anon (live sys pids) % 2 ^ 64;
      file_bytes = total file (live sys pids) % 2 ^ 64;
      shmem_bytes = total shmem (live sys pids) % 2 ^ 64;
      num_processes = length (live sys pids);
    } =
      add_processes sys pids 0 0 0 0 0 ∙ ground (arith, whole) in
    rw summed refl
