-- ===== src/Tests/Memory.antt =====
-- The memory files of one process, and sizes as fractions.
use Prim.Native.Nat.{compare}
use peekbeam.Prelude.{
  ℕ, zero, suc, ◌*◌, ◌^◌, ◌%◌, ◌≡◌, refl, ap, ◌∙◌, arith, none, some, List, [], ◌∷◌, ◌++◌, leb,
  list_beq, nat_beq, if◌then◌else◌, inr,
}
use peekbeam.Data.Lists.{All, length}
use peekbeam.Data.Text.{
  Text, text, decimal, parse, unsigned, digits, is_digit, is_whitespace, decimal_on,
}
use peekbeam.Data.Floats.{Floats, scaled, IsExact}
use peekbeam.Startup.{of_pid}
use peekbeam.Container.{System, done, failed, Failure}
use peekbeam.MemStats.{of_processes, stat_of, read_faults, read_processes, format_bytes}
use peekbeam.MemStats.Proofs.Totals.{live, total, rss, anon, file, shmem, read_processes_totals}
use peekbeam.MemStats.Proofs.Faults.{spaced, IsWord, faults_read}
use peekbeam.MemStats.Proofs.Units.{shown_in, format_bytes_unit}
use peekbeam.Tests.Tools.{machine}

pub compare-scaled : (m n : ℕ) → compare (m * 1000) (n * 1000) ≡ compare m n
compare-scaled m n = ground arith

-- Fractions in place of floating-point numbers.
abbrev pub fractions : Floats
fractions = record {
  F64 = ℕ × ℕ;
  of_u64 = λ n. (n, 1);
  div = λ x c. (x.0, x.1 * c);
  ge = λ x c. leb (c * x.1) x.0;
  partial_cmp = λ x y. some (compare (x.0 * y.1) (y.0 * x.1));
  fixed = λ n x. decimal x.0;
  rank = λ x. x.0;
  partial_cmp-rank = λ m n. ap some (compare-scaled m n);
}

scaled-fraction : (n b : ℕ) → scaled fractions n (b, 1) ≡ (b, 1024 ^ n)
scaled-fraction zero b = refl
scaled-fraction (suc n) b =
    let power : 1024 ^ n * 1024 ≡ 1024 ^ suc n = grind arith in
    ap (λ x. fractions.div x 1024) (scaled-fraction n b) ∙ ap (λ d. (b, d)) power

fractions-IsExact : IsExact fractions
fractions-IsExact b n small =
    let power : 1024 * 1024 ^ n ≡ 1024 ^ suc n = grind arith in
    ap (λ x. fractions.ge x 1024) (scaled-fraction n b) ∙ ap (λ d. leb d b) power

format_bytes_unit_example : format_bytes fractions 5000000 ≡ shown_in fractions 2 5000000
format_bytes_unit_example =
    format_bytes_unit fractions 5000000 2 fractions-IsExact (omega arith)
      (inr (omega arith), inr (omega arith), omega arith)

-- `stat` and `status` of process 42; no other process lives.
abbrev fault_words : List Text
fault_words =
    text "S"
    ∷ text "1"
    ∷ text "42"
    ∷ text "42"
    ∷ text "0"
    ∷ text "-1"
    ∷ text "4194560"
    ∷ text "310"
    ∷ text "0"
    ∷ text "7"
    ∷ []

abbrev pub alone : System
alone = record machine {
  read_to_string = λ p.
      if list_beq p (text "/proc/42/stat")
      then some (text "42 (web (1" ++ 41 ∷ spaced fault_words)
      else if list_beq p (text "/proc/42/status")
      then some (text "Name:\tweb\nVmRSS:\t  12 kB\nRssAnon:\t   8 kB\n")
      else none;
}

fault_words-IsWord : All IsWord fault_words
unfolding is_whitespace
fault_words-IsWord = ground arith

tests : Unit {0}
unfolding stat_of decimal decimal_on list_beq parse unsigned digits is_digit
tests = tt

faults_read_example : read_faults alone (of_pid 42) ≡ done (record { min_flt = 310; maj_flt = 7 })
unfolding stat_of tests
faults_read_example =
    faults_read alone 42 (text "42 (web (1") fault_words (text "310") (text "7") 310 7 refl
      fault_words-IsWord refl refl refl refl

abbrev pids : List ℕ
pids = 42 ∷ 43 ∷ []

read_processes_totals_example : read_processes alone pids ≡ (
    if nat_beq (length (live alone pids)) 0
    then failed Failure.no_live_processes
    else done (
        of_processes (record {
          rss_bytes = total rss (live alone pids) % 2 ^ 64;
          anon_bytes = total anon (live alone pids) % 2 ^ 64;
          file_bytes = total file (live alone pids) % 2 ^ 64;
          shmem_bytes = total shmem (live alone pids) % 2 ^ 64;
          num_processes = length (live alone pids);
        })))
read_processes_totals_example = read_processes_totals alone pids (omega arith)
