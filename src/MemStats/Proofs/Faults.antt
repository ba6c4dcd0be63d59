-- ===== src/MemStats/Proofs/Faults.antt =====
-- Reading the record of a process's page faults (`read_faults` of peekbeam/src/mem_stats.rs).
use peekbeam.Prelude.{
  ℕ, ◌+◌, ◌-◌, ◌*◌, ◌^◌, ◌<◌, ◌≡◌, refl, ◌≢◌, ◌∙◌, ap, true, false, none, some, List, [], ◌∷◌, ◌++◌,
  arith,
}
use peekbeam.Data.Lists.{All, get_elem?}
use peekbeam.Data.Text.{
  Text, is_whitespace, goes_on, first_in, split_whitespace, after_last, parse, unsigned, digits,
}
use peekbeam.Userspace.Stats.{add64}
use peekbeam.Startup.{of_pid}
use peekbeam.Container.{System, done}
use peekbeam.MemStats.{add_fields, add_after, add_faults, stat_of, pids_of, read_faults}

-- A word of the record: not empty, without white space and without `)`.
abbrev pub IsWord : Text → Type 0
IsWord [] = ⊥
IsWord (c ∷ w) = All (λ c. (is_whitespace c ≡ false) × (c ≢ 41)) (c ∷ w)

-- Each word with a space before it, and a line feed at the end.
abbrev pub spaced : List Text → Text
spaced [] = 10 ∷ []
spaced (w ∷ ws) = 32 ∷ (w ++ spaced ws)

split_inside :
    (c : ℕ) (cs : Text)
    → is_whitespace c ≡ false
    → goes_on cs ≡ true
    → split_whitespace (c ∷ cs) ≡ first_in c (split_whitespace cs)
unfolding split_whitespace
split_inside c cs h e = rw (h, e) refl

split-word :
    (w r : Text) → IsWord w → goes_on r ≡ false → split_whitespace (w ++ r) ≡ w ∷ split_whitespace r
unfolding split_whitespace first_in goes_on
split-word [] r h e = elim h [ ]
split-word (c ∷ []) r h e = rw (h.0.0, e) refl
split-word (c ∷ d ∷ w) r h e =
    split_inside c (d ∷ (w ++ r)) h.0.0 (rw h.1.0.0 refl)
    ∙ ap (first_in c) (split-word (d ∷ w) r h.1 e)

spaced-stops : (ws : List Text) → goes_on (spaced ws) ≡ false
unfolding goes_on is_whitespace
spaced-stops [] = refl
spaced-stops (w ∷ ws) = refl

-- The words come back.
split_whitespace-spaced : (ws : List Text) → All IsWord ws → split_whitespace (spaced ws) ≡ ws
unfolding split_whitespace is_whitespace
split_whitespace-spaced [] h = refl
split_whitespace-spaced (w ∷ ws) h =
    split-word w (spaced ws) h.0 (spaced-stops ws) ∙ ap (◌∷◌ w) (split_whitespace-spaced ws h.1)

abbrev NoEnd : Text → Type 0
NoEnd = All (λ c. c ≢ 41)

after_last-none : (t : Text) → NoEnd t → after_last 41 t ≡ none
unfolding after_last
after_last-none [] h = refl
after_last-none (c ∷ cs) h = ground (arith, h.0, after_last-none cs h.1)

after_last-some : (front rest : Text) → NoEnd rest → after_last 41 (front ++ 41 ∷ rest) ≡ some rest
unfolding after_last
after_last-some [] rest h = rw (after_last-none rest h) refl
after_last-some (c ∷ front) rest h = rw (after_last-some front rest h) refl

word-NoEnd : (w r : Text) → IsWord w → NoEnd r → NoEnd (w ++ r)
word-NoEnd [] r h n = n
word-NoEnd (c ∷ []) r h n = (h.0.1, n)
word-NoEnd (c ∷ d ∷ w) r h n = (h.0.1, word-NoEnd (d ∷ w) r h.1 n)

spaced-NoEnd : (ws : List Text) → All IsWord ws → NoEnd (spaced ws)
spaced-NoEnd [] h = omega arith
spaced-NoEnd (w ∷ ws) h = (omega arith, word-NoEnd w (spaced ws) h.0 (spaced-NoEnd ws h.1))

digits-lt : (w n : ℕ) (s : Text) (m : ℕ) → n < 2 ^ w → digits w n s ≡ some m → m < 2 ^ w
unfolding digits
digits-lt w n [] m h e = ground (arith, h, e)
digits-lt w n (c ∷ cs) m h e = ground (arith, e, digits-lt w (n * 10 + (c - 48)) cs m)

-- A number that is read fits its type.
pub parse-lt : (w : ℕ) (s : Text) (m : ℕ) → 0 < 2 ^ w → parse w s ≡ some m → m < 2 ^ w
unfolding parse unsigned
parse-lt w [] m h e = absurd (ground (arith, e))
parse-lt w (c ∷ []) m h e = ground (arith, e, digits-lt w 0 (c ∷ []) m h)
parse-lt w (c ∷ d ∷ cs) m h e =
    ground (arith, e, digits-lt w 0 (c ∷ d ∷ cs) m h, digits-lt w 0 (d ∷ cs) m h)

-- Whatever stands before the last `)` of the record, parentheses and spaces in the program's name
-- included: when words follow it with spaces between, the faults are the numbers that the eighth and
-- the tenth word spell.
pub faults_read :
    (sys : System) (pid : ℕ) (front : Text) (words : List Text) (a b : Text) (m n : ℕ)
    → stat_of sys pid ≡ some (front ++ 41 ∷ spaced words)
    → All IsWord words
    → get_elem? words 7 ≡ some a
    → get_elem? words 9 ≡ some b
    → parse 64 a ≡ some m
    → parse 64 b ≡ some n
    → read_faults sys (of_pid pid) ≡ done (record { min_flt = m; maj_flt = n })
unfolding read_faults pids_of add_faults add_after add_fields add64
faults_read sys pid front words a b m n stat clean at₇ at₉ pm pn =
    let m_fits = parse-lt 64 a m (omega arith) pm in
    let n_fits = parse-lt 64 b n (omega arith) pn in
    rw
      (
        stat,
        after_last-some front (spaced words) (spaced-NoEnd words clean),
        split_whitespace-spaced words clean,
        at₇,
        at₉,
        pm,
        pn,
      )
      (ground (arith, m_fits, n_fits))
