-- ===== src/Tests/Viewing.antt =====
-- Which view `main` starts.
use peekbeam.Prelude.{◌≡◌, refl, Bool, true, false, Option, none, some, [], ◌∷◌}
use peekbeam.Data.Text.{Text, text}
use peekbeam.Startup.{process}
use peekbeam.Startup.Label.{is_headless, headless_settings, label, slice_to}
use peekbeam.Startup.View.{headless, not_installed, view}
use peekbeam.Signals
use peekbeam.Signals.{Signal, sigint, sigterm}
use peekbeam.Summary.{Summary}
use peekbeam.Userspace.Headless.{next, sample}
use peekbeam.Tests.Memory.{fractions}
use peekbeam.Tests.Snapshot.{libs, seen}
use peekbeam.Tests.Starting.{args}

abbrev serde : Summary fractions → Option Text
serde s = none

abbrev only_sigint : Signal → Bool
only_sigint sigint = true
only_sigint _ = false

viewing : Unit {0}
unfolding view is_headless headless_settings label slice_to Signals.install Signals.requested sample
viewing = tt

starts_headless :
    view libs serde
      (λ s. true)
      (λ c. true)
      5
      6
      (record args { duration = some 3 })
      (process 7)
      seen
      []
      []
    ≡ headless (some (next (record { last_emit = 6; tables = seen; printed = [] })))
unfolding viewing
starts_headless = refl

needs_both :
    view libs serde only_sigint (λ c. true) 5 6 (record args { json = true }) (process 7) seen [] []
    ≡ not_installed
unfolding viewing
needs_both = refl

sets_flag : Signals.requested (sigint ∷ sigterm ∷ []) (Signal.another_signal ∷ sigterm ∷ []) ≡ true
unfolding viewing
sets_flag = refl

cuts_id : slice_to 12 (text "0123456789abcdef") ≡ some (text "0123456789ab")
unfolding viewing slice_to
cuts_id = refl
