-- ===== src/Docker/Ready.antt =====
-- When `WaitReady` reports a runner as ready.
use runscaler.Base.{ℕ, ◌-◌, ◌≤◌, ◌≡◌, Bool, true, ◌||◌, some, List, ◌∷◌, ◌++◌, All}
use runscaler.Docker.Marker.{ready_marker, contains, joined}
use runscaler.Docker.{stdout, stderr, Event, marker, tick}
use runscaler.Docker.Waits.{outputs, StaysUp}

-- The marker is in what was written to one of the streams.
abbrev pub announced : List Event → Bool
announced es =
    contains ready_marker (joined (outputs stdout es))
    || contains ready_marker (joined (outputs stderr es))

-- The marker was written to the logs, then taken note of, and at least `settle` later an inspection
-- finds that the container runs, with none before that finds it exited.
abbrev pub SettledRun : ℕ → List Event → Type 0
SettledRun settle es =
    (before : List Event) × (meanwhile : List Event) × (t : ℕ) × (now : ℕ) × (rest : List Event)
    × (es ≡ (before ++ marker t ∷ meanwhile) ++ tick (some true) now ∷ rest)
    × (announced before ≡ true)
    × (settle ≤ now - t)
    × All StaysUp (before ++ marker t ∷ meanwhile)
