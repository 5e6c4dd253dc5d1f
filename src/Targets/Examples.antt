-- ===== src/Targets/Examples.antt =====
-- Two starts and one stop of a target.
use cachepilot.Prelude.{ℕ, ◌≡◌, refl, true, List, [], ◌∷◌}
use cachepilot.Dict.{lookup}
use cachepilot.Targets.{BackgroundTarget, BackgroundTargetRegistry, process, no_targets, refcount}
use cachepilot.Targets.Counts.{
  Event, starts, stops, run, counted, IsCounted, run-refcount, run-IsCounted,
}

abbrev build : BackgroundTarget ℕ
build = record {
  id = "process:build";
  kind = process;
  session_id = "session";
  started_at = 0;
  expected_completion = true;
}

abbrev events : List (Event ℕ)
events = starts build ∷ starts build ∷ stops "process:build" ∷ stops "other" ∷ []

abbrev empty_registry : BackgroundTargetRegistry ℕ
empty_registry = no_targets

empty_registry-IsCounted : IsCounted empty_registry
unfolding lookup
empty_registry-IsCounted = record { together = λ j. refl; positive = λ j e. cc }

run-refcount_example :
    refcount "process:build" (run events empty_registry)
    ≡ counted "process:build" events (refcount "process:build" empty_registry)
run-refcount_example = run-refcount "process:build" events empty_registry

run-IsCounted_example : IsCounted (run events empty_registry)
run-IsCounted_example = run-IsCounted events empty_registry empty_registry-IsCounted
