-- ===== src/Leases/History/Examples.antt =====
-- A session that switches its identity, while a real request and a returning warm come in between.
use cachepilot.Prelude.{◌≡◌, refl, none, some, List, [], ◌∷◌}
use cachepilot.Prelude.Int.{ℤ, pos}
use cachepilot.Numbers.Fixed.{fixed_point, fixed_conversion}
use cachepilot.Dict.{lookup}
use cachepilot.Telemetry.{confirmed_hit}
use cachepilot.Leases.{CacheLease}
use cachepilot.Leases.Runtime.{find_lease}
use cachepilot.Leases.Calls.{
  Call, request_starts, request_ends, creates, evaluates, warm_returns, target_finishes, run,
}
use cachepilot.Leases.History.{Evolves}
use cachepilot.Leases.History.Runs.{run-Evolves}
use cachepilot.Leases.Examples.{no_hash, one_lease, lease_a, identity_of, rebuilt, seconds}

abbrev calls : List (Call ℤ ℤ)
calls =
    creates "b" (identity_of "fb") none (pos 500)
    ∷ request_starts (seconds 200) "a"
    ∷ warm_returns (seconds 205) rebuilt "a"
    ∷ request_ends (seconds 210) "a" confirmed_hit
    ∷ target_finishes "a" "main"
    ∷ evaluates (seconds 220) "b"
    ∷ []

run-Evolves_example :
    (l' : CacheLease ℤ ℤ) × (find_lease "a" (run no_hash calls one_lease) ≡ some l')
    × Evolves lease_a l'
unfolding find_lease lookup
run-Evolves_example =
    run-Evolves no_hash calls "a" lease_a one_lease (refl, (tt, (tt, (tt, (tt, (tt, tt)))))) refl
