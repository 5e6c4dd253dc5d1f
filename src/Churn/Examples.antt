-- ===== src/Churn/Examples.antt =====
-- Classifications of concrete snapshots.
use cachepilot.Prelude.{String, ◌≡◌, ◌↔◌, refl, true, false, none, some, is_none}
use cachepilot.Prelude.Int.{ℤ}
use cachepilot.Numbers.Fixed.{fixed_point}
use cachepilot.Churn.Layers.{LayeredHashes, tool_schemas}
use cachepilot.Churn.Cause.{of_layer, classify_hashes}
use cachepilot.Churn.Attribution.{IsUnmoved, classify_hashes-none_iff}

abbrev hashes : String → LayeredHashes
hashes tools = record {
  system_prefix_hash = some "prefix";
  system_suffix_hash = none;
  system_hash = some "system";
  tools_hash = some tools;
  tools_set_hash = some "set";
  history_hash = some "history";
  history_prefix_hash = none;
  history_tail_hash = some "tail";
  route_hash = none;
  model = some "model";
  cache_key = none;
}

abbrev unrounded : ℤ → ℤ
unrounded x = x

tools_moved :
    (classify_hashes unrounded (hashes "read") (hashes "write") true).likely_cause
    ≡ some (of_layer tool_schemas)
unfolding classify_hashes
tools_moved = refl

classify_hashes-none_iff_example :
    ((is_none (classify_hashes unrounded (hashes "read") (hashes "write") true).likely_cause ≡ true)
      ↔ (IsUnmoved (hashes "read") (hashes "write") × (true ≡ false)))
    × (is_none (classify_hashes unrounded (hashes "read") (hashes "write") true).confidence
        ≡ is_none (classify_hashes unrounded (hashes "read") (hashes "write") true).likely_cause)
classify_hashes-none_iff_example =
    classify_hashes-none_iff unrounded (hashes "read") (hashes "write") true
