-- ===== src/Topology/Attribution.antt =====
-- What the attribution of a pair to the parts of the prompt sees.
use cachepilot.Prelude.{String, ◌≡◌, ◌↔◌, Bool, true, Option, none, some, arith}
use cachepilot.Churn.Layers.{Layer, system_prefix, system_suffix, history, history_tail}
use cachepilot.Topology.SubLayers.{SubLayers, identical, sub_layer_status, status_of}

abbrev Seen : SubLayers → Option Layer → Type 0
Seen s first =
    ((s.prefix ≡ some true) ↔ (first ≡ some system_prefix))
    × ((s.suffix ≡ some true) ↔ (first ≡ some system_suffix))
    × ((s.past ≡ some true) ↔ (first ≡ some history))
    × ((s.tail ≡ some true) ↔ (first ≡ some history_tail))

table : (system past : Bool) (first : Option Layer) → Seen (status_of system past first) first
unfolding status_of
table system past none = ground arith
table system past (some system_prefix) = ground arith
table system past (some l) = ground arith

-- A part of the prompt counts as changed exactly when it is the layer that diverged first.
sub_layer_status-changed_iff :
    (system_a system_b history_a history_b : Option String) (first : Option Layer)
    → let s = sub_layer_status system_a system_b history_a history_b first in
      ((s.prefix ≡ some true) ↔ (first ≡ some system_prefix))
      × ((s.suffix ≡ some true) ↔ (first ≡ some system_suffix))
      × ((s.past ≡ some true) ↔ (first ≡ some history))
      × ((s.tail ≡ some true) ↔ (first ≡ some history_tail))
unfolding sub_layer_status
sub_layer_status-changed_iff system_a system_b history_a history_b first =
    table (identical system_a system_b) (identical history_a history_b) first
