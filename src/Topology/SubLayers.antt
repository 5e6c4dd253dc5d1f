-- ===== src/Topology/SubLayers.antt =====
-- topology.py: what the digests of a pair and its first divergence say of the parts of the prompt.
use cachepilot.Prelude.{String, Bool, true, false, Option, none, some, str_eq, if◌then◌else◌}
use cachepilot.Churn.Layers.{
  Layer, system_prefix, system_suffix, tool_schemas, history, history_tail,
}

-- What a pair says of the four parts of a prompt: changed, unchanged, or not decidable.
pub record SubLayers : Type 0 where
  pub prefix : Option Bool
  pub suffix : Option Bool
  pub past : Option Bool
  pub tail : Option Bool

abbrev pub identical : Option String → Option String → Bool
identical (some a) (some b) = str_eq a b
identical _ _ = false

abbrev unless_identical : Bool → SubLayers → SubLayers → SubLayers
unless_identical true changed s = s
unless_identical false changed s = changed

abbrev by_hashes : Bool → Bool → SubLayers
by_hashes system past = record {
  prefix = if system then some false else none;
  suffix = if system then some false else none;
  past = if past then some false else none;
  tail = if past then some false else none;
}

-- The first chain of tests on the layer that diverged first.
abbrev by_system : Option Layer → Bool → SubLayers → SubLayers
by_system (some system_suffix) same s = record s { prefix = some false; suffix = some true }
by_system (some system_prefix) same s = record s { prefix = some true }
by_system (some tool_schemas) same s =
    unless_identical same (record s { prefix = some false; suffix = some false }) s
by_system (some history) same s =
    unless_identical same (record s { prefix = some false; suffix = some false }) s
by_system (some history_tail) same s =
    unless_identical same (record s { prefix = some false; suffix = some false }) s
by_system _ same s = s

-- The second chain.
abbrev by_history : Option Layer → Bool → SubLayers → SubLayers
by_history (some history) same s = record s { past = some true }
by_history (some history_tail) same s = record s { past = some false; tail = some true }
by_history (some system_prefix) same s =
    unless_identical same (record s { past = some false; tail = some false }) s
by_history (some system_suffix) same s =
    unless_identical same (record s { past = some false; tail = some false }) s
by_history (some tool_schemas) same s =
    unless_identical same (record s { past = some false; tail = some false }) s
by_history _ same s = s

-- Of whether the system and the history are known to be the same.
unfoldable pub status_of : Bool → Bool → Option Layer → SubLayers
status_of system past first = by_history first past (by_system first system (by_hashes system past))

-- `_sub_layer_status`
unfoldable pub sub_layer_status :
    (system_a system_b history_a history_b : Option String) → Option Layer → SubLayers
unfolding status_of
sub_layer_status system_a system_b history_a history_b first =
    status_of (identical system_a system_b) (identical history_a history_b) first

-- `first_divergent in _LAYERED_CONTENT_LAYERS` and `in _LOSS_LAYERS`
abbrev pub is_layered : Option Layer → Bool
is_layered (some system_prefix) = true
is_layered (some system_suffix) = true
is_layered (some history) = true
is_layered (some history_tail) = true
is_layered _ = false

abbrev pub loss_layer : Option Layer → Option Layer
loss_layer (some tool_schemas) = some tool_schemas
loss_layer first = if is_layered first then first else none
