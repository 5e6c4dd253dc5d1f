-- ===== src/Churn/Cause.antt =====
-- The cause that a classification names, and how sure it is.
use cachepilot.Prelude.{
  ℕ, ◌+◌, ◌-◌, String, Bool, true, false, ◌&&◌, ◌||◌, not, Option, none, some, List, [], ◌∷◌, ◌++◌,
  str_eq, if◌then◌else◌,
}
use cachepilot.Numbers.{Arith, lit, sub, mul, max}
use cachepilot.Churn.Layers.{
  Layer, system_prefix, system_suffix, tool_schemas, history, history_tail, route, model_layer,
  cache_key_layer, content_layers, LayeredHashes,
}

pub record DivergenceHint : Type 0 where
  pub layer : Layer
  pub offset : ℕ
  pub snippet : String

-- The causes by the layer that they blame, and those that stand apart.
pub data Cause : Type 0 where
  of_layer : Layer → Cause
  suffix_churn volatile_prefix system_prompt conversation residual : Cause

pub record ChurnClassification (F : Type 0) : Type 0 where
  pub system_changed : Bool
  pub tools_changed : Bool
  pub history_changed : Bool
  pub route_changed : Bool
  pub cache_key_changed : Bool
  pub model_changed : Bool
  pub system_prefix_changed : Option Bool
  pub system_suffix_changed : Option Bool
  pub history_prefix_changed : Option Bool
  pub history_tail_changed : Option Bool
  pub first_divergent_byte : Option DivergenceHint
  pub estimated_prefix_loss_tokens : Option ℕ
  pub likely_cause : Option Cause
  pub confidence : Option F

-- `if flag:` and `flag is False`, on a flag that may be unknown.
abbrev pub holds : Option Bool → Bool
holds (some true) = true
holds _ = false

abbrev pub is_false : Option Bool → Bool
is_false (some false) = true
is_false _ = false

-- `a != b` on optional texts
unfoldable pub differ : Option String → Option String → Bool
differ none none = false
differ (some a) (some b) = not (str_eq a b)
differ _ _ = true

-- `_maybe_differs`
unfoldable pub maybe_differs : Option String → Option String → Option Bool
maybe_differs (some a) (some b) = some (not (str_eq a b))
maybe_differs _ _ = none

abbrev count : Bool → ℕ
count true = 1
count false = 0

module _ {F : Type 0} where
  -- `layer in classification.changed_layers`
  unfoldable pub is_changed : Layer → ChurnClassification F → Bool
  is_changed system_prefix c = holds c.system_prefix_changed
  is_changed system_suffix c = holds c.system_suffix_changed
  is_changed tool_schemas c = c.tools_changed
  is_changed history c = holds c.history_prefix_changed
  is_changed history_tail c = holds c.history_tail_changed
  is_changed route c = c.route_changed
  is_changed model_layer c = c.model_changed
  is_changed cache_key_layer c = c.cache_key_changed

  abbrev listed : Layer → ChurnClassification F → List Layer
  listed l c = if is_changed l c then l ∷ [] else []

  -- `changed_layers`
  unfoldable pub changed_layers : ChurnClassification F → List Layer
  unfolding is_changed
  changed_layers c =
      listed system_prefix c
      ++ (listed system_suffix c
          ++ (listed tool_schemas c
              ++ (listed history c
                  ++ (listed history_tail c
                      ++ (listed route c ++ (listed model_layer c ++ listed cache_key_layer c))))))

  -- `_only_system_changed`
  unfoldable pub only_system_changed : ChurnClassification F → Bool
  only_system_changed c =
      c.system_changed
      && not (
          c.tools_changed
          || (c.history_changed || (c.route_changed || (c.cache_key_changed || c.model_changed))))

  abbrev first_changed : List Layer → ChurnClassification F → Option Layer
  first_changed [] c = none
  first_changed (l ∷ ls) c = if is_changed l c then some l else first_changed ls c

  abbrev unplaced_cause : ChurnClassification F → Bool → Option Cause
  unplaced_cause c identity_changed =
      if c.system_changed
      then some system_prompt
      else if c.history_changed
      then some conversation
      else if c.cache_key_changed
      then some (of_layer cache_key_layer)
      else if identity_changed
      then some residual
      else none

  abbrev placed_cause : ChurnClassification F → Bool → Option Cause
  placed_cause c identity_changed = elim (first_changed content_layers c) [
    | some l ↦ some (of_layer l)
    | none ↦ unplaced_cause c identity_changed
  ]

  -- `_primary_cause`
  unfoldable pub primary_cause : ChurnClassification F → Bool → Option Cause
  unfolding is_changed only_system_changed
  primary_cause c identity_changed =
      if c.route_changed
      then some (of_layer route)
      else if c.model_changed
      then some (of_layer model_layer)
      else if holds c.system_suffix_changed && is_false c.system_prefix_changed
      then if only_system_changed c then some suffix_churn else some (of_layer system_suffix)
      else if holds c.system_prefix_changed && is_false c.system_suffix_changed
      then some (of_layer system_prefix)
      else placed_cause c identity_changed

  -- The number of changed flat layers.
  unfoldable pub flat_changes : ChurnClassification F → ℕ
  flat_changes c =
      count c.system_changed
      + (count c.tools_changed
          + (count c.history_changed
              + (count c.route_changed + (count c.cache_key_changed + count c.model_changed))))

  -- The flags of a pair of snapshots.
  unfoldable pub compare_snapshots : LayeredHashes → LayeredHashes → ChurnClassification F
  unfolding differ maybe_differs
  compare_snapshots p c = record {
    system_changed = differ p.system_hash c.system_hash;
    tools_changed = differ p.tools_hash c.tools_hash;
    history_changed = differ p.history_hash c.history_hash;
    route_changed = differ p.route_hash c.route_hash;
    cache_key_changed = differ p.cache_key c.cache_key;
    model_changed = differ p.model c.model;
    system_prefix_changed = maybe_differs p.system_prefix_hash c.system_prefix_hash;
    system_suffix_changed = maybe_differs p.system_suffix_hash c.system_suffix_hash;
    history_prefix_changed = maybe_differs p.history_prefix_hash c.history_prefix_hash;
    history_tail_changed = maybe_differs p.history_tail_hash c.history_tail_hash;
    first_divergent_byte = none;
    estimated_prefix_loss_tokens = none;
    likely_cause = none;
    confidence = none;
  }

module _ {F : Type 0} ⦃f : Arith F⦄ where
  -- The base confidence of a cause.
  abbrev pub base_of : Cause → F
  base_of (of_layer route) = lit 92 100
  base_of (of_layer model_layer) = lit 85 100
  base_of (of_layer system_prefix) = lit 90 100
  base_of (of_layer system_suffix) = lit 85 100
  base_of (of_layer tool_schemas) = lit 80 100
  base_of (of_layer history) = lit 75 100
  base_of (of_layer history_tail) = lit 70 100
  base_of (of_layer cache_key_layer) = lit 70 100
  base_of suffix_churn = lit 85 100
  base_of volatile_prefix = lit 85 100
  base_of system_prompt = lit 65 100
  base_of conversation = lit 65 100
  base_of residual = lit 60 100

module _ {F : Type 0} ⦃f : Arith F⦄ (round2 : F → F) where
  -- `_confidence`: subtraction on ℕ stops at zero, which is the inner `max(0, ...)`.
  unfoldable pub confidence_of : F → ChurnClassification F → F
  unfolding flat_changes
  confidence_of base c =
      round2 (max (lit 50 100) (sub base (mul (lit 10 100) (lit (flat_changes c - 1) 1))))

  abbrev pub with_cause : Option Cause → ChurnClassification F → ChurnClassification F
  with_cause none c = c
  with_cause (some cause) c = record c {
    likely_cause = some cause;
    confidence = some (confidence_of (base_of cause) c);
  }

  -- `_classify_snapshots`, which is `classify_hashes`.
  unfoldable pub classify_hashes : LayeredHashes → LayeredHashes → Bool → ChurnClassification F
  unfolding compare_snapshots primary_cause confidence_of
  classify_hashes previous current identity_changed =
      let c = compare_snapshots previous current in with_cause (primary_cause c identity_changed) c
