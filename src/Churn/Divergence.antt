-- ===== src/Churn/Divergence.antt =====
-- Where two requests part, what of the prefix is lost, and the whole classification.
use Prim.Native.String.{count}
use cachepilot.Prelude.{
  ℕ, ◌-◌, ◌/◌, String, Bool, true, false, ◌&&◌, ◌||◌, not, Option, none, some, List, [], ◌∷◌,
  str_eq, get_or, if◌then◌else◌,
}
use cachepilot.Numbers.{Arith}
use cachepilot.Python.{Python}
use cachepilot.Identity.{list_json}
use cachepilot.Churn.Layers.{
  Layer, system_prefix, system_suffix, tool_schemas, history, history_tail, content_layers,
  LayeredHashes, RequestContent, Search, split_system_layers, to_hashes, serialize, all_but_last,
  only_last, list_or_null,
}
use cachepilot.Churn.Text.{first_differing_index, window, snippet, take_chars, drop_chars}
use cachepilot.Churn.Cause.{
  DivergenceHint, Cause, of_layer, volatile_prefix, ChurnClassification, holds, is_false, differ,
  only_system_changed, confidence_of, base_of, classify_hashes,
}

abbrev is_prefix_layer : Layer → Bool
is_prefix_layer system_prefix = true
is_prefix_layer _ = false

-- The digest of a content layer.
abbrev pub layer_hash : Layer → LayeredHashes → Option String
layer_hash system_prefix h = h.system_prefix_hash
layer_hash system_suffix h = h.system_suffix_hash
layer_hash tool_schemas h = h.tools_hash
layer_hash history h = h.history_prefix_hash
layer_hash history_tail h = h.history_tail_hash
layer_hash _ h = none

module _ {F D : Type 0} (py : Python F D) (patterns : List Search) where
  -- The content of a layer.
  abbrev pub layer_text : Layer → RequestContent → String
  layer_text system_prefix r = (split_system_layers patterns (get_or r.system "")).0
  layer_text system_suffix r = (split_system_layers patterns (get_or r.system "")).1
  layer_text tool_schemas r = py.dumps (list_or_null r.tools)
  layer_text history r = list_json py (all_but_last r.messages)
  layer_text history_tail r = list_json py (only_last r.messages)
  layer_text _ r = ""

  abbrev hint_at : Layer → RequestContent → RequestContent → DivergenceHint
  hint_at l previous current =
      let offset = first_differing_index (layer_text l previous) (layer_text l current) in
      record { layer = l; offset = offset; snippet = snippet (layer_text l current) offset }

  -- `_first_divergence`, over the layers in prefix order.
  unfoldable pub first_divergence :
      List Layer
      → (previous current : RequestContent) → (before after : LayeredHashes) → Option DivergenceHint
  unfolding first_differing_index snippet differ
  first_divergence [] previous current before after = none
  first_divergence (l ∷ ls) previous current before after =
      let later = first_divergence ls previous current before after in
      if differ (layer_hash l before) (layer_hash l after)
      then some (hint_at l previous current)
      else later

  -- `estimated_prefix_loss_tokens`, at four characters a token.
  unfoldable pub lost_tokens : String → String → ℕ
  unfolding first_differing_index
  lost_tokens previous current =
      if str_eq previous current
      then 0
      else (count previous - first_differing_index previous current) / 4

-- The patterns of leaked values say whether they match.
abbrev matches : List (String → Bool) → String → Bool
matches [] s = false
matches (p ∷ ps) s = p s || matches ps s

abbrev blames_prefix : Option Cause → Bool
blames_prefix (some (of_layer system_prefix)) = true
blames_prefix _ = false

module _ {F : Type 0} ⦃f : Arith F⦄ (round2 : F → F) (patterns : List Search)
    (volatile : List (String → Bool)) where
  -- The window of the current prefix around the divergence, where it lies in the prefix.
  abbrev prefix_window : Option DivergenceHint → RequestContent → Option String
  prefix_window none current = none
  prefix_window (some hint) current = elim current.system [
    | none ↦ none
    | some system ↦
        let prefix = (split_system_layers patterns system).0 in
        if is_prefix_layer hint.layer && not (str_eq prefix "")
        then some (window 20 hint.offset prefix)
        else none
  ]

  abbrev is_volatile : Option String → Bool
  is_volatile none = false
  is_volatile (some s) = matches volatile s

  -- `_refine_prefix_volatility`
  unfoldable pub refine_prefix_volatility :
      ChurnClassification F → RequestContent → ChurnClassification F
  unfolding split_system_layers take_chars drop_chars only_system_changed confidence_of
  refine_prefix_volatility c current =
      if blames_prefix c.likely_cause
        && (holds c.system_prefix_changed
            && (is_false c.system_suffix_changed
                && (only_system_changed c
                    && is_volatile (prefix_window c.first_divergent_byte current))))
      then record c {
        likely_cause = some volatile_prefix;
        confidence = some (confidence_of round2 (base_of volatile_prefix) c);
      }
      else c

  -- `classify`
  unfoldable pub classify :
      {D : Type 0} (py : Python F D)
      → RequestContent
      → RequestContent
      → Bool
      → ChurnClassification F
  unfolding to_hashes classify_hashes lost_tokens serialize first_divergence
      refine_prefix_volatility
  classify py previous current identity_changed =
      let before = to_hashes py patterns previous in
      let after = to_hashes py patterns current in
      let c = classify_hashes round2 before after identity_changed in
      refine_prefix_volatility
        (record c {
          estimated_prefix_loss_tokens =
              some (lost_tokens py patterns (serialize py previous) (serialize py current));
          first_divergent_byte =
              first_divergence py patterns content_layers previous current before after;
        })
        current
