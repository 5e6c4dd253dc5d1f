-- ===== src/Relay/Recorder/Churn.antt =====
-- observation.py: `_classify_churn` and the event that `_record_churn` stores.
use cachepilot.Prelude.{ℕ, String, true, ◌||◌, not, Option, none, some, str_eq}
use cachepilot.Numbers.{Arith}
use cachepilot.Python.{Python}
use cachepilot.Churn.Layers.{Layer, LayeredHashes, RequestContent, request_content_from_payload}
use cachepilot.Churn.Cause.{DivergenceHint, ChurnClassification, differ, classify_hashes}
use cachepilot.Churn.Divergence.{classify}
use cachepilot.Relay.Observation.{json_or_none}
use cachepilot.Storage.{TelemetryEvent, ChurnEvent}
use cachepilot.Relay.Recorder.{Instruments}

-- The digests of an event; the layered ones are never stored.
abbrev pub stored_hashes : {D : Type 0} → TelemetryEvent D → LayeredHashes
stored_hashes e = record {
  system_prefix_hash = none;
  system_suffix_hash = none;
  system_hash = e.system_hash;
  tools_hash = e.tools_hash;
  tools_set_hash = none;
  history_hash = e.history_hash;
  history_prefix_hash = none;
  history_tail_hash = none;
  route_hash = e.route_hash;
  model = some e.model;
  cache_key = none;
}

abbrev pub offset_of : Option DivergenceHint → Option ℕ
offset_of none = none
offset_of (some hint) = some hint.offset

abbrev pub layer_of : Option DivergenceHint → Option Layer
layer_of none = none
layer_of (some hint) = some hint.layer

module _ {F D : Type 0} ⦃f : Arith F⦄ (py : Python F D) (tools : Instruments F) where
  -- The content of a body as the event names its route and model; a refused one has none.
  abbrev content_in : TelemetryEvent D → Option String → Option RequestContent
  content_in e none = none
  content_in e (some body) = elim (json_or_none py body) [
    | none ↦ none
    | some payload ↦ request_content_from_payload py payload e.route_hash (some e.model) none
  ]

  -- By the digests alone.
  unfoldable pub classify_stored : TelemetryEvent D → TelemetryEvent D → ChurnClassification F
  classify_stored previous event =
      classify_hashes tools.round2 (stored_hashes previous) (stored_hashes event) true

  -- By the content, where both are there.
  abbrev pub classified :
      TelemetryEvent D
      → TelemetryEvent D
      → Option RequestContent
      → Option RequestContent
      → ChurnClassification F
  classified previous event (some before) (some after) =
      classify tools.round2 tools.patterns tools.volatile py before after true
  classified previous event _ _ = classify_stored previous event

  -- `_classify_churn`
  unfoldable pub classify_churn :
      TelemetryEvent D → TelemetryEvent D → Option String → String → ChurnClassification F
  unfolding classify_stored json_or_none request_content_from_payload
  classify_churn previous event previous_body current_body =
      classified previous event (content_in previous previous_body)
        (content_in event (some current_body))

  -- The event that `_record_churn` stores.
  unfoldable pub churn_event :
      TelemetryEvent D → TelemetryEvent D → Option String → String → ChurnEvent F
  unfolding classify_churn differ
  churn_event previous event previous_body current_body =
      let c = classify_churn previous event previous_body current_body in
      let system_changed = differ previous.system_hash event.system_hash in
      let tools_changed = differ previous.tools_hash event.tools_hash in
      let history_changed = differ previous.history_hash event.history_hash in
      let route_changed = differ previous.route_hash event.route_hash in
      let model_changed = not (str_eq previous.model event.model) in
      record {
        timestamp = event.timestamp;
        session_hash = event.session_hash;
        previous_cache_fingerprint = previous.cache_fingerprint;
        new_cache_fingerprint = event.cache_fingerprint;
        provider = some event.provider;
        model = some event.model;
        route_hash = event.route_hash;
        system_changed = system_changed;
        tools_changed = tools_changed;
        history_changed = history_changed;
        route_changed = route_changed;
        cache_key_changed = not (
            system_changed
            || (tools_changed || (history_changed || (route_changed || model_changed))));
        model_changed = model_changed;
        likely_cause = c.likely_cause;
        confidence = c.confidence;
        estimated_prefix_loss_tokens = c.estimated_prefix_loss_tokens;
        first_divergent_offset = offset_of c.first_divergent_byte;
        first_divergent_layer = layer_of c.first_divergent_byte;
      }
