-- ===== src/Relay/Recorder/Transition.antt =====
-- What a change of a session's cache fingerprint does: it is recorded with a cause, and it is no evidence
-- on the lifetime of a cache entry.
use cachepilot.Prelude.{
  ℕ, String, ◌≡◌, ◌≢◌, refl, ap, ◌∙◌, Bool, true, false, Option, none, some, ◌∷◌, arith, eq_iff,
  str_eq, is_none, false_of_not_true, if◌then◌else◌,
}
use cachepilot.Numbers.{Arith}
use cachepilot.Python.{Python}
use cachepilot.Churn.Layers.{LayeredHashes, RequestContent, content_layers, to_hashes, serialize}
use cachepilot.Churn.Cause.{ChurnClassification, classify_hashes}
use cachepilot.Churn.Attribution.{classify_hashes-none_iff}
use cachepilot.Churn.Divergence.{lost_tokens, first_divergence, refine_prefix_volatility, classify}
use cachepilot.Routes.Intel.{RouteIdentity}
use cachepilot.Ttl.Store.{TtlRow, TtlStore, ChurnRow, churn_between, profile_for}
use cachepilot.Ttl.Learner.{TtlObservation, is_clean, learn}
use cachepilot.Ttl.Learner.Evidence.{IsKeyed, facts, previous, learn-unclean}
use cachepilot.Storage.{TelemetryEvent, ChurnEvent, TelemetryStore, record_request, record_churn}
use cachepilot.Relay.Recorder.{RequestObserver, Instruments, remember_body}
use cachepilot.Relay.Recorder.Churn.{
  stored_hashes, classify_stored, classified, classify_churn, churn_event,
}
use cachepilot.Relay.Recorder.Record.{
  Observation, previous_in, run_route_intel, event_of, churn_recorded, learned_from,
  feed_ttl_learner, logged, record_observation,
}

module _ {F D : Type 0} ⦃f : Arith F⦄ (py : Python F D) (tools : Instruments F) where
  hashes-cause :
      (a b : LayeredHashes) → is_none (classify_hashes tools.round2 a b true).likely_cause ≡ false
  hashes-cause a b =
      let named = classify_hashes-none_iff tools.round2 a b true in
      false_of_not_true _ (λ h. cc ((named.0.0 h).1))

  if-cause :
      (b : Bool) (x y : ChurnClassification F)
      → is_none x.likely_cause ≡ false
      → is_none y.likely_cause ≡ false
      → is_none (if b then x else y).likely_cause ≡ false
  if-cause true x y h k = h
  if-cause false x y h k = k

  refine-cause :
      (c : ChurnClassification F) (current : RequestContent)
      → is_none c.likely_cause ≡ false
      → is_none
          (refine_prefix_volatility tools.round2 tools.patterns tools.volatile c
            current).likely_cause
        ≡ false
  unfolding refine_prefix_volatility
  refine-cause c current h = search (if-cause, h)

  classified-cause :
      (p e : TelemetryEvent D) (before after : Option RequestContent)
      → is_none (classified py tools p e before after).likely_cause ≡ false
  unfolding classify classify_stored
  classified-cause p e none after = hashes-cause (stored_hashes p) (stored_hashes e)
  classified-cause p e (some a) none = hashes-cause (stored_hashes p) (stored_hashes e)
  classified-cause p e (some a) (some b) =
      let x = to_hashes py tools.patterns a in
      let y = to_hashes py tools.patterns b in
      refine-cause
        (record (classify_hashes tools.round2 x y true) {
          estimated_prefix_loss_tokens =
              some (lost_tokens py tools.patterns (serialize py a) (serialize py b));
          first_divergent_byte = first_divergence py tools.patterns content_layers a b x y;
        })
        b (hashes-cause x y)

  churned :
      (obs : TtlObservation) (before : Option (TtlRow F)) (c : ChurnRow) (s : TtlStore F)
      → c.timestamp ≡ obs.timestamp
      → c.new_cache_fingerprint ≡ obs.cache_fingerprint
      → is_clean py.sha256 obs before (record s { churn = c ∷ s.churn }) ≡ false
  unfolding is_clean churn_between
  churned obs none c s at named = refl
  churned obs (some row) c s at named =
      ground (arith, eq_iff c.new_cache_fingerprint obs.cache_fingerprint)

  intel-ttl :
      (intel : Bool) (p : Option (TelemetryEvent D)) (e : TelemetryEvent D) (route : RouteIdentity)
      (s : TelemetryStore F D)
      → ((run_route_intel intel p e route s).ttl ≡ s.ttl)
        × ((run_route_intel intel p e route s).churn_events ≡ s.churn_events)
  unfolding run_route_intel
  intel-ttl intel none e route s = (refl, refl)
  intel-ttl intel (some p) e route s = ground arith

  -- The body that the observer has of the request before.
  abbrev body_before : RequestObserver F D → Observation F D → TelemetryEvent D → Option String
  body_before r o e =
      (remember_body tools.byte_length r.churn_detection_enabled e.session_hash o.body
        r.last_body).0

  -- The event of a transition.
  abbrev pub transition :
      RequestObserver F D → Observation F D → TelemetryEvent D → TelemetryEvent D → ChurnEvent F
  transition r o p e = churn_event py tools p e (body_before r o e) o.body

  churn_recorded-moved :
      (p e : TelemetryEvent D) (before : Option String) (body : String) (s : TelemetryStore F D)
      → p.cache_fingerprint ≢ e.cache_fingerprint
      → churn_recorded py tools true (some p) e before body s
        ≡ record_churn (churn_event py tools p e before body) s
  unfolding churn_recorded
  churn_recorded-moved p e before body s moved =
      let differs : str_eq p.cache_fingerprint e.cache_fingerprint ≡ false =
        false_of_not_true _ (λ h. moved ((eq_iff p.cache_fingerprint e.cache_fingerprint).0 h)) in
      rw differs refl

  logged-moved :
      (r : RequestObserver F D) (o : Observation F D) (p e : TelemetryEvent D)
      (s : TelemetryStore F D)
      → r.churn_detection_enabled ≡ true
      → previous_in e.session_hash s ≡ some p
      → p.cache_fingerprint ≢ e.cache_fingerprint
      → ((logged py tools r o e s).ttl
          ≡ (record_churn (transition r o p e) (record_request e s)).ttl)
        × ((logged py tools r o e s).churn_events
            ≡ (record_churn (transition r o p e) (record_request e s)).churn_events)
  unfolding logged
  logged-moved r o p e s on before moved =
      let grown =
        ap
          (λ d.
            churn_recorded py tools d (some p) e (body_before r o e) o.body (record_request e s))
          on
        ∙ churn_recorded-moved p e (body_before r o e) o.body (record_request e s) moved in
      let kept = intel-ttl r.route_intel_enabled (some p) e o.route (
        churn_recorded py tools r.churn_detection_enabled (some p) e (body_before r o e) o.body
          (record_request e s)) in
      rw before (kept.0 ∙ ap (λ x. x.ttl) grown, kept.1 ∙ ap (λ x. x.churn_events) grown)

  -- Where churn detection is on, a request that moves its session to another cache fingerprint is
  -- recorded with a cause: exactly one churn event is added, with the two fingerprints, and it names a
  -- likely cause.
  pub transition-IsCaused :
      (now : ℕ) (r : RequestObserver F D) (o : Observation F D) (p : TelemetryEvent D)
      (s : TelemetryStore F D)
      → r.store ≡ some s
      → r.churn_detection_enabled ≡ true
      → previous_in (event_of py tools now o).session_hash s ≡ some p
      → p.cache_fingerprint ≢ (event_of py tools now o).cache_fingerprint
      → (t : TelemetryStore F D) × (c : ChurnEvent F) × ((record_observation py tools now o r).store
          ≡ some t)
        × (t.churn_events ≡ c ∷ s.churn_events)
        × (c.previous_cache_fingerprint ≡ p.cache_fingerprint)
        × (c.new_cache_fingerprint ≡ (event_of py tools now o).cache_fingerprint)
        × (is_none c.likely_cause ≡ false)
  unfolding record_observation feed_ttl_learner record_churn record_request churn_event
      classify_churn
  transition-IsCaused now r o p s there on before moved =
      let e = event_of py tools now o in
      let grown = logged-moved r o p e s on before moved in
      (
        feed_ttl_learner py tools o e (logged py tools r o e s),
        transition r o p e,
        rw there refl,
        grown.1,
        refl,
        refl,
        classified-cause p e _ _,
      )

  -- A request that moves its session to another cache fingerprint is no evidence on how long a cache entry
  -- lives: where churn is detected, no learned bound and no sample count of any route changes, whatever the
  -- outcome of the request.
  pub transition-unlearned :
      (now : ℕ) (r : RequestObserver F D) (o : Observation F D) (p : TelemetryEvent D)
      (s : TelemetryStore F D)
      → r.store ≡ some s
      → r.churn_detection_enabled ≡ true
      → IsKeyed s.ttl
      → previous_in (event_of py tools now o).session_hash s ≡ some p
      → p.cache_fingerprint ≢ (event_of py tools now o).cache_fingerprint
      → (t : TelemetryStore F D) × ((record_observation py tools now o r).store ≡ some t)
        × ((k : String) → facts (profile_for k t.ttl) ≡ facts (profile_for k s.ttl))
  unfolding record_observation feed_ttl_learner record_churn record_request profile_for churn_event
  transition-unlearned now r o p s there on keyed before moved =
      let e = event_of py tools now o in
      let c : ChurnRow = record {
        timestamp = e.timestamp;
        previous_cache_fingerprint = p.cache_fingerprint;
        new_cache_fingerprint = e.cache_fingerprint;
      } in
      let t : TtlStore F = record s.ttl { churn = c ∷ s.ttl.churn } in
      let obs = learned_from py tools o e in
      let grown = logged-moved r o p e s on before moved in
      (
        feed_ttl_learner py tools o e (logged py tools r o e s),
        rw there refl,
        λ k.
            ap (λ x. facts (profile_for k (learn py.sha256 obs x).1)) grown.0
            ∙ learn-unclean py.sha256 obs t keyed
                (churned obs (previous py.sha256 obs t) c s.ttl refl refl) k,
      )
