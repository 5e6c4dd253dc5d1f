-- ===== src/Relay/WarmExecutor.antt =====
-- warm_executor.py: one bounded warm, from the snapshot to the result. `post` is the HTTP client's
-- call; where it gives nothing, the transport failed. A result of `none` is a raised error.
use cachepilot.Prelude.{
  String, ◌≡◌, refl, sym, ◌∙◌, ◌≢◌, ◌↔◌, ◌≤◌, ◌<◌, true, Option, none, some, arith, Option-cases,
  inl, inr,
}
use mathlib.Core.Path.{subst}
use cachepilot.Numbers.{Arith, nought}
use cachepilot.Dict.{Dict, insert}
use cachepilot.Json.{Fields}
use cachepilot.Python.{Python}
use cachepilot.Snapshots.{RequestSnapshot}
use cachepilot.Pricing.{PricingTable, estimate_cost}
use cachepilot.Telemetry.{confirmed_hit, failed}
use cachepilot.Telemetry.Health.{classify_outcome_evidence}
use cachepilot.Usage.{TokenUsage, no_usage}
use cachepilot.Leases.{WarmResult}
use cachepilot.Adapters.{
  PhysicalResponse, build_warm_request, parse_usage, classify_cache_result, reported_usage,
  usage_has_cache_telemetry,
}

pub record WarmCall : Type 0 where
  pub url : String
  pub body : Fields
  pub headers : Dict String

-- What is posted upstream for a snapshot, if anything.
unfoldable pub warm_call : {F : Type 0} → RequestSnapshot F → Option WarmCall
unfolding build_warm_request
warm_call snapshot = elim (build_warm_request snapshot.body) [
  | none ↦ none
  | some body ↦ some (record {
    url = snapshot.upstream_url;
    body = body;
    headers = insert "content-type" "application/json" snapshot.replay_headers;
  })
]

module _ {F D : Type 0} ⦃d : Arith D⦄ (py : Python F D) (pricing : Option (PricingTable D)) where
  -- `_resolve_cost`
  unfoldable pub resolve_cost : TokenUsage D → D
  resolve_cost usage = elim usage.cost [
    | some cost ↦ cost
    | none ↦ elim pricing [ none ↦ nought | some table ↦ estimate_cost usage table ]
  ]

  -- The result of a response.
  unfoldable pub read_response : PhysicalResponse → Option (WarmResult D)
  unfolding parse_usage classify_cache_result resolve_cost
  read_response response = elim (parse_usage py response) [
    | none ↦ none
    | some usage ↦ some (record {
      outcome = some (classify_cache_result usage response);
      usage = usage;
      cost_usd = resolve_cost usage;
    })
  ]

  abbrev not_sent : WarmResult D
  not_sent = record { outcome = none; usage = no_usage; cost_usd = nought }

  abbrev transport_failed : WarmResult D
  transport_failed = record { outcome = some failed; usage = no_usage; cost_usd = nought }

  -- `execute`, in two steps: what it posts, and what it makes of the answer.
  unfoldable pub execute :
      (post : WarmCall → Option PhysicalResponse) → RequestSnapshot F → Option (WarmResult D)
  unfolding warm_call read_response
  execute post snapshot = elim (warm_call snapshot) [
    | none ↦ some not_sent
    | some call ↦ elim (post call) [
      | none ↦ some transport_failed
      | some response ↦ read_response response
    ]
  ]

  -- What shows that a response read from the cache.
  abbrev pub IsShown : PhysicalResponse → TokenUsage D → Type 0
  IsShown response usage =
      (200 ≤ response.status_code)
      × (response.status_code < 300)
      × (usage_has_cache_telemetry (reported_usage response) ≡ true)
      × (0 < usage.cache_read_tokens)

  read_response-evidence :
      (response : PhysicalResponse) (result : WarmResult D)
      → read_response response ≡ some result
      → ((result.outcome ≡ some confirmed_hit) ↔ IsShown response result.usage)
        × (parse_usage py response ≡ some result.usage)
        × (result.outcome ≢ none)
  unfolding read_response classify_cache_result
  read_response-evidence response result h = elim (Option-cases (parse_usage py response)) [
    | inl bad ↦ ground arith
    | inr (usage, read) ↦ ground (
      arith,
      classify_outcome_evidence response.status_code
          (usage_has_cache_telemetry (reported_usage response)) usage.cache_read_tokens,
    )
  ]

  -- What a claimed hit of a snapshot rests on.
  abbrev pub IsEvidenced :
      (WarmCall → Option PhysicalResponse) → RequestSnapshot F → TokenUsage D → Type 0
  IsEvidenced post snapshot usage =
      (call : WarmCall) × (response : PhysicalResponse) × (warm_call snapshot ≡ some call)
      × (post call ≡ some response)
      × (parse_usage py response ≡ some usage)
      × IsShown response usage

  same_response :
      (post : WarmCall → Option PhysicalResponse) (snapshot : RequestSnapshot F) (c b : WarmCall)
      (r s : PhysicalResponse)
      → warm_call snapshot ≡ some b
      → warm_call snapshot ≡ some c
      → post b ≡ some r
      → post c ≡ some s
      → r ≡ s
  same_response post snapshot c b r s hb hc hr hs = ground arith

  -- The executor claims a hit exactly with evidence: a warm was posted, the answer came, its status
  -- is 2xx, it carries cache telemetry, and its normalized usage read at least one token from the
  -- cache. It gives a result without an outcome exactly when nothing was posted.
  pub execute-evidence :
      (post : WarmCall → Option PhysicalResponse) (snapshot : RequestSnapshot F)
      (result : WarmResult D)
      → execute post snapshot ≡ some result
      → ((result.outcome ≡ some confirmed_hit) ↔ IsEvidenced post snapshot result.usage)
        × ((result.outcome ≡ none) ↔ (warm_call snapshot ≡ none))
  unfolding execute
  execute-evidence post snapshot result h = elim (Option-cases (warm_call snapshot)) [
    | inl declined ↦ ground arith
    | inr (call, made) ↦ elim (Option-cases (post call)) [
      | inl lost ↦ ground arith
      | inr (response, came) ↦
          let answer : read_response response ≡ some result =
            sym (rw (execute, made, came) refl) ∙ h in
          let (hit, read, answered) = read_response-evidence response result answer in
          (
            (
              λ e. (call, response, made, came, read, hit.0 e),
              λ evidence.
                  let (_, response', made', came', _, shown) = evidence in
                  hit.1 (
                    subst (λ x. IsShown x result.usage)
                      (same_response post snapshot call _ response' response made' made came' came)
                      shown),
            ),
            (λ e. absurd (answered e), λ declined. ground arith),
          )
    ]
  ]
