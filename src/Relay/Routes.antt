-- ===== src/Relay/Routes.antt =====
-- observation.py: the route identity that a request and its response show.
use cachepilot.Prelude.{String, Option, none, some, List, [], ◌∷◌}
use cachepilot.Dict.{Dict, lookup, insert}
use cachepilot.Python.{Python}
use cachepilot.Relay.Endpoint.{endpoint_identity, provider_from_upstream}
use cachepilot.Routes.Intel.{RouteIdentity}

-- `{key.lower(): value ...}`: the last of equal names stands.
unfoldable pub lower_names : (lower : String → String) → Dict String → Dict String → Dict String
lower_names lower [] seen = seen
lower_names lower ((k, v) ∷ d) seen = lower_names lower d (insert (lower k) v seen)

-- `next((headers[key] for key in keys if key in headers), None)`
unfoldable pub first_of : List String → Dict String → Option String
first_of [] headers = none
first_of (k ∷ ks) headers = elim (lookup k headers) [ none ↦ first_of ks headers | some v ↦ some v ]

module _ {F D : Type 0} (py : Python F D) where
  unfoldable pub request_route_identity : String → RouteIdentity
  unfolding endpoint_identity provider_from_upstream
  request_route_identity upstream_url =
      let endpoint = endpoint_identity upstream_url in
      record {
        gateway = some (provider_from_upstream py.lower endpoint);
        upstream_provider = none;
        endpoint = some endpoint;
        region = none;
        deployment = none;
      }

  unfoldable pub extract_route_identity : String → Dict String → RouteIdentity
  unfolding request_route_identity lower_names first_of
  extract_route_identity upstream_url response_headers =
      let headers = lower_names py.lower response_headers [] in
      record (request_route_identity upstream_url) {
        upstream_provider = first_of ("x-provider" ∷ "x-cachepilot-provider" ∷ []) headers;
        region = first_of ("x-region" ∷ "x-cachepilot-region" ∷ []) headers;
        deployment = first_of ("x-served-by" ∷ "x-cachepilot-deployment" ∷ []) headers;
      }
