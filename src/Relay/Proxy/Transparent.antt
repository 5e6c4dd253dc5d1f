-- ===== src/Relay/Proxy/Transparent.antt =====
-- The proxy changes nothing but what it must: whatever the observer and the lease controller hold and
-- whatever they do, the request is handed on and the answer comes back.
use cachepilot.Prelude.{
  ℕ, String, ◌≡◌, refl, false, ◌&&◌, ◌||◌, Option, none, some, arith, str_eq, if◌then◌else◌,
}
use cachepilot.Numbers.{Arith, Conversion}
use cachepilot.Dict.{Dict, lookup, last_value}
use cachepilot.Dict.Laws.{lookup-erase}
use cachepilot.Python.{Python}
use cachepilot.Relay.Controller.{LeaseRequestContext}
use cachepilot.Relay.Proxy.{
  build_upstream_url, should_stream, strip_hop_by_hop, is_withheld, is_banned,
  lookup-strip_hop_by_hop, lookup-upstream_headers,
}
use cachepilot.Relay.Proxy.Forward.{
  ClientRequest, BuildArguments, ClientResponse, answered, RelayProxy, Wiring, lease_start,
  apply_affinity, forward_request, forward_response,
}

module _ {F D : Type 0} ⦃f : Arith F⦄ ⦃d : Arith D⦄ ⦃c : Conversion F D⦄ (py : Python F D)
    (w : Wiring F) where
  -- A request as it is handed on: the client's method, URL and body, and its headers but for the withheld.
  pub record IsVerbatim (upstream : String) (q : ClientRequest) (sent : BuildArguments)
      : Type 0 where
    pub method : sent.method ≡ q.method
    pub url : sent.url ≡ build_upstream_url upstream q.path q.query
    pub body : sent.body ≡ q.body
    pub headers :
        (name : String)
        → lookup name sent.headers
          ≡ (if is_withheld py w.strip q.headers name then none else last_value name q.headers)

  -- An answer as it comes back.
  pub record IsMirrored (status : ℕ) (headers : Dict String) (body : String) (r : ClientResponse)
      : Type 0 where
    pub status_code : r.status_code ≡ status
    pub body_same : r.body ≡ body
    pub headers_same :
        (name : String)
        → lookup name r.headers ≡ (
            if should_stream headers && str_eq "content-length" name
              || is_banned py w.strip headers name
            then none
            else last_value name headers)

  lease_start-affinity :
      (now : F) (fresh : String) (q : ClientRequest) (p : RelayProxy F D)
      → (lease_start py w now fresh q p).1.route_affinity_enabled ≡ p.route_affinity_enabled
  unfolding lease_start
  lease_start-affinity now fresh q p = ground arith

  apply_affinity-off :
      (now : F) (body : String) (ctx : Option LeaseRequestContext) (p : RelayProxy F D)
      → p.route_affinity_enabled && w.pinning.can_pin_route ≡ false
      → (apply_affinity py w now body ctx p).0 ≡ body
  unfolding apply_affinity
  apply_affinity-off now body none p off = refl
  apply_affinity-off now body (some ctx) p off = ground arith

  -- Where no route can be pinned, what the HTTP client is given to send is verbatim, whatever the observer
  -- and the controller hold and do: the client's method and body, the URL of its path and query at the
  -- upstream, and each of its header names with the last value that it came with, but for the host, the
  -- correlation headers and those of the hop, which are not given at all.
  pub forward_request-IsVerbatim :
      (now : F) (fresh : String) (q : ClientRequest) (p : RelayProxy F D)
      → p.route_affinity_enabled && w.pinning.can_pin_route ≡ false
      → IsVerbatim p.upstream q (forward_request py w now fresh q p).0
  unfolding forward_request
  forward_request-IsVerbatim now fresh q p off = record {
    method = refl;
    url = refl;
    body =
        let (ctx, p1) = lease_start py w now fresh q p in
        apply_affinity-off now q.body ctx p1 (rw (lease_start-affinity now fresh q p) off);
    headers = λ name. lookup-upstream_headers py w.strip q.headers name;
  }

  -- An answer comes back as it is, whatever the observer and the controller hold and do, and whether
  -- they raise: the same status and body, and each header of its mapping but those of the hop, and on a
  -- stream the length.
  pub forward_response-IsMirrored :
      (now : F) (q : ClientRequest) (sent : BuildArguments) (ctx : Option LeaseRequestContext)
      (status : ℕ) (headers : Dict String) (body : String) (p : RelayProxy F D)
      → IsMirrored status headers body
          (forward_response py w now q sent ctx (answered status headers body) p).0
  unfolding forward_response
  forward_response-IsMirrored now q sent ctx status headers body p = record {
    status_code = ground arith;
    body_same = ground arith;
    headers_same = λ name. ground (
      arith,
      lookup-erase "content-length" name (strip_hop_by_hop py w.strip headers),
      lookup-strip_hop_by_hop py w.strip headers name,
    );
  }
