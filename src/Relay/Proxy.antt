-- ===== src/Relay/Proxy.antt =====
-- packages/relay/src/cachepilot_relay/proxy.py: what the proxy makes of headers and of the URL. Both
-- frameworks give the names of headers in lower case. Headers come as the items of their mapping, in which
-- a header that the client repeats is there each time.
pub mod Forward
pub mod Transparent
pub mod Isolation
mod Examples
use Prim.Native.String.{◌++◌}
use cachepilot.Prelude.{
  String, ◌≡◌, Bool, ◌||◌, not, none, List, [], ◌∷◌, map, arith, contains, select, str_eq, get_or,
  starts_with, if◌then◌else◌,
}
use cachepilot.Prelude.Cut.{split_on, strip_left, strip_right}
use cachepilot.Dict.{Dict, lookup, erase, keep, has, into_dict, last_value}
use cachepilot.Dict.Laws.{lookup-keep, lookup-erase, lookup-filtered}
use cachepilot.Python.{Python}
use cachepilot.Relay.Observation.{is_correlation, strip_correlation_headers}

-- `HOP_BY_HOP_HEADERS`
abbrev pub hop_by_hop_headers : List String
hop_by_hop_headers =
    "connection" ∷ "keep-alive" ∷ "proxy-authenticate" ∷ "proxy-authorization" ∷ "proxy-connection"
    ∷ "te" ∷ "trailer" ∷ "transfer-encoding" ∷ "upgrade" ∷ []

-- `build_upstream_url`
unfoldable pub build_upstream_url : String → String → String → String
build_upstream_url base path query =
    let prefix = strip_right "/" base in
    let request_path = strip_left "/" path in
    let url : String = if str_eq request_path "" then prefix else prefix ++ ("/" ++ request_path) in
    if str_eq query "" then url else url ++ ("?" ++ query)

-- `should_stream`, on the headers of the response.
unfoldable pub should_stream : Dict String → Bool
should_stream headers =
    starts_with (get_or (lookup "content-type" headers) "") "text/event-stream"
    || not (has "content-length" headers)

module _ {F D : Type 0} (py : Python F D) (strip : String → String) where
  -- The headers that the `Connection` field nominates.
  unfoldable pub connection_tokens : Dict String → List String
  unfolding split_on select
  connection_tokens headers =
      map (λ token. py.lower (strip token))
        (select (λ token. not (str_eq (strip token) ""))
          (split_on "," (get_or (lookup "connection" headers) "")))

  abbrev pub is_banned : Dict String → String → Bool
  is_banned headers name =
      contains (py.lower name) hop_by_hop_headers
      || contains (py.lower name) (connection_tokens headers)

  -- `strip_hop_by_hop`
  unfoldable pub strip_hop_by_hop : Dict String → Dict String
  unfolding keep into_dict
  strip_hop_by_hop headers = into_dict (keep (λ name. not (is_banned headers name)) headers) []

  -- The headers that `forward` hands to the HTTP client.
  unfoldable pub upstream_headers : Dict String → Dict String
  unfolding strip_hop_by_hop strip_correlation_headers erase
  upstream_headers headers = strip_correlation_headers py (erase "host" (strip_hop_by_hop headers))

  -- What the proxy hands on to nobody: the host, the correlation headers, and what belongs to one hop.
  abbrev pub is_withheld : Dict String → String → Bool
  is_withheld headers name =
      str_eq "host" name || (is_correlation py name || is_banned headers name)

  pub lookup-strip_hop_by_hop :
      (headers : Dict String) (name : String)
      → lookup name (strip_hop_by_hop headers)
        ≡ (if is_banned headers name then none else last_value name headers)
  unfolding strip_hop_by_hop
  lookup-strip_hop_by_hop headers name =
      ground (arith, lookup-filtered (λ k. not (is_banned headers k)) name headers)

  -- Every header of the client is handed on with its last value, but for those that are withheld.
  pub lookup-upstream_headers :
      (headers : Dict String) (name : String)
      → lookup name (upstream_headers headers)
        ≡ (if is_withheld headers name then none else last_value name headers)
  unfolding upstream_headers strip_correlation_headers
  lookup-upstream_headers headers name = ground (
    arith,
    lookup-keep (λ k. not (is_correlation py k)) name (erase "host" (strip_hop_by_hop headers)),
    lookup-erase "host" name (strip_hop_by_hop headers),
    lookup-strip_hop_by_hop headers name,
  )
