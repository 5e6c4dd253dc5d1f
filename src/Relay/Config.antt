-- ===== src/Relay/Config.antt =====
-- packages/relay/src/cachepilot_relay/config.py: the settings of the relay from flags and environment.
-- `none` is a raised ValueError.
use Prim.Native.String.{String, [] as empty, ◌∷◌ as letter}
use mathlib.Core.Path.{subst}
use cachepilot.Prelude.{
  ℕ, ◌≤◌, ◌≡◌, ◌≢◌, ◌⊎◌, eq_iff, Bool, true, false, ◌&&◌, ◌||◌, not, Option, none, some, [], ◌∷◌,
  arith, refl, sym, ap, ◌∙◌, contains, leb, str_eq, get_or, Option-cases, inl, inr, if◌then◌else◌,
}
use cachepilot.Prelude.Cut.{is_char, before, from, cut_last}
use cachepilot.Prelude.Int.{ℤ, pos, negsuc}
use cachepilot.Numbers.{Arith, Conversion, max, nought}
use cachepilot.Dict.{Dict, lookup}
use cachepilot.Leases.{LeaseSettings}
use cachepilot.Leases.Settings.Environment.{Parsing, from_env as leases_from_env}

-- The language's functions that the settings use; `urlsplit` gives the scheme and the location.
pub record Reading (F D : Type 0) : Type 0 where
  pub parsing : Parsing F D
  pub open parsing use *
  pub is_digits : String → Bool
  pub urlsplit : String → Option (String × String)

-- What follows the bracket of `[host]:port`.
abbrev after_bracket : String → Option String
after_bracket (letter c (letter d port)) = if is_char ":" d then some port else none
after_bracket _ = none

-- The host and the text of the port.
unfoldable pub listen_parts : String → Option (String × String)
listen_parts empty = some ("", "")
listen_parts (letter c s) =
    if is_char "[" c
    then elim (after_bracket (from "]" s)) [ none ↦ none | some port ↦ some (before "]" s, port) ]
    else elim (cut_last ":" (letter c s)) [
      | none ↦ some ("", letter c s)
      | some (host, port) ↦ some (host, port)
    ]

pub record RelayConfig (F D : Type 0) : Type 0 where
  pub listen : String
  pub upstream : String
  pub allow_external_bind : Bool
  pub telemetry_db_path : Option String
  pub observation_enabled : Bool
  pub route_intel_enabled : Bool
  pub churn_detection_enabled : Bool
  pub route_affinity_enabled : Bool
  pub route_affinity_extra_cost_usd : D
  pub route_affinity_safety_margin_usd : D
  pub lease_settings : LeaseSettings F D

-- The flags of the command line.
pub record Flags : Type 0 where
  pub listen : Option String
  pub upstream : Option String
  pub allow_external_bind : Option Bool

-- `a or b`, where `none` and the empty text are false.
abbrev pub filled : Option String → Option String
filled none = none
filled (some s) = if str_eq s "" then none else some s

abbrev pub first_filled : Option String → Option String → Option String
first_filled a b = elim (filled a) [ none ↦ filled b | some s ↦ some s ]

abbrev is_wildcard : String → Bool
is_wildcard host = contains host ("0.0.0.0" ∷ "::" ∷ [])

module _ {F D : Type 0} (r : Reading F D) where
  abbrev port_of : ℤ → Option ℕ
  port_of (pos n) = if leb n 65_535 then some n else none
  port_of _ = none

  -- `parse_listen`
  unfoldable pub parse_listen : String → Option (String × ℕ)
  unfolding listen_parts
  parse_listen value = elim (listen_parts (r.strip value)) [
    | none ↦ none
    | some (host, port_text) ↦
        if str_eq host "" || not (r.is_digits port_text) then none else elim (r.int_of port_text) [
          | none ↦ none
          | some n ↦ elim (port_of n) [ none ↦ none | some port ↦ some (host, port) ]
        ]
  ]

  -- `_validate_upstream`: whether it raises no error.
  unfoldable pub is_upstream : String → Bool
  is_upstream value = elim (r.urlsplit value) [
    | none ↦ false
    | some (scheme, netloc) ↦ contains scheme ("http" ∷ "https" ∷ []) && not (str_eq netloc "")
  ]

  -- `_refuse_wildcard_bind`: whether it raises no error.
  unfoldable pub is_bind_allowed : RelayConfig F D → Bool
  unfolding parse_listen
  is_bind_allowed c = elim (parse_listen c.listen) [
    | none ↦ false
    | some (host, port) ↦ not (is_wildcard host && not c.allow_external_bind)
  ]

  -- The validators of the model.
  unfoldable pub validated : RelayConfig F D → Option (RelayConfig F D)
  unfolding parse_listen is_upstream is_bind_allowed
  validated c = if is_upstream c.upstream && is_bind_allowed c then some c else none

  unfoldable pub env_flag : Option String → Bool
  env_flag none = false
  env_flag (some raw) = contains (r.lower (r.strip raw)) ("1" ∷ "true" ∷ "yes" ∷ "on" ∷ [])

module _ {F D : Type 0} ⦃f : Arith F⦄ ⦃d : Arith D⦄ ⦃c : Conversion F D⦄ (r : Reading F D) where
  unfoldable pub env_decimal : Option String → D → D
  env_decimal none default = default
  env_decimal (some raw) default = elim (r.decimal_of (r.strip raw)) [
    | none ↦ default
    | some x ↦ max x nought
  ]

  unfoldable pub settings_from :
      Dict String → Flags → String → String → LeaseSettings F D → RelayConfig F D
  unfolding env_flag env_decimal
  settings_from env flags default_db upstream leases = record {
    listen =
        get_or (first_filled flags.listen (lookup "CACHEPILOT_RELAY_LISTEN" env)) "127.0.0.1:8787";
    upstream = upstream;
    allow_external_bind =
        get_or flags.allow_external_bind
          (env_flag r (lookup "CACHEPILOT_RELAY_ALLOW_EXTERNAL_BIND" env));
    telemetry_db_path = some (get_or (filled (lookup "CACHEPILOT_TELEMETRY_DB" env)) default_db);
    observation_enabled =
        env_flag r (some (get_or (lookup "CACHEPILOT_RELAY_OBSERVATION_ENABLED" env) "true"));
    route_intel_enabled = env_flag r (some (get_or (lookup "CACHEPILOT_ROUTE_INTEL" env) "true"));
    churn_detection_enabled =
        env_flag r (some (get_or (lookup "CACHEPILOT_CHURN_DETECTION_ENABLED" env) "true"));
    route_affinity_enabled = env_flag r (lookup "CACHEPILOT_ROUTE_AFFINITY" env);
    route_affinity_extra_cost_usd =
        env_decimal (lookup "CACHEPILOT_ROUTE_AFFINITY_EXTRA_COST_USD" env) nought;
    route_affinity_safety_margin_usd =
        env_decimal (lookup "CACHEPILOT_ROUTE_AFFINITY_SAFETY_MARGIN_USD" env) nought;
    lease_settings = leases;
  }

  -- `RelayConfig.from_env`; `default_db` is the path of the database in the user's home.
  unfoldable pub from_env : Dict String → Flags → (default_db : String) → Option (RelayConfig F D)
  unfolding validated leases_from_env
  from_env env flags default_db =
      elim (first_filled flags.upstream (lookup "CACHEPILOT_UPSTREAM" env)) [
        | none ↦ none
        | some upstream ↦ elim (leases_from_env r.parsing env) [
          | none ↦ none
          | some leases ↦ validated r (settings_from env flags default_db upstream leases)
        ]
      ]

-- A text that is there and not empty.
abbrev pub IsGiven : Option String → String → Type 0
IsGiven o s = (o ≡ some s) × (s ≢ "")

abbrev pub IsBlank : Option String → Type 0
IsBlank o = (o ≡ none) ⊎ (o ≡ some "")

-- A setting comes from the flag, without one from the environment, and without both from the default.
pub record IsChosen (flag variable default : Option String) (value : String) : Type 0 where
  pub by_flag : (s : String) → IsGiven flag s → value ≡ s
  pub by_variable : (s : String) → IsBlank flag → IsGiven variable s → value ≡ s
  pub by_default : IsBlank flag → IsBlank variable → default ≡ some value

-- What the relay may rely on.
pub record IsSafeConfig {F D : Type 0} (r : Reading F D) (c : RelayConfig F D) : Type 0 where
  pub host : String
  pub port : ℕ
  pub address : parse_listen r c.listen ≡ some (host, port)
  pub in_range : port ≤ 65_535
  pub named : host ≢ ""
  pub local : c.allow_external_bind ≡ false → (host ≢ "0.0.0.0") × (host ≢ "::")
  pub scheme : String
  pub location : String
  pub absolute : r.urlsplit c.upstream ≡ some (scheme, location)
  pub is_http : (scheme ≡ "http") ⊎ (scheme ≡ "https")
  pub located : location ≢ ""

module _ {F D : Type 0} (r : Reading F D) where
  port_of-range : (i : ℤ) (p : ℕ) → port_of r i ≡ some p → p ≤ 65_535
  port_of-range (pos n) p e = ground arith
  port_of-range (negsuc n) p e = ground arith

  parse_listen-range :
      (value : String) (host : String) (port : ℕ)
      → parse_listen r value ≡ some (host, port)
      → (port ≤ 65_535) × (str_eq host "" ≡ false)
  unfolding parse_listen
  parse_listen-range value host port e = elim (Option-cases (listen_parts (r.strip value))) [
    | inl refused ↦ absurd (ground arith)
    | inr ((h, port_text), parts) ↦ elim (Option-cases (r.int_of port_text)) [
      | inl unread ↦ absurd (ground arith)
      | inr (i, read) ↦ elim (Option-cases (port_of r i)) [
        | inl out ↦ absurd (ground arith)
        | inr (p, at) ↦ let range = port_of-range i p at in (ground arith, ground arith)
      ]
    ]
  ]

  upstream-parts :
      (value : String)
      → is_upstream r value ≡ true
      → (scheme : String) × (location : String) × (r.urlsplit value ≡ some (scheme, location))
        × ((scheme ≡ "http") ⊎ (scheme ≡ "https"))
        × (location ≢ "")
  unfolding is_upstream
  upstream-parts value h = elim (Option-cases (r.urlsplit value)) [
    | inl refused ↦ absurd (ground arith)
    | inr ((scheme, location), parts) ↦ (
      scheme,
      location,
      parts,
      ground (arith, eq_iff "http" scheme, eq_iff "https" scheme),
      λ e. ground (arith, eq_iff location ""),
    )
  ]

  wildcard-named : (host : String) → is_wildcard host ≡ false → (host ≢ "0.0.0.0") × (host ≢ "::")
  wildcard-named host h =
      (λ e. ground (arith, eq_iff "0.0.0.0" host), λ e. ground (arith, eq_iff "::" host))

  validated-IsSafe : (c v : RelayConfig F D) → validated r c ≡ some v → IsSafeConfig r v
  unfolding validated is_bind_allowed
  validated-IsSafe c v e = elim (Option-cases (parse_listen r c.listen)) [
    | inl none_there ↦ absurd (ground arith)
    | inr ((host, port), address) ↦
        let (range, named) = parse_listen-range c.listen host port address in
        let valid : is_upstream r c.upstream ≡ true = ground arith in
        let (scheme, location, parts, is_http, located) = upstream-parts c.upstream valid in
        let same : c ≡ v = ground arith in
        subst (IsSafeConfig r) same (record {
          host = host;
          port = port;
          address = address;
          in_range = range;
          named = λ e. ground (arith, eq_iff host "");
          local = λ h. wildcard-named host (ground arith);
          scheme = scheme;
          location = location;
          absolute = parts;
          is_http = is_http;
          located = located;
        })
  ]

  validated-same : (c v : RelayConfig F D) → validated r c ≡ some v → c ≡ v
  unfolding validated
  validated-same c v e = ground arith

blank-filled : (o : Option String) → IsBlank o → filled o ≡ none
blank-filled none h = refl
blank-filled (some s) h = ground (arith, eq_iff s "")

given-filled : (o : Option String) (s : String) → IsGiven o s → filled o ≡ some s
given-filled o s (e, named) = rw e (ground (arith, eq_iff s ""))

or_default :
    (o : Option String) (d : String)
    → (elim o [ none ↦ some d | some s ↦ some s ]) ≡ some (get_or o d)
or_default none d = refl
or_default (some s) d = refl

-- The first of two that is there and not empty is the one that is chosen.
first_filled-IsChosen :
    (a b default : Option String) (value : String)
    → (elim (first_filled a b) [ none ↦ default | some s ↦ some s ]) ≡ some value
    → IsChosen a b default value
first_filled-IsChosen a b default value e = record {
  by_flag = λ s given. ground (arith, given-filled a s given);
  by_variable = λ s blank given. ground (arith, blank-filled a blank, given-filled b s given);
  by_default = λ blank missing. ground (arith, blank-filled a blank, blank-filled b missing);
}

module _ {F D : Type 0} ⦃f : Arith F⦄ ⦃d : Arith D⦄ ⦃c : Conversion F D⦄ (r : Reading F D) where
  -- Whatever the environment and the flags are, settings that are made are safe: the address to listen on
  -- names a host and a port of at most 65535, the host is neither 0.0.0.0 nor :: unless external binds are
  -- allowed, and the upstream is an absolute HTTP or HTTPS URL. The address and the upstream are those of
  -- the flag, without one those of the variable, and without both the address is the default and there
  -- are no settings without an upstream; a flag decides on external binds before the variable, and with
  -- neither they are not allowed.
  pub from_env-IsSafe :
      (env : Dict String) (flags : Flags) (default_db : String) (v : RelayConfig F D)
      → from_env r env flags default_db ≡ some v
      → IsSafeConfig r v
        × IsChosen flags.listen
            (lookup "CACHEPILOT_RELAY_LISTEN" env)
            (some "127.0.0.1:8787")
            v.listen
        × IsChosen flags.upstream (lookup "CACHEPILOT_UPSTREAM" env) none v.upstream
        × ((b : Bool) → flags.allow_external_bind ≡ some b → v.allow_external_bind ≡ b)
        × (flags.allow_external_bind ≡ none
            → lookup "CACHEPILOT_RELAY_ALLOW_EXTERNAL_BIND" env ≡ none
            → v.allow_external_bind ≡ false)
  unfolding from_env env_flag settings_from
  from_env-IsSafe env flags default_db v e =
      elim (Option-cases (first_filled flags.upstream (lookup "CACHEPILOT_UPSTREAM" env))) [
        | inl missing ↦ absurd (ground arith)
        | inr (u, given) ↦ elim (Option-cases (leases_from_env r.parsing env)) [
          | inl out ↦ absurd (ground arith)
          | inr (leases, ranged) ↦
              let whole : RelayConfig F D = settings_from r env flags default_db u leases in
              let made : validated r whole ≡ some v = ground arith in
              let same = validated-same r whole v made in
              (
                validated-IsSafe r whole v made,
                first_filled-IsChosen flags.listen (lookup "CACHEPILOT_RELAY_LISTEN" env)
                    (some "127.0.0.1:8787") v.listen (rw (sym same) (or_default _ _)),
                first_filled-IsChosen flags.upstream (lookup "CACHEPILOT_UPSTREAM" env) none
                    v.upstream (rw (given, sym same) refl),
                λ b h. ap (λ x. x.allow_external_bind) (sym same) ∙ ground arith,
                λ h k. ap (λ x. x.allow_external_bind) (sym same) ∙ ground arith,
              )
        ]
      ]
