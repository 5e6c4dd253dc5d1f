-- ===== src/Ttl/Learner/Evidence.antt =====
-- Which observations may change what is learned: only a clean pair refines bounds, and only those
-- of its own route.
use cachepilot.Prelude.{
  ℕ, String, ◌≡◌, refl, sym, ◌∙◌, ap, ◌≢◌, Bool, true, false, Option, none, some, arith, eq_iff,
  get_or, Option-cases, inl, inr, ◌+◌, ◌<◌, ◌⊎◌, eq_refl,
}
use Prim.Native.Nat.{◌-◌}
use mathlib.Core.Path.{ap₂}
use mathlib.Core.Option.{some-injective}
use cachepilot.Numbers.{Arith, lit, le, max, min, nought}
use cachepilot.Telemetry.{Outcome, confirmed_hit, miss_rebuilt, success_unverified, failed}
use cachepilot.Ttl.{TtlProfile, observe, profile_key, build_profile_key}
use cachepilot.Ttl.Store.{
  TtlRow, TtlStore, profile_for, upsert_profile, record_ttl_observation, last_ttl_observation,
  churn_between, profile_for-upsert, profile_for-record,
}
use cachepilot.Ttl.Learner.{
  TtlObservation, same_route, idle_age, is_clean, key_of, row_of, fresh_profile, route_changed,
  refine, restart, restart_found, apply_pair, learn,
}

module _ {F : Type 0} where
  -- Every profile is stored under its own key.
  abbrev pub IsKeyed : TtlStore F → Type 0
  IsKeyed s = (k : String) (p : TtlProfile F) → profile_for k s ≡ some p → profile_key p ≡ k

  -- The learned part of a stored profile: its bounds and its sample count.
  abbrev pub facts : Option (TtlProfile F) → Option (Option F × Option F × ℕ)
  facts none = none
  facts (some p) = some (p.lower_bound_s, p.upper_bound_s, p.sample_count)

  upsert-IsKeyed : (p : TtlProfile F) (s : TtlStore F) → IsKeyed s → IsKeyed (upsert_profile p s)
  upsert-IsKeyed p s h k q e =
      ground (arith, h k q, profile_for-upsert k p s, eq_iff (profile_key p) k)

same_route_refl : (a : Option String) → same_route a a ≡ true
same_route_refl none = refl
same_route_refl (some a) = eq_refl a

fresh-profile_key :
    (R : Type 0) ⦃r : Arith R⦄ (sha256 : String → String) (obs : TtlObservation)
    → profile_key (fresh_profile {F = R} sha256 obs) ≡ key_of sha256 obs
unfolding fresh_profile profile_key key_of build_profile_key
fresh-profile_key R sha256 obs = refl

module _ {F : Type 0} ⦃f : Arith F⦄ where
  observe-profile_key :
      (o : Outcome) (p : TtlProfile F) (age : Option F)
      → profile_key (observe o p age) ≡ profile_key p
  unfolding profile_key observe
  observe-profile_key failed p age = refl
  observe-profile_key success_unverified p age = refl
  observe-profile_key confirmed_hit p none = refl
  observe-profile_key confirmed_hit p (some a) = ground arith
  observe-profile_key miss_rebuilt p none = refl
  observe-profile_key miss_rebuilt p (some a) = ground arith

  module _ (sha256 : String → String) where
    refine-profile_key :
        (obs : TtlObservation) (age : F) (p : TtlProfile F)
        → profile_key (refine sha256 obs age p) ≡ profile_key p
    unfolding refine profile_key
    refine-profile_key obs age p = observe-profile_key obs.outcome p (some age)

    restart-profile_key :
        (obs : TtlObservation) (p : TtlProfile F)
        → profile_key (restart sha256 obs p) ≡ profile_key p
    unfolding restart profile_key
    restart-profile_key obs p = refl

    -- The profile that a clean pair starts from has the key of the observation.
    base-profile_key :
        (obs : TtlObservation) (s : TtlStore F)
        → IsKeyed s
        → profile_key (get_or (profile_for (key_of sha256 obs) s) (fresh_profile sha256 obs))
          ≡ key_of sha256 obs
    base-profile_key obs s h = elim (Option-cases (profile_for (key_of sha256 obs) s)) [
      | inl missing ↦ rw missing (fresh-profile_key F sha256 obs)
      | inr (p, found) ↦ rw found (h (key_of sha256 obs) p found)
    ]

    -- The profile that a clean pair leaves under the observation's key.
    abbrev pub refined : TtlObservation → F → TtlStore F → TtlProfile F
    refined obs age s =
        refine sha256 obs age
          (get_or (profile_for (key_of sha256 obs) s) (fresh_profile sha256 obs))

    refined-key :
        (obs : TtlObservation) (age : F) (s : TtlStore F)
        → IsKeyed s
        → profile_key (refined obs age s) ≡ key_of sha256 obs
    refined-key obs age s h = refine-profile_key obs age _ ∙ base-profile_key obs s h

    restart_found-others :
        (k : String) (obs : TtlObservation) (found : Option (TtlProfile F)) (s : TtlStore F)
        → ((p : TtlProfile F) → found ≡ some p → profile_key p ≡ key_of sha256 obs)
        → key_of sha256 obs ≢ k
        → profile_for k (restart_found sha256 obs found s).1 ≡ profile_for k s
    unfolding restart_found
    restart_found-others k obs none s h ne = refl
    restart_found-others k obs (some p) s h ne = ground (
      arith,
      profile_for-upsert k (restart sha256 obs p) s,
      restart-profile_key obs p,
      h p refl,
      eq_iff (profile_key (restart sha256 obs p)) k,
    )

    restart_found-facts :
        (k : String) (obs : TtlObservation) (found : Option (TtlProfile F)) (s : TtlStore F)
        → IsKeyed s
        → profile_for (key_of sha256 obs) s ≡ found
        → facts (profile_for k (restart_found sha256 obs found s).1) ≡ facts (profile_for k s)
    unfolding restart_found restart
    restart_found-facts k obs none s h e = refl
    restart_found-facts k obs (some p) s h e = ground (
      arith,
      profile_for-upsert k (restart sha256 obs p) s,
      restart-profile_key obs p,
      h (key_of sha256 obs) p e,
      eq_iff (profile_key (restart sha256 obs p)) k,
    )

    restart_found-IsKeyed :
        (obs : TtlObservation) (found : Option (TtlProfile F)) (s : TtlStore F)
        → IsKeyed s
        → IsKeyed (restart_found sha256 obs found s).1
    unfolding restart_found
    restart_found-IsKeyed obs none s h = h
    restart_found-IsKeyed obs (some p) s h = upsert-IsKeyed (restart sha256 obs p) s h

    apply_pair-others :
        (k : String) (obs : TtlObservation) (clean : Bool) (age : Option F) (changed : Bool)
        (s : TtlStore F)
        → IsKeyed s
        → key_of sha256 obs ≢ k
        → profile_for k (apply_pair sha256 obs clean age changed s).1 ≡ profile_for k s
    unfolding apply_pair
    apply_pair-others k obs true (some a) changed s h ne = ground (
      arith,
      profile_for-upsert k (refined obs a s) s,
      refined-key obs a s h,
      eq_iff (profile_key (refined obs a s)) k,
    )
    apply_pair-others k obs clean age true s h ne =
        restart_found-others k obs _ s (h (key_of sha256 obs)) ne
    apply_pair-others k obs clean age false s h ne = refl

    apply_pair-IsKeyed :
        (obs : TtlObservation) (clean : Bool) (age : Option F) (changed : Bool) (s : TtlStore F)
        → IsKeyed s
        → IsKeyed (apply_pair sha256 obs clean age changed s).1
    unfolding apply_pair
    apply_pair-IsKeyed obs true (some a) changed s h = upsert-IsKeyed (refined obs a s) s h
    apply_pair-IsKeyed obs clean age true s h = restart_found-IsKeyed obs _ s h
    apply_pair-IsKeyed obs clean age false s h = h

    apply_pair-unclean :
        (k : String) (obs : TtlObservation) (age : Option F) (changed : Bool) (s : TtlStore F)
        → IsKeyed s
        → facts (profile_for k (apply_pair sha256 obs false age changed s).1)
          ≡ facts (profile_for k s)
    unfolding apply_pair
    apply_pair-unclean k obs age true s h = restart_found-facts k obs _ s h refl
    apply_pair-unclean k obs age false s h = refl

    apply_pair-clean :
        (obs : TtlObservation) (a : F) (changed : Bool) (s : TtlStore F)
        → IsKeyed s
        → profile_for (key_of sha256 obs) (apply_pair sha256 obs true (some a) changed s).1
          ≡ some (refined obs a s)
    unfolding apply_pair
    apply_pair-clean obs a changed s h = ground (
      arith,
      profile_for-upsert (key_of sha256 obs) (refined obs a s) s,
      refined-key obs a s h,
      eq_iff (profile_key (refined obs a s)) (key_of sha256 obs),
    )

    abbrev pub previous : TtlObservation → TtlStore F → Option (TtlRow F)
    previous obs s = last_ttl_observation obs.cache_fingerprint s

    -- What `learn` hands to `apply_pair`: the store with the new row.
    abbrev recorded : TtlObservation → TtlStore F → TtlStore F
    recorded obs s =
        let before = previous obs s in
        record_ttl_observation
          (row_of sha256 obs (idle_age sha256 obs before) (is_clean sha256 obs before s)) s

    recorded-IsKeyed :
        (obs : TtlObservation) (s : TtlStore F) → IsKeyed s → IsKeyed (recorded obs s)
    recorded-IsKeyed obs s h k p e = h k p (sym (profile_for-record k _ s) ∙ e)

    -- Learning keeps every profile under its own key, and leaves every profile of another route as
    -- it was: what one route does never changes what is known of another.
    pub learn-others :
        (obs : TtlObservation) (s : TtlStore F)
        → IsKeyed s
        → IsKeyed (learn sha256 obs s).1
          × ((k : String)
              → key_of sha256 obs ≢ k
              → profile_for k (learn sha256 obs s).1 ≡ profile_for k s)
    unfolding learn
    learn-others obs s h =
        let before = previous obs s in
        let clean = is_clean sha256 obs before s in
        let age : Option F = idle_age sha256 obs before in
        let changed = route_changed sha256 obs before in
        let keyed = recorded-IsKeyed obs s h in
        (
          apply_pair-IsKeyed obs clean age changed (recorded obs s) keyed,
          λ k ne.
              apply_pair-others k obs clean age changed (recorded obs s) keyed ne
              ∙ profile_for-record k _ s,
        )

    -- A pair that is not clean (no earlier observation, no time between, another route, or churn in
    -- between) leaves the bounds and the sample count of every profile as they were.
    pub learn-unclean :
        (obs : TtlObservation) (s : TtlStore F)
        → IsKeyed s
        → is_clean sha256 obs (previous obs s) s ≡ false
        → (k : String) → facts (profile_for k (learn sha256 obs s).1) ≡ facts (profile_for k s)
    unfolding learn
    learn-unclean obs s h unclean k =
        let before = previous obs s in
        let age : Option F = idle_age sha256 obs before in
        let changed = route_changed sha256 obs before in
        let keyed = recorded-IsKeyed obs s h in
        ap (λ c. facts (profile_for k (apply_pair sha256 obs c age changed (recorded obs s)).1))
          unclean
        ∙ apply_pair-unclean k obs age changed (recorded obs s) keyed
        ∙ ap facts (profile_for-record k _ s)

    clean-aged :
        (obs : TtlObservation) (before : Option (TtlRow F)) (s : TtlStore F)
        → is_clean sha256 obs before s ≡ true
        → (a : F) × (idle_age sha256 obs before ≡ some a)
    unfolding is_clean idle_age
    clean-aged obs none s h = cc
    clean-aged obs (some r) s h = (lit (obs.timestamp - r.timestamp) 1_000_000, ground arith)

    clean-profile :
        (obs : TtlObservation) (s : TtlStore F)
        → IsKeyed s
        → is_clean sha256 obs (previous obs s) s ≡ true
        → (a : F) × (idle_age sha256 obs (previous obs s) ≡ some a)
          × (profile_for (key_of sha256 obs) (learn sha256 obs s).1 ≡ some (refined obs a s))
    unfolding learn
    clean-profile obs s h clean =
        let before = previous obs s in
        let changed = route_changed sha256 obs before in
        let keyed = recorded-IsKeyed obs s h in
        let (a, aged) = clean-aged obs before s clean in
        (
          a,
          aged,
          ap₂
                (λ c o.
                  profile_for (key_of sha256 obs)
                    (apply_pair sha256 obs c o changed (recorded obs s)).1)
                clean aged
              ∙ apply_pair-clean obs a changed (recorded obs s) keyed
              ∙ ap (λ o. some (refine sha256 obs a (get_or o (fresh_profile sha256 obs))))
                  (profile_for-record (key_of sha256 obs) _ s),
        )

    -- What was known of the observation's route.
    abbrev known : TtlObservation → TtlStore F → TtlProfile F
    known obs s = get_or (profile_for (key_of sha256 obs) s) (fresh_profile sha256 obs)

    -- What one observation at an age, which is not negative, adds to what was known: a hit raises the
    -- lower bound to its age if it was lower, a miss lowers the upper bound if it was higher or unknown.
    pub record IsLearned (o : Outcome) (age : F) (old new : TtlProfile F) : Type 0 where
      pub hit :
          o ≡ confirmed_hit
          → (new.lower_bound_s ≡ some (max (get_or old.lower_bound_s nought) age))
            × (new.upper_bound_s ≡ old.upper_bound_s)
            × (new.sample_count ≡ old.sample_count + 1)
      pub missed :
          o ≡ miss_rebuilt
          → (new.upper_bound_s
              ≡ some (elim old.upper_bound_s [ none ↦ age | some upper ↦ min upper age ]))
            × (new.lower_bound_s ≡ old.lower_bound_s)
            × (new.sample_count ≡ old.sample_count + 1)
      pub undecided :
          (o ≡ success_unverified) ⊎ (o ≡ failed)
          → (new.lower_bound_s ≡ old.lower_bound_s)
            × (new.upper_bound_s ≡ old.upper_bound_s)
            × (new.sample_count ≡ old.sample_count)

    observe-IsLearned :
        (o : Outcome) (p : TtlProfile F) (age : F)
        → le nought age ≡ true
        → IsLearned o age p (observe o p (some age))
    unfolding observe
    observe-IsLearned failed p age h = record {
      hit = λ e. cc;
      missed = λ e. cc;
      undecided = λ e. (refl, refl, refl);
    }
    observe-IsLearned success_unverified p age h = record {
      hit = λ e. cc;
      missed = λ e. cc;
      undecided = λ e. (refl, refl, refl);
    }
    observe-IsLearned confirmed_hit p age h = record {
      hit = λ e. ground arith;
      missed = λ e. cc;
      undecided = λ e. ground arith;
    }
    observe-IsLearned miss_rebuilt p age h = record {
      hit = λ e. cc;
      missed = λ e. ground arith;
      undecided = λ e. ground arith;
    }

    -- Two requests of one cache fingerprint on one route, the second later by some microseconds and with
    -- no churn in between, teach what the second's outcome says of that many seconds: a hit raises the
    -- lower bound of the route's profile to them, a miss lowers the upper bound to them, each counting
    -- one sample, and any other outcome leaves bounds and samples. A profile that was not there starts
    -- without bounds. Of the numbers it takes that the seconds are not negative.
    pub learn-clean :
        (obs : TtlObservation) (row : TtlRow F) (s : TtlStore F)
        → IsKeyed s
        → last_ttl_observation obs.cache_fingerprint s ≡ some row
        → row.timestamp < obs.timestamp
        → row.route_hash ≡ obs.route_hash
        → churn_between obs.cache_fingerprint row.timestamp obs.timestamp s ≡ false
        → le {R = F} nought (lit (obs.timestamp - row.timestamp) 1_000_000) ≡ true
        → (new : TtlProfile F) × (profile_for (key_of sha256 obs) (learn sha256 obs s).1 ≡ some new)
          × IsLearned obs.outcome (lit (obs.timestamp - row.timestamp) 1_000_000) (known obs s) new
    unfolding refine idle_age is_clean
    learn-clean obs row s h before later route quiet positive =
        let age : F = lit (obs.timestamp - row.timestamp) 1_000_000 in
        let same : same_route row.route_hash obs.route_hash ≡ true =
          ap (λ r. same_route r obs.route_hash) route ∙ same_route_refl obs.route_hash in
        let clean : is_clean sha256 obs (some row) s ≡ true = ground arith in
        let aged : idle_age sha256 obs (some row) ≡ some age = ground arith in
        let (a, at, stored) =
          clean-profile obs s h (ap (λ r. is_clean sha256 obs r s) before ∙ clean) in
        let is : a ≡ age =
          some-injective a age (sym at ∙ ap (λ r. idle_age sha256 obs r) before ∙ aged) in
        let learned = observe-IsLearned obs.outcome (known obs s) age positive in
        (
          refined obs age s,
          stored ∙ ap (λ x. some (refined obs x s)) is,
          record { hit = learned.hit; missed = learned.missed; undecided = learned.undecided },
        )
