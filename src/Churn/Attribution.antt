-- ===== src/Churn/Attribution.antt =====
-- A cause is named exactly when something moved.
use cachepilot.Prelude.{
  String, ◌≡◌, refl, sym, ap, ◌∙◌, ◌↔◌, ◌⊎◌, Bool, true, false, ◌||◌, not, Option, none, some,
  arith, eq_iff, is_none,
}
use cachepilot.Numbers.{Arith}
use cachepilot.Churn.Layers.{LayeredHashes}
use cachepilot.Churn.Cause.{
  Cause, ChurnClassification, holds, differ, maybe_differs, is_changed, only_system_changed,
  primary_cause, compare_snapshots, classify_hashes, with_cause,
}

module _ {F : Type 0} where
  -- Some layer is known to have changed.
  unfoldable is_moved : ChurnClassification F → Bool
  is_moved c =
      c.system_changed
      || (c.tools_changed
          || (c.history_changed
              || (c.route_changed
                  || (c.cache_key_changed
                      || (c.model_changed
                          || (holds c.system_prefix_changed
                              || (holds c.system_suffix_changed
                                  || (holds c.history_prefix_changed
                                      || holds c.history_tail_changed))))))))

  primary_cause-none :
      (c : ChurnClassification F) (identity_changed : Bool)
      → is_none (primary_cause c identity_changed) ≡ not (is_moved c || identity_changed)
  unfolding is_moved primary_cause is_changed only_system_changed
  primary_cause-none c identity_changed = ground arith

differ_iff : (a b : Option String) → (differ a b ≡ false) ↔ (a ≡ b)
unfolding differ
differ_iff none none = ground arith
differ_iff none (some b) = ground arith
differ_iff (some a) none = ground arith
differ_iff (some a) (some b) = ground (arith, eq_iff a b)

-- The digests of a layer are equal, as far as both are known.
abbrev pub IsStill : Option String → Option String → Type 0
IsStill a b = (a ≡ none) ⊎ (b ≡ none) ⊎ (a ≡ b)

maybe_differs_iff : (a b : Option String) → (holds (maybe_differs a b) ≡ false) ↔ IsStill a b
unfolding maybe_differs
maybe_differs_iff none b = ground arith
maybe_differs_iff (some a) none = ground arith
maybe_differs_iff (some a) (some b) = ground (arith, eq_iff a b)

-- Nothing that the snapshots hold has moved.
abbrev pub IsUnmoved : LayeredHashes → LayeredHashes → Type 0
IsUnmoved p c =
    (p.system_hash ≡ c.system_hash)
    × ((p.tools_hash ≡ c.tools_hash)
        × ((p.history_hash ≡ c.history_hash)
            × ((p.route_hash ≡ c.route_hash)
                × ((p.cache_key ≡ c.cache_key)
                    × ((p.model ≡ c.model)
                        × (IsStill p.system_prefix_hash c.system_prefix_hash
                            × (IsStill p.system_suffix_hash c.system_suffix_hash
                                × (IsStill p.history_prefix_hash c.history_prefix_hash
                                    × (IsStill p.history_tail_hash c.history_tail_hash)))))))))

false_of_not : {b : Bool} → not b ≡ true → b ≡ false
false_of_not {b = b} h = ground arith

-- Two tests that each say something say both together.
or_iff :
    {A B : Type 0} (a b : Bool) → (a ≡ false) ↔ A → (b ≡ false) ↔ B → ((a || b) ≡ false) ↔ (A × B)
or_iff true b f g = (λ h. ground arith, λ both. f.1 both.0)
or_iff false b f g = (λ h. (f.0 refl, g.0 h), λ both. g.1 both.1)

moved_iff :
    (F : Type 0) (p c : LayeredHashes)
    → (is_moved (compare_snapshots {F = F} p c) ≡ false) ↔ IsUnmoved p c
unfolding is_moved compare_snapshots
moved_iff F p c = or_iff _ _ (differ_iff p.system_hash c.system_hash) (
    or_iff _ _ (differ_iff p.tools_hash c.tools_hash) (
      or_iff _ _ (differ_iff p.history_hash c.history_hash) (
        or_iff _ _ (differ_iff p.route_hash c.route_hash) (
          or_iff _ _ (differ_iff p.cache_key c.cache_key) (
            or_iff _ _ (differ_iff p.model c.model) (
              or_iff _ _ (maybe_differs_iff p.system_prefix_hash c.system_prefix_hash) (
                or_iff _ _ (maybe_differs_iff p.system_suffix_hash c.system_suffix_hash) (
                  or_iff _ _ (maybe_differs_iff p.history_prefix_hash c.history_prefix_hash)
                    (maybe_differs_iff p.history_tail_hash c.history_tail_hash)))))))))

module _ {F : Type 0} ⦃f : Arith F⦄ (round2 : F → F) where
  with_cause-none :
      (o : Option Cause) (c : ChurnClassification F)
      → c.likely_cause ≡ none
      → c.confidence ≡ none
      → (is_none (with_cause round2 o c).likely_cause ≡ is_none o)
        × (is_none (with_cause round2 o c).confidence ≡ is_none o)
  with_cause-none none c h k = (rw h refl, rw k refl)
  with_cause-none (some cause) c h k = (refl, refl)

  -- A cause is named exactly when something moved: none is, and no confidence is given, exactly when
  -- the flat digests, the route, the model and the cache key of the two snapshots are equal, the
  -- layered digests are equal as far as both are known, and the cache fingerprint is not said to have
  -- moved.
  pub classify_hashes-none_iff :
      (p c : LayeredHashes) (identity_changed : Bool)
      → ((is_none (classify_hashes round2 p c identity_changed).likely_cause ≡ true)
          ↔ (IsUnmoved p c × (identity_changed ≡ false)))
        × (is_none (classify_hashes round2 p c identity_changed).confidence
            ≡ is_none (classify_hashes round2 p c identity_changed).likely_cause)
  unfolding classify_hashes compare_snapshots
  classify_hashes-none_iff p c identity_changed =
      let flags : ChurnClassification F = compare_snapshots p c in
      let named = primary_cause-none flags identity_changed in
      let both = or_iff (is_moved flags) identity_changed (moved_iff F p c) ((λ h. h), λ h. h) in
      let (cause, sure) = with_cause-none (primary_cause flags identity_changed) flags refl refl in
      (
        (
          λ h. both.0 (false_of_not (sym named ∙ sym cause ∙ h)),
          λ h. cause ∙ named ∙ ap not (both.1 h),
        ),
        sure ∙ sym cause,
      )
