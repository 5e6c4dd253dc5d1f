-- ===== src/Leases/Lifecycle.antt =====
-- `LeaseManager`: arming, invalidation, completion and the background targets.
use cachepilot.Prelude.{
  String, Bool, true, false, Option, List, [], ◌∷◌, ◌++◌, contains, length, str_eq, ◌==◌,
  if◌then◌else◌,
}
use cachepilot.Leases.{CacheLease, LeaseManager, invalidated}
use cachepilot.Leases.Runtime.{
  runtime_for, put_runtime, put_lease, find_lease, with_lease, arm_lease, disarm_lease,
  cancel_pending_warm,
}

-- `set.add` and `set.discard`
unfoldable pub add_target : String → List String → List String
add_target t ts = if contains t ts then ts else ts ++ (t ∷ [])

unfoldable pub discard_target : String → List String → List String
discard_target t [] = []
discard_target t (x ∷ ts) = let rest = discard_target t ts in if str_eq x t then rest else x ∷ rest

abbrev pub is_empty : List String → Bool
is_empty [] = true
is_empty (_ ∷ _) = false

module _ {F D : Type 0} where
  unfoldable pub arm : String → LeaseManager F D → Option (LeaseManager F D)
  unfolding put_lease find_lease arm_lease
  arm id m = with_lease id m λ l. put_lease id (arm_lease l) m

  -- The lease that `invalidate` leaves, and the runtime flags that it clears.
  unfoldable pub invalidate : String → LeaseManager F D → Option (LeaseManager F D)
  unfolding put_lease find_lease put_runtime runtime_for cancel_pending_warm
  invalidate id m = with_lease id m λ l.
      let m' = cancel_pending_warm id (put_lease id (record l { state = invalidated }) m) in
      let r = runtime_for id m' in
      put_runtime id (record r { real_request_active = false; warm_request_active = false }) m'

  unfoldable pub complete : String → LeaseManager F D → Option (LeaseManager F D)
  unfolding put_lease find_lease put_runtime runtime_for cancel_pending_warm disarm_lease
  complete id m =
      with_lease id m λ l.
        put_lease id (disarm_lease (record l { active_targets = [] })) (cancel_pending_warm id m)

  unfoldable pub started : String → CacheLease F D → CacheLease F D
  started t l =
      let l' = record l { active_targets = add_target t l.active_targets } in
      if length l'.active_targets == 1 then arm_lease l' else l'

  unfoldable pub target_started : String → String → LeaseManager F D → Option (LeaseManager F D)
  unfolding put_lease find_lease arm_lease started
  target_started id t m =
      with_lease id m λ l. if str_eq t "" then m else put_lease id (started t l) m

  unfoldable pub finished : String → String → CacheLease F D → LeaseManager F D → LeaseManager F D
  finished id t l m =
      let l' = record l { active_targets = discard_target t l.active_targets } in
      if is_empty l'.active_targets
      then put_lease id (disarm_lease l') (cancel_pending_warm id m)
      else put_lease id l' m

  unfoldable pub target_finished : String → String → LeaseManager F D → Option (LeaseManager F D)
  unfolding put_lease find_lease cancel_pending_warm disarm_lease finished put_runtime runtime_for
  target_finished id t m = with_lease id m λ l. if str_eq t "" then m else finished id t l m
