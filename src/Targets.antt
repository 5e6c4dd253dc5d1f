-- ===== src/Targets.antt =====
-- packages/hermes-plugin/src/cachepilot_hermes/targets.py: the background targets of the sessions, with
-- their reference counts. The registry's lock makes each method one step.
pub mod Counts
mod Examples
use cachepilot.Prelude.{
  ℕ, ◌+◌, ◌-◌, String, Bool, true, false, Option, none, some, List, [], ◌∷◌, ◌++◌, leb, ltb, length,
  select, str_eq, get_or, if◌then◌else◌,
}
use cachepilot.Dict.{Dict, lookup, insert, erase, values}

pub data TargetKind : Type 0 where
  process subagent external : TargetKind

pub record BackgroundTarget (F : Type 0) : Type 0 where
  pub id : String
  pub kind : TargetKind
  pub session_id : String
  pub started_at : F
  pub expected_completion : Bool

pub record BackgroundTargetRegistry (F : Type 0) : Type 0 where
  pub targets : Dict (BackgroundTarget F)
  pub refcounts : Dict ℕ

-- `reversed`: the entries, the last one first.
unfoldable pub reversed : {A : Type 0} → List A → List A
reversed [] = []
reversed (x ∷ xs) = reversed xs ++ (x ∷ [])

module _ {F : Type 0} where
  abbrev pub no_targets : BackgroundTargetRegistry F
  no_targets = record { targets = []; refcounts = [] }

  unfoldable pub refcount : String → BackgroundTargetRegistry F → ℕ
  refcount id g = get_or (lookup id g.refcounts) 0

  -- A method gives the new count and the registry.
  unfoldable pub register :
      BackgroundTarget F → BackgroundTargetRegistry F → ℕ × BackgroundTargetRegistry F
  unfolding refcount
  register t g = if str_eq t.id "" then (0, g) else (
    refcount t.id g + 1,
    record {
      targets = insert t.id t g.targets;
      refcounts = insert t.id (refcount t.id g + 1) g.refcounts;
    },
  )

  -- `remaining <= 0`, where `remaining` is the count less one, is a count of at most one.
  unfoldable pub release : String → BackgroundTargetRegistry F → ℕ × BackgroundTargetRegistry F
  unfolding refcount
  release id g =
      if str_eq id ""
      then (0, g)
      else if leb (refcount id g) 1
      then (0, record { targets = erase id g.targets; refcounts = erase id g.refcounts })
      else (refcount id g - 1, record g { refcounts = insert id (refcount id g - 1) g.refcounts })

  unfoldable pub is_active : String → BackgroundTargetRegistry F → Bool
  unfolding refcount
  is_active id g = ltb 0 (refcount id g)

  abbrev in_session : Option String → BackgroundTarget F → Bool
  in_session none t = true
  in_session (some s) t = str_eq t.session_id s

  unfoldable pub active_count : Option String → BackgroundTargetRegistry F → ℕ
  active_count none g = length g.refcounts
  active_count (some s) g = length (select (in_session (some s)) (values g.targets))

  -- Newest registered first.
  unfoldable pub active_targets :
      Option String → BackgroundTargetRegistry F → List (BackgroundTarget F)
  unfolding reversed
  active_targets session g = reversed (select (in_session session) (values g.targets))

  unfoldable pub reset : BackgroundTargetRegistry F → BackgroundTargetRegistry F
  reset g = no_targets
