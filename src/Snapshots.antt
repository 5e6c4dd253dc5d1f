-- ===== src/Snapshots.antt =====
-- packages/core/src/cachepilot_core/snapshots.py: the last request of each cache identity, in memory.
use cachepilot.Prelude.{String, ◌≡◌, Option, none, some, List, [], if◌then◌else◌, str_eq}
use cachepilot.Dict.{Dict, lookup, insert, erase, keys}
use cachepilot.Dict.Laws.{lookup-insert, lookup-erase}
use cachepilot.Json.{Fields}

pub record RequestSnapshot (F : Type 0) : Type 0 where
  pub cache_fingerprint : String
  pub body : Fields
  pub upstream_url : String
  pub replay_headers : Dict String
  pub stored_at : F

abbrev pub SnapshotStore : Type 0 → Type 0
SnapshotStore F = Dict (RequestSnapshot F)

module _ {F : Type 0} where
  unfoldable pub store : RequestSnapshot F → SnapshotStore F → SnapshotStore F
  store snapshot s = insert snapshot.cache_fingerprint snapshot s

  unfoldable pub get : String → SnapshotStore F → Option (RequestSnapshot F)
  get fp s = lookup fp s

  unfoldable pub drop : String → SnapshotStore F → SnapshotStore F
  drop fp s = erase fp s

  -- `clear`: a relay that restarts has no snapshot.
  unfoldable pub clear : SnapshotStore F → SnapshotStore F
  clear s = []

  -- `fingerprints`
  unfoldable pub fingerprints : SnapshotStore F → List String
  fingerprints s = keys s

  -- The latest request of an identity is the one that is found, and no other identity's changes.
  pub get-store :
      (fp : String) (snapshot : RequestSnapshot F) (s : SnapshotStore F)
      → get fp (store snapshot s)
        ≡ (if str_eq snapshot.cache_fingerprint fp then some snapshot else get fp s)
  unfolding get store
  get-store fp snapshot s = lookup-insert snapshot.cache_fingerprint fp snapshot s

  pub get-drop :
      (fp other : String) (s : SnapshotStore F)
      → get other (drop fp s) ≡ (if str_eq fp other then none else get other s)
  unfolding get drop
  get-drop fp other s = lookup-erase fp other s
