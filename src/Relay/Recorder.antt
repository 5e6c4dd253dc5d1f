-- ===== src/Relay/Recorder.antt =====
-- observation.py: `RequestObserver`, which records each request and its response in the store, and
-- feeds the TTL learner. A call returns the observer as it leaves it.
pub mod Churn
pub mod Record
pub mod Observe
pub mod Bodies
pub mod Transition
mod Examples
use cachepilot.Prelude.{
  ℕ, ◌+◌, String, Bool, true, false, ◌&&◌, ◌||◌, not, Option, none, some, List, [], ◌∷◌, length,
  ltb, leb, if◌then◌else◌,
}
use cachepilot.Dict.{Dict, lookup, insert, has}
use cachepilot.Storage.{TelemetryStore}
use cachepilot.Churn.Layers.{Search}

pub record RequestObserver (F D : Type 0) : Type 0 where
  pub store : Option (TelemetryStore F D)
  pub enabled : Bool
  pub route_intel_enabled : Bool
  pub churn_detection_enabled : Bool
  pub streaming_unverified : ℕ
  pub last_body : Dict String

-- What the observer takes from elsewhere: the size of a body in bytes, the first 16 characters of a
-- digest, `round(x, 2)`, and the regular expressions of churn.py.
pub record Instruments (F : Type 0) : Type 0 where
  pub byte_length : String → ℕ
  pub head16 : String → String
  pub round2 : F → F
  pub patterns : List Search
  pub volatile : List (String → Bool)

-- `self._last_body.pop(next(iter(self._last_body)))`
abbrev pub without_oldest : Dict String → Dict String
without_oldest [] = []
without_oldest (e ∷ d) = d

-- `_remember_body`: the body that the session had before, and the bodies that are kept.
unfoldable pub remember_body :
    (byte_length : String → ℕ)
    → Bool
    → Option String
    → String
    → Dict String
    → Option String × Dict String
remember_body byte_length detecting none body bodies = (none, bodies)
remember_body byte_length detecting (some session) body bodies =
    if not detecting || ltb 1_048_576 (byte_length body) then (none, bodies) else (
      lookup session bodies,
      insert session body (
          if not (has session bodies) && leb 32 (length bodies)
          then without_oldest bodies
          else bodies),
    )
