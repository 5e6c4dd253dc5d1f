-- ===== src/Relay/Recorder/Bodies.antt =====
-- The bodies that the observer keeps in memory.
use cachepilot.Prelude.{
  ℕ, ◌-◌, ◌≤◌, String, ◌≡◌, refl, Bool, Option, none, some, [], ◌∷◌, length, arith,
}
use cachepilot.Dict.{Dict}
use cachepilot.Dict.Laws.{length-insert}
use cachepilot.Relay.Recorder.{without_oldest, remember_body}

length-without_oldest : (d : Dict String) → length (without_oldest d) ≡ length d - 1
length-without_oldest [] = refl
length-without_oldest (e ∷ d) = omega arith

-- Whatever comes, no more than 32 bodies are kept.
remember_body-length :
    (byte_length : String → ℕ) (detecting : Bool) (session : Option String) (body : String)
    (bodies : Dict String)
    → length bodies ≤ 32
    → length (remember_body byte_length detecting session body bodies).1 ≤ 32
unfolding remember_body
remember_body-length byte_length detecting none body bodies h = h
remember_body-length byte_length detecting (some session) body bodies h = ground (
  arith,
  length-insert session body bodies,
  length-insert session body (without_oldest bodies),
  length-without_oldest bodies,
)
