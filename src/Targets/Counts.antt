-- ===== src/Targets/Counts.antt =====
-- The registry counts its events, and knows exactly the targets that are active.
use cachepilot.Prelude.{
  ℕ, ◌+◌, ◌-◌, String, ◌≡◌, ◌≢◌, refl, ◌∙◌, ap, ◌&&◌, not, some, List, [], ◌∷◌, arith, str_eq,
  eq_iff, is_some, if◌then◌else◌,
}
use cachepilot.Dict.{lookup}
use cachepilot.Dict.Laws.{lookup-insert, lookup-erase}
use cachepilot.Targets.{BackgroundTarget, BackgroundTargetRegistry, refcount, register, release}

-- The events that reach the registry.
pub data Event (F : Type 0) : Type 0 where
  starts : BackgroundTarget F → Event F
  stops : String → Event F

module _ {F : Type 0} where
  unfoldable pub run : List (Event F) → BackgroundTargetRegistry F → BackgroundTargetRegistry F
  run [] g = g
  run (starts t ∷ es) g = run es (register t g).1
  run (stops id ∷ es) g = run es (release id g).1

  -- A counter of one target's events, which stops at zero: starts less stops, as they come.
  abbrev pub counted : String → List (Event F) → ℕ → ℕ
  counted j [] n = n
  counted j (starts t ∷ es) n =
      counted j es (if str_eq t.id j && not (str_eq j "") then n + 1 else n)
  counted j (stops id ∷ es) n = counted j es (if str_eq id j && not (str_eq j "") then n - 1 else n)

  -- A target is recorded exactly while it has a count, and no count is zero.
  pub record IsCounted (g : BackgroundTargetRegistry F) : Type 0 where
    pub together : (j : String) → is_some (lookup j g.targets) ≡ is_some (lookup j g.refcounts)
    pub positive : (j : String) → lookup j g.refcounts ≢ some 0

  register-refcount :
      (j : String) (t : BackgroundTarget F) (g : BackgroundTargetRegistry F)
      → refcount j (register t g).1
        ≡ (if str_eq t.id j && not (str_eq j "") then refcount j g + 1 else refcount j g)
  unfolding refcount register
  register-refcount j t g = ground (
    arith,
    lookup-insert t.id j (refcount t.id g + 1) g.refcounts,
    eq_iff t.id j,
    eq_iff t.id "",
    eq_iff j "",
  )

  release-refcount :
      (j id : String) (g : BackgroundTargetRegistry F)
      → refcount j (release id g).1
        ≡ (if str_eq id j && not (str_eq j "") then refcount j g - 1 else refcount j g)
  unfolding refcount release
  release-refcount j id g = ground (
    arith,
    lookup-insert id j (refcount id g - 1) g.refcounts,
    lookup-erase id j g.refcounts,
    eq_iff id j,
    eq_iff id "",
    eq_iff j "",
  )

  -- After any sequence of starts and stops, in any order and with any repetition, the count of a
  -- target is that of a counter of its own events which stops at zero; events without an id and those
  -- of other targets do not matter.
  pub run-refcount :
      (j : String) (es : List (Event F)) (g : BackgroundTargetRegistry F)
      → refcount j (run es g) ≡ counted j es (refcount j g)
  unfolding run
  run-refcount j [] g = refl
  run-refcount j (starts t ∷ es) g =
      run-refcount j es (register t g).1 ∙ ap (counted j es) (register-refcount j t g)
  run-refcount j (stops id ∷ es) g =
      run-refcount j es (release id g).1 ∙ ap (counted j es) (release-refcount j id g)

  register-IsCounted :
      (t : BackgroundTarget F) (g : BackgroundTargetRegistry F)
      → IsCounted g
      → IsCounted (register t g).1
  unfolding register
  register-IsCounted t g h = record {
    together = λ j. ground (
      arith,
      h.together j,
      lookup-insert t.id j t g.targets,
      lookup-insert t.id j (refcount t.id g + 1) g.refcounts,
    );
    positive =
        λ j. ground (arith, h.positive j, lookup-insert t.id j (refcount t.id g + 1) g.refcounts);
  }

  release-IsCounted :
      (id : String) (g : BackgroundTargetRegistry F) → IsCounted g → IsCounted (release id g).1
  unfolding release
  release-IsCounted id g h = record {
    together = λ j. ground (
      arith,
      h.together j,
      h.together id,
      lookup-erase id j g.targets,
      lookup-erase id j g.refcounts,
      lookup-insert id j (refcount id g - 1) g.refcounts,
      eq_iff id j,
    );
    positive = λ j. ground (
      arith,
      h.positive j,
      lookup-erase id j g.refcounts,
      lookup-insert id j (refcount id g - 1) g.refcounts,
    );
  }

  -- The targets that are recorded are exactly those with a count, and no count is ever zero, after
  -- any sequence of events on a registry where that holds.
  pub run-IsCounted :
      (es : List (Event F)) (g : BackgroundTargetRegistry F) → IsCounted g → IsCounted (run es g)
  unfolding run
  run-IsCounted [] g h = h
  run-IsCounted (starts t ∷ es) g h = run-IsCounted es (register t g).1 (register-IsCounted t g h)
  run-IsCounted (stops id ∷ es) g h = run-IsCounted es (release id g).1 (release-IsCounted id g h)
