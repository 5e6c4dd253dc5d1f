-- ===== src/Pricing/Resume.antt =====
-- A cached resume costs no more than a cold one, and a cost is known unless every source is absent.
use cachepilot.Prelude.{ℕ, ◌-◌, ◌≡◌, true, false, none, arith, if◌then◌else◌, Bool-cases, inl, inr}
use cachepilot.Numbers.{Arith, IsOrdered, lit, add, mul, div, le, lt, nought}
use cachepilot.Numbers.Laws.{
  add_mono_left, add-nonpos-le, le-add-nonneg, nonpos_add-le, mul_mono_right,
}
use cachepilot.Usage.{TokenUsage}
use cachepilot.Pricing.{PricingTable, of_ℕ, estimate_cost, cold_usage, estimate_resume_costs}

module _ {D : Type 0} ⦃d : Arith D⦄ ⦃laws : IsOrdered D⦄ where
  charge : ℕ → D → D
  charge n rate = mul (of_ℕ n) rate

  charge_mono : (n : ℕ) (a b : D) → le a b ≡ true → le (charge n a) (charge n b) ≡ true
  unfolding charge
  charge_mono n a b h =
      mul_mono_right a b (of_ℕ n) (laws.lit_mono 0 1 n 1 (omega arith) (omega arith) (omega arith))
        h

  -- A cached resume against one that writes the prefix: the reads cost no more than the writes.
  read-le-write :
      (i r w o : D) (p : ℕ)
      → le r w ≡ true
      → le
          (add (add (add (charge 0 i) (charge p r)) (charge 0 w)) o)
          (add (add (add (charge 0 i) (charge 0 r)) (charge p w)) o)
        ≡ true
  unfolding charge
  read-le-write i r w o p h = add_mono_left _ _ o (
      laws.le_trans _ _ _ (add-nonpos-le _ (charge 0 w) (laws.nought_mul-le w)) (
        laws.add_mono (charge 0 i) (add (charge 0 i) (charge 0 r)) (charge p r) (charge p w)
          (le-add-nonneg (charge 0 i) (charge 0 r) (laws.le-nought_mul r)) (charge_mono p r w h)))

  -- A cached resume against one that pays the prefix as fresh input.
  read-le-input :
      (i r w o : D) (p : ℕ)
      → le r i ≡ true
      → le
          (add (add (add (charge 0 i) (charge p r)) (charge 0 w)) o)
          (add (add (add (charge p i) (charge 0 r)) (charge 0 w)) o)
        ≡ true
  unfolding charge
  read-le-input i r w o p h = add_mono_left _ _ o (
      add_mono_left _ _ (charge 0 w) (
        laws.le_trans _ _ _ (nonpos_add-le (charge 0 i) (charge p r) (laws.nought_mul-le i)) (
          laws.le_trans _ _ _ (charge_mono p r i h)
            (le-add-nonneg (charge p i) (charge 0 r) (laws.le-nought_mul r)))))

  abbrev usage : ℕ → ℕ → ℕ → ℕ → TokenUsage D
  usage prompt completion reads writes = record {
    prompt_tokens = prompt;
    completion_tokens = completion;
    cache_read_tokens = reads;
    cache_write_tokens = writes;
    cost = none;
  }

  -- The cost in terms of the uncached rest.
  cost-parts :
      (p o r w rest : ℕ) (pricing : PricingTable D)
      → p - r - w ≡ rest
      → estimate_cost (usage p o r w) pricing
        ≡ div
            (add
              (add
                (add (charge rest pricing.input_per_mtok) (charge r pricing.cache_read_per_mtok))
                (charge w pricing.cache_write_per_mtok))
              (charge o pricing.output_per_mtok))
            (lit 1_000_000 1)
  unfolding estimate_cost charge
  cost-parts p o r w rest pricing e = rw e

  -- What a cold resume pays for each token of the prefix.
  abbrev pub cold_rate : PricingTable D → D
  cold_rate pricing =
      if lt nought pricing.cache_write_per_mtok
      then pricing.cache_write_per_mtok
      else pricing.input_per_mtok

  cold_usage-priced :
      (p o : ℕ) (pricing : PricingTable D)
      → lt nought pricing.cache_write_per_mtok ≡ true
      → cold_usage p pricing o ≡ usage p o 0 p
  unfolding cold_usage
  cold_usage-priced p o pricing h = rw h

  cold_usage-free :
      (p o : ℕ) (pricing : PricingTable D)
      → lt nought pricing.cache_write_per_mtok ≡ false
      → cold_usage p pricing o ≡ usage p o 0 0
  unfolding cold_usage
  cold_usage-free p o pricing h = rw h

  -- If a cache read is priced no higher than what a cold resume pays for the prefix (the write rate
  -- where it is positive, else the input rate), the cached resume costs no more than the cold one:
  -- the avoidable loss is not negative.
  cached-le-cold :
      (prefix completion : ℕ) (pricing : PricingTable D)
      → le pricing.cache_read_per_mtok (cold_rate pricing) ≡ true
      → le
          (estimate_resume_costs prefix pricing completion).1
          (estimate_resume_costs prefix pricing completion).0
        ≡ true
  unfolding estimate_resume_costs
  cached-le-cold prefix completion pricing h =
      elim (Bool-cases (lt nought pricing.cache_write_per_mtok)) [
        | inl priced ↦
            rw
              (
                cold_usage-priced prefix completion pricing priced,
                cost-parts prefix completion prefix 0 0 pricing (omega arith),
                cost-parts prefix completion 0 prefix 0 pricing (omega arith),
              )
              (laws.div_mono _ _ 1_000_000 (omega arith) (
                read-le-write pricing.input_per_mtok pricing.cache_read_per_mtok
                  pricing.cache_write_per_mtok _ prefix (rw priced at h)))
        | inr free ↦
            rw
              (
                cold_usage-free prefix completion pricing free,
                cost-parts prefix completion prefix 0 0 pricing (omega arith),
                cost-parts prefix completion 0 0 prefix pricing (omega arith),
              )
              (laws.div_mono _ _ 1_000_000 (omega arith) (
                read-le-input pricing.input_per_mtok pricing.cache_read_per_mtok
                  pricing.cache_write_per_mtok _ prefix (rw free at h)))
      ]
