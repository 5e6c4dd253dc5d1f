-- ===== src/Usage.antt =====
-- packages/core/src/cachepilot_core/usage.py: the canonical token usage. Its validator refuses
-- negative counts, so the counts are natural numbers.
pub mod Normalizer
use cachepilot.Prelude.{ℕ, Option, none}

pub record TokenUsage (D : Type 0) : Type 0 where
  pub prompt_tokens : ℕ
  pub completion_tokens : ℕ
  pub cache_read_tokens : ℕ
  pub cache_write_tokens : ℕ
  pub cost : Option D

-- `TokenUsage()`
abbrev pub no_usage : {D : Type 0} → TokenUsage D
no_usage = record {
  prompt_tokens = 0;
  completion_tokens = 0;
  cache_read_tokens = 0;
  cache_write_tokens = 0;
  cost = none;
}
