-- ===== src/Reconciliation/Backoff.antt =====
-- `_calculate_backoff` of src/app/services/reconciliation.py as a delay that doubles up to its maximum.
use native.Mathlib.Nat.{pow-suc}
use ared_edge_iota_anchor.Prelude.{ℕ, zero, suc, ◌*◌, ◌^◌, ◌≤◌, ◌≡◌, min, arith}
use ared_edge_iota_anchor.World.Types.{Env}
use ared_edge_iota_anchor.Reconciliation.Retry.{calculate_backoff}

twice : (base n : ℕ) → base * 2 ^ suc n ≡ 2 * (base * 2 ^ n)
twice base n = rw (pow-suc) (omega arith)

module _ (env : Env) where
  -- The delay by doubling: each retry waits twice as long as the one before, up to the maximum.
  unfoldable pub doubled : ℕ → ℕ
  doubled zero = min env.settings.retry_delay_base env.settings.retry_delay_max
  doubled (suc n) = min (2 * doubled n) env.settings.retry_delay_max

  -- The delay before a retry is the one that doubles with each retry from the base on and stops at the
  -- maximum; it is never above the maximum, and never below the delay of the retry before.
  pub calculate_backoff-doubles :
      (n : ℕ)
      → (calculate_backoff env n ≡ doubled n)
        × (calculate_backoff env n ≤ env.settings.retry_delay_max)
        × (calculate_backoff env n ≤ calculate_backoff env (suc n))
  unfolding calculate_backoff doubled
  calculate_backoff-doubles zero = (omega arith, omega arith, omega arith)
  calculate_backoff-doubles (suc n) =
      let (same, _, _) = calculate_backoff-doubles n in
      let base = env.settings.retry_delay_base in
      (omega (arith, same, twice base n), omega arith, omega (arith, twice base (suc n)))
