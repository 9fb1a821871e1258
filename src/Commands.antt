-- ===== src/Commands.antt =====
-- parseon-core/src/commands.rs: the page limit, and a query of results.
use parseon.Common.{ℕ, ◌≤◌, min, max, arith}

-- `PageLimit`
pub record PageLimit : Type 0 where
  pub get : ℕ

-- `PageLimit::new`, with `clamp`.
unfoldable pub new_limit : ℕ → PageLimit
new_limit value = record { get = min (max value 1) 200 }

pub record ResultQuery : Type 0 where
  pub limit : PageLimit
  pub offset : ℕ

pub new_limit_bounds : (value : ℕ) → (1 ≤ (new_limit value).get) × ((new_limit value).get ≤ 200)
unfolding new_limit
new_limit_bounds value = omega arith
