-- ===== src/Quota.antt =====
-- internal/quota/quota.go: what a document costs.
pub mod Bounds
use piping.Prelude.{ℤ, ◌+ℤ◌, ◌-ℤ◌, ◌*ℤ◌, wrap64}

pub record Rates : Type 0 where
  pub color_rate : ℤ

-- Every intermediate result is an `int` of 64 bits.
unfoldable pub cost : Rates → ℤ → ℤ → ℤ
cost r pages color_pages =
    wrap64 (wrap64 (pages -ℤ color_pages) +ℤ wrap64 (color_pages *ℤ r.color_rate))
