-- ===== src/Quota/Bounds.antt =====
-- The cost formula of internal/quota/quota.go and the range of 64 bits.
use piping.Prelude.{
  ℕ, pos, ◌+◌, ◌-◌, ◌*◌, ◌^◌, ◌≤◌, ◌<◌, ◌≡◌, arith, pos-+ℤ, pos--ℤ, pos-*ℤ, wrap64-pos,
}
use piping.Quota.{Rates, cost}

pub at_rate : ℕ → Rates
at_rate rate = record { color_rate = pos rate }

-- What a document should cost: black pages once, colour pages `rate` times.
abbrev pub price : ℕ → ℕ → ℕ → ℕ
price rate pages color = pages - color + color * rate

price_bounds :
    (pages color rate : ℕ)
    → color ≤ pages
    → 0 < rate
    → (pages ≤ price rate pages color) × (price rate pages color ≤ pages * rate)
price_bounds pages color rate h k = grind arith

-- While `pages * rate` stays below 2^63 the 64-bit computation has no wrap-around: black pages count
-- once and colour pages `rate` times, and the cost lies between `pages` and `pages * rate`.
pub cost_exact :
    (pages color rate : ℕ)
    → color ≤ pages
    → 0 < rate
    → pages * rate < 2 ^ 63
    → (cost (at_rate rate) (pos pages) (pos color) ≡ pos (price rate pages color))
      × (pages ≤ price rate pages color)
      × (price rate pages color ≤ pages * rate)
unfolding cost at_rate
cost_exact pages color rate h k b =
    let (low, high) = price_bounds pages color rate h k in (exact high, low, high)
  where
    exact :
        price rate pages color ≤ pages * rate
        → cost (at_rate rate) (pos pages) (pos color) ≡ pos (price rate pages color)
    exact high =
        let black : pages - color < 2 ^ 63 = omega arith in
        let chroma : color * rate < 2 ^ 63 = omega arith in
        rw (pos--ℤ pages color h, pos-*ℤ, wrap64-pos _ black, wrap64-pos _ chroma, pos-+ℤ)
          (wrap64-pos _ (omega arith))
