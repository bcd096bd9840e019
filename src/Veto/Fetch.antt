-- ===== src/Veto/Fetch.antt =====
-- How far back the fetch of `_evaluateRow` in veto-analyzer.service.ts reaches.
use native.Mathlib.Nat.{add-mul, lt-div-mul-add}
use open_neotrader.Base.{
  ℕ, String, ◌+◌, ◌*◌, ◌-◌, ◌≤◌, ◌<◌, ◌≡◌, ◌⊎◌, inl, inr, refl, arith, Bool-cases, ltb,
}
use open_neotrader.Veto.Mark.{
  bar_duration_ms, ceil_div, max_fetch_limit, fetch_limit_buffer, compute_needed_fetch_limit,
}

bar_duration_ms-pos : (timeframe : String) → 0 < bar_duration_ms timeframe
unfolding bar_duration_ms
bar_duration_ms-pos timeframe = ground arith

le-ceil_div : (n d : ℕ) → 0 < d → n ≤ ceil_div n d * d
le-ceil_div n d h = omega (arith, lt-div-mul-add {a = n + d - 1} h, h)

covers :
    (since horizon spare ts now d : ℕ)
    → now - ts ≤ since * d
    → now + (horizon + spare) * d ≤ ts + (since + horizon + spare) * d
covers since horizon spare ts now d h = omega (
  arith,
  h,
  add-mul since (horizon + spare) d,
  add-mul horizon spare d,
  add-mul (since + horizon) spare d,
  add-mul since horizon d,
)

-- What is fetched reaches back to the decision: at most 1500 bars are asked for, and where fewer are,
-- bars of the timeframe's duration, that many, cover the time since the decision with the horizon and
-- 20 bars to spare.
pub compute_needed_fetch_limit-covers :
    (ts horizon now : ℕ) (timeframe : String)
    → let limit = compute_needed_fetch_limit ts horizon timeframe now in
      (limit ≤ max_fetch_limit)
      × ((limit ≡ max_fetch_limit)
          ⊎ (now + (horizon + fetch_limit_buffer) * bar_duration_ms timeframe
              ≤ ts + limit * bar_duration_ms timeframe))
unfolding compute_needed_fetch_limit
compute_needed_fetch_limit-covers ts horizon now timeframe =
    let d = bar_duration_ms timeframe in
    let since = ceil_div (now - ts) d in
    let enough =
      covers since horizon 20 ts now d (le-ceil_div (now - ts) d (bar_duration_ms-pos timeframe)) in
    elim (Bool-cases (ltb max_fetch_limit (since + horizon + fetch_limit_buffer))) [
      | inl e ↦ rw e (omega arith, inl refl)
      | inr e ↦ rw e (ground (arith, e), inr enough)
    ]
