-- ===== src/Kernel/Context/Pressure.antt =====
-- crates/kernel/src/context.rs: `pressure_limit`, whose product of a u32 and an f32 is computed in
-- binary64, and `under_pressure`.
use peras.Prelude.{
  ℕ, ◌≡◌, refl, ◌+◌, ◌-◌, ◌*◌, ◌/◌, ◌%◌, ◌^◌, min, max, Bool, ◌||◌, ◌&&◌, none, some, ltb, ◌==◌,
  if◌then◌else◌, u32_max, u64_max,
}
use peras.Kernel.Data.{Externals, State}
use peras.Kernel.Context.{usage}

-- `m` to the nearest multiple of `2 ^ k`, ties to the even one.
round_at : ℕ → ℕ → ℕ
round_at k m =
    let unit = 2 ^ k in
    let low = m % unit in
    let q = m / unit in
    if ltb unit (low * 2) || (low * 2 == unit && q % 2 == 1) then (q + 1) * unit else q * unit

-- To 53 significant bits; a u32 times the 24 bits of an f32 has 56 bits at most.
unfoldable pub round_53 : ℕ → ℕ
unfolding round_at
round_53 m =
    if ltb m (2 ^ 53)
    then m
    else if ltb m (2 ^ 54)
    then round_at 1 m
    else if ltb m (2 ^ 55)
    then round_at 2 m
    else round_at 3 m

-- `m * 2 ^ (e - 150)` cut to a u64.
scaled : ℕ → ℕ → ℕ
scaled m e = if ltb e 150 then m / 2 ^ (150 - e) else min (m * 2 ^ (e - 150)) u64_max

-- `(window as f64 * ratio as f64) as u64`, for the bits of the f32 `ratio`. A negative product and
-- a NaN give 0, and an infinite one the largest u64.
unfoldable pub window_share : ℕ → ℕ → ℕ
unfolding round_53 scaled
window_share window ratio =
    let sign = ratio / 2147483648 % 2 in
    let exponent = ratio / 8388608 % 256 in
    let fraction = ratio % 8388608 in
    let significand = if exponent == 0 then fraction else fraction + 8388608 in
    if sign == 1
    then 0
    else if exponent == 255
    then (if fraction == 0 && ltb 0 window then u64_max else 0)
    else scaled (round_53 (significand * window)) (max exponent 1)

unfoldable pub pressure_limit : State → ℕ
unfolding window_share
pressure_limit s = elim s.config [
  | none ↦ u32_max
  | some cfg ↦ elim s.caps [
    | none ↦ u32_max
    | some caps ↦
        min (window_share caps.window cfg.compaction.pressure_ratio - cfg.compaction.output_reserve)
          u32_max
  ]
]

unfoldable pub under_pressure : Externals → State → Bool
unfolding pressure_limit usage
under_pressure x s = ltb (pressure_limit s) (usage x.spec_json s)

-- 0.8 as an f32, of a window of 200,000 tokens.
share_of_four_fifths : window_share 200000 0x3F4CCCCD ≡ 160000
unfolding window_share
share_of_four_fifths = refl
