-- ===== src/CircuitBreaker/Statistics.antt =====
-- The module statistics of contracts/tipjar-legacy/src/circuit_breaker.rs: running statistics.
use stellar_tipjar_contracts.Common.{
  ℕ, zero, suc, ◌-◌, ◌/◌, true, false, Option, none, some, ltb, nat_beq, if◌then◌else◌,
}
use stellar_tipjar_contracts.Common.Int.{
  ℤ, pos, leb_ℤ, ltb_ℤ, quot, add_i128, sub_i128, checked_div, add_u32,
}
use stellar_tipjar_contracts.Common.Saturating.{
  u32_max, saturating_add, mul_u32, saturating_add_i128, saturating_mul_i128,
}
use stellar_tipjar_contracts.CircuitBreaker.{HistoricalStats}
use stellar_tipjar_contracts.CircuitBreaker.Anomalies.{excess_score}

-- The loop of `sqrt_approx`, whose rounds are counted. Its division traps only at a guess of 0.
unfoldable pub approach : ℕ → ℤ → ℤ → ℤ → Option ℤ
approach zero n x y = some x
approach (suc rounds) n x y = elim (ltb_ℤ y x) [
  | true ↦ elim (checked_div n y) [
    | none ↦ none
    | some q ↦ approach rounds n y (quot (add_i128 y q) (pos 2))
  ]
  | false ↦ some x
]

unfoldable pub sqrt_approx : ℤ → Option ℤ
sqrt_approx n =
    if leb_ℤ n (pos 0) then some (pos 0) else approach 10 n n (quot (add_i128 n (pos 1)) (pos 2))

-- The standard deviation after a tip that is `delta` from the old average and `delta2` from the new.
unfoldable pub spread : HistoricalStats → ℤ → ℤ → ℕ → Option ℤ
spread stats delta delta2 count =
    let variance_sum : ℤ =
      saturating_mul_i128 (saturating_mul_i128 stats.standard_deviation stats.standard_deviation)
        (pos stats.sample_count) in
    sqrt_approx
      (quot (saturating_add_i128 variance_sum (saturating_mul_i128 delta delta2)) (pos count))

unfoldable pub update_rolling_statistics : HistoricalStats → ℤ → ℕ → Option HistoricalStats
update_rolling_statistics stats amount now =
    let count : ℕ = saturating_add u32_max stats.sample_count 1 in
    let delta : ℤ = sub_i128 amount stats.average_tip_amount in
    let average : ℤ = add_i128 stats.average_tip_amount (quot delta (pos count)) in
    let deviation : Option ℤ =
      if ltb 0 stats.sample_count
      then spread stats delta (sub_i128 amount average) count
      else some stats.standard_deviation in
    elim deviation [
      | none ↦ none
      | some d ↦ some (record stats {
        average_tip_amount = average;
        standard_deviation = d;
        sample_count = count;
        last_update = now;
      })
    ]

unfoldable pub update_frequency_stats : HistoricalStats → ℕ → ℕ → HistoricalStats
update_frequency_stats stats tips minutes = if nat_beq minutes 0 then stats else record stats {
  average_tips_per_minute =
      if nat_beq stats.average_tips_per_minute 0
      then tips / minutes
      else add_u32 (mul_u32 stats.average_tips_per_minute 4) (tips / minutes) / 5;
}

unfoldable pub update_sender_stats : HistoricalStats → ℕ → HistoricalStats
update_sender_stats stats senders = record stats {
  unique_senders_per_hour =
      if nat_beq stats.unique_senders_per_hour 0
      then senders
      else add_u32 (mul_u32 stats.unique_senders_per_hour 4) senders / 5;
}

unfoldable pub calculate_pattern_confidence : ℕ → ℕ → ℕ → Option ℕ
calculate_pattern_confidence value average threshold =
    if nat_beq average 0
    then some 0
    else excess_score (if ltb average value then mul_u32 (value - average) 10_000 / average else 0)
        threshold

unfoldable pub reset_statistics : HistoricalStats → ℕ → HistoricalStats
reset_statistics stats now = record {
  average_tip_amount = pos 0;
  standard_deviation = pos 0;
  average_tips_per_minute = 0;
  unique_senders_per_hour = 0;
  last_update = now;
  sample_count = 0;
}
