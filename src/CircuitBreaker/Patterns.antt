-- ===== src/CircuitBreaker/Patterns.antt =====
-- The module pattern_analyzer of contracts/tipjar-legacy/src/circuit_breaker.rs.
use stellar_tipjar_contracts.Common.{
  ℕ, zero, suc, ◌+◌, ◌-◌, ◌/◌, ◌%◌, ◌^◌, Bool, false, ◌||◌, Option, none, some, List, [], ◌∷◌, ltb,
  nat_beq, if◌then◌else◌, length,
}
use stellar_tipjar_contracts.Common.Int.{ℤ}
use stellar_tipjar_contracts.Common.Saturating.{
  u32_max, min, saturating_add, sub_u32, mul_u32, sub_u64, div_or_trap,
}
use stellar_tipjar_contracts.Soroban.{Address}
use stellar_tipjar_contracts.CircuitBreaker.{
  EnhancedCircuitBreakerConfig, pattern_analysis, medium, high,
}
use stellar_tipjar_contracts.CircuitBreaker.Volumes.{Finding}

-- The window's length is cut to `u32`, and the division traps where that is 0.
unfoldable pub analyze_creator_velocity : ℕ → ℕ → ℕ → Option ℕ
analyze_creator_velocity tips seconds historical_rate =
    if nat_beq seconds 0 then some 0 else elim (div_or_trap (mul_u32 tips 60) (seconds % 2 ^ 32)) [
      | none ↦ none
      | some rate ↦ some (
          if nat_beq historical_rate 0
          then (if ltb 100 rate then min (mul_u32 (rate - 100) 100) 10_000 else 0)
          else if ltb (mul_u32 historical_rate 3) rate
          then min (sub_u32 (mul_u32 rate 10_000 / historical_rate) 30_000) 10_000
          else 0)
    ]

-- The gaps below the largest gap, among the first `n` after `t`.
unfoldable pub count_gaps : ℕ → ℕ → ℕ → List ℕ → ℕ
count_gaps max_time_gap zero t times = 0
count_gaps max_time_gap (suc n) t [] = 0
count_gaps max_time_gap (suc n) t (u ∷ times) =
    (if ltb (sub_u64 u t) max_time_gap then 1 else 0) + count_gaps max_time_gap n u times

unfoldable pub detect_sequential_pattern : List Address → List ℕ → ℕ → Bool
detect_sequential_pattern senders [] max_time_gap = false
detect_sequential_pattern senders (t ∷ times) max_time_gap =
    if ltb (length senders) 3 || ltb (length (t ∷ times)) 3
    then false
    else ltb 5 (count_gaps max_time_gap 9 t times)

unfoldable pub calculate_pattern_score : ℕ → Bool → ℕ → ℕ
calculate_pattern_score velocity sequential clustering =
    min
      (saturating_add u32_max
        (if sequential then saturating_add u32_max velocity 3000 else velocity) (clustering / 2))
      10_000

unfoldable pub check_pattern_trigger : EnhancedCircuitBreakerConfig → ℕ → Finding
check_pattern_trigger config score =
    if config.pattern_analysis_enabled
    then (if ltb 7500 score
        then some (pattern_analysis, high)
        else if ltb 5000 score
        then some (pattern_analysis, medium)
        else none)
    else none

unfoldable pub analyze_market_correlation : ℤ → ℕ → ℕ
analyze_market_correlation volume window = 0
