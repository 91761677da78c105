-- ===== src/Staking/Tests.antt =====
-- Runs of staking: token 5, address 2 has staked 1000 at time 0, and everyone has signed.
use stellar_tipjar_contracts.Common.{nat_eq, ◌≡◌, refl, true, some, List, [], ◌∷◌}
use stellar_tipjar_contracts.Common.Int.{
  pos, ◌<ℤ◌, ◌+ℤ◌, ◌*ℤ◌, add_i128, sub_i128, mul_i128, wrap_i128, checked_div, quot, fits_i128,
  i128_max, add_u64,
}
use stellar_tipjar_contracts.Common.Map.{get, sum}
use stellar_tipjar_contracts.Soroban.{run, Env, After, ok, err, panic, ◌>>=◌, ◌>>◌}
use stellar_tipjar_contracts.Staking.{
  get_total_staked, StakeInfo, StakingConfig, Stakes, no_rewards, get_stake_info, get_reward_pool,
  sub_u64, mul_u64, multiplier_after, calculate_time_multiplier, base_rewards,
  calculate_pending_rewards,
}
use stellar_tipjar_contracts.Staking.Distribution.{claim_rewards, unstake, can_unstake}
use stellar_tipjar_contracts.Staking.Laws.{unstake-keeps_rewards}
use stellar_tipjar_contracts.Staking.Totals.{
  StakingCall, deposit, claim, take_out, invoke, sum_of, IsTotalled, run-get_total_staked,
}
use stellar_tipjar_contracts.Common.Sums.{total, numbers}

abbrev env : Env
env = record {
  sequence = 1;
  timestamp = 700_000;
  authorized = λ who. true;
  this = 0;
  accepts = λ t. true;
}

abbrev info : StakeInfo
info = record { amount = pos 1_000; stake_time = 0; last_claim = 0; accumulated_rewards = pos 50 }

abbrev config : StakingConfig
config = record {
  reward_pool = pos 0;
  total_staked = pos 0;
  reward_rate_bps = 1_000;
  unstake_cooldown = 604_800;
  max_time_multiplier = pos 2_000_000;
  time_weight_period = 2_592_000;
}

abbrev stakes_with : StakeInfo → Stakes
stakes_with entry = record {
  stake_info = (2, entry) ∷ [];
  staking_config = some config;
  pool_entry = some (pos 50);
  total_entry = some (pos 1_000);
  staked_token = some 5;
  log = [];
}

abbrev stakes : Stakes
stakes = stakes_with info

stakes-stored : get 2 stakes.stake_info ≡ some info
unfolding get
stakes-stored = refl

stakes-pending : calculate_pending_rewards env info stakes ≡ ok (pos 0, stakes)
unfolding calculate_pending_rewards calculate_time_multiplier multiplier_after base_rewards sub_u64
    mul_u64 checked_div quot fits_i128 i128_max mul_i128 ◌*ℤ◌ wrap_i128 ◌>>=◌ ◌>>◌
stakes-pending = refl

-- A staker without rewards cannot take the stake out, though the cooldown is over.
stake_is_stuck :
    (can_unstake env 2 (stakes_with (record info { accumulated_rewards = pos 0 }))
      ≡ ok (true, stakes_with (record info { accumulated_rewards = pos 0 })))
    × (unstake env 2 (pos 1_000) (stakes_with (record info { accumulated_rewards = pos 0 }))
        ≡ err (panic no_rewards))
unfolding unstake can_unstake claim_rewards get_stake_info get add_u64 add_i128 ◌+ℤ◌
    calculate_pending_rewards calculate_time_multiplier multiplier_after base_rewards sub_u64
    mul_u64 checked_div quot fits_i128 i128_max mul_i128 ◌*ℤ◌ wrap_i128 ◌>>=◌ ◌>>◌
stake_is_stuck = (refl, refl)

unstake-keeps_rewards_example :
    After
      (λ t.
        (get 2 t.stake_info ≡ some (record info { amount = sub_i128 (pos 1_000) (pos 300) }))
        × (pos 0 <ℤ add_i128 (pos 50) (pos 0))
        × (get_reward_pool t ≡ sub_i128 (pos 50) (add_i128 (pos 50) (pos 0))))
      (unstake env 2 (pos 300) stakes)
unstake-keeps_rewards_example =
    unstake-keeps_rewards env 2 stakes info (pos 0) stakes-stored stakes-pending (pos 300)

stakes-IsTotalled : IsTotalled stakes
unfolding total numbers sum wrap_i128 ◌+ℤ◌
stakes-IsTotalled = record { total_sum = refl }

-- Another address stakes, the first one claims and takes a part of its stake out.
abbrev calls : List (Env × StakingCall)
calls = (env, deposit 3 (pos 20)) ∷ (env, claim 2) ∷ (env, take_out 2 (pos 400)) ∷ []

run-get_total_staked_example :
    get_total_staked (run invoke calls stakes)
    ≡ wrap_i128 (sum_of (run invoke calls stakes).stake_info)
run-get_total_staked_example = run-get_total_staked calls stakes stakes-IsTotalled
