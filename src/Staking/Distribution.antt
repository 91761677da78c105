-- ===== src/Staking/Distribution.antt =====
-- Staking, claiming and unstaking: contracts/tipjar-legacy/src/staking/distribution.rs.
use stellar_tipjar_contracts.Common.{nat_eq, ℕ, ◌-◌, Bool, false, none, some, ltb, leb, get_or}
use stellar_tipjar_contracts.Common.Int.{ℤ, pos, leb_ℤ, ltb_ℤ, add_u64, add_i128, sub_i128}
use stellar_tipjar_contracts.Soroban.{
  Address, Env, ok, pure, gets, raise_if, modify, require_auth, ◌>>=◌, ◌>>◌,
}
use stellar_tipjar_contracts.Staking.{
  StakeInfo, Stakes, Call, stake_not_positive, unstake_not_positive, no_rewards,
  cooldown_not_expired, insufficient_stake, staked, claimed, unstaked, publish, transfer,
  get_staking_config, get_stake_info, get_stake_info_or_panic, update_stake_info, get_total_staked,
  update_total_staked, get_reward_pool, update_reward_pool, get_staked_token,
  calculate_pending_rewards, calculate_total_rewards,
}

unfoldable pub stake : Env → Address → ℤ → Call (Unit {0})
unfolding ◌>>=◌ ◌>>◌
stake env staker amount = do
  require_auth env staker
  raise_if (leb_ℤ amount (pos 0)) stake_not_positive
  staked_token ← get_staked_token
  transfer env
      (record { asset = staked_token; sender = staker; recipient = env.this; amount = amount })
  stored ← gets (get_stake_info staker)
  let fresh : StakeInfo = record {
    amount = pos 0;
    stake_time = env.timestamp;
    last_claim = env.timestamp;
    accumulated_rewards = pos 0;
  }
  let info : StakeInfo = get_or fresh stored
  pending ← calculate_pending_rewards env info
  let grown : StakeInfo = record info {
    accumulated_rewards = add_i128 info.accumulated_rewards pending;
    amount = add_i128 info.amount amount;
    last_claim = env.timestamp;
  }
  modify (update_stake_info staker grown)
  total_staked ← gets get_total_staked
  modify (update_total_staked (add_i128 total_staked amount))
  publish (staked staker amount grown.amount)

unfoldable pub claim_rewards : Env → Address → Call ℤ
unfolding ◌>>=◌ ◌>>◌
claim_rewards env staker = do
  require_auth env staker
  info ← get_stake_info_or_panic staker
  pending ← calculate_pending_rewards env info
  let total_rewards : ℤ = add_i128 info.accumulated_rewards pending
  raise_if (leb_ℤ total_rewards (pos 0)) no_rewards
  staked_token ← get_staked_token
  transfer env (record {
    asset = staked_token;
    sender = env.this;
    recipient = staker;
    amount = total_rewards;
  })
  reward_pool ← gets get_reward_pool
  modify (update_reward_pool (sub_i128 reward_pool total_rewards))
  modify (
      update_stake_info staker
        (record info { accumulated_rewards = pos 0; last_claim = env.timestamp }))
  publish (claimed staker total_rewards)
  pure total_rewards

-- The entry that is written back is the one that was read before the claim.
unfoldable pub unstake : Env → Address → ℤ → Call (Unit {0})
unfolding ◌>>=◌ ◌>>◌
unstake env staker amount = do
  require_auth env staker
  raise_if (leb_ℤ amount (pos 0)) unstake_not_positive
  info ← get_stake_info_or_panic staker
  config ← get_staking_config
  raise_if (ltb env.timestamp (add_u64 info.stake_time config.unstake_cooldown))
      cooldown_not_expired
  raise_if (ltb_ℤ info.amount amount) insufficient_stake
  total_rewards ← claim_rewards env staker
  let lowered : StakeInfo = record info { amount = sub_i128 info.amount amount }
  modify (update_stake_info staker lowered)
  total_staked ← gets get_total_staked
  modify (update_total_staked (sub_i128 total_staked amount))
  staked_token ← get_staked_token
  transfer env
      (record { asset = staked_token; sender = env.this; recipient = staker; amount = amount })
  publish (unstaked staker amount lowered.amount)

unfoldable pub get_pending_rewards : Env → Address → Call ℤ
get_pending_rewards env staker s = elim (get_stake_info staker s) [
  | some info ↦ calculate_pending_rewards env info s
  | none ↦ ok (pos 0, s)
]

unfoldable pub get_total_rewards : Env → Address → Call ℤ
get_total_rewards env staker s = elim (get_stake_info staker s) [
  | some info ↦ calculate_total_rewards env info s
  | none ↦ ok (pos 0, s)
]

unfoldable pub get_stake_amount : Address → Stakes → ℤ
get_stake_amount staker s = elim (get_stake_info staker s) [
  | some info ↦ info.amount
  | none ↦ pos 0
]

unfoldable pub can_unstake : Env → Address → Call Bool
unfolding ◌>>=◌ ◌>>◌
can_unstake env staker s = elim (get_stake_info staker s) [
  | some info ↦
      (do
        config ← get_staking_config
        pure (leb (add_u64 info.stake_time config.unstake_cooldown) env.timestamp))
        s
  | none ↦ ok (false, s)
]

unfoldable pub get_unstake_cooldown_remaining : Env → Address → Call ℕ
unfolding ◌>>=◌ ◌>>◌
get_unstake_cooldown_remaining env staker s = elim (get_stake_info staker s) [
  | some info ↦
      (do
        config ← get_staking_config
        pure (add_u64 info.stake_time config.unstake_cooldown - env.timestamp))
        s
  | none ↦ ok (0, s)
]
