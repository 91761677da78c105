-- ===== src/Staking.antt =====
-- Staking with time-weighted rewards, contracts/tipjar-legacy/src/staking: mod.rs and rewards.rs.
pub mod Distribution
pub mod Laws
pub mod Entries
pub mod Totals
mod Tests
use stellar_tipjar_contracts.Common.{
  nat_eq, ℕ, ◌+◌, ◌-◌, ◌*◌, ◌/◌, ◌%◌, ◌^◌, Bool, true, false, Option, none, some, List, ◌∷◌,
  nat_beq, leb, get_or, if◌then◌else◌,
}
use stellar_tipjar_contracts.Common.Int.{
  ℤ, pos, leb_ℤ, ltb_ℤ, eqb_ℤ, add_i128, mul_i128, sub_i128, quot, checked_div,
}
use stellar_tipjar_contracts.Common.Map.{Map, get, set}
use stellar_tipjar_contracts.Soroban.{
  Address, Effect, Env, M, Transfer, transfer_failed, ok, err, pure, gets, or_raise, or_trap,
  raise_if, modify, ◌>>=◌, ◌>>◌,
}

pub record StakeInfo : Type 0 where
  pub amount : ℤ
  pub stake_time : ℕ
  pub last_claim : ℕ
  pub accumulated_rewards : ℤ

pub record StakingConfig : Type 0 where
  pub reward_pool : ℤ
  pub total_staked : ℤ
  pub reward_rate_bps : ℕ
  pub unstake_cooldown : ℕ
  pub max_time_multiplier : ℤ
  pub time_weight_period : ℕ

-- The messages that the code panics with.
pub data Message : Type 0 where
  staking_not_initialized no_stake_found stake_not_positive unstake_not_positive : Message
  reward_not_positive no_rewards cooldown_not_expired insufficient_stake : Message

-- The events, whose topics are the constructors' names.
pub data Event : Type 0 where
  staked : Address → ℤ → ℤ → Event
  claimed : Address → ℤ → Event
  unstaked : Address → ℤ → ℤ → Event

-- One field for each variant of the source's `DataKey`, and the log.
pub record Stakes : Type 0 where
  pub stake_info : Map Address StakeInfo
  pub staking_config : Option StakingConfig
  pub pool_entry : Option ℤ
  pub total_entry : Option ℤ
  pub staked_token : Option Address
  pub log : List (Effect Unit Event)

abbrev pub Call : Type 0 → Type 0
Call A = M Stakes Message A

abbrev pub publish : Event → Call (Unit {0})
publish e s = ok (tt, record s { log = Effect.published e ∷ s.log })

abbrev pub transfer : Env → Transfer → Call (Unit {0})
transfer env t s = elim (env.accepts t) [
  | true ↦ ok (tt, record s { log = Effect.transferred t ∷ s.log })
  | false ↦ err transfer_failed
]

-- `-` and `*` on `u64`, which wrap.
unfoldable pub sub_u64 : ℕ → ℕ → ℕ
sub_u64 a b = (a + (2 ^ 64 - b)) % 2 ^ 64

unfoldable pub mul_u64 : ℕ → ℕ → ℕ
mul_u64 a b = (a * b) % 2 ^ 64

abbrev pub default_reward_rate_bps : ℕ
default_reward_rate_bps = 1_000

abbrev pub default_unstake_cooldown : ℕ
default_unstake_cooldown = 604_800

abbrev pub default_max_time_multiplier : ℤ
default_max_time_multiplier = pos 2_000_000

abbrev pub default_time_weight_period : ℕ
default_time_weight_period = 2_592_000

unfoldable pub init_staking : Address → Call (Unit {0})
unfolding ◌>>=◌ ◌>>◌
init_staking staked_token = do
  let config : StakingConfig = record {
    reward_pool = pos 0;
    total_staked = pos 0;
    reward_rate_bps = default_reward_rate_bps;
    unstake_cooldown = default_unstake_cooldown;
    max_time_multiplier = default_max_time_multiplier;
    time_weight_period = default_time_weight_period;
  }
  modify (λ s. record s { staking_config = some config })
  modify (λ s. record s { staked_token = some staked_token })

abbrev pub get_staking_config : Call StakingConfig
get_staking_config s = or_raise s.staking_config staking_not_initialized s

unfoldable pub update_staking_config : StakingConfig → Stakes → Stakes
update_staking_config config s = record s { staking_config = some config }

unfoldable pub get_stake_info : Address → Stakes → Option StakeInfo
get_stake_info staker s = get staker s.stake_info

abbrev pub get_stake_info_or_panic : Address → Call StakeInfo
get_stake_info_or_panic staker s = or_raise (get_stake_info staker s) no_stake_found s

unfoldable pub update_stake_info : Address → StakeInfo → Stakes → Stakes
update_stake_info staker info s = record s { stake_info = set staker info s.stake_info }

abbrev pub get_total_staked : Stakes → ℤ
get_total_staked s = get_or (pos 0) s.total_entry

unfoldable pub update_total_staked : ℤ → Stakes → Stakes
update_total_staked amount s = record s { total_entry = some amount }

abbrev pub get_reward_pool : Stakes → ℤ
get_reward_pool s = get_or (pos 0) s.pool_entry

unfoldable pub update_reward_pool : ℤ → Stakes → Stakes
update_reward_pool amount s = record s { pool_entry = some amount }

abbrev pub get_staked_token : Call Address
get_staked_token s = or_raise s.staked_token staking_not_initialized s

unfoldable pub add_rewards : ℤ → Call (Unit {0})
unfolding ◌>>=◌ ◌>>◌
add_rewards amount = do
  raise_if (leb_ℤ amount (pos 0)) reward_not_positive
  current_pool ← gets get_reward_pool
  modify (update_reward_pool (add_i128 current_pool amount))
  config ← get_staking_config
  modify
      (update_staking_config (record config { reward_pool = add_i128 config.reward_pool amount }))

-- The multiplier after some time, which the multiplier of a stake and the expected rewards share.
unfoldable pub multiplier_after : StakingConfig → ℕ → Call ℤ
unfolding ◌>>=◌ ◌>>◌
multiplier_after config time =
    if leb config.time_weight_period time
    then pure config.max_time_multiplier
    else or_trap (
        checked_div (mul_i128 (pos time) config.max_time_multiplier)
          (pos config.time_weight_period))

unfoldable pub calculate_time_multiplier : Env → StakeInfo → Call ℤ
unfolding ◌>>=◌ ◌>>◌
calculate_time_multiplier env info = do
  config ← get_staking_config
  multiplier_after config (sub_u64 env.timestamp info.stake_time)

-- The rewards of a share of the pool over some time, without the multiplier. Divisions by positive
-- constants cannot trap.
unfoldable pub base_rewards : StakingConfig → ℤ → ℤ → ℕ → Call ℤ
unfolding ◌>>=◌ ◌>>◌
base_rewards config amount total_staked time = do
  let time_fraction : ℕ = mul_u64 time 1_000_000 / 31_536_000
  share ← or_trap (checked_div (mul_i128 amount (pos 1_000_000)) total_staked)
  pure (
      quot (mul_i128 (quot (mul_i128 config.reward_pool share) (pos 1_000_000)) (pos time_fraction))
        (pos 1_000_000))

unfoldable pub calculate_pending_rewards : Env → StakeInfo → Call ℤ
unfolding ◌>>=◌ ◌>>◌
calculate_pending_rewards env info s =
    let time_staked : ℕ = sub_u64 env.timestamp info.last_claim in
    let total_staked : ℤ = get_total_staked s in
    if nat_beq time_staked 0
    then ok (pos 0, s)
    else if eqb_ℤ total_staked (pos 0)
    then ok (pos 0, s)
    else (do
      config ← get_staking_config
      base ← base_rewards config info.amount total_staked time_staked
      time_multiplier ← calculate_time_multiplier env info
      pure (quot (mul_i128 base time_multiplier) (pos 1_000_000)))
        s

unfoldable pub calculate_total_rewards : Env → StakeInfo → Call ℤ
unfolding ◌>>=◌ ◌>>◌
calculate_total_rewards env info = do
  pending ← calculate_pending_rewards env info
  pure (add_i128 info.accumulated_rewards pending)

unfoldable pub calculate_reward_rate : StakeInfo → Call ℤ
unfolding ◌>>=◌ ◌>>◌
calculate_reward_rate info s =
    let total_staked : ℤ = get_total_staked s in
    if eqb_ℤ total_staked (pos 0)
    then ok (pos 0, s)
    else (do
      config ← get_staking_config
      or_trap (checked_div (mul_i128 info.amount (pos config.reward_rate_bps)) total_staked))
        s

unfoldable pub calculate_impermanent_loss : ℤ → ℤ
calculate_impermanent_loss price_change_ratio =
    if eqb_ℤ price_change_ratio (pos 1_000_000)
    then pos 0
    else (let price_change : ℤ =
          if ltb_ℤ (pos 1_000_000) price_change_ratio
          then sub_i128 price_change_ratio (pos 1_000_000)
          else sub_i128 (pos 1_000_000) price_change_ratio in
        quot (mul_i128 price_change price_change) (pos 2_000_000))

unfoldable pub calculate_expected_rewards : ℤ → ℕ → Call ℤ
unfolding ◌>>=◌ ◌>>◌
calculate_expected_rewards stake_amount duration s =
    let total_staked : ℤ = get_total_staked s in
    if eqb_ℤ total_staked (pos 0)
    then ok (pos 0, s)
    else (do
      config ← get_staking_config
      base ← base_rewards config stake_amount total_staked duration
      time_multiplier ← multiplier_after config duration
      pure (quot (mul_i128 base time_multiplier) (pos 1_000_000)))
        s
