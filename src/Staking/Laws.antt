-- ===== src/Staking/Laws.antt =====
-- What a claim and an unstaking leave for the next claim.
use stellar_tipjar_contracts.Common.{nat_eq, ℕ, ◌<◌, ◌^◌, ◌≡◌, refl, ap, ◌∙◌, true, some, arith}
use stellar_tipjar_contracts.Common.Int.{ℤ, pos, ◌<ℤ◌, add_i128, sub_i128, wrap_i128, ◌+ℤ◌}
use stellar_tipjar_contracts.Common.Map.{get, set, get-set}
use stellar_tipjar_contracts.Soroban.{
  Address, Env, Failure, Result, After, After-map, ok, err, panic, ◌>>=◌, ◌>>◌,
}
use stellar_tipjar_contracts.Staking.{
  StakeInfo, Stakes, Message, no_rewards, get_stake_info, update_stake_info, update_total_staked,
  update_reward_pool, get_reward_pool, sub_u64, calculate_pending_rewards,
  calculate_time_multiplier, multiplier_after, base_rewards,
}
use stellar_tipjar_contracts.Staking.Distribution.{claim_rewards, unstake}

-- The rewards are computed without a change of the state, or the call fails.
pub pending-keeps :
    (env : Env) (info : StakeInfo) (s : Stakes)
    → After (λ t. t ≡ s) (calculate_pending_rewards env info s)
unfolding calculate_pending_rewards calculate_time_multiplier multiplier_after base_rewards ◌>>=◌
    ◌>>◌
pending-keeps env info s = ground arith

since_now : (now : ℕ) → now < 2 ^ 64 → sub_u64 now now ≡ 0
unfolding sub_u64
since_now now h = omega (arith, h)

-- Right after a claim nothing is pending.
pending-zero :
    (env : Env) (info : StakeInfo) (s : Stakes)
    → info.last_claim ≡ env.timestamp
    → env.timestamp < 2 ^ 64
    → calculate_pending_rewards env info s ≡ ok (pos 0, s)
unfolding calculate_pending_rewards
pending-zero env info s e h = ground (arith, since_now env.timestamp h, e)

module _ (env : Env) (staker : Address) (s : Stakes) (info : StakeInfo) (p : ℤ)
    (stored : get staker s.stake_info ≡ some info)
    (pending : calculate_pending_rewards env info s ≡ ok (p, s)) where
  abbrev cleared : StakeInfo
  cleared = record info { accumulated_rewards = pos 0; last_claim = env.timestamp }

  claim_rewards-stored :
      After
        (λ t.
          (get staker t.stake_info ≡ some cleared)
          × (env.authorized staker ≡ true)
          × (pos 0 <ℤ add_i128 info.accumulated_rewards p)
          × (get_reward_pool t
              ≡ sub_i128 (get_reward_pool s) (add_i128 info.accumulated_rewards p)))
        (claim_rewards env staker s)
  unfolding claim_rewards get_stake_info update_stake_info update_reward_pool ◌>>=◌ ◌>>◌
  claim_rewards-stored = ground (arith, get-set staker staker cleared s.stake_info)

  -- If an unstaking of a stored stake with computed pending rewards returns: rewards were positive and
  -- have left the reward pool, but the stored entry is the old one with a lower amount alone, its
  -- accumulated rewards and last claim as before.
  pub unstake-keeps_rewards :
      (amount : ℤ)
      → After
          (λ t.
            (get staker t.stake_info ≡ some (record info { amount = sub_i128 info.amount amount }))
            × (pos 0 <ℤ add_i128 info.accumulated_rewards p)
            × (get_reward_pool t
                ≡ sub_i128 (get_reward_pool s) (add_i128 info.accumulated_rewards p)))
          (unstake env staker amount s)
  unfolding claim_rewards unstake get_stake_info update_stake_info update_reward_pool
      update_total_staked ◌>>=◌ ◌>>◌
  unstake-keeps_rewards amount = ground (
    arith,
    get-set staker staker (record info { amount = sub_i128 info.amount amount })
        (set staker cleared s.stake_info),
  )

  claim_rewards-refused :
      (t : Stakes)
      → get staker t.stake_info ≡ some cleared
      → env.authorized staker ≡ true
      → env.timestamp < 2 ^ 64
      → claim_rewards env staker t ≡ err (panic no_rewards)
  unfolding claim_rewards get_stake_info add_i128 wrap_i128 ◌+ℤ◌ ◌>>=◌ ◌>>◌
  claim_rewards-refused t e signed h = ground (arith, pending-zero env cleared t refl h)

module _ (env : Env) (staker : Address) (s : Stakes) (info : StakeInfo)
    (stored : get staker s.stake_info ≡ some info) where
  claim_rewards-fails :
      {P : Stakes → Type 0} (e : Failure Message)
      → calculate_pending_rewards env info s ≡ err e
      → After P (claim_rewards env staker s)
  unfolding claim_rewards get_stake_info ◌>>=◌ ◌>>◌
  claim_rewards-fails e failed = ground arith

  -- If a claim on a stored stake returns, at a time that is a word, a second claim at that time fails: there
  -- are no rewards.
  claim_rewards-claim_rewards :
      env.timestamp < 2 ^ 64
      → After
          (λ t. claim_rewards env staker t ≡ err (panic no_rewards))
          (claim_rewards env staker s)
  claim_rewards-claim_rewards h = go _ refl (pending-keeps env info s)
    where
      go :
          (r : Result Message (ℤ × Stakes))
          → calculate_pending_rewards env info s ≡ r
          → After (λ t. t ≡ s) r
          → After
              (λ t. claim_rewards env staker t ≡ err (panic no_rewards))
              (claim_rewards env staker s)
      go (err e) failed k = claim_rewards-fails e failed
      go (ok (p, u)) done k =
          let pending = done ∙ ap (λ v. ok (p, v)) k.holds in
          After-map _ (λ t c. claim_rewards-refused env staker s info p stored pending t c.0 c.1 h)
            (claim_rewards-stored env staker s info p stored pending)
