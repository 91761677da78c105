-- ===== src/Staking/Entries.antt =====
-- What a stake, a claim and an unstaking store.
use stellar_tipjar_contracts.Common.{
  nat_eq, ◌⊎◌, ◌≡◌, refl, ◌∙◌, ap, none, some, ◌∷◌, get_or, inl, inr, arith,
}
use stellar_tipjar_contracts.Common.Int.{ℤ, pos, add_i128, sub_i128}
use stellar_tipjar_contracts.Common.Map.{get, set}
use stellar_tipjar_contracts.Soroban.{
  Address, Effect, Env, Failure, Result, After, ok, err, ◌>>=◌, ◌>>◌,
}
use stellar_tipjar_contracts.Staking.{
  StakeInfo, Stakes, Message, get_stake_info, update_stake_info, update_total_staked,
  update_reward_pool, get_total_staked, calculate_pending_rewards,
}
use stellar_tipjar_contracts.Staking.Laws.{pending-keeps}
use stellar_tipjar_contracts.Staking.Distribution.{stake, claim_rewards, unstake}

-- The pending rewards are computed without a change of the state, or the call fails.
pub pending-cases :
    (env : Env) (info : StakeInfo) (s : Stakes)
    → ((p : ℤ) × (calculate_pending_rewards env info s ≡ ok (p, s)))
      ⊎ ((e : Failure Message) × (calculate_pending_rewards env info s ≡ err e))
pending-cases env info s = go _ refl (pending-keeps env info s)
  where
    go :
        (r : Result Message (ℤ × Stakes))
        → calculate_pending_rewards env info s ≡ r
        → After (λ t. t ≡ s) r
        → ((p : ℤ) × (calculate_pending_rewards env info s ≡ ok (p, s)))
          ⊎ ((e : Failure Message) × (calculate_pending_rewards env info s ≡ err e))
    go (ok (p, u)) done k = inl (p, done ∙ ap (λ v. ok (p, v)) k.holds)
    go (err e) failed k = inr (e, failed)

module _ (env : Env) (staker : Address) (s : Stakes) where
  -- The staker's entry is written back with the same amount.
  pub claim_rewards-fields :
      (info : StakeInfo) (p : ℤ)
      → get staker s.stake_info ≡ some info
      → calculate_pending_rewards env info s ≡ ok (p, s)
      → After
          (λ t.
            (t.stake_info
              ≡ set staker
                  (record info { accumulated_rewards = pos 0; last_claim = env.timestamp })
                  s.stake_info)
            × (t.total_entry ≡ s.total_entry))
          (claim_rewards env staker s)
  unfolding claim_rewards get_stake_info update_stake_info update_reward_pool ◌>>=◌ ◌>>◌
  claim_rewards-fields info p stored pending = ground arith

  pub unstake-fields :
      (info : StakeInfo) (p amount : ℤ)
      → get staker s.stake_info ≡ some info
      → calculate_pending_rewards env info s ≡ ok (p, s)
      → After
          (λ t.
            (t.stake_info
              ≡ set staker
                  (record info { amount = sub_i128 info.amount amount })
                  (set staker
                    (record info { accumulated_rewards = pos 0; last_claim = env.timestamp })
                    s.stake_info))
            × (t.total_entry ≡ some (sub_i128 (get_total_staked s) amount)))
          (unstake env staker amount s)
  unfolding claim_rewards unstake get_stake_info update_stake_info update_reward_pool
      update_total_staked ◌>>=◌ ◌>>◌
  unstake-fields info p amount stored pending = ground arith

  -- The state once the staked amount is transferred.
  abbrev pub paid : Address → ℤ → Stakes
  paid token amount = record s {
    log =
        Effect.transferred
          (record { asset = token; sender = staker; recipient = env.this; amount = amount })
        ∷ s.log;
  }

  abbrev pub fresh : StakeInfo
  fresh = record {
    amount = pos 0;
    stake_time = env.timestamp;
    last_claim = env.timestamp;
    accumulated_rewards = pos 0;
  }

  abbrev pub grown : StakeInfo → ℤ → ℤ → StakeInfo
  grown info p amount = record info {
    accumulated_rewards = add_i128 info.accumulated_rewards p;
    amount = add_i128 info.amount amount;
    last_claim = env.timestamp;
  }

  pub stake-fields :
      (token : Address) (p amount : ℤ)
      → s.staked_token ≡ some token
      → calculate_pending_rewards env (get_or fresh (get staker s.stake_info)) (paid token amount)
        ≡ ok (p, paid token amount)
      → After
          (λ t.
            (t.stake_info
              ≡ set staker (grown (get_or fresh (get staker s.stake_info)) p amount) s.stake_info)
            × (t.total_entry ≡ some (add_i128 (get_total_staked s) amount)))
          (stake env staker amount s)
  unfolding stake get_stake_info update_stake_info update_total_staked ◌>>=◌ ◌>>◌
  stake-fields token p amount e pending = ground (arith, e, pending)

  -- Where the rewards are not computed, or the staker has no entry, the call fails.
  module _ {P : Stakes → Type 0} where
    pub stake-fails :
        (token : Address) (amount : ℤ) (e : Failure Message)
        → s.staked_token ≡ some token
        → calculate_pending_rewards env (get_or fresh (get staker s.stake_info)) (paid token amount)
          ≡ err e
        → After P (stake env staker amount s)
    unfolding stake get_stake_info ◌>>=◌ ◌>>◌
    stake-fails token amount e named failed = ground (arith, named, failed)

    pub stake-unnamed : (amount : ℤ) → s.staked_token ≡ none → After P (stake env staker amount s)
    unfolding stake ◌>>=◌ ◌>>◌
    stake-unnamed amount unnamed = ground (arith, unnamed)

    pub claim_rewards-fails :
        (e : Failure Message) (info : StakeInfo)
        → get staker s.stake_info ≡ some info
        → calculate_pending_rewards env info s ≡ err e
        → After P (claim_rewards env staker s)
    unfolding claim_rewards get_stake_info ◌>>=◌ ◌>>◌
    claim_rewards-fails e info stored failed = ground arith

    pub unstake-fails :
        (e : Failure Message) (info : StakeInfo) (amount : ℤ)
        → get staker s.stake_info ≡ some info
        → calculate_pending_rewards env info s ≡ err e
        → After P (unstake env staker amount s)
    unfolding claim_rewards unstake get_stake_info ◌>>=◌ ◌>>◌
    unstake-fails e info amount stored failed = ground arith

    pub claim_rewards-missing :
        get staker s.stake_info ≡ none → After P (claim_rewards env staker s)
    unfolding claim_rewards get_stake_info ◌>>=◌ ◌>>◌
    claim_rewards-missing missing = ground arith

    pub unstake-missing :
        (amount : ℤ) → get staker s.stake_info ≡ none → After P (unstake env staker amount s)
    unfolding unstake get_stake_info ◌>>=◌ ◌>>◌
    unstake-missing amount missing = ground arith
