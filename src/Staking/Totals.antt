-- ===== src/Staking/Totals.antt =====
-- Sequences of calls of staking: the total that is stored is the sum of the stakes.
use stellar_tipjar_contracts.Common.{
  nat_eq, ◌≡◌, refl, ◌∙◌, sym, ap, some, List, get_or, Option-cases, inl, inr, arith,
}
use stellar_tipjar_contracts.Common.Int.{ℤ, pos, wrap_i128, add_i128, sub_i128}
use stellar_tipjar_contracts.Common.Map.{Map, get, set, get-set}
use stellar_tipjar_contracts.Common.Sums.{
  total, total-keep, total-add_word, total-sub_word, total-insert_word,
}
use stellar_tipjar_contracts.Soroban.{
  Address, Env, After, After-map, After-bind, pure, run, run-keeps, ◌>>=◌, ◌>>◌,
}
use stellar_tipjar_contracts.Staking.{
  StakeInfo, Stakes, Call, init_staking, add_rewards, update_reward_pool, update_staking_config,
  get_total_staked,
}
use stellar_tipjar_contracts.Staking.Distribution.{stake, claim_rewards, unstake}
use stellar_tipjar_contracts.Staking.Entries.{
  pending-cases, paid, fresh, grown, claim_rewards-fields, unstake-fields, stake-fields,
  stake-fails, stake-unnamed, claim_rewards-fails, unstake-fails, claim_rewards-missing,
  unstake-missing,
}

-- The calls, each with its arguments.
pub data StakingCall : Type 0 where
  init : Address → StakingCall
  reward : ℤ → StakingCall
  deposit : Address → ℤ → StakingCall
  claim : Address → StakingCall
  take_out : Address → ℤ → StakingCall

-- A call, without what it returns.
unfoldable pub invoke : Env → StakingCall → Call (Unit {0})
unfolding ◌>>=◌ ◌>>◌
invoke env (init staked_token) = init_staking staked_token
invoke env (reward amount) = add_rewards amount
invoke env (deposit staker amount) = stake env staker amount
invoke env (claim staker) = do total_rewards ← claim_rewards env staker; pure tt
invoke env (take_out staker amount) = unstake env staker amount

abbrev staked_amount : StakeInfo → ℤ
staked_amount info = info.amount

abbrev pub sum_of : Map Address StakeInfo → ℤ
sum_of m = total (λ (info : StakeInfo). info.amount) m

pub record IsTotalled (s : Stakes) : Type 0 where
  pub total_sum : get_total_staked s ≡ wrap_i128 (sum_of s.stake_info)

init_staking-IsTotalled :
    (staked_token : Address) (s : Stakes)
    → IsTotalled s
    → After IsTotalled (init_staking staked_token s)
unfolding init_staking ◌>>=◌ ◌>>◌
init_staking-IsTotalled staked_token s h = ground (arith, h.total_sum)

add_rewards-IsTotalled :
    (amount : ℤ) (s : Stakes) → IsTotalled s → After IsTotalled (add_rewards amount s)
unfolding add_rewards update_reward_pool update_staking_config ◌>>=◌ ◌>>◌
add_rewards-IsTotalled amount s h = ground (arith, h.total_sum)

module _ (env : Env) (staker : Address) (s : Stakes) (h : IsTotalled s) where
  -- The total of a state with other entries.
  of_fields :
      (t : Stakes) (m : Map Address StakeInfo) (z : ℤ)
      → t.stake_info ≡ m
      → get_total_staked t ≡ z
      → z ≡ wrap_i128 (sum_of m)
      → IsTotalled t
  of_fields t m z a b e = record { total_sum = b ∙ e ∙ ap (λ x. wrap_i128 (sum_of x)) (sym a) }

  claim_rewards-IsTotalled : After IsTotalled (claim_rewards env staker s)
  claim_rewards-IsTotalled = elim (Option-cases (get staker s.stake_info)) [
    | inl missing ↦ claim_rewards-missing env staker s missing
    | inr (info, stored) ↦ elim (pending-cases env info s) [
      | inl (p, pending) ↦
          After-map _
            (λ t (a, b). of_fields t _ _ a (ap (get_or (pos 0)) b) (
              h.total_sum
              ∙ ap wrap_i128 (
                  sym (
                    total-keep staked_amount staker s.stake_info info
                      (record info { accumulated_rewards = pos 0; last_claim = env.timestamp })
                      stored refl))))
            (claim_rewards-fields env staker s info p stored pending)
      | inr (e, failed) ↦ claim_rewards-fails env staker s e info stored failed
    ]
  ]

  module _ (amount : ℤ) where
    unstake-IsTotalled : After IsTotalled (unstake env staker amount s)
    unstake-IsTotalled = elim (Option-cases (get staker s.stake_info)) [
      | inl missing ↦ unstake-missing env staker s amount missing
      | inr (info, stored) ↦ elim (pending-cases env info s) [
        | inl (p, pending) ↦
            let cleared : StakeInfo = record info {
              accumulated_rewards = pos 0;
              last_claim = env.timestamp;
            } in
            let lowered : StakeInfo = record info { amount = sub_i128 info.amount amount } in
            let m : Map Address StakeInfo = set staker cleared s.stake_info in
            let kept : sum_of m ≡ sum_of s.stake_info =
              total-keep staked_amount staker s.stake_info info cleared stored refl in
            let now : get staker m ≡ some cleared =
              ground (arith, get-set staker staker cleared s.stake_info) in
            After-map _
              (λ t (a, b). of_fields t _ _ a (ap (get_or (pos 0)) b) (
                ap (λ x. sub_i128 x amount) (h.total_sum ∙ ap wrap_i128 (sym kept))
                ∙ total-sub_word staked_amount staker m cleared lowered now amount refl))
              (unstake-fields env staker s info p amount stored pending)
        | inr (e, failed) ↦ unstake-fails env staker s e info amount stored failed
      ]
    ]

    -- A first stake is inserted, a later one is added to the stored entry.
    grown_total :
        (p : ℤ)
        → add_i128 (get_total_staked s) amount
          ≡ wrap_i128 (
              sum_of (
                set staker
                  (grown env staker s
                    (get_or (fresh env staker s) (get staker s.stake_info))
                    p
                    amount)
                  s.stake_info))
    grown_total p = elim (Option-cases (get staker s.stake_info)) [
      | inl missing ↦ rw missing (
          ap (λ x. add_i128 x amount) h.total_sum
          ∙ total-insert_word staked_amount staker s.stake_info _ amount missing refl)
      | inr (info, stored) ↦ rw stored (
          ap (λ x. add_i128 x amount) h.total_sum
          ∙ total-add_word staked_amount staker s.stake_info info _ stored amount refl)
    ]

    stake-IsTotalled : After IsTotalled (stake env staker amount s)
    stake-IsTotalled = elim (Option-cases s.staked_token) [
      | inl unnamed ↦ stake-unnamed env staker s amount unnamed
      | inr (token, named) ↦
          elim (pending-cases env (get_or (fresh env staker s) (get staker s.stake_info))
            (paid env staker s token amount)) [
              | inl (p, pending) ↦
                  After-map _
                    (λ t (a, b). of_fields t _ _ a (ap (get_or (pos 0)) b) (grown_total p))
                    (stake-fields env staker s token p amount named pending)
              | inr (e, failed) ↦ stake-fails env staker s token amount e named failed
            ]
    ]

invoke-IsTotalled :
    (env : Env) (c : StakingCall) (s : Stakes) → IsTotalled s → After IsTotalled (invoke env c s)
unfolding invoke ◌>>=◌ ◌>>◌
invoke-IsTotalled env (init staked_token) s h = init_staking-IsTotalled staked_token s h
invoke-IsTotalled env (reward amount) s h = add_rewards-IsTotalled amount s h
invoke-IsTotalled env (deposit staker amount) s h = stake-IsTotalled env staker s h amount
invoke-IsTotalled env (claim staker) s h =
    After-bind IsTotalled (claim_rewards env staker) (λ total_rewards. pure tt)
      (claim_rewards-IsTotalled env staker s h) (λ total_rewards t k. record { holds = k })
invoke-IsTotalled env (take_out staker amount) s h = unstake-IsTotalled env staker s h amount

-- If the stored total is the sum of the stakes as it wraps, then it is so after any sequence of set-ups,
-- added rewards, stakes, claims and unstakings, of which the failing ones are rolled back.
pub run-get_total_staked :
    (calls : List (Env × StakingCall)) (s : Stakes)
    → IsTotalled s
    → get_total_staked (run invoke calls s) ≡ wrap_i128 (sum_of (run invoke calls s).stake_info)
run-get_total_staked calls s h = (run-keeps invoke IsTotalled invoke-IsTotalled calls s h).total_sum
