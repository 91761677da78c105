-- ===== src/TipJar/View/Withdrawals.antt =====
-- What a withdrawal requires, and what it does to every creator's view.
use stellar_tipjar_contracts.Common.{
  nat_eq, pair_eq, ℕ, leb, ◌≤◌, ◌≡◌, ◌⊎◌, refl, Option, none, some, get_or, if◌then◌else◌, arith,
}
use stellar_tipjar_contracts.Common.Int.{ℤ, pos, ◌-ℤ◌, ◌≤ℤ◌, ◌<ℤ◌}
use stellar_tipjar_contracts.Common.Map.{Map, get, get-set}
use stellar_tipjar_contracts.Soroban.{Address, Env}
use stellar_tipjar_contracts.TipJar.State.{State}
use stellar_tipjar_contracts.TipJar.Withdrawals.{apply_payout_change}
use stellar_tipjar_contracts.TipJar.View.{held, tipped, collected, added}

-- The address that a creator's withdrawals go to: a pending one counts once its ledger has come.
unfoldable pub payee_from : Env → Address → Option Address → Option (Address × ℕ) → Address
payee_from env creator stored none = get_or creator stored
payee_from env creator stored (some (new_payout, effective_ledger)) =
    if leb effective_ledger env.sequence then new_payout else get_or creator stored

abbrev pub payee : Env → Address → State → Address
payee env creator s =
    payee_from env creator (get creator s.payout_address) (get creator s.pending_payout_change)

-- The caller is the creator, or an operator whose allowance covers the amount and has not expired.
abbrev pub MayWithdraw : Env → Address → Address → ℤ → State → Type 0
MayWithdraw env caller creator amount s =
    (caller ≡ creator)
    ⊎ ((allowance : ℤ) × (expiry : ℕ) × (get (creator, caller) s.operator
          ≡ some (allowance, expiry))
        × (env.sequence ≤ expiry)
        × (amount ≤ℤ allowance))

-- What a withdrawal of `amount` has required of the state before, and what it has done.
pub record IsWithdrawal (env : Env) (caller creator asset to c k : Address) (amount : ℤ)
    (s t : State) : Type 0 where
  pub positive : pos 0 <ℤ amount
  pub enough : amount ≤ℤ held creator asset s
  pub allowed : MayWithdraw env caller creator amount s
  pub target : to ≡ payee env creator s
  pub now_held : held c k t ≡ added (creator, asset) (c, k) (pos 0 -ℤ amount) (held c k s)
  pub same_tipped : tipped c k t ≡ tipped c k s
  pub same_collected : collected k t ≡ collected k s

-- The fields that a step leaves as they were.
record IsStill (s t : State) : Type 0 where
  token_still : t.token ≡ s.token
  old_balance_still : t.creator_balance ≡ s.creator_balance
  balance_still : t.balance ≡ s.balance
  old_total_still : t.creator_total ≡ s.creator_total
  total_still : t.total ≡ s.total
  old_fee_still : t.fee_balance ≡ s.fee_balance
  fees_still : t.fee_balance_token ≡ s.fee_balance_token

record IsOperated (env : Env) (caller creator : Address) (amount : ℤ) (s t : State) : Type 0 where
  still : IsStill s t
  payout_still : t.payout_address ≡ s.payout_address
  pending_still : t.pending_payout_change ≡ s.pending_payout_change
  may : MayWithdraw env caller creator amount s

module _ (env : Env) (caller creator : Address) (amount : ℤ) (s : State) where
  -- Applying the change leaves the payee in the payout entry.
  pub apply_payout_change-payee :
      (o : Option (Address × ℕ))
      → get_or creator (get creator (apply_payout_change env creator o s).payout_address)
        ≡ payee_from env creator (get creator s.payout_address) o
  unfolding apply_payout_change payee_from
  apply_payout_change-payee none = refl
  apply_payout_change-payee (some (p, l)) =
      ground (arith, get-set creator creator p s.payout_address)
