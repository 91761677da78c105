-- ===== src/TipJar/PayoutDelay.antt =====
-- When a new payout address takes effect (`set_payout_address`, `cancel_payout_address`).
use stellar_tipjar_contracts.Common.{
  nat_eq, ◌+◌, ◌^◌, ◌<◌, leb, nat_beq, get_or, ◌≡◌, if◌then◌else◌, arith,
}
use stellar_tipjar_contracts.Common.Int.{add_u32-eq}
use stellar_tipjar_contracts.Common.Map.{get, get-set, get-remove}
use stellar_tipjar_contracts.Soroban.{Address, Env, After}
use stellar_tipjar_contracts.TipJar.Types.{payout_delay_ledgers}
use stellar_tipjar_contracts.TipJar.State.{State}
use stellar_tipjar_contracts.TipJar.Payouts.{set_payout_address, cancel_payout_address}
use stellar_tipjar_contracts.TipJar.View.Withdrawals.{payee, payee_from}

module _ (env later : Env) (s : State) (creator c : Address) where
  -- If a payout change returns, where the ledger's number does not overflow: at any later ledger a
  -- withdrawal of the creator goes to the stored address before the delay is over, and to the new one
  -- from then on; an address that was pending is dropped, and other creators' payees are as before.
  pub set_payout_address-payee :
      (payout : Address)
      → env.sequence + payout_delay_ledgers < 2 ^ 32
      → After
          (λ t. payee later c t ≡ (
            if nat_beq creator c
            then (if leb (env.sequence + payout_delay_ledgers) later.sequence
                then payout
                else get_or c (get c s.payout_address))
            else payee later c s))
          (set_payout_address env creator payout s)
  unfolding set_payout_address payee_from
  set_payout_address-payee payout word = ground (
    arith,
    add_u32-eq env.sequence 17280 word,
    get-set c creator (payout, env.sequence + 17280) s.pending_payout_change,
  )

  -- If a cancellation returns, the creator's withdrawals go to the stored address at every ledger, and
  -- other creators' payees are as before.
  cancel_payout_address-payee :
      After
        (λ t.
          payee later c t
          ≡ (if nat_beq creator c then get_or c (get c s.payout_address) else payee later c s))
        (cancel_payout_address env creator s)
  unfolding cancel_payout_address payee_from
  cancel_payout_address-payee = ground (arith, get-remove c creator s.pending_payout_change)
