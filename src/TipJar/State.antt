-- ===== src/TipJar/State.antt =====
-- The storage of contracts/tipjar/src/lib.rs, and the calls of the host on it.
use stellar_tipjar_contracts.Common.{ℕ, true, false, Option, none, List, [], ◌∷◌}
use stellar_tipjar_contracts.Common.Int.{ℤ}
use stellar_tipjar_contracts.Common.Map.{Map}
use stellar_tipjar_contracts.Soroban.{Address, Effect, Env, M, Transfer, transfer_failed, ok, err}
use stellar_tipjar_contracts.TipJar.Types.{
  DataKey, Event, Error, PauseState, ledger_threshold, ledger_bump,
}

-- One field for each variant of the source's `DataKey`: first the entries of the instance storage,
-- then the persistent ones, and the log of the host calls. `none` is an absent entry.
pub record State : Type 0 where
  pub token : Option Address
  pub allowed_tokens : Option (List Address)
  pub admin : Option Address
  pub pending_admin : Option (Address × ℕ)
  pub upgrade_timelock_ledgers : Option ℕ
  pub pending_upgrade : Option (ℕ × ℕ)
  pub data_version : Option ℕ
  pub guardian : Option Address
  pub pause : Option PauseState
  pub guardian_pause_duration : Option ℕ
  pub fee_bps : Option ℕ
  pub fee_collector : Option Address
  pub pending_fee_collector : Option (Address × ℕ)
  pub creator_balance : Map Address ℤ
  pub creator_total : Map Address ℤ
  pub balance : Map (Address × Address) ℤ
  pub total : Map (Address × Address) ℤ
  pub payout_address : Map Address Address
  pub pending_payout_change : Map Address (Address × ℕ)
  pub operator : Map (Address × Address) (ℤ × ℕ)
  pub fee_balance : Option ℤ
  pub fee_balance_token : Map Address ℤ
  pub log : List (Effect DataKey Event)

-- A contract that has just been deployed.
abbrev pub deployed : State
deployed = record {
  token = none;
  allowed_tokens = none;
  admin = none;
  pending_admin = none;
  upgrade_timelock_ledgers = none;
  pending_upgrade = none;
  data_version = none;
  guardian = none;
  pause = none;
  guardian_pause_duration = none;
  fee_bps = none;
  fee_collector = none;
  pending_fee_collector = none;
  creator_balance = [];
  creator_total = [];
  balance = [];
  total = [];
  payout_address = [];
  pending_payout_change = [];
  operator = [];
  fee_balance = none;
  fee_balance_token = [];
  log = [];
}

-- A call of the contract.
abbrev pub Call : Type 0 → Type 0
Call A = M State Error A

-- `event.publish(&env)`
abbrev pub publish_in : Event → State → State
publish_in e s = record s { log = Effect.published e ∷ s.log }

abbrev pub publish : Event → Call (Unit {0})
publish e s = ok (tt, publish_in e s)

-- `env.storage().instance().extend_ttl(LEDGER_THRESHOLD, LEDGER_BUMP)`
abbrev pub bump_instance_in : State → State
bump_instance_in s = record s {
  log = Effect.extended_instance ledger_threshold ledger_bump ∷ s.log;
}

abbrev pub bump_instance : Call (Unit {0})
bump_instance s = ok (tt, bump_instance_in s)

-- `env.storage().persistent().extend_ttl(&key, LEDGER_THRESHOLD, LEDGER_BUMP)`
abbrev pub bump_in : DataKey → State → State
bump_in k s = record s { log = Effect.extended k ledger_threshold ledger_bump ∷ s.log }

abbrev pub bump : DataKey → Call (Unit {0})
bump k s = ok (tt, bump_in k s)

-- `TokenClient::transfer`: the token contract moves the amount, or traps.
abbrev pub transfer_in : Transfer → State → State
transfer_in t s = record s { log = Effect.transferred t ∷ s.log }

abbrev pub transfer : Env → Transfer → Call (Unit {0})
transfer env t s = elim (env.accepts t) [
  | true ↦ ok (tt, transfer_in t s)
  | false ↦ err transfer_failed
]
