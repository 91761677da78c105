-- ===== src/TipJar/Types.antt =====
-- The data of contracts/tipjar/src/lib.rs: constants, storage keys, events and errors.
use stellar_tipjar_contracts.Common.{ℕ, Option}
use stellar_tipjar_contracts.Common.Int.{ℤ, pos}
use stellar_tipjar_contracts.Soroban.{Address}

abbrev pub ledger_threshold : ℕ
ledger_threshold = 100_000

abbrev pub ledger_bump : ℕ
ledger_bump = 120_960

abbrev pub payout_delay_ledgers : ℕ
payout_delay_ledgers = 17280

abbrev pub admin_transfer_expiry_ledgers : ℕ
admin_transfer_expiry_ledgers = 34_560

abbrev pub bps_denominator : ℤ
bps_denominator = pos 10_000

abbrev pub max_fee_bps : ℕ
max_fee_bps = 1_000

abbrev pub latest_data_version : ℕ
latest_data_version = 2

abbrev pub max_allowed_tokens : ℕ
max_allowed_tokens = 50

abbrev pub default_guardian_pause_duration_ledgers : ℕ
default_guardian_pause_duration_ledgers = 17280

abbrev pub pause_flag_tips : ℕ
pause_flag_tips = 1

abbrev pub pause_flag_withdrawals : ℕ
pause_flag_withdrawals = 2

abbrev pub pause_flag_all : ℕ
pause_flag_all = 3

-- The keys of the persistent storage; the instance storage is in `State` alone.
pub data DataKey : Type 0 where
  creator_balance creator_total : Address → DataKey
  balance total : Address → Address → DataKey
  payout_address pending_payout_change : Address → DataKey
  operator : Address → Address → DataKey
  fee_balance : DataKey
  fee_balance_token : Address → DataKey

-- The text of `notes` is never read; a number stands for it.
pub record PauseState : Type 0 where
  pub admin_flags : ℕ
  pub guardian_flags : ℕ
  pub guardian_expiry : ℕ
  pub notes : Option ℕ

-- The events, their fields in the source's order.
pub data Event : Type 0 where
  tip_event : Address → Address → Address → ℤ → Event
  withdraw_event : Address → Address → ℤ → Address → Event
  payout_change_proposed : Address → Address → ℕ → Event
  payout_change_applied : Address → Address → Event
  payout_change_cancelled : Address → Event
  operator_authorized : Address → Address → ℤ → ℕ → Event
  operator_revoked : Address → Address → Event
  admin_transfer_proposed : Address → Address → ℕ → Event
  admin_transfer_accepted : Address → Event
  admin_transfer_cancelled : Address → Event
  upgrade_proposed : ℕ → ℕ → Event
  upgrade_executed upgrade_cancelled : ℕ → Event
  migrated : ℕ → ℕ → Event
  paused unpaused : Address → ℕ → Event
  guardian_updated : Address → Address → Event
  fee_charged : Address → ℤ → ℤ → ℤ → Event
  fee_configured : Address → ℕ → Event
  fee_withdraw : Address → ℤ → Event
  fee_collector_transfer_proposed : Address → Address → ℕ → Event
  fee_collector_transfer_accepted : Address → Event
  fee_collector_transfer_cancelled : Address → Event

pub data Error : Type 0 where
  already_initialized not_initialized invalid_amount nothing_to_withdraw : Error
  invalid_operator operator_expired insufficient_allowance : Error
  pending_payout_change_active no_pending_payout_change invalid_target unauthorized : Error
  no_pending_admin invalid_timelock upgrade_already_pending no_pending_upgrade : Error
  timelock_not_elapsed tips_paused withdrawals_paused invalid_duration : Error
  invalid_fee fee_overflow not_fee_collector : Error
  token_not_allowed token_already_exists max_tokens_reached no_pending_fee_collector : Error
  admin_transfer_expired fee_collector_transfer_expired : Error
  admin_transfer_already_pending fee_collector_transfer_already_pending : Error
