-- ===== src/TipJar/Access.antt =====
-- Who may change the settings of the jar, and install code: the causes there are.
pub mod Tokens
pub mod Pauses
pub mod Roles
pub mod Calls
use stellar_tipjar_contracts.Common.{
  IsDistinct, length, get_or, ℕ, ltb, leb, ◌≤◌, not, is_some, nat_beq, ◌≡◌, refl, Bool, true, false,
  Option, none, some, List, [], ◌∷◌, inl, inr, Bool-cases, Option-cases, arith,
}
use stellar_tipjar_contracts.Common.Int.{ℤ, pos}
use stellar_tipjar_contracts.Soroban.{
  Address, Env, After, ◌>>=◌, ◌>>◌, pure, raise, After-map, After-bind,
}
use stellar_tipjar_contracts.TipJar.Types.{PauseState}
use stellar_tipjar_contracts.TipJar.Types.{max_allowed_tokens}
use stellar_tipjar_contracts.TipJar.State.{State, Call}
use stellar_tipjar_contracts.TipJar.Internal.{pause_state}
use stellar_tipjar_contracts.TipJar.Pauses.Bits.{IsFlagged}
use stellar_tipjar_contracts.TipJar.Settings.{
  installs, SameSettings, SameSettings-refl, tip-SameSettings, withdraw-SameSettings,
  withdraw_fees-SameSettings, maybe_migrate_creator_data-SameSettings,
  maybe_migrate_fee_balance-SameSettings,
}

-- Whether the holder of a role has authorised the invocation.
abbrev pub approves : Env → Option Address → Bool
approves env none = false
approves env (some who) = env.authorized who

abbrev pub first_token : Option Address → List Address
first_token none = []
first_token (some token) = token ∷ []

-- The first admin is set, by its own authorisation, with the entries of the set-up alone.
pub record IsSetUp (env : Env) (s t : State) : Type 0 where
  pub frame : t ≡ record s {
    token = t.token;
    allowed_tokens = t.allowed_tokens;
    admin = t.admin;
    upgrade_timelock_ledgers = t.upgrade_timelock_ledgers;
    data_version = t.data_version;
    log = t.log;
  }
  pub unset : s.admin ≡ none
  pub approved : approves env t.admin ≡ true
  pub same_installs : installs t.log ≡ installs s.log
  pub now_listed : get_or [] t.allowed_tokens ≡ first_token t.token

-- No token stands in the allowlist twice, and there is room for all of them.
pub record IsListed (s : State) : Type 0 where
  pub distinct : IsDistinct (get_or [] s.allowed_tokens)
  pub bounded : length (get_or [] s.allowed_tokens) ≤ max_allowed_tokens

-- The entries that a call of the admin changes, and the state that has these from `t`, as it has the log.
pub data Setting : Type 0 where
  allowlist admin_proposal upgrade_proposal guardian_role pause_duration pause_words : Setting
  fee_rate collector_proposal version_and_pause : Setting

abbrev pub written : Setting → State → State → State
written allowlist s t = record s { allowed_tokens = t.allowed_tokens; log = t.log }
written admin_proposal s t = record s { pending_admin = t.pending_admin; log = t.log }
written upgrade_proposal s t = record s { pending_upgrade = t.pending_upgrade; log = t.log }
written guardian_role s t = record s { guardian = t.guardian; log = t.log }
written pause_duration s t = record s {
  guardian_pause_duration = t.guardian_pause_duration;
  log = t.log;
}
written pause_words s t = record s { pause = t.pause; log = t.log }
written fee_rate s t = record s { fee_bps = t.fee_bps; log = t.log }
written collector_proposal s t = record s {
  pending_fee_collector = t.pending_fee_collector;
  log = t.log;
}
written version_and_pause s t = record s {
  data_version = t.data_version;
  pause = t.pause;
  log = t.log;
}

-- The admin has authorised the change of this setting alone, and installs nothing.
pub record ByAdmin (env : Env) (s : State) (setting : Setting) (t : State) : Type 0 where
  pub approved : approves env s.admin ≡ true
  pub frame : t ≡ written setting s t
  pub same_installs : installs t.log ≡ installs s.log
  pub still_listed : IsListed s → IsListed t
  pub still_flagged : IsFlagged (pause_state s) → IsFlagged (pause_state t)

-- The guardian has authorised it; it changes the guardian's part of the pause alone.
pub record ByGuardian (env : Env) (s t : State) : Type 0 where
  pub approved : approves env s.guardian ≡ true
  pub frame : t ≡ written pause_words s t
  pub still_flagged : IsFlagged (pause_state s) → IsFlagged (pause_state t)
  pub same_admin_flags : (pause_state t).admin_flags ≡ (pause_state s).admin_flags
  pub same_installs : installs t.log ≡ installs s.log

-- The proposed admin takes over, by its own authorisation and in time; nothing else changes.
pub record IsHandover (env : Env) (new_admin : Address) (expiry : ℕ) (s t : State) : Type 0 where
  pub approved : env.authorized new_admin ≡ true
  pub in_time : env.sequence ≤ expiry
  pub frame : t ≡ record s { admin = some new_admin; pending_admin = none; log = t.log }
  pub same_installs : installs t.log ≡ installs s.log

-- The proposed fee collector takes over likewise.
pub record IsNewCollector (env : Env) (new_collector : Address) (expiry : ℕ) (s t : State)
    : Type 0 where
  pub approved : env.authorized new_collector ≡ true
  pub in_time : env.sequence ≤ expiry
  pub frame :
      t ≡ record s { fee_collector = some new_collector; pending_fee_collector = none; log = t.log }
  pub same_installs : installs t.log ≡ installs s.log

-- The pending code is installed once its ledger has come, and is pending no more; nothing else changes.
pub record IsInstall (env : Env) (hash unlock : ℕ) (s t : State) : Type 0 where
  pub unlocked : unlock ≤ env.sequence
  pub frame : t ≡ record s { pending_upgrade = none; log = t.log }
  pub now_installed : installs t.log ≡ hash ∷ installs s.log

-- What an invocation that returns can have done to the settings and the code.
pub data Change (env : Env) (s t : State) : Type 0 where
  unchanged : SameSettings s t → Change env s t
  set_up : IsSetUp env s t → Change env s t
  by_admin : (setting : Setting) → ByAdmin env s setting t → Change env s t
  by_guardian : ByGuardian env s t → Change env s t
  handover :
      (new_admin : Address) (expiry : ℕ)
      → s.pending_admin ≡ some (new_admin, expiry)
      → IsHandover env new_admin expiry s t
      → Change env s t
  new_collector :
      (collector : Address) (expiry : ℕ)
      → s.pending_fee_collector ≡ some (collector, expiry)
      → IsNewCollector env collector expiry s t
      → Change env s t
  install :
      (hash unlock : ℕ)
      → s.pending_upgrade ≡ some (hash, unlock)
      → IsInstall env hash unlock s t
      → Change env s t
