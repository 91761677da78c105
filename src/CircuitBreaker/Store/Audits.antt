-- ===== src/CircuitBreaker/Store/Audits.antt =====
-- The modules audit and periodic_status of contracts/tipjar-legacy/src/circuit_breaker.rs.
use stellar_tipjar_contracts.Common.{
  nat_eq, ℕ, zero, suc, ◌+◌, ◌-◌, Bool, false, Option, none, some, List, [], ◌∷◌, ltb, leb, get_or,
  if◌then◌else◌,
}
use stellar_tipjar_contracts.Common.Map.{Map, get, set}
use stellar_tipjar_contracts.Common.Saturating.{u64_max, saturating_add}
use stellar_tipjar_contracts.Soroban.{Address, Env, pure, gets, modify, ◌>>=◌, ◌>>◌}
use stellar_tipjar_contracts.CircuitBreaker.{
  EnhancedCircuitBreakerState, is_halted, remaining_cooldown,
}
use stellar_tipjar_contracts.CircuitBreaker.Store.{
  Symbol, AuditEntry, Store, Call, emit_audit_event, emit_status_event,
}

abbrev pub get_current_audit_id : Store → ℕ
get_current_audit_id s = get_or 0 s.audit_counter

unfoldable pub get_next_audit_id : Call ℕ
get_next_audit_id s =
    let next : ℕ = saturating_add u64_max (get_current_audit_id s) 1 in
    pure next (record s { audit_counter = some next })

unfoldable pub record_audit_entry : Env → Symbol → Option Address → Symbol → Call ℕ
unfolding ◌>>=◌ ◌>>◌ get_next_audit_id
record_audit_entry env action admin details = do
  id ← get_next_audit_id
  let entry : AuditEntry = record {
    entry_id = id;
    timestamp = env.timestamp;
    action = action;
    admin = admin;
    details = details;
  }
  modify (λ s. record s { audit_entries = set id entry s.audit_entries })
  emit_audit_event env action admin details
  pure id

-- The entries under `count` ids from `id` on.
unfoldable pub entries_from : ℕ → ℕ → Map ℕ AuditEntry → List AuditEntry
entries_from zero id entries = []
entries_from (suc count) id entries =
    let rest : List AuditEntry = entries_from count (id + 1) entries in
    elim (get id entries) [ none ↦ rest | some entry ↦ entry ∷ rest ]

-- The ids from the first to the current one, both included.
unfoldable pub get_recent_audit_entries : ℕ → Store → List AuditEntry
get_recent_audit_entries limit s =
    let current : ℕ = get_current_audit_id s in
    let start : ℕ = current - limit in entries_from (current + 1 - start) start s.audit_entries

unfoldable pub validate_audit_integrity : Store → Bool
validate_audit_integrity s = ltb (get_current_audit_id s) 1_000_000

abbrev pub default_status_interval : ℕ
default_status_interval = 300

unfoldable pub should_emit_status : Env → EnhancedCircuitBreakerState → ℕ → ℕ → Bool
should_emit_status env state last interval =
    if is_halted state env.timestamp
    then leb (saturating_add u64_max last interval) env.timestamp
    else false

unfoldable pub emit_periodic_status : Env → EnhancedCircuitBreakerState → Call ℕ
unfolding ◌>>=◌ ◌>>◌
emit_periodic_status env state = do
  emit_status_event env state (remaining_cooldown state env.timestamp)
  pure env.timestamp

abbrev pub get_last_status_time : Store → ℕ
get_last_status_time s = get_or 0 s.last_status

abbrev pub update_last_status_time : ℕ → Call (Unit {0})
update_last_status_time time = modify (λ s. record s { last_status = some time })

unfoldable pub check_and_emit_status :
    Env → EnhancedCircuitBreakerState → Option ℕ → Call (Unit {0})
unfolding ◌>>=◌ ◌>>◌
check_and_emit_status env state interval = do
  last ← gets get_last_status_time
  if should_emit_status env state last (get_or default_status_interval interval)
      then (emit_periodic_status env state >>= update_last_status_time)
      else pure tt
