-- ===== src/TipJar/View/Payments.antt =====
-- When a tip and a withdrawal return.
use stellar_tipjar_contracts.Common.{nat_eq, pair_eq}
use stellar_tipjar_contracts.Common.Map.{Map}
use stellar_tipjar_contracts.Soroban.{Address, Env}
use stellar_tipjar_contracts.TipJar.State.{State}
use stellar_tipjar_contracts.TipJar.Internal.{maybe_migrate_creator_data}

module _ (env : Env) (creator asset : Address) (s : State) where
  abbrev moved : State
  moved = maybe_migrate_creator_data creator asset s
