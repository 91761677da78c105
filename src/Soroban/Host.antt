-- ===== src/Soroban/Host.antt =====
-- What the host gives an invocation (soroban_sdk::Env), and the calls that leave the contract.
use stellar_tipjar_contracts.Common.{ℕ, Bool, List, [], ◌∷◌, ◌==◌, nat_eq, if◌then◌else◌}
use stellar_tipjar_contracts.Common.Int.{ℤ, pos, ◌+ℤ◌, ◌-ℤ◌}

-- Addresses are only compared.
abbrev pub Address : Type 0
Address = ℕ

-- `token::TokenClient::new(token).transfer(sender, recipient, amount)`
pub record Transfer : Type 0 where
  pub asset : Address
  pub sender : Address
  pub recipient : Address
  pub amount : ℤ

-- One invocation: the ledger's sequence number and time, who has authorised it, the contract's own address,
-- and whether the token contract that is called lets a transfer through.
pub record Env : Type 0 where
  pub sequence : ℕ
  pub timestamp : ℕ
  pub authorized : Address → Bool
  pub this : Address
  pub accepts : Transfer → Bool

-- The calls of the host that have an effect, newest first in a log. `Key` is the type of the
-- persistent storage keys, `Event` the type of the contract's events.
pub data Effect (Key Event : Type 0) : Type 0 where
  published : Event → Effect Key Event
  transferred : Transfer → Effect Key Event
  extended_instance : ℕ → ℕ → Effect Key Event
  extended : Key → ℕ → ℕ → Effect Key Event
  installed : ℕ → Effect Key Event

-- What a transfer adds to an account: its amount if the account receives, less it if it pays.
abbrev pub moved : Address → Address → Transfer → ℤ
moved asset who t =
    if t.asset == asset
    then (if t.recipient == who then t.amount else pos 0)
      -ℤ (if t.sender == who then t.amount else pos 0)
    else pos 0

-- What an account has gained in one asset by the transfers of a log.
abbrev pub custody : {Key Event : Type 0} → Address → Address → List (Effect Key Event) → ℤ
custody asset who [] = pos 0
custody asset who (Effect.published e ∷ l) = custody asset who l
custody asset who (Effect.transferred t ∷ l) = custody asset who l +ℤ moved asset who t
custody asset who (Effect.extended_instance a b ∷ l) = custody asset who l
custody asset who (Effect.extended k a b ∷ l) = custody asset who l
custody asset who (Effect.installed h ∷ l) = custody asset who l
