-- ===== src/Soroban/Monad.antt =====
-- Calls of a contract: state passing with failure.
use stellar_tipjar_contracts.Common.{Bool, true, false, Option, none, some}
use stellar_tipjar_contracts.Soroban.Host.{Env, Address}

-- What ends an invocation: a typed error of the contract, or the host itself.
pub data Failure (E : Type 0) : Type 0 where
  panic : E → Failure E
  not_authorized : Failure E
  transfer_failed : Failure E
  trap : Failure E

pub data Result (E A : Type 0) : Type 0 where
  ok : A → Result E A
  err : Failure E → Result E A

abbrev pub M : Type 0 → Type 0 → Type 0 → Type 0
M S E A = S → Result E (A × S)

module _ {S E A : Type 0} where
  abbrev pub pure : A → M S E A
  pure a s = ok (a, s)

  abbrev pub fail : Failure E → M S E A
  fail e s = err e

  -- `panic_with_error!`
  abbrev pub raise : E → M S E A
  raise e s = err (panic e)

  abbrev pub gets : (S → A) → M S E A
  gets f s = ok (f s, s)

  abbrev pub or_raise : Option A → E → M S E A
  or_raise none e s = err (panic e)
  or_raise (some a) e s = ok (a, s)

  -- An operation that traps where it has no result.
  abbrev pub or_trap : Option A → M S E A
  or_trap none s = err trap
  or_trap (some a) s = ok (a, s)

infixl 5 ◌>>=◌ ◌>>◌
unfoldable pub ◌>>=◌ : {S E A B : Type 0} → M S E A → (A → M S E B) → M S E B
◌>>=◌ m f s = elim (m s) [ ok (a, t) ↦ f a t | err e ↦ err e ]

unfoldable pub ◌>>◌ : {S E B : Type 0} → M S E (Unit {0}) → M S E B → M S E B
m >> k = m >>= λ _. k

module _ {S E : Type 0} where
  abbrev pub modify : (S → S) → M S E (Unit {0})
  modify f s = ok (tt, f s)

  -- `if b { panic_with_error!(e) }`
  abbrev pub raise_if : Bool → E → M S E (Unit {0})
  raise_if true e s = err (panic e)
  raise_if false e s = ok (tt, s)

  -- `address.require_auth()`
  abbrev pub require_auth : Env → Address → M S E (Unit {0})
  require_auth env who s = elim (env.authorized who) [
    | true ↦ ok (tt, s)
    | false ↦ err not_authorized
  ]
