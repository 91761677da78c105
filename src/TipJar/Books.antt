-- ===== src/TipJar/Books.antt =====
-- What the jar owes in one token, and the invariant that it holds at least that much.
use stellar_tipjar_contracts.Common.{
  Option, none, nat_eq, pair_eq, ◌≡◌, ◌≤◌, Bool, true, false, none, [], nat_beq, nat_beq_iff, arith,
  is_some, get_or, if◌then◌else◌,
}
use stellar_tipjar_contracts.Common.Int.{ℤ, pos, ◌+ℤ◌, ◌≤ℤ◌, IsAmount, int_laws}
use stellar_tipjar_contracts.Common.Map.{Map, get, set, get-set, sum, AllValues}
use stellar_tipjar_contracts.Soroban.{Address, custody}
use stellar_tipjar_contracts.TipJar.Types.{max_fee_bps}
use stellar_tipjar_contracts.TipJar.State.{State}
use stellar_tipjar_contracts.TipJar.Internal.{is_legacy_token}

abbrev pub has_token : Address → Address × Address → Bool
has_token token k = nat_beq k.1 token

abbrev pub every : Address → Bool
every k = true

-- The entries of the old schema, which are all counted in the legacy token.
abbrev pub legacy_owed : State → ℤ
legacy_owed s = sum every s.creator_balance +ℤ get_or (pos 0) s.fee_balance

-- What they add to what is owed in a token.
pub legacy_part : Address → Option Address → ℤ → ℤ
legacy_part token legacy_token amount = if is_legacy_token token legacy_token then amount else pos 0

-- The balances of all creators and the fees, in one token.
abbrev pub owed : Address → State → ℤ
owed token s =
    sum (has_token token) s.balance
    +ℤ get_or (pos 0) (get token s.fee_balance_token)
    +ℤ legacy_part token s.token (legacy_owed s)

module _ (token : Address) (legacy_token : Option Address) (amount : ℤ) where
  pub legacy_part_in :
      is_legacy_token token legacy_token ≡ true → legacy_part token legacy_token amount ≡ amount
  unfolding legacy_part
  legacy_part_in h = rw h

  pub legacy_part_out :
      is_legacy_token token legacy_token ≡ false → legacy_part token legacy_token amount ≡ pos 0
  unfolding legacy_part
  legacy_part_out h = rw h

-- No old entries add nothing, whatever the legacy token is.
pub legacy_part-zero :
    (token : Address) (legacy_token : Option Address)
    → legacy_part token legacy_token (pos 0) ≡ pos 0
unfolding legacy_part
legacy_part-zero token legacy_token = ground arith

-- The fees in one token after an entry is written.
module _ (token asset : Address) (v : ℤ) (m : Map Address ℤ) where
  pub fee-set_same : nat_beq asset token ≡ true → get_or (pos 0) (get token (set asset v m)) ≡ v
  fee-set_same h = rw (get-set token asset v m, h)

  pub fee-set_other :
      nat_beq asset token ≡ false
      → get_or (pos 0) (get token (set asset v m)) ≡ get_or (pos 0) (get token m)
  fee-set_other h = rw (get-set token asset v m, h)

  pub fee_same :
      nat_beq asset token ≡ true → get_or (pos 0) (get token m) ≡ get_or (pos 0) (get asset m)
  fee_same h = rw ((nat_beq_iff asset token).0 h)

-- Amounts are in range, a jar without an admin has no old entries, and what is owed in the token
-- leaves the spare amount of what the contract at `this` has received and not paid out.
pub record HasSpare (this token : Address) (spare : ℤ) (s : State) : Type 0 where
  pub balances : AllValues IsAmount s.balance
  pub old_balances : AllValues IsAmount s.creator_balance
  pub fees : AllValues IsAmount s.fee_balance_token
  pub old_fees : IsAmount (get_or (pos 0) s.fee_balance)
  pub rate : get_or 0 s.fee_bps ≤ max_fee_bps
  pub unused : is_some s.admin ≡ false → (s.creator_balance ≡ []) × (s.fee_balance ≡ none)
  pub covered : owed token s +ℤ spare ≤ℤ custody token this s.log

-- What is owed is covered.
abbrev pub IsSolvent : Address → Address → State → Type 0
IsSolvent this token s = HasSpare this token (pos 0) s

-- An amount of one asset, as it counts in a token.
pub counted : Address → Address → ℤ → ℤ
counted token asset amount = if nat_beq asset token then amount else pos 0

module _ (token asset : Address) (amount : ℤ) where
  pub counted_in : nat_beq asset token ≡ true → counted token asset amount ≡ amount
  unfolding counted
  counted_in h = rw h

  pub counted_out : nat_beq asset token ≡ false → counted token asset amount ≡ pos 0
  unfolding counted
  counted_out h = rw h

-- Less may be spared.
pub HasSpare-weaken :
    (this token : Address) (x y : ℤ) (s : State)
    → y ≤ℤ x
    → HasSpare this token x s
    → HasSpare this token y s
HasSpare-weaken this token x y s le h = record {
  balances = h.balances;
  old_balances = h.old_balances;
  fees = h.fees;
  old_fees = h.old_fees;
  rate = h.rate;
  unused = h.unused;
  covered = omega (int_laws, le, h.covered);
}
