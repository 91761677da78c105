-- ===== src/TipJar/View.antt =====
-- The amounts of a creator as the queries show them: the old entry where it is not migrated yet,
-- and else the entry of the creator and the token.
pub mod Migration
pub mod Tips
pub mod Withdrawals
pub mod Payments
pub mod Receipts
mod Tests
use stellar_tipjar_contracts.Common.{
  nat_eq, pair_eq, pair_beq, pair_beq_iff, ap, ℕ, ◌≡◌, refl, true, false, Bool, Option, none, some,
  inl, inr, nat_beq, nat_beq_iff, get_or, Bool-cases, Option-cases, if◌then◌else◌, arith,
}
use stellar_tipjar_contracts.Common.Int.{ℤ, pos, ◌+ℤ◌, int_laws}
use stellar_tipjar_contracts.Common.Map.{Map, get, set, remove, get-set, get-remove}
use stellar_tipjar_contracts.Soroban.{Address, ok, ◌>>=◌, ◌>>◌}
use stellar_tipjar_contracts.TipJar.State.{State}
use stellar_tipjar_contracts.TipJar.Internal.{
  is_legacy_token, migrate_balance, migrate_total, maybe_migrate_creator_data,
}
use stellar_tipjar_contracts.TipJar.Tips.{get_balance, get_total_tips}

abbrev pub Amounts : Type 0
Amounts = Map (Address × Address) ℤ

-- The old entry of a creator, if the token is the one that old entries are counted in.
unfoldable pub old_entry : Option Address → Map Address ℤ → Address → Address → Option ℤ
old_entry legacy_token old creator token =
    if is_legacy_token token legacy_token then get creator old else none

unfoldable pub view : Option Address → Map Address ℤ → Amounts → Address → Address → ℤ
view legacy_token old amounts creator token =
    get_or (get_or (pos 0) (get (creator, token) amounts))
      (old_entry legacy_token old creator token)

-- What a creator may withdraw in a token.
abbrev pub held : Address → Address → State → ℤ
held creator token s = view s.token s.creator_balance s.balance creator token

-- What a creator has been tipped in a token.
abbrev pub tipped : Address → Address → State → ℤ
tipped creator token s = view s.token s.creator_total s.total creator token

-- The fees of a token: its entry, and the old counter where the token is the legacy one.
pub fee_view : Option Address → Option ℤ → Map Address ℤ → Address → ℤ
fee_view legacy_token old fees token =
    get_or (pos 0) (get token fees)
    +ℤ (if is_legacy_token token legacy_token then get_or (pos 0) old else pos 0)

abbrev pub collected : Address → State → ℤ
collected token s = fee_view s.token s.fee_balance s.fee_balance_token token

module _ (legacy_token : Option Address) (old : Option ℤ) (fees : Map Address ℤ) (asset : Address)
    (v : ℤ) (k : Address) where
  -- Adding to a token's fees.
  pub fee_view-add :
      (fee : ℤ)
      → v ≡ get_or (pos 0) (get asset fees) +ℤ fee
      → fee_view legacy_token old (set asset v fees) k ≡ (
          if nat_beq asset k
          then fee_view legacy_token old fees k +ℤ fee
          else fee_view legacy_token old fees k)
  unfolding fee_view
  fee_view-add fee e = elim (Bool-cases (nat_beq asset k)) [
    | inl same ↦
        rw (get-set k asset v fees, same, e, ← (nat_beq_iff asset k).0 same) (omega int_laws)
    | inr other ↦ rw (get-set k asset v fees, other)
  ]

  -- Moving the old counter changes no view.
  pub fee_view-move :
      (legacy : ℤ)
      → v ≡ get_or (pos 0) (get asset fees) +ℤ legacy
      → old ≡ some legacy
      → is_legacy_token asset legacy_token ≡ true
      → fee_view legacy_token none (set asset v fees) k ≡ fee_view legacy_token old fees k
  unfolding fee_view
  fee_view-move legacy e o l = elim (Bool-cases (nat_beq asset k)) [
    | inl same ↦
        rw (get-set k asset v fees, same, e, o, ← (nat_beq_iff asset k).0 same, l) (omega int_laws)
    | inr other ↦
        let out : is_legacy_token k legacy_token ≡ false = ground arith in
        rw (get-set k asset v fees, other, out)
  ]

-- An amount at one key, and no change at the others.
abbrev pub added : Address × Address → Address × Address → ℤ → ℤ → ℤ
added key q amount before = if pair_beq key q then before +ℤ amount else before

module _ (legacy_token : Option Address) (old : Map Address ℤ) (amounts : Amounts)
    (creator asset : Address) where
  -- A write to a creator whose old entry is gone changes the view there and nowhere else.
  pub view-set :
      (v : ℤ) (c k : Address)
      → old_entry legacy_token old creator asset ≡ none
      → view legacy_token old (set (creator, asset) v amounts) c k
        ≡ (if pair_beq (creator, asset) (c, k) then v else view legacy_token old amounts c k)
  unfolding view old_entry
  view-set v c k gone = ground (arith, get-set (c, k) (creator, asset) v amounts)

  pub view-now :
      old_entry legacy_token old creator asset ≡ none
      → view legacy_token old amounts creator asset ≡ get_or (pos 0) (get (creator, asset) amounts)
  unfolding view
  view-now gone = rw gone

  -- Moving the old entry changes no view.
  pub view-move :
      (v : ℤ) (c k : Address)
      → is_legacy_token asset legacy_token ≡ true
      → get creator old ≡ some v
      → view legacy_token (remove creator old) (set (creator, asset) v amounts) c k
        ≡ view legacy_token old amounts c k
  unfolding view old_entry
  view-move v c k legacy e =
      ground (arith, get-set (c, k) (creator, asset) v amounts, get-remove c creator old)

  -- So an amount that is added to the entry is added to the view.
  pub view-add :
      (v amount : ℤ) (c k : Address)
      → old_entry legacy_token old creator asset ≡ none
      → v ≡ get_or (pos 0) (get (creator, asset) amounts) +ℤ amount
      → view legacy_token old (set (creator, asset) v amounts) c k
        ≡ added (creator, asset) (c, k) amount (view legacy_token old amounts c k)
  view-add v amount c k gone e = elim (Bool-cases (pair_beq (creator, asset) (c, k))) [
    | inl same ↦
        rw (view-set v c k gone, same, e, ← view-now gone)
          (ap (λ (q : Address × Address). view legacy_token old amounts q.0 q.1 +ℤ amount)
            ((pair_beq_iff (creator, asset) (c, k)).0 same))
    | inr other ↦ rw (view-set v c k gone, other)
  ]
