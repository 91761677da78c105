-- ===== src/TipJar/Solvency/Migration.antt =====
-- Solvency across the lazy migrations.
use stellar_tipjar_contracts.Common.{
  nat_eq, pair_eq, ◌≡◌, refl, ap, subst, true, false, Option, none, some, inl, inr, get_or, nat_beq,
  Bool-cases, Option-cases, arith,
}
use stellar_tipjar_contracts.Common.Int.{
  ℤ, pos, ◌≤ℤ◌, ◌+ℤ◌, int_laws, parts_of_eq, IsAmount, IsAmount-zero, checked_add,
  checked_add-eq_some, checked_add-IsAmount,
}
use stellar_tipjar_contracts.Common.Map.{
  get, set, remove, AllValues, get-AllValues, set-AllValues, remove-AllValues, sum, sum-set_counted,
  sum-set_skipped, sum-remove_counted,
}
use stellar_tipjar_contracts.Soroban.{Address, After}
use stellar_tipjar_contracts.TipJar.State.{State, bump_in}
use stellar_tipjar_contracts.TipJar.Types.{DataKey}
use stellar_tipjar_contracts.TipJar.Internal.{
  migrate_balance, migrate_total, maybe_migrate_creator_data, maybe_migrate_fee_balance,
  is_legacy_token,
}
use stellar_tipjar_contracts.TipJar.Books.{
  HasSpare, owed, legacy_part_in, legacy_part_out, fee-set_same, fee-set_other, fee_same,
  legacy_owed, every, has_token,
}

legacy_same :
    (asset token : Address) (t : Option Address)
    → is_legacy_token asset t ≡ true
    → nat_beq asset token ≡ true
    → is_legacy_token token t ≡ true
legacy_same asset token t h same = ground arith

legacy_other :
    (asset token : Address) (t : Option Address)
    → is_legacy_token asset t ≡ true
    → nat_beq asset token ≡ false
    → is_legacy_token token t ≡ false
legacy_other asset token t h other = ground arith

module _ (this token : Address) (spare : ℤ) (creator asset : Address) (s : State) where
  owed-migrate_balance-le :
      (v : ℤ)
      → AllValues IsAmount s.creator_balance
      → AllValues IsAmount s.balance
      → get creator s.creator_balance ≡ some v
      → is_legacy_token asset s.token ≡ true
      → owed token (migrate_balance creator asset (some v) s) ≤ℤ owed token s
  unfolding migrate_balance
  owed-migrate_balance-le v old now e legacy = elim (Bool-cases (nat_beq asset token)) [
    | inl same ↦
        let l = legacy_same asset token s.token legacy same in
        omega (
          int_laws,
          parts_of_eq (legacy_part_in token s.token (legacy_owed s) l),
          parts_of_eq (
              legacy_part_in token s.token
                (sum every (remove creator s.creator_balance) +ℤ get_or (pos 0) s.fee_balance) l),
          parts_of_eq (sum-set_counted (has_token token) (creator, asset) v s.balance same),
          sum-remove_counted every creator s.creator_balance refl old,
          (get-AllValues IsAmount (pos 0) (creator, asset) s.balance IsAmount-zero now).0,
          parts_of_eq (ap (get_or (pos 0)) e),
        )
    | inr other ↦
        let l = legacy_other asset token s.token legacy other in
        omega (
          int_laws,
          parts_of_eq (legacy_part_out token s.token (legacy_owed s) l),
          parts_of_eq (
              legacy_part_out token s.token
                (sum every (remove creator s.creator_balance) +ℤ get_or (pos 0) s.fee_balance) l),
          parts_of_eq (sum-set_skipped (has_token token) (creator, asset) v s.balance other),
        )
  ]

  migrate_balance-HasSpare :
      HasSpare this token spare s
      → is_legacy_token asset s.token ≡ true
      → (o : Option ℤ) → get creator s.creator_balance ≡ o
      → HasSpare this token spare (migrate_balance creator asset o s)
  unfolding migrate_balance remove
  migrate_balance-HasSpare h legacy none e = h
  migrate_balance-HasSpare h legacy (some v) e = record {
    balances = set-AllValues IsAmount (creator, asset) v s.balance amount h.balances;
    old_balances = remove-AllValues IsAmount creator s.creator_balance h.old_balances;
    fees = h.fees;
    old_fees = h.old_fees;
    rate = h.rate;
    unused = λ p. (ap (remove creator) (h.unused p).0, (h.unused p).1);
    covered =
        omega (int_laws, owed-migrate_balance-le v h.old_balances h.balances e legacy, h.covered);
  }
    where
      amount : IsAmount v
      amount =
          subst IsAmount (ap (get_or (pos 0)) e)
            (get-AllValues IsAmount (pos 0) creator s.creator_balance IsAmount-zero h.old_balances)

migrate_total-HasSpare :
    (this token : Address) (spare : ℤ) (creator asset : Address) (s : State) (o : Option ℤ)
    → HasSpare this token spare s
    → HasSpare this token spare (migrate_total creator asset o s)
unfolding migrate_total
migrate_total-HasSpare this token spare creator asset s none h = h
migrate_total-HasSpare this token spare creator asset s (some v) h = ground arith

-- Moving a creator's old entries keeps the jar solvent in every token.
pub maybe_migrate_creator_data-HasSpare :
    (this token : Address) (spare : ℤ) (creator asset : Address) (s : State)
    → HasSpare this token spare s
    → HasSpare this token spare (maybe_migrate_creator_data creator asset s)
unfolding maybe_migrate_creator_data
maybe_migrate_creator_data-HasSpare this token spare creator asset s h =
    elim (Bool-cases (is_legacy_token asset s.token)) [
      | inl legacy ↦ rw legacy (
          migrate_total-HasSpare this token spare creator asset _ _
            (migrate_balance-HasSpare this token spare creator asset s h legacy _ refl))
      | inr other ↦ rw other h
    ]

module _ (this token : Address) (spare : ℤ) (asset : Address) (s : State)
    (h : HasSpare this token spare s) where
  moved_fee-HasSpare :
      (legacy combined : ℤ)
      → s.fee_balance ≡ some legacy
      → is_legacy_token asset s.token ≡ true
      → checked_add (get_or (pos 0) (get asset s.fee_balance_token)) legacy ≡ some combined
      → HasSpare this token spare (record (bump_in (DataKey.fee_balance_token asset) s) {
        fee_balance_token = set asset combined s.fee_balance_token;
        fee_balance = none;
      })
  moved_fee-HasSpare legacy combined e l c = record {
    balances = h.balances;
    old_balances = h.old_balances;
    fees = set-AllValues IsAmount asset combined s.fee_balance_token amount h.fees;
    old_fees = IsAmount-zero;
    rate = h.rate;
    unused = λ p. ((h.unused p).0, refl);
    covered = elim (Bool-cases (nat_beq asset token)) [
      | inl same ↦
          let k = legacy_same asset token s.token l same in
          omega (
            int_laws,
            h.covered,
            parts_of_eq (legacy_part_in token s.token (legacy_owed s) k),
            parts_of_eq (legacy_part_in token s.token (sum every s.creator_balance +ℤ pos 0) k),
            parts_of_eq (fee-set_same token asset combined s.fee_balance_token same),
            parts_of_eq (fee_same token asset combined s.fee_balance_token same),
            parts_of_eq sum_is,
            parts_of_eq old_is,
          )
      | inr other ↦
          let k = legacy_other asset token s.token l other in
          omega (
            int_laws,
            h.covered,
            parts_of_eq (legacy_part_out token s.token (legacy_owed s) k),
            parts_of_eq (legacy_part_out token s.token (sum every s.creator_balance +ℤ pos 0) k),
            parts_of_eq (fee-set_other token asset combined s.fee_balance_token other),
          )
    ];
  }
    where
      old_is : get_or (pos 0) s.fee_balance ≡ legacy
      old_is = ap (get_or (pos 0)) e

      amount : IsAmount combined
      amount =
          checked_add-IsAmount _ legacy combined c
            (get-AllValues IsAmount (pos 0) asset s.fee_balance_token IsAmount-zero h.fees).0
            (subst IsAmount old_is h.old_fees).0

      sum_is : combined ≡ get_or (pos 0) (get asset s.fee_balance_token) +ℤ legacy
      sum_is = (checked_add-eq_some _ legacy combined c).0

  -- Moving the old fee counter keeps the jar solvent in every token.
  pub maybe_migrate_fee_balance-HasSpare :
      After (HasSpare this token spare) (maybe_migrate_fee_balance asset s)
  unfolding maybe_migrate_fee_balance
  maybe_migrate_fee_balance-HasSpare = elim (Option-cases s.fee_balance) [
    | inl e ↦ ground arith
    | inr (legacy, e) ↦ elim (Bool-cases (is_legacy_token asset s.token)) [
      | inr other ↦ ground arith
      | inl l ↦
          elim (Option-cases
            (checked_add (get_or (pos 0) (get asset s.fee_balance_token)) legacy)) [
              | inl full ↦ ground arith
              | inr (combined, c) ↦ ground (arith, moved_fee-HasSpare legacy combined e l c)
            ]
    ]
  ]
