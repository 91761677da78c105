-- ===== src/TipJar/Solvency/Credits.antt =====
-- What a credit puts on the books of the jar.
use stellar_tipjar_contracts.Common.{
  nat_eq, pair_eq, ◌≡◌, true, some, inl, inr, get_or, nat_beq, Bool-cases, Option-cases, arith,
}
use stellar_tipjar_contracts.Common.Int.{
  ℤ, pos, ◌≤ℤ◌, ◌+ℤ◌, ◌-ℤ◌, int_laws, parts_of_eq, IsAmount, IsAmount-zero, fits_i128, checked_add,
  checked_add-eq_some, checked_add-IsAmount,
}
use stellar_tipjar_contracts.Common.Map.{
  get, set, get-AllValues, set-AllValues, sum-set_counted, sum-set_skipped,
}
use stellar_tipjar_contracts.Soroban.{
  Address, After, ◌>>=◌, ◌>>◌, After-gets, After-or_raise, After-then,
}
use stellar_tipjar_contracts.TipJar.State.{State}
use stellar_tipjar_contracts.TipJar.Tips.{credit, accrue_fee}
use stellar_tipjar_contracts.TipJar.Books.{
  HasSpare, counted, counted_in, counted_out, owed, has_token, fee-set_same, fee-set_other,
  fee_same,
}
use stellar_tipjar_contracts.TipJar.Solvency.Migration.{maybe_migrate_fee_balance-HasSpare}

module _ (this token asset : Address) (spare : ℤ) (s : State)
    (h : HasSpare this token spare s) where
  owed-balance :
      (creator : Address) (v new : ℤ)
      → new ≡ get_or (pos 0) (get (creator, asset) s.balance) +ℤ v
      → owed token (record s { balance = set (creator, asset) new s.balance })
        ≡ owed token s +ℤ counted token asset v
  owed-balance creator v new e = elim (Bool-cases (nat_beq asset token)) [
    | inl same ↦ omega (
      int_laws,
      parts_of_eq e,
      parts_of_eq (counted_in token asset v same),
      parts_of_eq (sum-set_counted (has_token token) (creator, asset) new s.balance same),
    )
    | inr other ↦ omega (
      int_laws,
      parts_of_eq (counted_out token asset v other),
      parts_of_eq (sum-set_skipped (has_token token) (creator, asset) new s.balance other),
    )
  ]

  pub credit-HasSpare :
      (creator : Address) (net_amount amount : ℤ)
      → pos 0 ≤ℤ net_amount
      → After
          (HasSpare this token (spare -ℤ counted token asset net_amount))
          (credit creator asset net_amount amount s)
  unfolding credit ◌>>=◌ ◌>>◌
  credit-HasSpare creator net_amount amount n =
      elim (Option-cases
        (checked_add (get_or (pos 0) (get (creator, asset) s.balance)) net_amount)) [
          | inl full ↦ ground arith
          | inr (new, e) ↦
              let plus = checked_add-eq_some _ net_amount new e in
              let amt =
                checked_add-IsAmount _ net_amount new e
                  (get-AllValues IsAmount (pos 0) (creator, asset) s.balance IsAmount-zero
                    h.balances).0
                  n in
              let c : owed token (record s { balance = set (creator, asset) new s.balance })
                    +ℤ (spare -ℤ counted token asset net_amount)
                  ≡ owed token s +ℤ spare =
                omega (int_laws, parts_of_eq (owed-balance creator net_amount new plus.0)) in
              ground
                (arith, c, set-AllValues IsAmount (creator, asset) new s.balance amt h.balances)
        ]

  add_fee-HasSpare :
      (fee new : ℤ)
      → pos 0 ≤ℤ fee
      → checked_add (get_or (pos 0) (get asset s.fee_balance_token)) fee ≡ some new
      → HasSpare this token
          (spare -ℤ counted token asset fee)
          (record s { fee_balance_token = set asset new s.fee_balance_token })
  add_fee-HasSpare fee new n e = record {
    balances = h.balances;
    old_balances = h.old_balances;
    fees =
        set-AllValues IsAmount asset new s.fee_balance_token
          (checked_add-IsAmount _ fee new e
            (get-AllValues IsAmount (pos 0) asset s.fee_balance_token IsAmount-zero h.fees).0 n)
          h.fees;
    old_fees = h.old_fees;
    rate = h.rate;
    unused = h.unused;
    covered = elim (Bool-cases (nat_beq asset token)) [
      | inl same ↦ omega (
        int_laws,
        h.covered,
        parts_of_eq plus.0,
        parts_of_eq (counted_in token asset fee same),
        parts_of_eq (fee-set_same token asset new s.fee_balance_token same),
        parts_of_eq (fee_same token asset new s.fee_balance_token same),
      )
      | inr other ↦ omega (
        int_laws,
        h.covered,
        parts_of_eq (counted_out token asset fee other),
        parts_of_eq (fee-set_other token asset new s.fee_balance_token other),
      )
    ];
  }
    where
      plus : (new ≡ get_or (pos 0) (get asset s.fee_balance_token) +ℤ fee) × (fits_i128 new ≡ true)
      plus = checked_add-eq_some _ fee new e

module _ (this token asset : Address) (spare : ℤ) where
  pub accrue_fee-HasSpare :
      (creator : Address) (amount fee net_amount : ℤ) (s : State)
      → pos 0 ≤ℤ fee
      → HasSpare this token spare s
      → After
          (HasSpare this token (spare -ℤ counted token asset fee))
          (accrue_fee creator asset amount fee net_amount s)
  unfolding accrue_fee
  accrue_fee-HasSpare creator amount fee net_amount s n h =
      After-then _ (HasSpare this token spare) _
        (maybe_migrate_fee_balance-HasSpare this token spare asset s h)
        λ t k. After-gets _ _ (
          After-or_raise _ _ _ λ new e.
            let r = add_fee-HasSpare this token asset spare t k fee new n e in
            unfold ◌>>=◌ ◌>>◌ in ground (arith, r))
