-- ===== src/TipJar/Solvency/Debits.antt =====
-- What a debit takes from the books, and solvency across `withdraw_fees`.
use stellar_tipjar_contracts.Common.{
  nat_eq, pair_eq, ◌≡◌, ◌||◌, true, false, Option, inl, inr, get_or, nat_beq, Bool-cases, arith,
}
use stellar_tipjar_contracts.Common.Int.{
  ℤ, pos, ◌≤ℤ◌, ◌+ℤ◌, ◌-ℤ◌, leb_ℤ, ltb_ℤ, int_laws, parts_of_eq, IsAmount, IsAmount-zero, sub_i128,
  sub_i128-eq, sub_i128-IsAmount,
}
use stellar_tipjar_contracts.Common.Map.{
  get, set, get-AllValues, set-AllValues, sum-set_counted, sum-set_skipped,
}
use stellar_tipjar_contracts.Soroban.{
  Address, Env, After, Transfer, moved, ◌>>=◌, ◌>>◌, After-gets, After-or_raise, After-then,
  After-modify, After-raise_if, After-auth,
}
use stellar_tipjar_contracts.TipJar.State.{State, transfer_in}
use stellar_tipjar_contracts.TipJar.Fees.{withdraw_fees}
use stellar_tipjar_contracts.TipJar.Guards.{After-transfer}
use stellar_tipjar_contracts.TipJar.Books.{
  HasSpare-weaken, HasSpare, IsSolvent, counted, counted_in, counted_out, has_token, fee-set_same,
  fee-set_other, fee_same,
}
use stellar_tipjar_contracts.TipJar.Solvency.Migration.{maybe_migrate_fee_balance-HasSpare}

module _ (this token asset payee : Address) (amount : ℤ) where
  abbrev payment : Transfer
  payment = record { asset = asset; sender = this; recipient = payee; amount = amount }

  -- The payee may be the contract itself.
  moved-payment : pos 0 ≤ℤ amount → pos 0 -ℤ counted token asset amount ≤ℤ moved token this payment
  moved-payment n =
      let self : nat_beq this this ≡ true = ground arith in
      elim (Bool-cases (nat_beq asset token)) [
        | inl same ↦ elim (Bool-cases (nat_beq payee this)) [
          | inl back ↦ rw (same, self, back, counted_in token asset amount same) (omega int_laws)
          | inr away ↦ rw (same, self, away, counted_in token asset amount same) (omega int_laws)
        ]
        | inr other ↦ rw (other, counted_out token asset amount other) (omega int_laws)
      ]

  pub payment-HasSpare :
      (s : State)
      → pos 0 ≤ℤ amount
      → IsSolvent this token s
      → HasSpare this token (pos 0 -ℤ counted token asset amount) (transfer_in payment s)
  payment-HasSpare s n h = record {
    balances = h.balances;
    old_balances = h.old_balances;
    fees = h.fees;
    old_fees = h.old_fees;
    rate = h.rate;
    unused = h.unused;
    covered = omega (int_laws, h.covered, moved-payment n);
  }

module _ (this token asset : Address) (spare amount : ℤ) (s : State)
    (h : HasSpare this token spare s) (n : pos 0 ≤ℤ amount) where
  pub debit-HasSpare :
      (creator : Address) (now : ℤ)
      → now ≡ get_or (pos 0) (get (creator, asset) s.balance)
      → amount ≤ℤ now
      → HasSpare this token
          (spare +ℤ counted token asset amount)
          (record s { balance = set (creator, asset) (sub_i128 now amount) s.balance })
  debit-HasSpare creator now e w = record {
    balances =
        set-AllValues IsAmount (creator, asset) _ s.balance (sub_i128-IsAmount now amount amt n w)
          h.balances;
    old_balances = h.old_balances;
    fees = h.fees;
    old_fees = h.old_fees;
    rate = h.rate;
    unused = h.unused;
    covered = elim (Bool-cases (nat_beq asset token)) [
      | inl same ↦ omega (
        int_laws,
        h.covered,
        parts_of_eq e,
        parts_of_eq left,
        parts_of_eq (counted_in token asset amount same),
        parts_of_eq (
            sum-set_counted (has_token token) (creator, asset) (sub_i128 now amount) s.balance
              same),
      )
      | inr other ↦ omega (
        int_laws,
        h.covered,
        parts_of_eq (counted_out token asset amount other),
        parts_of_eq (
            sum-set_skipped (has_token token) (creator, asset) (sub_i128 now amount) s.balance
              other),
      )
    ];
  }
    where
      amt : IsAmount now
      amt =
          rw e (get-AllValues IsAmount (pos 0) (creator, asset) s.balance IsAmount-zero h.balances)

      left : sub_i128 now amount ≡ now -ℤ amount
      left = sub_i128-eq now amount amt n w

  debit_fee-HasSpare :
      amount ≤ℤ get_or (pos 0) (get asset s.fee_balance_token)
      → HasSpare this token (spare +ℤ counted token asset amount) (record s {
        fee_balance_token =
            set asset
              (sub_i128 (get_or (pos 0) (get asset s.fee_balance_token)) amount)
              s.fee_balance_token;
      })
  debit_fee-HasSpare w = record {
    balances = h.balances;
    old_balances = h.old_balances;
    fees =
        set-AllValues IsAmount asset _ s.fee_balance_token (sub_i128-IsAmount _ amount amt n w)
          h.fees;
    old_fees = h.old_fees;
    rate = h.rate;
    unused = h.unused;
    covered = elim (Bool-cases (nat_beq asset token)) [
      | inl same ↦ omega (
        int_laws,
        h.covered,
        parts_of_eq left,
        parts_of_eq (counted_in token asset amount same),
        parts_of_eq (
            fee-set_same token asset
              (sub_i128 (get_or (pos 0) (get asset s.fee_balance_token)) amount) s.fee_balance_token
              same),
        parts_of_eq (fee_same token asset (pos 0) s.fee_balance_token same),
      )
      | inr other ↦ omega (
        int_laws,
        h.covered,
        parts_of_eq (counted_out token asset amount other),
        parts_of_eq (
            fee-set_other token asset
              (sub_i128 (get_or (pos 0) (get asset s.fee_balance_token)) amount) s.fee_balance_token
              other),
      )
    ];
  }
    where
      amt : IsAmount (get_or (pos 0) (get asset s.fee_balance_token))
      amt = get-AllValues IsAmount (pos 0) asset s.fee_balance_token IsAmount-zero h.fees

      left :
          sub_i128 (get_or (pos 0) (get asset s.fee_balance_token)) amount
          ≡ get_or (pos 0) (get asset s.fee_balance_token) -ℤ amount
      left = sub_i128-eq _ amount amt n w

-- The two tests on the amount of a withdrawal.
pub amount_tests : (a b : ℤ) → (leb_ℤ a (pos 0) || ltb_ℤ b a) ≡ false → (pos 0 ≤ℤ a) × (a ≤ℤ b)
amount_tests a b h = ground arith

module _ (token : Address) (env : Env) (caller asset : Address) (amount : Option ℤ) (s : State)
    (h : IsSolvent env.this token s) where
  -- A withdrawal of fees keeps the jar solvent.
  pub withdraw_fees-IsSolvent :
      After (IsSolvent env.this token) (withdraw_fees env caller asset amount s)
  unfolding withdraw_fees
  withdraw_fees-IsSolvent = After-auth _ env caller λ auth. After-gets _ _ (
      After-or_raise _ _ _ λ collector e. After-raise_if _ _ _ λ is_collector.
        After-then _ (IsSolvent env.this token) _
          (maybe_migrate_fee_balance-HasSpare env.this token (pos 0) asset s h)
          λ t m. After-gets _ _ (
            After-raise_if _ _ _ λ some_left. After-raise_if _ _ _ λ tests.
              let now : ℤ = get_or (pos 0) (get asset t.fee_balance_token) in
              let paid : ℤ = get_or now amount in
              let (n, w) = amount_tests paid now tests in
              After-transfer _ env _ λ accepted. After-modify _ _ (
                let d =
                  debit_fee-HasSpare env.this token asset (pos 0 -ℤ counted token asset paid) paid _
                    (payment-HasSpare env.this token asset collector paid t n m) n w in
                let z = HasSpare-weaken env.this token _ (pos 0) _ (omega int_laws) d in
                unfold ◌>>=◌ ◌>>◌ in ground (arith, z))))
