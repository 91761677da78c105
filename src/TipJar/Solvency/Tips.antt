-- ===== src/TipJar/Solvency/Tips.antt =====
-- Solvency across `tip`.
use stellar_tipjar_contracts.Common.{
  nat_eq, pair_eq, ℕ, ltb, ◌≡◌, ◌≢◌, sym, ◌∙◌, ap, true, false, inl, inr, nat_beq, Bool-cases,
  arith, if◌then◌else◌,
}
use mathlib.Core.Bool.{false≢true}
use stellar_tipjar_contracts.Common.Int.{
  ℤ, pos, ◌≤ℤ◌, ◌+ℤ◌, ◌-ℤ◌, int_laws, parts_of_eq, IsAmount, sub_i128, sub_i128-eq,
  sub_i128-IsAmount, fits_i128,
}
use stellar_tipjar_contracts.Soroban.{
  Address, Env, After, Transfer, moved, custody, ◌>>=◌, ◌>>◌, After-map, pure, After-gets,
  After-then, After-modify, After-raise_if, After-auth,
}
use stellar_tipjar_contracts.TipJar.State.{State, transfer}
use stellar_tipjar_contracts.TipJar.Tips.{accrue_fee, tip}
use stellar_tipjar_contracts.TipJar.Guards.{
  After-not_paused, After-initialized, After-token_allowed,
}
use stellar_tipjar_contracts.TipJar.FeeRate.{IsFee, After-fee}
use stellar_tipjar_contracts.TipJar.Books.{
  HasSpare-weaken, HasSpare, IsSolvent, counted, counted_in, counted_out, owed,
}
use stellar_tipjar_contracts.TipJar.Solvency.Migration.{maybe_migrate_creator_data-HasSpare}
use stellar_tipjar_contracts.TipJar.Solvency.Credits.{credit-HasSpare, accrue_fee-HasSpare}

-- The token contract has moved the amount to the jar.
module _ (this token asset sender : Address) (amount : ℤ) where
  abbrev tip_transfer : Transfer
  tip_transfer = record { asset = asset; sender = sender; recipient = this; amount = amount }

  moved-tip_transfer : sender ≢ this → moved token this tip_transfer ≡ counted token asset amount
  moved-tip_transfer ne =
      let self : nat_beq this this ≡ true = ground arith in
      let differs : nat_beq sender this ≡ false = ground arith in
      elim (Bool-cases (nat_beq asset token)) [
        | inl same ↦ rw (same, self, differs, counted_in token asset amount same) (omega int_laws)
        | inr other ↦ rw (other, counted_out token asset amount other)
      ]

  transfer-HasSpare :
      (env : Env) (s : State)
      → sender ≢ this
      → IsSolvent this token s
      → After (HasSpare this token (counted token asset amount)) (transfer env tip_transfer s)
  transfer-HasSpare env s ne h =
      let c : owed token s +ℤ counted token asset amount
          ≤ℤ custody token this s.log +ℤ moved token this tip_transfer =
        omega (int_laws, h.covered, parts_of_eq (moved-tip_transfer ne)) in
      ground (arith, c)

-- What is left of the amount once the net amount and the fee are on the books.
spare_end :
    (token asset : Address) (amount fee : ℤ)
    → IsAmount amount
    → pos 0 ≤ℤ fee
    → fee ≤ℤ amount
    → pos 0
      ≤ℤ counted token asset amount
        -ℤ counted token asset (sub_i128 amount fee)
        -ℤ counted token asset fee
spare_end token asset amount fee a n w = elim (Bool-cases (nat_beq asset token)) [
  | inl same ↦
      rw
        (
          counted_in token asset amount same,
          counted_in token asset (sub_i128 amount fee) same,
          counted_in token asset fee same,
          sub_i128-eq amount fee a n w,
        )
        (omega int_laws)
  | inr other ↦
      rw
        (
          counted_out token asset amount other,
          counted_out token asset (sub_i128 amount fee) other,
          counted_out token asset fee other,
        )
        (omega int_laws)
]

-- The fee goes on the books, or is zero.
module _ (this token creator asset : Address) (amount fee : ℤ) (bps : ℕ) (s : State) where
  abbrev net_amount : ℤ
  net_amount = sub_i128 amount fee

  fee_step-IsSolvent :
      IsAmount amount
      → IsFee amount bps fee
      → HasSpare this token (counted token asset amount -ℤ counted token asset net_amount) s
      → After
          (IsSolvent this token)
          ((if ltb 0 bps then accrue_fee creator asset amount fee net_amount else pure tt) s)
  fee_step-IsSolvent a f h = elim (Bool-cases (ltb 0 bps)) [
    | inl charged ↦ rw charged (
        After-map _ (λ t k. HasSpare-weaken this token _ (pos 0) t left k)
          (accrue_fee-HasSpare this token asset _ creator amount fee net_amount s f.nonneg h))
    | inr free ↦ rw free (record {
      holds = HasSpare-weaken this token _ (pos 0) s (omega (int_laws, left, counted_zero)) h;
    })
  ]
    where
      left :
          pos 0
          ≤ℤ counted token asset amount -ℤ counted token asset net_amount -ℤ counted token asset fee
      left = spare_end token asset amount fee a f.nonneg f.within

      counted_zero : pos 0 ≤ℤ counted token asset fee
      counted_zero = elim (Bool-cases (nat_beq asset token)) [
        | inl same ↦ rw (counted_in token asset fee same) f.nonneg
        | inr other ↦ rw (counted_out token asset fee other) (omega arith)
      ]

module _ (token : Address) (env : Env) (sender creator asset : Address) (amount : ℤ)
    (s : State) where
  -- A tip keeps the jar solvent.
  pub tip-IsSolvent :
      env.authorized env.this ≡ false
      → fits_i128 amount ≡ true
      → IsSolvent env.this token s
      → After (IsSolvent env.this token) (tip env sender creator asset amount s)
  unfolding tip
  tip-IsSolvent outside word h = After-auth _ env sender λ auth.
      let other : sender ≢ env.this =
        λ e. false≢true (sym outside ∙ ap env.authorized (sym e) ∙ auth) in
      After-not_paused _ env _ λ running. After-raise_if _ _ _ λ positive.
        let fits : IsAmount amount = (ground arith, word) in
        After-initialized _ λ live. After-token_allowed _ asset λ allowed. After-modify _ _ (
          After-gets _ _ (
            let m = maybe_migrate_creator_data-HasSpare env.this token (pos 0) creator asset s h in
            After-fee amount _ _ fits.0 (omega (arith, m.rate)) λ fee f.
              let net = sub_i128-IsAmount amount fee fits f.nonneg f.within in
              After-then _ (HasSpare env.this token (counted token asset amount)) _
                (transfer-HasSpare env.this token asset sender amount env _ other m)
                λ t1 h1.
                  After-then _
                    (HasSpare env.this token
                      (counted token asset amount -ℤ counted token asset (sub_i128 amount fee)))
                    _
                    (credit-HasSpare env.this token asset (counted token asset amount) t1 h1 creator
                      (sub_i128 amount fee) amount net.0)
                    λ t2 h2.
                      After-then _ (IsSolvent env.this token) _
                        (fee_step-IsSolvent env.this token creator asset amount fee _ t2 fits f h2)
                        λ t3 h3. unfold ◌>>=◌ ◌>>◌ in ground arith))
