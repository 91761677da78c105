-- ===== src/TipJar/FeeRate.antt =====
-- `fee_for` and `preview_fee`: what the protocol takes of an amount.
use stellar_tipjar_contracts.Common.{
  ℕ, ◌*◌, ◌/◌, ◌≤◌, ◌≡◌, sym, ap, true, false, inl, inr, nat_beq, nat_beq_iff, Bool-cases, arith,
  if◌then◌else◌,
}
use stellar_tipjar_contracts.Common.Int.{
  ℤ, pos, negsuc, pos_part, ◌≤ℤ◌, ◌-ℤ◌, ◌*ℤ◌, IsAmount, fits_i128, quot, checked_mul, checked_div,
  sub_i128-eq,
}
use stellar_tipjar_contracts.Soroban.{After, ok, err, panic, ◌>>=◌, ◌>>◌}
use stellar_tipjar_contracts.TipJar.Types.{fee_overflow}
use stellar_tipjar_contracts.TipJar.State.{State, Call}
use stellar_tipjar_contracts.TipJar.Internal.{fee_for}
use stellar_tipjar_contracts.TipJar.Fees.{preview_fee}

-- The fee on a whole amount, without regard to the word's size.
abbrev pub exact_fee : ℕ → ℕ → ℕ
exact_fee n bps = n * bps / 10_000

pub exact_fee-le : (n bps : ℕ) → bps ≤ 10_000 → exact_fee n bps ≤ n
exact_fee-le n bps h = grind arith

pub exact_fee-zero : (n bps : ℕ) → nat_beq bps 0 ≡ true → exact_fee n bps ≡ 0
exact_fee-zero n bps h = rw ((nat_beq_iff bps 0).0 h) (omega arith)

fits_quotient : (m : ℕ) → fits_i128 (pos m) ≡ true → fits_i128 (pos (m / 10_000)) ≡ true
unfolding fits_i128
fits_quotient m h = ground arith

-- The fee on an amount from 0 on is `amount * bps / 10_000`, rounded down, and the call fails just
-- where the rate is not 0 and the product leaves the word.
pub fee_for-eq :
    (n bps : ℕ) (s : State)
    → fee_for (pos n) bps s ≡ (
        if nat_beq bps 0
        then ok (pos 0, s)
        else if fits_i128 (pos (n * bps))
        then ok (pos (exact_fee n bps), s)
        else err (panic fee_overflow))
unfolding fee_for checked_mul checked_div quot ◌*ℤ◌
fee_for-eq n bps s = ground (arith, fits_quotient (n * bps))

-- What a fee that was charged satisfies.
pub record IsFee (amount : ℤ) (bps : ℕ) (fee : ℤ) : Type 0 where
  pub nonneg : pos 0 ≤ℤ fee
  pub within : fee ≤ℤ amount
  pub exact : fee ≡ pos (exact_fee (pos_part amount) bps)

exact_fee-IsFee :
    (n bps : ℕ) → bps ≤ 10_000 → nat_beq bps 0 ≡ false → IsFee (pos n) bps (pos (exact_fee n bps))
exact_fee-IsFee n bps b charged = ground (arith, exact_fee-le n bps b)

module _ {ℓ} {B : Type 0} {Q : State → Type ℓ} {s : State} where
  pub After-fee :
      (amount : ℤ) (bps : ℕ) (f : ℤ → Call B)
      → pos 0 ≤ℤ amount
      → bps ≤ 10_000
      → ((fee : ℤ) → IsFee amount bps fee → After Q (f fee s))
      → After Q ((fee_for amount bps >>= f) s)
  unfolding ◌>>=◌
  After-fee (negsuc n) bps f p b k = absurd (omega arith)
  After-fee (pos n) bps f p b k = elim (Bool-cases (nat_beq bps 0)) [
    | inl free ↦ ground (arith, fee_for-eq n bps s, k (pos 0) (no_fee free))
    | inr charged ↦
        ground
          (arith, fee_for-eq n bps s, k (pos (exact_fee n bps)) (exact_fee-IsFee n bps b charged))
  ]
    where
      no_fee : nat_beq bps 0 ≡ true → IsFee (pos n) bps (pos 0)
      no_fee free = record {
        nonneg = omega arith;
        within = omega arith;
        exact = ap pos (sym (exact_fee-zero n bps free));
      }

-- At a rate up to the whole, where amount and product fit the word, the preview returns the exact fee
-- and what is left of the amount.
pub preview_fee-eq :
    (n bps : ℕ) (s : State)
    → bps ≤ 10_000
    → fits_i128 (pos (n * bps)) ≡ true
    → IsAmount (pos n)
    → preview_fee (pos n) bps s ≡ ok ((pos (exact_fee n bps), pos n -ℤ pos (exact_fee n bps)), s)
unfolding preview_fee ◌>>=◌ ◌>>◌
preview_fee-eq n bps s b w a = ground (
  arith,
  fee_for-eq n bps s,
  exact_fee-zero n bps,
  sub_i128-eq (pos n) (pos (exact_fee n bps)) a (omega arith) (omega (arith, exact_fee-le n bps b)),
)
