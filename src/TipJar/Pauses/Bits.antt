-- ===== src/TipJar/Pauses/Bits.antt =====
-- The bits of a pause word, whose values are below 4 (`PAUSE_FLAG_ALL` is 3).
use stellar_tipjar_contracts.Common.{
  ℕ, zero, suc, ◌<◌, ◌≡◌, refl, Bool, true, false, not, ◌&&◌, ◌||◌, bit_and, bit_or, ltb, nat_beq,
  arith,
}
use stellar_tipjar_contracts.Soroban.{Env}
use stellar_tipjar_contracts.TipJar.Types.{PauseState}
use stellar_tipjar_contracts.TipJar.Internal.{effective_pause_flags}
use stellar_tipjar_contracts.TipJar.Breaker.{not_u32}

-- Whether a word has a bit of the flag.
abbrev pub has : ℕ → ℕ → Bool
has flag word = not (nat_beq (bit_and word flag) 0)

same : Bool → Bool → Bool
same true b = b
same false b = not b

same-eq : (a b : Bool) → same a b ≡ true → a ≡ b
unfolding same
same-eq true true h = refl
same-eq true false h = cc
same-eq false true h = cc
same-eq false false h = refl

-- Whether a test holds of every number below a bound.
every_below : ℕ → (ℕ → Bool) → Bool
every_below zero p = true
every_below (suc n) p = p n && every_below n p

every_below_at : (n x : ℕ) (p : ℕ → Bool) → every_below n p ≡ true → x < n → p x ≡ true
unfolding every_below
every_below_at zero x p h l = absurd (omega arith)
every_below_at (suc n) x p h l = ground (arith, every_below_at n x p)

or_table :
    every_below 3 (λ f.
      every_below 4 (λ a. every_below 4 (λ b. same (has f (bit_or a b)) (has f a || has f b))))
    ≡ true
unfolding every_below same
or_table = refl

clear_table :
    every_below 3 (λ f.
      every_below 4
        (λ a. every_below 4 (λ b. same (has f (bit_and a (not_u32 b))) (has f a && not (has f b)))))
    ≡ true
unfolding every_below same
clear_table = refl

word_table :
    every_below 4 (λ a. every_below 4 (λ b. ltb (bit_or a b) 4 && ltb (bit_and a (not_u32 b)) 4))
    ≡ true
unfolding every_below
word_table = refl

module _ (f a b : ℕ) (l : f < 3) (m : a < 4) (n : b < 4) where
  -- Setting bits.
  pub has-bit_or : has f (bit_or a b) ≡ (has f a || has f b)
  has-bit_or =
      same-eq _ _
        (every_below_at 4 b _ (every_below_at 4 a _ (every_below_at 3 f _ or_table l) m) n)

  -- Clearing them.
  pub has-bit_and : has f (bit_and a (not_u32 b)) ≡ (has f a && not (has f b))
  has-bit_and =
      same-eq _ _
        (every_below_at 4 b _ (every_below_at 4 a _ (every_below_at 3 f _ clear_table l) m) n)

pub words-lt : (a b : ℕ) → a < 4 → b < 4 → (bit_or a b < 4) × (bit_and a (not_u32 b) < 4)
words-lt a b m n =
    let h = every_below_at 4 b _ (every_below_at 4 a _ word_table m) n in ground (arith, h)

pub has-zero : (f : ℕ) → f < 3 → has f 0 ≡ false
has-zero zero l = refl
has-zero (suc zero) l = refl
has-zero (suc (suc zero)) l = refl
has-zero (suc (suc (suc n))) l = absurd (omega arith)

-- The words of a pause state have no bits but the two.
pub record IsFlagged (p : PauseState) : Type 0 where
  pub admin_word : p.admin_flags < 4
  pub guardian_word : p.guardian_flags < 4

-- What a pause state blocks: what the admin has set, and what the guardian has, before it expires.
pub has-effective_pause_flags :
    (env : Env) (f : ℕ) (p : PauseState)
    → f < 3
    → IsFlagged p
    → has f (effective_pause_flags env p)
      ≡ (has f p.admin_flags || (ltb env.sequence p.guardian_expiry && has f p.guardian_flags))
unfolding effective_pause_flags
has-effective_pause_flags env f p l h = ground (
  arith,
  has-bit_or f p.admin_flags p.guardian_flags l h.admin_word h.guardian_word,
  has-zero f l,
)
