-- ===== src/TipJar/Allowance.antt =====
-- What a withdrawal leaves of an operator's allowance.
use stellar_tipjar_contracts.Common.{
  nat_eq, pair_eq, pair_beq, ℕ, not, nat_beq, get_or, ◌||◌, ◌≡◌, ap, ◌∙◌, Bool, true, false, Option,
  none, some, inl, inr, Bool-cases, arith, if◌then◌else◌,
}
use stellar_tipjar_contracts.Common.Int.{
  ℤ, pos, ◌-ℤ◌, ◌≤ℤ◌, leb_ℤ, ltb_ℤ, eqb_ℤ, IsAmount, sub_i128-eq,
}
use stellar_tipjar_contracts.Common.Map.{Map, get, get-set, get-remove}
use stellar_tipjar_contracts.Soroban.{
  Address, Env, After, pure, ◌>>=◌, ◌>>◌, After-then, After-gets, After-modify, After-raise_if,
  After-auth,
}
use stellar_tipjar_contracts.TipJar.Types.{DataKey}
use stellar_tipjar_contracts.TipJar.State.{State, bump}
use stellar_tipjar_contracts.TipJar.Internal.{maybe_migrate_creator_data}
use stellar_tipjar_contracts.TipJar.Withdrawals.{
  lower_allowance, use_operator, apply_payout_change, withdraw,
}
use stellar_tipjar_contracts.TipJar.Guards.{After-not_paused, After-initialized, After-transfer}
use stellar_tipjar_contracts.TipJar.View.Migration.{maybe_migrate_creator_data-IsMigrated}

-- What is left of an allowance: the entry goes when all of it is used.
abbrev pub left_of : ℤ → ℕ → ℤ → Option (ℤ × ℕ)
left_of allowance expiry amount =
    if eqb_ℤ (allowance -ℤ amount) (pos 0) then none else some (allowance -ℤ amount, expiry)

module _ (env : Env) (caller creator asset to : Address) (allowance amount : ℤ) (expiry : ℕ) where
  -- The operator has this entry left.
  abbrev IsLeft : State → Type 0
  IsLeft t = get (creator, caller) t.operator ≡ left_of allowance expiry amount

  lower_allowance-IsLeft :
      (s : State) → IsLeft (lower_allowance creator caller (allowance -ℤ amount) expiry s)
  unfolding lower_allowance
  lower_allowance-IsLeft s =
      let same : pair_beq (creator, caller) (creator, caller) ≡ true = ground arith in
      ground (
        arith,
        same,
        get-set (creator, caller) (creator, caller) (allowance -ℤ amount, expiry) s.operator,
        get-remove (creator, caller) (creator, caller) s.operator,
      )

  module _ (fits : IsAmount allowance) (positive : pos 0 ≤ℤ amount) where
    use_operator-IsLeft :
        (s : State)
        → After IsLeft (use_operator env creator caller amount (some (allowance, expiry)) s)
    unfolding use_operator ◌>>=◌ ◌>>◌
    use_operator-IsLeft s = elim (Bool-cases (ltb_ℤ allowance amount)) [
      | inl small ↦ ground arith
      | inr covers ↦
          rw (sub_i128-eq allowance amount fits positive (ground arith))
            (ground (arith, lower_allowance-IsLeft s))
    ]

    check_operator-IsLeft :
        (o : Option (ℤ × ℕ)) (s : State)
        → o ≡ some (allowance, expiry)
        → nat_beq caller creator ≡ false
        → After IsLeft (
            (if not (nat_beq caller creator)
                then use_operator env creator caller amount o
                else pure tt)
              s)
    check_operator-IsLeft o s e other = rw (e, other) (use_operator-IsLeft s)

  apply_payout_change-IsLeft :
      (o : Option (Address × ℕ)) (s : State)
      → IsLeft s
      → IsLeft (apply_payout_change env creator o s)
  unfolding apply_payout_change
  apply_payout_change-IsLeft none s h = h
  apply_payout_change-IsLeft (some (p, l)) s h = ground arith

  bump_if-IsLeft :
      (c : Bool) (k : DataKey) (s : State)
      → IsLeft s
      → After IsLeft ((if c then bump k else pure tt) s)
  bump_if-IsLeft c k s h = ground arith

  positive_amount : (b : ℤ) → (leb_ℤ amount (pos 0) || ltb_ℤ b amount) ≡ false → pos 0 ≤ℤ amount
  positive_amount b h = ground arith

  -- If another caller than the creator withdraws a given amount on an allowance in range and the call
  -- returns, the operator's entry holds the allowance less the amount, with the same expiry, or is gone
  -- where nothing is left.
  pub withdraw-IsLeft :
      (s : State)
      → IsAmount allowance
      → get (creator, caller) s.operator ≡ some (allowance, expiry)
      → nat_beq caller creator ≡ false
      → After
          (λ t. get (creator, caller) t.operator ≡ left_of allowance expiry amount)
          (withdraw env caller creator asset to (some amount) s)
  unfolding withdraw
  withdraw-IsLeft s fits entry other = After-auth _ env caller λ auth.
      After-not_paused _ env _ λ running. After-initialized _ λ live. After-modify _ _ (
        After-gets _ _ (
          let m = maybe_migrate_creator_data-IsMigrated creator asset creator asset s in
          let s1 : State = maybe_migrate_creator_data creator asset s in
          After-raise_if _ _ _ λ some_left. After-raise_if _ _ _ λ tests. After-gets _ _ (
            After-then _ IsLeft _
              (check_operator-IsLeft fits
                (positive_amount (get_or (pos 0) (get (creator, asset) s1.balance)) tests) _ s1
                (ap (λ (x : Map (Address × Address) (ℤ × ℕ)). get (creator, caller) x)
                    m.same_operator
                  ∙ entry)
                other)
              λ t1 h1. After-gets _ _ (
                After-modify _ _ (
                  After-gets _ _ (
                    After-then _ IsLeft _
                      (bump_if-IsLeft _ _ _
                        (apply_payout_change-IsLeft (get creator t1.pending_payout_change) t1 h1))
                      λ t2 h2. After-raise_if _ _ _ λ target.
                        After-transfer _ env _
                          λ accepted. unfold ◌>>=◌ ◌>>◌ in ground (arith, h2)))))))
