-- ===== src/TipJar/View/Tips.antt =====
-- What a tip does to every creator's view and to the fees.
use stellar_tipjar_contracts.Common.{
  nat_eq, pair_eq, ℕ, ltb, ◌≤◌, ◌≡◌, refl, ap, ◌∙◌, true, false, Bool, Option, none, inl, inr,
  nat_beq, get_or, Bool-cases, Option-cases, if◌then◌else◌, arith,
}
use stellar_tipjar_contracts.Common.Int.{
  ℤ, pos, pos_part, ◌+ℤ◌, ◌-ℤ◌, int_laws, parts_of_eq, IsAmount, fits_i128, checked_add,
  checked_add-eq_some, sub_i128, sub_i128-eq,
}
use stellar_tipjar_contracts.Common.Map.{get}
use stellar_tipjar_contracts.Soroban.{
  Address, Env, Transfer, After, pure, ◌>>=◌, ◌>>◌, After-then, After-gets, After-or_raise,
  After-modify, After-raise_if, After-auth,
}
use stellar_tipjar_contracts.TipJar.Types.{max_fee_bps}
use stellar_tipjar_contracts.TipJar.State.{State, transfer_in}
use stellar_tipjar_contracts.TipJar.Internal.{
  is_legacy_token, maybe_migrate_creator_data, maybe_migrate_fee_balance,
}
use stellar_tipjar_contracts.TipJar.Tips.{credit, accrue_fee, tip}
use stellar_tipjar_contracts.TipJar.Guards.{
  After-not_paused, After-initialized, After-token_allowed, After-transfer,
}
use stellar_tipjar_contracts.TipJar.FeeRate.{IsFee, After-fee, exact_fee, exact_fee-zero}
use stellar_tipjar_contracts.TipJar.View.{
  old_entry, held, tipped, collected, fee_view-move, fee_view-add, added, view-add,
}
use stellar_tipjar_contracts.TipJar.View.Migration.{
  IsMigrated, maybe_migrate_creator_data-IsMigrated,
}

-- The two views at `c` and `k`, and the fees, after `credit`.
pub record IsCredited (creator asset c k : Address) (net_amount amount : ℤ) (s t : State)
    : Type 0 where
  pub now_held : held c k t ≡ added (creator, asset) (c, k) net_amount (held c k s)
  pub now_tipped : tipped c k t ≡ added (creator, asset) (c, k) amount (tipped c k s)
  pub same_collected : collected k t ≡ collected k s

-- What `credit` does where the old entries are gone.
module _ (creator asset c k : Address) (s : State)
    (no_balance : old_entry s.token s.creator_balance creator asset ≡ none)
    (no_total : old_entry s.token s.creator_total creator asset ≡ none) where
  credit-IsCredited :
      (net_amount amount : ℤ)
      → After
          (IsCredited creator asset c k net_amount amount s)
          (credit creator asset net_amount amount s)
  unfolding credit
  credit-IsCredited net_amount amount = After-gets _ _ (
      After-gets _ _ (
        After-or_raise _ _ _ λ b e. After-or_raise _ _ _ λ z f.
          let x =
            view-add s.token s.creator_balance s.balance creator asset b net_amount c k no_balance
              (checked_add-eq_some _ net_amount b e).0 in
          let y =
            view-add s.token s.creator_total s.total creator asset z amount c k no_total
              (checked_add-eq_some _ amount z f).0 in
          unfold ◌>>=◌ ◌>>◌ in ground (arith, x, y)))

add_zero_if : (b : Bool) (x fee : ℤ) → fee ≡ pos 0 → x ≡ (if b then x +ℤ fee else x)
add_zero_if true x fee e = omega (int_laws, parts_of_eq e)
add_zero_if false x fee e = refl

-- What `accrue_fee` does: it adds the fee to the token's, and leaves the creators' amounts alone.
module _ (asset c k : Address) (s : State) where
  pub record IsAccrued (fee : ℤ) (t : State) : Type 0 where
    pub same_held : held c k t ≡ held c k s
    pub same_tipped : tipped c k t ≡ tipped c k s
    pub now_collected :
        collected k t ≡ (if nat_beq asset k then collected k s +ℤ fee else collected k s)

  -- What moving the old fee counter leaves as it was.
  record IsMoved (t : State) : Type 0 where
    held_moved : held c k t ≡ held c k s
    tipped_moved : tipped c k t ≡ tipped c k s
    collected_moved : collected k t ≡ collected k s

  maybe_migrate_fee_balance-IsMoved : After IsMoved (maybe_migrate_fee_balance asset s)
  unfolding maybe_migrate_fee_balance
  maybe_migrate_fee_balance-IsMoved = elim (Option-cases s.fee_balance) [
    | inl e ↦ ground arith
    | inr (legacy, e) ↦ elim (Bool-cases (is_legacy_token asset s.token)) [
      | inr other ↦ ground arith
      | inl l ↦
          elim (Option-cases
            (checked_add (get_or (pos 0) (get asset s.fee_balance_token)) legacy)) [
              | inl full ↦ ground arith
              | inr (v, x) ↦ ground (
                arith,
                fee_view-move s.token s.fee_balance s.fee_balance_token asset v k legacy
                    (checked_add-eq_some _ legacy v x).0 e l,
              )
            ]
    ]
  ]

  accrue_fee-IsAccrued :
      (creator : Address) (amount fee net_amount : ℤ)
      → After (IsAccrued fee) (accrue_fee creator asset amount fee net_amount s)
  unfolding accrue_fee
  accrue_fee-IsAccrued creator amount fee net_amount =
      After-then _ IsMoved _ maybe_migrate_fee_balance-IsMoved λ t m. After-gets _ _ (
        After-or_raise _ _ _ λ v e.
          let x =
            fee_view-add t.token t.fee_balance t.fee_balance_token asset v k fee
              (checked_add-eq_some _ fee v e).0 in
          unfold ◌>>=◌ ◌>>◌ in ground (arith, x, m.held_moved, m.tipped_moved, m.collected_moved))

  fee_step-IsAccrued :
      (creator : Address) (amount fee net_amount : ℤ) (bps : ℕ)
      → IsFee amount bps fee
      → After
          (IsAccrued fee)
          ((if ltb 0 bps then accrue_fee creator asset amount fee net_amount else pure tt) s)
  fee_step-IsAccrued creator amount fee net_amount bps f = elim (Bool-cases (ltb 0 bps)) [
    | inl charged ↦ rw charged (accrue_fee-IsAccrued creator amount fee net_amount)
    | inr free ↦
        let zero_fee : fee ≡ pos 0 =
          f.exact ∙ ap pos (exact_fee-zero (pos_part amount) bps (ground arith)) in
        rw free (record {
          holds = record {
            same_held = refl;
            same_tipped = refl;
            now_collected = add_zero_if (nat_beq asset k) (collected k s) fee zero_fee;
          };
        })
  ]

-- What a tip does, as the queries show it at any creator and token.
pub record IsTip (creator asset c k : Address) (amount fee : ℤ) (s t : State) : Type 0 where
  pub now_held : held c k t ≡ added (creator, asset) (c, k) (amount -ℤ fee) (held c k s)
  pub now_tipped : tipped c k t ≡ added (creator, asset) (c, k) amount (tipped c k s)
  pub now_collected :
      collected k t ≡ (if nat_beq asset k then collected k s +ℤ fee else collected k s)

transfer_in-IsMigrated :
    {creator asset c k : Address} {s s1 : State} (x : Transfer)
    → IsMigrated creator asset c k s s1
    → IsMigrated creator asset c k s (transfer_in x s1)
transfer_in-IsMigrated x m = ground arith

module _ {creator asset c k : Address} {amount fee net_amount exact : ℤ} {s s1 t2 t3 : State}
    (m : IsMigrated creator asset c k s s1) where
  IsTip-summary :
      IsCredited creator asset c k net_amount amount s1 t2
      → IsAccrued asset c k t2 fee t3
      → fee ≡ exact
      → net_amount ≡ amount -ℤ fee
      → IsTip creator asset c k amount exact s t3
  IsTip-summary h2 h3 e n = record {
    now_held =
        h3.same_held
        ∙ h2.now_held
        ∙ ap (λ (x : ℤ). added (creator, asset) (c, k) x (held c k s1))
            (n ∙ ap (λ (y : ℤ). amount -ℤ y) e)
        ∙ ap (added (creator, asset) (c, k) (amount -ℤ exact)) m.same_held;
    now_tipped =
        h3.same_tipped ∙ h2.now_tipped ∙ ap (added (creator, asset) (c, k) amount) m.same_tipped;
    now_collected =
        h3.now_collected
        ∙ ap (λ (x : ℤ). if nat_beq asset k then x +ℤ fee else x)
            (h2.same_collected ∙ m.same_collected)
        ∙ ap (λ (y : ℤ). if nat_beq asset k then collected k s +ℤ y else collected k s) e;
  }

module _ (env : Env) (sender creator asset : Address) (amount : ℤ) (s : State) where
  -- If a tip of a word returns, at a rate within its bound: at every creator `c` and token `k`, the
  -- amount withdrawable is as before, plus the tip less the exact fee for the tip's creator and token;
  -- the total likewise plus the whole tip; and the token's fees have grown by the fee.
  pub tip-IsTip :
      (c k : Address)
      → fits_i128 amount ≡ true
      → get_or 0 s.fee_bps ≤ max_fee_bps
      → After
          (IsTip creator asset c k amount
            (pos (exact_fee (pos_part amount) (get_or 0 s.fee_bps)))
            s)
          (tip env sender creator asset amount s)
  unfolding tip
  tip-IsTip c k word rate = After-auth _ env sender λ auth. After-not_paused _ env _ λ running.
      After-raise_if _ _ _ λ positive.
        let fits : IsAmount amount = (ground arith, word) in
        After-initialized _ λ live. After-token_allowed _ asset λ allowed. After-modify _ _ (
          After-gets _ _ (
            let m = maybe_migrate_creator_data-IsMigrated creator asset c k s in
            let s1 : State = maybe_migrate_creator_data creator asset s in
            let bps : ℕ = get_or 0 s1.fee_bps in
            After-fee amount bps _ fits.0 (rw m.same_rate (omega (arith, rate))) λ fee f.
              After-transfer _ env _ λ accepted.
                let s2 : State =
                  transfer_in
                    (record {
                      asset = asset;
                      sender = sender;
                      recipient = env.this;
                      amount = amount;
                    })
                    s1 in
                After-then _ (IsCredited creator asset c k (sub_i128 amount fee) amount s2) _
                  (credit-IsCredited creator asset c k s2 m.no_old_balance m.no_old_total
                    (sub_i128 amount fee) amount)
                  λ t2 h2.
                    After-then _ (IsAccrued asset c k t2 fee) _
                      (fee_step-IsAccrued asset c k t2 creator amount fee (sub_i128 amount fee) bps
                        f)
                      λ t3 h3.
                        unfold ◌>>=◌ ◌>>◌ in
                        ground (
                          arith,
                          IsTip-summary (transfer_in-IsMigrated _ m) h2 h3
                              (f.exact
                                ∙ ap
                                    (λ (r : Option ℕ).
                                      pos (exact_fee (pos_part amount) (get_or 0 r)))
                                    m.same_rate)
                              (sub_i128-eq amount fee fits f.nonneg f.within),
                        )))
