-- ===== src/TipJar/View/Receipts.antt =====
-- When a tip returns.
use stellar_tipjar_contracts.Common.{
  nat_eq, pair_eq, ℕ, ◌-◌, ◌*◌, ◌≤◌, ◌<◌, ◌≡◌, ap, ◌∙◌, Bool, true, false, Option, some, inl, inr,
  get_or, Option-cases, [], ◌∷◌, contains, arith, if◌then◌else◌,
}
use stellar_tipjar_contracts.Common.Int.{
  ℤ, pos, ◌+ℤ◌, IsAmount, fits_i128, checked_add, sub_i128, int_laws,
}
use stellar_tipjar_contracts.Common.Map.{get, get-set}
use stellar_tipjar_contracts.Soroban.{
  Address, Env, Returns, Effect, Succeeds, Succeeds-then, Succeeds-bind, Succeeds-both,
  Succeeds-gets, Succeeds-modify, Succeeds-raise_if, Succeeds-After, After, After-any, ok, pure,
  ◌>>=◌, ◌>>◌,
}
use stellar_tipjar_contracts.Common.Words.{sub_i128-pos}
use stellar_tipjar_contracts.TipJar.Types.{Event, max_fee_bps}
use stellar_tipjar_contracts.TipJar.View.Tips.{IsTip, tip-IsTip}
use stellar_tipjar_contracts.TipJar.State.{State, Call, publish, bump_instance}
use stellar_tipjar_contracts.TipJar.Internal.{
  is_paused, check_not_paused, fee_for, maybe_migrate_creator_data, maybe_migrate_fee_balance,
}
use stellar_tipjar_contracts.TipJar.Tips.{credit, accrue_fee, tip}
use stellar_tipjar_contracts.TipJar.FeeRate.{exact_fee, fee_for-eq, exact_fee-le, exact_fee-zero}
use stellar_tipjar_contracts.TipJar.View.{held, tipped, collected, fee_view}
use stellar_tipjar_contracts.TipJar.View.Migration.{
  maybe_migrate_creator_data-IsMigrated, balance-held, total-tipped,
}

plus_zero : (a : ℤ) → a +ℤ pos 0 ≡ a
plus_zero a = omega int_laws

module _ (creator asset : Address) (amount fee net : ℤ) (s : State) where
  migrate_fees-Succeeds :
      fits_i128 (collected asset s) ≡ true → Succeeds (maybe_migrate_fee_balance asset s)
  unfolding maybe_migrate_fee_balance fee_view checked_add ◌>>=◌ ◌>>◌
  migrate_fees-Succeeds h = ground arith

  migrate_fees-collected :
      After
        (λ t. get_or (pos 0) (get asset t.fee_balance_token) ≡ collected asset s)
        (maybe_migrate_fee_balance asset s)
  unfolding maybe_migrate_fee_balance fee_view checked_add ◌>>=◌ ◌>>◌
  migrate_fees-collected = elim (Option-cases s.fee_balance) [
    | inl gone ↦ ground (arith, gone, plus_zero (get_or (pos 0) (get asset s.fee_balance_token)))
    | inr (legacy, old) ↦ ground (
      arith,
      old,
      plus_zero (get_or (pos 0) (get asset s.fee_balance_token)),
      get-set asset asset (get_or (pos 0) (get asset s.fee_balance_token) +ℤ legacy)
          s.fee_balance_token,
    )
  ]

  credit-Succeeds :
      fits_i128 (get_or (pos 0) (get (creator, asset) s.balance) +ℤ net) ≡ true
      → fits_i128 (get_or (pos 0) (get (creator, asset) s.total) +ℤ amount) ≡ true
      → Succeeds (credit creator asset net amount s)
  unfolding credit checked_add ◌>>=◌ ◌>>◌
  credit-Succeeds h k = ground arith

  credit-fees :
      After
        (λ t.
          (t.token ≡ s.token)
          × (t.fee_balance ≡ s.fee_balance)
          × (t.fee_balance_token ≡ s.fee_balance_token))
        (credit creator asset net amount s)
  unfolding credit ◌>>=◌ ◌>>◌
  credit-fees = ground arith

  accrue_fee-Succeeds :
      fits_i128 (collected asset s) ≡ true
      → fits_i128 (collected asset s +ℤ fee) ≡ true
      → Succeeds (accrue_fee creator asset amount fee net s)
  unfolding accrue_fee
  accrue_fee-Succeeds h k =
      Succeeds-both (λ t. get_or (pos 0) (get asset t.fee_balance_token) ≡ collected asset s) _ _
        (migrate_fees-Succeeds h) migrate_fees-collected
        λ t e. unfold checked_add ◌>>=◌ ◌>>◌ in ground (arith, e, k)

module _ (env : Env) (sender creator asset admin : Address) (n : ℕ) (s : State)
    (signed : env.authorized sender ≡ true) (running : is_paused env 1 s ≡ false)
    (live : s.admin ≡ some admin) (allowed : contains asset (get_or [] s.allowed_tokens) ≡ true)
    (some_tip : 0 < n)
    (accepted : env.accepts
        (record { asset = asset; sender = sender; recipient = env.this; amount = pos n })
      ≡ true) where
  abbrev moved : State
  moved = maybe_migrate_creator_data creator asset s

  abbrev rate : ℕ
  rate = get_or 0 s.fee_bps

  abbrev fee_of : ℕ
  fee_of = exact_fee n rate

  fee_now :
      (t : State) → fits_i128 (pos (n * rate)) ≡ true → fee_for (pos n) rate t ≡ ok (pos fee_of, t)
  fee_now t fits = ground (arith, fee_for-eq n rate t, fits, exact_fee-zero n rate)

  -- The fee's part of a tip, after a credit that has left the fees as they were.
  charge-Succeeds :
      (b : Bool) (net : ℤ) (t : State)
      → fits_i128 (collected asset s) ≡ true
      → fits_i128 (collected asset s +ℤ pos fee_of) ≡ true
      → collected asset t ≡ collected asset s
      → Succeeds ((if b then accrue_fee creator asset (pos n) (pos fee_of) net else pure tt) t)
  charge-Succeeds true net t h k e =
      accrue_fee-Succeeds creator asset (pos n) (pos fee_of) net t (ap fits_i128 e ∙ h)
        (ap (λ z. fits_i128 (z +ℤ pos fee_of)) e ∙ k)
  charge-Succeeds false net t h k e = record { returns = tt }

  finish-Succeeds :
      (b : Bool) (net : ℤ) (t : State)
      → fits_i128 (collected asset s) ≡ true
      → fits_i128 (collected asset s +ℤ pos fee_of) ≡ true
      → collected asset t ≡ collected asset s
      → Succeeds (
          ((if b then accrue_fee creator asset (pos n) (pos fee_of) net else pure tt)
              >> (bump_instance >> publish (Event.tip_event creator asset sender (pos n))))
            t)
  finish-Succeeds b net t h k e =
      let finish : Call (Unit {0}) =
        bump_instance >> publish (Event.tip_event creator asset sender (pos n)) in
      Succeeds-both (λ u. Unit)
        (if b then accrue_fee creator asset (pos n) (pos fee_of) net else pure tt) finish
        (charge-Succeeds b net t h k e) (After-any _) λ u l. (unfold ◌>>=◌ ◌>>◌ in ground arith)

  tip-Succeeds :
      fits_i128 (pos (n * rate)) ≡ true
      → fits_i128 (held creator asset s +ℤ sub_i128 (pos n) (pos fee_of)) ≡ true
      → fits_i128 (tipped creator asset s +ℤ pos n) ≡ true
      → fits_i128 (collected asset s) ≡ true
      → fits_i128 (collected asset s +ℤ pos fee_of) ≡ true
      → Succeeds (tip env sender creator asset (pos n) s)
  unfolding tip
  tip-Succeeds fits room_balance room_total fits_fees room_fees =
      let m = maybe_migrate_creator_data-IsMigrated creator asset creator asset s in
      let paid : State = record moved {
        log =
            Effect.transferred
              (record { asset = asset; sender = sender; recipient = env.this; amount = pos n })
            ∷ moved.log;
      } in
      Succeeds-then s _ _ (ground (arith, signed)) (
        Succeeds-then s _ _ (unfold check_not_paused ◌>>=◌ ◌>>◌ in ground (arith, running)) (
          Succeeds-raise_if _ _ _ (ground (arith, some_tip)) (
            Succeeds-then s _ _ (unfold ◌>>=◌ ◌>>◌ in ground (arith, live)) (
              Succeeds-then s _ _ (unfold ◌>>=◌ ◌>>◌ in ground (arith, allowed)) (
                Succeeds-modify _ _ (
                  Succeeds-gets _ _ (
                    Succeeds-bind (pos fee_of) moved _ _
                      (ap (λ (r : Option ℕ). fee_for (pos n) (get_or 0 r) moved) m.same_rate
                        ∙ fee_now moved fits)
                      (Succeeds-then paid _ _ (ground (arith, accepted)) (
                        Succeeds-both _ _ _
                          (credit-Succeeds creator asset (pos n) (pos fee_of)
                            (sub_i128 (pos n) (pos fee_of)) paid
                            (ap (λ z. fits_i128 (z +ℤ sub_i128 (pos n) (pos fee_of)))
                                (balance-held creator asset s)
                              ∙ room_balance)
                            (ap (λ z. fits_i128 (z +ℤ pos n)) (total-tipped creator asset s)
                              ∙ room_total))
                          (credit-fees creator asset (pos n) (pos fee_of)
                            (sub_i128 (pos n) (pos fee_of)) paid)
                          λ t e.
                            let same : collected asset t ≡ collected asset s =
                              cc (e.0, e.1, e.2, m.same_collected) in
                            finish-Succeeds _ _ t fits_fees room_fees same)))))))))

room-le :
    (a : ℤ) (x y : ℕ)
    → y ≤ x
    → IsAmount a
    → fits_i128 (a +ℤ pos x) ≡ true
    → fits_i128 (a +ℤ pos y) ≡ true
unfolding fits_i128 ◌+ℤ◌
room-le a x y h k l = ground arith

net-eq : (x y : ℕ) → y ≤ x → fits_i128 (pos x) ≡ true → sub_i128 (pos x) (pos y) ≡ pos (x - y)
unfolding fits_i128
net-eq x y h k = sub_i128-pos x y h (ground (arith, k))

module _ (env : Env) (sender creator asset admin : Address) (n : ℕ) (s : State) where
  -- A tip returns, with what `IsTip` says of every creator and token, where: its sender has signed, tips
  -- are not paused, the jar is set up and lists the token, the amount is positive, the host lets the
  -- transfer through, the rate is within its bound, the fee's product fits the word, and the creator's
  -- balance and total and the token's fees are amounts that fit it with the tip added.
  pub tip-Returns :
      (c k : Address)
      → env.authorized sender ≡ true
      → is_paused env 1 s ≡ false
      → s.admin ≡ some admin
      → contains asset (get_or [] s.allowed_tokens) ≡ true
      → 0 < n
      → env.accepts
          (record { asset = asset; sender = sender; recipient = env.this; amount = pos n })
        ≡ true
      → get_or 0 s.fee_bps ≤ max_fee_bps
      → fits_i128 (pos n) ≡ true
      → fits_i128 (pos (n * get_or 0 s.fee_bps)) ≡ true
      → IsAmount (held creator asset s) × (fits_i128 (held creator asset s +ℤ pos n) ≡ true)
      → IsAmount (tipped creator asset s) × (fits_i128 (tipped creator asset s +ℤ pos n) ≡ true)
      → IsAmount (collected asset s) × (fits_i128 (collected asset s +ℤ pos n) ≡ true)
      → Returns
          (IsTip creator asset c k (pos n) (pos (exact_fee n (get_or 0 s.fee_bps))) s)
          (tip env sender creator asset (pos n) s)
  tip-Returns c k signed running live allowed some_tip accepted bounded word fits balance_room
        total_room fee_room =
      let fee = exact_fee n (get_or 0 s.fee_bps) in
      let le : fee ≤ n = exact_fee-le n (get_or 0 s.fee_bps) (omega (arith, bounded)) in
      let room : fits_i128 (held creator asset s +ℤ pos (n - fee)) ≡ true =
        room-le (held creator asset s) n (n - fee) (omega arith) balance_room.0 balance_room.1 in
      Succeeds-After _
        (tip-Succeeds env sender creator asset admin n s signed running live allowed some_tip
          accepted fits
          (ap (λ z. fits_i128 (held creator asset s +ℤ z)) (net-eq n fee le word) ∙ room)
          total_room.1 fee_room.0.1 (room-le (collected asset s) n fee le fee_room.0 fee_room.1))
        (tip-IsTip env sender creator asset (pos n) s c k word bounded)
