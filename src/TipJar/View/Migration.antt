-- ===== src/TipJar/View/Migration.antt =====
-- The lazy migration of a creator's entries, as the views show it.
use stellar_tipjar_contracts.Common.{
  get_or, nat_eq, pair_eq, ◌≡◌, refl, sym, ap, ◌∙◌, true, false, Option, none, some, inl, inr,
  Bool-cases, arith,
}
use stellar_tipjar_contracts.Common.Int.{ℤ, pos}
use stellar_tipjar_contracts.Common.Map.{Map, get, remove, get-remove}
use stellar_tipjar_contracts.Soroban.{Address, ok}
use stellar_tipjar_contracts.TipJar.State.{State}
use stellar_tipjar_contracts.TipJar.Internal.{
  is_legacy_token, migrate_balance, migrate_total, maybe_migrate_creator_data,
}
use stellar_tipjar_contracts.TipJar.Tips.{get_balance, get_total_tips}
use stellar_tipjar_contracts.TipJar.View.{collected, old_entry, held, tipped, view-now, view-move}

-- What a migration of `creator` and `asset` has done, as seen at `c` and `k`.
pub record IsMigrated (creator asset c k : Address) (s t : State) : Type 0 where
  pub same_held : held c k t ≡ held c k s
  pub same_tipped : tipped c k t ≡ tipped c k s
  pub no_old_balance : old_entry t.token t.creator_balance creator asset ≡ none
  pub no_old_total : old_entry t.token t.creator_total creator asset ≡ none
  pub same_rate : t.fee_bps ≡ s.fee_bps
  pub same_collected : collected k t ≡ collected k s
  pub same_operator : t.operator ≡ s.operator
  pub same_payout : t.payout_address ≡ s.payout_address
  pub same_pending : t.pending_payout_change ≡ s.pending_payout_change

module _ (creator asset c k : Address) (s : State) where
  old_entry-none :
      (old : Map Address ℤ) → get creator old ≡ none → old_entry s.token old creator asset ≡ none
  unfolding old_entry
  old_entry-none old e = ground arith

  old_entry_removed :
      (old : Map Address ℤ) → old_entry s.token (remove creator old) creator asset ≡ none
  unfolding old_entry
  old_entry_removed old = ground (arith, get-remove creator creator old)

  old_entry_other :
      (old : Map Address ℤ)
      → is_legacy_token asset s.token ≡ false
      → old_entry s.token old creator asset ≡ none
  unfolding old_entry
  old_entry_other old e = rw e

  migrate_total-IsMigrated :
      (o : Option ℤ)
      → get creator s.creator_total ≡ o
      → is_legacy_token asset s.token ≡ true
      → old_entry s.token s.creator_balance creator asset ≡ none
      → IsMigrated creator asset c k s (migrate_total creator asset o s)
  unfolding migrate_total
  migrate_total-IsMigrated none e l b = ground (arith, old_entry-none s.creator_total e)
  migrate_total-IsMigrated (some v) e l b = ground (
    arith,
    old_entry_removed s.creator_total,
    view-move s.token s.creator_total s.total creator asset v c k l e,
  )

module _ (creator asset c k : Address) (s : State) where
  both-IsMigrated :
      (o : Option ℤ)
      → get creator s.creator_balance ≡ o
      → is_legacy_token asset s.token ≡ true
      → let t = migrate_balance creator asset o s in
        IsMigrated creator asset c k s (migrate_total creator asset (get creator t.creator_total) t)
  unfolding migrate_balance
  both-IsMigrated none e l =
      migrate_total-IsMigrated creator asset c k s _ refl l
        (old_entry-none creator asset c k s s.creator_balance e)
  both-IsMigrated (some v) e l = ground (
    arith,
    view-move s.token s.creator_balance s.balance creator asset v c k l e,
    migrate_total-IsMigrated creator asset c k (migrate_balance creator asset (some v) s)
        (get creator s.creator_total) refl l
        (old_entry_removed creator asset c k s s.creator_balance),
  )

  pub maybe_migrate_creator_data-IsMigrated :
      IsMigrated creator asset c k s (maybe_migrate_creator_data creator asset s)
  unfolding maybe_migrate_creator_data
  maybe_migrate_creator_data-IsMigrated = elim (Bool-cases (is_legacy_token asset s.token)) [
    | inl l ↦ rw l (both-IsMigrated _ refl l)
    | inr other ↦ rw other (record {
      same_held = refl;
      same_tipped = refl;
      no_old_balance = old_entry_other creator asset c k s s.creator_balance other;
      no_old_total = old_entry_other creator asset c k s s.creator_total other;
      same_rate = refl;
      same_collected = refl;
      same_operator = refl;
      same_payout = refl;
      same_pending = refl;
    })
  ]

-- After the migration the entries of the creator and the token are the views.
module _ (creator asset : Address) (s : State) where
  pub balance-held :
      get_or (pos 0) (get (creator, asset) (maybe_migrate_creator_data creator asset s).balance)
      ≡ held creator asset s
  balance-held =
      let m = maybe_migrate_creator_data-IsMigrated creator asset creator asset s in
      sym (view-now _ _ _ creator asset m.no_old_balance) ∙ m.same_held

  pub total-tipped :
      get_or (pos 0) (get (creator, asset) (maybe_migrate_creator_data creator asset s).total)
      ≡ tipped creator asset s
  total-tipped =
      let m = maybe_migrate_creator_data-IsMigrated creator asset creator asset s in
      sym (view-now _ _ _ creator asset m.no_old_total) ∙ m.same_tipped

-- The queries return the creator's old entry where there is one for the token, else the new one or 0,
-- and leave the state that the lazy migration makes.
pub queries-view :
    (creator token : Address) (s : State)
    → let t = maybe_migrate_creator_data creator token s in
      (get_balance creator token s ≡ ok (held creator token s, t))
      × (get_total_tips creator token s ≡ ok (tipped creator token s, t))
unfolding get_balance get_total_tips
queries-view creator token s =
    let t : State = maybe_migrate_creator_data creator token s in
    (
      ap (λ (v : ℤ). ok (v, t)) (balance-held creator token s),
      ap (λ (v : ℤ). ok (v, t)) (total-tipped creator token s),
    )
