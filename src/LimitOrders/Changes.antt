-- ===== src/LimitOrders/Changes.antt =====
-- What a call of the order book that returns has changed.
use stellar_tipjar_contracts.Common.{
  nat_eq, ℕ, ◌+◌, ◌≤◌, ◌<◌, ◌^◌, ◌≡◌, refl, sym, subst, ◌∙◌, ap, true, false, Bool-cases, Option,
  none, some, get_or, ◌⊎◌, inl, inr, nat_beq, arith, if◌then◌else◌,
}
use stellar_tipjar_contracts.Common.Int.{
  ℤ, pos, ◌<ℤ◌, ◌-ℤ◌, int_laws, parts_of_eq, fits_i128, add_i128, sub_i128, sub_i128-eq, add_u64,
}
use stellar_tipjar_contracts.Common.Map.{Map, get, set, get-set}
use stellar_tipjar_contracts.Soroban.{Address, Env, After, After-map, ◌>>=◌, ◌>>◌}
use stellar_tipjar_contracts.LimitOrders.{LimitOrder, Book, place_order, match_order, cancel_order}
use stellar_tipjar_contracts.LimitOrders.Laws.{IsOrder, add_rest, place_order-fields}

abbrev pub count : Book → ℕ
count s = get_or 0 s.order_count

-- An order is in range, and stored under its own id, which has been given out.
abbrev pub IsEntry : ℕ → ℕ → Option LimitOrder → Type 0
IsEntry n j none = Unit
IsEntry n j (some o) = (j ≤ n) × IsOrder o × (o.id ≡ j)

pub record IsBook (s : Book) : Type 0 where
  pub entries : (j : ℕ) → IsEntry (count s) j (get j s.orders)

-- What may become of an order: its terms stay, a cancelled one stays as it is, and the filled part
-- stays or becomes the whole amount at once.
pub record IsKept (o p : LimitOrder) : Type 0 where
  pub terms : p ≡ record o { filled = p.filled; cancelled = p.cancelled }
  pub closed : (o.cancelled ≡ false) ⊎ (p ≡ o)
  pub part : (p.filled ≡ o.filled) ⊎ ((p.filled ≡ o.amount_in) × (o.filled <ℤ o.amount_in))

pub IsKept-refl : (o : LimitOrder) → IsKept o o
IsKept-refl o = record { terms = refl; closed = inr refl; part = inl refl }

pub IsKept-trans : (o p q : LimitOrder) → IsKept o p → IsKept p q → IsKept o q
IsKept-trans o p q h k = record {
  terms =
      k.terms
      ∙ ap (λ (r : LimitOrder). record r { filled = q.filled; cancelled = q.cancelled }) h.terms;
  closed = elim h.closed [
    | inl live ↦ inl live
    | inr e ↦ elim k.closed [
      | inl live ↦ inl (sym (ap (λ (r : LimitOrder). r.cancelled) e) ∙ live)
      | inr f ↦ inr (f ∙ e)
    ]
  ];
  part = elim k.part [
    | inl e ↦ elim h.part [ inl f ↦ inl (e ∙ f) | inr (f, l) ↦ inr (e ∙ f, l) ]
    | inr (e, l) ↦
        let same : p.amount_in ≡ o.amount_in = ap (λ (r : LimitOrder). r.amount_in) h.terms in
        elim h.part [
          | inl f ↦ inr (e ∙ same, omega (int_laws, l, parts_of_eq f, parts_of_eq same))
          | inr (f, m) ↦ inr (e ∙ same, m)
        ]
  ];
}

-- A call that returns stores one order, a new one or what may become of the stored one.
pub record IsChange (s t : Book) : Type 0 where
  pub key : ℕ
  pub order : LimitOrder
  pub now : t.orders ≡ set key order s.orders
  pub counted : (count s ≤ count t) × (count t ≤ count s + 1)
  pub entry : IsEntry (count t) key (some order)
  pub kept : (o : LimitOrder) → get key s.orders ≡ some o → IsKept o order

IsEntry-le : (m n j : ℕ) (o : Option LimitOrder) → m ≤ n → IsEntry m j o → IsEntry n j o
IsEntry-le m n j none l h = tt
IsEntry-le m n j (some o) l h = (omega (arith, l, h.0), h.1, h.2)

module _ (s t : Book) (c : IsChange s t) where
  get-now : (j : ℕ) → get j t.orders ≡ (if nat_beq c.key j then some c.order else get j s.orders)
  get-now j = ap (λ (m : Map ℕ LimitOrder). get j m) c.now ∙ get-set j c.key c.order s.orders

  pub IsChange-IsBook : IsBook s → IsBook t
  IsChange-IsBook h = record {
    entries = λ j. elim (Bool-cases (nat_beq c.key j)) [
      | inl same ↦ let e : c.key ≡ j = ground (arith, same) in rw (get-now j, same, ← e) c.entry
      | inr other ↦
          rw (get-now j, other)
            (IsEntry-le (count s) (count t) j (get j s.orders) c.counted.0 (h.entries j))
    ];
  }

  pub IsChange-IsKept :
      (j : ℕ) (o : LimitOrder)
      → get j s.orders ≡ some o
      → (p : LimitOrder) × (get j t.orders ≡ some p) × IsKept o p
  IsChange-IsKept j o stored = elim (Bool-cases (nat_beq c.key j)) [
    | inl same ↦
        let e : c.key ≡ j = ground (arith, same) in
        (c.order, rw (get-now j, same) refl, c.kept o (rw e stored))
    | inr other ↦ (o, rw (get-now j, other) stored, IsKept-refl o)
  ]

module _ (env : Env) (s : Book) (h : IsBook s) where
  entry_of : (j : ℕ) (o : LimitOrder) → get j s.orders ≡ some o → IsEntry (count s) j (some o)
  entry_of j o e = rw e at (h.entries j)

  next_id : count s + 1 < 2 ^ 64 → add_u64 (count s) 1 ≡ count s + 1
  unfolding add_u64
  next_id small = omega (arith, small)

  -- The next id has no order yet.
  unused : (o : LimitOrder) → get (count s + 1) s.orders ≡ some o → ⊥
  unused o e = let l : count s + 1 ≤ count s = (entry_of (count s + 1) o e).0 in omega (arith, l)

  module _ (caller token_in token_out : Address) (amount_in limit_price : ℤ)
      (fits : fits_i128 amount_in ≡ true) (small : count s + 1 < 2 ^ 64) where
    placed_order : ℕ → LimitOrder
    placed_order order_id = record {
      id = order_id;
      owner = caller;
      token_in = token_in;
      token_out = token_out;
      amount_in = amount_in;
      limit_price = limit_price;
      filled = pos 0;
      cancelled = false;
    }

    pub place_order-IsChange :
        After (IsChange s) (place_order env caller token_in token_out amount_in limit_price s)
    unfolding placed_order
    place_order-IsChange =
        After-map _
          (λ t (a, b, d, l).
            let n : count t ≡ count s + 1 = ap (get_or 0) b ∙ next_id small in
            record {
              key = count s + 1;
              order = placed_order (count s + 1);
              now = rw (next_id small) at a;
              counted = (omega (arith, n), omega (arith, n));
              entry = (
                omega (arith, n),
                record {
                  amount = (omega (int_laws, l), fits);
                  nonneg = omega arith;
                  within = omega (int_laws, l);
                },
                refl,
              );
              kept = λ o e. absurd (unused o e);
            })
          (place_order-fields env s caller token_in token_out amount_in limit_price)

  module _ (order_id : ℕ) (o : LimitOrder) (stored : get order_id s.orders ≡ some o) where
    abbrev whole : LimitOrder
    whole = record o { filled = add_i128 o.filled (sub_i128 o.amount_in o.filled) }

    match_order-fields :
        (price : ℤ)
        → After
            (λ t.
              (t.orders ≡ set order_id whole s.orders)
              × (t.order_count ≡ s.order_count)
              × (o.cancelled ≡ false)
              × (pos 0 <ℤ sub_i128 o.amount_in o.filled))
            (match_order env order_id price s)
    unfolding match_order ◌>>=◌ ◌>>◌
    match_order-fields price = ground arith

    cancel_order-fields :
        (caller : Address)
        → After
            (λ t.
              (t.orders ≡ set order_id (record o { cancelled = true }) s.orders)
              × (t.order_count ≡ s.order_count)
              × (o.cancelled ≡ false))
            (cancel_order env caller order_id s)
    unfolding cancel_order ◌>>=◌ ◌>>◌
    cancel_order-fields caller = ground arith

    -- A stored order is replaced by what may become of it.
    replaced :
        (t : Book) (q : LimitOrder)
        → t.orders ≡ set order_id q s.orders
        → t.order_count ≡ s.order_count
        → IsOrder q
        → IsKept o q
        → IsChange s t
    replaced t q a b r k =
        let n : count t ≡ count s = ap (get_or 0) b in
        let at : IsEntry (count s) order_id (some o) = entry_of order_id o stored in
        record {
          key = order_id;
          order = q;
          now = a;
          counted = (omega (arith, n), omega (arith, n));
          entry = (omega (arith, n, at.0), r, ap (λ (r : LimitOrder). r.id) k.terms ∙ at.2);
          kept = λ p e. let same : o ≡ p = cc in subst (λ r. IsKept r q) same k;
        }

    open_of :
        (q : LimitOrder)
        → o.cancelled ≡ false
        → q ≡ record o { filled = q.filled; cancelled = q.cancelled }
        → (q.filled ≡ o.filled) ⊎ ((q.filled ≡ o.amount_in) × (o.filled <ℤ o.amount_in))
        → IsKept o q
    open_of q live e f = record { terms = e; closed = inl live; part = f }

    pub match_order-IsChange : (price : ℤ) → After (IsChange s) (match_order env order_id price s)
    match_order-IsChange price =
        let r : IsOrder o = (entry_of order_id o stored).1 in
        let f : add_i128 o.filled (sub_i128 o.amount_in o.filled) ≡ o.amount_in = add_rest o r in
        let g : sub_i128 o.amount_in o.filled ≡ o.amount_in -ℤ o.filled =
          sub_i128-eq o.amount_in o.filled r.amount r.nonneg r.within in
        After-map _
          (λ t (a, b, live, l).
            replaced t whole a b
              (record { amount = r.amount; nonneg = rw f r.amount.0; within = rw f (omega arith) })
              (open_of whole live refl (inr (f, omega (int_laws, l, parts_of_eq g)))))
          (match_order-fields price)

    pub cancel_order-IsChange :
        (caller : Address) → After (IsChange s) (cancel_order env caller order_id s)
    cancel_order-IsChange caller =
        let r : IsOrder o = (entry_of order_id o stored).1 in
        After-map _
          (λ t (a, b, live).
            replaced t (record o { cancelled = true }) a b
              (record { amount = r.amount; nonneg = r.nonneg; within = r.within })
              (open_of (record o { cancelled = true }) live refl (inl refl)))
          (cancel_order-fields caller)

  module _ (order_id : ℕ) (missing : get order_id s.orders ≡ none) where
    pub match_order-missing : (price : ℤ) → After (IsChange s) (match_order env order_id price s)
    unfolding match_order ◌>>=◌ ◌>>◌
    match_order-missing price = ground arith

    pub cancel_order-missing :
        (caller : Address) → After (IsChange s) (cancel_order env caller order_id s)
    unfolding cancel_order ◌>>=◌ ◌>>◌
    cancel_order-missing caller = ground arith
