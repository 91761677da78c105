-- ===== src/Soroban/Rules.antt =====
-- What holds after a call that returns, and one rule for each way to build a call.
use stellar_tipjar_contracts.Common.{◌≡◌, refl, Bool, true, false, Option, none, some, arith}
use stellar_tipjar_contracts.Soroban.Host.{Env, Address}
use stellar_tipjar_contracts.Soroban.Monad.{
  Result, ok, err, M, gets, modify, raise_if, or_raise, require_auth, ◌>>=◌, ◌>>◌,
}

abbrev pub Holds {ℓ} : {S E A : Type 0} → (S → Type ℓ) → Result E (A × S) → Type ℓ
Holds P (ok (a, t)) = P t
Holds P (err e) = Unit

-- A record, so that a rule's arguments can be read off a goal.
pub record After {ℓ} {S E A : Type 0} (P : S → Type ℓ) (r : Result E (A × S)) : Type ℓ where
  pub holds : Holds P r

pub After-map {ℓ κ} :
    {S E A : Type 0} {P : S → Type ℓ} {Q : S → Type κ} (r : Result E (A × S))
    → ((t : S) → P t → Q t)
    → After P r
    → After Q r
After-map (ok (a, t)) f h = record { holds = f t h.holds }
After-map (err e) f h = record { holds = tt }

module _ {ℓ} {S E A B : Type 0} {Q : S → Type ℓ} {s : S} where
  pub After-bind {κ} :
      (P : S → Type κ) (m : M S E A) (f : A → M S E B)
      → After P (m s)
      → ((a : A) (t : S) → P t → After Q (f a t))
      → After Q ((m >>= f) s)
  unfolding ◌>>=◌
  After-bind P m f h k = record { holds = go (m s) h.holds }
    where
      go :
          (r : Result E (A × S))
          → Holds P r
          → Holds Q (elim r [ ok (a, t) ↦ f a t | err e ↦ err e ])
      go (ok (a, t)) h = (k a t h).holds
      go (err e) h = tt

  pub After-gets : (g : S → A) (f : A → M S E B) → After Q (f (g s) s) → After Q ((gets g >>= f) s)
  unfolding ◌>>=◌
  After-gets g f h = record { holds = h.holds }

  pub After-or_raise :
      (o : Option A) (e : E) (f : A → M S E B)
      → ((a : A) → o ≡ some a → After Q (f a s))
      → After Q ((or_raise o e >>= f) s)
  unfolding ◌>>=◌
  After-or_raise none e f h = record { holds = tt }
  After-or_raise (some a) e f h = record { holds = (h a refl).holds }

module _ {ℓ} {S E B : Type 0} {Q : S → Type ℓ} {s : S} (k : M S E B) where
  pub After-then {κ} :
      (P : S → Type κ) (m : M S E (Unit {0}))
      → After P (m s)
      → ((t : S) → P t → After Q (k t))
      → After Q ((m >> k) s)
  unfolding ◌>>◌
  After-then P m h f = After-bind P m (λ _. k) h (λ _. f)

  pub After-modify : (g : S → S) → After Q (k (g s)) → After Q ((modify g >> k) s)
  unfolding ◌>>=◌ ◌>>◌
  After-modify g h = record { holds = h.holds }

  pub After-raise_if :
      (b : Bool) (e : E) → (b ≡ false → After Q (k s)) → After Q ((raise_if b e >> k) s)
  unfolding ◌>>=◌ ◌>>◌
  After-raise_if true e h = record { holds = tt }
  After-raise_if false e h = record { holds = (h refl).holds }

  pub After-auth :
      (env : Env) (who : Address)
      → (env.authorized who ≡ true → After Q (k s))
      → After Q ((require_auth env who >> k) s)
  unfolding ◌>>=◌ ◌>>◌
  After-auth env who h = record { holds = ground (arith, h) }

pub After-both {ℓ κ} :
    {S E A : Type 0} {P : S → Type ℓ} {Q : S → Type κ} (r : Result E (A × S))
    → After P r
    → After Q r
    → After (λ t. P t × Q t) r
After-both (ok (a, t)) h k = record { holds = (h.holds, k.holds) }
After-both (err e) h k = record { holds = tt }

pub After-any : {S E A : Type 0} (r : Result E (A × S)) → After (λ t. Unit {0}) r
After-any (ok (a, t)) = record { holds = tt }
After-any (err e) = record { holds = tt }

-- The call returns, in a state where `P` holds.
abbrev pub Returns : {S E A : Type 0} → (S → Type 0) → Result E (A × S) → Type 0
Returns P (ok (a, t)) = P t
Returns P (err e) = ⊥

-- The call returns. A record, as `After` is.
pub record Succeeds {S E A : Type 0} (r : Result E (A × S)) : Type 0 where
  pub returns : Returns (λ t. Unit) r

pub Succeeds-then :
    {S E B : Type 0} {s : S} (t : S) (m : M S E (Unit {0})) (k : M S E B)
    → m s ≡ ok (tt, t)
    → Succeeds (k t)
    → Succeeds ((m >> k) s)
unfolding ◌>>◌ ◌>>=◌
Succeeds-then t m k e h = record { returns = rw (e, Returns) h.returns }

module _ {ℓ} {S E B : Type 0} {s : S} (P : S → Type ℓ) (m : M S E (Unit {0})) (k : M S E B) where
  pub Succeeds-both :
      Succeeds (m s) → After P (m s) → ((t : S) → P t → Succeeds (k t)) → Succeeds ((m >> k) s)
  unfolding ◌>>◌ ◌>>=◌
  Succeeds-both h l f = record { returns = go (m s) h.returns l.holds }
    where
      go :
          (r : Result E (Unit {0} × S))
          → Returns (λ t. Unit) r
          → Holds P r
          → Returns (λ t. Unit) (elim r [ ok (a, t) ↦ k t | err e ↦ err e ])
      go (ok (a, t)) h l = (f t l).returns
      go (err e) h l = h

pub Succeeds-gets :
    {S E A B : Type 0} {s : S} (g : S → A) (f : A → M S E B)
    → Succeeds (f (g s) s)
    → Succeeds ((gets g >>= f) s)
unfolding ◌>>=◌
Succeeds-gets g f h = record { returns = h.returns }

pub Succeeds-raise_if :
    {S E B : Type 0} {s : S} (b : Bool) (e : E) (k : M S E B)
    → b ≡ false
    → Succeeds (k s)
    → Succeeds ((raise_if b e >> k) s)
Succeeds-raise_if b e k h = Succeeds-then _ _ k (rw h refl)

pub Succeeds-bind :
    {S E A B : Type 0} {s : S} (a : A) (t : S) (m : M S E A) (f : A → M S E B)
    → m s ≡ ok (a, t)
    → Succeeds (f a t)
    → Succeeds ((m >>= f) s)
unfolding ◌>>=◌
Succeeds-bind a t m f e h = record { returns = rw (e, Returns) h.returns }

pub Succeeds-modify :
    {S E B : Type 0} {s : S} (g : S → S) (k : M S E B)
    → Succeeds (k (g s))
    → Succeeds ((modify g >> k) s)
unfolding ◌>>=◌ ◌>>◌
Succeeds-modify g k h = record { returns = h.returns }

pub Succeeds-After :
    {S E A : Type 0} {P : S → Type 0} (r : Result E (A × S)) → Succeeds r → After P r → Returns P r
Succeeds-After (ok (a, t)) h k = k.holds
Succeeds-After (err e) h k = h.returns

-- A call that returns hands its result on.
pub bind-ok :
    {S E A B : Type 0} {s : S} (a : A) (t : S) (m : M S E A) (f : A → M S E B)
    → m s ≡ ok (a, t)
    → (m >>= f) s ≡ f a t
unfolding ◌>>=◌
bind-ok a t m f e = rw (e, ◌>>=◌) refl

pub then-ok :
    {S E B : Type 0} {s : S} (t : S) (m : M S E (Unit {0})) (k : M S E B)
    → m s ≡ ok (tt, t)
    → (m >> k) s ≡ k t
unfolding ◌>>=◌ ◌>>◌
then-ok t m k e = rw (e, ◌>>=◌) refl
