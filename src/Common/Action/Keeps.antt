-- ===== src/Common/Action/Keeps.antt =====
-- What an action keeps: one rule for each way that a handler is put together.
use backend_htssclub.Base.{Bool, true, false, Option, none, some, ◌≡◌, refl, if◌then◌else◌}
use backend_htssclub.Common.Action.{
  Action, Result, ok, err, Exception, pure, throw, throw_if, or_throw, gets, modify, continue,
  commit, settled, ◌>>=◌, with_transaction, succeeds, ignore,
}

-- The predicate holds after the action if it held before, whether the action returns or throws.
pub record Keeps {S A : Type 0} (P : S → Type 0) (m : Action S A) : Type 0 where
  pub at : (s : S) → P s → P (m s).1

module _ {S : Type 0} {P : S → Type 0} where
  module _ {A : Type 0} where
    pub Keeps-pure : (a : A) → Keeps P (pure a)
    unfolding ◌>>=◌
    Keeps-pure a = record { at = λ s p. p }

    pub Keeps-throw : (e : Exception) → Keeps P (throw {A = A} e)
    unfolding ◌>>=◌
    Keeps-throw e = record { at = λ s p. p }

    pub Keeps-gets : (f : S → A) → Keeps P (gets f)
    unfolding ◌>>=◌
    Keeps-gets f = record { at = λ s p. p }

    pub Keeps-or_throw : (o : Option A) (e : Exception) → Keeps P (or_throw o e)
    unfolding ◌>>=◌
    Keeps-or_throw none e = record { at = λ s p. p }
    Keeps-or_throw (some a) e = record { at = λ s p. p }

    pub Keeps-if :
        (c : Bool) (m n : Action S A)
        → (c ≡ true → Keeps P m)
        → (c ≡ false → Keeps P n)
        → Keeps P (if c then m else n)
    Keeps-if true m n km kn = km refl
    Keeps-if false m n km kn = kn refl

    pub Keeps-with_transaction : {m : Action S A} → Keeps P m → Keeps P (with_transaction m)
    unfolding ◌>>=◌
    Keeps-with_transaction {m} k = record { at = λ s p. go s p (m s).0 (k.at s p) }
      where
        go : (s : S) → P s → (r : Result A) → P (m s).1 → P (commit s (r, (m s).1)).1
        go s p (ok a) q = q
        go s p (err e) q = p

    pub Keeps-succeeds : {m : Action S A} → Keeps P m → Keeps P (succeeds m)
    unfolding ◌>>=◌
    Keeps-succeeds {m} k = record { at = λ s p. go s (m s).0 (k.at s p) }
      where
        go : (s : S) (r : Result A) → P (m s).1 → P (settled (r, (m s).1)).1
        go s (ok a) q = q
        go s (err e) q = q

    pub Keeps-ignore : {m : Action S A} → Keeps P m → Keeps P (ignore m)
    unfolding ◌>>=◌
    Keeps-ignore k = record { at = λ s p. k.at s p }

  pub Keeps-modify : (f : S → S) → ((s : S) → P s → P (f s)) → Keeps P (modify f)
  unfolding ◌>>=◌
  Keeps-modify f h = record { at = h }

  pub Keeps-throw_if : (c : Bool) (e : Exception) → Keeps P (throw_if c e)
  unfolding ◌>>=◌
  Keeps-throw_if true e = record { at = λ s p. p }
  Keeps-throw_if false e = record { at = λ s p. p }

  module _ {A B : Type 0} where
    pub Keeps-bind :
        (m : Action S A) (f : A → Action S B)
        → Keeps P m
        → ((a : A) → Keeps P (f a))
        → Keeps P (m >>= f)
    unfolding ◌>>=◌
    Keeps-bind m f km kf = record { at = λ s p. go (m s).0 (m s).1 (km.at s p) }
      where
        go : (r : Result A) (s : S) → P s → P (continue r f s).1
        go (ok a) s p = (kf a).at s p
        go (err e) s p = p

  -- The rest runs only where the guard did not throw.
  pub Keeps-guarded :
      {B : Type 0} (c : Bool) (e : Exception) (k : Unit {0} → Action S B)
      → (c ≡ false → Keeps P (k tt))
      → Keeps P (throw_if c e >>= k)
  unfolding ◌>>=◌
  Keeps-guarded true e k h = record { at = λ s p. p }
  Keeps-guarded false e k h = record { at = (h refl).at }

pub ruleset keeps_rules = (
  Keeps-pure, Keeps-throw, Keeps-gets, Keeps-or_throw, Keeps-if, Keeps-with_transaction,
  Keeps-succeeds, Keeps-ignore, Keeps-throw_if, Keeps-bind,
)
