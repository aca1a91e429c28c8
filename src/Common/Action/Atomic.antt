-- ===== src/Common/Action/Atomic.antt =====
-- Actions that change nothing when they throw.
use backend_htssclub.Base.{Bool, true, false, ◌≡◌, refl, if◌then◌else◌}
use backend_htssclub.Common.Action.{
  Action, Result, ok, err, Exception, pure, throw_if, gets, modify, ignore, continue, commit, ◌>>=◌,
  with_transaction,
}

pub record IsAtomic {S A : Type 0} (m : Action S A) : Type 0 where
  pub at : (s : S) (e : Exception) → (m s).0 ≡ err e → (m s).1 ≡ s

-- Actions that never throw.
pub record IsTotal {S A : Type 0} (m : Action S A) : Type 0 where
  pub value : S → A
  pub returns : (s : S) → (m s).0 ≡ ok (value s)

module _ {S : Type 0} where
  module _ {A : Type 0} where
    pub IsTotal-pure : (a : A) → IsTotal (pure {S = S} a)
    unfolding ◌>>=◌
    IsTotal-pure a = record { value = λ _. a; returns = λ s. refl }

    pub IsTotal-gets : (f : S → A) → IsTotal (gets f)
    unfolding ◌>>=◌
    IsTotal-gets f = record { value = f; returns = λ s. refl }

    pub IsTotal-ignore : (m : Action S A) → IsTotal (ignore m)
    unfolding ◌>>=◌
    IsTotal-ignore m = record { value = λ _. tt; returns = λ s. refl }

    pub IsTotal-if :
        (c : Bool) (m n : Action S A) → IsTotal m → IsTotal n → IsTotal (if c then m else n)
    IsTotal-if true m n tm tn = tm
    IsTotal-if false m n tm tn = tn

    pub IsAtomic-with_transaction : (m : Action S A) → IsAtomic (with_transaction m)
    unfolding ◌>>=◌
    IsAtomic-with_transaction m = record { at = λ s e h. go s e (m s).0 h }
      where
        go :
            (s : S) (e : Exception) (r : Result A)
            → (commit s (r, (m s).1)).0 ≡ err e
            → (commit s (r, (m s).1)).1 ≡ s
        go s e (ok a) q = cc
        go s e (err x) q = refl

    pub IsAtomic-if :
        (c : Bool) (m n : Action S A) → IsAtomic m → IsAtomic n → IsAtomic (if c then m else n)
    IsAtomic-if true m n am an = am
    IsAtomic-if false m n am an = an

  pub IsTotal-modify : (f : S → S) → IsTotal (modify f)
  unfolding ◌>>=◌
  IsTotal-modify f = record { value = λ _. tt; returns = λ s. refl }

  pub IsAtomic-guarded :
      {B : Type 0} (c : Bool) (x : Exception) (k : Unit {0} → Action S B)
      → IsAtomic (k tt)
      → IsAtomic (throw_if c x >>= k)
  unfolding ◌>>=◌
  IsAtomic-guarded true x k h = record { at = λ s e q. refl }
  IsAtomic-guarded false x k h = record { at = h.at }

  module _ {A B : Type 0} where
    pub IsTotal-bind :
        (m : Action S A) (f : A → Action S B)
        → IsTotal m
        → ((a : A) → IsTotal (f a))
        → IsTotal (m >>= f)
    unfolding ◌>>=◌
    IsTotal-bind m f tm tf = record {
      value = λ s. (tf (tm.value s)).value (m s).1;
      returns = λ s. rw (tm.returns s, continue) ((tf (tm.value s)).returns (m s).1);
    }

    -- What follows an atomic step and never throws leaves it atomic.
    pub IsAtomic-bind :
        (m : Action S A) (f : A → Action S B)
        → IsAtomic m
        → ((a : A) → IsTotal (f a))
        → IsAtomic (m >>= f)
    unfolding ◌>>=◌
    IsAtomic-bind m f am tf = record { at = λ s e h. go s e (m s).0 refl h }
      where
        go :
            (s : S) (e : Exception) (r : Result A)
            → (m s).0 ≡ r
            → (continue r f (m s).1).0 ≡ err e
            → (continue r f (m s).1).1 ≡ s
        go s e (ok a) was h = let fine = (tf a).returns (m s).1 in absurd (cc fine)
        go s e (err x) was h = am.at s x was

pub ruleset atomic_rules = (
  IsAtomic-with_transaction, IsAtomic-guarded, IsAtomic-if, IsAtomic-bind, IsTotal-pure,
  IsTotal-bind,
)

pub ruleset total_rules =
    (IsTotal-pure, IsTotal-gets, IsTotal-modify, IsTotal-ignore, IsTotal-if, IsTotal-bind)
