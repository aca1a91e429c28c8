-- ===== src/Common/Action/After.antt =====
-- What holds after an action from one state, whether it returns or throws.
use backend_htssclub.Base.{
  Bool, true, false, Option, none, some, inl, inr, ◌≡◌, refl, Bool-cases, if◌then◌else◌,
}
use backend_htssclub.Common.Action.{
  Action, Result, ok, err, continue, Exception, pure, throw_if, or_throw, gets, modify, ◌>>=◌,
}
use backend_htssclub.Common.Action.Steps.{bind_ok, bind_err, guard_passed, guard_threw}

module _ {S : Type 0} (P : S → Type 0) where
  abbrev pub After : {A : Type 0} → Action S A → S → Type 0
  After m s = P (m s).1

  module _ {B : Type 0} where
    pub After-pure : (b : B) (s : S) → P s → After (pure b) s
    unfolding ◌>>=◌
    After-pure b s p = p

    pub After-guard :
        (c : Bool) (e : Exception) (k : Unit {0} → Action S B) (s : S)
        → P s
        → (c ≡ false → After (k tt) s)
        → After (throw_if c e >>= k) s
    After-guard c e k s p h = elim (Bool-cases c) [
      | inl threw ↦ rw (guard_threw c e k s threw) p
      | inr passed ↦ rw (guard_passed c e k s passed) (h passed)
    ]

    pub After-if :
        (c : Bool) (m n : Action S B) (s : S)
        → (c ≡ true → After m s)
        → (c ≡ false → After n s)
        → After (if c then m else n) s
    After-if c m n s hm hn = elim (Bool-cases c) [
      | inl yes_c ↦ rw yes_c (hm yes_c)
      | inr no_c ↦ rw no_c (hn no_c)
    ]

    pub After-gets :
        {A : Type 0} (f : S → A) (k : A → Action S B) (s : S)
        → After (k (f s)) s
        → After (gets f >>= k) s
    unfolding ◌>>=◌
    After-gets f k s h = h

    pub After-modify :
        (f : S → S) (k : Unit {0} → Action S B) (s : S)
        → After (k tt) (f s)
        → After (modify f >>= k) s
    unfolding ◌>>=◌
    After-modify f k s h = h

    pub After-found :
        {A : Type 0} (o : Option A) (e : Exception) (g : A → Action S B) (t : S)
        → P t
        → ((a : A) → o ≡ some a → After (g a) t)
        → After (or_throw o e >>= g) t
    unfolding ◌>>=◌
    After-found none e g t p h = p
    After-found (some a) e g t p h = h a refl

    module _ {A : Type 0} (m : Action S A) (f : A → Action S B) (s : S) where
      pub After-ok : {a : A} {s' : S} → m s ≡ (ok a, s') → After (f a) s' → After (m >>= f) s
      After-ok h k = rw (bind_ok m f s h) k

      pub After-err : {e : Exception} {s' : S} → m s ≡ (err e, s') → P s' → After (m >>= f) s
      After-err h k = rw (bind_err m f s h) k

      -- What follows changes no state.
      pub After-then : After m s → ((a : A) (t : S) → P t → After (f a) t) → After (m >>= f) s
      unfolding ◌>>=◌
      After-then h k = go (m s).0 (m s).1 h
        where
          go : (r : Result A) (t : S) → P t → P (continue r f t).1
          go (ok a) t p = k a t p
          go (err e) t p = p
