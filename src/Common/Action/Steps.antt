-- ===== src/Common/Action/Steps.antt =====
-- Runs of actions, one step at a time.
use backend_htssclub.Base.{Bool, true, false, ◌≡◌, ap}
use backend_htssclub.Common.Action.{
  Action, ok, err, Exception, throw_if, ◌>>=◌, with_transaction, succeeds, ignore, commit, settled,
}

module _ {S A B : Type 0} (m : Action S A) (f : A → Action S B) (s : S) where
  pub bind_ok : {a : A} {s' : S} → m s ≡ (ok a, s') → (m >>= f) s ≡ f a s'
  unfolding ◌>>=◌
  bind_ok h = rw (h, ◌>>=◌)

  pub bind_err : {e : Exception} {s' : S} → m s ≡ (err e, s') → (m >>= f) s ≡ (err e, s')
  unfolding ◌>>=◌
  bind_err h = rw (h, ◌>>=◌)

module _ {S A : Type 0} (m : Action S A) (s : S) where
  pub transaction_ok : {a : A} {s' : S} → m s ≡ (ok a, s') → with_transaction m s ≡ (ok a, s')
  unfolding ◌>>=◌
  transaction_ok h = ap (commit s) h

  pub transaction_err :
      {e : Exception} {s' : S} → m s ≡ (err e, s') → with_transaction m s ≡ (err e, s)
  unfolding ◌>>=◌
  transaction_err h = ap (commit s) h

  pub succeeds_ok : {a : A} {s' : S} → m s ≡ (ok a, s') → succeeds m s ≡ (ok true, s')
  unfolding ◌>>=◌
  succeeds_ok h = ap settled h

  pub succeeds_err : {e : Exception} {s' : S} → m s ≡ (err e, s') → succeeds m s ≡ (ok false, s')
  unfolding ◌>>=◌
  succeeds_err h = ap settled h

module _ {S A : Type 0} (m : Action S A) (s : S) where
  pub ignore_ok : {a : A} {s' : S} → m s ≡ (ok a, s') → ignore m s ≡ (ok tt, s')
  unfolding ◌>>=◌
  ignore_ok h = ap (λ r. (ok tt, r.1)) h

module _ {S B : Type 0} (c : Bool) (e : Exception) (k : Unit {0} → Action S B) (s : S) where
  pub guard_passed : c ≡ false → (throw_if c e >>= k) s ≡ k tt s
  unfolding ◌>>=◌
  guard_passed h = rw h

  pub guard_threw : c ≡ true → (throw_if c e >>= k) s ≡ (err e, s)
  unfolding ◌>>=◌
  guard_threw h = rw h
