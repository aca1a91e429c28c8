-- ===== src/Common/Action.antt =====
-- A request handler as an action: it reads and writes the stored state, and returns a value or
-- throws. What was written before a throw stays written, unless a transaction undoes it.
pub mod Steps
pub mod Keeps
pub mod Atomic
pub mod After
use backend_htssclub.Base.{Bool, true, false, Option, none, some}

-- The messages of the exceptions.
pub data Reason : Type 0 where
  user_not_found amount_not_positive amount_zero insufficient_balance self_transfer : Reason
  room_not_found bad_player_counts bad_bet room_not_open room_full room_not_joinable : Reason
  game_started not_member not_host room_not_waiting too_few_players not_all_ready : Reason
  game_not_found game_not_active not_player not_your_turn no_cards bad_combination : Reason
  does_not_beat cards_not_held must_lead already_finished player_count : Reason
  out_of_bounds cell_taken : Reason
  self_request request_blocked already_friends request_pending request_not_found : Reason
  request_not_pending friendship_not_found self_block block_not_found : Reason
  not_a_member insufficient_role server_not_found default_undeletable invalid_invite : Reason
  banned_here already_a_member default_unleavable owner_cannot_leave owner_unassignable : Reason
  member_not_found owner_protected rank_protected self_kick already_owner self_ban : Reason
  default_unbannable ban_not_found nickname_forbidden : Reason

pub data Exception : Type 0 where
  bad_request : Reason → Exception
  forbidden : Reason → Exception
  not_found : Reason → Exception
  duplicate_key : Exception

pub data Result (A : Type 0) : Type 0 where
  ok : A → Result A
  err : Exception → Result A

abbrev pub Action : Type 0 → Type 0 → Type 0
Action S A = S → Result A × S

module _ {S : Type 0} where
  pub pure : {A : Type 0} → A → Action S A
  pure a s = (ok a, s)

  pub throw : {A : Type 0} → Exception → Action S A
  throw e s = (err e, s)

  -- `if (c) throw e;`
  pub throw_if : Bool → Exception → Action S (Unit {0})
  throw_if true e s = (err e, s)
  throw_if false e s = (ok tt, s)

  -- `if (!found) throw e;`
  pub or_throw : {A : Type 0} → Option A → Exception → Action S A
  or_throw none e s = (err e, s)
  or_throw (some a) e s = (ok a, s)

  pub gets : {A : Type 0} → (S → A) → Action S A
  gets f s = (ok (f s), s)

  pub modify : (S → S) → Action S (Unit {0})
  modify f s = (ok tt, f s)

  abbrev pub continue : {A B : Type 0} → Result A → (A → Action S B) → Action S B
  continue (ok a) f s = f a s
  continue (err e) f s = (err e, s)

  -- A multi-document transaction: a throw undoes every write (src/database/transaction.util.ts).
  abbrev pub commit : {A : Type 0} → S → Result A × S → Result A × S
  commit s (ok a, s') = (ok a, s')
  commit s (err e, s') = (err e, s)

  pub with_transaction : {A : Type 0} → Action S A → Action S A
  with_transaction m s = commit s (m s)

  -- `.then(() => true).catch(() => false)`
  abbrev pub settled : {A : Type 0} → Result A × S → Result Bool × S
  settled (ok a, s') = (ok true, s')
  settled (err e, s') = (ok false, s')

  pub succeeds : {A : Type 0} → Action S A → Action S Bool
  succeeds m s = settled (m s)

  -- `.catch(() => undefined)`
  pub ignore : {A : Type 0} → Action S A → Action S (Unit {0})
  ignore m s = let (_, s') = m s in (ok tt, s')

  infixl 5 ◌>>=◌ ◌>>◌
  -- Opening this opens the actions above too.
  unfoldable pub ◌>>=◌ : {A B : Type 0} → Action S A → (A → Action S B) → Action S B
  unfolding pure throw throw_if or_throw gets modify with_transaction succeeds ignore
  ◌>>=◌ m f s = let (r, s') = m s in continue r f s'

  abbrev pub ◌>>◌ : {A B : Type 0} → Action S A → Action S B → Action S B
  m >> k = m >>= λ _. k
