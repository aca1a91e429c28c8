-- ===== src/Friends.antt =====
-- src/friends/friends.service.ts and schemas/friend.schema.ts: requests, friendships and blocks.
pub mod Docs
mod Kept
pub mod Expected
mod Parting
mod Asking
mod Sending
pub mod Relation
pub mod Listed
pub mod Races
mod Tests
use backend_htssclub.Base.{
  ℕ, suc, Bool, true, false, not, ◌&&◌, ◌||◌, Option, none, some, List, [], ◌∷◌, ◌++◌, ◌==◌,
  if◌then◌else◌, contains, keep, map,
}
use backend_htssclub.Common.Enums.{FriendState, pending, accepted, blocked}
use backend_htssclub.Common.Action.{
  Action, pure, throw, throw_if, or_throw, gets, modify, ◌>>=◌, ◌>>◌, bad_request, forbidden,
  not_found, duplicate_key, user_not_found, self_request, request_blocked, already_friends,
  request_pending, request_not_found, request_not_pending, friendship_not_found, self_block,
  block_not_found,
}

-- A document of the collection `friends`.
pub record Friend : Type 0 where
  pub id : ℕ
  pub requester_id : ℕ
  pub addressee_id : ℕ
  pub state : FriendState

-- What is sent to a user: first to whom, then who acted.
pub data FriendEvent : Type 0 where
  request_received accepted_event declined_event : ℕ → ℕ → ℕ → FriendEvent
  removed_event : ℕ → ℕ → FriendEvent
  friend_request_notice friend_accepted_notice : ℕ → ℕ → FriendEvent

-- `users` are the ids of the known users, `next_id` is the identifier of the next document.
pub record Book : Type 0 where
  pub docs : List Friend
  pub users : List ℕ
  pub events : List FriendEvent
  pub next_id : ℕ

abbrev pub joins : ℕ → ℕ → Friend → Bool
joins a b d =
    (d.requester_id == a && d.addressee_id == b) || (d.requester_id == b && d.addressee_id == a)

-- `findBetween`
unfoldable pub find_between : ℕ → ℕ → List Friend → Option Friend
find_between a b [] = none
find_between a b (d ∷ ds) = if joins a b d then some d else find_between a b ds

unfoldable pub find_request : ℕ → List Friend → Option Friend
find_request i [] = none
find_request i (d ∷ ds) = if d.id == i then some d else find_request i ds

abbrev pub is_accepted : FriendState → Bool
is_accepted accepted = true
is_accepted _ = false

abbrev pub is_pending : FriendState → Bool
is_pending pending = true
is_pending _ = false

abbrev pub is_blocked : FriendState → Bool
is_blocked blocked = true
is_blocked _ = false

-- The query of `unblock`.
unfoldable pub find_block : ℕ → ℕ → List Friend → Option Friend
find_block a b [] = none
find_block a b (d ∷ ds) =
    if (d.requester_id == a && d.addressee_id == b) && is_blocked d.state
    then some d
    else find_block a b ds

-- The unique index on the requester and the addressee, for a document with this identifier.
unfoldable pub is_taken : ℕ → ℕ → ℕ → List Friend → Bool
is_taken i a b [] = false
is_taken i a b (d ∷ ds) =
    (not (d.id == i) && (d.requester_id == a && d.addressee_id == b)) || is_taken i a b ds

-- `doc.deleteOne()`
unfoldable pub delete_doc : ℕ → List Friend → List Friend
delete_doc i [] = []
delete_doc i (d ∷ ds) = if d.id == i then ds else d ∷ delete_doc i ds

unfoldable pub put_doc : Friend → List Friend → List Friend
put_doc e [] = []
put_doc e (d ∷ ds) = if d.id == e.id then e ∷ ds else d ∷ put_doc e ds

abbrev pub set_docs : (List Friend → List Friend) → Action Book (Unit {0})
set_docs f = modify (λ b. record b { docs = f b.docs })

-- `doc.save()`
unfoldable pub save : Friend → Action Book Friend
save d = do
  b ← gets (λ b. b)
  throw_if (is_taken d.id d.requester_id d.addressee_id b.docs) duplicate_key
  set_docs (put_doc d)
  pure d

abbrev pub new_doc : ℕ → ℕ → ℕ → FriendState → Friend
new_doc i requester addressee state = record {
  id = i;
  requester_id = requester;
  addressee_id = addressee;
  state = state;
}

-- `model.create`
unfoldable pub insert_doc : ℕ → ℕ → FriendState → Action Book Friend
insert_doc requester addressee state = do
  b ← gets (λ b. b)
  throw_if (is_taken b.next_id requester addressee b.docs) duplicate_key
  modify (λ b. record b {
    docs = b.docs ++ new_doc b.next_id requester addressee state ∷ [];
    next_id = suc b.next_id;
  })
  pure (new_doc b.next_id requester addressee state)

-- `emitFriendEvent` and `notifications.create`
unfoldable pub emit_friend_event : FriendEvent → Action Book (Unit {0})
emit_friend_event e = modify (λ b. record b { events = e ∷ b.events })

-- The request that `accept` and `decline` ask for.
unfoldable pub pending_request : ℕ → ℕ → Action Book Friend
pending_request me request = do
  found ← gets (λ b. find_request request b.docs)
  d ← or_throw found (not_found request_not_found)
  throw_if (not (d.addressee_id == me)) (not_found request_not_found)
  throw_if (not (is_pending d.state)) (bad_request request_not_pending)
  pure d

unfoldable pub accept : ℕ → ℕ → Action Book Friend
accept me request = do
  d ← pending_request me request
  saved ← save (record d { state = accepted })
  emit_friend_event (friend_accepted_notice saved.requester_id me)
  emit_friend_event (accepted_event saved.requester_id me saved.id)
  pure saved

unfoldable pub decline : ℕ → ℕ → Action Book (Unit {0})
decline me request = do
  d ← pending_request me request
  set_docs (delete_doc d.id)
  emit_friend_event (declined_event d.requester_id me request)

-- `sendRequest` when there is no document between the two,
unfoldable pub create_request : ℕ → ℕ → Action Book Friend
create_request me target = do
  d ← insert_doc me target pending
  emit_friend_event (friend_request_notice target me)
  emit_friend_event (request_received target me d.id)
  pure d

-- and when there is one.
unfoldable pub answer_existing : ℕ → Friend → Action Book Friend
answer_existing me d = do
  throw_if (is_blocked d.state) (forbidden request_blocked)
  throw_if (is_accepted d.state) (bad_request already_friends)
  if d.addressee_id == me then accept me d.id else throw (bad_request request_pending)

unfoldable pub request_between : ℕ → ℕ → Option Friend → Action Book Friend
request_between me target none = create_request me target
request_between me target (some d) = answer_existing me d

unfoldable pub send_request : ℕ → ℕ → Action Book Friend
send_request me target = do
  throw_if (me == target) (bad_request self_request)
  b ← gets (λ b. b)
  throw_if (not (contains target b.users)) (not_found user_not_found)
  request_between me target (find_between me target b.docs)

unfoldable pub remove_friend : ℕ → ℕ → Action Book (Unit {0})
remove_friend me target = do
  found ← gets (λ b. find_between me target b.docs)
  d ← or_throw found (not_found friendship_not_found)
  throw_if (not (is_accepted d.state)) (not_found friendship_not_found)
  set_docs (delete_doc d.id)
  emit_friend_event (removed_event target me)

unfoldable pub block_between : ℕ → ℕ → Option Friend → Action Book Friend
block_between me target none = insert_doc me target blocked
block_between me target (some d) =
    save (record d { requester_id = me; addressee_id = target; state = blocked })

unfoldable pub block : ℕ → ℕ → Action Book Friend
block me target = do
  throw_if (me == target) (bad_request self_block)
  b ← gets (λ b. b)
  throw_if (not (contains target b.users)) (not_found user_not_found)
  block_between me target (find_between me target b.docs)

unfoldable pub unblock : ℕ → ℕ → Action Book (Unit {0})
unblock me target = do
  found ← gets (λ b. find_block me target b.docs)
  d ← or_throw found (not_found block_not_found)
  set_docs (delete_doc d.id)

-- The statuses of `getStatus`.
pub data FriendStatus : Type 0 where
  status_self status_none status_friends status_sent status_received : FriendStatus
  status_blocked status_blocked_by : FriendStatus

abbrev pub status_of : FriendState → Bool → FriendStatus
status_of accepted _ = status_friends
status_of pending true = status_sent
status_of pending false = status_received
status_of blocked true = status_blocked
status_of blocked false = status_blocked_by

pub record Answer : Type 0 where
  pub status : FriendStatus
  pub request_id : Option ℕ

abbrev pub answer_of : ℕ → Option Friend → Answer
answer_of me none = record { status = status_none; request_id = none }
answer_of me (some d) = record {
  status = status_of d.state (d.requester_id == me);
  request_id = some d.id;
}

unfoldable pub get_status : ℕ → ℕ → Book → Answer
get_status me target b =
    if me == target
    then record { status = status_self; request_id = none }
    else answer_of me (find_between me target b.docs)

abbrev pub other_of : ℕ → Friend → ℕ
other_of me d = if d.requester_id == me then d.addressee_id else d.requester_id

-- `listFriends`: the ids of the documents, then the users that have them.
unfoldable pub friend_ids : ℕ → List Friend → List ℕ
friend_ids me [] = []
friend_ids me (d ∷ ds) =
    let rest = friend_ids me ds in
    if is_accepted d.state && (d.requester_id == me || d.addressee_id == me)
    then other_of me d ∷ rest
    else rest

unfoldable pub list_friends : ℕ → Book → List ℕ
list_friends me b = keep (λ u. contains u (friend_ids me b.docs)) b.users

pub record Requests : Type 0 where
  pub incoming : List Friend
  pub outgoing : List Friend

unfoldable pub list_requests : ℕ → Book → Requests
list_requests me b = record {
  incoming = keep (λ d. d.addressee_id == me && is_pending d.state) b.docs;
  outgoing = keep (λ d. d.requester_id == me && is_pending d.state) b.docs;
}

-- The requests of the controller that change the book.
pub data Request : Type 0 where
  send removes blocks unblocks accepts declines : ℕ → ℕ → Request

abbrev pub handle : Request → Action Book (Unit {0})
handle (send me target) = do d ← send_request me target; pure tt
handle (removes me target) = remove_friend me target
handle (blocks me target) = do d ← block me target; pure tt
handle (unblocks me target) = unblock me target
handle (accepts me request) = do d ← accept me request; pure tt
handle (declines me request) = decline me request
