-- ===== src/Rooms.antt =====
-- src/games/common/rooms.service.ts and schemas/game-room.schema.ts: the lobby of the games, over
-- the collection of rooms and the bank.
pub mod Store
pub mod Held
pub mod Members
pub mod Escrow
pub mod Joining
pub mod Leaving
pub mod History
pub mod Races
mod Tests
unfoldable pub use Store.*
use backend_htssclub.Base.{
  ℕ, zero, suc, ◌+◌, Bool, true, false, not, ◌&&◌, ◌||◌, Option, none, some, List, [], ◌∷◌, ◌++◌,
  map, ltb, leb, ◌==◌, if◌then◌else◌, length,
}
use backend_htssclub.Base.Int.{ℤ, pos, ◌+ℤ◌, ◌-ℤ◌, ltb_ℤ}
use backend_htssclub.Common.Enums.{
  GameType, GameMode, wager, RoomStatus, waiting, starting, in_progress, closed,
}
use backend_htssclub.Common.Action.{
  Action, Exception, Result, ok, err, pure, throw, throw_if, or_throw, gets, modify, ◌>>=◌, ◌>>◌,
  bad_request, forbidden, not_found, duplicate_key, room_not_found, bad_player_counts, bad_bet,
  room_not_open, room_full, room_not_joinable, game_started, not_member, not_host, room_not_waiting,
  too_few_players, not_all_ready,
}
use backend_htssclub.Wallet.{Bank, Ref, room_code}
use backend_htssclub.Wager.{collect_stake, refund, refund_many}

abbrev pub add_member : Member → ℕ → Room → Room
add_member m amount r = record r { members = r.members ++ m ∷ []; pot = r.pot +ℤ pos amount }

-- `join` after the stake: the write, which finds the room still waiting or refunds.
unfoldable pub seat_member : Room → ℕ → Bool → Action Lobby Room
seat_member room u staked = do
  updated ← find_and_update (is_waiting_room room.id) (
      add_member (record { user_id = u; staked = staked; ready = false })
        (if staked then room.bet_amount else 0))
  elim updated [
    | some r ↦ pure r
    | none ↦ do
      if staked then at_bank (refund u (pos room.bet_amount) (room_code room.code)) else pure tt
      throw (bad_request room_not_joinable)
  ]

-- `join` on the document that it read.
unfoldable pub join_room : Room → ℕ → Action Lobby Room
join_room room u = do
  throw_if (not (is_waiting room.status)) (bad_request room_not_open)
  if is_member room u then pure room else do
    throw_if (leb room.max_players (length room.members)) (bad_request room_full)
    if is_wager room.mode
        then at_bank (collect_stake u (pos room.bet_amount) (room_code room.code))
        else pure tt
    seat_member room u (is_wager room.mode)

unfoldable pub join : ℕ → ℕ → Action Lobby Room
join i u = do room ← get_or_throw i; join_room room u

-- The retries of `create`, `k` left, on the values that `genCode` returns one after another.
unfoldable pub pick_code : ℕ → (ℕ → ℕ) → ℕ → List Room → ℕ
pick_code zero codes i rooms = codes i
pick_code (suc k) codes i rooms = elim (find_room (λ r. r.code == codes i) rooms) [
  | none ↦ codes i
  | some _ ↦ pick_code k codes (i + 1) rooms
]

-- `model.create`: the index on `code` is unique.
unfoldable pub insert_room : ℕ → CreateRoomInput → ℕ → ℕ → Action Lobby ℕ
insert_room host input bet code s = elim (find_room (λ r. r.code == code) s.rooms) [
  | some _ ↦ (err duplicate_key, s)
  | none ↦ (
    ok s.next_id,
    record s {
      rooms =
          s.rooms
          ++ record {
            id = s.next_id;
            game = input.game;
            mode = input.mode;
            code = code;
            is_private = input.is_private;
            host_id = host;
            bet_amount = bet;
            min_players = input.min_players;
            max_players = input.max_players;
            members = [];
            status = waiting;
            pot = pos 0;
            game_id = none;
          }
            ∷ [];
      next_id = s.next_id + 1;
    },
  )
]

-- `codes` are the values of `genCode`, which draws random bytes.
unfoldable pub create : (ℕ → ℕ) → ℕ → CreateRoomInput → Action Lobby Room
create codes host input = do
  throw_if (ltb input.min_players 2 || ltb input.max_players input.min_players)
      (bad_request bad_player_counts)
  throw_if (is_wager input.mode && leb input.bet_amount 0) (bad_request bad_bet)
  code ← gets (λ s. pick_code 5 codes 0 s.rooms)
  i ← insert_room host input (if is_wager input.mode then input.bet_amount else 0) code
  join i host
  get_or_throw i

unfoldable pub staked_users : List Member → List ℕ
staked_users [] = []
staked_users (m ∷ ms) = if m.staked then m.user_id ∷ staked_users ms else staked_users ms

abbrev pub close_room : Room → Room
close_room r = record r { status = closed }

-- `cancel` on the document that the caller read.
unfoldable pub cancel : Room → Action Lobby (Unit {0})
cancel room = if is_closed room.status then pure tt else do
  find_and_update (has_room_id room.id) close_room
  if is_wager room.mode
      then at_bank
          (refund_many (staked_users room.members) (pos room.bet_amount) (room_code room.code))
      else pure tt

-- `room.members.find((m) => m.userId.toString() === userId)?.staked`
unfoldable pub is_staked : ℕ → List Member → Bool
is_staked u [] = false
is_staked u (m ∷ ms) = if m.user_id == u then m.staked else is_staked u ms

-- `$pull: { members: { userId } }`
unfoldable pub pull : ℕ → List Member → List Member
pull u [] = []
pull u (m ∷ ms) = if m.user_id == u then pull u ms else m ∷ pull u ms

abbrev pub remove_member : ℕ → ℕ → Room → Room
remove_member u amount r = record r { members = pull u r.members; pot = r.pot -ℤ pos amount }

-- The result of `leave`.
pub record Left : Type 0 where
  pub room : Option Room
  pub cancelled : Bool

-- The end of `leave` for a guest of a waiting room.
unfoldable pub unseat_member : Room → ℕ → ℕ → Action Lobby Left
unseat_member room u refund_amt = do
  updated ← find_and_update (has_room_id room.id) (remove_member u refund_amt)
  if ltb 0 refund_amt then at_bank (refund u (pos refund_amt) (room_code room.code)) else pure tt
  pure (record { room = updated; cancelled = false })

-- `leave` on the document that it read.
unfoldable pub leave_room : Room → ℕ → Action Lobby Left
leave_room room u =
    if not (is_member room u)
    then pure (record { room = some room; cancelled = false })
    else if is_waiting room.status && room.host_id == u
    then (cancel room >> pure (record { room = none; cancelled = true }))
    else do
      throw_if (not (is_waiting room.status)) (bad_request game_started)
      unseat_member room u (if is_staked u room.members then room.bet_amount else 0)

unfoldable pub leave : ℕ → ℕ → Action Lobby Left
leave i u = do room ← get_or_throw i; leave_room room u

-- `'members.$.ready'`: the first member that matches.
unfoldable pub mark_ready : ℕ → Bool → List Member → List Member
mark_ready u flag [] = []
mark_ready u flag (m ∷ ms) =
    if m.user_id == u then record m { ready = flag } ∷ ms else m ∷ mark_ready u flag ms

unfoldable pub set_ready : ℕ → ℕ → Bool → Action Lobby Room
set_ready i u flag = do
  room ← get_or_throw i
  throw_if (not (is_member room u)) (forbidden not_member)
  find_and_update (λ r. r.id == room.id && has_member u r.members)
      (λ r. record r { members = mark_ready u flag r.members })
  get_or_throw i

unfoldable pub guests_ready : ℕ → List Member → Bool
guests_ready host [] = true
guests_ready host (m ∷ ms) = (m.user_id == host || m.ready) && guests_ready host ms

unfoldable pub begin_start : ℕ → ℕ → Action Lobby Room
begin_start i u = do
  room ← get_or_throw i
  throw_if (not (room.host_id == u)) (forbidden not_host)
  throw_if (not (is_waiting room.status)) (bad_request room_not_waiting)
  throw_if (ltb (length room.members) room.min_players) (bad_request too_few_players)
  throw_if (not (guests_ready room.host_id room.members)) (bad_request not_all_ready)
  updated ← find_and_update (is_waiting_room room.id) (λ r. record r { status = starting })
  or_throw updated (bad_request room_not_waiting)

unfoldable pub mark_in_progress : ℕ → ℕ → Action Lobby Room
mark_in_progress i game = do
  updated ←
      find_and_update (has_room_id i) (λ r. record r { status = in_progress; game_id = some game })
  or_throw updated (not_found room_not_found)

unfoldable pub revert_to_waiting : ℕ → Action Lobby (Unit {0})
revert_to_waiting i =
    find_and_update (λ r. r.id == i && is_starting r.status) (λ r. record r { status = waiting })
    >> pure tt

unfoldable pub close : ℕ → Action Lobby (Unit {0})
close i = find_and_update (has_room_id i) close_room >> pure tt
