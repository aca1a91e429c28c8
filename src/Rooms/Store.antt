-- ===== src/Rooms/Store.antt =====
-- schemas/game-room.schema.ts and the queries of src/games/common/rooms.service.ts on the collection
-- of rooms.
use backend_htssclub.Base.{
  ℕ, Bool, true, false, ◌&&◌, ◌||◌, Option, none, some, List, [], ◌∷◌, ◌==◌, if◌then◌else◌,
}
use backend_htssclub.Base.Int.{ℤ}
use backend_htssclub.Common.Enums.{GameType, GameMode, wager, RoomStatus, waiting, starting, closed}
use backend_htssclub.Common.Action.{Action, ok, or_throw, gets, ◌>>=◌, not_found, room_not_found}
use backend_htssclub.Wallet.{Bank}

pub record Member : Type 0 where
  pub user_id : ℕ
  pub staked : Bool
  pub ready : Bool

pub record Room : Type 0 where
  pub id : ℕ
  pub game : GameType
  pub mode : GameMode
  pub code : ℕ
  pub is_private : Bool
  pub host_id : ℕ
  pub bet_amount : ℕ
  pub min_players : ℕ
  pub max_players : ℕ
  pub members : List Member
  pub status : RoomStatus
  pub pot : ℤ
  pub game_id : Option ℕ

pub record CreateRoomInput : Type 0 where
  pub game : GameType
  pub mode : GameMode
  pub bet_amount : ℕ
  pub max_players : ℕ
  pub min_players : ℕ
  pub is_private : Bool

-- `next_id` is the identifier of the next document.
pub record Lobby : Type 0 where
  pub bank : Bank
  pub rooms : List Room
  pub next_id : ℕ

-- A call of the wager service.
unfoldable pub at_bank : {A : Type 0} → Action Bank A → Action Lobby A
at_bank m s = let (r, b) = m s.bank in (r, record s { bank = b })

abbrev pub is_waiting : RoomStatus → Bool
is_waiting waiting = true
is_waiting _ = false

abbrev pub is_starting : RoomStatus → Bool
is_starting starting = true
is_starting _ = false

abbrev pub is_closed : RoomStatus → Bool
is_closed closed = true
is_closed _ = false

abbrev pub is_wager : GameMode → Bool
is_wager wager = true
is_wager _ = false

unfoldable pub find_room : (Room → Bool) → List Room → Option Room
find_room p [] = none
find_room p (r ∷ rs) = if p r then some r else find_room p rs

-- The update of the first room that passes the filter.
unfoldable pub update_room : (Room → Bool) → (Room → Room) → List Room → List Room
update_room p f [] = []
update_room p f (r ∷ rs) = if p r then f r ∷ rs else r ∷ update_room p f rs

abbrev pub has_room_id : ℕ → Room → Bool
has_room_id i r = r.id == i

-- `{ _id, status: RoomStatus.WAITING }`
abbrev pub is_waiting_room : ℕ → Room → Bool
is_waiting_room i r = r.id == i && is_waiting r.status

-- `findOneAndUpdate(filter, update, { new: true })`
unfoldable pub find_and_update : (Room → Bool) → (Room → Room) → Action Lobby (Option Room)
find_and_update p f s = (
  ok (elim (find_room p s.rooms) [ none ↦ none | some r ↦ some (f r) ]),
  record s { rooms = update_room p f s.rooms },
)

unfoldable pub get_or_throw : ℕ → Action Lobby Room
get_or_throw i = do
  room ← gets (λ s. find_room (has_room_id i) s.rooms)
  or_throw room (not_found room_not_found)

unfoldable pub has_member : ℕ → List Member → Bool
has_member u [] = false
has_member u (m ∷ ms) = m.user_id == u || has_member u ms

abbrev pub is_member : Room → ℕ → Bool
is_member room u = has_member u room.members
