-- ===== src/Rooms/Tests.antt =====
-- The lobby on a small bank, and its theorems at concrete inputs.
use backend_htssclub.Base.{ℕ, ◌+◌, ◌≡◌, none, refl, true, false, List, [], ◌∷◌}
use backend_htssclub.Base.Int.{pos, ◌+ℤ◌}
use backend_htssclub.Common.Enums.{caro, wager, waiting}
use backend_htssclub.Wallet.{User, Bank, find_by_id}
use backend_htssclub.Wallet.Users.{total}
use backend_htssclub.Rooms.{CreateRoomInput, Lobby, Room, leave_room, has_member, is_staked}
use backend_htssclub.Rooms.Races.{raced_leave_pays_twice}
use backend_htssclub.Wager.Effects.{is_known}
use backend_htssclub.Rooms.Held.{held}
use backend_htssclub.Rooms.Escrow.{IsSolvent}
use backend_htssclub.Rooms.History.{
  LobbyRequest, create_room, join_to, leave_from, say_ready, serve_lobby, serve_lobby-IsSolvent,
}

abbrev user : ℕ → ℕ → User
user i coins = record { id = i; balance = pos coins }

abbrev bank : Bank
bank = record { users = user 1 50 ∷ user 2 30 ∷ user 3 5 ∷ []; transactions = []; emitted = [] }

abbrev empty_lobby : Lobby
empty_lobby = record { bank = bank; rooms = []; next_id = 100 }

abbrev two_players : CreateRoomInput
two_players = record {
  game = caro;
  mode = wager;
  bet_amount = 20;
  max_players = 2;
  min_players = 2;
  is_private = false;
}

abbrev codes : ℕ → ℕ
codes k = k + 7

-- The third user cannot pay, the second joins and leaves, and the host leaves.
abbrev visits : List LobbyRequest
visits =
    create_room codes 1 two_players
    ∷ join_to 100 3
    ∷ join_to 100 2
    ∷ say_ready 100 2 true
    ∷ leave_from 100 2
    ∷ leave_from 100 1
    ∷ []

opens-IsSolvent : IsSolvent (pos 85) empty_lobby
unfolding total held ◌+ℤ◌ find_by_id
opens-IsSolvent = record { unique = (refl, (refl, (refl, tt))); backed = tt; sum = refl }

serve_lobby-IsSolvent_example : IsSolvent (pos 85) (serve_lobby visits empty_lobby)
serve_lobby-IsSolvent_example = serve_lobby-IsSolvent (pos 85) visits empty_lobby opens-IsSolvent

-- A room where both players have paid; the second is the guest.
abbrev paid_room : Room
paid_room = record {
  id = 100;
  game = caro;
  mode = wager;
  code = 7;
  is_private = false;
  host_id = 1;
  bet_amount = 20;
  min_players = 2;
  max_players = 2;
  members =
      record { user_id = 1; staked = true; ready = false }
      ∷ record { user_id = 2; staked = true; ready = false }
      ∷ [];
  status = waiting;
  pot = pos 40;
  game_id = none;
}

abbrev paid_lobby : Lobby
paid_lobby = record { bank = bank; rooms = paid_room ∷ []; next_id = 101 }

raced_leave_pays_twice_example :
    total (leave_room paid_room 2 (leave_room paid_room 2 paid_lobby).1).1.bank.users
    ≡ total bank.users +ℤ pos 20 +ℤ pos 20
raced_leave_pays_twice_example =
    raced_leave_pays_twice paid_room 2 refl refl (unfold has_member in refl)
      (unfold is_staked in refl) paid_lobby (unfold find_by_id in (refl, (refl, (refl, tt))))
      (unfold is_known find_by_id in refl) refl
