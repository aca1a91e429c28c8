-- ===== src/Rooms/History.antt =====
-- Every history of the lobby conserves coins.
use backend_htssclub.Base.{
  ℕ, ◌≡◌, refl, inl, inr, true, ◌&&◌, Bool, Option-cases, none, List, [], ◌∷◌, ◌++◌, arith, ◌==◌,
  ltb,
}
use backend_htssclub.Base.Int.{ℤ, pos, ◌+ℤ◌, int_laws}
use backend_htssclub.Common.Enums.{starting, waiting}
use backend_htssclub.Common.Action.{Action, ◌>>◌, pure}
use backend_htssclub.Common.Action.Keeps.{Keeps, Keeps-guarded, Keeps-bind, Keeps-gets, keeps_rules}
use backend_htssclub.Wallet.{User}
use backend_htssclub.Rooms.{
  Room, Lobby, CreateRoomInput, find_room, find_and_update, is_waiting_room, is_wager, has_member,
  get_or_throw, join, create, insert_room, staked_users, mark_ready, leave, set_ready, begin_start,
  revert_to_waiting,
}
use backend_htssclub.Rooms.Held.{holds, held, IsBacked, AllBacked, find_room-holds}
use backend_htssclub.Rooms.Members.{OnceEach-mark, staked-mark}
use backend_htssclub.Rooms.Escrow.{
  IsSolvent, find_and_update-some, find_and_update-none, update-IsSolvent,
}
use backend_htssclub.Rooms.Joining.{join-IsSolvent}
use backend_htssclub.Rooms.Leaving.{leave-IsSolvent}

-- What a client asks of the lobby.
pub data LobbyRequest : Type 0 where
  create_room : (ℕ → ℕ) → ℕ → CreateRoomInput → LobbyRequest
  join_to leave_from start_game : ℕ → ℕ → LobbyRequest
  say_ready : ℕ → ℕ → Bool → LobbyRequest
  launch_failed : ℕ → LobbyRequest

unfoldable pub serve : LobbyRequest → Action Lobby (Unit {0})
serve (create_room codes host input) = create codes host input >> pure tt
serve (join_to i u) = join i u >> pure tt
serve (leave_from i u) = leave i u >> pure tt
serve (start_game i u) = begin_start i u >> pure tt
serve (say_ready i u flag) = set_ready i u flag >> pure tt
serve (launch_failed i) = revert_to_waiting i

-- One request after another, those that throw included.
unfoldable pub serve_lobby : List LobbyRequest → Lobby → Lobby
serve_lobby [] s = s
serve_lobby (q ∷ qs) s = serve_lobby qs (serve q s).1

-- The document that `create` inserts.
abbrev new_room : ℕ → CreateRoomInput → ℕ → ℕ → ℕ → Room
new_room host input bet code i = record {
  id = i;
  game = input.game;
  mode = input.mode;
  code = code;
  is_private = input.is_private;
  host_id = host;
  bet_amount = bet;
  min_players = input.min_players;
  max_players = input.max_players;
  members = [];
  status = waiting;
  pot = pos 0;
  game_id = none;
}

new_room-IsBacked :
    (host : ℕ) (input : CreateRoomInput) (bet code i : ℕ) (us : List User)
    → (is_wager input.mode ≡ true → ltb 0 bet ≡ true)
    → IsBacked us (new_room host input bet code i)
unfolding staked_users
new_room-IsBacked host input bet code i us priced = record {
  pot_is = refl;
  known = tt;
  once = tt;
  free = λ h. refl;
  priced = priced;
}

held-snoc : (rs : List Room) (r : Room) → held (rs ++ r ∷ []) ≡ held rs +ℤ holds r
unfolding held
held-snoc [] r = omega int_laws
held-snoc (q ∷ rs) r = grind (int_laws, held-snoc rs r)

AllBacked-snoc :
    (us : List User) (rs : List Room) (r : Room)
    → IsBacked us r
    → AllBacked us rs
    → AllBacked us (rs ++ r ∷ [])
AllBacked-snoc us [] r b a = (b, tt)
AllBacked-snoc us (q ∷ rs) r b a = (a.0, AllBacked-snoc us rs r b a.1)

module _ (w : ℤ) where
  -- An update that touches neither pot nor stakes.
  update-Keeps :
      (p : Room → Bool) (f : Room → Room)
      → ((us : List User) (r : Room) → IsBacked us r → IsBacked us (f r))
      → ((r : Room) → p r ≡ true → holds (f r) ≡ holds r)
      → Keeps (IsSolvent w) (find_and_update p f)
  update-Keeps p f backs same = record {
    at = λ s k. elim (Option-cases (find_room p s.rooms)) [
      | inl missing ↦ rw (find_and_update-none p f s missing) k
      | inr (r, e) ↦ rw (find_and_update-some p f s r e) (
          update-IsSolvent p f s w (pos 0) r e k.unique k.backed (backs s.bank.users r)
            (rw (same r (find_room-holds p s.rooms r e)) (omega int_laws))
            (rw k.sum (omega int_laws)))
    ];
  }

  get_or_throw-Keeps : (i : ℕ) → Keeps (IsSolvent w) (get_or_throw i)
  unfolding get_or_throw
  get_or_throw-Keeps i = search keeps_rules

  mark-Keeps :
      (i u : ℕ) (flag : Bool)
      → Keeps (IsSolvent w) (
          find_and_update
            (λ r. r.id == i && has_member u r.members)
            (λ r. record r { members = mark_ready u flag r.members }))
  unfolding holds
  mark-Keeps i u flag =
      update-Keeps _ _
        (λ us r b. record {
          pot_is = rw (staked-mark u flag r.members) b.pot_is;
          known = rw (staked-mark u flag r.members) b.known;
          once = OnceEach-mark u flag r.members b.once;
          free = λ h. rw (staked-mark u flag r.members) (b.free h);
          priced = b.priced;
        })
        (λ r h. refl)

  start-Keeps :
      (i : ℕ)
      → Keeps
          (IsSolvent w)
          (find_and_update (is_waiting_room i) (λ r. record r { status = starting }))
  unfolding holds
  start-Keeps i =
      update-Keeps _ _
        (λ us r b. record {
          pot_is = b.pot_is;
          known = b.known;
          once = b.once;
          free = b.free;
          priced = b.priced;
        })
        (λ r h. ground (arith, h))

  revert-Keeps : (i : ℕ) → Keeps (IsSolvent w) (revert_to_waiting i)
  unfolding revert_to_waiting holds
  revert-Keeps i =
      Keeps-bind _ _
        (update-Keeps _ _
          (λ us r b. record {
            pot_is = b.pot_is;
            known = b.known;
            once = b.once;
            free = b.free;
            priced = b.priced;
          })
          (λ r h. ground (arith, h)))
        (λ r. search keeps_rules)

  set_ready-Keeps : (i u : ℕ) (flag : Bool) → Keeps (IsSolvent w) (set_ready i u flag)
  unfolding set_ready
  set_ready-Keeps i u flag = search (keeps_rules, get_or_throw-Keeps, mark-Keeps) depth 9

  begin_start-Keeps : (i u : ℕ) → Keeps (IsSolvent w) (begin_start i u)
  unfolding begin_start
  begin_start-Keeps i u = search (keeps_rules, get_or_throw-Keeps, start-Keeps) depth 9

  join-Keeps : (i u : ℕ) → Keeps (IsSolvent w) (join i u)
  join-Keeps i u = record { at = join-IsSolvent w i u }

  leave-Keeps : (i u : ℕ) → Keeps (IsSolvent w) (leave i u)
  leave-Keeps i u = record { at = leave-IsSolvent w i u }

  insert_room-Keeps :
      (host : ℕ) (input : CreateRoomInput) (bet code : ℕ)
      → (is_wager input.mode ≡ true → ltb 0 bet ≡ true)
      → Keeps (IsSolvent w) (insert_room host input bet code)
  unfolding insert_room
  insert_room-Keeps host input bet code priced = record {
    at = λ s k. elim (Option-cases (find_room (λ r. r.code == code) s.rooms)) [
      | inr (r, e) ↦ rw (e, insert_room) k
      | inl fresh ↦
          let room = new_room host input bet code s.next_id in
          rw (fresh, insert_room)
            (record {
              unique = k.unique;
              backed =
                  AllBacked-snoc s.bank.users s.rooms room
                    (new_room-IsBacked host input bet code s.next_id s.bank.users priced) k.backed;
              sum = rw (held-snoc s.rooms room) (rw (← k.sum) (unfold holds in omega int_laws));
            })
    ];
  }

  create-Keeps :
      (codes : ℕ → ℕ) (host : ℕ) (input : CreateRoomInput)
      → Keeps (IsSolvent w) (create codes host input)
  unfolding create
  create-Keeps codes host input = Keeps-guarded _ _ _ λ counts. Keeps-guarded _ _ _ λ priced.
      Keeps-bind _ _ (Keeps-gets _) λ code.
        Keeps-bind _ _ (insert_room-Keeps host input _ code (λ bets. ground (arith, priced, bets)))
          λ i. search (keeps_rules, join-Keeps, get_or_throw-Keeps)

  serve-Keeps : (q : LobbyRequest) → Keeps (IsSolvent w) (serve q)
  unfolding serve
  serve-Keeps (create_room codes host input) = search (keeps_rules, create-Keeps)
  serve-Keeps (join_to i u) = search (keeps_rules, join-Keeps)
  serve-Keeps (leave_from i u) = search (keeps_rules, leave-Keeps)
  serve-Keeps (start_game i u) = search (keeps_rules, begin_start-Keeps)
  serve-Keeps (say_ready i u flag) = search (keeps_rules, set_ready-Keeps)
  serve-Keeps (launch_failed i) = revert-Keeps i

  -- Whatever is asked of the lobby, in any order and with any outcome: the coins of all users and
  -- of the pots of the open rooms stay the same sum, every pot is the stakes of the members that
  -- the room then has, and nobody has a seat in a room twice.
  pub serve_lobby-IsSolvent :
      (qs : List LobbyRequest) (s : Lobby) → IsSolvent w s → IsSolvent w (serve_lobby qs s)
  unfolding serve_lobby
  serve_lobby-IsSolvent [] s k = k
  serve_lobby-IsSolvent (q ∷ qs) s k =
      serve_lobby-IsSolvent qs (serve q s).1 ((serve-Keeps q).at s k)
