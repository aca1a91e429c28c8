-- ===== src/Caro/History.antt =====
-- A match of src/games/caro/caro.service.ts over everything that reaches it.
use backend_htssclub.Base.{
  ℕ, ◌+◌, ◌<◌, ◌≡◌, refl, ◌⊎◌, inl, inr, true, false, not, ◌||◌, Bool-cases, List, [], ◌∷◌, ◌==◌,
  if◌then◌else◌, arith, count, length-append, contains,
}
use backend_htssclub.Base.Int.{ℤ}
use backend_htssclub.Common.Action.{◌>>=◌}
use backend_htssclub.Common.Action.After.{
  After, After-pure, After-guard, After-if, After-gets, After-modify,
}
use backend_htssclub.Wallet.{User}
use backend_htssclub.Wager.Effects.{is_known}
use backend_htssclub.Caro.{Board, MoveResult, refused, win, draw, goes_on}
use backend_htssclub.Caro.Elo.{EloDelta}
use backend_htssclub.Caro.Match.{
  CaroGame, Match, is_playing, is_wager, mark_of, opponent_of, start_turn_timer, clear_timer,
  after_move, with_move, move, resign, on_disconnect, on_reconnect, forfeit_disconnected,
  grace_expired, turn_expired, on_turn_timeout, finish, CaroEndReason, by_win, by_resign,
  MatchEvent, moves_to, resigns, disconnects, reconnects, grace_passes, turn_passes, react,
  react_all,
}
use backend_htssclub.Caro.Turns.{IsPlaced, Outcome, apply_move_lem, placed_counts}
use backend_htssclub.Caro.Sound.{IsCounted, IsTurn, HasCoins, IsSound}
use backend_htssclub.Caro.Coins.{finish-IsSound, finish_draw-IsSound}

-- The mark that a player has.
IsMark : CaroGame → ℕ → ℕ → Type 0
IsMark g user mark = ((mark ≡ 1) × (g.player_x ≡ user)) ⊎ ((mark ≡ 2) × (g.player_o ≡ user))

mark_of-IsMark :
    (g : CaroGame) (user : ℕ) → (mark_of g user == 0) ≡ false → IsMark g user (mark_of g user)
unfolding IsMark mark_of
mark_of-IsMark g user h = elim (Bool-cases (g.player_x == user)) [
  | inl x ↦ inl (rw x refl, ground arith)
  | inr not_x ↦ elim (Bool-cases (g.player_o == user)) [
    | inl o ↦ inr (rw (not_x, o) refl, ground arith)
    | inr not_o ↦ absurd (ground (arith, h, not_x, not_o))
  ]
]

module _ (w : ℤ) (elo_delta : EloDelta) where
  same_coins :
      {a : ℕ} {us : List User} (g g' : CaroGame)
      → g'.player_x ≡ g.player_x
      → g'.player_o ≡ g.player_o
      → g'.pot ≡ g.pot
      → g'.bet_amount ≡ g.bet_amount
      → HasCoins w a g us
      → HasCoins w a g' us
  same_coins g g' x o p b h = record {
    unique = h.unique;
    known_x = rw x h.known_x;
    known_o = rw o h.known_o;
    stakes = rw (p, b) h.stakes;
    sum = h.sum;
  }

  After-started : {s : Match} → IsSound w s → After (IsSound w) start_turn_timer s
  unfolding start_turn_timer
  After-started h = unfold ◌>>=◌ in record { counted = h.counted; turns = h.turns; coins = h.coins }

  pot_held :
      (s : Match)
      → is_playing s.game.status ≡ true
      → IsSound w s
      → HasCoins w (if is_wager s.game.mode then s.game.pot else 0) s.game s.lobby.bank.users
  pot_held s p h = rw p at h.coins

  module _ (s : Match) (h : IsSound w s) (playing : is_playing s.game.status ≡ true) where
    player_known :
        (user mark : ℕ) → IsMark s.game user mark → is_known user s.lobby.bank.users ≡ true
    unfolding IsMark
    player_known user mark (inl (_, x)) = rw (← x) h.coins.known_x
    player_known user mark (inr (_, o)) = rw (← o) h.coins.known_o

    opponent_known : (user : ℕ) → is_known (opponent_of s.game user) s.lobby.bank.users ≡ true
    unfolding opponent_of
    opponent_known user = elim (Bool-cases (s.game.player_x == user)) [
      | inl x ↦ rw x h.coins.known_o
      | inr o ↦ rw o h.coins.known_x
    ]

    placed-IsCounted :
        (mark : ℕ) (row col : ℤ) (board : Board) (user : ℕ)
        → IsMark s.game user mark
        → IsPlaced s.game.board row col mark board
        → IsCounted (with_move mark row col board s.game)
    unfolding IsMark
    placed-IsCounted mark row col board user m placed =
        let (size, counts) = placed_counts s.game.board row col mark board placed in
        let empty : count 0 board + 1 ≡ count 0 s.game.board = ground (arith, counts 0, m) in
        let made = length-append s.game.moves (record { by = mark; row = row; col = col } ∷ []) in
        (omega (arith, size, h.counted.0), omega (arith, made, empty, h.counted.1))

    next_turn :
        (mark : ℕ) (row col : ℤ) (board : Board) (user : ℕ)
        → IsMark s.game user mark
        → s.game.turn ≡ mark
        → IsPlaced s.game.board row col mark board
        → 0 < count 0 board
        → IsTurn
            (record (with_move mark row col board s.game) { turn = if mark == 1 then 2 else 1 })
    unfolding IsMark
    next_turn mark row col board user m t placed free =
        let (_, counts) = placed_counts s.game.board row col mark board placed in
        let (_, before) = h.turns playing in
        (free, ground (arith, counts 1, counts 2, before, m, t))

    after_move-IsSound :
        (mark : ℕ) (row col : ℤ) (user : ℕ) (result : MoveResult)
        → IsMark s.game user mark
        → s.game.turn ≡ mark
        → Outcome s.game.board row col mark result
        → After (IsSound w) (after_move elo_delta s.game mark row col user result) s
    unfolding after_move
    after_move-IsSound mark row col user (refused reason) m t o = unfold ◌>>=◌ in h
    after_move-IsSound mark row col user (win board line) m t (placed, found) =
        After-modify (IsSound w) _ _ s (
          finish-IsSound w elo_delta user by_win _
            (placed-IsCounted mark row col board user m placed)
            (same_coins s.game _ refl refl refl refl (pot_held s playing h))
            (player_known user mark m))
    after_move-IsSound mark row col user (draw board) m t (placed, _, full) =
        After-modify (IsSound w) _ _ s (
          finish_draw-IsSound w elo_delta _ (placed-IsCounted mark row col board user m placed)
            (same_coins s.game _ refl refl refl refl (pot_held s playing h)))
    after_move-IsSound mark row col user (goes_on board) m t (placed, _, free) =
        After-modify (IsSound w) _ _ s (
          After-started (record {
            counted = placed-IsCounted mark row col board user m placed;
            turns = λ _. next_turn mark row col board user m t placed free;
            coins = same_coins s.game _ refl refl refl refl h.coins;
          }))

    finish-opponent :
        (user : ℕ) (reason : CaroEndReason)
        → After (IsSound w) (finish elo_delta (opponent_of s.game user) reason) s
    finish-opponent user reason =
        finish-IsSound w elo_delta _ reason s h.counted (pot_held s playing h) (opponent_known user)

  module _ (s : Match) (h : IsSound w s) where
    move-IsSound : (user : ℕ) (row col : ℤ) → After (IsSound w) (move elo_delta user row col) s
    unfolding move
    move-IsSound user row col =
        let mark = mark_of s.game user in
        After-gets (IsSound w) _ _ s (
          After-guard (IsSound w) (not (is_playing s.game.status)) _ _ s h λ running.
            After-guard (IsSound w) (mark == 0) _ _ s h λ player.
              After-guard (IsSound w) (not (s.game.turn == mark)) _ _ s h λ turn.
                after_move-IsSound s h (ground arith) mark row col user _
                  (mark_of-IsMark s.game user player) (ground arith)
                  (apply_move_lem s.game.board row col mark))

    resign-IsSound : (user : ℕ) → After (IsSound w) (resign elo_delta user) s
    unfolding resign
    resign-IsSound user = After-gets (IsSound w) _ _ s (
        After-guard (IsSound w) (not (is_playing s.game.status)) _ _ s h λ running.
          After-guard (IsSound w) (mark_of s.game user == 0) _ _ s h
            λ player. finish-opponent s h (ground arith) user by_resign)

    forfeit-IsSound : (user : ℕ) → After (IsSound w) (forfeit_disconnected elo_delta user) s
    unfolding forfeit_disconnected
    forfeit-IsSound user = After-gets (IsSound w) _ _ s (
        After-if (IsSound w) (not (is_playing s.game.status)) _ _ s
          (λ _. After-pure (IsSound w) tt s h)
          (λ running. finish-opponent s h (ground arith) user _))

    timeout-IsSound : After (IsSound w) (on_turn_timeout elo_delta) s
    unfolding on_turn_timeout
    timeout-IsSound = After-gets (IsSound w) _ _ s (
        After-if (IsSound w) (not (is_playing s.game.status)) _ _ s
          (λ _. After-pure (IsSound w) tt s h) (λ running. finish-opponent s h (ground arith) _ _))

  -- Timers are no part of what is kept.
  timers : (s s' : Match) → s'.game ≡ s.game → s'.lobby ≡ s.lobby → IsSound w s → IsSound w s'
  timers s s' g l h = record {
    counted = rw g h.counted;
    turns = rw g h.turns;
    coins = rw (g, l) h.coins;
  }

  disconnect-IsSound : (u : ℕ) (s : Match) → IsSound w s → After (IsSound w) (on_disconnect u) s
  unfolding on_disconnect ◌>>=◌
  disconnect-IsSound u s h =
      elim (Bool-cases (not (is_playing s.game.status) || mark_of s.game u == 0)) [
        | inl idle ↦ rw idle h
        | inr there ↦ rw there (timers s _ refl refl h)
      ]

  reconnect-IsSound : (u : ℕ) (s : Match) → IsSound w s → After (IsSound w) (on_reconnect u) s
  unfolding on_reconnect ◌>>=◌
  reconnect-IsSound u s h = timers s _ refl refl h

  react-IsSound :
      (e : MatchEvent) (s : Match) → IsSound w s → After (IsSound w) (react elo_delta e) s
  unfolding grace_expired turn_expired clear_timer
  react-IsSound (moves_to u row col) s h = move-IsSound s h u row col
  react-IsSound (resigns u) s h = resign-IsSound s h u
  react-IsSound (disconnects u) s h = disconnect-IsSound u s h
  react-IsSound (reconnects u) s h = reconnect-IsSound u s h
  react-IsSound (grace_passes u) s h = After-gets (IsSound w) _ _ s (
      After-if (IsSound w) (contains u s.grace) _ _ s
        (λ _. After-modify (IsSound w) _ _ s (forfeit-IsSound _ (timers s _ refl refl h) u))
        (λ _. After-pure (IsSound w) tt s h))
  react-IsSound turn_passes s h = After-gets (IsSound w) _ _ s (
      After-if (IsSound w) s.armed _ _ s
        (λ _. After-modify (IsSound w) _ _ s (timeout-IsSound _ (timers s _ refl refl h)))
        (λ _. After-pure (IsSound w) tt s h))

  -- Over every history of moves, resignations, lost connections and timers, refused requests
  -- included: as many moves were made as places are taken; on the turn of X both have as many
  -- stones, on the turn of O X has one more, and a place is free; and the coins of the users and of
  -- the pot of a running match keep their sum.
  pub react_all-IsSound :
      (es : List MatchEvent) (s : Match) → IsSound w s → IsSound w (react_all elo_delta es s)
  react_all-IsSound [] s h = h
  react_all-IsSound (e ∷ es) s h =
      react_all-IsSound es (react elo_delta e s).1 (react-IsSound e s h)
