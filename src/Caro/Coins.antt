-- ===== src/Caro/Coins.antt =====
-- The handlers of src/games/caro/caro.service.ts keep the board, the turn and the coins sound.
use backend_htssclub.Base.{
  ℕ, ◌+◌, ◌*◌, ◌≡◌, refl, ap, true, false, ◌&&◌, Option, none, some, [], ◌∷◌, ltb, if◌then◌else◌,
  arith,
}
use backend_htssclub.Base.Int.{ℤ, pos, leb_ℤ, int_laws}
use backend_htssclub.Common.Action.{Action, ok, pure, ignore, ◌>>=◌}
use backend_htssclub.Common.Action.Steps.{ignore_ok}
use backend_htssclub.Common.Action.After.{
  After, After-pure, After-if, After-gets, After-modify, After-ok, After-then,
}
use backend_htssclub.Wallet.{Bank, Ref, caro_game}
use backend_htssclub.Wallet.Users.{HasUniqueIds}
use backend_htssclub.Wager.{payout, refund}
use backend_htssclub.Wager.Effects.{is_known, Shifted, payout_pays, refund_pays}
use backend_htssclub.Rooms.{at_bank, close}
use backend_htssclub.Rooms.Store.{find_and_update}
use backend_htssclub.Rooms.Escrow.{at_bank_ok}
use backend_htssclub.Leveling.Service.{add_rank_points}
use backend_htssclub.Caro.Elo.{EloDelta}
use backend_htssclub.Caro.Match.{
  CaroGame, CaroEndReason, by_draw, Match, is_playing, is_ranked, is_wager, at_lobby, at_hall,
  clear_timer, change_points, close_if_any, close_room_of, end_game, reward_winner, finish,
  reward_draw, finish_draw,
}
use backend_htssclub.Caro.Sound.{IsCounted, HasCoins, IsSound}

module _ (w : ℤ) where
  -- A match that is over, with `a` coins still to be paid.
  record IsOver (a : ℕ) (s : Match) : Type 0 where
    counted : IsCounted s.game
    over : is_playing s.game.status ≡ false
    coins : HasCoins w a s.game s.lobby.bank.users

  over-IsSound : (s : Match) → IsOver 0 s → IsSound w s
  over-IsSound s h = record {
    counted = h.counted;
    turns = λ p. ground (arith, p, h.over);
    coins = rw h.over h.coins;
  }

  module _ {A : Type 0} (m : Action Bank A) (s : Match) where
    at_lobby_ok :
        {a : A} {b : Bank}
        → m s.lobby.bank ≡ (ok a, b)
        → at_lobby (at_bank m) s ≡ (ok a, record s { lobby = record s.lobby { bank = b } })
    unfolding at_lobby
    at_lobby_ok h = rw (at_bank_ok m s.lobby h)

  close_any-IsOver :
      (room : Option ℕ) (s : Match) → IsOver 0 s → After (IsOver 0) (close_if_any room) s
  unfolding close_if_any ◌>>=◌ at_lobby close find_and_update
  close_any-IsOver none s h = h
  close_any-IsOver (some i) s h = record { counted = h.counted; over = h.over; coins = h.coins }

  close-IsOver : (s : Match) → IsOver 0 s → After (IsOver 0) close_room_of s
  unfolding close_room_of
  close-IsOver s h = After-gets (IsOver 0) _ _ s (close_any-IsOver s.game.room_id s h)

  change-IsOver :
      (a : ℕ) (da : ℤ) (b : ℕ) (db : ℤ) (s : Match)
      → IsOver 0 s
      → After (IsOver 0) (change_points a da b db) s
  unfolding change_points ◌>>=◌ at_hall
  change-IsOver a da b db s h =
      After-then (IsOver 0) (at_hall (add_rank_points a da)) _ _
        (record { counted = h.counted; over = h.over; coins = coins_of h })
        (λ r t q.
          After-then (IsOver 0) (at_hall (add_rank_points b db)) (λ _. pure tt) t
            (record { counted = q.counted; over = q.over; coins = q.coins }) (λ _ u v. v))
    where
      coins_of :
          IsOver 0 s
          → HasCoins w 0
              (record s.game { rp_change = some ((a, da) ∷ (b, db) ∷ []) })
              s.lobby.bank.users
      coins_of k = record {
        unique = k.coins.unique;
        known_x = k.coins.known_x;
        known_o = k.coins.known_o;
        stakes = k.coins.stakes;
        sum = k.coins.sum;
      }

  -- A payment to a known user goes through.
  Pays : Action Bank (Unit {0}) → ℕ → Match → Type 0
  Pays m a s =
      (b' : Bank) × (m s.lobby.bank ≡ (ok tt, b')) × Shifted (pos a) s.lobby.bank.users b'.users

  paid-IsOver :
      (m : Action Bank (Unit {0})) (a c : ℕ) (s : Match)
      → IsOver (a + c) s
      → Pays m a s
      → (s' : Match) × (ignore (at_lobby (at_bank m)) s ≡ (ok tt, s'))
        × IsOver c s'
        × (s'.game ≡ s.game)
  unfolding Pays
  paid-IsOver m a c s h (b', ran, shift) = (
    record s { lobby = record s.lobby { bank = b' } },
    ignore_ok (at_lobby (at_bank m)) s (at_lobby_ok m s ran),
    record {
      counted = h.counted;
      over = h.over;
      coins = record {
        unique = shift.unique;
        known_x = shift.keeps _ h.coins.known_x;
        known_o = shift.keeps _ h.coins.known_o;
        stakes = h.coins.stakes;
        sum = rw (shift.moved, ← h.coins.sum) (omega int_laws);
      };
    },
    refl,
  )

  same-IsOver : (a c : ℕ) (s : Match) → a ≡ c → IsOver a s → IsOver c s
  same-IsOver a c s e h = rw (← e) h

  winner_paid :
      (a winner : ℕ) (ref : Ref) (s : Match)
      → HasUniqueIds s.lobby.bank.users
      → is_known winner s.lobby.bank.users ≡ true
      → leb_ℤ (pos a) (pos 0) ≡ false
      → Pays (payout winner (pos a) ref) a s
  unfolding Pays
  winner_paid a winner ref s = payout_pays winner (pos a) ref s.lobby.bank

  player_refunded :
      (a player : ℕ) (ref : Ref) (s : Match)
      → HasUniqueIds s.lobby.bank.users
      → is_known player s.lobby.bank.users ≡ true
      → leb_ℤ (pos a) (pos 0) ≡ false
      → Pays (refund player (pos a) ref) a s
  unfolding Pays
  player_refunded a player ref s = refund_pays player (pos a) ref s.lobby.bank

  free_mode : (g : CaroGame) → is_ranked g.mode ≡ true → (if is_wager g.mode then g.pot else 0) ≡ 0
  free_mode g h = ground (arith, h)

  ended-IsOver :
      (winner : Option ℕ) (reason : CaroEndReason) (s : Match)
      → IsCounted s.game
      → HasCoins w (if is_wager s.game.mode then s.game.pot else 0) s.game s.lobby.bank.users
      → IsOver
          (if is_wager s.game.mode then s.game.pot else 0)
          (record s { armed = false; game = end_game winner reason s.game })
  ended-IsOver winner reason s counted coins = record {
    counted = counted;
    over = refl;
    coins = record {
      unique = coins.unique;
      known_x = coins.known_x;
      known_o = coins.known_o;
      stakes = coins.stakes;
      sum = coins.sum;
    };
  }

  module _ (elo_delta : EloDelta) where
    reward_winner-IsOver :
        (winner loser : ℕ) (g : CaroGame) (s : Match)
        → IsOver (if is_wager g.mode then g.pot else 0) s
        → is_known winner s.lobby.bank.users ≡ true
        → After (IsOver 0) (reward_winner elo_delta winner loser g) s
    unfolding reward_winner
    reward_winner-IsOver winner loser g s h known =
        After-if (IsOver 0) (is_ranked g.mode) _ _ s
          (λ points.
            After-gets (IsOver 0) _ _ s
              (change-IsOver _ _ _ _ s (same-IsOver _ 0 s (free_mode g points) h)))
          (λ coins.
            After-if (IsOver 0) (is_wager g.mode && ltb 0 g.pot) _ _ s
              (λ pays. After-gets (IsOver 0) _ _ s (
                let m = payout winner (pos g.pot) (caro_game s.id) in
                let positive : leb_ℤ (pos g.pot) (pos 0) ≡ false = ground (arith, pays) in
                let bets : is_wager g.mode ≡ true = ground (arith, pays) in
                let (t, ran, paid, _) =
                  paid-IsOver m g.pot 0 s (same-IsOver _ _ s (rw bets (omega arith)) h)
                    (winner_paid g.pot winner (caro_game s.id) s h.coins.unique known positive) in
                rw ran paid))
              (λ free. After-pure (IsOver 0) tt s (same-IsOver _ 0 s (ground (arith, free)) h)))

    close-IsSound :
        (m : Action Match (Unit {0})) (s : Match)
        → After (IsOver 0) m s
        → After (IsSound w) (m >>= λ _. close_room_of) s
    close-IsSound m s h =
        over-IsSound ((m >>= λ _. close_room_of) s).1
          (After-then (IsOver 0) m (λ _. close_room_of) s h (λ _ t q. close-IsOver t q))

    -- A match is finished for a known winner.
    pub finish-IsSound :
        (winner : ℕ) (reason : CaroEndReason) (s : Match)
        → IsCounted s.game
        → HasCoins w (if is_wager s.game.mode then s.game.pot else 0) s.game s.lobby.bank.users
        → is_known winner s.lobby.bank.users ≡ true
        → After (IsSound w) (finish elo_delta winner reason) s
    unfolding finish clear_timer
    finish-IsSound winner reason s counted coins known = After-modify (IsSound w) _ _ s (
        After-gets (IsSound w) _ _ _ (
          After-modify (IsSound w) _ _ _ (
            close-IsSound _ _ (
              reward_winner-IsOver winner _ s.game _
                (ended-IsOver (some winner) reason s counted coins) known))))

    reward_draw-IsOver :
        (g : CaroGame) (s : Match)
        → (g.player_x ≡ s.game.player_x)
        → (g.player_o ≡ s.game.player_o)
        → (g.pot ≡ g.bet_amount * 2)
        → IsOver (if is_wager g.mode then g.pot else 0) s
        → After (IsOver 0) (reward_draw elo_delta g) s
    unfolding reward_draw
    reward_draw-IsOver g s same_x same_o stakes h =
        After-if (IsOver 0) (is_ranked g.mode) _ _ s
          (λ points.
            After-gets (IsOver 0) _ _ s
              (change-IsOver _ _ _ _ s (same-IsOver _ 0 s (free_mode g points) h)))
          (λ coins.
            After-if (IsOver 0) (is_wager g.mode && ltb 0 g.pot) _ _ s
              (λ pays. After-gets (IsOver 0) _ _ s (
                let b = g.bet_amount in
                let positive : leb_ℤ (pos b) (pos 0) ≡ false = ground (arith, pays, stakes) in
                let bets : is_wager g.mode ≡ true = ground (arith, pays) in
                let known_x : is_known g.player_x s.lobby.bank.users ≡ true =
                  rw same_x h.coins.known_x in
                let (t, ran, half, same) =
                  paid-IsOver (refund g.player_x (pos b) (caro_game s.id)) b b s
                    (same-IsOver _ _ s (rw (bets, stakes) (omega arith)) h)
                    (player_refunded b g.player_x (caro_game s.id) s h.coins.unique known_x
                      positive) in
                let known_o : is_known g.player_o t.lobby.bank.users ≡ true =
                  rw (same_o, ← ap (λ x. x.player_o) same) half.coins.known_o in
                let (_, ran', paid, _) =
                  paid-IsOver (refund g.player_o (pos b) (caro_game s.id)) b 0 t
                    (same-IsOver _ _ t (omega arith) half)
                    (player_refunded b g.player_o (caro_game s.id) t half.coins.unique known_o
                      positive) in
                After-ok (IsOver 0) _ _ s ran (rw ran' paid)))
              (λ free. After-pure (IsOver 0) tt s (same-IsOver _ 0 s (ground (arith, free)) h)))

    pub finish_draw-IsSound :
        (s : Match)
        → IsCounted s.game
        → HasCoins w (if is_wager s.game.mode then s.game.pot else 0) s.game s.lobby.bank.users
        → After (IsSound w) (finish_draw elo_delta) s
    unfolding finish_draw clear_timer
    finish_draw-IsSound s counted coins = After-modify (IsSound w) _ _ s (
        After-gets (IsSound w) _ _ _ (
          After-modify (IsSound w) _ _ _ (
            close-IsSound _ _ (
              reward_draw-IsOver s.game _ refl refl coins.stakes
                (ended-IsOver none by_draw s counted coins)))))
