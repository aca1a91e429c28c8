-- ===== src/Caro/Sound.antt =====
-- What stays true of a match of src/games/caro/caro.service.ts.
use backend_htssclub.Base.{
  ℕ, suc, ◌+◌, ◌*◌, ◌<◌, ◌≡◌, ◌⊎◌, true, ◌&&◌, List, if◌then◌else◌, count, length,
}
use backend_htssclub.Base.Int.{ℤ, pos, ◌+ℤ◌}
use backend_htssclub.Wallet.{User}
use backend_htssclub.Wallet.Users.{HasUniqueIds, total}
use backend_htssclub.Wager.Effects.{is_known}
use backend_htssclub.Caro.Match.{CaroGame, Match, is_playing, is_wager}

-- Every place is empty or a move was made there.
abbrev pub IsCounted : CaroGame → Type 0
IsCounted g = (length g.board ≡ 225) × (length g.moves + count 0 g.board ≡ 225)

-- X has as many stones as O on the turn of X, and one more on the turn of O.
abbrev pub IsTurn : CaroGame → Type 0
IsTurn g =
    (0 < count 0 g.board)
    × ((g.turn ≡ 1) × (count 1 g.board ≡ count 2 g.board)
        ⊎ ((g.turn ≡ 2) × (count 1 g.board ≡ suc (count 2 g.board))))

-- The coins that the match holds.
abbrev pub held_by : CaroGame → ℕ
held_by g = if is_playing g.status && is_wager g.mode then g.pot else 0

-- The users and what the match is to pay make up `w`.
pub record HasCoins (w : ℤ) (a : ℕ) (g : CaroGame) (us : List User) : Type 0 where
  pub unique : HasUniqueIds us
  pub known_x : is_known g.player_x us ≡ true
  pub known_o : is_known g.player_o us ≡ true
  pub stakes : g.pot ≡ g.bet_amount * 2
  pub sum : total us +ℤ pos a ≡ w

pub record IsSound (w : ℤ) (s : Match) : Type 0 where
  pub counted : IsCounted s.game
  pub turns : is_playing s.game.status ≡ true → IsTurn s.game
  pub coins : HasCoins w (held_by s.game) s.game s.lobby.bank.users
