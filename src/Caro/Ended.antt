-- ===== src/Caro/Ended.antt =====
-- How a match of src/games/caro/caro.service.ts ends.
use backend_htssclub.Base.{
  ◌≡◌, refl, ◌∙◌, inl, inr, Bool, true, false, Bool-cases, List, [], ◌∷◌, if◌then◌else◌, contains,
}
use backend_htssclub.Common.Action.{pure, ◌>>=◌, ◌>>◌}
use backend_htssclub.Caro.Elo.{EloDelta}
use backend_htssclub.Caro.Match.{
  Match, is_playing, clear_timer, move, resign, on_disconnect, on_reconnect, forfeit_disconnected,
  on_turn_timeout, grace_expired, turn_expired, MatchEvent, moves_to, resigns, disconnects,
  reconnects, grace_passes, turn_passes, react, react_all,
}

module _ (elo_delta : EloDelta) where
  -- The same document, lobby and points.
  abbrev IsSame : Match → Match → Type 0
  IsSame s s' = (s'.game ≡ s.game) × (s'.lobby ≡ s.lobby) × (s'.hall ≡ s.hall)

  react_over :
      (e : MatchEvent) (s : Match)
      → is_playing s.game.status ≡ false
      → IsSame s (react elo_delta e s).1
  unfolding move resign on_disconnect on_reconnect grace_expired turn_expired forfeit_disconnected
      on_turn_timeout clear_timer ◌>>=◌
  react_over (moves_to u row col) s h = rw h (refl, refl, refl)
  react_over (resigns u) s h = rw h (refl, refl, refl)
  react_over (disconnects u) s h = rw h (refl, refl, refl)
  react_over (reconnects u) s h = (refl, refl, refl)
  react_over (grace_passes u) s h = elim (Bool-cases (contains u s.grace)) [
    | inl waits ↦ rw (waits, h) (refl, refl, refl)
    | inr left ↦ rw left (refl, refl, refl)
  ]
  react_over turn_passes s h = go s.armed
    where
      go :
          (runs : Bool)
          → IsSame s ((if runs then (clear_timer >> on_turn_timeout elo_delta) else pure tt) s).1
      go true = rw h (refl, refl, refl)
      go false = (refl, refl, refl)

  -- A match that is over stays as it is, whatever reaches it: nothing is paid again, and no points
  -- change again.
  pub react_all_over :
      (es : List MatchEvent) (s : Match)
      → is_playing s.game.status ≡ false
      → let s' = react_all elo_delta es s in
        (s'.game ≡ s.game) × (s'.lobby ≡ s.lobby) × (s'.hall ≡ s.hall)
  react_all_over [] s h = (refl, refl, refl)
  react_all_over (e ∷ es) s h =
      let (g, l, k) = react_over e s h in
      let s₁ = (react elo_delta e s).1 in
      let still : is_playing s₁.game.status ≡ false = rw g h in
      let (g', l', k') = react_all_over es s₁ still in (g' ∙ g, l' ∙ l, k' ∙ k)
