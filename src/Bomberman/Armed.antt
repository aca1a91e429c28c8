-- ===== src/Bomberman/Armed.antt =====
-- How many bombs the players of src/games/bomberman/bomberman.logic.ts have out, and their powers.
use backend_htssclub.Base.{
  ℕ, ◌+◌, ◌-◌, ◌≤◌, ◌<◌, ◌≡◌, refl, sym, ap, ◌∙◌, inl, inr, Bool, true, false, not, ◌&&◌,
  Bool-cases, Option, none, some, List, [], ◌∷◌, ◌++◌, ltb, ◌==◌, if◌then◌else◌, arith,
}
use mathlib.Core.List.{Memᴰ}
use mathlib.Core.List.Memᴰ.{head, tail}
use backend_htssclub.Bomberman.{
  BPlayer, Bomb, BombermanState, Run, find_player, change_player, is_detonated, break_brick,
  release,
}
use backend_htssclub.Bomberman.Chains.{break_brick-detonated, is_stored, is_detonated-snoc}

-- The bombs of a user that have not gone off.
unfoldable pub owned : ℕ → List Bomb → List Bomb → ℕ
owned u done [] = 0
owned u done (b ∷ bs) =
    (if b.owner_id == u && not (is_detonated b.id done) then 1 else 0) + owned u done bs

-- Identifiers are distinct and below the next one.
abbrev pub AreFresh : ℕ → List Bomb → Type 0
AreFresh n [] = Unit
AreFresh n (b ∷ bs) = (is_stored b bs ≡ false) × ((b.id < n) × AreFresh n bs)

abbrev pub IsFit : ℕ → BPlayer → Type 0
IsFit n p =
    (p.bombs_out ≡ n)
    × ((p.bombs_out ≤ p.max_bombs) × ((p.max_bombs ≤ 8) × ((p.flame ≤ 9) × (p.speed ≤ 80))))

-- Every player has as many bombs out as lie on the map, no more than allowed, and no power exceeds
-- its bound.
pub record IsArmed (w : BombermanState) : Type 0 where
  pub fit : (u : ℕ) (p : BPlayer) → find_player u w.players ≡ some p → IsFit (owned u [] w.bombs) p
  pub fresh : AreFresh w.next_bomb w.bombs

abbrev pub over : (BPlayer → BPlayer) → Option BPlayer → Option BPlayer
over f none = none
over f (some p) = some (f p)

pub find_player-change :
    (u v : ℕ) (f : BPlayer → BPlayer) (ps : List BPlayer)
    → ((q : BPlayer) → (f q).user_id ≡ q.user_id)
    → find_player u (change_player v f ps)
      ≡ (if v == u then over f (find_player u ps) else find_player u ps)
unfolding find_player change_player
find_player-change u v f [] k = ground arith
find_player-change u v f (c ∷ ps) k = ground (arith, k c, find_player-change u v f ps k)

owned-none :
    (u : ℕ) (b : Bomb) (done bs : List Bomb)
    → is_stored b bs ≡ false
    → owned u (done ++ b ∷ []) bs ≡ owned u done bs
unfolding owned
owned-none u b done [] h = refl
owned-none u b done (c ∷ bs) h =
    ground (arith, h, is_detonated-snoc c.id done b, owned-none u b done bs)

mem_apart :
    (b c : Bomb) (bs : List Bomb) → Memᴰ b bs → is_stored c bs ≡ false → (c.id == b.id) ≡ false
mem_apart b c [] m h = elim m [ ]
mem_apart b c (d ∷ bs) (head e) h =
    let same : b.id ≡ d.id = ap (λ (x : Bomb). x.id) e in ground (arith, same, h)
mem_apart b c (d ∷ bs) (tail m) h = mem_apart b c bs m (ground (arith, h))

abbrev pub one_if : Bool → ℕ
one_if true = 1
one_if false = 0

pub owned-release :
    (n u : ℕ) (b : Bomb) (done bs : List Bomb)
    → AreFresh n bs
    → Memᴰ b bs
    → is_detonated b.id done ≡ false
    → owned u done bs ≡ one_if (b.owner_id == u) + owned u (done ++ b ∷ []) bs
unfolding owned
owned-release n u b done [] d m f = elim m [ ]
owned-release n u b done (c ∷ bs) d (head e) f =
    let i : b.id ≡ c.id = ap (λ (x : Bomb). x.id) e in
    let o : b.owner_id ≡ c.owner_id = ap (λ (x : Bomb). x.owner_id) e in
    let f' : is_detonated c.id done ≡ false = rw (← i) f in
    let alone : is_stored b bs ≡ false = rw e d.0 in
    ground (arith, f', i, o, is_detonated-snoc c.id done b, owned-none u b done bs alone)
owned-release n u b done (c ∷ bs) d (tail m) f = ground (
  arith,
  mem_apart b c bs m d.0,
  is_detonated-snoc c.id done b,
  owned-release n u b done bs d.1.1 m f,
)

-- While bombs go off, the players have as many out as wait.
abbrev pub AreFit : List Bomb → Run → Type 0
AreFit bs o =
    (u : ℕ) (p : BPlayer)
    → find_player u o.state.players ≡ some p
    → IsFit (owned u o.detonated bs) p

released-IsFit :
    (u v n m : ℕ) (o : Option BPlayer) (p : BPlayer)
    → ((q : BPlayer) → o ≡ some q → IsFit n q)
    → n ≡ one_if (v == u) + m
    → (if v == u then over (λ q. record q { bombs_out = q.bombs_out - 1 }) o else o) ≡ some p
    → IsFit m p
released-IsFit u v n m none p fit e h = absurd (ground (arith, h))
released-IsFit u v n m (some q) p fit e h = ground (arith, fit q refl, e, h)

pub AreFit-released :
    (n : ℕ) (bs : List Bomb) (b : Bomb) (o : Run)
    → AreFresh n bs
    → Memᴰ b bs
    → is_detonated b.id o.detonated ≡ false
    → AreFit bs o
    → AreFit bs (release b o)
unfolding release
AreFit-released n bs b o d m f fit u p h =
    let dec : BPlayer → BPlayer = λ q. record q { bombs_out = q.bombs_out - 1 } in
    let look = find_player-change u b.owner_id dec o.state.players (λ q. refl) in
    released-IsFit u b.owner_id (owned u o.detonated bs) (owned u (o.detonated ++ b ∷ []) bs)
      (find_player u o.state.players) p (λ q e. fit u q e)
      (owned-release n u b o.detonated bs d m f) (sym look ∙ h)

pub break_brick-players :
    (dice : ℕ → ℕ) (c r : ℕ) (o : Run)
    → ((break_brick dice c r o).state.players ≡ o.state.players)
      × ((break_brick dice c r o).state.next_bomb ≡ o.state.next_bomb)
unfolding break_brick
break_brick-players dice c r o = elim (Bool-cases (ltb (dice o.state.drawn) 42)) [
  | inl drops ↦ rw drops (refl, refl)
  | inr nothing ↦ rw nothing (refl, refl)
]

pub AreFit-broken :
    (dice : ℕ → ℕ) (bs : List Bomb) (c r : ℕ) (o : Run)
    → AreFit bs o
    → AreFit bs (break_brick dice c r o)
AreFit-broken dice bs c r o fit u p h =
    rw (break_brick-detonated dice c r o) (fit u p (rw (sym (break_brick-players dice c r o).0) h))
