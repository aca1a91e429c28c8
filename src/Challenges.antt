-- ===== src/Challenges.antt =====
-- src/games/common/challenge.service.ts: invitations to a game, which expire.
use backend_htssclub.Base.{
  ℕ, ◌+◌, ◌≡◌, refl, ◌∙◌, inl, inr, true, false, Bool-cases, Option, none, some, List, [], ◌∷◌, ltb,
  ◌==◌, if◌then◌else◌, arith,
}
use backend_htssclub.Common.Enums.{GameType, GameMode}

pub record PendingChallenge : Type 0 where
  pub id : ℕ
  pub game : GameType
  pub from_user_id : ℕ
  pub to_user_id : ℕ
  pub mode : GameMode
  pub bet_amount : ℕ
  pub created_at : ℕ

abbrev pub challenge_ttl_ms : ℕ
challenge_ttl_ms = 45000

-- A key of the store with its value and the time at which it is gone.
pub record Stored : Type 0 where
  pub value : PendingChallenge
  pub expires : ℕ

unfoldable pub drop_key : ℕ → List Stored → List Stored
drop_key i [] = []
drop_key i (c ∷ cs) = let rest = drop_key i cs in if c.value.id == i then rest else c ∷ rest

-- The value of a key at a time.
unfoldable pub get : ℕ → ℕ → List Stored → Option PendingChallenge
get i now [] = none
get i now (c ∷ cs) =
    if c.value.id == i then (if ltb now c.expires then some c.value else none) else get i now cs

-- `create`, with the identifier and the time drawn by the caller.
unfoldable pub create_challenge :
    ℕ → ℕ → GameType → ℕ → ℕ → GameMode → ℕ → List Stored → PendingChallenge × List Stored
create_challenge i now game from to mode bet cs =
    let challenge : PendingChallenge = record {
      id = i;
      game = game;
      from_user_id = from;
      to_user_id = to;
      mode = mode;
      bet_amount = bet;
      created_at = now;
    } in
    (challenge, record { value = challenge; expires = now + challenge_ttl_ms } ∷ drop_key i cs)

-- `GETDEL`
unfoldable pub claim_challenge : ℕ → ℕ → List Stored → Option PendingChallenge × List Stored
claim_challenge i now cs = (get i now cs, drop_key i cs)

unfoldable pub remove_challenge : ℕ → List Stored → List Stored
remove_challenge i cs = drop_key i cs

get-drop : (i now : ℕ) (cs : List Stored) → get i now (drop_key i cs) ≡ none
unfolding get drop_key
get-drop i now [] = refl
get-drop i now (c ∷ cs) = ground (arith, get-drop i now cs)

get-drop_ne :
    (i j now : ℕ) (cs : List Stored) → (i == j) ≡ false → get j now (drop_key i cs) ≡ get j now cs
unfolding get drop_key
get-drop_ne i j now [] n = refl
get-drop_ne i j now (c ∷ cs) n = elim (Bool-cases (c.value.id == i)) [
  | inl same ↦ ground (arith, same, n, get-drop_ne i j now cs n)
  | inr other ↦ ground (arith, other, n, get-drop_ne i j now cs n)
]

-- A challenge is claimed as it was created, within its 45 seconds and only once; afterwards its key
-- is gone, and every other challenge is as before.
pub claim-create :
    (i now : ℕ) (game : GameType) (from to : ℕ) (mode : GameMode) (bet : ℕ) (cs : List Stored)
    (t later : ℕ)
    → let (c, stored) = create_challenge i now game from to mode bet cs in
      let (claimed, rest) = claim_challenge i t stored in
      (claimed ≡ (if ltb t (now + 45000) then some c else none))
      × ((claim_challenge i later rest).0 ≡ none)
      × ((j : ℕ) → (i == j) ≡ false → get j later rest ≡ get j later cs)
unfolding create_challenge claim_challenge get drop_key
claim-create i now game from to mode bet cs t later =
    let here : (i == i) ≡ true = ground arith in
    let rest = drop_key i cs in
    rw here (
      refl,
      get-drop i later rest,
      λ j n. get-drop_ne i j later rest n ∙ get-drop_ne i j later cs n,
    )
