-- ===== src/TienLen/Cards.antt =====
-- src/games/tienlen/tienlen.logic.ts: the encoding of cards and the combinations.
use backend_htssclub.Base.{
  ℕ, ◌+◌, ◌/◌, ◌%◌, ◌*◌, not, Bool, true, false, ◌&&◌, ◌||◌, Option, none, some, List, [], ◌∷◌, map,
  leb, ltb, ◌==◌, if◌then◌else◌, length, all, contains, keep, sort,
}

abbrev pub deck_size : ℕ
deck_size = 52

pub data ComboType : Type 0 where
  single pair triple straight pair_straight four : ComboType

pub record Combo : Type 0 where
  pub type : ComboType
  pub cards : List ℕ
  pub rank_value : ℕ
  pub length : ℕ

abbrev pub rank_of : ℕ → ℕ
rank_of card = card / 4

abbrev pub suit_of : ℕ → ℕ
suit_of card = card % 4

-- `xs[xs.length - 1]`; 0 where the source would read past an empty list.
abbrev pub last_or_zero : List ℕ → ℕ
last_or_zero [] = 0
last_or_zero (x ∷ []) = x
last_or_zero (x ∷ xs) = last_or_zero xs

-- `ranks.every((r) => r === ranks[0])`
unfoldable pub all_same : List ℕ → Bool
all_same [] = true
all_same (r ∷ rs) = all (λ x. x == r) (r ∷ rs)

-- The loop of `isStraight`.
unfoldable pub consecutive : List ℕ → Bool
consecutive (x ∷ y ∷ rest) = y == x + 1 && consecutive (y ∷ rest)
consecutive _ = true

unfoldable pub is_straight : List ℕ → Bool
is_straight ranks = if contains 12 ranks then false else consecutive ranks

-- The first loop of `isPairStraight`: each adjacent two share a rank. Past the end `ranks[i + 1]`
-- is undefined, and differs.
unfoldable pub paired : List ℕ → Bool
paired [] = true
paired (x ∷ []) = false
paired (x ∷ y ∷ rest) = x == y && paired rest

-- The second loop: consecutive ranks two places apart.
unfoldable pub pair_steps : List ℕ → Bool
pair_steps (x ∷ y ∷ z ∷ rest) = z == x + 1 && pair_steps (z ∷ rest)
pair_steps _ = true

-- `isPairStraight` on the ranks of the sorted cards.
unfoldable pub is_pair_straight : List ℕ → Bool
is_pair_straight ranks =
    if contains 12 ranks then false else (if paired ranks then pair_steps ranks else false)

-- The combination of all-equal ranks, by the number of cards.
abbrev pub of_same_rank : List ℕ → ℕ → ℕ → Option Combo
of_same_rank sorted n top =
    if n == 1
    then some (record { type = single; cards = sorted; rank_value = top; length = 1 })
    else if n == 2
    then some (record { type = pair; cards = sorted; rank_value = top; length = 2 })
    else if n == 3
    then some (record { type = triple; cards = sorted; rank_value = top; length = 3 })
    else if n == 4
    then some (record { type = four; cards = sorted; rank_value = top; length = 4 })
    else none

abbrev pub of_run : List ℕ → List ℕ → ℕ → ℕ → Option Combo
of_run sorted ranks n top =
    if leb 3 n && is_straight ranks
    then some (record { type = straight; cards = sorted; rank_value = top; length = n })
    else if (leb 6 n && n % 2 == 0) && is_pair_straight ranks
    then some (record { type = pair_straight; cards = sorted; rank_value = top; length = n })
    else none

-- `identifyCombo` on the cards in ascending order.
unfoldable pub identify_sorted : List ℕ → Option Combo
identify_sorted sorted =
    let ranks = map rank_of sorted in
    let n = length sorted in
    let top = last_or_zero sorted in
    if all_same ranks then of_same_rank sorted n top else of_run sorted ranks n top

unfoldable pub identify_combo : List ℕ → Option Combo
identify_combo [] = none
identify_combo (c ∷ cs) = identify_sorted (sort (c ∷ cs))

-- `combo.length / 2`; a pair straight has an even number of cards, so nothing is lost by rounding.
abbrev pub pair_straight_length : Combo → ℕ
pair_straight_length c = c.length / 2

-- `combo.cards[0]`
abbrev pub head_or_zero : List ℕ → ℕ
head_or_zero [] = 0
head_or_zero (x ∷ xs) = x

abbrev pub is_type : ComboType → ComboType → Bool
is_type single single = true
is_type pair pair = true
is_type triple triple = true
is_type straight straight = true
is_type pair_straight pair_straight = true
is_type four four = true
is_type _ _ = false

abbrev pub is_single_two : Combo → Bool
is_single_two c = is_type c.type single && rank_of (head_or_zero c.cards) == 12

abbrev pub is_pair_two : Combo → Bool
is_pair_two c = is_type c.type pair && rank_of (head_or_zero c.cards) == 12

-- The comparison at the end of `canBeat`: same type, same length, higher top card.
abbrev pub beats_normally : Combo → Combo → Bool
beats_normally candidate current =
    if not (is_type candidate.type current.type)
    then false
    else if not (candidate.length == current.length)
    then false
    else ltb current.rank_value candidate.rank_value

-- `canBeat` on a table that holds a combination: four of a kind, three pairs, four pairs, and the
-- normal comparison, in the order of the source.
unfoldable pub beats : Combo → Combo → Bool
beats candidate current =
    if is_type candidate.type four && (is_single_two current || is_pair_two current)
    then true
    else if is_type candidate.type four
        && (is_type current.type pair_straight && pair_straight_length current == 3)
    then true
    else if is_type candidate.type four && is_type current.type four
    then ltb current.rank_value candidate.rank_value
    else if (is_type candidate.type pair_straight && pair_straight_length candidate == 3)
        && is_single_two current
    then true
    else if (is_type candidate.type pair_straight && pair_straight_length candidate == 4)
        && (is_single_two current || is_pair_two current || is_type current.type four)
    then true
    else beats_normally candidate current

unfoldable pub can_beat : Combo → Option Combo → Bool
can_beat candidate none = true
can_beat candidate (some current) = beats candidate current

-- A red suit is ♦ or ♥.
abbrev pub is_red_suit : ℕ → Bool
is_red_suit card = leb 2 (suit_of card)

abbrev pub is_two : ℕ → Bool
is_two c = rank_of c == 12

abbrev pub is_bomb : Combo → Bool
is_bomb c = is_type c.type four || is_type c.type pair_straight && leb 3 (pair_straight_length c)

-- The twos that a bomb chops.
unfoldable pub chopped_heo_cards : Combo → Option Combo → List ℕ
chopped_heo_cards candidate none = []
chopped_heo_cards candidate (some current) =
    if not (is_single_two current) && not (is_pair_two current)
    then []
    else if not (is_bomb candidate)
    then []
    else keep is_two current.cards

unfoldable pub detect_chop : Combo → Option Combo → ℕ
detect_chop candidate current = length (chopped_heo_cards candidate current)

pub record Breakdown : Type 0 where
  pub black : ℕ
  pub red : ℕ
  pub units : ℕ

-- The loop of `chopHeoBreakdown`.
unfoldable pub count_heo : List ℕ → ℕ → ℕ → Breakdown
count_heo [] black red = record { black = black; red = red; units = black + red * 2 }
count_heo (c ∷ cs) black red =
    count_heo cs (if is_red_suit c then black else black + 1)
      (if is_red_suit c then red + 1 else red)

unfoldable pub chop_heo_breakdown : List ℕ → Breakdown
chop_heo_breakdown cards = count_heo cards 0 0

unfoldable pub rotten_heo_cards : List ℕ → List ℕ
rotten_heo_cards hand = keep is_two hand
