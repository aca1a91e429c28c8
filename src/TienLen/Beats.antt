-- ===== src/TienLen/Beats.antt =====
-- Laws of `canBeat` and of the chop of a two.
use backend_htssclub.Base.{◌≡◌, ◌≢◌, ◌≤◌, refl, true, false, ◌||◌, Option, none, some, arith, keep}
use backend_htssclub.TienLen.Cards.{
  Combo, ComboType, single, pair, triple, straight, pair_straight, four, is_type, is_single_two,
  is_pair_two, is_bomb, is_two, pair_straight_length, beats, can_beat, chopped_heo_cards,
  detect_chop,
}

pub is_type-eq : (s t : ComboType) → is_type s t ≡ true → s ≡ t
is_type-eq single single h = refl
is_type-eq pair pair h = refl
is_type-eq triple triple h = refl
is_type-eq straight straight h = refl
is_type-eq pair_straight pair_straight h = refl
is_type-eq four four h = refl
is_type-eq _ _ h = cc

-- No two combinations beat each other, so a table that was just beaten cannot be put back.
pub beats_asymm : (a b : Combo) → beats a b ≡ true → beats b a ≡ false
unfolding beats
beats_asymm a b h = ground arith

-- A play of another type that beats one or two twos is a bomb, and every two on the table is
-- priced as chopped.
pub beats_two_is_chop :
    (a b : Combo)
    → beats a b ≡ true
    → (is_single_two b || is_pair_two b) ≡ true
    → a.type ≢ b.type
    → (is_bomb a ≡ true) × (chopped_heo_cards a (some b) ≡ keep is_two b.cards)
unfolding beats chopped_heo_cards
beats_two_is_chop a b h two differ =
    ground (arith, is_type-eq a.type b.type, is_type-eq b.type single, is_type-eq b.type pair)

-- Only a table of twos is ever chopped, and only by a bomb.
pub chopped_only_twos :
    (a : Combo) (table : Option Combo)
    → detect_chop a table ≢ 0
    → (b : Combo) × (table ≡ some b)
      × (is_bomb a ≡ true)
      × ((is_single_two b || is_pair_two b) ≡ true)
unfolding detect_chop chopped_heo_cards
chopped_only_twos a none h = absurd (h refl)
chopped_only_twos a (some b) h = (b, refl, ground arith, ground arith)

-- Five or more consecutive pairs do not beat a single two, although a chop of that two by them
-- would be priced.
pub long_pair_straight_beats_no_two :
    (a b : Combo)
    → a.type ≡ pair_straight
    → 5 ≤ pair_straight_length a
    → is_single_two b ≡ true
    → (can_beat a (some b) ≡ false) × (chopped_heo_cards a (some b) ≡ keep is_two b.cards)
unfolding can_beat beats chopped_heo_cards
long_pair_straight_beats_no_two a b t long two = ground (arith, is_type-eq b.type single)

-- Beating is not transitive: four consecutive pairs beat four of a kind, which beats three
-- consecutive pairs, and the four pairs do not beat the three.
pub beats_cycle_gap :
    (a b c : Combo)
    → a.type ≡ pair_straight
    → a.length ≡ 8
    → b.type ≡ four
    → c.type ≡ pair_straight
    → c.length ≡ 6
    → (beats a b ≡ true) × (beats b c ≡ true) × (beats a c ≡ false)
unfolding beats
beats_cycle_gap a b c ta la tb tc lc = ground arith
