-- ===== src/TienLen/Standing.antt =====
-- The final standing that `finish` builds.
use backend_htssclub.Base.{
  ℕ, ◌≡◌, refl, sym, ◌∙◌, true, false, ◌||◌, List, [], ◌∷◌, ◌++◌, map, reverse, arith, inl, inr,
  Bool-cases, contains, IsDistinct,
}
use mathlib.Core.List.{append-nil, append_assoc}
use backend_htssclub.TienLen.Game.{Game, active_seats, push_missing, final_order}

contains-append :
    (a : ℕ) (xs ys : List ℕ) → contains a (xs ++ ys) ≡ (contains a xs || contains a ys)
contains-append a [] ys = refl
contains-append a (x ∷ xs) ys = ground (arith, contains-append a xs ys)

IsDistinct-snoc :
    (a : ℕ) (xs : List ℕ) → contains a xs ≡ false → IsDistinct xs → IsDistinct (xs ++ a ∷ [])
IsDistinct-snoc a [] h d = (refl, tt)
IsDistinct-snoc a (x ∷ xs) h d =
    (rw (contains-append x xs (a ∷ [])) (ground arith), IsDistinct-snoc a xs (ground arith) d.1)

push_missing-IsDistinct :
    (order ss : List ℕ) → IsDistinct order → IsDistinct (push_missing order ss)
unfolding push_missing
push_missing-IsDistinct order [] d = d
push_missing-IsDistinct order (s ∷ ss) d = elim (Bool-cases (contains s order)) [
  | inl there ↦ rw there (push_missing-IsDistinct order ss d)
  | inr missing ↦
      rw missing (push_missing-IsDistinct (order ++ s ∷ []) ss (IsDistinct-snoc s order missing d))
]

push_missing-contains :
    (a : ℕ) (order ss : List ℕ)
    → contains a (push_missing order ss) ≡ (contains a order || contains a ss)
unfolding push_missing
push_missing-contains a order [] = ground arith
push_missing-contains a order (s ∷ ss) = ground (
  arith,
  push_missing-contains a order ss,
  push_missing-contains a (order ++ s ∷ []) ss,
  contains-append a order (s ∷ []),
)

-- Every seat of the match has exactly one place in the standing: no seat stands in it twice, and
-- it holds every seat number, also those that never finished.
pub final_order_complete :
    (g : Game)
    → IsDistinct (final_order g)
      × ((a : ℕ)
          → contains a (map (λ s. s.seat) g.seats) ≡ true
          → contains a (final_order g) ≡ true)
unfolding final_order
final_order_complete g = (
  push_missing-IsDistinct _ _ (
      push_missing-IsDistinct _ _
        (push_missing-IsDistinct _ _ (push_missing-IsDistinct [] g.finish_order tt))),
  λ a h. push_missing-contains a _ _ ∙ ground (arith, h),
)

suffix-contains : (a : ℕ) (xs ys : List ℕ) → IsDistinct (xs ++ a ∷ ys) → contains a xs ≡ false
suffix-contains a [] ys d = refl
suffix-contains a (x ∷ xs) ys d =
    ground (arith, d.0, contains-append x xs (a ∷ ys), suffix-contains a xs ys d.1)

-- Where nothing is missing, pushing appends.
push_missing-append :
    (order ss : List ℕ) → IsDistinct (order ++ ss) → push_missing order ss ≡ order ++ ss
unfolding push_missing
push_missing-append order [] d = sym (append-nil order)
push_missing-append order (s ∷ ss) d = rw (suffix-contains s order ss d) (
    push_missing-append (order ++ s ∷ []) ss (rw (append_assoc order (s ∷ []) ss) d)
    ∙ append_assoc order (s ∷ []) ss)

push_missing-covered :
    (order ss : List ℕ)
    → ((a : ℕ) → contains a ss ≡ true → contains a order ≡ true)
    → push_missing order ss ≡ order
unfolding push_missing
push_missing-covered order [] h = refl
push_missing-covered order (s ∷ ss) h =
    rw (h s (ground arith)) (push_missing-covered order ss (λ a k. h a (ground (arith, k))))

IsDistinct-prefix : (xs ys : List ℕ) → IsDistinct (xs ++ ys) → IsDistinct xs
IsDistinct-prefix [] ys d = tt
IsDistinct-prefix (x ∷ xs) ys d =
    (ground (arith, d.0, contains-append x xs ys), IsDistinct-prefix xs ys d.1)

-- Where every seat has gone out, still plays or has resigned, and only one of these, the standing
-- is: those who went out in that order, then who still plays, then the resigned ones, the
-- earliest last.
pub final_order_lem :
    (g : Game)
    → let playing = map (λ s. s.seat) (active_seats g) in
      let order = (g.finish_order ++ playing) ++ reverse g.resigned_seats in
      IsDistinct order
      → ((a : ℕ) → contains a (map (λ s. s.seat) g.seats) ≡ true → contains a order ≡ true)
      → final_order g ≡ order
unfolding final_order
final_order_lem g d covered =
    let playing : List ℕ = map (λ s. s.seat) (active_seats g) in
    let two = g.finish_order ++ playing in
    let d2 = IsDistinct-prefix two (reverse g.resigned_seats) d in
    let d1 = IsDistinct-prefix g.finish_order playing d2 in
    rw (push_missing-append [] g.finish_order d1) (
      rw (push_missing-append g.finish_order playing d2) (
        rw (push_missing-append two (reverse g.resigned_seats) d)
          (push_missing-covered (two ++ reverse g.resigned_seats) _ covered)))
