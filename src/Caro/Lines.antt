-- ===== src/Caro/Lines.antt =====
-- `findWinningLine` of src/games/caro/caro.logic.ts: when it finds a line, and which.
use backend_htssclub.Base.{
  ℕ, suc, zero, ◌+◌, ◌-◌, ◌≤◌, ◌<◌, ◌≡◌, ◌↔◌, refl, inl, inr, Bool, true, ◌&&◌, Bool-cases, Option,
  Option-cases, none, some, List, [], ◌∷◌, ◌==◌, leb, arith, length, All,
}
use backend_htssclub.Base.Int.{ℤ}
use backend_htssclub.Caro.Marks.{is_some, IsFive, ahead_iff, behind_iff}
use backend_htssclub.Caro.{
  Board, in_bounds, place, probe, is_at, scan, unshift_all, Direction, horizontal, vertical,
  down_right, down_left, ahead, behind, line_through, first_line, find_winning_line,
}

module _ (at : ℕ → Option ℕ) where
  -- As many steps that find something are taken, and each step taken finds something.
  scan_long :
      (n s m : ℕ)
      → m ≤ n
      → ((k : ℕ) → s ≤ k → k < s + m → is_some (at k) ≡ true)
      → m ≤ length (scan at n s)
  unfolding scan
  scan_long n s zero le h = omega arith
  scan_long zero s (suc m) le h = absurd (omega arith)
  scan_long (suc n) s (suc m) le h =
      let rest = scan_long n (suc s) m (omega arith) (λ k l u. h k (omega arith) (omega arith)) in
      let here = h s (omega arith) (omega arith) in
      elim (Option-cases (at s)) [
        | inl nothing ↦ absurd (ground (arith, nothing, here))
        | inr (i, found) ↦ rw (found, scan) (omega (arith, rest))
      ]

  scan_finds : (n s k : ℕ) → s ≤ k → k < s + length (scan at n s) → is_some (at k) ≡ true
  unfolding scan
  scan_finds zero s k l u = absurd (omega arith)
  scan_finds (suc n) s k l u = elim (Option-cases (at s)) [
    | inl nothing ↦ let none_taken : k < s + 0 = rw (nothing, scan) at u in absurd (omega arith)
    | inr (i, found) ↦
        let taken : k < s + suc (length (scan at n (suc s))) = rw (found, scan) at u in
        elim (Bool-cases (k == s)) [
          | inl same ↦ let e : k ≡ s = ground arith in rw (e, found) refl
          | inr later ↦ scan_finds n (suc s) k (ground arith) (omega arith)
        ]
  ]

  scan_short : (n s : ℕ) → length (scan at n s) ≤ n
  unfolding scan
  scan_short zero s = omega arith
  scan_short (suc n) s = ground (arith, scan_short n (suc s))

length-unshift : (is cells : List ℕ) → length (unshift_all is cells) ≡ length is + length cells
length-unshift [] cells = omega arith
length-unshift (i ∷ is) cells = omega (arith, length-unshift is (i ∷ cells))

module _ (board : Board) (row col : ℤ) (mark : ℕ) where
  line_five :
      (d : Direction) (k : ℕ)
      → IsFive board row col mark d k
      → leb 5 (length (line_through board row col mark d)) ≡ true
  unfolding line_through
  line_five d k (le, back, front) =
      let b =
        scan_long (behind board row col mark d) 4 1 k le
          (λ s one u. (behind_iff board row col mark d s).1 (back s one (omega arith))) in
      let f =
        scan_long (ahead board row col mark d) 4 1 (4 - k) (omega arith)
          (λ s one u. (ahead_iff board row col mark d s).1 (front s one (omega arith))) in
      let l =
        length-unshift (scan (behind board row col mark d) 4 1)
          (place row col ∷ scan (ahead board row col mark d) 4 1) in
      ground (arith, b, f, l, le)

  long-IsFive :
      (d : Direction)
      → leb 5 (length (line_through board row col mark d)) ≡ true
      → (k : ℕ) × IsFive board row col mark d k
  unfolding line_through
  long-IsFive d long =
      let back = scan (behind board row col mark d) 4 1 in
      let front = scan (ahead board row col mark d) 4 1 in
      let l = length-unshift back (place row col ∷ front) in
      let b = scan_short (behind board row col mark d) 4 1 in
      let total : 4 ≤ length back + length front = ground (arith, l, long) in
      (
        length back,
        (
          b,
          (λ s one u.
              (behind_iff board row col mark d s).0
                (scan_finds (behind board row col mark d) 4 1 s one (omega arith))),
          λ s one u.
              (ahead_iff board row col mark d s).0
                (scan_finds (ahead board row col mark d) 4 1 s one (omega arith)),
        ),
      )

  abbrev IsLong : Direction → Type 0
  IsLong d = leb 5 (length (line_through board row col mark d)) ≡ true

  abbrev found_in : List Direction → Bool
  found_in ds = is_some (first_line board row col mark ds)

  found_here : (d : Direction) (ds : List Direction) → IsLong d → found_in (d ∷ ds) ≡ true
  unfolding first_line
  found_here d ds long = rw long

  found_later :
      (d : Direction) (ds : List Direction) → found_in ds ≡ true → found_in (d ∷ ds) ≡ true
  unfolding first_line
  found_later d ds later = elim (Bool-cases (leb 5 (length (line_through board row col mark d)))) [
    | inl long ↦ rw long
    | inr short ↦ rw short later
  ]

  found-IsLong : (ds : List Direction) → found_in ds ≡ true → (d : Direction) × IsLong d
  unfolding first_line
  found-IsLong [] f = absurd (ground (arith, f))
  found-IsLong (d ∷ ds) f = elim (Bool-cases (leb 5 (length (line_through board row col mark d)))) [
    | inl long ↦ (d, long)
    | inr short ↦ let later : found_in ds ≡ true = rw short at f in found-IsLong ds later
  ]

  long_found :
      (d : Direction)
      → IsLong d
      → found_in (horizontal ∷ vertical ∷ down_right ∷ down_left ∷ []) ≡ true
  long_found horizontal long = found_here horizontal _ long
  long_found vertical long = found_later horizontal _ (found_here vertical _ long)
  long_found down_right long =
      found_later horizontal _ (found_later vertical _ (found_here down_right _ long))
  long_found down_left long =
      found_later horizontal _
        (found_later vertical _ (found_later down_right _ (found_here down_left _ long)))

  -- A line is found exactly when, on the row, the column or a diagonal of the place (row, col), the
  -- `k` places before it and the 4 - k places after it are on the board and have the mark, for some
  -- k up to 4.
  pub find_winning_line_iff :
      (is_some (find_winning_line board row col mark) ≡ true)
      ↔ ((d : Direction) × (k : ℕ) × IsFive board row col mark d k)
  unfolding find_winning_line
  find_winning_line_iff = (
    (λ f. let (d, long) = found-IsLong _ f in let (k, five) = long-IsFive d long in (d, k, five)),
    λ (d, k, five). long_found d (line_five d k five),
  )

  -- The cells of a line.
  scan_marked :
      (at : ℕ → Option ℕ) (n s : ℕ)
      → ((t i : ℕ) → at t ≡ some i → is_at board i mark ≡ true)
      → All (λ i. is_at board i mark ≡ true) (scan at n s)
  unfolding scan
  scan_marked at zero s h = tt
  scan_marked at (suc n) s h = elim (Option-cases (at s)) [
    | inl nothing ↦ rw (nothing, scan) tt
    | inr (i, found) ↦ rw (found, scan) (h s i found, scan_marked at n (suc s) h)
  ]

  unshift_marked :
      (is cells : List ℕ)
      → All (λ i. is_at board i mark ≡ true) is
      → All (λ i. is_at board i mark ≡ true) cells
      → All (λ i. is_at board i mark ≡ true) (unshift_all is cells)
  unshift_marked [] cells h k = k
  unshift_marked (i ∷ is) cells h k = unshift_marked is (i ∷ cells) h.1 (h.0, k)

  probe_marked : (r c : ℤ) (i : ℕ) → probe board mark r c ≡ some i → is_at board i mark ≡ true
  unfolding probe
  probe_marked r c i e = elim (Bool-cases (in_bounds r c && is_at board (place r c) mark)) [
    | inl there ↦
        let f : some (place r c) ≡ some i = rw there at e in
        let same : place r c ≡ i = cc in
        let marked : is_at board (place r c) mark ≡ true = ground (arith, there) in
        rw (← same) marked
    | inr nothing ↦ let f : none ≡ some i = rw nothing at e in absurd (ground (arith, f))
  ]

  line_marked :
      (d : Direction)
      → is_at board (place row col) mark ≡ true
      → IsLong d
      → (5 ≤ length (line_through board row col mark d))
        × All (λ i. is_at board i mark ≡ true) (line_through board row col mark d)
  unfolding line_through ahead behind
  line_marked d here long = (
    ground (arith, long),
    unshift_marked _ _ (scan_marked _ 4 1 (λ t. probe_marked _ _))
        (here, scan_marked _ 4 1 (λ t. probe_marked _ _)),
  )

  first_marked :
      (ds : List Direction) (line : List ℕ)
      → is_at board (place row col) mark ≡ true
      → first_line board row col mark ds ≡ some line
      → (5 ≤ length line) × All (λ i. is_at board i mark ≡ true) line
  unfolding first_line
  first_marked [] line here e = absurd (ground (arith, e))
  first_marked (d ∷ ds) line here e =
      elim (Bool-cases (leb 5 (length (line_through board row col mark d)))) [
        | inl long ↦
            let f : some (line_through board row col mark d) ≡ some line = rw long at e in
            let same : line_through board row col mark d ≡ line = cc in
            rw (← same) (line_marked d here long)
        | inr short ↦
            let f : first_line board row col mark ds ≡ some line = rw short at e in
            first_marked ds line here f
      ]

  -- The line that is found has at least five cells, all with the mark.
  pub find_winning_line_lem :
      (line : List ℕ)
      → is_at board (place row col) mark ≡ true
      → find_winning_line board row col mark ≡ some line
      → (5 ≤ length line) × All (λ i. is_at board i mark ≡ true) line
  unfolding find_winning_line
  find_winning_line_lem line = first_marked _ line
