-- ===== src/Matchmaking/Unique.antt =====
-- The sorted set of src/games/caro/caro-matchmaking.service.ts: each member is in it once.
use backend_htssclub.Base.{
  ℕ, ◌≡◌, refl, ◌∙◌, inl, inr, false, Bool-cases, none, List, [], ◌∷◌, ltb, leb, ◌==◌, ◌&&◌, ◌||◌,
  arith,
}
use backend_htssclub.Matchmaking.{Entry, Queue, insert_entry, enqueue, drop_entry, score, is_scored}

-- A member of a sorted set is there once.
abbrev pub AreUnique : List Entry → Type 0
AreUnique [] = Unit
AreUnique (e ∷ es) = (score e.user_id es ≡ none) × AreUnique es

pub absent-drop : (u : ℕ) (es : List Entry) → is_scored (score u (drop_entry u es)) ≡ false
unfolding score drop_entry
absent-drop u [] = refl
absent-drop u (e ∷ es) = ground (arith, absent-drop u es)

pub score-drop_ne :
    (u v : ℕ) (es : List Entry) → (u == v) ≡ false → score v (drop_entry u es) ≡ score v es
unfolding score drop_entry
score-drop_ne u v [] n = refl
score-drop_ne u v (e ∷ es) n = ground (arith, n, score-drop_ne u v es n)

score-drop_none : (u v : ℕ) (es : List Entry) → score v es ≡ none → score v (drop_entry u es) ≡ none
unfolding score drop_entry
score-drop_none u v [] h = refl
score-drop_none u v (e ∷ es) h = ground (arith, h, score-drop_none u v es)

pub drop_entry-AreUnique : (u : ℕ) (es : List Entry) → AreUnique es → AreUnique (drop_entry u es)
unfolding drop_entry
drop_entry-AreUnique u [] all_once = tt
drop_entry-AreUnique u (e ∷ es) (once, all_once) = elim (Bool-cases (e.user_id == u)) [
  | inl own ↦ rw own (drop_entry-AreUnique u es all_once)
  | inr other ↦ rw other (score-drop_none u e.user_id es once, drop_entry-AreUnique u es all_once)
]

score-insert_ne :
    (e : Entry) (v : ℕ) (es : List Entry)
    → (e.user_id == v) ≡ false
    → score v (insert_entry e es) ≡ score v es
unfolding score insert_entry
score-insert_ne e v [] n = ground (arith, n)
score-insert_ne e v (f ∷ es) n = ground (arith, n, score-insert_ne e v es n)

insert_entry-AreUnique :
    (e : Entry) (es : List Entry)
    → score e.user_id es ≡ none
    → AreUnique es
    → AreUnique (insert_entry e es)
unfolding insert_entry score
insert_entry-AreUnique e [] new all_once = (refl, tt)
insert_entry-AreUnique e (f ∷ es) new (once, all_once) =
    elim (Bool-cases (f.user_id == e.user_id)) [
      | inl same ↦ absurd (ground (arith, same, new))
      | inr other ↦
          let later : score e.user_id es ≡ none = rw other at new in
          elim (Bool-cases (ltb e.rp f.rp || (e.rp == f.rp && leb e.user_id f.user_id))) [
            | inl first ↦ rw first (rw other later, (once, all_once))
            | inr after ↦ rw after (
              score-insert_ne e f.user_id es (ground (arith, other)) ∙ once,
              insert_entry-AreUnique e es later all_once,
            )
          ]
    ]

-- A queue that players joined has each of them once.
pub enqueue-AreUnique :
    (u rp socket : ℕ) (q : Queue) → AreUnique q.entries → AreUnique (enqueue u rp socket q).entries
unfolding enqueue
enqueue-AreUnique u rp socket q all_once =
    insert_entry-AreUnique _ (drop_entry u q.entries) (ground (arith, absent-drop u q.entries))
      (drop_entry-AreUnique u q.entries all_once)
