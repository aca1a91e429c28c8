-- ===== src/Matchmaking/Tests.antt =====
-- Examples.
use backend_htssclub.Base.{◌≡◌, refl, true, some, [], ◌∷◌, ◌==◌, if◌then◌else◌, arith}
use backend_htssclub.Matchmaking.{Queue, enqueue, try_match, score, is_scored}
use backend_htssclub.Matchmaking.Unique.{AreUnique, enqueue-AreUnique}
use backend_htssclub.Matchmaking.Nearest.{Met, try_match_lem}
use backend_htssclub.Matchmaking.Tables.{Tables, join_queue, seated_and_still_waiting}

abbrev waiting_room : Queue
waiting_room =
    enqueue 1 100 11 (enqueue 2 180 12 (enqueue 3 90 13 (record { entries = []; meta = [] })))

waiting_room-AreUnique : AreUnique waiting_room.entries
waiting_room-AreUnique = enqueue-AreUnique 1 100 11 _ (
    enqueue-AreUnique 2 180 12 _
      (enqueue-AreUnique 3 90 13 (record { entries = []; meta = [] }) tt))

try_match_lem_example :
    let (o, q') = try_match 1 waiting_room in Met 1 waiting_room o q' × AreUnique q'.entries
try_match_lem_example = try_match_lem 1 waiting_room waiting_room-AreUnique

-- 7 waits for a table of two.
abbrev hall : Tables
hall = record {
  queues = λ n. if n == 2 then record { user_id = 7; rp = 50 } ∷ [] else [];
  metas = λ n. [];
}

seated_and_still_waiting_example :
    let (_, t₁) = join_queue 3 8 60 80 hall in
    let (claimed, t₂) = join_queue 2 8 70 80 t₁ in
    (claimed ≡ some (7 ∷ 8 ∷ [])) × (is_scored (score 8 (t₂.queues 3)) ≡ true)
seated_and_still_waiting_example =
    seated_and_still_waiting hall 8 60 70 80 (record { user_id = 7; rp = 50 }) refl refl refl
      (ground arith)
