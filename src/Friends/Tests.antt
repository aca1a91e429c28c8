-- ===== src/Friends/Tests.antt =====
-- Examples.
use backend_htssclub.Base.{◌≡◌, refl, none, [], ◌∷◌, ◌&&◌, contains, arith}
use backend_htssclub.Common.Enums.{pending, accepted, blocked}
use backend_htssclub.Friends.{
  Book, new_doc, find_between, find_request, get_status, list_friends, handle, send, accepts,
  blocks, unblocks, status_blocked, status_none,
}
use backend_htssclub.Friends.Expected.{IsProper, expected, is_friends}
use backend_htssclub.Friends.Relation.{
  get_status-handle, serve_requests, serve_requests-IsProper, block_stands, turned_block_lifts,
}
use backend_htssclub.Friends.Listed.{list_friends_iff}

-- 1 and 2 are friends, 3 asked 1, and 2 blocked 4.
abbrev crowd : Book
crowd = record {
  docs = new_doc 10 1 2 accepted ∷ new_doc 11 3 1 pending ∷ new_doc 12 2 4 blocked ∷ [];
  users = 1 ∷ 2 ∷ 3 ∷ 4 ∷ [];
  events = [];
  next_id = 13;
}

crowd-IsProper : IsProper crowd
unfolding find_between find_request
crowd-IsProper = (
  (refl, refl, refl, (refl, refl, refl, (refl, refl, refl, tt))),
  (ground arith, (ground arith, (ground arith, tt))),
)

get_status-handle_example :
    get_status 1 3 (handle (send 1 3) crowd).1
    ≡ expected (send 1 3) crowd.users crowd.next_id (λ a c. get_status a c crowd) 1 3
get_status-handle_example = get_status-handle crowd crowd-IsProper (send 1 3) 1 3

serve_requests-IsProper_example : IsProper (serve_requests (accepts 1 11 ∷ blocks 3 4 ∷ []) crowd)
serve_requests-IsProper_example =
    serve_requests-IsProper (accepts 1 11 ∷ blocks 3 4 ∷ []) crowd crowd-IsProper

two_blocks_four : (get_status 2 4 crowd).status ≡ status_blocked
unfolding get_status find_between
two_blocks_four = refl

block_stands_example : (get_status 2 4 (handle (unblocks 4 2) crowd).1).status ≡ status_blocked
block_stands_example = block_stands crowd crowd-IsProper 2 4 two_blocks_four (unblocks 4 2) refl

turned_block_lifts_example :
    ((get_status 2 4 (serve_requests (blocks 4 2 ∷ unblocks 4 2 ∷ []) crowd)).status ≡ status_none)
    × ((get_status 4 2 (serve_requests (blocks 4 2 ∷ unblocks 4 2 ∷ []) crowd)).status
        ≡ status_none)
turned_block_lifts_example = turned_block_lifts crowd crowd-IsProper 2 4 two_blocks_four refl

list_friends_iff_example :
    contains 2 (list_friends 1 crowd)
    ≡ (contains 2 crowd.users && is_friends (get_status 1 2 crowd).status)
list_friends_iff_example = list_friends_iff crowd crowd-IsProper 1 2

strangers : find_between 1 4 crowd.docs ≡ none
unfolding find_between
strangers = refl
