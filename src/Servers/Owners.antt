-- ===== src/Servers/Owners.antt =====
-- Who owns the servers of src/servers/servers.service.ts, over every history of requests.
use backend_htssclub.Base.{ℕ, refl, List, [], ◌∷◌, arith}
use backend_htssclub.Servers.{Registry}
use backend_htssclub.Servers.Requests.{ServerRequest, answer, answer_all}
use backend_htssclub.Servers.Changes.{
  Change, only_sends, edits, founds, deletes, enters_default, enters, leaves, assigns, kicks,
  transfers, bans_user, unbans, renames,
}
use backend_htssclub.Servers.Changes.Served.{answer-Change}
use backend_htssclub.Servers.Rows.{find_server-invited}
use backend_htssclub.Servers.Sound.{
  IsSound, change-IsSound, enter-IsSound, leave-IsSound, edit-IsSound, found-IsSound,
  delete-IsSound, transfer-IsSound,
}

pub Change-IsSound : (a : ℕ) (r : Registry) {r' : Registry} → IsSound r → Change a r r' → IsSound r'
Change-IsSound a r p (only_sends es) = record {
  owned = p.owned;
  homes = p.homes;
  fresh = p.fresh;
  default = p.default;
}
Change-IsSound a r p (edits s f es actor h k) = edit-IsSound r p es s f k
Change-IsSound a r p (founds d es i o) = found-IsSound r p es d a i o
Change-IsSound a r p (deletes s es actor h n) = delete-IsSound r p es s n
Change-IsSound a r p (enters_default s es d n) = enter-IsSound r p es s a (p.default s d) n
Change-IsSound a r p (enters d code es found free n) =
    enter-IsSound r p es d.id a (find_server-invited code r.servers d found) n
Change-IsSound a r p (leaves s es m found low n) = leave-IsSound r p es s a (rw found low)
Change-IsSound a r p (assigns s u role es actor target h n found low under) =
    change-IsSound r p es s u (λ m. record m { role = role }) (λ m t v. refl)
      (λ m e. ground (arith, e, found, low, n))
Change-IsSound a r p (kicks s u es actor target h n found low under) =
    leave-IsSound r p es s u (rw found low)
Change-IsSound a r p (transfers s u es actor target h n found) =
    transfer-IsSound r p es s a u actor target h n found
Change-IsSound a r p (bans_user s u reason es actor h n d low under) =
    let q = leave-IsSound r p es s u low in
    record { owned = q.owned; homes = q.homes; fresh = q.fresh; default = q.default }
Change-IsSound a r p (unbans s u es actor h) = record {
  owned = p.owned;
  homes = p.homes;
  fresh = p.fresh;
  default = p.default;
}
Change-IsSound a r p (renames s u nickname es actor target h found under) =
    change-IsSound r p es s u (λ m. record m { nickname = nickname }) (λ m t v. refl) (λ m e. refl)

-- Over every history of requests, refused ones included, a user has the role OWNER in a server if
-- and only if the server's document names that user as its owner; nobody is a member of a server
-- that does not exist, the default server is never gone, and identifiers are not used twice.
pub answer_all-IsSound :
    (qs : List (ℕ × ServerRequest)) (r : Registry) → IsSound r → IsSound (answer_all qs r)
answer_all-IsSound [] r p = p
answer_all-IsSound ((a, q) ∷ qs) r p =
    answer_all-IsSound qs (answer a q r).1 (Change-IsSound a r p (answer-Change a q r))
