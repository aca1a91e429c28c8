-- ===== src/Servers/Changes/Served.antt =====
-- Every operation of the service makes a step of the relation.
use backend_htssclub.Base.{
  ℕ, ◌≡◌, refl, inl, inr, not, ◌&&◌, Bool-cases, Option-cases, Option, none, some, List, [], ◌∷◌,
  ◌++◌, ltb, ◌==◌, if◌then◌else◌, arith,
}
use backend_htssclub.Common.Enums.{MemberRole, owner, admin, member}
use backend_htssclub.Common.Action.{Action, pure, ◌>>=◌}
use backend_htssclub.Common.Action.After.{After, After-guard, After-found, After-then}
use backend_htssclub.Servers.{
  Text, Server, ServerMember, Registry, role_rank, is_owner, find_server, get_membership, is_banned,
  is_some, change_server, create_member, new_server, is_default_server, require_membership,
  require_role, update_found,
}
use backend_htssclub.Servers.Life.{
  add_to, add_to_default, add_user_to_default_server, create_server, update_server, remove_server,
  find_invited, code_taken, create_invite, revoke_invite, join_server, leave_server,
}
use backend_htssclub.Servers.Admin.{
  owner_is_target, is_shielded, update_member_role, kick_member, transfer_ownership, ban_member,
  unban_member, set_nickname, announce,
}
use backend_htssclub.Servers.Requests
use backend_htssclub.Servers.Requests.{
  ServerRequest, registers, creates, updates, invites, revokes, redeems, announces, answer,
}
use backend_htssclub.Servers.Changes.{
  HasRole, membership, Change, only_sends, edits, founds, deletes, enters_default, enters, leaves,
  assigns, kicks, transfers, bans_user, unbans, renames,
}

module _ (P : Registry → Type 0) {B : Type 0} where
  After-membership :
      (s a : ℕ) (k : ServerMember → Action Registry B) (r : Registry)
      → P r
      → ((m : ServerMember) → get_membership s a r.members ≡ some m → After P (k m) r)
      → After P (require_membership s a >>= k) r
  unfolding require_membership ◌>>=◌
  After-membership s a k r p h = elim (Option-cases (get_membership s a r.members)) [
    | inl absent ↦ rw absent p
    | inr (m, found) ↦ rw found (h m found)
  ]

  After-role :
      (s a : ℕ) (least : MemberRole) (k : ServerMember → Action Registry B) (r : Registry)
      → P r
      → ((m : ServerMember) → HasRole r s a least m → After P (k m) r)
      → After P (require_role s a least >>= k) r
  unfolding require_role require_membership ◌>>=◌
  After-role s a least k r p h = elim (Option-cases (get_membership s a r.members)) [
    | inl absent ↦ rw absent p
    | inr (m, found) ↦ elim (Bool-cases (ltb (role_rank m.role) (role_rank least))) [
      | inl low ↦ rw (found, low) p
      | inr high ↦ rw (found, high) (h m (found, high))
    ]
  ]

module _ (P : Registry → Type 0) {B : Type 0} where
  After-update :
      (s : ℕ) (f : Server → Server) (k : Server → Action Registry B) (r : Registry)
      → P r
      → ((d : Server) → After P (k (f d)) (record r { servers = change_server s f r.servers }))
      → After P (update_found s f >>= k) r
  unfolding update_found ◌>>=◌
  After-update s f k r p h = elim (Option-cases (find_server s r.servers)) [
    | inl absent ↦ rw absent p
    | inr (d, found) ↦ rw found (h d)
  ]

  After-create :
      (s u : ℕ) (role : MemberRole) (k : ServerMember → Action Registry B) (r : Registry)
      → P r
      → (get_membership s u r.members ≡ none
          → After P
              (k (membership s u role))
              (record r { members = r.members ++ membership s u role ∷ [] }))
      → After P (create_member s u role >>= k) r
  unfolding create_member ◌>>=◌
  After-create s u role k r p h = elim (Option-cases (get_membership s u r.members)) [
    | inl absent ↦ rw absent (h absent)
    | inr (m, found) ↦ rw found p
  ]

module _ (a : ℕ) (r : Registry) where
  idle : Change a r r
  idle = only_sends r.sent

  update_server-Change :
      (s : ℕ) (name icon : Option Text) → Change a r (update_server s a name icon r).1
  unfolding update_server ◌>>=◌
  update_server-Change s name icon =
      After-role (Change a r) s a admin _ r idle λ actor h.
        After-update (Change a r) s _ _ r idle λ d. edits s _ _ actor h (λ d. (refl, refl))

  create_server-Change :
      (name : Text) (icon : Option Text) → Change a r (create_server a name icon r).1
  unfolding create_server new_server create_member ◌>>=◌
  create_server-Change name icon = elim (Option-cases (get_membership r.next_id a r.members)) [
    | inl absent ↦ rw absent (founds _ r.sent refl refl)
    | inr (m, found) ↦ rw found idle
  ]

  remove_server-Change : (s : ℕ) → Change a r (remove_server s a r).1
  unfolding remove_server ◌>>=◌
  remove_server-Change s = After-role (Change a r) s a owner _ r idle λ actor h.
      After-guard (Change a r) (is_default_server s r.default_server_id) _ _ r idle
        λ n. deletes s _ actor h n

  create_invite-Change : (s code : ℕ) → Change a r (create_invite s a code r).1
  unfolding create_invite ◌>>=◌
  create_invite-Change s code = After-role (Change a r) s a admin _ r idle λ actor h.
      After-guard (Change a r) (code_taken s code r.servers && is_some (find_server s r.servers)) _
        _ r idle
        λ n. After-update (Change a r) s _ _ r idle λ d.
          edits s (λ d. record d { invite_code = some code }) r.sent actor h (λ d. (refl, refl))

  revoke_invite-Change : (s : ℕ) → Change a r (revoke_invite s a r).1
  unfolding revoke_invite ◌>>=◌
  revoke_invite-Change s = After-role (Change a r) s a admin _ r idle λ actor h.
      After-update (Change a r) s _ _ r idle
        λ d. edits s (λ d. record d { invite_code = none }) r.sent actor h (λ d. (refl, refl))

  add_to_default-Change :
      (d : Option ℕ) → r.default_server_id ≡ d → Change a r (add_to_default a d r).1
  unfolding add_to_default add_to create_member ◌>>=◌
  add_to_default-Change none found = idle
  add_to_default-Change (some s) found = elim (Option-cases (get_membership s a r.members)) [
    | inl absent ↦ rw (absent, add_to) (rw absent (enters_default s _ found absent))
    | inr (m, there) ↦ rw (there, add_to) idle
  ]

  add_user_to_default_server-Change : Change a r (add_user_to_default_server a r).1
  unfolding add_user_to_default_server ◌>>=◌
  add_user_to_default_server-Change = add_to_default-Change r.default_server_id refl

  join_server-Change : (code : ℕ) → Change a r (join_server a code r).1
  unfolding join_server ◌>>=◌
  join_server-Change code =
      After-found (Change a r) (find_invited code r.servers) _ _ r idle λ d found.
        After-guard (Change a r) (is_banned d.id a r.bans) _ _ r idle λ free.
          After-guard (Change a r) (is_some (get_membership d.id a r.members)) _ _ r idle
            λ _. After-create (Change a r) d.id a member _ r idle λ n. enters d code _ found free n

  leave_server-Change : (s : ℕ) → Change a r (leave_server s a r).1
  unfolding leave_server ◌>>=◌
  leave_server-Change s = After-membership (Change a r) s a _ r idle λ m found.
      After-guard (Change a r) (is_default_server s r.default_server_id) _ _ r idle
        λ n. After-guard (Change a r) (is_owner m.role) _ _ r idle λ low. leaves s _ m found low n

  update_member_role-Change :
      (s u : ℕ) (role : MemberRole) → Change a r (update_member_role s a u role r).1
  unfolding update_member_role ◌>>=◌
  update_member_role-Change s u role = After-role (Change a r) s a admin _ r idle λ actor h.
      After-guard (Change a r) (is_owner role) _ _ r idle λ n.
        After-found (Change a r) (get_membership s u r.members) _ _ r idle λ target found.
          After-guard (Change a r) (is_owner target.role) _ _ r idle λ low.
            After-guard (Change a r) _ _ _ r idle
              λ under. assigns s u role _ actor target h n found low under

  kick_member-Change : (s u : ℕ) → Change a r (kick_member s a u r).1
  unfolding kick_member ◌>>=◌
  kick_member-Change s u = After-role (Change a r) s a admin _ r idle λ actor h.
      After-guard (Change a r) (a == u) _ _ r idle λ n.
        After-found (Change a r) (get_membership s u r.members) _ _ r idle λ target found.
          After-guard (Change a r) (is_owner target.role) _ _ r idle λ low.
            After-guard (Change a r) _ _ _ r idle
              λ under. kicks s u _ actor target h n found low under

  transfer_ownership-Change : (s u : ℕ) → Change a r (transfer_ownership s a u r).1
  unfolding transfer_ownership ◌>>=◌
  transfer_ownership-Change s u = After-role (Change a r) s a owner _ r idle λ actor h.
      After-guard (Change a r) (a == u) _ _ r idle λ n.
        After-found (Change a r) (get_membership s u r.members) _ _ r idle
          λ target found. transfers s u _ actor target h n found

  ban_member-Change : (s u : ℕ) (reason : Option Text) → Change a r (ban_member s a u reason r).1
  unfolding ban_member ◌>>=◌
  ban_member-Change s u reason = After-role (Change a r) s a admin _ r idle λ actor h.
      After-guard (Change a r) (a == u) _ _ r idle λ n.
        After-guard (Change a r) (is_default_server s r.default_server_id) _ _ r idle λ d.
          After-guard (Change a r) (owner_is_target (get_membership s u r.members)) _ _ r idle
            λ low.
              After-guard (Change a r) _ _ _ r idle
                λ under. bans_user s u reason _ actor h n d low under

  unban_member-Change : (s u : ℕ) → Change a r (unban_member s a u r).1
  unfolding unban_member ◌>>=◌
  unban_member-Change s u = After-role (Change a r) s a admin _ r idle λ actor h.
      After-guard (Change a r) (not (is_banned s u r.bans)) _ _ r idle
        λ _. unbans s u r.sent actor h

  target_membership :
      (s u : ℕ) (ms : List ServerMember) (actor target : ServerMember)
      → get_membership s a ms ≡ some actor
      → (if a == u then some actor else get_membership s u ms) ≡ some target
      → get_membership s u ms ≡ some target
  target_membership s u ms actor target h found = elim (Bool-cases (a == u)) [
    | inl self ↦
        let e : a ≡ u = ground arith in
        let same : some actor ≡ some target = rw self at found in rw (← e, h) same
    | inr other ↦ rw other at found
  ]

  set_nickname-Change :
      (s u : ℕ) (nickname : Option Text) → Change a r (set_nickname s a u nickname r).1
  unfolding set_nickname ◌>>=◌
  set_nickname-Change s u nickname = After-membership (Change a r) s a _ r idle λ actor h.
      After-guard (Change a r) (not (a == u) && ltb (role_rank actor.role) (role_rank admin)) _ _ r
        idle
        λ _.
          After-found (Change a r) (if a == u then some actor else get_membership s u r.members) _ _
            r idle
            λ target found.
              After-guard (Change a r) (not (a == u) && is_shielded target.role actor.role) _ _ r
                idle
                λ under.
                  let f = target_membership s u r.members actor target h found in
                  renames s u _ _ actor target h f under

  announce-Change : (s : ℕ) (message : Text) → Change a r (announce s a message r).1
  unfolding announce ◌>>=◌
  announce-Change s message = After-role (Change a r) s a admin _ r idle λ actor h. only_sends _

-- Every request, refused or not, makes a step that the relation allows its user.
pub answer-Change : (a : ℕ) (q : ServerRequest) (r : Registry) → Change a r (answer a q r).1
unfolding answer ◌>>=◌
answer-Change a registers r =
    After-then (Change a r) (add_user_to_default_server a) (λ _. pure tt) r
      (add_user_to_default_server-Change a r) (λ x t h. h)
answer-Change a (creates name icon) r =
    After-then (Change a r) (create_server a name icon) (λ _. pure tt) r
      (create_server-Change a r name icon) (λ x t h. h)
answer-Change a (updates s name icon) r =
    After-then (Change a r) (update_server s a name icon) (λ _. pure tt) r
      (update_server-Change a r s name icon) (λ x t h. h)
answer-Change a (Requests.deletes s) r = remove_server-Change a r s
answer-Change a (invites s code) r =
    After-then (Change a r) (create_invite s a code) (λ _. pure tt) r
      (create_invite-Change a r s code) (λ x t h. h)
answer-Change a (revokes s) r = revoke_invite-Change a r s
answer-Change a (redeems code) r =
    After-then (Change a r) (join_server a code) (λ _. pure tt) r (join_server-Change a r code)
      (λ x t h. h)
answer-Change a (Requests.leaves s) r = leave_server-Change a r s
answer-Change a (Requests.assigns s u role) r =
    After-then (Change a r) (update_member_role s a u role) (λ _. pure tt) r
      (update_member_role-Change a r s u role) (λ x t h. h)
answer-Change a (Requests.kicks s u) r = kick_member-Change a r s u
answer-Change a (Requests.transfers s u) r = transfer_ownership-Change a r s u
answer-Change a (Requests.bans_user s u reason) r = ban_member-Change a r s u reason
answer-Change a (Requests.unbans s u) r = unban_member-Change a r s u
answer-Change a (Requests.renames s u nickname) r =
    After-then (Change a r) (set_nickname s a u nickname) (λ _. pure tt) r
      (set_nickname-Change a r s u nickname) (λ x t h. h)
answer-Change a (announces s message) r = announce-Change a r s message
