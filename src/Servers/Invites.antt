-- ===== src/Servers/Invites.antt =====
-- `createInvite`, `revokeInvite` and `join` of src/servers/servers.service.ts together.
use backend_htssclub.Base.{
  ℕ, ◌≡◌, refl, inl, inr, true, false, Bool-cases, Option, none, some, List, [], ◌∷◌, ◌++◌, ◌==◌,
  arith,
}
use backend_htssclub.Common.Enums.{admin, member}
use backend_htssclub.Common.Action.{err, not_found, invalid_invite, ◌>>=◌}
use backend_htssclub.Servers.{
  Server, ServerMember, Registry, find_server, get_membership, is_membership, is_banned,
  change_server, require_membership, require_role, update_found, create_member,
}
use backend_htssclub.Servers.Life.{
  find_invited, code_taken, create_invite, revoke_invite, join_server,
}
use backend_htssclub.Servers.Changes.{HasRole, membership}
use backend_htssclub.Servers.Rows.{find_server-id, get_membership-snoc, find_server-change}

abbrev with_code : Option ℕ → Server → Server
with_code c d = record d { invite_code = c }

invited-change :
    (s code : ℕ) (ds : List Server) (d : Server)
    → find_server s ds ≡ some d
    → code_taken s code ds ≡ false
    → find_invited code (change_server s (with_code (some code)) ds)
      ≡ some (with_code (some code) d)
unfolding find_server code_taken find_invited change_server
invited-change s code [] d h t = ground arith
invited-change s code (c ∷ ds) d h t = elim (Bool-cases (c.id == s)) [
  | inl here ↦
      let g : some c ≡ some d = rw here at h in
      let same : c ≡ d = cc in let k : (code == code) ≡ true = ground arith in rw (← same, here, k)
  | inr there ↦ ground (arith, there, h, t, invited-change s code ds d)
]

invited-revoked :
    (s code : ℕ) (ds : List Server)
    → code_taken s code ds ≡ false
    → find_invited code
        (change_server s (with_code none) (change_server s (with_code (some code)) ds))
      ≡ none
unfolding code_taken find_invited change_server
invited-revoked s code [] t = refl
invited-revoked s code (c ∷ ds) t = ground (arith, t, invited-revoked s code ds)

module _ (a s code : ℕ) (r : Registry) (d : Server) {actor : ServerMember}
    (h : HasRole r s a admin actor) (found : find_server s r.servers ≡ some d) where
  create_invite-state :
      code_taken s code r.servers ≡ false
      → (create_invite s a code r).1
        ≡ record r { servers = change_server s (with_code (some code)) r.servers }
  unfolding create_invite require_role require_membership update_found ◌>>=◌
  create_invite-state free = rw (h.0, h.1, free, found)

  revoke_invite-state :
      (revoke_invite s a r).1 ≡ record r { servers = change_server s (with_code none) r.servers }
  unfolding revoke_invite require_role require_membership update_found ◌>>=◌
  revoke_invite-state = rw (h.0, h.1, found)

join_server-state :
    (u code : ℕ) (r : Registry) (d : Server)
    → find_invited code r.servers ≡ some d
    → is_banned d.id u r.bans ≡ false
    → get_membership d.id u r.members ≡ none
    → (join_server u code r).1.members ≡ r.members ++ membership d.id u member ∷ []
unfolding join_server create_member ◌>>=◌
join_server-state u code r d found free absent = rw (found, free, absent, absent)

join_server-refused :
    (u code : ℕ) (r : Registry)
    → find_invited code r.servers ≡ none
    → join_server u code r ≡ (err (not_found invalid_invite), r)
unfolding join_server ◌>>=◌
join_server-refused u code r absent = rw absent

-- Where an admin of a server creates an invite code that no other server has, a user who is neither
-- banned from the server nor a member of it becomes one by that code, as a plain member; once the
-- admin has revoked the code, nobody joins by it.
pub join-create_invite :
    (a s code u : ℕ) (r : Registry) (actor : ServerMember) (d : Server)
    → HasRole r s a admin actor
    → find_server s r.servers ≡ some d
    → code_taken s code r.servers ≡ false
    → is_banned s u r.bans ≡ false
    → get_membership s u r.members ≡ none
    → let invited = (create_invite s a code r).1 in
      let revoked = (revoke_invite s a invited).1 in
      (get_membership s u (join_server u code invited).1.members ≡ some (membership s u member))
      × (join_server u code revoked ≡ (err (not_found invalid_invite), revoked))
join-create_invite a s code u r actor d h found free unbanned absent =
    let invited : Registry = record r {
      servers = change_server s (with_code (some code)) r.servers;
    } in
    let i : d.id ≡ s = find_server-id s r.servers d found in
    let self : (s == s) ≡ true = ground arith in
    let own : is_membership s u (membership s u member) ≡ true = ground arith in
    let there : find_server s invited.servers ≡ some (with_code (some code) d) =
      rw (find_server-change s s (with_code (some code)) r.servers (λ c. refl), self, found) in
    let code_found = invited-change s code r.servers d found free in
    let joined =
      join_server-state u code invited (with_code (some code) d) code_found (rw i unbanned)
        (rw i absent) in
    let revoked = revoke_invite-state a s code invited (with_code (some code) d) h there in
    rw (create_invite-state a s code r d h found free) (
      rw (joined, i, get_membership-snoc s u (membership s u member) r.members, absent, own),
      rw revoked (join_server-refused u code _ (invited-revoked s code r.servers free)),
    )
