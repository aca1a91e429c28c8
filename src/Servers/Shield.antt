-- ===== src/Servers/Shield.antt =====
-- How far the roles of src/servers/servers.service.ts protect the members of a server.
use backend_htssclub.Base.{
  ℕ, ◌≡◌, refl, sym, ◌∙◌, inl, inr, Bool, true, false, not, ◌&&◌, Bool-cases, Option-cases, Option,
  none, some, List, [], ◌∷◌, ◌++◌, ◌==◌, arith,
}
use backend_htssclub.Common.Enums.{MemberRole, owner, admin, member}
use backend_htssclub.Servers.{
  Server, ServerMember, Registry, is_owner, find_server, get_membership, is_membership,
  change_member, delete_member,
}
use backend_htssclub.Servers.Admin.{is_shielded, target_is_shielded, owner_is_target}
use backend_htssclub.Servers.Requests.{ServerRequest, answer}
use backend_htssclub.Servers.Changes.{
  membership, Change, only_sends, edits, founds, deletes, enters_default, enters, leaves, assigns,
  kicks, transfers, bans_user, unbans, renames,
}
use backend_htssclub.Servers.Changes.Served.{answer-Change}
use backend_htssclub.Servers.Rows.{
  get_membership-snoc, get_membership-delete, get_membership-clear, get_membership-change,
}
use backend_htssclub.Servers.Sound.{IsSound, is_owned_by}
use backend_htssclub.Servers.Owners.{Change-IsSound}

-- A member may act on those of a lower role; the owner may act on everybody.
abbrev pub may_act : Option ServerMember → ServerMember → Bool
may_act none target = false
may_act (some actor) target = not (is_shielded target.role actor.role)

module _ (a s u : ℕ) (r : Registry) (m : ServerMember) (other : (a == u) ≡ false)
    (found : get_membership s u r.members ≡ some m)
    (weak : may_act (get_membership s a r.members) m ≡ false) where
  -- Its target is not `u`,
  deleted :
      (t v : ℕ)
      → (t == s && v == u) ≡ false
      → get_membership s u (delete_member t v r.members) ≡ some m
  deleted t v apart = rw (get_membership-delete s u t v r.members, apart, found)

  changed :
      (t v : ℕ) (f : ServerMember → ServerMember) (ms : List ServerMember)
      → ((c : ServerMember) → is_membership s u (f c) ≡ is_membership s u c)
      → get_membership s u ms ≡ some m
      → (t == s && v == u) ≡ false
      → get_membership s u (change_member t v f ms) ≡ some m
  changed t v f ms k here apart = rw (get_membership-change s u t v f ms k, apart, here)

  added :
      (t v : ℕ) (role : MemberRole)
      → get_membership s u (r.members ++ membership t v role ∷ []) ≡ some m
  added t v role = rw (get_membership-snoc s u (membership t v role) r.members, found)

  -- The one who acts in that server may not act on `u`,
  weaker :
      (t : ℕ) (actor : ServerMember)
      → get_membership t a r.members ≡ some actor
      → (t == s) ≡ true
      → is_shielded m.role actor.role ≡ true
  weaker t actor h here =
      let e : t ≡ s = ground arith in
      let h' : get_membership s a r.members ≡ some actor = rw (← e) h in
      let w : not (is_shielded m.role actor.role) ≡ false = rw h' at weak in ground (arith, w)

  -- so the target is another one.
  apart :
      (t v : ℕ) (actor : ServerMember)
      → get_membership t a r.members ≡ some actor
      → target_is_shielded (get_membership t v r.members) actor.role ≡ false
      → (t == s && v == u) ≡ false
  apart t v actor h under = elim (Bool-cases (t == s && v == u)) [
    | inl here ↦
        let e : t ≡ s = ground arith in
        let g : v ≡ u = ground arith in
        let k : is_shielded m.role actor.role ≡ false = rw (e, g, found) at under in
        absurd (ground (arith, weaker t actor h (ground (arith, here)), k))
    | inr there ↦ there
  ]

  Change-shielded : {r' : Registry} → Change a r r' → get_membership s u r'.members ≡ some m
  Change-shielded (only_sends es) = found
  Change-shielded (edits t f es actor h k) = found
  Change-shielded (founds d es i o) = added r.next_id a owner
  Change-shielded (deletes t es actor h n) =
      ground (arith, get_membership-clear s u t r.members, found, weak, h)
  Change-shielded (enters_default t es d n) = added t a member
  Change-shielded (enters d code es f free n) = added d.id a member
  Change-shielded (leaves t es c f low n) = deleted t a (ground (arith, other))
  Change-shielded (assigns t v role es actor target h n f low under) =
      changed t v (λ c. record c { role = role }) r.members (λ c. refl) found
        (apart t v actor h.0 (rw f under))
  Change-shielded (kicks t v es actor target h n f low under) =
      deleted t v (apart t v actor h.0 (rw f under))
  Change-shielded (transfers t v es actor target h n f) =
      let under : (t == s) ≡ false = ground (arith, weaker t actor h.0, h.1) in
      changed t v (λ c. record c { role = owner })
        (change_member t a (λ c. record c { role = admin }) r.members) (λ c. refl)
        (changed t a (λ c. record c { role = admin }) r.members (λ c. refl) found
          (ground (arith, under)))
        (ground (arith, under))
  Change-shielded (bans_user t v reason es actor h n d low under) =
      deleted t v (apart t v actor h.0 under)
  Change-shielded (unbans t v es actor h) = found
  Change-shielded (renames t v nickname es actor target h f under) =
      changed t v (λ c. record c { nickname = nickname }) r.members (λ c. refl) found
        (elim (Bool-cases (a == v)) [
          | inl self ↦ ground (arith, other, self)
          | inr apart_v ↦ apart t v actor h (rw f (ground (arith, under, apart_v)))
        ])

-- No request, whatever it is and whether it is refused or not, changes anything of the membership
-- of another user on whom the requesting user may not act: one of the same or a higher role, or any
-- member of a server where the requesting user is not a member.
pub answer-shielded :
    (a : ℕ) (q : ServerRequest) (r : Registry) (s u : ℕ) (m : ServerMember)
    → (a == u) ≡ false
    → get_membership s u r.members ≡ some m
    → may_act (get_membership s a r.members) m ≡ false
    → get_membership s u (answer a q r).1.members ≡ some m
answer-shielded a q r s u m other found weak =
    Change-shielded a s u r m other found weak (answer-Change a q r)

-- Where the owners are recorded consistently, no request of another user removes a server or gives
-- it another owner.
pub owner_stays :
    (a : ℕ) (q : ServerRequest) (r : Registry) (s : ℕ) (d : Server)
    → IsSound r
    → find_server s r.servers ≡ some d
    → (a == d.owner_id) ≡ false
    → is_owned_by d.owner_id (find_server s (answer a q r).1.servers) ≡ true
owner_stays a q r s d p found other =
    let after = Change-IsSound a r p (answer-Change a q r) in
    let at_owner : owner_is_target (get_membership s d.owner_id r.members) ≡ true =
      rw (p.owned s d.owner_id, found) (ground arith) in
    let at_actor : owner_is_target (get_membership s a r.members) ≡ false =
      rw (p.owned s a, found) (ground (arith, other)) in
    elim (Option-cases (get_membership s d.owner_id r.members)) [
      | inl absent ↦ absurd (ground (arith, absent, at_owner))
      | inr (m, held) ↦
          let o : is_owner m.role ≡ true = rw held at at_owner in
          let stays : get_membership s d.owner_id (answer a q r).1.members ≡ some m =
            answer-shielded a q r s d.owner_id m other held (ground (arith, o, at_actor)) in
          sym (after.owned s d.owner_id) ∙ rw stays o
    ]
