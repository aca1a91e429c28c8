-- ===== src/Servers/Roles.antt =====
-- `updateMemberRole` of src/servers/servers.service.ts: who may give which role to whom.
use backend_htssclub.Base.{ℕ, ◌≡◌, refl, Bool, true, false, ◌&&◌, some, ◌==◌, if◌then◌else◌, arith}
use backend_htssclub.Common.Enums.{MemberRole, owner, admin, member}
use backend_htssclub.Common.Action.{Result, ok, err, ◌>>=◌}
use backend_htssclub.Servers.{
  ServerMember, Registry, get_membership, change_member, require_membership, require_role,
}
use backend_htssclub.Servers.Admin.{update_member_role}
use backend_htssclub.Servers.Rows.{get_membership-change}

-- The role of the one who asks, of the one it is about, and the new role.
abbrev pub may_assign : MemberRole → MemberRole → MemberRole → Bool
may_assign owner owner _ = false
may_assign owner _ owner = false
may_assign owner _ _ = true
may_assign admin member owner = false
may_assign admin member _ = true
may_assign _ _ _ = false

abbrev pub is_ok : {A : Type 0} → Result A → Bool
is_ok (ok a) = true
is_ok (err e) = false

module _ (s a u : ℕ) (role : MemberRole) (r : Registry) (actor target : ServerMember)
    (acts : get_membership s a r.members ≡ some actor)
    (found : get_membership s u r.members ≡ some target) where
  reassigned :
      get_membership s u (change_member s u (λ m. record m { role = role }) r.members)
      ≡ some (record target { role = role })
  reassigned =
      let self : (s == s && u == u) ≡ true = ground arith in
      rw (
        get_membership-change s u s u (λ m. record m { role = role }) r.members (λ m. refl),
        self,
        found,
      )

-- The request for two members succeeds exactly by this table and then the second has the new role;
-- else that membership is as before. So an admin, not only the owner, makes a plain member an admin.
pub update_member_role_lem :
    (s a u : ℕ) (role : MemberRole) (r : Registry) (actor target : ServerMember)
    → get_membership s a r.members ≡ some actor
    → get_membership s u r.members ≡ some target
    → let (outcome, after) = update_member_role s a u role r in
      (is_ok outcome ≡ may_assign actor.role target.role role)
      × (get_membership s u after.members
          ≡ some (
              if may_assign actor.role target.role role
              then record target { role = role }
              else target))
unfolding update_member_role require_role require_membership ◌>>=◌
update_member_role_lem s a u role r actor target acts found =
    let h = reassigned s a u role r actor target acts found in ground (arith, acts, found, h)
