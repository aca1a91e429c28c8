-- ===== src/Servers/Changes.antt =====
-- What a user can do to the stored servers, as a step relation, with the condition of each step.
pub mod Served
use backend_htssclub.Base.{
  ℕ, suc, ◌≡◌, Bool, true, false, not, ◌&&◌, Option, none, some, List, [], ◌∷◌, ◌++◌, ltb, ◌==◌,
}
use backend_htssclub.Common.Enums.{MemberRole, owner, admin, member}
use backend_htssclub.Servers.{
  Text, Server, ServerMember, ServerBan, ServerEvent, Registry, role_rank, is_owner, get_membership,
  is_banned, change_server, change_member, delete_server, delete_member, delete_ban, clear_members,
  clear_bans, is_default_server,
}
use backend_htssclub.Servers.Life.{find_invited}
use backend_htssclub.Servers.Admin.{is_shielded, upsert_ban, owner_is_target, target_is_shielded}

-- `a` is a member of `s` with at least this role.
abbrev pub HasRole : Registry → ℕ → ℕ → MemberRole → ServerMember → Type 0
HasRole r s a least m =
    (get_membership s a r.members ≡ some m) × (ltb (role_rank m.role) (role_rank least) ≡ false)

abbrev pub membership : ℕ → ℕ → MemberRole → ServerMember
membership s u role = record { server_id = s; user_id = u; role = role; nickname = none }

-- `f` changes neither the identifier nor the owner.
abbrev pub KeepsOwner : (Server → Server) → Type 0
KeepsOwner f = (d : Server) → ((f d).id ≡ d.id) × ((f d).owner_id ≡ d.owner_id)

-- The state after what user `a` asked for in the state `r`.
pub data Change (a : ℕ) (r : Registry) : Registry → Type 0 where
  only_sends : (es : List ServerEvent) → Change a r (record r { sent = es })
  edits :
      (s : ℕ) (f : Server → Server) (es : List ServerEvent) (actor : ServerMember)
      → HasRole r s a admin actor
      → KeepsOwner f
      → Change a r (record r { servers = change_server s f r.servers; sent = es })
  founds :
      (d : Server) (es : List ServerEvent)
      → d.id ≡ r.next_id
      → d.owner_id ≡ a
      → Change a r (record r {
        servers = r.servers ++ d ∷ [];
        members = r.members ++ membership r.next_id a owner ∷ [];
        next_id = suc r.next_id;
        sent = es;
      })
  deletes :
      (s : ℕ) (es : List ServerEvent) (actor : ServerMember)
      → HasRole r s a owner actor
      → is_default_server s r.default_server_id ≡ false
      → Change a r (record r {
        servers = delete_server s r.servers;
        members = clear_members s r.members;
        bans = clear_bans s r.bans;
        sent = es;
      })
  enters_default :
      (s : ℕ) (es : List ServerEvent)
      → r.default_server_id ≡ some s
      → get_membership s a r.members ≡ none
      → Change a r (record r { members = r.members ++ membership s a member ∷ []; sent = es })
  enters :
      (d : Server) (code : ℕ) (es : List ServerEvent)
      → find_invited code r.servers ≡ some d
      → is_banned d.id a r.bans ≡ false
      → get_membership d.id a r.members ≡ none
      → Change a r (record r { members = r.members ++ membership d.id a member ∷ []; sent = es })
  leaves :
      (s : ℕ) (es : List ServerEvent) (m : ServerMember)
      → get_membership s a r.members ≡ some m
      → is_owner m.role ≡ false
      → is_default_server s r.default_server_id ≡ false
      → Change a r (record r { members = delete_member s a r.members; sent = es })
  assigns :
      (s u : ℕ) (role : MemberRole) (es : List ServerEvent) (actor target : ServerMember)
      → HasRole r s a admin actor
      → is_owner role ≡ false
      → get_membership s u r.members ≡ some target
      → is_owner target.role ≡ false
      → is_shielded target.role actor.role ≡ false
      → Change a r (record r {
        members = change_member s u (λ m. record m { role = role }) r.members;
        sent = es;
      })
  kicks :
      (s u : ℕ) (es : List ServerEvent) (actor target : ServerMember)
      → HasRole r s a admin actor
      → (a == u) ≡ false
      → get_membership s u r.members ≡ some target
      → is_owner target.role ≡ false
      → is_shielded target.role actor.role ≡ false
      → Change a r (record r { members = delete_member s u r.members; sent = es })
  transfers :
      (s u : ℕ) (es : List ServerEvent) (actor target : ServerMember)
      → HasRole r s a owner actor
      → (a == u) ≡ false
      → get_membership s u r.members ≡ some target
      → Change a r (record r {
        members =
            change_member s u
              (λ m. record m { role = owner })
              (change_member s a (λ m. record m { role = admin }) r.members);
        servers = change_server s (λ d. record d { owner_id = u }) r.servers;
        sent = es;
      })
  bans_user :
      (s u : ℕ) (reason : Option Text) (es : List ServerEvent) (actor : ServerMember)
      → HasRole r s a admin actor
      → (a == u) ≡ false
      → is_default_server s r.default_server_id ≡ false
      → owner_is_target (get_membership s u r.members) ≡ false
      → target_is_shielded (get_membership s u r.members) actor.role ≡ false
      → Change a r (record r {
        members = delete_member s u r.members;
        bans =
            upsert_ban
              (record { server_id = s; user_id = u; banned_by = a; reason = reason })
              r.bans;
        sent = es;
      })
  unbans :
      (s u : ℕ) (es : List ServerEvent) (actor : ServerMember)
      → HasRole r s a admin actor
      → Change a r (record r { bans = delete_ban s u r.bans; sent = es })
  renames :
      (s u : ℕ) (nickname : Option Text) (es : List ServerEvent) (actor target : ServerMember)
      → get_membership s a r.members ≡ some actor
      → get_membership s u r.members ≡ some target
      → (not (a == u) && is_shielded target.role actor.role) ≡ false
      → Change a r (record r {
        members = change_member s u (λ m. record m { nickname = nickname }) r.members;
        sent = es;
      })
