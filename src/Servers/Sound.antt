-- ===== src/Servers/Sound.antt =====
-- What the steps of src/servers/servers.service.ts keep of the stored servers and memberships.
use backend_htssclub.Base.{
  ℕ, suc, ◌<◌, ◌≡◌, refl, ◌∙◌, inl, inr, Bool, true, false, ◌&&◌, Bool-cases, Option-cases, Option,
  none, some, List, [], ◌∷◌, ◌++◌, ◌==◌, if◌then◌else◌, arith,
}
use backend_htssclub.Common.Enums.{owner, admin, member}
use backend_htssclub.Servers.{
  Server, ServerMember, ServerEvent, Registry, is_owner, find_server, get_membership, is_membership,
  is_some, change_server, change_member, delete_server, delete_member, clear_members, clear_bans,
  is_default_server,
}
use backend_htssclub.Servers.Admin.{owner_is_target}
use backend_htssclub.Servers.Changes.{HasRole, membership, KeepsOwner}
use backend_htssclub.Servers.Rows.{
  over, or_else, get_membership-snoc, get_membership-delete, get_membership-clear,
  get_membership-change, find_server-snoc, find_server-delete, find_server-change,
}

abbrev pub is_owned_by : ℕ → Option Server → Bool
is_owned_by u none = false
is_owned_by u (some d) = d.owner_id == u

-- A user has the role OWNER in a server if and only if the server's document names that user as the
-- owner; a member's server exists, and so does the default server; identifiers are not used twice.
pub record IsSound (r : Registry) : Type 0 where
  pub owned :
      (s u : ℕ)
      → owner_is_target (get_membership s u r.members) ≡ is_owned_by u (find_server s r.servers)
  pub homes :
      (s u : ℕ)
      → is_some (get_membership s u r.members) ≡ true
      → is_some (find_server s r.servers) ≡ true
  pub fresh : (s : ℕ) → is_some (find_server s r.servers) ≡ true → s < r.next_id
  pub default : (s : ℕ) → r.default_server_id ≡ some s → is_some (find_server s r.servers) ≡ true

-- An update of the members that moves no ownership.
members-IsSound :
    (r : Registry) (ms : List ServerMember) (es : List ServerEvent)
    → IsSound r
    → ((s u : ℕ)
        → owner_is_target (get_membership s u ms) ≡ owner_is_target (get_membership s u r.members))
    → ((s u : ℕ)
        → is_some (get_membership s u ms) ≡ true
        → is_some (find_server s r.servers) ≡ true)
    → IsSound (record r { members = ms; sent = es })
members-IsSound r ms es p same there = record {
  owned = λ s u. same s u ∙ p.owned s u;
  homes = there;
  fresh = p.fresh;
  default = p.default;
}

owner-over :
    (f : ServerMember → ServerMember) (o : Option ServerMember)
    → ((m : ServerMember) → o ≡ some m → is_owner (f m).role ≡ is_owner m.role)
    → owner_is_target (over f o) ≡ owner_is_target o
owner-over f none h = refl
owner-over f (some m) h = h m refl

module _ (r : Registry) (p : IsSound r) (es : List ServerEvent) where
  pub leave-IsSound :
      (s u : ℕ)
      → owner_is_target (get_membership s u r.members) ≡ false
      → IsSound (record r { members = delete_member s u r.members; sent = es })
  leave-IsSound s u low =
      members-IsSound r _ es p
        (λ t v. elim (Bool-cases (s == t && u == v)) [
          | inl here ↦
              let e : s ≡ t = ground arith in
              let f : u ≡ v = ground arith in
              rw (get_membership-delete t v s u r.members, here, ← e, ← f, low)
          | inr there ↦ rw (get_membership-delete t v s u r.members, there)
        ])
        (λ t v h. p.homes t v (ground (arith, get_membership-delete t v s u r.members, h)))

  pub change-IsSound :
      (s u : ℕ) (f : ServerMember → ServerMember)
      → ((m : ServerMember) (t v : ℕ) → is_membership t v (f m) ≡ is_membership t v m)
      → ((m : ServerMember)
          → get_membership s u r.members ≡ some m
          → is_owner (f m).role ≡ is_owner m.role)
      → IsSound (record r { members = change_member s u f r.members; sent = es })
  change-IsSound s u f k low =
      members-IsSound r _ es p
        (λ t v. elim (Bool-cases (s == t && u == v)) [
          | inl here ↦
              let e : s ≡ t = ground arith in
              let g : u ≡ v = ground arith in
              rw (get_membership-change t v s u f r.members (λ m. k m t v), here, ← e, ← g)
                (owner-over f (get_membership s u r.members) low)
          | inr there ↦ rw (get_membership-change t v s u f r.members (λ m. k m t v), there)
        ])
        (λ t v h.
          p.homes t v (ground (arith, get_membership-change t v s u f r.members (λ m. k m t v), h)))

  pub enter-IsSound :
      (s u : ℕ)
      → is_some (find_server s r.servers) ≡ true
      → get_membership s u r.members ≡ none
      → IsSound (record r { members = r.members ++ membership s u member ∷ []; sent = es })
  enter-IsSound s u there absent =
      members-IsSound r _ es p
        (λ t v. ground (arith, get_membership-snoc t v (membership s u member) r.members, absent))
        (λ t v h.
          ground (
            arith,
            get_membership-snoc t v (membership s u member) r.members,
            h,
            p.homes t v,
            there,
          ))

is_owned_by-over :
    (f : Server → Server) (o : Option Server) (u : ℕ)
    → KeepsOwner f
    → is_owned_by u (over f o) ≡ is_owned_by u o
is_owned_by-over f none u k = refl
is_owned_by-over f (some d) u k = rw (k d).1

module _ (r : Registry) (p : IsSound r) (es : List ServerEvent) where
  pub edit-IsSound :
      (s : ℕ) (f : Server → Server)
      → KeepsOwner f
      → IsSound (record r { servers = change_server s f r.servers; sent = es })
  edit-IsSound s f k = record {
    owned = λ t u.
        p.owned t u ∙ ground (arith, look t, is_owned_by-over f (find_server t r.servers) u k);
    homes = λ t u h. ground (arith, look t, p.homes t u h);
    fresh = λ t h. p.fresh t (ground (arith, look t, h));
    default = λ t h. ground (arith, look t, p.default t h);
  }
    where
      look :
          (t : ℕ)
          → find_server t (change_server s f r.servers)
            ≡ (if s == t then over f (find_server t r.servers) else find_server t r.servers)
      look t = find_server-change t s f r.servers (λ d. (k d).0)

  -- Nobody is a member of the next server yet.
  pub next_free : (u : ℕ) → get_membership r.next_id u r.members ≡ none
  next_free u = elim (Option-cases (get_membership r.next_id u r.members)) [
    | inl absent ↦ absent
    | inr (m, found) ↦
        absurd (omega (arith, p.fresh r.next_id (p.homes r.next_id u (rw found refl))))
  ]

  pub found-IsSound :
      (d : Server) (a : ℕ)
      → d.id ≡ r.next_id
      → d.owner_id ≡ a
      → IsSound (record r {
        servers = r.servers ++ d ∷ [];
        members = r.members ++ membership r.next_id a owner ∷ [];
        next_id = suc r.next_id;
        sent = es;
      })
  found-IsSound d a i o = record {
    owned = λ t u. ground (arith, here t u, look t, next_free u, p.fresh t, p.owned t u, i, o);
    homes = λ t u h. ground (arith, here t u, look t, p.homes t u, i, h);
    fresh = λ t h. ground (arith, look t, p.fresh t, i, h);
    default = λ t h. ground (arith, look t, p.default t h);
  }
    where
      here :
          (t u : ℕ)
          → get_membership t u (r.members ++ membership r.next_id a owner ∷ [])
            ≡ or_else (get_membership t u r.members) (
                if is_membership t u (membership r.next_id a owner)
                then some (membership r.next_id a owner)
                else none)
      here t u = get_membership-snoc t u (membership r.next_id a owner) r.members

      look :
          (t : ℕ)
          → find_server t (r.servers ++ d ∷ [])
            ≡ or_else (find_server t r.servers) (if d.id == t then some d else none)
      look t = find_server-snoc t d r.servers

  pub delete-IsSound :
      (s : ℕ)
      → is_default_server s r.default_server_id ≡ false
      → IsSound (record r {
        servers = delete_server s r.servers;
        members = clear_members s r.members;
        bans = clear_bans s r.bans;
        sent = es;
      })
  delete-IsSound s n = record {
    owned = λ t u. ground (arith, gone t u, look t, p.owned t u);
    homes = λ t u h. ground (arith, gone t u, look t, p.homes t u, h);
    fresh = λ t h. p.fresh t (ground (arith, look t, h));
    default = λ t h. ground (arith, look t, p.default t h, n, h);
  }
    where
      look :
          (t : ℕ)
          → find_server t (delete_server s r.servers)
            ≡ (if s == t then none else find_server t r.servers)
      look t = find_server-delete t s r.servers

      gone :
          (t u : ℕ)
          → get_membership t u (clear_members s r.members)
            ≡ (if s == t then none else get_membership t u r.members)
      gone t u = get_membership-clear t u s r.members

  pub transfer-IsSound :
      (s a u : ℕ) (actor target : ServerMember)
      → HasRole r s a owner actor
      → (a == u) ≡ false
      → get_membership s u r.members ≡ some target
      → IsSound (record r {
        members =
            change_member s u
              (λ m. record m { role = owner })
              (change_member s a (λ m. record m { role = admin }) r.members);
        servers = change_server s (λ d. record d { owner_id = u }) r.servers;
        sent = es;
      })
  transfer-IsSound s a u actor target h n found = record {
    owned = λ t v.
        ground
          (arith, first t v, second t v, look t, p.owned t v, p.owned s a, h, n, found, is_first);
    homes = λ t v k. ground (arith, first t v, second t v, look t, p.homes t v, k);
    fresh = λ t k. p.fresh t (ground (arith, look t, k));
    default = λ t k. ground (arith, look t, p.default t k);
  }
    where
      demoted : List ServerMember
      demoted = change_member s a (λ m. record m { role = admin }) r.members

      first :
          (t v : ℕ)
          → get_membership t v demoted ≡ (
              if s == t && a == v
              then over (λ m. record m { role = admin }) (get_membership t v r.members)
              else get_membership t v r.members)
      first t v =
          get_membership-change t v s a (λ m. record m { role = admin }) r.members (λ m. refl)

      second :
          (t v : ℕ)
          → get_membership t v (change_member s u (λ m. record m { role = owner }) demoted) ≡ (
              if s == t && u == v
              then over (λ m. record m { role = owner }) (get_membership t v demoted)
              else get_membership t v demoted)
      second t v =
          get_membership-change t v s u (λ m. record m { role = owner }) demoted (λ m. refl)

      look :
          (t : ℕ)
          → find_server t (change_server s (λ d. record d { owner_id = u }) r.servers) ≡ (
              if s == t
              then over (λ d. record d { owner_id = u }) (find_server t r.servers)
              else find_server t r.servers)
      look t = find_server-change t s (λ d. record d { owner_id = u }) r.servers (λ d. refl)

      is_first : is_owner actor.role ≡ true
      is_first = ground (arith, h.1)
