-- ===== src/Servers/Default.antt =====
-- `ensureDefaultServer` and `addUserToDefaultServer` of src/servers/servers.service.ts.
use backend_htssclub.Base.{ℕ, ◌≡◌, refl, true, Option, none, some, List, [], ◌∷◌, ◌++◌, arith}
use backend_htssclub.Common.Enums.{member}
use backend_htssclub.Common.Action.{pure, ◌>>=◌}
use backend_htssclub.Common.Action.After.{After-then}
use backend_htssclub.Servers.{
  Server, ServerMember, Registry, find_server, get_membership, is_some, change_server,
  create_member, new_server,
}
use backend_htssclub.Servers.Life.{
  find_default, bootstrap, use_existing, find_configured, use_configured, ensure_default_server,
  add_to, add_to_default, add_user_to_default_server,
}
use backend_htssclub.Servers.Changes.{membership}
use backend_htssclub.Servers.Rows.{
  get_membership-snoc, find_server-snoc, find_server-change, find_server-id, find_server-default,
}
use backend_htssclub.Servers.Sound.{IsSound, found-IsSound, edit-IsSound, next_free}

-- Consistent records, and a default server.
abbrev IsReady : Registry → Type 0
IsReady r = IsSound r × ((d : ℕ) × (r.default_server_id ≡ some d))

with_default :
    (r : Registry) (d : ℕ)
    → IsSound r
    → is_some (find_server d r.servers) ≡ true
    → IsReady (record r { default_server_id = some d })
with_default r d p there = (
  record {
    owned = p.owned;
    homes = p.homes;
    fresh = p.fresh;
    default = λ s h. ground (arith, there, h);
  },
  (d, refl),
)

stored_last :
    (s : ℕ) (d : Server) (ds : List Server)
    → d.id ≡ s
    → is_some (find_server s (ds ++ d ∷ [])) ≡ true
stored_last s d ds h = ground (arith, find_server-snoc s d ds, h)

bootstrap-IsReady : (u : ℕ) (r : Registry) → IsSound r → IsReady (bootstrap (some u) r).1
unfolding bootstrap new_server create_member ◌>>=◌
bootstrap-IsReady u r p = rw (next_free r p r.sent u) (
    with_default _ r.next_id (found-IsSound r p r.sent _ u refl refl)
      (stored_last r.next_id _ r.servers refl))

existing-IsReady :
    (u : ℕ) (r : Registry) (o : Option Server)
    → find_default r.servers ≡ o
    → IsSound r
    → IsReady (use_existing (some u) o r).1
unfolding use_existing ◌>>=◌
existing-IsReady u r none e p = bootstrap-IsReady u r p
existing-IsReady u r (some d) e p = with_default r d.id p (find_server-default r.servers d e)

configured-IsReady :
    (u : ℕ) (r : Registry) (o : Option Server)
    → ((d : Server) → o ≡ some d → is_some (find_server d.id r.servers) ≡ true)
    → IsSound r
    → IsReady (use_configured (some u) o r).1
unfolding use_configured ◌>>=◌
configured-IsReady u r none e p = existing-IsReady u r (find_default r.servers) refl p
configured-IsReady u r (some d) e p =
    let f : Server → Server = λ d. record d { is_default = true } in
    with_default (record r { servers = change_server d.id f r.servers }) d.id
      (edit-IsSound r p r.sent d.id f (λ d. (refl, refl)))
      (ground (arith, find_server-change d.id d.id f r.servers (λ c. refl), e d refl))

stored_configured :
    (config_id : Option ℕ) (ds : List Server) (d : Server)
    → find_configured config_id ds ≡ some d
    → is_some (find_server d.id ds) ≡ true
unfolding find_configured
stored_configured none ds d h = ground arith
stored_configured (some i) ds d h = ground (arith, h, find_server-id i ds d h)

registered :
    (u d : ℕ) (r : Registry) (o : Option ServerMember)
    → get_membership d u r.members ≡ o
    → is_some (get_membership d u (add_to u d o r).1.members) ≡ true
unfolding add_to create_member ◌>>=◌
registered u d r none h =
    rw h (ground (arith, get_membership-snoc d u (membership d u member) r.members, h))
registered u d r (some m) h = rw h refl

registers_default :
    (u d : ℕ) (r : Registry) (o : Option ℕ)
    → o ≡ some d
    → is_some (get_membership d u (add_to_default u o r).1.members) ≡ true
unfolding add_to_default ◌>>=◌
registers_default u d r none h = ground arith
registers_default u d r (some e) h =
    let same : e ≡ d = ground (arith, h) in
    let P : Registry → Type 0 = λ t. is_some (get_membership d u t.members) ≡ true in
    let entered : P (add_to u e (get_membership e u r.members) r).1 =
      rw same (registered u d r (get_membership d u r.members) refl) in
    After-then P (add_to u e (get_membership e u r.members)) (λ _. pure (some e)) r entered
      (λ _ t k. k)

-- On start with a configured owner, whatever server is configured and whichever are stored, there is
-- a default server afterwards, the owners are recorded as consistently as before, and every user who
-- registers next is a member of the default server.
pub add_user-ensure_default_server :
    (config_id : Option ℕ) (o u : ℕ) (r : Registry)
    → IsSound r
    → let started = (ensure_default_server config_id (some o) r).1 in
      IsSound started
      × ((d : ℕ) × (started.default_server_id ≡ some d)
          × (is_some (get_membership d u (add_user_to_default_server u started).1.members) ≡ true))
unfolding ensure_default_server add_user_to_default_server ◌>>=◌
add_user-ensure_default_server config_id o u r p =
    let start = (use_configured (some o) (find_configured config_id r.servers) r).1 in
    let ready =
      configured-IsReady o r (find_configured config_id r.servers)
        (stored_configured config_id r.servers) p in
    let (sound, (d, is_default)) = ready in
    (sound, (d, is_default, registers_default u d start start.default_server_id is_default))
