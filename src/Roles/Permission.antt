-- ===== src/Roles/Permission.antt =====
-- Which roles a user has after a change, and what a role that does not exist asks for.
use abraxis.Base.{
  ◌≤◌, ◌≡◌, ◌↔◌, refl, Text, true, false, some, List, [], ◌∷◌, leb, text_eq, lookup, insert,
  has_key, lookup-insert, lookup-erase, if◌then◌else◌, arith, All,
}
use abraxis.Roles.RoleMap.{
  role_hierarchy, has_permission, role_from_string, has_role, set_role, remove_role, has_all_roles,
}

-- After a role is set, the user has for that tenant exactly the roles up to it, whatever roles the
-- map held; the roles for every other tenant are as before.
set_role-has_role :
    (tenant other role r required : Text) (m m' : List (Text × Text))
    → role_from_string role ≡ some r
    → set_role tenant role m ≡ some m'
    → has_role other required m'
      ≡ (if text_eq tenant other then has_permission r required else has_role other required m)
unfolding set_role has_role
set_role-has_role tenant other role r required m m' parsed h =
    let made : insert tenant r m ≡ m' = cc (rw (parsed, set_role) at h) in
    rw⁻¹ made (ground (arith, lookup-insert tenant other r m))

-- After a role is removed, the user has no role for that tenant, and the others as before.
remove_role-has_role :
    (tenant other required : Text) (m : List (Text × Text))
    → has_role other required (remove_role tenant m)
      ≡ (if text_eq tenant other then false else has_role other required m)
unfolding remove_role has_role
remove_role-has_role tenant other required m = ground (arith, lookup-erase tenant other m)

-- A check fails open on a role that does not exist: whoever has any role for the tenant passes it.
pub has_role_unknown :
    (tenant required : Text) (m : List (Text × Text))
    → role_hierarchy required ≡ 0
    → has_role tenant required m ≡ has_key tenant m
unfolding has_role has_permission lookup has_key
has_role_unknown tenant required [] h = refl
has_role_unknown tenant required ((k, r) ∷ m) h =
    ground (arith, has_role_unknown tenant required m h)

has_role_at :
    (tenant q : Text) (m : List (Text × Text)) (r : Text)
    → lookup tenant m ≡ some r
    → has_role tenant q m ≡ leb (role_hierarchy q) (role_hierarchy r)
unfolding has_role has_permission
has_role_at tenant q m r h = rw (h, has_role) refl

-- All the roles asked for are had exactly if none is asked for, or the tenant has a role that is at
-- least each of them.
has_all_roles_iff :
    (tenant : Text) (rs : List Text) (m : List (Text × Text)) (r : Text)
    → lookup tenant m ≡ some r
    → (has_all_roles tenant rs m ≡ true) ↔ All (λ q. role_hierarchy q ≤ role_hierarchy r) rs
unfolding has_all_roles
has_all_roles_iff tenant [] m r h = (λ e. tt, λ a. refl)
has_all_roles_iff tenant (q ∷ rs) m r h =
    let (to, from) = has_all_roles_iff tenant rs m r h in
    let here = has_role_at tenant q m r h in
    (λ e. (ground (arith, here), to (ground arith)), λ a. ground (arith, here, a.0, from a.1))
