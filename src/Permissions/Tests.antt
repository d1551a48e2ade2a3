-- ===== src/Permissions/Tests.antt =====
-- Concrete tables of permissions, and the theorems on them at concrete inputs.
use abraxis.Base.{
  ℕ, ◌≡◌, refl, Text, bytes, true, false, Option, none, some, List, [], ◌∷◌, ◌++◌, text_eq,
  has_prefix, join_with, lookup, insert, erase, lookup-insert, lookup-insert_self, arith,
}
use abraxis.Permissions.Service.{
  Permission, Repository, ok, make_cache_key, grants, any_grants, role_ids, new_service,
  check_roles, has_permission, create_permission, add_permission_to_role,
}
use abraxis.Permissions.Defaults.{default_permissions, create_each, create_default_permissions}
use abraxis.Permissions.Creation.{Finds}
use abraxis.Permissions.Answers.{Explained}
use abraxis.Permissions.Keys.{Question, IsPlain}
use abraxis.Permissions.Coherence.{ask, has_permission-shift}
use abraxis.Permissions.Freshness.{
  Documented, Operation, asks, creates, adds, operate, run, run-Explained,
}

program : Unit {0}
unfolding text_eq has_prefix join_with lookup insert erase make_cache_key grants any_grants role_ids
    new_service check_roles has_permission create_permission add_permission_to_role create_each
    default_permissions create_default_permissions operate run
program = tt

-- Permissions by their names, which are their ids as well, and the permissions of each role.
record Tables : Type 0 where
  by_name : List (Text × Permission)
  of_role : List (Text × List Permission)

abbrev permissions_of : Text → Tables → List Permission
permissions_of role t = elim (lookup role t.of_role) [ none ↦ [] | some ps ↦ ps ]

abbrev grant : Text → Text → Tables → Tables × Option (Unit {0})
grant role id t = elim (lookup id t.by_name) [
  | none ↦ (t, none)
  | some p ↦ (record t { of_role = insert role (p ∷ permissions_of role t) t.of_role }, some tt)
]

abbrev tables : Repository Tables
tables = record {
  get_by_id = λ id t. lookup id t.by_name;
  get_by_name = λ name t. lookup name t.by_name;
  get_by_action_and_resource = λ action resource t. none;
  create = λ p t. (record t { by_name = insert p.name p t.by_name }, some p);
  update = λ id p t. (record t { by_name = insert id p t.by_name }, some p);
  delete = λ id t. (record t { by_name = erase id t.by_name }, some tt);
  add_permission_to_role = grant;
  remove_permission_from_role = λ role id t. (t, none);
  get_role_permissions = λ role t. some (permissions_of role t);
}

grant_keeps :
    (role i : Text) (t : Tables) (id : Text)
    → (grant role i t).1 ≡ none
    → permissions_of id (grant role i t).0 ≡ permissions_of id t
grant_keeps role i t id h = ground arith

tables-Documented : Documented tables
tables-Documented = record {
  create_keeps = λ p t id h. cc;
  update_keeps = λ i p t id h. cc;
  delete_keeps = λ i t id h. cc;
  add_keeps = λ role i t id h. cc (grant_keeps role i t id h);
  remove_keeps = λ role i t id h. refl;
}

tables-Finds : Finds tables
tables-Finds = record {
  create_finds = λ p q t h. ground (arith, lookup-insert_self p.name p t.by_name);
  create_leaves = λ p name t h. ground (arith, lookup-insert p.name name p t.by_name);
}

abbrev empty_tables : Tables
empty_tables = record { by_name = []; of_role = [] }

abbrev editor_role : Text
editor_role = bytes "r1"

abbrev some_id : Text → Option Text
some_id s = some s

abbrev question : Question
question = record {
  roles = editor_role ∷ [];
  action = bytes "read";
  resource = bytes "user:profile";
}

question-IsPlain : IsPlain question
question-IsPlain = record { has_roles = tt; role_texts = omega arith; action_text = omega arith }

abbrev history : List Operation
history =
    asks question
    ∷ creates 1 (bytes "reader") [] (bytes "read") (bytes "user") false
    ∷ adds editor_role (bytes "reader")
    ∷ []

-- Refused at first, and answered anew after the grant.
granted_later :
    (ask tables some_id question (run tables some_id history (new_service empty_tables))).1
    ≡ ok true
unfolding program
granted_later = refl

run-Explained_example :
    let s = run tables some_id history (new_service empty_tables) in
    Explained tables some_id question.action question.resource s.store
      (ask tables some_id question s).1
      question.roles
run-Explained_example =
    run-Explained tables some_id tables-Documented history question empty_tables
      (question-IsPlain, (tt, (tt, tt))) question-IsPlain

shift_example_answer :
    (has_permission tables some_id
      (editor_role ∷ [])
      (bytes "read")
      (bytes "user" ++ b':' ∷ bytes "profile")
      (new_service empty_tables)).1
    ≡ ok false
unfolding program
shift_example_answer = refl

has_permission-shift_example :
    (has_permission tables some_id
      (editor_role ∷ [])
      (bytes "read" ++ b':' ∷ bytes "user")
      (bytes "profile")
      (has_permission tables some_id
        (editor_role ∷ [])
        (bytes "read")
        (bytes "user" ++ b':' ∷ bytes "profile")
        (new_service empty_tables)).0).1
    ≡ ok false
has_permission-shift_example =
    has_permission-shift tables some_id (editor_role ∷ []) (bytes "read") (bytes "user")
      (bytes "profile") (new_service empty_tables) false refl shift_example_answer

abbrev at_start : Text → ℕ
at_start name = 0

defaults_created : (create_default_permissions tables at_start (new_service empty_tables)).1 ≡ ok tt
unfolding program
defaults_created = refl
