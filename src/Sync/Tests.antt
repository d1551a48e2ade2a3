-- ===== src/Sync/Tests.antt =====
-- A concrete stream between concrete users and a store, and the theorems on them.
use abraxis.Base.{
  ℕ, zero, suc, ◌+◌, ◌≡◌, refl, ap, ◌∙◌, Text, bytes, Bool, true, false, Option, some, List, [],
  ◌∷◌, ◌++◌, drop, ltb, text_eq, if◌then◌else◌, arith,
}
use abraxis.Sync.Server.{
  User, user_roles, token_revoked, sync_complete, Message, going, failed, send, send_roles,
  send_users, send_pages, send_snapshot, list_all, forward, sync_auth_page_size,
}
use abraxis.Sync.Client.{
  Redis, Json, CachedRoles, Client, Received, Got, missing, found, handle_user_roles,
  handle_token_revoked, handle_event, persist_version, play, is_token_revoked, get_cached_roles,
  last_version, backoff, backoff_loop,
}
use abraxis.Sync.Pages.{contents, all_pairs}
use abraxis.Sync.Snapshot.{send_snapshot-all_pairs}
use abraxis.Sync.Revocation.{Available, play-is_token_revoked}
use abraxis.Sync.Roles.{last_for, send_snapshot-get_cached_roles}
use abraxis.Sync.Marker.{failed_snapshot-ready}

program : Unit {0}
unfolding text_eq send send_roles send_users send_pages send_snapshot list_all forward
    handle_user_roles handle_token_revoked handle_event persist_version play is_token_revoked
    get_cached_roles last_version backoff backoff_loop
program = tt

abbrev versions : ℕ → Text
versions n = bytes "0"

-- So many users before the last one, who has a role in each of two tenants.
abbrev users_before : ℕ → List User
users_before zero =
    record {
      id = bytes "last";
      roles = (bytes "t1", bytes "viewer") ∷ (bytes "t2", bytes "admin") ∷ [];
    }
    ∷ []
users_before (suc n) =
    record { id = bytes "first"; roles = (bytes "t1", bytes "viewer") ∷ [] } ∷ users_before n

abbrev hundred_users : List User
hundred_users = users_before 100

abbrev takes_all : ℕ → Bool
takes_all n = true

abbrev all_messages : List Message
all_messages =
    record {
      version = bytes "0";
      content = user_roles (bytes "last") (bytes "t1") (bytes "viewer" ∷ []) [];
    }
    ∷ record {
      version = bytes "0";
      content = user_roles (bytes "last") (bytes "t2") (bytes "admin" ∷ []) [];
    }
    ∷ record { version = bytes "0"; content = sync_complete }
    ∷ []

snapshot_of_hundred :
    send_snapshot takes_all versions (λ k n. some (list_all hundred_users k n)) 2
    ≡ some (going all_messages)
unfolding program
snapshot_of_hundred = refl

send_snapshot-all_pairs_example :
    (sent : List Message) × (send_snapshot takes_all versions
        (λ k n. some (list_all hundred_users k n))
        2
      ≡ some (going sent))
    × (contents sent ≡ all_pairs (drop sync_auth_page_size hundred_users) ++ sync_complete ∷ [])
send_snapshot-all_pairs_example =
    send_snapshot-all_pairs takes_all versions (λ n. refl) hundred_users 2 (omega arith)

-- A store of what was set, with the time at which it expires.
abbrev Store : Type 0
Store = List (Text × Text × ℕ)

-- The newest entry of a key, if it has not expired.
find : ℕ → Text → Store → Got
find t k [] = missing
find t k ((j, v, d) ∷ s) =
    if text_eq j k then (if ltb t d then found v else missing) else find t k s

abbrev memory : Redis Store
memory = record { get = find; set = λ now k v ttl s. ((k, v, now + ttl) ∷ s, true) }

memory-Available : Available memory
unfolding find
memory-Available = record { get_set = λ now ttl k v s t j pos le. refl }

-- Texts one after the other: a byte is written two higher, 1 ends a text and 0 the texts.
write_text : Text → Text → Text
write_text [] k = 1 ∷ k
write_text (b ∷ t) k = suc (suc b) ∷ write_text t k

write_texts : List Text → Text → Text
write_texts [] k = 0 ∷ k
write_texts (t ∷ ts) k = write_text t (write_texts ts k)

push : ℕ → List Text → List Text
push b [] = (b ∷ []) ∷ []
push b (t ∷ ts) = (b ∷ t) ∷ ts

read_texts : Text → List Text × Text
read_texts [] = ([], [])
read_texts (zero ∷ s) = ([], s)
read_texts (suc zero ∷ s) = let (ts, rest) = read_texts s in ([] ∷ ts, rest)
read_texts (suc (suc b) ∷ s) = let (ts, rest) = read_texts s in (push b ts, rest)

read-write_text :
    (t : Text) (k : Text) → read_texts (write_text t k) ≡ (t ∷ (read_texts k).0, (read_texts k).1)
unfolding read_texts write_text push
read-write_text [] k = refl
read-write_text (b ∷ t) k = ap (λ r. (push b r.0, r.1)) (read-write_text t k)

read-write_texts : (ts : List Text) (k : Text) → read_texts (write_texts ts k) ≡ (ts, k)
unfolding read_texts write_texts
read-write_texts [] k = refl
read-write_texts (t ∷ ts) k =
    read-write_text t (write_texts ts k) ∙ ap (λ r. (t ∷ r.0, r.1)) (read-write_texts ts k)

write_roles : CachedRoles → Text
write_roles r = write_texts r.roles (write_texts r.permissions r.tenant_id)

read_roles : Text → Option CachedRoles
read_roles t =
    let (roles, rest) = read_texts t in
    let (permissions, tenant) = read_texts rest in
    some (record { roles = roles; permissions = permissions; tenant_id = tenant })

read-write_roles : (r : CachedRoles) → read_roles (write_roles r) ≡ some r
unfolding read_roles write_roles
read-write_roles r =
    let rest = write_texts r.permissions r.tenant_id in
    rw (read-write_texts r.roles rest) (rw (read-write_texts r.permissions r.tenant_id) refl)

abbrev as_text : Json
as_text = record { encode = write_roles; decode = read_roles }

abbrev revocation : Received
revocation = record { time = 10; version = bytes "1"; content = token_revoked (bytes "jti") 5 }

abbrev role_change : Received
role_change = record {
  time = 20;
  version = bytes "2";
  content = user_roles (bytes "u") (bytes "t") [] [];
}

abbrev new_client : Client Store
new_client = record { store = []; ready = false }

play-is_token_revoked_example :
    is_token_revoked memory as_text 100 30
      (bytes "jti")
      (play memory as_text 100 (revocation ∷ role_change ∷ []) new_client).store
    ≡ some true
play-is_token_revoked_example =
    play-is_token_revoked memory memory-Available as_text 100 (omega arith) 10 30 5 (bytes "1")
      (bytes "jti") (role_change ∷ []) new_client (omega arith) (omega arith)
      ((omega arith, tt), tt)

abbrev received : List Received
received =
    record {
      time = 1;
      version = bytes "0";
      content = user_roles (bytes "last") (bytes "t1") (bytes "viewer" ∷ []) [];
    }
    ∷ record {
      time = 2;
      version = bytes "0";
      content = user_roles (bytes "last") (bytes "t2") (bytes "admin" ∷ []) [];
    }
    ∷ record { time = 3; version = bytes "0"; content = sync_complete }
    ∷ []

-- The role in the first tenant is lost.
send_snapshot-get_cached_roles_example :
    get_cached_roles memory as_text 100 10
      (bytes "last")
      (play memory as_text 100 received new_client).store
    ≡ some (last_for (bytes "last") (all_pairs (drop sync_auth_page_size hundred_users)))
send_snapshot-get_cached_roles_example =
    send_snapshot-get_cached_roles memory memory-Available as_text 100 (omega arith)
      read-write_roles versions hundred_users 2 all_messages received new_client 10 (bytes "last")
      (omega arith) snapshot_of_hundred refl
      ((omega arith, omega arith), ((omega arith, omega arith), ((omega arith, omega arith), tt)))
      (unfold find in refl)

only_one_tenant :
    last_for (bytes "last") (all_pairs (drop sync_auth_page_size hundred_users))
    ≡ some (record { roles = bytes "admin" ∷ []; permissions = []; tenant_id = bytes "t2" })
unfolding program
only_one_tenant = refl

-- A stream that takes one message only.
abbrev takes_one : ℕ → Bool
takes_one n = ltb n 1

abbrev one_message : Message
one_message = record {
  version = bytes "0";
  content = user_roles (bytes "last") (bytes "t1") (bytes "viewer" ∷ []) [];
}

broken_snapshot :
    send_snapshot takes_one versions (λ k n. some (list_all hundred_users k n)) 2
    ≡ some (failed (one_message ∷ []))
unfolding program
broken_snapshot = refl

failed_snapshot-ready_example :
    (play memory as_text 100
      (record { time = 1; version = bytes "0"; content = one_message.content } ∷ [])
      new_client).ready
    ≡ false
failed_snapshot-ready_example =
    failed_snapshot-ready memory as_text 100 takes_one versions
      (λ k n. some (list_all hundred_users k n)) 2 (failed (one_message ∷ []))
      (record { time = 1; version = bytes "0"; content = one_message.content } ∷ []) new_client
      broken_snapshot refl refl
