-- ===== src/Sync/Snapshot.antt =====
-- What the snapshot of `SyncAuthData` sends: aegis/internal/grpc/sync_auth.go.
use mathlib.Core.List.{append_assoc, append-nil}
use mathlib.Core.Path.{subst}
use abraxis.Base.{
  ℕ, zero, suc, ◌+◌, ◌*◌, ◌<◌, ◌≡◌, inl, inr, refl, sym, ap, ◌∙◌, Text, Bool, true, Option, some,
  List, [], ◌∷◌, ◌++◌, length, take, drop, ltb, arith, Bool-cases,
}
use abraxis.Sync.Server.{
  User, AuthEvent, user_roles, sync_complete, Message, Progress, going, list_all, send, send_roles,
  send_users, send_pages, send_snapshot, sync_auth_page_size,
}
use abraxis.Sync.Pages.{
  contents-append, length-drop, take_short, next_page, pages_left, joined, contents, pairs,
  all_pairs,
}
use abraxis.Sync.Steps.{pages_last, pages_next}

-- The progress goes on, with these contents.
abbrev Sends : Progress → List AuthEvent → Type 0
Sends p es = (sent : List Message) × (p ≡ going sent) × (contents sent ≡ es)

module _ (accepts : ℕ → Bool) (version_at : ℕ → Text) where
  snapshot_marked :
      (list : ℕ → ℕ → Option (List User)) (fuel : ℕ) (sent last : List Message)
      → send_pages accepts version_at list sync_auth_page_size fuel 1 [] ≡ some (going sent)
      → send accepts version_at sync_complete sent ≡ going last
      → send_snapshot accepts version_at list fuel ≡ some (going last)
  unfolding send_snapshot
  snapshot_marked list fuel sent last pages marked = ground arith

  module _ (open_stream : (n : ℕ) → accepts n ≡ true) where
    send_open :
        (e : AuthEvent) (sent : List Message)
        → Sends (send accepts version_at e sent) (contents sent ++ e ∷ [])
    unfolding send
    send_open e sent =
        let m : Message = record { version = version_at (length sent); content = e } in
        (sent ++ m ∷ [], ground (arith, open_stream (length sent)), contents-append sent (m ∷ []))

    send_roles_open :
        (id : Text) (roles : List (Text × Text)) (sent : List Message)
        → Sends (send_roles accepts version_at id roles sent) (contents sent ++ pairs id roles)
    unfolding send_roles
    send_roles_open id [] sent = (sent, refl, sym (append-nil (contents sent)))
    send_roles_open id ((tenant, role) ∷ m) sent =
        let e = user_roles id tenant (role ∷ []) [] in
        let (sent', here, all_here) = send_open e sent in
        let (last, there, all_there) = send_roles_open id m sent' in
        (
          last,
          rw here there,
          all_there
              ∙ ap (λ l. l ++ pairs id m) all_here
              ∙ append_assoc (contents sent) (e ∷ []) (pairs id m),
        )

    send_users_open :
        (us : List User) (sent : List Message)
        → Sends (send_users accepts version_at us sent) (contents sent ++ all_pairs us)
    unfolding send_users
    send_users_open [] sent = (sent, refl, sym (append-nil (contents sent)))
    send_users_open (u ∷ us) sent =
        let (sent', here, all_here) = send_roles_open u.id u.roles sent in
        let (last, there, all_there) = send_users_open us sent' in
        (
          last,
          rw here there,
          all_there
              ∙ ap (λ l. l ++ all_pairs us) all_here
              ∙ append_assoc (contents sent) (pairs u.id u.roles) (all_pairs us),
        )

    send_pages_open :
        (users : List User) (size fuel page : ℕ) (sent : List Message)
        → length (drop (page * size) users) < size * fuel
        → (last : List Message) × (send_pages accepts version_at
              (λ k n. some (list_all users k n))
              size
              fuel
              page
              sent
            ≡ some (going last))
          × (contents last ≡ contents sent ++ all_pairs (drop (page * size) users))
    send_pages_open users size zero page sent h = absurd (omega arith)
    send_pages_open users size (suc fuel) page sent h =
        let rest = drop (page * size) users in
        let us = take size rest in
        let list : ℕ → ℕ → Option (List User) = λ k n. some (list_all users k n) in
        let listed : list page size ≡ some us = unfold list_all in refl in
        let (sent', here, sent_here) = send_users_open us sent in
        elim (Bool-cases (ltb (length us) size)) [
          | inl short ↦
              let whole : us ≡ rest = take_short size rest (ground arith) in
              (
                sent',
                pages_last accepts version_at list size fuel page us sent sent' listed here short,
                sent_here ∙ ap (λ l. contents sent ++ all_pairs l) whole,
              )
          | inr full ↦
              let enough = pages_left users page size fuel full h in
              let (last, there, last_there) =
                send_pages_open users size fuel (page + 1) sent' enough in
              let last_rest : contents last ≡ contents sent' ++ all_pairs (drop size rest) =
                subst (λ l. contents last ≡ contents sent' ++ all_pairs l)
                  (sym (next_page users page size)) last_there in
              (
                last,
                pages_next accepts version_at list size fuel page us sent sent' listed here full
                    ∙ there,
                joined (contents sent) (contents sent') (contents last) size rest sent_here
                    last_rest,
              )
        ]

    -- The snapshot ends, and sends less than all: if the stream takes every message, and the users do not
    -- change, then with fuel for more pages than there are full ones the events sent are those of the users
    -- after the first hundred, one for each tenant of each, in order, and then the marker. The first page
    -- that is asked for is the second one of ListAll.
    pub send_snapshot-all_pairs :
        (users : List User) (fuel : ℕ)
        → length users < sync_auth_page_size * fuel
        → (sent : List Message) × (send_snapshot accepts version_at
              (λ k n. some (list_all users k n))
              fuel
            ≡ some (going sent))
          × (contents sent ≡ all_pairs (drop sync_auth_page_size users) ++ sync_complete ∷ [])
    unfolding send_snapshot
    send_snapshot-all_pairs users fuel h =
        let few : length (drop (1 * sync_auth_page_size) users) < sync_auth_page_size * fuel =
          omega (arith, length-drop (1 * sync_auth_page_size) users) in
        let (sent, pages, sent_pages) = send_pages_open users sync_auth_page_size fuel 1 [] few in
        let (last, marked, last_marked) = send_open sync_complete sent in
        let list : ℕ → ℕ → Option (List User) = λ k n. some (list_all users k n) in
        (
          last,
          snapshot_marked list fuel sent last pages marked,
          last_marked ∙ ap (λ l. l ++ sync_complete ∷ []) sent_pages,
        )
