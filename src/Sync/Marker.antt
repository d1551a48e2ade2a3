-- ===== src/Sync/Marker.antt =====
-- The marker that ends the snapshot of `SyncAuthData`, aegis/internal/grpc/sync_auth.go, and the client that
-- waits for it, prism/internal/features/gateway/adapters/aegis/auth_sync.go.
use mathlib.Core.Path.{subst}
use mathlib.Core.Option.{some-injective}
use abraxis.Base.{
  ℕ, zero, suc, ◌+◌, ◌≡◌, ◌⊎◌, inl, inr, refl, sym, ap, ◌∙◌, Text, Bool, true, false, Option, none,
  some, List, [], ◌∷◌, length, ltb, arith, All, All-append, Bool-cases, Option-cases,
}
use abraxis.Sync.Server.{
  User, AuthEvent, user_roles, token_revoked, sync_complete, Message, Progress, going, failed,
  and_then, send, send_roles, send_users, send_pages, send_snapshot, sync_auth_page_size,
}
use abraxis.Sync.Pages.{contents}
use abraxis.Sync.Steps.{pages_last, pages_next, pages_broken, pages_unread}
use abraxis.Sync.Client.{Redis, Json, Client, Received, handle_event, persist_version, play}
use abraxis.Sync.Roles.{events}

abbrev is_marker : AuthEvent → Bool
is_marker sync_complete = true
is_marker _ = false

-- None of the messages is the marker.
abbrev Markerless : List Message → Type 0
Markerless = All (λ m. is_marker m.content ≡ false)

abbrev pub messages : Progress → List Message
messages (going ms) = ms
messages (failed ms) = ms

abbrev has_failed : Progress → Bool
has_failed (going ms) = false
has_failed (failed ms) = true

Progress-cases :
    (p : Progress)
    → ((ms : List Message) × (p ≡ going ms)) ⊎ ((ms : List Message) × (p ≡ failed ms))
Progress-cases (going ms) = inl (ms, refl)
Progress-cases (failed ms) = inr (ms, refl)

module _ (accepts : ℕ → Bool) (version_at : ℕ → Text) where
  send-Markerless :
      (e : AuthEvent) (sent : List Message)
      → is_marker e ≡ false
      → Markerless sent
      → Markerless (messages (send accepts version_at e sent))
  unfolding send
  send-Markerless e sent h m = elim (Bool-cases (accepts (length sent))) [
    | inl open_ ↦ rw open_ (
        All-append (λ x. is_marker x.content ≡ false) sent
          (record { version = version_at (length sent); content = e } ∷ []) m (h, tt))
    | inr shut ↦ rw shut m
  ]

  and_then-Markerless :
      (p : Progress) (f : List Message → Progress)
      → Markerless (messages p)
      → ((ms : List Message) → Markerless ms → Markerless (messages (f ms)))
      → Markerless (messages (and_then p f))
  and_then-Markerless (going ms) f m h = h ms m
  and_then-Markerless (failed ms) f m h = m

  send_roles-Markerless :
      (id : Text) (roles : List (Text × Text)) (sent : List Message)
      → Markerless sent
      → Markerless (messages (send_roles accepts version_at id roles sent))
  unfolding send_roles
  send_roles-Markerless id [] sent m = m
  send_roles-Markerless id ((tenant, role) ∷ r) sent m =
      let e = user_roles id tenant (role ∷ []) [] in
      and_then-Markerless (send accepts version_at e sent) (send_roles accepts version_at id r)
        (send-Markerless e sent refl m) (send_roles-Markerless id r)

  send_users-Markerless :
      (us : List User) (sent : List Message)
      → Markerless sent
      → Markerless (messages (send_users accepts version_at us sent))
  unfolding send_users
  send_users-Markerless [] sent m = m
  send_users-Markerless (u ∷ us) sent m =
      and_then-Markerless (send_roles accepts version_at u.id u.roles sent)
        (send_users accepts version_at us) (send_roles-Markerless u.id u.roles sent m)
        (send_users-Markerless us)

  is_result :
      {r : Option Progress} (q p : Progress)
      → r ≡ some q
      → r ≡ some p
      → Markerless (messages q)
      → Markerless (messages p)
  is_result q p e h m = subst (λ x. Markerless (messages x)) (some-injective q p (sym e ∙ h)) m

  unread :
      (list : ℕ → ℕ → Option (List User)) (fuel : ℕ) (p : Progress)
      → send_pages accepts version_at list sync_auth_page_size fuel 1 [] ≡ none
      → send_snapshot accepts version_at list fuel ≡ some p
      → ◌≡◌ {A = Option Progress} none (some p)
  unfolding send_snapshot
  unread list fuel p e h = ground arith

  read :
      (list : ℕ → ℕ → Option (List User)) (fuel : ℕ) (q : Progress) {p : Progress}
      → send_pages accepts version_at list sync_auth_page_size fuel 1 [] ≡ some q
      → send_snapshot accepts version_at list fuel ≡ some p
      → and_then q (send accepts version_at sync_complete) ≡ p
  unfolding send_snapshot
  read list fuel q {p} e h =
      some-injective (and_then q (send accepts version_at sync_complete)) p (ground arith)

  -- A run that fails has not sent the marker.
  marked :
      (q p : Progress)
      → and_then q (send accepts version_at sync_complete) ≡ p
      → has_failed p ≡ true
      → Markerless (messages q)
      → Markerless (messages p)
  unfolding send
  marked (failed ms) p e broken m = subst (λ x. Markerless (messages x)) e m
  marked (going ms) p e broken m = elim (Bool-cases (accepts (length ms))) [
    | inl open_ ↦ cc (ap has_failed (rw open_ at e))
    | inr shut ↦ subst (λ x. Markerless (messages x)) (rw shut at e) m
  ]

  module _ (list : ℕ → ℕ → Option (List User)) (size : ℕ) where
    send_pages-Markerless :
        (fuel page : ℕ) (sent : List Message) (p : Progress)
        → Markerless sent
        → send_pages accepts version_at list size fuel page sent ≡ some p
        → Markerless (messages p)
    send_pages-Markerless zero page sent p m h = unfold send_pages in cc h
    send_pages-Markerless (suc fuel) page sent p m h = elim (Option-cases (list page size)) [
      | inl e ↦
          is_result (failed sent) p
            (pages_unread accepts version_at list size fuel page [] sent sent e) h m
      | inr (us, e) ↦
          let m' = send_users-Markerless us sent m in
          elim (Progress-cases (send_users accepts version_at us sent)) [
            | inr (s, q) ↦
                is_result (failed s) p
                  (pages_broken accepts version_at list size fuel page us sent s e q) h
                  (subst (λ r. Markerless (messages r)) q m')
            | inl (s, q) ↦
                let ms = subst (λ r. Markerless (messages r)) q m' in
                elim (Bool-cases (ltb (length us) size)) [
                  | inl short ↦
                      is_result (going s) p
                        (pages_last accepts version_at list size fuel page us sent s e q short) h ms
                  | inr full ↦ send_pages-Markerless fuel (page + 1) s p ms (
                      sym (pages_next accepts version_at list size fuel page us sent s e q full)
                      ∙ h)
                ]
          ]
    ]

  send_snapshot-Markerless :
      (list : ℕ → ℕ → Option (List User)) (fuel : ℕ) (p : Progress)
      → send_snapshot accepts version_at list fuel ≡ some p
      → has_failed p ≡ true
      → Markerless (messages p)
  send_snapshot-Markerless list fuel p h broken =
      elim (Option-cases (send_pages accepts version_at list sync_auth_page_size fuel 1 [])) [
        | inl e ↦ cc (unread list fuel p e h)
        | inr (q, e) ↦
            let m = send_pages-Markerless list sync_auth_page_size fuel 1 [] q tt e in
            marked q p (read list fuel q e h) broken m
      ]

module _ {S : Type 0} (redis : Redis S) (json : Json) (cache_ttl : ℕ) where
  ready-persist_version :
      (now : ℕ) (version : Text) (c : Client S)
      → (persist_version redis json cache_ttl now version c).ready ≡ c.ready
  unfolding persist_version
  ready-persist_version now version c = ground arith

  ready-handle_event :
      (now : ℕ) (e : AuthEvent) (c : Client S)
      → is_marker e ≡ false
      → (handle_event redis json cache_ttl now e c).ready ≡ c.ready
  unfolding handle_event
  ready-handle_event now (user_roles u t r p) c h = refl
  ready-handle_event now (token_revoked j e) c h = refl
  ready-handle_event now sync_complete c h = cc

  ready-play :
      (ms : List Received) (c : Client S)
      → All (λ e. is_marker e ≡ false) (events ms)
      → (play redis json cache_ttl ms c).ready ≡ c.ready
  unfolding play
  ready-play [] c h = refl
  ready-play (m ∷ ms) c h =
      let c1 = handle_event redis json cache_ttl m.time m.content c in
      ready-play ms (persist_version redis json cache_ttl m.time m.version c1) h.1
      ∙ ready-persist_version m.time m.version c1
      ∙ ready-handle_event m.time m.content c h.0

  All-contents : (ms : List Message) → Markerless ms → All (λ e. is_marker e ≡ false) (contents ms)
  All-contents [] h = tt
  All-contents (m ∷ ms) h = (h.0, All-contents ms h.1)

  -- A client does not take a part of the snapshot for the whole: when SyncAuthData fails in it, at a page
  -- that cannot be read or at a message that the stream does not take, the client that has played what
  -- was sent is as ready as before.
  pub failed_snapshot-ready :
      (accepts : ℕ → Bool) (version_at : ℕ → Text) (list : ℕ → ℕ → Option (List User)) (fuel : ℕ)
      (p : Progress) (ms : List Received) (c : Client S)
      → send_snapshot accepts version_at list fuel ≡ some p
      → has_failed p ≡ true
      → events ms ≡ contents (messages p)
      → (play redis json cache_ttl ms c).ready ≡ c.ready
  failed_snapshot-ready accepts version_at list fuel p ms c ran broken same = ready-play ms c (
      subst (All (λ e. is_marker e ≡ false)) (sym same) (
        All-contents (messages p)
          (send_snapshot-Markerless accepts version_at list fuel p ran broken)))
