-- ===== src/Sync/Steps.antt =====
-- How the loop over the pages of `SyncAuthData` goes on: aegis/internal/grpc/sync_auth.go.

use abraxis.Base.{
  ℕ, suc, ◌+◌, ◌≡◌, Text, Bool, true, false, Option, none, some, List, length, ltb, arith,
}
use abraxis.Sync.Server.{User, Message, going, failed, send_users, send_pages}

module _ (accepts : ℕ → Bool) (version_at : ℕ → Text) where
  module _ (list : ℕ → ℕ → Option (List User)) (size fuel page : ℕ) (us : List User)
      (sent sent' : List Message) where
    pub pages_last :
        list page size ≡ some us
        → send_users accepts version_at us sent ≡ going sent'
        → ltb (length us) size ≡ true
        → send_pages accepts version_at list size (suc fuel) page sent ≡ some (going sent')
    unfolding send_pages
    pages_last e p h = ground arith

    pub pages_next :
        list page size ≡ some us
        → send_users accepts version_at us sent ≡ going sent'
        → ltb (length us) size ≡ false
        → send_pages accepts version_at list size (suc fuel) page sent
          ≡ send_pages accepts version_at list size fuel (page + 1) sent'
    unfolding send_pages
    pages_next e p h = ground arith

    pub pages_broken :
        list page size ≡ some us
        → send_users accepts version_at us sent ≡ failed sent'
        → send_pages accepts version_at list size (suc fuel) page sent ≡ some (failed sent')
    unfolding send_pages
    pages_broken e p = ground arith

    pub pages_unread :
        list page size ≡ none
        → send_pages accepts version_at list size (suc fuel) page sent ≡ some (failed sent)
    unfolding send_pages
    pages_unread e = ground arith
