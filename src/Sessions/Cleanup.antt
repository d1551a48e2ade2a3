-- ===== src/Sessions/Cleanup.antt =====
-- What CleanupExpiredSessions does: aegis/internal/adapters/session/redisSessionManager.go.
use abraxis.Base.{
  ℕ, suc, ◌≡◌, refl, ap, ◌∙◌, Text, bytes, Bool, true, false, Option, none, some, List, [], ◌∷◌,
  ◌++◌, text_eq, sle64, ◌==◌, inl, inr, Bool-cases, arith, if◌then◌else◌,
}
use abraxis.Keys.Params.{contains}
use abraxis.Sessions.Manager.{
  Result, ok, err, session_in, get_failed, make_session_key, SessionData, Redis, Json, get_session,
  deletions, clean_batch, cleanup_from,
}
use abraxis.Sessions.Lifetime.{Documented}

abbrev emptied : {S : Type 0} → Redis S → List Text → S → S × Bool
emptied redis [] s = (s, true)
emptied redis (key ∷ keys) s = redis.exec (key ∷ keys) s

-- A scan from a cursor to its end, whose keys are deleted batch by batch: the fuel, the cursor, the store
-- before, the keys of all batches, the store after.
pub data Sweep {S : Type 0} (redis : Redis S) : ℕ → ℕ → S → List Text → S → Type 0 where
  ends :
      (fuel cursor : ℕ) (keys : List Text) (s : S)
      → redis.scan cursor (bytes "session:*") 1000 s ≡ some (keys, 0)
      → (emptied redis keys s).1 ≡ true
      → Sweep redis (suc fuel) cursor s keys (emptied redis keys s).0
  goes_on :
      (fuel cursor next : ℕ) (keys rest : List Text) (s s' : S)
      → redis.scan cursor (bytes "session:*") 1000 s ≡ some (keys, next)
      → (emptied redis keys s).1 ≡ true
      → (next == 0) ≡ false
      → Sweep redis fuel next (emptied redis keys s).0 rest s'
      → Sweep redis (suc fuel) cursor s (keys ++ rest) s'

contains-right :
    (j : Text) (keys rest : List Text)
    → contains j keys ≡ false
    → contains j (keys ++ rest) ≡ true
    → contains j rest ≡ true
contains-right j [] rest absent listed = listed
contains-right j (key ∷ keys) rest absent listed = elim (Bool-cases (text_eq key j)) [
  | inl e ↦ absurd (ground arith)
  | inr e ↦ contains-right j keys rest (ground arith) (ground arith)
]

module _ {S R T : Type 0} {redis : Redis S} {json : Json (SessionData R T)}
    (laws : Documented redis json) where
  all_deleted : (keys : List Text) → deletions redis json keys ≡ keys
  unfolding deletions sle64
  all_deleted [] = refl
  all_deleted (key ∷ keys) =
      ap
        (λ q. elim q [
          | none ↦ deletions redis json keys
          | some ttl ↦
              if sle64 ttl 0 then key ∷ deletions redis json keys else deletions redis json keys
        ])
        (laws.queued key)
      ∙ ap (λ ks. key ∷ ks) (all_deleted keys)

  clean_batch-eq : (keys : List Text) (s : S) → clean_batch redis json keys s ≡ emptied redis keys s
  clean_batch-eq [] s = refl
  clean_batch-eq (key ∷ keys) s = ap (λ ks. redis.exec ks s) (all_deleted (key ∷ keys))

  get-emptied :
      (keys : List Text) (s : S) (j : Text)
      → (emptied redis keys s).1 ≡ true
      → redis.get j (emptied redis keys s).0 ≡ (if contains j keys then none else redis.get j s)
  get-emptied [] s j done = refl
  get-emptied (key ∷ keys) s j done = laws.exec_get (key ∷ keys) s j done

  -- What is gone stays gone.
  get-gone :
      {fuel cursor : ℕ} {s s' : S} {keys : List Text} (j : Text)
      → Sweep redis fuel cursor s keys s'
      → redis.get j s ≡ none
      → redis.get j s' ≡ none
  get-gone j (ends fuel cursor keys s scanned done) gone =
      get-emptied keys s j done ∙ rw gone (ground arith)
  get-gone j (goes_on fuel cursor next keys rest s s' scanned done more sweep) gone =
      get-gone j sweep (get-emptied keys s j done ∙ rw gone (ground arith))

  get-swept :
      {fuel cursor : ℕ} {s s' : S} {keys : List Text} (j : Text)
      → Sweep redis fuel cursor s keys s'
      → contains j keys ≡ true
      → redis.get j s' ≡ none
  get-swept j (ends fuel cursor keys s scanned done) listed =
      get-emptied keys s j done ∙ rw listed refl
  get-swept j (goes_on fuel cursor next keys rest s s' scanned done more sweep) listed =
      elim (Bool-cases (contains j keys)) [
        | inl here ↦ get-gone j sweep (get-emptied keys s j done ∙ rw here refl)
        | inr not_here ↦ get-swept j sweep (contains-right j keys rest not_here listed)
      ]

  cleanup_from-Sweep :
      {fuel cursor : ℕ} {s s' : S} {keys : List Text}
      → Sweep redis fuel cursor s keys s'
      → cleanup_from redis json fuel cursor s ≡ (s', some (ok tt))
  unfolding cleanup_from
  cleanup_from-Sweep (ends fuel cursor keys s scanned done) =
      let batch = clean_batch-eq keys s in ground (arith, scanned, batch, done)
  cleanup_from-Sweep (goes_on fuel cursor next keys rest s s' scanned done more sweep) =
      let batch = clean_batch-eq keys s in
      let ih = cleanup_from-Sweep sweep in ground (arith, scanned, batch, done, more, ih)

  -- CleanupExpiredSessions ends every session: where its scan comes to an end and its pipelines succeed, with
  -- fuel for the batches it succeeds, and afterwards no session whose key was scanned is found, whether its
  -- time to live has passed or not. Redis does what is documented: before its pipeline is executed a command
  -- has the zero reply.
  pub cleanup_from-get_session :
      (fuel : ℕ) (user session : Text) (keys : List Text) (s s' : S)
      → Sweep redis fuel 0 s keys s'
      → contains (make_session_key user session) keys ≡ true
      → ((cleanup_from redis json fuel 0 s).1 ≡ some (ok tt))
        × (get_session redis json session user (cleanup_from redis json fuel 0 s).0
            ≡ err get_failed)
  unfolding get_session
  cleanup_from-get_session fuel user session keys s s' sweep listed =
      let ran = cleanup_from-Sweep sweep in
      let gone = get-swept (make_session_key user session) sweep listed in
      (
        ap (λ (x : S × Option (Result (Unit {0}))). x.1) ran,
        rw ran (ap (session_in redis json session) gone),
      )
