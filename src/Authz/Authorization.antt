-- ===== src/Authz/Authorization.antt =====
-- Which requests may replace the policies, for authz/webhook.go.
use abraxis.Base.{
  ℕ, ◌≤◌, ◌<◌, ◌≡◌, ◌↔◌, ◌⊎◌, inl, inr, refl, ap, ◌∙◌, Text, bytes, true, false, Option, none, some,
  List, [], ◌∷◌, is_empty, text_eq, text_eq_refl, eq_of_text_eq, Any, Lacks, arith, Bool-cases,
  Option-cases,
}
use abraxis.Authz.Agent.{Agent, AgentError, DecisionCache, Engine, update_policies}
use abraxis.Authz.Webhook.{
  WebhookConfig, PolicyUpdate, Request, Net, Codec, contains_byte, get_client_ip, matches_source,
  matches_any, is_allowed_ip, verify_signature, source_refused, signature_refused, webhook_handler,
}

contains_byte-Lacks : (c : ℕ) (s : Text) → (contains_byte c s ≡ false) ↔ Lacks c s
unfolding contains_byte
contains_byte-Lacks c [] = (λ e. tt, λ l. refl)
contains_byte-Lacks c (b ∷ s) = ground (arith, contains_byte-Lacks c s)

text_eq_post : (m : Text) → m ≡ bytes "POST" → text_eq m (bytes "POST") ≡ true
text_eq_post m e = ap (λ x. text_eq x (bytes "POST")) e ∙ text_eq_refl (bytes "POST")

module _ {Ip Block : Type 0} (net : Net Ip Block) (codec : Codec) where
  -- What a source of the configuration stands for: with a slash for the addresses of a block, and else for
  -- the address that it writes.
  pub data Covers (source : Text) (client : Ip) : Type 0 where
    network :
        (block : Block)
        → ¬ Lacks b'/' source
        → net.parse_cidr source ≡ some block
        → net.block_contains block client ≡ true
        → Covers source client
    address :
        (ip : Ip)
        → Lacks b'/' source
        → net.parse_ip source ≡ some ip
        → net.same_ip ip client ≡ true
        → Covers source client

  -- No sources are configured, or the client has an address that one of them covers.
  abbrev pub IsFromSource : WebhookConfig → Request → Type 0
  IsFromSource w r =
      (w.allowed_sources ≡ [])
      ⊎ ((client : Ip) × (net.parse_ip (get_client_ip net codec r) ≡ some client)
          × Any (λ s. Covers s client) w.allowed_sources)

  -- No secret is configured, or the signature is the hexadecimal HMAC of the policies under it.
  abbrev pub IsSigned : WebhookConfig → PolicyUpdate → Type 0
  IsSigned w u =
      (w.secret ≡ [])
      ⊎ (codec.decode_hex u.signature ≡ some (codec.hmac w.secret (codec.marshal u.policies)))

  -- A request that may replace the policies by those of an update.
  pub record Authorized (w : WebhookConfig) (r : Request) (u : PolicyUpdate) : Type 0 where
    pub by_post : r.method ≡ bytes "POST"
    pub source : IsFromSource w r
    pub parsed : (text : Text) × (r.body ≡ some text) × (codec.parse_update text ≡ some u)
    pub signed : IsSigned w u

  matches_source-Covers :
      (client : Ip) (source : Text)
      → matches_source net codec client source ≡ true
      → Covers source client
  unfolding matches_source
  matches_source-Covers client source h = elim (Bool-cases (contains_byte b'/' source)) [
    | inl slash ↦ elim (Option-cases (net.parse_cidr source)) [
      | inl bad ↦ absurd (ground (arith, h))
      | inr (block, good) ↦
          network block (λ l. cc ((contains_byte-Lacks b'/' source).1 l, slash)) good
            (ground (arith, h))
    ]
    | inr plain ↦ elim (Option-cases (net.parse_ip source)) [
      | inl bad ↦ absurd (ground (arith, h))
      | inr (ip, good) ↦
          address ip ((contains_byte-Lacks b'/' source).0 plain) good (ground (arith, h))
    ]
  ]

  Covers-matches_source :
      (client : Ip) (source : Text)
      → Covers source client
      → matches_source net codec client source ≡ true
  unfolding matches_source
  Covers-matches_source client source (network block slash good inside) =
      elim (Bool-cases (contains_byte b'/' source)) [
        | inl e ↦ rw (e, good) inside
        | inr e ↦ absurd (slash ((contains_byte-Lacks b'/' source).0 e))
      ]
  Covers-matches_source client source (address ip plain good same) =
      rw ((contains_byte-Lacks b'/' source).1 plain, good) same

  matches_any-Covers :
      (client : Ip) (sources : List Text)
      → matches_any net codec client sources ≡ true
      → Any (λ s. Covers s client) sources
  unfolding matches_any
  matches_any-Covers client [] h = absurd (ground (arith, h))
  matches_any-Covers client (s ∷ ss) h = elim (Bool-cases (matches_source net codec client s)) [
    | inl e ↦ inl (matches_source-Covers client s e)
    | inr e ↦ inr (matches_any-Covers client ss (ground (arith, h, e)))
  ]

  Covers-matches_any :
      (client : Ip) (sources : List Text)
      → Any (λ s. Covers s client) sources
      → matches_any net codec client sources ≡ true
  unfolding matches_any
  Covers-matches_any client [] h = absurd h.1
  Covers-matches_any client (s ∷ ss) (inl h) = rw (Covers-matches_source client s h) refl
  Covers-matches_any client (s ∷ ss) (inr h) =
      let rest = Covers-matches_any client ss h in ground (arith, rest)

  allowed-Covers :
      (ip : Text) (sources : List Text)
      → is_allowed_ip net codec ip sources ≡ true
      → (client : Ip) × (net.parse_ip ip ≡ some client) × Any (λ s. Covers s client) sources
  unfolding is_allowed_ip
  allowed-Covers ip sources h = elim (Option-cases (net.parse_ip ip)) [
    | inl bad ↦ absurd (ground (arith, h))
    | inr (client, good) ↦ (client, good, matches_any-Covers client sources (ground (arith, h)))
  ]

  Covers-allowed :
      (ip : Text) (sources : List Text) (client : Ip)
      → net.parse_ip ip ≡ some client
      → Any (λ s. Covers s client) sources
      → is_allowed_ip net codec ip sources ≡ true
  unfolding is_allowed_ip
  Covers-allowed ip sources client good covered =
      rw (good, is_allowed_ip) (Covers-matches_any client sources covered)

  source_refused_at :
      (w : WebhookConfig) (r : Request) (sources : List Text)
      → w.allowed_sources ≡ sources
      → (source_refused net codec w r ≡ false) ↔ IsFromSource w r
  source_refused_at w r [] e = (λ h. inl e, λ h. rw e refl)
  source_refused_at w r (s ∷ ss) e =
      let ip = get_client_ip net codec r in
      (
        λ h. inr (rw e (allowed-Covers ip (s ∷ ss) (ground (arith, h, e)))),
        λ h. elim h [
          | inl none_there ↦ absurd cc
          | inr (client, good, covered) ↦
              rw (e, Covers-allowed ip (s ∷ ss) client good (rw e at covered)) refl
        ],
      )

  -- The two checks of the handler decide what they are for.
  source_refused_iff :
      (w : WebhookConfig) (r : Request) → (source_refused net codec w r ≡ false) ↔ IsFromSource w r
  source_refused_iff w r = source_refused_at w r w.allowed_sources refl

  signature_refused_iff :
      (w : WebhookConfig) (u : PolicyUpdate)
      → (signature_refused net codec w u ≡ false) ↔ IsSigned w u
  unfolding verify_signature
  signature_refused_iff w u = (
    λ h. elim (Bool-cases (is_empty w.secret)) [
      | inl e ↦ inl (ground (arith, e))
      | inr e ↦ elim (Option-cases (codec.decode_hex u.signature)) [
        | inl bad ↦ absurd (ground (arith, h, e, bad))
        | inr (given, good) ↦ inr (
            rw good (
              ap some (
                eq_of_text_eq given (codec.hmac w.secret (codec.marshal u.policies))
                  (ground (arith, h, e, good)))))
      ]
    ],
    λ h. elim h [
      | inl e ↦ rw e refl
      | inr e ↦ ground (arith, e, text_eq_refl (codec.hmac w.secret (codec.marshal u.policies)))
    ],
  )

  module _ {C Query : Type 0} (engine : Engine Query) (ops : DecisionCache C)
      (digest : Text → Text) where
    -- The agent and the status after `UpdatePolicies`.
    abbrev pub after_update : Agent C Query × Option AgentError → Agent C Query × ℕ
    after_update (updated, none) = (updated, 200)
    after_update (updated, some e) = (updated, 500)

    -- What became of a request.
    abbrev pub Handled : WebhookConfig → Request → Agent C Query → Type 0
    Handled w r a =
        ((u : PolicyUpdate) × Authorized w r u
          × (webhook_handler net codec engine ops digest w r a
              ≡ after_update (update_policies engine ops digest u.policies a)))
        ⊎ ((¬ ((u : PolicyUpdate) × Authorized w r u))
            × ((webhook_handler net codec engine ops digest w r a).0 ≡ a)
            × (400 ≤ (webhook_handler net codec engine ops digest w r a).1)
            × ((webhook_handler net codec engine ops digest w r a).1 < 500))

    update_outcome :
        (p : Agent C Query × Option AgentError)
        → elim p.1 as (λ x. Agent C Query × ℕ) [ none ↦ (p.0, 200) | some e ↦ (p.0, 500) ]
          ≡ after_update p
    update_outcome (b, none) = refl
    update_outcome (b, some e) = refl

    handled_update :
        (w : WebhookConfig) (r : Request) (a : Agent C Query) (u : PolicyUpdate)
        → Authorized w r u
        → webhook_handler net codec engine ops digest w r a
          ≡ after_update (update_policies engine ops digest u.policies a)
    unfolding webhook_handler
    handled_update w r a u auth =
        let (text, body, parsed) = auth.parsed in
        let from = (source_refused_iff w r).1 auth.source in
        let signed = (signature_refused_iff w u).1 auth.signed in
        let post = text_eq_post r.method auth.by_post in
        rw (post, from, body, parsed, signed, webhook_handler)
          (update_outcome (update_policies engine ops digest u.policies a))

    refused :
        (w : WebhookConfig) (r : Request) (a : Agent C Query) (status : ℕ)
        → ¬ ((u : PolicyUpdate) × Authorized w r u)
        → webhook_handler net codec engine ops digest w r a ≡ (a, status)
        → 400 ≤ status
        → status < 500
        → Handled w r a
    refused w r a status never e low high = inr (never, ap (λ x. x.0) e, rw e low, rw e high)

    decoded :
        (w : WebhookConfig) (r : Request) (a : Agent C Query) (text : Text)
        → text_eq r.method (bytes "POST") ≡ true
        → source_refused net codec w r ≡ false
        → r.body ≡ some text
        → Handled w r a
    unfolding webhook_handler
    decoded w r a text post known body = elim (Option-cases (codec.parse_update text)) [
      | inl garbled ↦
          refused w r a 400 (λ p. cc (p.1.parsed.1, body, garbled))
            (rw (post, known, body, garbled, webhook_handler) refl) (omega arith) (omega arith)
      | inr (u, parsed) ↦ elim (Bool-cases (signature_refused net codec w u)) [
        | inl forged ↦
            refused w r a 401
              (λ p.
                cc ((signature_refused_iff w p.0).1 p.1.signed, p.1.parsed.1, body, parsed, forged))
              (rw (post, known, body, parsed, forged, webhook_handler) refl) (omega arith)
              (omega arith)
        | inr signed ↦
            let auth : Authorized w r u = record {
              by_post = eq_of_text_eq r.method (bytes "POST") post;
              source = (source_refused_iff w r).0 known;
              parsed = (text, body, parsed);
              signed = (signature_refused_iff w u).0 signed;
            } in
            inl (u, auth, handled_update w r a u auth)
      ]
    ]

    -- The webhook does exactly what is authorized: either the request is a POST from an allowed source whose
    -- body decodes to an update that is signed where a secret is configured, and then the agent is what
    -- `UpdatePolicies` makes of it, and the status 200, or 500 where that fails; or it is not, for any
    -- update, and then the agent stays as it is and the status is between 400 and 499.
    -- A source is allowed if none is configured or one that is covers the address of the client, and the
    -- signature is the HMAC of the policies under the secret.
    pub webhook_handler-Authorized :
        (w : WebhookConfig) (r : Request) (a : Agent C Query) → Handled w r a
    unfolding webhook_handler
    webhook_handler-Authorized w r a = elim (Bool-cases (text_eq r.method (bytes "POST"))) [
      | inr other ↦
          refused w r a 405 (λ p. cc (text_eq_post r.method p.1.by_post, other))
            (rw (other, webhook_handler) refl) (omega arith) (omega arith)
      | inl post ↦ elim (Bool-cases (source_refused net codec w r)) [
        | inl foreign ↦
            refused w r a 403 (λ p. cc ((source_refused_iff w r).1 p.1.source, foreign))
              (rw (post, foreign, webhook_handler) refl) (omega arith) (omega arith)
        | inr known ↦ elim (Option-cases r.body) [
          | inl unread ↦
              refused w r a 400 (λ p. cc (p.1.parsed.1, unread))
                (rw (post, known, unread, webhook_handler) refl) (omega arith) (omega arith)
          | inr (text, body) ↦ decoded w r a text post known body
        ]
      ]
    ]
