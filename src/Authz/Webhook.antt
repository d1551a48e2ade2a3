-- ===== src/Authz/Webhook.antt =====
-- The webhook that replaces the policies: authz/webhook.go. Parameters: `encoding/json` on the body
-- and on the policies, the addresses of package net, hexadecimal and HMAC-SHA256.
use abraxis.Base.{
  ℕ, Text, bytes, Bool, true, false, not, ◌&&◌, ◌||◌, Option, none, some, List, [], ◌∷◌, ◌==◌,
  is_empty, text_eq, split_on, trim_space_left, trim_space_right, first_part, if◌then◌else◌,
}
use abraxis.Authz.Agent.{Agent, DecisionCache, Engine, update_policies}

-- `WebhookConfig`, without the path of the endpoint.
pub record WebhookConfig : Type 0 where
  pub secret : Text
  pub allowed_sources : List Text

pub record PolicyUpdate : Type 0 where
  pub policies : List (Text × Text)
  pub signature : Text

-- What the handler reads of a request; a body of `none` cannot be read.
pub record Request : Type 0 where
  pub method : Text
  pub forwarded_for : Text
  pub remote_addr : Text
  pub body : Option Text

pub record Net (Ip Block : Type 0) : Type 0 where
  pub split_host_port : Text → Option Text
  pub parse_ip : Text → Option Ip
  pub parse_cidr : Text → Option Block
  pub block_contains : Block → Ip → Bool
  pub same_ip : Ip → Ip → Bool

pub record Codec : Type 0 where
  pub parse_update : Text → Option PolicyUpdate
  pub marshal : List (Text × Text) → Text
  pub decode_hex : Text → Option Text
  pub hmac : Text → Text → Text

unfoldable pub contains_byte : ℕ → Text → Bool
contains_byte c [] = false
contains_byte c (b ∷ s) = let rest = contains_byte c s in b == c || rest

module _ {Ip Block : Type 0} (net : Net Ip Block) (codec : Codec) where
  -- `getClientIP`; it has no error.
  unfoldable pub get_client_ip : Request → Text
  get_client_ip r =
      if not (is_empty r.forwarded_for)
      then trim_space_right (trim_space_left (first_part (split_on b',' r.forwarded_for)))
      else (elim (net.split_host_port r.remote_addr) [ none ↦ r.remote_addr | some ip ↦ ip ])

  -- One round of the loop of `isAllowedIP`.
  unfoldable pub matches_source : Ip → Text → Bool
  matches_source client source =
      if contains_byte b'/' source
      then (elim (net.parse_cidr source) [
        | none ↦ false
        | some block ↦ net.block_contains block client
      ])
      else (elim (net.parse_ip source) [ none ↦ false | some ip ↦ net.same_ip ip client ])

  unfoldable pub matches_any : Ip → List Text → Bool
  matches_any client [] = false
  matches_any client (s ∷ ss) =
      let rest = matches_any client ss in if matches_source client s then true else rest

  -- `isAllowedIP`
  unfoldable pub is_allowed_ip : Text → List Text → Bool
  is_allowed_ip ip sources = elim (net.parse_ip ip) [
    | none ↦ false
    | some client ↦ matches_any client sources
  ]

  -- `verifySignature`
  unfoldable pub verify_signature : Text → Text → Text → Bool
  verify_signature payload signature secret = elim (codec.decode_hex signature) [
    | none ↦ false
    | some given ↦ text_eq given (codec.hmac secret payload)
  ]

  abbrev pub source_refused : WebhookConfig → Request → Bool
  source_refused w r = elim w.allowed_sources [
    | [] ↦ false
    | s ∷ ss ↦ not (is_allowed_ip (get_client_ip r) (s ∷ ss))
  ]

  abbrev pub signature_refused : WebhookConfig → PolicyUpdate → Bool
  signature_refused w u =
      not (is_empty w.secret)
      && not (verify_signature (codec.marshal u.policies) u.signature w.secret)

  module _ {C Query : Type 0} (engine : Engine Query) (ops : DecisionCache C)
      (digest : Text → Text) where
    -- `webhookHandler`: the agent and the status that is sent.
    unfoldable pub webhook_handler : WebhookConfig → Request → Agent C Query → Agent C Query × ℕ
    webhook_handler w r a =
        if not (text_eq r.method (bytes "POST"))
        then (a, 405)
        else (if source_refused w r then (a, 403) else (elim r.body [
          | none ↦ (a, 400)
          | some text ↦ elim (codec.parse_update text) [
            | none ↦ (a, 400)
            | some u ↦
                if signature_refused w u
                then (a, 401)
                else (let (updated, failure) = update_policies engine ops digest u.policies a in
                    elim failure [ none ↦ (updated, 200) | some e ↦ (updated, 500) ])
          ]
        ]))
