-- ===== src/Authz/WebhookTests.antt =====
-- Requests to the webhook with a source, a secret and a signature, and the theorem on one of them. A block
-- has one address here, and the signature is the secret and the policies.
use abraxis.Base.{
  ◌≡◌, ◌∷◌, ◌++◌, refl, Text, bytes, some, none, [], lookup, insert, text_eq, split_on,
  trim_space_left, trim_space_right,
}
use abraxis.Authz.Agent.{update_policies, prepare_local_policies}
use abraxis.Authz.InMemory.{memory_decision_cache}
use abraxis.Authz.AgentTests.{plain, path, toy, agent}
use abraxis.Authz.Webhook.{
  WebhookConfig, Request, Net, Codec, contains_byte, get_client_ip, matches_source, matches_any,
  is_allowed_ip, verify_signature, webhook_handler,
}
use abraxis.Authz.Authorization.{Handled, webhook_handler-Authorized}

program : Unit {0}
unfolding lookup insert text_eq split_on trim_space_left trim_space_right update_policies
    prepare_local_policies contains_byte get_client_ip matches_source matches_any is_allowed_ip
    verify_signature webhook_handler
program = tt

abbrev toy_net : Net Text Text
toy_net = record {
  split_host_port = λ s. none;
  parse_ip = λ s. some s;
  parse_cidr = λ s. some s;
  block_contains = λ b ip. text_eq b (ip ++ bytes "/32");
  same_ip = text_eq;
}

abbrev toy_codec : Codec
toy_codec = record {
  parse_update = λ s. some (record { policies = (path, s) ∷ []; signature = bytes "k:allow" });
  marshal = λ ps. elim ps [ [] ↦ [] | p ∷ rest ↦ p.1 ];
  decode_hex = λ s. some s;
  hmac = λ secret payload. secret ++ b':' ∷ payload;
}

abbrev hook : WebhookConfig
hook = record { secret = bytes "k"; allowed_sources = bytes "192.0.2.9" ∷ bytes "10.0.0.1/32" ∷ [] }

abbrev request : Request
request = record {
  method = bytes "POST";
  forwarded_for = bytes "10.0.0.1, 192.0.2.7";
  remote_addr = bytes "203.0.113.9";
  body = some (bytes "allow");
}

webhook_handler-Authorized_example :
    Handled toy_net toy_codec toy memory_decision_cache plain hook request agent
webhook_handler-Authorized_example =
    webhook_handler-Authorized toy_net toy_codec toy memory_decision_cache plain hook request agent

-- The request is signed and comes from a source; another client, body or method is refused.
statuses :
    ((webhook_handler toy_net toy_codec toy memory_decision_cache plain hook request agent).1 ≡ 200)
    × ((webhook_handler toy_net toy_codec toy memory_decision_cache plain hook
          (record request { forwarded_for = bytes "192.0.2.7" })
          agent).1
        ≡ 403)
    × ((webhook_handler toy_net toy_codec toy memory_decision_cache plain hook
          (record request { body = some (bytes "deny") })
          agent).1
        ≡ 401)
    × ((webhook_handler toy_net toy_codec toy memory_decision_cache plain hook
          (record request { method = bytes "GET" })
          agent).1
        ≡ 405)
unfolding program
statuses = (refl, refl, refl, refl)
