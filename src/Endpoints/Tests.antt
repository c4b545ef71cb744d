-- ===== src/Endpoints/Tests.antt =====
-- Concrete runs of the webhook endpoints.
use atara_pay.Base.{◌≡◌, ◌≢◌, refl, ap, text_eq, true, false, none, some, [], ◌∷◌, codes}
use atara_pay.Http.{Caller}
use atara_pay.Webhooks.Store.{WebhookEndpoint, active, Database, get_endpoint}
use atara_pay.Endpoints.{Library, UpdateEndpointRequest, is_local_host}
use atara_pay.Endpoints.Handlers.{Chances}
use atara_pay.Endpoints.Isolation.{update, serve_endpoint}
use atara_pay.Endpoints.Protection.{foreign, serve_endpoint_protects}

abbrev library : Library
library = record {
  parse_url = λ s. some (record { scheme = codes "https"; host = s });
  to_lower = λ s. s;
  json_strings = λ s. none;
  json_of_strings = λ names. codes "[]";
  base64 = λ s. s;
}

abbrev hook : WebhookEndpoint
hook = record {
  id = codes "we_1";
  tenant_id = codes "t_1";
  url = codes "https://a";
  secret = codes "s";
  secret_version = 1;
  subscribed_events = codes "[]";
  status = active;
  description = none;
  consecutive_failures = 0;
  last_success_at = none;
  last_failure_at = none;
}

abbrev table : Database
table = record { events = []; endpoints = hook ∷ [] }

abbrev stranger : Caller
stranger = record { tenant_id = codes "t_2"; user_id = []; role = codes "owner"; api_key_id = [] }

abbrev chances : Chances
chances = record {
  new_id = codes "we_2";
  random = some (codes "r");
  read_fails = false;
  write_fails = false;
}

abbrev pause : UpdateEndpointRequest
pause = record {
  url = none;
  subscribed_events = none;
  description = none;
  status = some (codes "paused");
}

not_hers : codes "t_1" ≢ codes "t_2"
not_hers h = let clash : true ≡ false = ap (text_eq (codes "t_1")) h in absurd (cc)

serve_endpoint_protects_example :
    get_endpoint
      (codes "we_1")
      (serve_endpoint library stranger chances (update (codes "we_1") (some pause)) table).endpoints
    ≡ some hook
unfolding get_endpoint
serve_endpoint_protects_example =
    serve_endpoint_protects library stranger chances (update (codes "we_1") (some pause)) table
      (codes "we_1") hook refl (foreign not_hers)

-- The colon ends the name before the test for the IPv6 address can see it.
ipv6_is_not_local : is_local_host library (codes "::1") ≡ false
unfolding is_local_host
ipv6_is_not_local = refl
