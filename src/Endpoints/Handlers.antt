-- ===== src/Endpoints/Handlers.antt =====
-- The handlers of webhook endpoints (internal/server/handlers/webhooks.go) on the table of
-- endpoints (internal/db/sqlcgen/webhook_endpoints.sql.go).
use atara_pay.Base.{
  suc, Bool, true, false, ◌&&◌, not, Option, none, some, List, [], ◌∷◌, map, Text, codes, text_eq,
  Result, ok, err, if◌then◌else◌,
}
use atara_pay.Base.Int.{ℤ}
use atara_pay.Http.{
  Caller, Reply, Handler, ◌>>=◌, ◌>>◌, reply, guard, need, attempt, get_state, with_tenant,
  with_role, bad_request, not_found, internal_error, page,
}
use atara_pay.Webhooks.Store.{
  WebhookEndpoint, EndpointStatus, active, deleted, Database, update_endpoint, get_endpoint,
  rotate_secret,
}
use atara_pay.Webhooks.Worker.{pgx_text}
use atara_pay.Endpoints.{
  Library, CreateEndpointRequest, UpdateEndpointRequest, EndpointView, EndpointWithSecret,
  wanted_status, validate_endpoint_url, marshal_events_list, to_endpoint_view,
}

-- What one request meets: the id that is drawn, the bytes of `rand.Read`, and the statements
-- that the database fails.
pub record Chances : Type 0 where
  pub new_id : Text
  pub random : Option Text
  pub read_fails : Bool
  pub write_fails : Bool

abbrev pub is_deleted : EndpointStatus → Bool
is_deleted deleted = true
is_deleted s = false

abbrev pub read_row : Chances → Text → Database → Option WebhookEndpoint
read_row now id db = if now.read_fails then none else get_endpoint id db.endpoints

-- The statements that change the table: an error has no effect.
unfoldable pub write : Chances → Handler Database (Unit {0}) → Handler Database (Unit {0})
write now statement db = if now.write_fails then (err internal_error, db) else statement db

-- `CreateWebhookEndpoint`: the primary key is new; the rows are newest first.
unfoldable pub create_webhook_endpoint : WebhookEndpoint → Handler Database (Unit {0})
create_webhook_endpoint row db = elim (get_endpoint row.id db.endpoints) [
  | some old ↦ (err internal_error, db)
  | none ↦ (ok tt, record db { endpoints = row ∷ db.endpoints })
]

abbrev pub coalesce {ℓ} : {A : Type ℓ} → Option A → A → A
coalesce (some a) b = a
coalesce none b = b

abbrev pub coalesce_text : Option Text → Option Text → Option Text
coalesce_text (some a) b = some a
coalesce_text none b = b

-- The parameters of `UpdateWebhookEndpoint`; `none` is NULL.
pub record UpdateParams : Type 0 where
  pub url : Option Text
  pub subscribed_events : Option Text
  pub description : Option Text
  pub status : Option EndpointStatus

-- The SET of `UpdateWebhookEndpoint`
unfoldable pub set_endpoint : UpdateParams → WebhookEndpoint → WebhookEndpoint
set_endpoint p row = record row {
  url = coalesce p.url row.url;
  subscribed_events = coalesce p.subscribed_events row.subscribed_events;
  description = coalesce_text p.description row.description;
  status = coalesce p.status row.status;
}

-- `UpdateWebhookEndpoint`
unfoldable pub update_webhook_endpoint : Text → UpdateParams → Handler Database (Unit {0})
update_webhook_endpoint id p db =
    (ok tt, record db { endpoints = update_endpoint id (set_endpoint p) db.endpoints })

-- `DeleteWebhookEndpoint`
unfoldable pub delete_webhook_endpoint : Text → Handler Database (Unit {0})
delete_webhook_endpoint id db = (
  ok tt,
  record db {
    endpoints = update_endpoint id (λ row. record row { status = deleted }) db.endpoints;
  },
)

-- `RotateWebhookEndpointSecret`
unfoldable pub rotate_webhook_endpoint_secret : Text → Text → Handler Database (Unit {0})
rotate_webhook_endpoint_secret id secret db = (ok tt, rotate_secret id secret db)

-- `ListWebhookEndpointsForTenant`, before LIMIT and OFFSET.
unfoldable pub endpoints_for_tenant : Text → List WebhookEndpoint → List WebhookEndpoint
endpoints_for_tenant tenant [] = []
endpoints_for_tenant tenant (e ∷ rows) =
    let rest = endpoints_for_tenant tenant rows in
    if text_eq e.tenant_id tenant && not (is_deleted e.status) then e ∷ rest else rest

-- The parameter for a field that a request may leave out.
abbrev pub opt_text : Option Text → Option Text
opt_text none = none
opt_text (some s) = pgx_text s

module _ (lib : Library) where
  -- `Create`, after the body is parsed.
  unfoldable pub create_endpoint :
      Caller → Chances → CreateEndpointRequest → Handler Database (Reply EndpointWithSecret)
  create_endpoint caller now req = do
    with_tenant caller
    with_role caller (codes "your role cannot manage webhook endpoints")
    attempt (validate_endpoint_url lib req.url) bad_request
    secret ← need now.random internal_error
    events ← attempt (marshal_events_list lib req.subscribed_events) bad_request
    let row : WebhookEndpoint = record {
      id = now.new_id;
      tenant_id = caller.tenant_id;
      url = req.url;
      secret = secret;
      secret_version = 1;
      subscribed_events = events;
      status = active;
      description = pgx_text req.description;
      consecutive_failures = 0;
      last_success_at = none;
      last_failure_at = none;
    }
    write now (create_webhook_endpoint row)
    reply 201 (record { endpoint = to_endpoint_view lib row; secret = lib.base64 secret })

  -- `List`, for the numbers of the query.
  unfoldable pub list_endpoints :
      Caller → Chances → ℤ → ℤ → Handler Database (Reply (List EndpointView))
  list_endpoints caller now limit offset = do
    with_tenant caller
    db ← get_state
    guard (not now.read_fails) internal_error
    reply 200 (
        map (to_endpoint_view lib)
          (page limit offset (endpoints_for_tenant caller.tenant_id db.endpoints)))

  -- The row of the caller's tenant, deleted or not.
  abbrev pub own_row : Caller → Chances → Text → Handler Database WebhookEndpoint
  own_row caller now id = do
    db ← get_state
    row ← need (read_row now id db) (not_found (codes "webhook endpoint not found"))
    guard (text_eq row.tenant_id caller.tenant_id) (not_found (codes "webhook endpoint not found"))
    (λ db. (ok row, db))

  -- The row of the caller's tenant that is not deleted.
  abbrev pub live_row : Caller → Chances → Text → Handler Database WebhookEndpoint
  live_row caller now id = do
    row ← own_row caller now id
    guard (not (is_deleted row.status)) (not_found (codes "webhook endpoint not found"))
    (λ db. (ok row, db))

  -- `Get`
  unfoldable pub get_endpoint_view : Caller → Chances → Text → Handler Database (Reply EndpointView)
  get_endpoint_view caller now id = do
    with_tenant caller
    row ← live_row caller now id
    reply 200 (to_endpoint_view lib row)

  abbrev pub checked_url : Option Text → Result Text (Option Text)
  checked_url none = ok none
  checked_url (some url) = elim (validate_endpoint_url lib url) [
    | err e ↦ err e
    | ok unit ↦ ok (pgx_text url)
  ]

  abbrev pub checked_events : Option (List Text) → Result Text (Option Text)
  checked_events none = ok none
  checked_events (some names) = elim (marshal_events_list lib (some names)) [
    | err e ↦ err e
    | ok text ↦ ok (some text)
  ]

  -- `Update`, whose body is parsed after the row is found.
  unfoldable pub update_endpoint_handler :
      Caller → Chances → Text → Option UpdateEndpointRequest → Handler Database (Reply EndpointView)
  update_endpoint_handler caller now id body = do
    with_tenant caller
    with_role caller (codes "your role cannot modify webhook endpoints")
    row ← live_row caller now id
    req ← need body (bad_request (codes "invalid JSON body"))
    url ← attempt (checked_url req.url) bad_request
    events ← attempt (checked_events req.subscribed_events) bad_request
    status ← attempt (wanted_status req.status) bad_request
    let params : UpdateParams = record {
      url = url;
      subscribed_events = events;
      description = opt_text req.description;
      status = status;
    }
    write now (update_webhook_endpoint id params)
    reply 200 (to_endpoint_view lib (set_endpoint params row))

  -- `RotateSecret`
  unfoldable pub rotate_endpoint_secret :
      Caller → Chances → Text → Handler Database (Reply EndpointWithSecret)
  rotate_endpoint_secret caller now id = do
    with_tenant caller
    with_role caller (codes "your role cannot rotate webhook secrets")
    row ← live_row caller now id
    secret ← need now.random internal_error
    write now (rotate_webhook_endpoint_secret id secret)
    reply 200 (record {
      endpoint =
          to_endpoint_view lib
            (record row { secret = secret; secret_version = suc row.secret_version });
      secret = lib.base64 secret;
    })

  abbrev pub delete_live : Chances → Text → WebhookEndpoint → Handler Database (Reply EndpointView)
  delete_live now id row = do
    write now (delete_webhook_endpoint id)
    reply 200 (to_endpoint_view lib (record row { status = deleted }))

  -- `Delete`: a deleted row is answered as it is.
  unfoldable pub delete_endpoint : Caller → Chances → Text → Handler Database (Reply EndpointView)
  delete_endpoint caller now id = do
    with_tenant caller
    with_role caller (codes "your role cannot delete webhook endpoints")
    row ← own_row caller now id
    if is_deleted row.status then reply 200 (to_endpoint_view lib row) else delete_live now id row
