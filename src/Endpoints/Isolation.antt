-- ===== src/Endpoints/Isolation.antt =====
-- Whose endpoints a request can change (internal/server/handlers/webhooks.go).
use atara_pay.Base.{
  ◌+◌, ◌≡◌, refl, ap, inl, inr, Bool, true, false, not, Option, none, some, ◌∷◌, Text, text_eq→eq,
  Result, Bool-cases, Option-cases, if◌then◌else◌, arith,
}
use atara_pay.Base.Int.{ℤ}
use atara_pay.Http.{Caller, Failure, Handler, role_allows}
use atara_pay.Http.Post.{
  Post, ok-Post, err-Post, guard-Post, need-Post, attempt-Post, bind-Post, state-Post, Post-state,
  Post-weaken,
}
use atara_pay.Webhooks.Store.{
  WebhookEndpoint, deleted, Database, update_endpoint, get_endpoint, rotate_secret,
}
use atara_pay.Endpoints.{Library, CreateEndpointRequest, UpdateEndpointRequest}
use atara_pay.Endpoints.Handlers.{
  Chances, is_deleted, create_webhook_endpoint, set_endpoint, UpdateParams, update_webhook_endpoint,
  delete_webhook_endpoint, rotate_webhook_endpoint_secret, own_row, live_row, write,
  create_endpoint, list_endpoints, get_endpoint_view, update_endpoint_handler,
  rotate_endpoint_secret, delete_endpoint,
}

-- A request to one of the six endpoints.
pub data EndpointOperation : Type 0 where
  create : CreateEndpointRequest → EndpointOperation
  list : ℤ → ℤ → EndpointOperation
  get : Text → EndpointOperation
  update : Text → Option UpdateEndpointRequest → EndpointOperation
  rotate : Text → EndpointOperation
  delete : Text → EndpointOperation

-- What a request has done to the table: nothing, a new row, or a change of one live row of the
-- caller's tenant by a caller whose role allows it.
pub data IsChange (caller : Caller) (db db' : Database) : Type 0 where
  same : db' ≡ db → IsChange caller db db'
  added :
      (row : WebhookEndpoint)
      → role_allows caller ≡ true
      → row.tenant_id ≡ caller.tenant_id
      → get_endpoint row.id db.endpoints ≡ none
      → db' ≡ record db { endpoints = row ∷ db.endpoints }
      → IsChange caller db db'
  changed :
      (id : Text) (row : WebhookEndpoint) (f : WebhookEndpoint → WebhookEndpoint)
      → role_allows caller ≡ true
      → get_endpoint id db.endpoints ≡ some row
      → row.tenant_id ≡ caller.tenant_id
      → is_deleted row.status ≡ false
      → ((e : WebhookEndpoint) → (f e).id ≡ e.id)
      → db' ≡ record db { endpoints = update_endpoint id f db.endpoints }
      → IsChange caller db db'

module _ (lib : Library) (caller : Caller) (now : Chances) where
  -- The table that a request leaves.
  unfoldable pub serve_endpoint : EndpointOperation → Database → Database
  serve_endpoint (create req) db = (create_endpoint lib caller now req db).1
  serve_endpoint (list limit offset) db = (list_endpoints lib caller now limit offset db).1
  serve_endpoint (get id) db = (get_endpoint_view lib caller now id db).1
  serve_endpoint (update id body) db = (update_endpoint_handler lib caller now id body db).1
  serve_endpoint (rotate id) db = (rotate_endpoint_secret lib caller now id db).1
  serve_endpoint (delete id) db = (delete_endpoint lib caller now id db).1

  read :
      (id : Text) (db : Database) (row : WebhookEndpoint)
      → (if now.read_fails then none else get_endpoint id db.endpoints) ≡ some row
      → get_endpoint id db.endpoints ≡ some row
  read id db row h = ground arith

  not_deleted : (b : Bool) → not b ≡ true → b ≡ false
  not_deleted b h = ground arith

  own_row-Post :
      (id : Text) (db : Database)
      → Post
          (λ row db'.
            (get_endpoint id db.endpoints ≡ some row)
            × (row.tenant_id ≡ caller.tenant_id)
            × (db' ≡ db))
          (λ db'. db' ≡ db)
          (own_row lib caller now id db)
  own_row-Post id db = state-Post _ (
      need-Post _ _ refl λ row found.
        guard-Post _ _ refl λ own. ok-Post (read id db row found, text_eq→eq _ _ own, refl))

  write-Post :
      (statement : Handler Database (Unit {0})) (db db' : Database)
      → IsChange caller db db'
      → Post (λ unit. IsChange caller db) (IsChange caller db) (statement db')
      → Post (λ unit. IsChange caller db) (IsChange caller db) (write now statement db')
  unfolding write
  write-Post statement db db' idle h = elim (Bool-cases now.write_fails) [
    | inl e ↦ simp e (err-Post idle)
    | inr e ↦ simp e h
  ]

  -- The row that a statement is for has been found, live and the caller's own.
  IsFound : Text → WebhookEndpoint → Database → Database → Type 0
  IsFound id row db db' =
      (get_endpoint id db.endpoints ≡ some row)
      × (row.tenant_id ≡ caller.tenant_id)
      × (is_deleted row.status ≡ false)
      × (db' ≡ db)

  live_row-Post :
      (id : Text) (db : Database)
      → Post (λ row db'. IsFound id row db db') (λ db'. db' ≡ db) (live_row lib caller now id db)
  unfolding IsFound
  live_row-Post id db =
      bind-Post _ (own_row-Post id db)
        λ row db' h. guard-Post _ _ h.2 λ live. ok-Post (h.0, h.1, not_deleted _ live, h.2)

  found-IsChange :
      (id : Text) (row : WebhookEndpoint) (f : WebhookEndpoint → WebhookEndpoint)
      (db db' : Database)
      → role_allows caller ≡ true
      → IsFound id row db db'
      → ((e : WebhookEndpoint) → (f e).id ≡ e.id)
      → IsChange caller db (record db' { endpoints = update_endpoint id f db'.endpoints })
  unfolding IsFound
  found-IsChange id row f db db' role h keeps =
      changed id row f role h.0 h.1 h.2 keeps
        (ap (λ (d : Database). record d { endpoints = update_endpoint id f d.endpoints }) h.3)

  module _ (id : Text) (row : WebhookEndpoint) (db db' : Database)
      (role : role_allows caller ≡ true) (found : IsFound id row db db') where
    update-Post :
        (p : UpdateParams)
        → Post (λ unit. IsChange caller db) (IsChange caller db) (update_webhook_endpoint id p db')
    unfolding update_webhook_endpoint set_endpoint
    update-Post p = ok-Post (found-IsChange id row (set_endpoint p) db db' role found (λ e. refl))

    delete-Post :
        Post (λ unit. IsChange caller db) (IsChange caller db) (delete_webhook_endpoint id db')
    unfolding delete_webhook_endpoint
    delete-Post =
        ok-Post
          (found-IsChange id row (λ e. record e { status = deleted }) db db' role found (λ e. refl))

    rotate-Post :
        (secret : Text)
        → Post
            (λ unit. IsChange caller db)
            (IsChange caller db)
            (rotate_webhook_endpoint_secret id secret db')
    unfolding rotate_webhook_endpoint_secret rotate_secret
    rotate-Post secret = ok-Post (
        found-IsChange id row
          (λ e. record e { secret = secret; secret_version = e.secret_version + 1 }) db db' role
          found (λ e. refl))

  create-Post :
      (row : WebhookEndpoint) (db : Database)
      → role_allows caller ≡ true
      → row.tenant_id ≡ caller.tenant_id
      → Post (λ unit. IsChange caller db) (IsChange caller db) (create_webhook_endpoint row db)
  unfolding create_webhook_endpoint
  create-Post row db role own = elim (Option-cases (get_endpoint row.id db.endpoints)) [
    | inr (old, e) ↦ rw (e, create_webhook_endpoint) (err-Post (same refl))
    | inl e ↦ rw (e, create_webhook_endpoint) (ok-Post (added row role own e refl))
  ]

  Safe : {A : Type 0} → Database → Result Failure A × Database → Type 0
  Safe db = Post (λ a. IsChange caller db) (IsChange caller db)

  delete-Safe : (id : Text) (db : Database) → Safe db (delete_endpoint lib caller now id db)
  unfolding delete_endpoint Safe IsFound
  delete-Safe id db = guard-Post _ _ (same refl) λ known. guard-Post _ _ (same refl) λ role.
      bind-Post _ (Post-weaken (own_row-Post id db) (λ row db' h. h) (λ db' e. same e)) λ row db' h.
        elim (Bool-cases (is_deleted row.status)) [
          | inl gone ↦ simp gone (ok-Post (same h.2))
          | inr live ↦ simp live (
              bind-Post _
                (write-Post _ db db' (same h.2)
                  (delete-Post id row db db' role (h.0, h.1, live, h.2)))
                λ unit db'' k. ok-Post k)
        ]

  rotate-Safe : (id : Text) (db : Database) → Safe db (rotate_endpoint_secret lib caller now id db)
  unfolding rotate_endpoint_secret Safe IsFound
  rotate-Safe id db = guard-Post _ _ (same refl) λ known. guard-Post _ _ (same refl) λ role.
      bind-Post _ (Post-weaken (live_row-Post id db) (λ row db' h. h) (λ db' e. same e))
        λ row db' h. need-Post _ _ (same h.3) λ secret drawn.
          bind-Post _ (write-Post _ db db' (same h.3) (rotate-Post id row db db' role h secret))
            λ unit db'' k. ok-Post k

  update-Safe :
      (id : Text) (body : Option UpdateEndpointRequest) (db : Database)
      → Safe db (update_endpoint_handler lib caller now id body db)
  unfolding update_endpoint_handler Safe IsFound
  update-Safe id body db = guard-Post _ _ (same refl) λ known. guard-Post _ _ (same refl) λ role.
      bind-Post _ (Post-weaken (live_row-Post id db) (λ row db' h. h) (λ db' e. same e))
        λ row db' h. need-Post _ _ (same h.3) λ req parsed. attempt-Post _ _ (same h.3) λ url fine.
          attempt-Post _ _ (same h.3) λ events named. attempt-Post _ _ (same h.3) λ status wanted.
            bind-Post _ (write-Post _ db db' (same h.3) (update-Post id row db db' role h _))
              λ unit db'' k. ok-Post k

  create-Safe :
      (req : CreateEndpointRequest) (db : Database)
      → Safe db (create_endpoint lib caller now req db)
  unfolding create_endpoint Safe
  create-Safe req db = guard-Post _ _ (same refl) λ known. guard-Post _ _ (same refl) λ role.
      attempt-Post _ _ (same refl) λ unit fine. need-Post _ _ (same refl) λ secret drawn.
        attempt-Post _ _ (same refl) λ events named.
          bind-Post _ (write-Post _ db db (same refl) (create-Post _ db role refl))
            λ unit db' k. ok-Post k

  list-Safe :
      (limit offset : ℤ) (db : Database) → Safe db (list_endpoints lib caller now limit offset db)
  unfolding list_endpoints Safe
  list-Safe limit offset db =
      guard-Post _ _ (same refl)
        λ known. state-Post _ (guard-Post _ _ (same refl) λ up. ok-Post (same refl))

  get-Safe : (id : Text) (db : Database) → Safe db (get_endpoint_view lib caller now id db)
  unfolding get_endpoint_view Safe IsFound
  get-Safe id db = guard-Post _ _ (same refl) λ known.
      bind-Post _ (Post-weaken (live_row-Post id db) (λ row db' h. h) (λ db' e. same e))
        λ row db' h. ok-Post (same h.3)

  pub serve_endpoint-IsChange :
      (op : EndpointOperation) (db : Database) → IsChange caller db (serve_endpoint op db)
  unfolding serve_endpoint Safe
  serve_endpoint-IsChange (create req) db = Post-state (create-Safe req db)
  serve_endpoint-IsChange (list limit offset) db = Post-state (list-Safe limit offset db)
  serve_endpoint-IsChange (get id) db = Post-state (get-Safe id db)
  serve_endpoint-IsChange (update id body) db = Post-state (update-Safe id body db)
  serve_endpoint-IsChange (rotate id) db = Post-state (rotate-Safe id db)
  serve_endpoint-IsChange (delete id) db = Post-state (delete-Safe id db)
