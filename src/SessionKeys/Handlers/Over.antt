-- ===== src/SessionKeys/Handlers/Over.antt =====
-- A session key that is revoked or expired stays so, whatever the handlers and the sweep do
-- (internal/server/handlers/session_keys.go, internal/sessionkey).
use mathlib.Core.Option
use mathlib.Core.Option.{some-injective}
use atara_pay.Base.{
  bind-ok, ◌≡◌, refl, sym, ap, ◌/◌, ◌-◌, codes, ◌∙◌, Bool, true, false, Option, some, List, [], ◌∷◌,
  ◌++◌, Text, text_eq, text_eq→eq, Result, ok, ◌>>◌, Bool-cases, inl, inr, arith,
}
use atara_pay.Limits.Calendar.{Time}
use atara_pay.SessionKeys.Rows.{
  KeyStatus, pending_authorize, active, rotating, expired, revoked, SessionKey, KeyStore, get_key,
  update_key, update_status, revoke_key,
}
use atara_pay.SessionKeys.Input.{
  MintError, MintInput, Minted, Ports, validate_mint, require, KeyRestrictions, no_adapter,
  no_wallet, wrong_rail, wrong_custody, generate_failed, encrypt_failed, chain_failed, expiry_of,
  second, unix_epoch, daily_limits,
}
use atara_pay.SessionKeys.Mint.{mint, or_fail, key_row, policy_row, persist}
use atara_pay.SessionKeys.Mint.Schedule.{persist-appends, mint-IsIssued, ok-injective}
use atara_pay.SessionKeys.Custody.{
  Prepared, prepare_user_custody, Chain, SubmitError, is_pending, activate,
}
use atara_pay.SessionKeys.Custody.Activation.{IsSubmitted, refused, activated}
use atara_pay.SessionKeys.Rotator.{Feed, sweep, tick}
use atara_pay.SessionKeys.Rotator.Sweep.{get_key-update_key, get_key-update_key_ne}

-- No signature of the key counts any more.
abbrev pub is_over : KeyStatus → Bool
is_over expired = true
is_over revoked = true
is_over s = false

abbrev pub IsOver : Text → List SessionKey → Type 0
IsOver id rows = (k : SessionKey) × (get_key id rows ≡ some k) × (is_over k.status ≡ true)

get_key-append :
    (id : Text) (rows : List SessionKey) (x k : SessionKey)
    → get_key id rows ≡ some k
    → get_key id (rows ++ x ∷ []) ≡ some k
unfolding get_key
get_key-append id [] x k h = cc
get_key-append id (r ∷ rows) x k h = ground (arith, get_key-append id rows x k)

pub get_key-id :
    (id : Text) (rows : List SessionKey) (k : SessionKey) → get_key id rows ≡ some k → k.id ≡ id
unfolding get_key
get_key-id id [] k h = cc
get_key-id id (r ∷ rows) k h = elim (Bool-cases (text_eq r.id id)) [
  | inl e ↦ ap (λ j. j.id) (sym (some-injective _ _ (rw e at h))) ∙ text_eq→eq r.id id e
  | inr e ↦ get_key-id id rows k (rw e at h)
]

-- An update that keeps the end of a key.
pub update_key-IsOver :
    (id key : Text) (f : SessionKey → SessionKey) (rows : List SessionKey)
    → ((k : SessionKey) → (f k).id ≡ k.id)
    → ((k : SessionKey) → is_over k.status ≡ true → is_over (f k).status ≡ true)
    → IsOver id rows
    → IsOver id (update_key key f rows)
update_key-IsOver id key f rows keeps ends (k, found, over) = elim (Bool-cases (text_eq key id)) [
  | inl this ↦ (
    f k,
    ap (λ t. get_key id (update_key t f rows)) (text_eq→eq key id this)
        ∙ get_key-update_key id f rows keeps
        ∙ ap (Option.map f) found,
    ends k over,
  )
  | inr other ↦ (k, get_key-update_key_ne id key f rows keeps other ∙ found, over)
]

sweep-IsOver :
    (feed : Feed) (id : Text) (list : List SessionKey) (store : KeyStore)
    → IsOver id store.keys
    → IsOver id (sweep feed list store).1.keys
unfolding sweep update_status
sweep-IsOver feed id [] store over = over
sweep-IsOver feed id (k ∷ list) store over = elim (Bool-cases (feed.update_fails k.id)) [
  | inl e ↦ rw e (sweep-IsOver feed id list store over)
  | inr e ↦ rw e (
      sweep-IsOver feed id list (update_status k.id expired store)
        (update_key-IsOver id k.id _ store.keys (λ j. refl) (λ j h. refl) over))
]

pub tick-IsOver :
    (feed : Feed) (id : Text) (store : KeyStore)
    → IsOver id store.keys
    → IsOver id (tick feed store).1.keys
unfolding tick
tick-IsOver feed id store over = sweep-IsOver feed id _ store over

pub revoke_key-IsOver :
    (id key reason : Text) (now : Time) (store : KeyStore)
    → IsOver id store.keys
    → IsOver id (revoke_key key reason now store).keys
unfolding revoke_key
revoke_key-IsOver id key reason now store over =
    update_key-IsOver id key _ store.keys (λ k. ground arith) (λ k h. ground arith) over

waiting_over : (s : KeyStatus) → is_pending s ≡ true → is_over s ≡ true → ⊥
waiting_over pending_authorize h k = cc
waiting_over active h k = cc
waiting_over rotating h k = cc
waiting_over expired h k = cc
waiting_over revoked h k = cc

-- Only a key that waits is activated.
activate-IsOver :
    (id key hash : Text) (row : SessionKey) (store : KeyStore)
    → get_key key store.keys ≡ some row
    → is_pending row.status ≡ true
    → IsOver id store.keys
    → IsOver id (activate row.id hash store).keys
unfolding activate
activate-IsOver id key hash row store found waits (k, held, over) =
    elim (Bool-cases (text_eq row.id id)) [
      | inl this ↦
          let same_key : key ≡ id =
            sym (get_key-id key store.keys row found) ∙ text_eq→eq row.id id this in
          let same_row : row ≡ k =
            some-injective row k (sym found ∙ ap (λ t. get_key t store.keys) same_key ∙ held) in
          absurd (waiting_over row.status waits (ap (λ j. is_over j.status) same_row ∙ over))
      | inr other ↦ (k, get_key-update_key_ne id row.id _ store.keys (λ j. refl) other ∙ held, over)
    ]

pub submit-IsOver :
    (chain : Chain) (tenant id key signed : Text) (store : KeyStore)
    (r : Result SubmitError Text × KeyStore)
    → IsSubmitted chain tenant key signed store r
    → IsOver id store.keys
    → IsOver id r.1.keys
submit-IsOver chain tenant id key signed store r (refused e) over = over
submit-IsOver chain tenant id key signed store r (activated row hash found own waits sent) over =
    activate-IsOver id key hash row store found waits over

appended-IsOver :
    (id : Text) (key : SessionKey) (store store' : KeyStore)
    → store'.keys ≡ store.keys ++ (key ∷ [])
    → IsOver id store.keys
    → IsOver id store'.keys
appended-IsOver id key store store' added (k, found, over) =
    (k, ap (get_key id) added ∙ get_key-append id store.keys key k found, over)

module _ (ports : Ports) where
  pub mint-IsOver :
      (id : Text) (input : MintInput) (store : KeyStore) (r : Result MintError (Minted × KeyStore))
      → mint ports input store ≡ r
      → IsOver id store.keys
      → (minted : Minted) (store' : KeyStore) → r ≡ ok (minted, store')
      → IsOver id store'.keys
  mint-IsOver id input store r e over minted store' done =
      let issued = mint-IsIssued ports input store minted store' (e ∙ done) in
      appended-IsOver id issued.key store store' issued.keys_after over

  pub prepare-IsOver :
      (build : Text → Text → KeyRestrictions → Option Text) (id : Text) (input : MintInput)
      (store : KeyStore) (prepared : Prepared) (store' : KeyStore)
      → prepare_user_custody ports build input store ≡ ok (prepared, store')
      → IsOver id store.keys
      → IsOver id store'.keys
  unfolding prepare_user_custody
  prepare-IsOver build id input store prepared store' h over =
      let b : Prepared × KeyStore = (prepared, store') in
      let there =
        bind-ok (validate_mint ports.now input >> require ports.adapter no_adapter) _ b h in
      let wallet = bind-ok (or_fail (ports.get_wallet input.wallet_id) no_wallet) _ b there.2 in
      let owned =
        bind-ok
          (require (text_eq wallet.0.rail (codes "tempo")) wrong_rail
            >> require (text_eq wallet.0.custody (codes "user")) wrong_custody)
          _ b wallet.2 in
      let pair = bind-ok (or_fail ports.generate generate_failed) _ b owned.2 in
      let blob = bind-ok (or_fail (ports.encrypt pair.0.0) encrypt_failed) _ b pair.2 in
      let built =
        bind-ok
          (or_fail
            (build wallet.0.address pair.0.1 (record {
              expiry = expiry_of ports.now input / second - unix_epoch;
              limits = daily_limits input.limits.daily_usd;
            }))
            chain_failed)
          _ b blob.2 in
      let key = key_row ports input pair.0.1 blob.0 pending_authorize true [] in
      let saved = bind-ok (persist ports (policy_row ports input) key store) _ b built.2 in
      let rows = persist-appends ports (policy_row ports input) key store saved.0 saved.1 in
      let same : saved.0 ≡ store' =
        ap (λ (x : Prepared × KeyStore). x.1) (ok-injective _ b _ refl saved.2) in
      appended-IsOver id key store store' (ap (λ t. t.keys) (sym same) ∙ rows.0) over
