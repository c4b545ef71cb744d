-- ===== src/SessionKeys/Requests.antt =====
-- Requests, checks and views of session keys (internal/server/handlers/session_keys.go,
-- session_keys_user_custody.go).
use atara_pay.Base.{
  ◌+◌, ◌*◌, ◌==◌, Bool, true, ◌&&◌, ◌||◌, not, Option, none, some, List, [], ◌∷◌, ◌++◌, Text, codes,
  text_eq, is_nil, any, Result, ok, err, ◌>>=◌, if◌then◌else◌,
}
use atara_pay.Base.Int.{ℤ, pos, negsuc, ltb_ℤ, is_int64}
use atara_pay.Limits.Calendar.{Time}
use atara_pay.Limits.Amount.{parse_int}
use atara_pay.SessionKeys.Rows.{KeyStatus, SessionKey}
use atara_pay.SessionKeys.Input.{Limits, MintInput}

-- `Limits` of a request to create a key.
pub record LimitsRequest : Type 0 where
  pub per_tx_amount : Text
  pub daily_amount : Text
  pub weekly_amount : Text
  pub monthly_amount : Text
  pub allowed_recipients : List Text
  pub denied_recipients : List Text

pub record CreateSessionKeyRequest : Type 0 where
  pub name : Text
  pub rail : Text
  pub limits : LimitsRequest
  pub rotation_mode : Text
  pub rotation_interval_hours : ℤ
  pub expires_at : Text
  pub on_chain_enforce : Bool

-- `SessionKeyView`, without the times.
pub record SessionKeyView : Type 0 where
  pub id : Text
  pub name : Text
  pub wallet_id : Text
  pub group_id : Text
  pub public_address : Text
  pub policy_id : Text
  pub status : KeyStatus
  pub rotation_mode : Text
  pub rotation_interval_s : ℤ
  pub rail_native : Bool

-- `CreateSessionKeyResponse` and `PreparedSessionKeyResponse`, without the notice.
pub record CreatedKey : Type 0 where
  pub view : SessionKeyView
  pub private_key : Text
  pub unsigned_authorize : Option Text

abbrev pub key_rotation_modes : List Text
key_rotation_modes = [] ∷ codes "auto_rotate" ∷ codes "notify_only" ∷ codes "hard_expire" ∷ []

-- `validateCreateSessionKey`
unfoldable pub validate_create_session_key : CreateSessionKeyRequest → Result Text (Unit {0})
validate_create_session_key r =
    if is_nil r.name
    then err (codes "name is required")
    else if not (is_nil r.rail)
        && (not (text_eq r.rail (codes "tempo")) && not (text_eq r.rail (codes "crossmint")))
    then err (codes "rail must be \"tempo\" or \"crossmint\"")
    else if not (any (text_eq r.rotation_mode) key_rotation_modes)
    then err
        (codes "rotation_mode must be one of \"auto_rotate\", \"notify_only\", \"hard_expire\"")
    else if ltb_ℤ r.rotation_interval_hours (pos 0) || ltb_ℤ (pos 720) r.rotation_interval_hours
    then err (codes "rotation_interval_hours must be between 0 and 720")
    else ok tt

-- `indexByte` at the dot: what stands before it, and what stands behind it if there is one.
unfoldable pub cut_dot : Text → Text × Option Text
cut_dot [] = ([], none)
cut_dot (c ∷ s) = let rest = cut_dot s in if c == b'.' then ([], some s) else (c ∷ rest.0, rest.1)

-- `allZeros`
abbrev pub all_zeros : Text → Bool
all_zeros [] = true
all_zeros (c ∷ s) = c == b'0' && all_zeros s

-- `strconv.ParseInt`, and the sign.
abbrev pub whole_usd : Option ℤ → Result Text ℤ
whole_usd none = err (codes "must be a non-negative integer USD amount")
whole_usd (some n) =
    if not (is_int64 n) || ltb_ℤ n (pos 0)
    then err (codes "must be a non-negative integer USD amount")
    else ok n

abbrev pub parse_cut : Text × Option Text → Result Text ℤ
parse_cut (whole, none) = whole_usd (parse_int whole)
parse_cut (whole, some tail) =
    if all_zeros tail
    then whole_usd (parse_int whole)
    else err (codes "must be a whole USD integer (no sub-dollar amounts yet)")

-- `parseUSD`
unfoldable pub parse_usd : Text → Result Text ℤ
parse_usd s = if is_nil s then ok (pos 0) else parse_cut (cut_dot s)

-- An error of one field, under its name.
abbrev pub named : Text → Result Text ℤ → Result Text ℤ
named field (ok n) = ok n
named field (err e) = err (field ++ (codes ": " ++ e))

-- `parseSessionCaps`, with the lists of recipients.
unfoldable pub parse_session_caps : CreateSessionKeyRequest → Result Text Limits
parse_session_caps r = do
  per_tx ← named (codes "per_tx_amount") (parse_usd r.limits.per_tx_amount)
  daily ← named (codes "daily_amount") (parse_usd r.limits.daily_amount)
  weekly ← named (codes "weekly_amount") (parse_usd r.limits.weekly_amount)
  monthly ← named (codes "monthly_amount") (parse_usd r.limits.monthly_amount)
  ok (record {
    per_tx_usd = per_tx;
    daily_usd = daily;
    weekly_usd = weekly;
    monthly_usd = monthly;
    allowed_recipients = r.limits.allowed_recipients;
    denied_recipients = r.limits.denied_recipients;
  })

abbrev pub parsed_expiry : Option Time → Result Text Time
parsed_expiry none = err (codes "expires_at must be RFC 3339")
parsed_expiry (some t) = ok t

-- The optional expiry; the zero time stands for none.
unfoldable pub expiry_time : (Text → Option Time) → Text → Result Text Time
expiry_time parse_rfc3339 s = if is_nil s then ok 0 else parsed_expiry (parse_rfc3339 s)

-- `int32(req.RotationIntervalHours) * 3600`, on hours that are validated.
abbrev pub hours_in_seconds : ℤ → ℤ
hours_in_seconds (pos n) = pos (n * 3600)
hours_in_seconds (negsuc n) = negsuc (n * 3600 + 3599)

-- The input of either mint.
unfoldable pub mint_input :
    Text → Text → Text → CreateSessionKeyRequest → Limits → Time → Bool → MintInput
mint_input tenant wallet group req caps expires_at on_chain = record {
  tenant_id = tenant;
  wallet_id = wallet;
  group_id = group;
  name = req.name;
  limits = caps;
  rotation_mode = req.rotation_mode;
  rotation_interval_s = hours_in_seconds req.rotation_interval_hours;
  expires_at = expires_at;
  on_chain_enforce = on_chain;
}

abbrev pub text_or_blank : Option Text → Text
text_or_blank none = []
text_or_blank (some s) = s

-- `toSessionKeyView`
unfoldable pub to_session_key_view : SessionKey → SessionKeyView
to_session_key_view r = record {
  id = r.id;
  name = r.name;
  wallet_id = r.wallet_id;
  group_id = r.group_id;
  public_address = r.public_address;
  policy_id = text_or_blank r.policy_id;
  status = r.status;
  rotation_mode = r.rotation_mode;
  rotation_interval_s = r.rotation_interval_s;
  rail_native = r.rail_native;
}
