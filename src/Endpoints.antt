-- ===== src/Endpoints.antt =====
-- The endpoints of webhooks that a tenant manages: requests, checks and views
-- (internal/server/handlers/webhooks.go).
pub mod Handlers
pub mod Isolation
pub mod Protection
mod Tests
use mathlib.Core.List.{reverse}
use atara_pay.Base.{
  ℕ, Bool, true, false, ◌&&◌, ◌||◌, not, Option, none, some, List, [], ◌∷◌, Text, codes, text_eq,
  is_nil, any, has_prefix, length, ◌==◌, Result, ok, err, if◌then◌else◌, drop,
}
use atara_pay.Limits.Calendar.{Time}
use atara_pay.Webhooks.Store.{WebhookEndpoint, EndpointStatus, active, paused, deleted}

-- The fields of a parsed URL that are read.
pub record Url : Type 0 where
  pub scheme : Text
  pub host : Text

-- What the handlers use of net/url, strings, encoding/json and encoding/base64.
pub record Library : Type 0 where
  pub parse_url : Text → Option Url
  pub to_lower : Text → Text
  pub json_strings : Text → Option (List Text)
  pub json_of_strings : List Text → Text
  pub base64 : Text → Text

-- `nil` is a list that the request does not have.
pub record CreateEndpointRequest : Type 0 where
  pub url : Text
  pub subscribed_events : Option (List Text)
  pub description : Text

pub record UpdateEndpointRequest : Type 0 where
  pub url : Option Text
  pub subscribed_events : Option (List Text)
  pub description : Option Text
  pub status : Option Text

-- `strings.TrimSuffix`
abbrev pub trim_suffix : Text → Text → Text
trim_suffix suffix s =
    if has_prefix (reverse s) (reverse suffix)
    then reverse (drop (length suffix) (reverse s))
    else s

-- The first of `strings.SplitN(s, ":", 2)`.
abbrev pub before_colon : Text → Text
before_colon [] = []
before_colon (c ∷ s) = let rest = before_colon s in if c == b':' then [] else c ∷ rest

-- `marshalEventsList`, its loop.
unfoldable pub check_event_names : List Text → Result Text (Unit {0})
check_event_names [] = ok tt
check_event_names (s ∷ names) =
    let rest = check_event_names names in
    if is_nil s
    then err (codes "subscribed_events: empty string is not a valid event type")
    else if any (λ c. c == b'.') s
    then rest
    else err (codes "subscribed_events: each entry must look like resource.action")

-- The status that an update asks for.
unfoldable pub wanted_status : Option Text → Result Text (Option EndpointStatus)
wanted_status none = ok none
wanted_status (some s) =
    if text_eq s (codes "active")
    then ok (some active)
    else if text_eq s (codes "paused")
    then ok (some paused)
    else err (codes "status must be \"active\" or \"paused\"")

pub record EndpointView : Type 0 where
  pub id : Text
  pub url : Text
  pub subscribed_events : List Text
  pub status : EndpointStatus
  pub description : Text
  pub secret_version : ℕ
  pub consecutive_failures : ℕ
  pub last_success_at : Option Time
  pub last_failure_at : Option Time

pub record EndpointWithSecret : Type 0 where
  pub endpoint : EndpointView
  pub secret : Text

abbrev pub or_blank : Option Text → Text
or_blank none = []
or_blank (some s) = s

abbrev pub or_no_names : Option (List Text) → List Text
or_no_names none = []
or_no_names (some names) = names

module _ (lib : Library) where
  open lib use {parse_url, to_lower, json_strings, json_of_strings}

  -- `isLocalHost`
  unfoldable pub is_local_host : Text → Bool
  is_local_host host =
      let name = before_colon (trim_suffix (codes ":80") (to_lower host)) in
      text_eq name (codes "localhost")
      || text_eq name (codes "127.0.0.1")
      || text_eq name (codes "::1")

  -- `validateEndpointURL`, once the URL is parsed.
  unfoldable pub validate_parsed : Option Url → Result Text (Unit {0})
  validate_parsed none = err (codes "url is not a valid absolute URL")
  validate_parsed (some u) =
      if is_nil u.host
      then err (codes "url is not a valid absolute URL")
      else if text_eq u.scheme (codes "https")
      then ok tt
      else if text_eq u.scheme (codes "http") && is_local_host u.host
      then ok tt
      else err (codes "url must use https (http allowed only for localhost)")

  -- `validateEndpointURL`
  unfoldable pub validate_endpoint_url : Text → Result Text (Unit {0})
  validate_endpoint_url raw =
      if is_nil raw then err (codes "url is required") else validate_parsed (parse_url raw)

  -- `marshalEventsList`: `json.Marshal` of strings does not fail.
  unfoldable pub marshal_events_list : Option (List Text) → Result Text Text
  marshal_events_list none = ok (codes "[]")
  marshal_events_list (some names) = elim (check_event_names names) [
    | err e ↦ err e
    | ok unit ↦ ok (json_of_strings names)
  ]

  -- `parseEventsList`
  unfoldable pub parse_events_list : Text → List Text
  parse_events_list raw = if is_nil raw then [] else or_no_names (json_strings raw)

  -- `toEndpointView`, with the times before they are printed.
  unfoldable pub to_endpoint_view : WebhookEndpoint → EndpointView
  to_endpoint_view row = record {
    id = row.id;
    url = row.url;
    subscribed_events = parse_events_list row.subscribed_events;
    status = row.status;
    description = or_blank row.description;
    secret_version = row.secret_version;
    consecutive_failures = row.consecutive_failures;
    last_success_at = row.last_success_at;
    last_failure_at = row.last_failure_at;
  }
