-- ===== src/SessionKeys/Rotator.antt =====
-- The background sweep of session keys (internal/sessionkey/rotator.go).
pub mod Sweep
use atara_pay.Base.{ℕ, ◌+◌, Bool, Option, List, [], ◌∷◌, Text, length, take, if◌then◌else◌}
use atara_pay.Limits.Calendar.{Time}
use atara_pay.SessionKeys.Rows.{
  SessionKey, KeyStore, expired, expired_keys, rotation_due, update_status,
}

pub record TickStats : Type 0 where
  pub at_time : Time
  pub expired_flipped : ℕ
  pub rotation_due_seen : ℕ

-- The clock, the order of the sorted queries, which of the three statements fail, and the limit.
pub record Feed : Type 0 where
  pub now : Time
  pub sort_expired : List SessionKey → List SessionKey
  pub sort_due : List SessionKey → List SessionKey
  pub list_fails : Bool
  pub due_fails : Bool
  pub update_fails : Text → Bool
  pub batch : ℕ

module _ (feed : Feed) where
  -- The loop of `Tick` over the expired keys, and how many of them it flipped.
  unfoldable pub sweep : List SessionKey → KeyStore → ℕ × KeyStore
  sweep [] store = (0, store)
  sweep (k ∷ rest) store =
      let (count, after) = sweep rest (update_status k.id expired store) in
      let skipped = sweep rest store in
      if feed.update_fails k.id then skipped else (count + 1, after)

  -- `Tick`. A query that fails gives no rows.
  unfoldable pub tick : KeyStore → TickStats × KeyStore
  tick store =
      let found =
        if feed.list_fails
        then []
        else take feed.batch (feed.sort_expired (expired_keys feed.now store.keys)) in
      let (flipped, swept) = sweep found store in
      let due =
        if feed.due_fails
        then []
        else take feed.batch (feed.sort_due (rotation_due feed.now swept.keys)) in
      (
        record { at_time = feed.now; expired_flipped = flipped; rotation_due_seen = length due },
        swept,
      )
