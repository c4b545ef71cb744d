-- ===== src/Transfers/Plane.antt =====
-- What a transfer reads, calls and changes
-- (internal/server/handlers/wallet_group_tx.go, internal/types/types.go).
use atara_pay.Base.{ℕ, Bool, true, false, Option, none, List, Text, Result}
use atara_pay.Limits.Calendar.{Time}
use atara_pay.Limits.Counter.{Redis}
use atara_pay.Limits.Policy.{Std}
use atara_pay.Limits.Service.{World, Wiring, Clock}
use atara_pay.SessionKeys.Rows.{SessionKey}
use atara_pay.Webhooks.Store.{ResourceRefs}
use atara_pay.Transfers.{TransferEvent, TransactionView}
use atara_pay.Transfers.Rows.{WalletGroup, Wallet, UnsignedTransfer, Transaction}

-- `CreateTransactionRequest` of internal/types.
pub record Order : Type 0 where
  pub from : Text
  pub to : Text
  pub amount : Text
  pub asset : Text
  pub chain : Text

-- What a rail answers: `Transaction` of internal/types, its fields that are read.
pub record Artifact : Type 0 where
  pub id : Text
  pub tx_hash : Text
  pub status : Text

-- The calls that can move money, in order.
pub data RailCall : Type 0 where
  crossmint_create : Order → Text → RailCall
  tempo_transfer : Text → Order → RailCall
  tempo_broadcast : Text → RailCall

-- The rails' clients and the keystore, each answer by the calls before it; `strings.ToUpper`, a
-- text as a NUMERIC(38, 18) column returns it, `time.Parse` with RFC 3339.
pub record Outside : Type 0 where
  pub create : List RailCall → Order → Text → Result Text Artifact
  pub transfer : List RailCall → Text → Order → Result Text Artifact
  pub broadcast : List RailCall → Text → Result Text Text
  pub build : Text → Order → Result Text UnsignedTransfer
  pub decrypt : Text → ℕ → Option Text
  pub to_upper : Text → Text
  pub to_numeric : Text → Option Text
  pub parse_rfc3339 : Text → Option Time

-- The tables that a transfer reads.
pub record Directory : Type 0 where
  pub groups : List WalletGroup
  pub wallets : List Wallet
  pub session_keys : List SessionKey

-- The parts of `WalletGroups` that may be nil.
pub record Parts : Type 0 where
  pub limits_wired : Bool
  pub publisher_wired : Bool
  pub wiring : Wiring

-- What one request meets: the clock at its readings, the id that is drawn, and the statements
-- that the database fails.
pub record Circumstances : Type 0 where
  pub now : Time
  pub check_clock : Clock
  pub new_id : Text
  pub group_query_fails : Bool
  pub wallet_query_fails : Bool
  pub key_query_fails : Bool
  pub replay_query_fails : Bool
  pub row_query_fails : Bool
  pub insert_fails : Bool
  pub update_fails : Bool

abbrev pub unless_fails {ℓ} : {A : Type ℓ} → Bool → Option A → Option A
unless_fails true o = none
unless_fails false o = o

-- An event as it is handed to `Publish`, whose result is ignored.
pub record Announcement : Type 0 where
  pub tenant_id : Text
  pub event_type : TransferEvent
  pub data_of : TransactionView
  pub refs : ResourceRefs

module _ (std : Std) (r : Redis) where
  pub record Plane : Type 0 where
    pub world : World std r
    pub transactions : List Transaction
    pub rail_calls : List RailCall
    pub announced : List Announcement
