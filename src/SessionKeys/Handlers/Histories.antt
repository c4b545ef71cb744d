-- ===== src/SessionKeys/Handlers/Histories.antt =====
-- Sequences of requests about session keys and of sweeps.

use atara_pay.Base.{List, [], ◌∷◌, Text}
use atara_pay.Base.Int.{ℤ}
use atara_pay.Http.{Caller}
use atara_pay.Http.Post.{Post-state}
use atara_pay.Transfers.Rows.{WalletGroup, Wallet}
use atara_pay.SessionKeys.Rotator.{Feed, tick}
use atara_pay.SessionKeys.Requests.{CreateSessionKeyRequest}
use atara_pay.SessionKeys.Handlers.{
  Desk, KeyCall, create_session_key, list_session_keys, submit_key_authorize, revoke_session_key,
}
use atara_pay.SessionKeys.Handlers.Over.{IsOver, tick-IsOver}
use atara_pay.SessionKeys.Handlers.Kept.{
  revoke_session_key-IsOver, create_session_key-IsOver, list_session_keys-IsOver,
  submit_key_authorize-IsOver,
}

-- The operations on session keys, each with what it meets.
pub data KeyOp : Type 0 where
  create : Caller → KeyCall → Text → CreateSessionKeyRequest → KeyOp
  enumerate : Caller → KeyCall → Text → ℤ → ℤ → KeyOp
  submit : Caller → KeyCall → Text → Text → Text → KeyOp
  revoke : Caller → KeyCall → Text → Text → KeyOp
  sweep_keys : Feed → KeyOp

module _ (groups : List WalletGroup) (wallets : List Wallet) where
  unfoldable pub serve_key : KeyOp → Desk → Desk
  serve_key (create caller call group req) d =
      (create_session_key groups wallets caller call group req d).1
  serve_key (enumerate caller call group limit offset) d =
      (list_session_keys groups wallets caller call group limit offset d).1
  serve_key (submit caller call group id signed) d =
      (submit_key_authorize groups wallets caller call group id signed d).1
  serve_key (revoke caller call id reason) d = (revoke_session_key caller call id reason d).1
  serve_key (sweep_keys feed) d = record d { store = (tick feed d.store).1 }

  unfoldable pub serve_keys : List KeyOp → Desk → Desk
  serve_keys [] d = d
  serve_keys (op ∷ ops) d = serve_keys ops (serve_key op d)

  serve_key-IsOver :
      (id : Text) (op : KeyOp) (d : Desk)
      → IsOver id d.store.keys
      → IsOver id (serve_key op d).store.keys
  unfolding serve_key
  serve_key-IsOver id (create caller call group req) d over =
      Post-state (create_session_key-IsOver id groups wallets caller call group req d over)
  serve_key-IsOver id (enumerate caller call group limit offset) d over =
      Post-state (list_session_keys-IsOver id groups wallets caller call group limit offset d over)
  serve_key-IsOver id (submit caller call group key signed) d over =
      Post-state (submit_key_authorize-IsOver id groups wallets caller call group key signed d over)
  serve_key-IsOver id (revoke caller call key reason) d over =
      Post-state (revoke_session_key-IsOver id caller call key reason d over)
  serve_key-IsOver id (sweep_keys feed) d over = tick-IsOver feed id d.store over

  pub serve_keys-IsOver :
      (id : Text) (ops : List KeyOp) (d : Desk)
      → IsOver id d.store.keys
      → IsOver id (serve_keys ops d).store.keys
  unfolding serve_keys
  serve_keys-IsOver id [] d over = over
  serve_keys-IsOver id (op ∷ ops) d over =
      serve_keys-IsOver id ops (serve_key op d) (serve_key-IsOver id op d over)
