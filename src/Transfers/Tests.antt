-- ===== src/Transfers/Tests.antt =====
-- Concrete runs of the transfers.
use atara_pay.Limits.Amount.{scale_to_micros, cut_point, trim_left_zeros, parse_int}
use atara_pay.Limits.Policy.{
  resolve_policy, exceeds_numeric, recipient_gate, parse_json_string_list,
}
use atara_pay.Limits.Service.{check, enforce, per_tx_gates, recipient_gates, period_gates}
use atara_pay.Transfers.Send.{
  send_transaction, authorise, resolve_signer, limit_gate, check_request, dispatch,
  send_via_crossmint, record_transaction, create_transaction, announce, sent_row,
}
use atara_pay.Base.{◌≡◌, refl, true, false, none, some, List, [], ◌∷◌, Text, codes, ok, ◌⊎◌, length}
use atara_pay.Http.{Caller, Reply, and_then, guard, need, attempt}
use atara_pay.Transfers.Send
use atara_pay.Http.Post.{Post}
use atara_pay.Limits.Tests.{memory, memory-IsReliable, plain, one_policy, wired, noon, unused}
use atara_pay.Transfers.{
  SendTransactionRequest, PrepareTransactionRequest, require_fields, validate_send_tx, route_rail,
}
use atara_pay.Transfers.Plane.{Outside, Directory, Parts, Circumstances, Plane, Artifact}
use atara_pay.Transfers.Rows.{
  insertable, get_transaction_by_key, WalletGroup, Wallet, Transaction, UnsignedTransfer,
  get_transaction, get_wallet_group, get_wallet_by_rail, update_transaction, set_status,
}
use atara_pay.Transfers.Prepare.{
  SubmitTransactionRequest, SubmittedView, submit_transaction, has_lapsed,
  update_transaction_status, conclude, broadcast_signed,
}
use atara_pay.Transfers.Settled.{IsMoved}
use atara_pay.Transfers.Safety.{
  IsWithinLimits, SettledOrAbandoned, answer_of, send_transaction-IsWithinLimits,
  send_transaction-SettledOrAbandoned,
}
use atara_pay.Transfers.Submitted.{IsBroadcast, IsSubmitted, submit_transaction-Post}
use atara_pay.Transfers.Histories.{
  Operation, send, prepare, submit, status_of, serve_all, serve_all-frozen,
}
use atara_pay.Transfers.Refinement.{StatusRun, serve_all_refines, submit_transaction_once}

abbrev unsigned_call : UnsignedTransfer
unsigned_call = record {
  chain_id = 42431;
  nonce = 7;
  to = codes "0xtoken";
  value_hex = codes "0x0";
  gas_limit = 100_000;
  gas_price_hex = codes "0x1";
  data_hex = codes "0xa9059cbb";
  raw_unsigned_hex = codes "0xf8";
}

abbrev sent : Artifact
sent = record { id = codes "cm_1"; tx_hash = codes "0xhash"; status = codes "pending" }

-- Rails that take every order; amounts and assets are stored as they are.
abbrev pub open_rails : Outside
open_rails = record {
  create = λ calls order locator. ok sent;
  transfer = λ calls key order. ok sent;
  broadcast = λ calls signed. ok (codes "0xhash");
  build = λ address order. ok unsigned_call;
  decrypt = λ blob version. some blob;
  to_upper = λ s. s;
  to_numeric = λ s. some s;
  parse_rfc3339 = λ s. some 900;
}

abbrev pub group : WalletGroup
group = record {
  id = codes "g_1";
  tenant_id = codes "t_1";
  owner_type = codes "agent";
  owner_ref = codes "a";
  parent_group_id = none;
  custody = codes "platform";
  display_name = none;
  deleted_at = none;
}

abbrev pub wallet_on : Text → Text → Wallet
wallet_on rail custody = record {
  id = codes "w_1";
  group_id = codes "g_1";
  tenant_id = codes "t_1";
  rail = rail;
  chain = codes "base";
  address = codes "0xfrom";
  provider_locator = codes "wallet:1";
  custody = custody;
  encrypted_private_key = codes "blob";
  key_version = some 1;
  status = codes "active";
}

abbrev pub directory : Directory
directory = record {
  groups = group ∷ [];
  wallets =
      wallet_on (codes "crossmint") (codes "platform")
      ∷ wallet_on (codes "tempo") (codes "user")
      ∷ [];
  session_keys = [];
}

abbrev pub parts : Parts
parts = record { limits_wired = true; publisher_wired = true; wiring = wired }

abbrev pub caller : Caller
caller = record { tenant_id = codes "t_1"; user_id = []; role = []; api_key_id = codes "k_1" }

abbrev pub moment : Text → Circumstances
moment id = record {
  now = 100;
  check_clock = noon;
  new_id = id;
  group_query_fails = false;
  wallet_query_fails = false;
  key_query_fails = false;
  replay_query_fails = false;
  row_query_fails = false;
  insert_fails = false;
  update_fails = false;
}

abbrev pub sixty : SendTransactionRequest
sixty = record {
  to = codes "0xabc";
  amount = codes "60.25";
  asset = codes "USDC";
  idempotency_key = codes "once";
  rail = [];
  signer_id = [];
}

abbrev five : PrepareTransactionRequest
five = record {
  to = codes "0xabc";
  amount = codes "5";
  asset = codes "PATHUSD";
  memo = [];
  idempotency_key = [];
}

abbrev signed : SubmitTransactionRequest
signed = record { prepare_id = codes "tx_p"; signed_tx_hex = codes "0xsigned" }

abbrev row_of : Text → Text → Transaction
row_of id status = record {
  id = id;
  tenant_id = codes "t_1";
  wallet_id = codes "w_1";
  group_id = codes "g_1";
  rail = codes "tempo";
  chain = codes "tempo";
  direction = codes "outbound";
  counterparty = codes "0xabc";
  amount = codes "5";
  asset = codes "PATHUSD";
  status = status;
  tx_hash = none;
  provider_tx_id = none;
  session_key_id = none;
  initiated_by_apikey = none;
  idempotency_key = none;
  metadata = some (record { unsigned = unsigned_call; memo = []; expires_at = codes "soon" });
  created_at = 0;
  confirmed_at = none;
}

abbrev pub with_rows : List Transaction → Plane plain memory
with_rows rows = record { world = unused; transactions = rows; rail_calls = []; announced = [] }

abbrev day_of_work : List Operation
day_of_work =
    send caller (moment (codes "tx_1")) (codes "g_1") sixty
    ∷ prepare caller (moment (codes "tx_p")) (codes "g_1") five
    ∷ submit caller (moment []) (codes "g_1") signed
    ∷ submit caller (moment []) (codes "g_1") signed
    ∷ []

-- Without Redis: the gates that need no counter.
abbrev uncounted : Parts
uncounted = record {
  limits_wired = true;
  publisher_wired = false;
  wiring = record { redis_wired = false; emitter_wired = false };
}

sixty_moves_once :
    length
      (answer_of plain memory open_rails one_policy directory uncounted caller
        (moment (codes "tx_1"))
        (codes "g_1")
        sixty
        (with_rows [])).1.rail_calls
    ≡ 1
unfolding send_transaction authorise and_then guard need attempt validate_send_tx require_fields
    get_wallet_group route_rail get_wallet_by_rail resolve_signer limit_gate Send.settle check
    resolve_policy enforce check_request per_tx_gates exceeds_numeric scale_to_micros cut_point
    trim_left_zeros parse_int recipient_gates recipient_gate parse_json_string_list period_gates
    dispatch send_via_crossmint record_transaction create_transaction announce insertable
    get_transaction get_transaction_by_key sent_row
sixty_moves_once = refl

send_transaction-IsWithinLimits_example :
    ((answer_of plain memory open_rails one_policy directory parts caller
        (moment (codes "tx_1"))
        (codes "g_1")
        sixty
        (with_rows [])).1.rail_calls
      ≡ [])
    ⊎ ((grant : _) × IsMoved plain memory open_rails one_policy directory parts caller
          (moment (codes "tx_1"))
          (codes "g_1")
          sixty
          grant
          (with_rows [])
          (answer_of plain memory open_rails one_policy directory parts caller
            (moment (codes "tx_1"))
            (codes "g_1")
            sixty
            (with_rows [])).1
        × IsWithinLimits plain memory memory-IsReliable open_rails one_policy directory parts
            (moment (codes "tx_1"))
            (codes "t_1")
            grant
            sixty
            unused
            (answer_of plain memory open_rails one_policy directory parts caller
              (moment (codes "tx_1"))
              (codes "g_1")
              sixty
              (with_rows [])).1.world)
send_transaction-IsWithinLimits_example =
    send_transaction-IsWithinLimits plain memory memory-IsReliable open_rails one_policy directory
      parts caller (moment (codes "tx_1")) (codes "g_1") sixty (with_rows []) refl refl

send_transaction-SettledOrAbandoned_example :
    SettledOrAbandoned plain memory open_rails one_policy directory parts caller
      (moment (codes "tx_1"))
      (codes "g_1")
      sixty
      (with_rows [])
      (answer_of plain memory open_rails one_policy directory parts caller
        (moment (codes "tx_1"))
        (codes "g_1")
        sixty
        (with_rows []))
send_transaction-SettledOrAbandoned_example =
    send_transaction-SettledOrAbandoned plain memory open_rails one_policy directory parts caller
      (moment (codes "tx_1")) (codes "g_1") sixty (with_rows [])

submit_transaction-Post_example :
    Post
      (λ reply.
        IsBroadcast plain memory open_rails caller
          (moment [])
          (codes "g_1")
          signed
          (with_rows (row_of (codes "tx_p") (codes "prepared") ∷ [])))
      (IsSubmitted plain memory open_rails caller
        (moment [])
        (codes "g_1")
        signed
        (with_rows (row_of (codes "tx_p") (codes "prepared") ∷ [])))
      (submit_transaction plain memory open_rails caller
        (moment [])
        (codes "g_1")
        signed
        (with_rows (row_of (codes "tx_p") (codes "prepared") ∷ [])))
submit_transaction-Post_example =
    submit_transaction-Post plain memory open_rails caller (moment []) (codes "g_1") signed
      (with_rows (row_of (codes "tx_p") (codes "prepared") ∷ []))

serve_all-frozen_example :
    get_transaction
      (codes "tx_0")
      (serve_all plain memory open_rails one_policy directory parts day_of_work
        (with_rows (row_of (codes "tx_0") (codes "failed") ∷ []))).transactions
    ≡ some (row_of (codes "tx_0") (codes "failed"))
unfolding get_transaction
serve_all-frozen_example =
    serve_all-frozen plain memory open_rails one_policy directory parts day_of_work
      (with_rows (row_of (codes "tx_0") (codes "failed") ∷ [])) (codes "tx_0")
      (row_of (codes "tx_0") (codes "failed")) refl cc

serve_all_refines_example : StatusRun (status_of (get_transaction (codes "tx_p") [])) (
    status_of (
      get_transaction
        (codes "tx_p")
        (serve_all plain memory open_rails one_policy directory parts day_of_work
          (with_rows [])).transactions))
serve_all_refines_example =
    serve_all_refines plain memory open_rails one_policy directory parts day_of_work (with_rows [])
      (codes "tx_p")

abbrev waiting : Plane plain memory
waiting = with_rows (row_of (codes "tx_p") (codes "prepared") ∷ [])

abbrev broadcast_answer : Reply SubmittedView
broadcast_answer = record {
  status = 200;
  body = record {
    row =
        set_status (codes "broadcast") (some (codes "0xhash")) 100
          (row_of (codes "tx_p") (codes "prepared"));
    rail_tx_hash = codes "0xhash";
  };
}

submit_transaction_once_example :
    (submit_transaction plain memory open_rails caller (moment []) (codes "g_1") signed (
      serve_all plain memory open_rails one_policy directory parts day_of_work
        (submit_transaction plain memory open_rails caller
          (moment [])
          (codes "g_1")
          signed
          waiting).1)).1
    ≡ serve_all plain memory open_rails one_policy directory parts day_of_work
        (submit_transaction plain memory open_rails caller
          (moment [])
          (codes "g_1")
          signed
          waiting).1
unfolding submit_transaction broadcast_signed conclude update_transaction_status and_then guard need
    get_transaction update_transaction has_lapsed set_status
submit_transaction_once_example =
    submit_transaction_once plain memory open_rails one_policy directory parts caller caller
      (moment []) (moment []) (codes "g_1") (codes "g_1") signed signed day_of_work waiting
      broadcast_answer refl refl
