-- ===== src/SessionKeys/Tests.antt =====
-- Concrete runs of internal/sessionkey.
use atara_pay.Base.{ℕ, refl, true, false, none, some, [], ◌∷◌, codes}
use atara_pay.Base.Int.{pos}
use atara_pay.Limits.Policy.{CheckRequest}
use atara_pay.Limits.Service.{World, Wiring, Clock}
use atara_pay.Limits.Tests.{memory, plain}
use atara_pay.SessionKeys.Rows.{pending_authorize, active, SessionKey, KeyStore}
use atara_pay.SessionKeys.Input.{Limits, MintInput, Minted, Ports, validate_mint, next_rotation_of}
use atara_pay.SessionKeys.Mint.{chain_hash, policy_row, key_row, persist, mint}
use atara_pay.SessionKeys.Mint.Schedule.{IsIssued, mint-IsIssued}
use atara_pay.SessionKeys.Custody.{Chain, submit_authorize}
use atara_pay.SessionKeys.Custody.Activation.{IsSubmitted, submit_authorize-IsSubmitted}
use atara_pay.SessionKeys.Rotator.{Feed}

abbrev no_caps : Limits
no_caps = record {
  per_tx_usd = pos 0;
  daily_usd = pos 20;
  weekly_usd = pos 0;
  monthly_usd = pos 0;
  allowed_recipients = [];
  denied_recipients = [];
}

abbrev pub agent : MintInput
agent = record {
  tenant_id = codes "t_1";
  wallet_id = codes "w_1";
  group_id = codes "g_1";
  name = codes "agent";
  limits = no_caps;
  rotation_mode = [];
  rotation_interval_s = pos 0;
  expires_at = 0;
  on_chain_enforce = false;
}

abbrev pub ports : Ports
ports = record {
  generate = some (codes "priv", codes "0xkey");
  encrypt = λ p. some (p, 1);
  decrypt = λ b v. some b;
  get_wallet = λ w. none;
  adapter = false;
  authorize = λ m w k r. none;
  commit_fails = false;
  marshal_strings = λ xs. [];
  session_key_id = codes "sk_1";
  policy_id = codes "lp_1";
  now = 1_000;
}

abbrev empty_store : KeyStore
empty_store = record { policies = []; keys = [] }

abbrev day : ℕ
day = 86_400_000_000_000

abbrev minted : Minted
minted = record {
  id = codes "sk_1";
  public_address = codes "0xkey";
  private_key = codes "priv";
  policy_id = codes "lp_1";
  expires_at = 86_400_000_001_000;
  next_rotation_at = 86_400_000_001_000;
  rotation_mode = codes "auto_rotate";
  rail_native = false;
  on_chain_tx_hash = [];
}

abbrev pub agent_key : SessionKey
agent_key = key_row ports agent (codes "0xkey") (codes "priv", 1) active false []

abbrev pub one_key : KeyStore
one_key = record { policies = policy_row ports agent ∷ []; keys = agent_key ∷ [] }

mint-IsIssued_example : IsIssued ports agent empty_store minted one_key
unfolding mint validate_mint next_rotation_of chain_hash persist
mint-IsIssued_example = mint-IsIssued ports agent empty_store minted one_key refl

abbrev request : CheckRequest
request = record {
  tenant_id = codes "t_1";
  wallet_id = codes "w_1";
  session_key_id = codes "sk_1";
  amount = codes "1";
  asset = codes "USDC";
  recipient = codes "0xabc";
  transaction_id = codes "tx_1";
}

abbrev wired : Wiring
wired = record { redis_wired = true; emitter_wired = true }

abbrev noon : Clock
noon = record { at_expiry = 1_000; at_periods = 1_000 }

abbrev unused : World plain memory
unused = record { counters = λ k. pos 0; effects = [] }

abbrev pub chain : Chain
chain = record { adapter = true; broadcast = λ tx. some (codes "0xhash"); activate_fails = false }

abbrev pub waiting : KeyStore
waiting = record {
  policies = [];
  keys = key_row ports agent (codes "0xkey") (codes "priv", 1) pending_authorize true [] ∷ [];
}

submit_authorize-IsSubmitted_example :
    IsSubmitted chain
      (codes "t_1")
      (codes "sk_1")
      (codes "0xsigned")
      waiting
      (submit_authorize chain (codes "t_1") (codes "sk_1") (codes "0xsigned") waiting)
submit_authorize-IsSubmitted_example =
    submit_authorize-IsSubmitted chain (codes "t_1") (codes "sk_1") (codes "0xsigned") waiting

abbrev pub feed : Feed
feed = record {
  now = 0;
  sort_expired = λ rows. rows;
  sort_due = λ rows. rows;
  list_fails = false;
  due_fails = false;
  update_fails = λ id. false;
  batch = 200;
}
