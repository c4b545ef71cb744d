-- ===== src/Transfers/Authorised.antt =====
-- When money may move: what the guards of `SendTransaction` have established at the rail call.
use atara_pay.Base.{
  ◌≡◌, refl, Bool, true, false, not, Option, some, [], Text, codes, text_eq, text_eq→eq, is_nil, ok,
  Bool-cases, inl, inr, arith,
}
use atara_pay.Http.{Caller}
use atara_pay.Http.Post.{Post, ok-Post, guard-Post, need-Post, attempt-Post, bind-Post}
use atara_pay.Limits.Counter.{Redis}
use atara_pay.Limits.Policy.{Querier, Std, has_expired}
use atara_pay.SessionKeys.Rows.{SessionKey, active, get_key}
use atara_pay.Transfers.{SendTransactionRequest, rail_name, validate_send_tx, route_rail}
use atara_pay.Transfers.Plane.{Outside, Directory, Parts, Circumstances, unless_fails, Plane}
use atara_pay.Transfers.Rows.{Wallet, get_wallet_group, get_wallet_by_rail}
use atara_pay.Transfers.Send.{Grant, key_fits, resolve_signer, authorise}

pub refuted : (b : Bool) → not b ≡ true → b ≡ false
refuted b h = ground arith

pub answered :
    {A : Type 0} (fails : Bool) (o : Option A) (a : A) → unless_fails fails o ≡ some a → o ≡ some a
answered true o a h = cc
answered false o a h = h

module _ (out : Outside) (dir : Directory) (caller : Caller) (now : Circumstances) where
  -- The signer that is charged: none, or a session key of the tenant and the wallet, active and
  -- not expired.
  pub data IsSigner (wallet : Wallet) (req : SendTransactionRequest) (signer : Text) : Type 0 where
    master : is_nil req.signer_id ≡ true → signer ≡ [] → IsSigner wallet req signer
    session :
        (k : SessionKey)
        → get_key req.signer_id dir.session_keys ≡ some k
        → k.tenant_id ≡ caller.tenant_id
        → k.wallet_id ≡ wallet.id
        → k.status ≡ active
        → has_expired (some k.expires_at) now.now ≡ false
        → signer ≡ k.id
        → IsSigner wallet req signer

  -- The caller may move money out of this wallet.
  pub record IsGranted (group_id : Text) (req : SendTransactionRequest) (grant : Grant)
      : Type 0 where
    pub known : is_nil caller.tenant_id ≡ false
    pub complete : validate_send_tx req ≡ ok tt
    pub group : get_wallet_group group_id dir.groups ≡ some grant.group
    pub owned : grant.group.tenant_id ≡ caller.tenant_id
    pub routed : route_rail out.to_upper req ≡ ok grant.rail
    pub wallet :
        get_wallet_by_rail grant.group.id (rail_name grant.rail) dir.wallets ≡ some grant.wallet
    pub platform_custody : text_eq grant.wallet.custody (codes "user") ≡ false
    pub signer : IsSigner grant.wallet req grant.signer_id

key_fits-fits :
    (tenant : Text) (wallet : Wallet) (k : SessionKey)
    → key_fits tenant wallet k ≡ true
    → (k.tenant_id ≡ tenant) × (k.wallet_id ≡ wallet.id) × (k.status ≡ active)
key_fits-fits tenant wallet k h = (
  text_eq→eq k.tenant_id tenant (ground arith),
  text_eq→eq k.wallet_id wallet.id (ground arith),
  ground arith,
)

module _ (std : Std) (r : Redis) (out : Outside) (q : Querier) (dir : Directory)
    (parts : Parts) where
  resolve_signer-IsSigner :
      (caller : Caller) (now : Circumstances) (wallet : Wallet) (req : SendTransactionRequest)
      (s : Plane std r)
      → Post
          (λ signer s'. IsSigner out dir caller now wallet req signer × (s' ≡ s))
          (λ s'. s' ≡ s)
          (resolve_signer std r out q dir parts caller now wallet req s)
  unfolding resolve_signer
  resolve_signer-IsSigner caller now wallet req s = elim (Bool-cases (is_nil req.signer_id)) [
    | inl e ↦ rw (e, resolve_signer) (ok-Post (master e refl, refl))
    | inr e ↦
        rw (e, resolve_signer)
          (need-Post _ _ refl λ k found. guard-Post _ _ refl λ fits. guard-Post _ _ refl λ fresh.
            let (tenant, wallet_eq, live) = key_fits-fits caller.tenant_id wallet k fits in
            ok-Post
              (session k (answered _ _ _ found) tenant wallet_eq live (refuted _ fresh) refl, refl))
  ]

  pub authorise-IsGranted :
      (caller : Caller) (now : Circumstances) (group_id : Text) (req : SendTransactionRequest)
      (s : Plane std r)
      → Post
          (λ grant s'. IsGranted out dir caller now group_id req grant × (s' ≡ s))
          (λ s'. s' ≡ s)
          (authorise std r out q dir parts caller now group_id req s)
  unfolding authorise
  authorise-IsGranted caller now group_id req s = guard-Post _ _ refl λ known.
      guard-Post _ _ refl λ named. attempt-Post _ _ refl λ unit complete.
        need-Post _ _ refl λ group found. guard-Post _ _ refl λ owned.
          attempt-Post _ _ refl λ rail routed. need-Post _ _ refl λ wallet held.
            guard-Post _ _ refl λ platform.
              bind-Post _ (resolve_signer-IsSigner caller now wallet req s) λ signer s' h. ok-Post (
                record {
                  known = refuted _ known;
                  complete = complete;
                  group = answered _ _ _ found;
                  owned = text_eq→eq _ _ owned;
                  routed = routed;
                  wallet = answered _ _ _ held;
                  platform_custody = refuted _ platform;
                  signer = h.0;
                },
                h.1,
              )
