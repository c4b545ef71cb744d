-- ===== src/Accounts/Create.antt =====
-- `Create` of internal/server/handlers/wallet_groups.go.
pub mod Kept
pub mod Reuse
use atara_pay.Base.{
  true, false, ◌&&◌, ◌||◌, not, Option, none, some, List, [], ◌∷◌, ◌++◌, Text, codes, is_nil,
  trim_space, Result, ok, err, if◌then◌else◌,
}
use atara_pay.Http.{
  Caller, Reply, Handler, ◌>>=◌, ◌>>◌, reply, guard, need, attempt, get_state, with_tenant,
  bad_request, internal_error, upstream_error,
}
use atara_pay.Transfers.Rows.{WalletGroup, Wallet}
use atara_pay.Accounts.{CreateGroupRequest, GroupView, validate_create_group, to_group_view}
use atara_pay.Accounts.Rows.{
  Accounts, Setting, Addresses, get_by_owner_ref, wallets_of_group, group_insertable, address_for,
  is_user, chain_of, group_row, wallet_rows,
}

-- The owner of a CrossMint wallet: "atara:<tenant>:<ref>"
abbrev pub owner_value : Text → Text → Text
owner_value tenant ref = codes "atara:" ++ tenant ++ codes ":" ++ ref

-- Step 2, on a gateway with or without CrossMint.
abbrev pub order_wallet :
    Option (List Text → Text → Text → Result Text (Text × Text))
    → Text
    → Text
    → Handler Accounts (Option (Text × Text))
order_wallet none chain owner s = (ok none, s)
order_wallet (some client) chain owner s =
    (do
      wallet ← attempt (client s.ordered chain owner) upstream_error
      (λ t. (ok (some wallet), t)))
      (record s { ordered = s.ordered ++ owner ∷ [] })

-- Steps 2 and 3 under platform custody.
unfoldable pub platform_addresses :
    Caller → Setting → CreateGroupRequest → Handler Accounts Addresses
platform_addresses caller env req = do
  wallet ←
      order_wallet env.crossmint (chain_of env req) (owner_value caller.tenant_id req.owner_ref)
  pair ← need env.keypair internal_error
  key ← need (env.encrypt pair.0) internal_error
  (λ s. (ok (record { crossmint = wallet; tempo = some pair.1; key = some key }), s))

abbrev pub twice : Option Text → Option (Text × Text)
twice none = none
twice (some a) = some (a, a)

-- The same under user custody: what the caller registered.
unfoldable pub user_addresses : CreateGroupRequest → Handler Accounts Addresses
user_addresses req s = (
  ok (record {
    crossmint = twice (address_for (codes "crossmint") req.external_addresses);
    tempo = address_for (codes "tempo") req.external_addresses;
    key = none;
  }),
  s,
)

abbrev pub answer_reused : Setting → WalletGroup → Handler Accounts (Reply GroupView)
answer_reused env g s =
    (do
      guard (not env.list_fails) internal_error
      reply 200 (to_group_view g (wallets_of_group g.id s.wallets) true))
      s

abbrev pub find_winner : Caller → Setting → CreateGroupRequest → Accounts → Option WalletGroup
find_winner caller env req s =
    if env.winner_query_fails
    then none
    else get_by_owner_ref caller.tenant_id req.owner_ref s.groups

-- The answer where another request has created the group.
abbrev pub answer_winner :
    Caller → Setting → CreateGroupRequest → Handler Accounts (Reply GroupView)
answer_winner caller env req = do
  s ← get_state
  winner ← need (find_winner caller env req s) internal_error
  answer_reused env winner

-- The rows and the event of a group that is created.
abbrev pub commit_group : Setting → WalletGroup → List Wallet → Handler Accounts (Reply GroupView)
commit_group env g ws s =
    let view = to_group_view g ws false in
    let events = if env.publisher_wired then s.announced ++ view ∷ [] else s.announced in
    reply 201 view
      (record s { groups = g ∷ s.groups; wallets = s.wallets ++ ws; announced = events })

-- Step 4: the transaction.
unfoldable pub insert_group :
    Caller → Setting → CreateGroupRequest → Addresses → Handler Accounts (Reply GroupView)
insert_group caller env req a s =
    let g = group_row caller env req in
    let ws = wallet_rows g env (chain_of env req) a in
    if env.begin_fails || env.group_insert_fails
    then (err internal_error, s)
    else if not (group_insertable g s.groups)
    then answer_winner caller env req s
    else if (env.wallet_insert_fails && not (is_nil ws)) || env.commit_fails
    then (err internal_error, s)
    else commit_group env g ws s

abbrev pub find_group : Caller → Setting → Text → Accounts → Option WalletGroup
find_group caller env ref s =
    if env.lookup_fails then none else get_by_owner_ref caller.tenant_id ref s.groups

-- The steps where no group is found.
unfoldable pub create_new :
    Caller → Setting → CreateGroupRequest → Handler Accounts (Reply GroupView)
create_new caller env req = do
  addresses ← if is_user req then user_addresses req else platform_addresses caller env req
  (λ s. insert_group caller env req addresses (env.meanwhile s))

abbrev pub reuse_or :
    Setting
    → Option WalletGroup
    → Handler Accounts (Reply GroupView)
    → Handler Accounts (Reply GroupView)
reuse_or env none new = new
reuse_or env (some g) new = answer_reused env g

-- `req.Owner.Ref = strings.TrimSpace(req.Owner.Ref)`
abbrev pub trimmed : CreateGroupRequest → CreateGroupRequest
trimmed req = record req { owner_ref = trim_space req.owner_ref }

-- `Create`, on the request with its reference trimmed.
unfoldable pub create_trimmed :
    Caller → Setting → CreateGroupRequest → Handler Accounts (Reply GroupView)
create_trimmed caller env req = do
  with_tenant caller
  attempt (validate_create_group req) bad_request
  (λ s. reuse_or env (find_group caller env req.owner_ref s) (create_new caller env req) s)

-- `Create`, after the body is parsed.
unfoldable pub create_group :
    Caller → Setting → CreateGroupRequest → Handler Accounts (Reply GroupView)
create_group caller env req = create_trimmed caller env (trimmed req)
