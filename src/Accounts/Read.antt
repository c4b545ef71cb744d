-- ===== src/Accounts/Read.antt =====
-- `Get` and `List` of internal/server/handlers/wallet_groups.go.
use atara_pay.Base.{false, ◌||◌, not, none, List, map, Text, codes, text_eq, is_nil, if◌then◌else◌}
use atara_pay.Base.Int.{ℤ}
use atara_pay.Http.{
  Caller, Reply, Handler, ◌>>=◌, ◌>>◌, reply, guard, need, get_state, with_tenant, bad_request,
  not_found, internal_error, page,
}
use atara_pay.Transfers.Rows.{get_wallet_group}
use atara_pay.Accounts.{GroupView, to_group_view}
use atara_pay.Accounts.Rows.{Accounts, Setting, wallets_of_group, groups_of_tenant}

-- `Get`
unfoldable pub get_group : Caller → Setting → Text → Handler Accounts (Reply GroupView)
get_group caller env id = do
  with_tenant caller
  guard (not (is_nil id)) (bad_request (codes "missing id"))
  s ← get_state
  g ←
      need (if env.lookup_fails then none else get_wallet_group id s.groups)
        (not_found (codes "wallet group not found"))
  guard (text_eq g.tenant_id caller.tenant_id) (not_found (codes "wallet group not found"))
  guard (not env.list_fails) internal_error
  reply 200 (to_group_view g (wallets_of_group g.id s.wallets) false)

-- `List`
unfoldable pub list_groups : Caller → Setting → ℤ → ℤ → Handler Accounts (Reply (List GroupView))
list_groups caller env limit offset = do
  with_tenant caller
  s ← get_state
  guard (not env.lookup_fails) internal_error
  let groups = page limit offset (groups_of_tenant caller.tenant_id s.groups)
  guard (not env.list_fails || is_nil groups) internal_error
  reply 200 (map (λ g. to_group_view g (wallets_of_group g.id s.wallets) false) groups)
