-- ===== src/Members/Tests.antt =====
-- Concrete runs of the operations on accounts.
mod Plain
use atara_pay.Base.{
  ◌≡◌, ◌↔◌, replicate, refl, ◌+◌, ◌*◌, true, false, not, ◌∙◌, none, some, [], ◌∷◌, ◌++◌, Text,
  codes, text_eq, is_nil, trim_space, Result, ok, err, arith,
}
use atara_pay.Base.Int.{pos}
use atara_pay.Http.{Caller, Reply, and_then, guard, need, attempt, role_allows}
use atara_pay.Http.Post.{Post}
use atara_pay.Limits.Calendar.{Time}
use atara_pay.Auth.{
  ApiKey, AuthStop, Crypto, parse_api_key, bearer_from_header, mint_api_key, either_auth,
}
use atara_pay.Auth.Tests.{letters, plain_crypto, random_bytes}
use atara_pay.Auth.Password.{hash_password, verify_password}
use atara_pay.Auth.Password.RoundTrip.{digest, hash_password-verifies}
use atara_pay.Policies.Update.{insertable_default, get_tenant_default}
use atara_pay.Members.{
  Registry, no_rows, ApiKeyView, SignupRequest, SignupResponse, LoginRequest, LoginResponse,
  tenant_insertable, user_insertable, key_insertable, get_api_key, revoke_rows, validate_signup,
}
use atara_pay.Members.Keys.{KeyDraw, revoke_api_key, revoke_live}
use atara_pay.Members.Signup.{Addressing, SignupDraw, LoginSetting, open_account, signup, login}
use atara_pay.Members.Histories.{MemberOp, sign_up, serve, serve_all}
use atara_pay.Members.Revocation.{revoked_key_denied}
use atara_pay.Members.Entry.{IsJwt, login_after_signup, later_tables, session_locals, with_tokens}
use atara_pay.Members.Tests.Plain.{plain_argon, plain_argon-IsArgon, plain_jwt, plain_jwt-IsJwt}

abbrev addressing : Addressing
addressing = record { to_lower = λ s. s; is_address = λ s. not (is_nil s) }

abbrev sign_up_draw : SignupDraw
sign_up_draw = record {
  salt = some (1 ∷ 2 ∷ []);
  test_random = some random_bytes;
  live_random = some random_bytes;
  tenant_id = codes "tn_1";
  user_id = codes "u_1";
  test_id = codes "ak_1";
  live_id = codes "ak_2";
  policy_id = codes "lp_1";
  begin_fails = false;
  tenant_insert_fails = false;
  user_insert_fails = false;
  key_insert_fails = false;
  policy_insert_fails = false;
  commit_fails = false;
}

abbrev sign_up_request : SignupRequest
sign_up_request = record {
  company_name = codes "Acme";
  email = codes " ann@acme.io";
  password = codes "correct horse";
}

abbrev test_key : Text
test_key = codes "sk_test_AAAAAAAA" ++ letters random_bytes

abbrev live_key : Text
live_key = codes "sk_live_AAAAAAAA" ++ letters random_bytes

abbrev sign_up_answer : Reply SignupResponse
sign_up_answer = record {
  status = 201;
  body = record {
    tenant = record {
      id = codes "tn_1";
      name = codes "Acme";
      primary_email = codes "ann@acme.io";
      plan = codes "free";
    };
    user = record { id = codes "u_1"; email = codes "ann@acme.io"; role = codes "owner" };
    test = record { id = codes "ak_1"; key = test_key; prefix = codes "sk_test_AAAAAAAAAAAA" };
    live = record { id = codes "ak_2"; key = live_key; prefix = codes "sk_live_AAAAAAAAAAAA" };
  };
}

signup_succeeds :
    (signup plain_crypto plain_argon addressing sign_up_draw sign_up_request no_rows).0
    ≡ ok sign_up_answer
unfolding signup validate_signup hash_password trim_space mint_api_key open_account
    tenant_insertable user_insertable key_insertable and_then guard need attempt insertable_default
    get_tenant_default
signup_succeeds = refl

abbrev owner : Caller
owner = record {
  tenant_id = codes "tn_1";
  user_id = codes "u_1";
  role = codes "owner";
  api_key_id = [];
}

abbrev key_draw : KeyDraw
key_draw = record {
  random = none;
  new_id = codes "ak_3";
  now = 63_900_000_000_000_000_000;
  query_fails = false;
  write_fails = false;
}

abbrev test_key_row : ApiKey
test_key_row = record {
  id = codes "ak_1";
  tenant_id = codes "tn_1";
  created_by = some (codes "u_1");
  name = codes "default test key";
  environment = codes "test";
  key_prefix = codes "sk_test_AAAAAAAAAAAA";
  key_hash = test_key;
  revoked_at = none;
  revoked_reason = none;
}

revoked_key_denied_example :
    (codes "tn_1" ≡ codes "tn_1")
    × ((e : AuthStop) × (either_auth plain_crypto
            (codes "staging")
            (serve_all plain_crypto plain_argon plain_jwt addressing
              (sign_up sign_up_draw sign_up_request ∷ [])
              (revoke_api_key owner key_draw (codes "ak_1") (codes "lost") (
                serve_all plain_crypto plain_argon plain_jwt addressing
                  (sign_up sign_up_draw sign_up_request ∷ [])
                  no_rows)).1).api_keys
            (codes "Bearer " ++ test_key)
          ≡ err e))
unfolding serve_all serve signup validate_signup hash_password trim_space mint_api_key open_account
    tenant_insertable user_insertable key_insertable and_then guard need attempt insertable_default
    get_tenant_default revoke_api_key revoke_live revoke_rows get_api_key role_allows
    bearer_from_header
revoked_key_denied_example =
    revoked_key_denied plain_crypto plain_argon plain_jwt addressing
      (sign_up sign_up_draw sign_up_request ∷ []) (sign_up sign_up_draw sign_up_request ∷ []) owner
      key_draw (codes "ak_1") (codes "lost")
      (record {
        status = 200;
        body = record {
          id = codes "ak_1";
          name = codes "default test key";
          environment = codes "test";
          prefix = codes "sk_test_AAAAAAAAAAAA";
          is_revoked = true;
        };
      })
      test_key_row (codes "staging") (codes "Bearer " ++ test_key) test_key refl refl refl refl refl

abbrev login_setting : LoginSetting
login_setting = record {
  session_secret = replicate 32 7;
  session_ttl = pos 0;
  now = 63_900_000_000_000_000_000;
  query_fails = false;
}

login_after_signup_example :
    (r : Reply LoginResponse) × (login plain_argon plain_jwt addressing login_setting
        (record { email = codes "ann@acme.io "; password = codes "correct horse" })
        (later_tables plain_crypto plain_argon plain_argon-IsArgon plain_jwt plain_jwt-IsJwt
          addressing refl [] [] sign_up_draw sign_up_request)
      ≡ (
        ok r,
        later_tables plain_crypto plain_argon plain_argon-IsArgon plain_jwt plain_jwt-IsJwt
            addressing refl [] [] sign_up_draw sign_up_request,
      ))
    × (r.body.user ≡ sign_up_answer.body.user)
    × (r.body.tenant_id ≡ codes "tn_1")
    × (either_auth
          (with_tokens plain_crypto plain_jwt (replicate 32 7) 63_900_000_001_000_000_000)
          (codes "production")
          []
          (codes "Bearer " ++ r.body.session_token)
        ≡ ok (session_locals (codes "tn_1") (codes "u_1") (codes "owner")))
unfolding serve_all signup validate_signup hash_password trim_space mint_api_key open_account
    tenant_insertable user_insertable key_insertable and_then guard need attempt insertable_default
    get_tenant_default
login_after_signup_example =
    login_after_signup plain_crypto plain_argon plain_argon-IsArgon plain_jwt plain_jwt-IsJwt
      addressing refl [] [] sign_up_draw sign_up_request sign_up_answer login_setting
      (record { email = codes "ann@acme.io "; password = codes "correct horse" })
      (codes "production") [] 63_900_000_001_000_000_000 refl refl refl refl refl (omega arith)
      (omega arith)

hash_password-verifies_example :
    (encoded : Text) × (hash_password plain_argon (codes "correct horse") (some (1 ∷ 2 ∷ []))
      ≡ ok encoded)
    × (verify_password plain_argon encoded (codes "correct horse") ≡ ok tt)
    × ((text : Text)
        → (verify_password plain_argon encoded text ≡ ok tt) ↔ (
            digest plain_argon plain_argon-IsArgon
              (codes "correct horse")
              (1 ∷ 2 ∷ [])
              (codes "correct horse")
            ≡ digest plain_argon plain_argon-IsArgon (codes "correct horse") (1 ∷ 2 ∷ []) text))
hash_password-verifies_example =
    hash_password-verifies plain_argon plain_argon-IsArgon (codes "correct horse") (1 ∷ 2 ∷ []) refl
