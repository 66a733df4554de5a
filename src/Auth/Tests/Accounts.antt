-- ===== src/Auth/Tests/Accounts.antt =====
-- Passwords, logins and what ends sessions.
use Prim.Native.String.{◌++◌ as append}
use mosdns_controller.Base.{
  ℕ, ◌≡◌, ◌≢◌, refl, String, true, false, [], ◌∷◌, none, some, ◌==◌, if◌then◌else◌, arith,
}
use mosdns_controller.Go.Text.{trim_space, contains_char, split_char}
use mosdns_controller.Go.Result.{ok}
use mosdns_controller.Auth.Passwords.{Crypto, validate_credentials, hash_password, verify_password}
use mosdns_controller.Auth.Passwords.Verified.{verify_password-hash_password}
use mosdns_controller.Auth.Accounts.{AdminRow, Accounts, Admin, Env, first, update_session}
use mosdns_controller.Auth.Sessions.{
  authenticate, insert_session, login_body, login, session, verify_csrf, logout, store_password,
  replace_password, change_password_body, change_password, reset_password_body, reset_password,
  insert_first, check_created, make_first, create_initial_body, create_initial_admin,
}
use mosdns_controller.Auth.Sessions.Sound.{IsLive, session-IsLive}
use mosdns_controller.Auth.Sessions.Opened.{IsAuthentic, login-session}
use mosdns_controller.Auth.Sessions.Revoked.{
  IsChanged, IsReset, logout-ended, change_password-revoked, reset_password-revoked,
}
use mosdns_controller.Auth.Sessions.Initial.{Created, create_initial_admin-IsFirst}

abbrev test_crypto : Crypto
test_crypto = record {
  digest = λ s. s;
  id_key = λ p salt n. append p salt;
  encode = λ s. s;
  decode = some;
  encode_url = λ s. s;
}

abbrev drawn : ℕ → String
drawn n = if n == 2 then "token" else if n == 3 then "csrf" else "saltsalt"

abbrev at_start : Env
at_start = record { clock = 5000000; fault = λ n. none; random = drawn }

abbrev one_second : ℕ
one_second = 1000000000

abbrev password : String
password = "correct horse battery st"

abbrev kept_token : String
kept_token = "token"

abbrev no_accounts : Accounts
no_accounts = record { admins = []; last_admin_id = 0; sessions = [] }

abbrev root_row : AdminRow
root_row = record {
  id = 1;
  username = "Root";
  password_hash = "argon2id$v=19$m=65536,t=3,p=2$saltsalt$correct horse battery stsaltsalt";
  disabled = false;
  created_at_ms = 1;
  updated_at_ms = 1;
}

abbrev one_admin : Accounts
one_admin = record { admins = root_row ∷ []; last_admin_id = 1; sessions = [] }

stored_password : hash_password test_crypto "saltsalt" password ≡ root_row.password_hash
unfolding hash_password
stored_password = refl

logged_in :
    (login test_crypto at_start one_second " root " password "192.0.2.1" "curl" one_admin).0
    ≡ ok ("token", "csrf")
unfolding login login_body authenticate insert_session first trim_space verify_password split_char
logged_in = refl

abbrev opened : Accounts
opened = record one_admin {
  sessions =
      record {
        token_hash = "token";
        admin_id = 1;
        csrf_hash = "csrf";
        client_ip = "192.0.2.1";
        user_agent = "curl";
        created_at_ms = 5;
        last_seen_at_ms = 5;
        expires_at_ms = 1005;
      }
      ∷ [];
}

open_session :
    (session test_crypto at_start "token" opened).0 ≡ ok (record { id = 1; username = "Root" })
unfolding session first update_session
open_session = refl

logged_out : (logout test_crypto at_start "token" opened).0 ≡ ok tt
unfolding logout
logged_out = refl

changed :
    (change_password test_crypto at_start 1 password "longer password" "token" opened).0 ≡ ok tt
unfolding change_password change_password_body replace_password store_password first verify_password
    split_char
changed = refl

reset : (reset_password test_crypto at_start "root" "longer password" opened).0 ≡ ok tt
unfolding reset_password reset_password_body store_password first validate_credentials trim_space
reset = refl

made_first :
    (create_initial_admin test_crypto at_start "root" password no_accounts no_accounts).0 ≡ ok tt
unfolding create_initial_admin create_initial_body make_first insert_first check_created
    validate_credentials trim_space
made_first = refl

verify_password-hash_password_example :
    verify_password test_crypto password (hash_password test_crypto "saltsalt" password) ≡ true
unfolding contains_char
verify_password-hash_password_example =
    verify_password-hash_password test_crypto "saltsalt" password
      (record { decoded = refl; no_dollar = refl }) (record { decoded = refl; no_dollar = refl })
      refl

session-IsLive_example :
    IsLive test_crypto at_start "token" opened (record { id = 1; username = "Root" })
session-IsLive_example =
    session-IsLive test_crypto at_start "token" opened (record { id = 1; username = "Root" })
      open_session

login-session_example :
    (r : AdminRow) × IsAuthentic test_crypto " root " password one_admin r
    × ((a : Admin) × ((session test_crypto at_start "token"
            (login test_crypto at_start one_second " root " password "192.0.2.1" "curl"
              one_admin).1).0
          ≡ ok a)
        × (a.id ≡ r.id))
    × (verify_csrf test_crypto at_start "token" "csrf"
          (login test_crypto at_start one_second " root " password "192.0.2.1" "curl" one_admin).1
        ≡ true)
login-session_example =
    login-session test_crypto at_start one_second at_start refl " root " password "192.0.2.1" "curl"
      "token" "csrf" one_admin logged_in (omega arith)

logout-ended_example :
    (session test_crypto at_start "token" (logout test_crypto at_start "token" opened).1).0
    ≢ ok (record { id = 1; username = "Root" })
logout-ended_example =
    logout-ended test_crypto at_start "token" opened at_start (record { id = 1; username = "Root" })
      logged_out

change_password-revoked_example :
    IsChanged test_crypto at_start 1 password "longer password" "token" opened
      (change_password test_crypto at_start 1 password "longer password" "token" opened).1
    × ((later : Env) (token : String) (a : Admin)
        → (session test_crypto later token
            (change_password test_crypto at_start 1 password "longer password" "token" opened).1).0
          ≡ ok a
        → a.id ≡ 1
        → (kept_token ≢ "") × (token ≡ kept_token))
change_password-revoked_example =
    change_password-revoked test_crypto at_start 1 password "longer password" "token" opened changed

reset_password-revoked_example :
    (r : IsReset test_crypto at_start "root" "longer password" opened
      (reset_password test_crypto at_start "root" "longer password" opened).1)
    × ((later : Env) (token : String) (a : Admin)
        → (session test_crypto later token
            (reset_password test_crypto at_start "root" "longer password" opened).1).0
          ≡ ok a
        → a.id ≢ r.admin.id)
reset_password-revoked_example =
    reset_password-revoked test_crypto at_start "root" "longer password" opened reset

create_initial_admin-IsFirst_example :
    Created test_crypto at_start "root" password no_accounts
      (create_initial_admin test_crypto at_start "root" password no_accounts no_accounts)
create_initial_admin-IsFirst_example =
    create_initial_admin-IsFirst test_crypto at_start "root" password no_accounts no_accounts
