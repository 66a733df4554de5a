-- ===== src/Auth/Sessions.antt =====
-- controller/internal/auth/auth.go: administrators and their sessions. A method is a function of the
-- tables; its calls of the database, of the random source and of the semaphore are numbered, and the
-- environment decides which of them fail.
pub mod Sound
pub mod Opened
pub mod Revoked
pub mod Initial
use Prim.Native.Char.{Char, code}
use mosdns_controller.Base.{
  ℕ, suc, ◌+◌, ◌/◌, String, len, Bool, true, false, not, ◌||◌, ◌&&◌, List, [], ◌∷◌, map, keep, any,
  Option, none, some, ◌==◌, str_eq, ltb, leb, if◌then◌else◌,
}
use mosdns_controller.Go.Text.{trim_space}
use mosdns_controller.Go.Result.{
  Error, Result, ok, err, message, joined, or_fail, reject_if, ◌>>=◌, ◌>>◌,
}
use mosdns_controller.Auth.Passwords.{Crypto, validate_credentials, hash_password, verify_password}
use mosdns_controller.Auth.Accounts.{
  AdminRow, SessionRow, Accounts, Admin, Env, answer_of, attempt, milli, same_name,
  invalid_credentials, session_expired, initial_admin_exists, admin_not_found, first, admin_named,
  enabled_admin, session_of, add_admin, insert_admin, wrap, is_none, set_password, delete_sessions,
  update_session, settle, opened_with, with_admin, fail_if,
}

module _ (c : Crypto) (env : Env) where
  -- hashPassword: the semaphore, and then the salt.
  abbrev pub hash_in : ℕ → String → Result String
  hash_in n password = do
    attempt env n tt
    attempt env (suc n) (hash_password c (env.random (suc n)) password)

  unfoldable pub create_admin_body : String → String → Accounts → Result Accounts
  create_admin_body username password t = do
    name ← validate_credentials username password
    hash ← hash_in 0 password
    wrap "create admin" (attempt env 2 t >>= insert_admin (milli env.clock) name hash)

  -- CreateAdmin
  unfoldable pub create_admin : String → String → Accounts → Result (Unit {0}) × Accounts
  unfolding create_admin_body
  create_admin username password t = settle (create_admin_body username password t) t

  -- INSERT ... WHERE NOT EXISTS (SELECT 1 FROM admins), and the number of rows that it adds.
  unfoldable pub insert_first : String → String → Accounts → ℕ × Accounts
  insert_first name hash t =
      if is_none t.admins then (1, add_admin (milli env.clock) name hash t) else (0, t)

  -- RowsAffected, and what its number says.
  unfoldable pub check_created : ℕ → Result (Unit {0})
  check_created n = do
    created ← wrap "check initial admin creation" (attempt env 4 n)
    fail_if (created == 0) initial_admin_exists

  abbrev pub answer_created : ℕ × Accounts → Result (Unit {0}) × Accounts
  answer_created (n, t) = (check_created n, t)

  -- An error before the statement, or what the method answers after it, with its tables.
  unfoldable pub make_first : String → String → Accounts → Result (Result (Unit {0}) × Accounts)
  unfolding insert_first check_created
  make_first username password late = do
    name ← validate_credentials username password
    hash ← hash_in 1 password
    wrap "create initial admin" (attempt env 3 tt)
    ok (answer_created (insert_first name hash late))

  -- The insertion is on the tables of its moment: `late` has what other calls did since the first query.
  unfoldable pub create_initial_body :
      String → String → Accounts → Accounts → Result (Result (Unit {0}) × Accounts)
  unfolding make_first
  create_initial_body username password t late = do
    required ← attempt env 0 (is_none t.admins)
    fail_if (not required) initial_admin_exists
    make_first username password late

  abbrev pub left_by :
      Accounts → Result (Result (Unit {0}) × Accounts) → Result (Unit {0}) × Accounts
  left_by late (ok p) = p
  left_by late (err e) = (err e, late)

  -- CreateInitialAdmin
  unfoldable pub create_initial_admin :
      String → String → Accounts → Accounts → Result (Unit {0}) × Accounts
  unfolding create_initial_body
  create_initial_admin username password t late =
      left_by late (create_initial_body username password t late)

  -- Logout
  unfoldable pub logout : String → Accounts → Result (Unit {0}) × Accounts
  logout token t =
      settle (attempt env 0 (delete_sessions (λ s. str_eq s.token_hash (c.digest token)) t)) t

  -- RefreshCSRF
  unfoldable pub refresh_csrf : String → Accounts → Result String × Accounts
  refresh_csrf token t =
      let csrf = c.encode_url (env.random 0) in
      let live =
        any (λ s. str_eq s.token_hash (c.digest token) && ltb (milli env.clock) s.expires_at_ms)
          t.sessions in
      elim (env.fault 0) [
        | some e ↦ (err e, t)
        | none ↦ elim (env.fault 1) [
          | some e ↦ (err e, t)
          | none ↦
              let stored =
                if live
                then update_session (c.digest token) (λ s. record s { csrf_hash = c.digest csrf }) t
                else t in
              (attempt env 2 tt >> (if live then ok csrf else err session_expired), stored)
        ]
      ]

  abbrev pub same_csrf : String → Result (Option SessionRow) → Bool
  same_csrf csrf (err e) = false
  same_csrf csrf (ok none) = false
  same_csrf csrf (ok (some s)) = str_eq s.csrf_hash (c.digest csrf)

  -- VerifyCSRF
  unfoldable pub verify_csrf : String → String → Accounts → Bool
  verify_csrf token csrf t = same_csrf csrf (
      attempt env 0 (
        first (λ s. str_eq s.token_hash (c.digest token) && ltb (milli env.clock) s.expires_at_ms)
          t.sessions))

  -- SELECT ... FROM sessions s JOIN admins a ON a.id=s.admin_id WHERE s.token_hash=? AND a.disabled=0
  abbrev pub join_admin : Accounts → Option SessionRow → Option (SessionRow × AdminRow)
  join_admin t none = none
  join_admin t (some s) = with_admin s (enabled_admin s.admin_id t)

  -- What Session does with the row that it found; a failure of the calls that remain is ignored.
  abbrev pub judge : String → Accounts → Option (SessionRow × AdminRow) → Result Admin × Accounts
  judge token t none = (err session_expired, t)
  judge token t (some (s, a)) =
      if leb s.expires_at_ms (milli env.clock)
      then (
        err session_expired,
        (settle (attempt env 1 (delete_sessions (λ s. str_eq s.token_hash (c.digest token)) t))
            t).1,
      )
      else (
        ok (record { id = a.id; username = a.username }),
        (settle
            (attempt env 1 (
              update_session (c.digest token) (λ s. record s { last_seen_at_ms = milli env.clock })
                t))
            t).1,
      )

  abbrev pub after_lookup : String → Accounts → Option Error → Result Admin × Accounts
  after_lookup token t (some e) = (err e, t)
  after_lookup token t none = judge token t (join_admin t (session_of (c.digest token) t))

  -- Session
  unfoldable pub session : String → Accounts → Result Admin × Accounts
  session token t = after_lookup token t (env.fault 0)

  -- The sessions that a change of password deletes: all of the administrator but the one it came with.
  abbrev pub revoked : ℕ → String → SessionRow → Bool
  revoked id kept s =
      s.admin_id == id && (str_eq kept "" || not (str_eq s.token_hash (c.digest kept)))

  -- The transaction of a new password: the calls from the n-th on are the update, the deletion and the
  -- commit.
  unfoldable pub store_password : ℕ → ℕ → (SessionRow → Bool) → String → Accounts → Result Accounts
  store_password n id gone hash t = do
    changed ← attempt env n (set_password (milli env.clock) id hash t)
    cleared ← attempt env (n + 1) (delete_sessions gone changed)
    attempt env (n + 2) cleared

  abbrev pub check_found : String → Option Error → Option AdminRow → Result (Unit {0})
  check_found current (some e) found = err invalid_credentials
  check_found current none none = err invalid_credentials
  check_found current none (some a) =
      attempt env 1 (verify_password c current a.password_hash) >>= λ verified.
      fail_if (not verified) invalid_credentials

  unfoldable pub replace_password : ℕ → String → String → Accounts → Result Accounts
  unfolding store_password
  replace_password id next kept t = do
    hash ← hash_in 2 next
    attempt env 4 tt
    store_password 5 id (revoked id kept) hash t

  unfoldable pub change_password_body : ℕ → String → String → String → Accounts → Result Accounts
  unfolding replace_password
  change_password_body id current next kept t = do
    reject_if (ltb (len next) 8) "password must be at least 8 characters"
    check_found current (env.fault 0) (enabled_admin id t)
    replace_password id next kept t

  -- ChangePasswordKeepingSession; ChangePassword calls it with no session.
  unfoldable pub change_password :
      ℕ → String → String → String → Accounts → Result (Unit {0}) × Accounts
  unfolding change_password_body
  change_password id current next kept t = settle (change_password_body id current next kept t) t

  abbrev pub reset_named : String → Accounts → Option Error → Option AdminRow → Result Accounts
  reset_named hash t (some e) found = err e
  reset_named hash t none none = err admin_not_found
  reset_named hash t none (some a) = store_password 4 a.id (λ s. s.admin_id == a.id) hash t

  unfoldable pub reset_password_body : String → String → Accounts → Result Accounts
  reset_password_body username next t = do
    name ← validate_credentials username next
    hash ← hash_in 0 next
    attempt env 2 tt
    reset_named hash t (env.fault 3) (admin_named name t)

  -- ResetPassword
  unfoldable pub reset_password : String → String → Accounts → Result (Unit {0}) × Accounts
  unfolding reset_password_body
  reset_password username next t = settle (reset_password_body username next t) t

  module _ (ttl : ℕ) where
    -- The tests of Login up to the tokens.
    unfoldable pub authenticate : String → String → Accounts → Result AdminRow
    authenticate username password t = do
      found ← elim (env.fault 0) [
        | some e ↦ err invalid_credentials
        | none ↦ or_fail (admin_named (trim_space username) t) invalid_credentials
      ]
      fail_if found.disabled invalid_credentials
      verified ← attempt env 1 (verify_password c password found.password_hash)
      fail_if (not verified) invalid_credentials
      ok found

    abbrev pub session_row : ℕ → String → String → String → String → SessionRow
    session_row id token csrf client_ip user_agent = record {
      token_hash = c.digest token;
      admin_id = id;
      csrf_hash = c.digest csrf;
      client_ip = client_ip;
      user_agent = user_agent;
      created_at_ms = milli env.clock;
      last_seen_at_ms = milli env.clock;
      expires_at_ms = milli (env.clock + ttl);
    }

    -- INSERT INTO sessions, where token_hash is the primary key.
    unfoldable pub insert_session : SessionRow → Accounts → Result Accounts
    insert_session s t =
        if any (λ r. str_eq r.token_hash s.token_hash) t.sessions
        then err (message "UNIQUE constraint failed: sessions.token_hash")
        else ok (record t { sessions = s ∷ t.sessions })

    unfoldable pub login_body :
        String → String → String → String → Accounts → Result ((String × String) × Accounts)
    unfolding authenticate
    login_body username password client_ip user_agent t = do
      found ← authenticate username password t
      token ← attempt env 2 (c.encode_url (env.random 2))
      csrf ← attempt env 3 (c.encode_url (env.random 3))
      opened ← wrap "create session" (
          attempt env 4 t >>= insert_session (session_row found.id token csrf client_ip user_agent))
      opened_with token csrf opened

    -- Login: the token and the CSRF token of the new session.
    unfoldable pub login :
        String → String → String → String → Accounts → Result (String × String) × Accounts
    unfolding login_body
    login username password client_ip user_agent t =
        elim (login_body username password client_ip user_agent t) [
          | err e ↦ (err e, t)
          | ok r ↦ (ok r.0, r.1)
        ]
