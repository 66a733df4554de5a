-- ===== src/Auth/Accounts.antt =====
-- controller/internal/auth/auth.go: administrators and sessions as tables, the environment that a method
-- runs in, and the statements.
use Prim.Native.Char.{code}
use mosdns_controller.Base.{
  ℕ, suc, ◌+◌, ◌/◌, String, Bool, true, false, not, ◌&&◌, List, [], ◌∷◌, map, keep, any, Option,
  none, some, ◌==◌, str_eq, leb, if◌then◌else◌,
}
use mosdns_controller.Go.Result.{Error, Result, ok, err, message, joined}

pub record AdminRow : Type 0 where
  pub id : ℕ
  pub username : String
  pub password_hash : String
  pub disabled : Bool
  pub created_at_ms : ℕ
  pub updated_at_ms : ℕ

pub record SessionRow : Type 0 where
  pub token_hash : String
  pub admin_id : ℕ
  pub csrf_hash : String
  pub client_ip : String
  pub user_agent : String
  pub created_at_ms : ℕ
  pub last_seen_at_ms : ℕ
  pub expires_at_ms : ℕ

pub record Accounts : Type 0 where
  pub admins : List AdminRow
  pub last_admin_id : ℕ
  pub sessions : List SessionRow

pub record Admin : Type 0 where
  pub id : ℕ
  pub username : String

-- The environment of one call: the clock in nanoseconds, the failures, and what the random source gives
-- (tokens and salts).
pub record Env : Type 0 where
  pub clock : ℕ
  pub fault : ℕ → Option Error
  pub random : ℕ → String

abbrev pub answer_of {ℓ} : {V : Type ℓ} → Option Error → V → Result V
answer_of none v = ok v
answer_of (some e) v = err e

-- The n-th call, which gives `v` if it does not fail.
abbrev pub attempt {ℓ} : {V : Type ℓ} → Env → ℕ → V → Result V
attempt env n v = answer_of (env.fault n) v

-- UnixMilli
abbrev pub milli : ℕ → ℕ
milli t = t / 1000000

-- COLLATE NOCASE
abbrev fold_letter : ℕ → ℕ
fold_letter c = if leb b'A' c && leb c b'Z' then c + 32 else c

abbrev pub same_name : String → String → Bool
same_name String.[] String.[] = true
same_name String.[] (String.◌∷◌ d t) = false
same_name (String.◌∷◌ c s) String.[] = false
same_name (String.◌∷◌ c s) (String.◌∷◌ d t) =
    fold_letter (code c) == fold_letter (code d) && same_name s t

abbrev pub invalid_credentials : Error
invalid_credentials = message "invalid credentials"

abbrev pub session_expired : Error
session_expired = message "session expired"

abbrev pub initial_admin_exists : Error
initial_admin_exists = message "an administrator already exists"

abbrev pub admin_not_found : Error
admin_not_found = message "administrator not found"

-- The first row that passes a test.
unfoldable pub first {ℓ} : {A : Type ℓ} → (A → Bool) → List A → Option A
first p [] = none
first p (x ∷ xs) = let rest = first p xs in if p x then some x else rest

abbrev pub admin_named : String → Accounts → Option AdminRow
admin_named name t = first (λ a. same_name a.username name) t.admins

abbrev pub enabled_admin : ℕ → Accounts → Option AdminRow
enabled_admin id t = first (λ a. a.id == id && not a.disabled) t.admins

abbrev pub session_of : String → Accounts → Option SessionRow
session_of hash t = first (λ s. str_eq s.token_hash hash) t.sessions

abbrev pub add_admin : ℕ → String → String → Accounts → Accounts
add_admin now name hash t = record t {
  admins =
      record {
        id = suc t.last_admin_id;
        username = name;
        password_hash = hash;
        disabled = false;
        created_at_ms = now;
        updated_at_ms = now;
      }
      ∷ t.admins;
  last_admin_id = suc t.last_admin_id;
}

-- INSERT INTO admins: a name that is there already violates UNIQUE.
unfoldable pub insert_admin : ℕ → String → String → Accounts → Result Accounts
insert_admin now name hash t =
    if any (λ a. same_name a.username name) t.admins
    then err (message "UNIQUE constraint failed: admins.username")
    else ok (add_admin now name hash t)

-- `fmt.Errorf("...: %w", err)`
abbrev pub wrap {ℓ} : {V : Type ℓ} → String → Result V → Result V
wrap m (ok v) = ok v
wrap m (err e) = err (joined (message m) e)

abbrev pub is_none {ℓ} : {A : Type ℓ} → List A → Bool
is_none [] = true
is_none (x ∷ xs) = false

-- UPDATE admins SET password_hash=?,updated_at_ms=? WHERE id=?
unfoldable pub set_password : ℕ → ℕ → String → Accounts → Accounts
set_password now id hash t = record t {
  admins =
      map (λ a. if a.id == id then record a { password_hash = hash; updated_at_ms = now } else a)
        t.admins;
}

-- DELETE FROM sessions, of the rows that pass a test.
unfoldable pub delete_sessions : (SessionRow → Bool) → Accounts → Accounts
delete_sessions p t = record t { sessions = keep (λ s. not (p s)) t.sessions }

unfoldable pub update_session : String → (SessionRow → SessionRow) → Accounts → Accounts
update_session hash f t = record t {
  sessions = map (λ s. if str_eq s.token_hash hash then f s else s) t.sessions;
}

-- A method that failed has left the tables as they were.
abbrev pub settle : Result Accounts → Accounts → Result (Unit {0}) × Accounts
settle (ok u) t = (ok tt, u)
settle (err e) t = (err e, t)

abbrev pub opened_with : String → String → Accounts → Result ((String × String) × Accounts)
opened_with token csrf t = ok ((token, csrf), t)

abbrev pub with_admin : SessionRow → Option AdminRow → Option (SessionRow × AdminRow)
with_admin s none = none
with_admin s (some a) = some (s, a)

-- `if b { return e }`
abbrev pub fail_if : Bool → Error → Result (Unit {0})
fail_if true e = err e
fail_if false e = ok tt
