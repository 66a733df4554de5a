-- ===== src/Auth/Passwords.antt =====
-- controller/internal/auth/auth.go: how passwords are stored (hashPassword, verifyPassword,
-- validateCredentials).
pub mod Verified
use Prim.Native.String.{◌++◌ as append}
use mosdns_controller.Base.{
  ℕ, ◌≡◌, String, len, count, Bool, true, false, not, ◌||◌, ◌&&◌, List, [], ◌∷◌, Option, none, some,
  str_eq, ltb, if◌then◌else◌,
}
use mosdns_controller.Go.Text.{contains_char, split_char, trim_space}
use mosdns_controller.Go.Result.{Result, ok, err, message}

-- What the code calls: SHA-256, Argon2id with the parameters that it always passes, and
-- base64.RawStdEncoding and RawURLEncoding. Bytes are the code points of a text.
pub record Crypto : Type 0 where
  pub digest : String → String
  pub id_key : String → String → ℕ → String
  pub encode : String → String
  pub decode : String → Option String
  pub encode_url : String → String

-- What the code relies on for the bytes `s`: base64 decodes what it encodes, and its letters are no
-- dollar signs.
pub record Encodes (c : Crypto) (s : String) : Type 0 where
  pub decoded : c.decode (c.encode s) ≡ some s
  pub no_dollar : contains_char (c.encode s) b'$' ≡ false

-- validateCredentials: the name without the space around it.
unfoldable pub validate_credentials : String → String → Result String
validate_credentials username password =
    let name = trim_space username in
    if ltb (len name) 3 || ltb 64 (len name) || ltb (len password) 8
    then err (message "username must be 3-64 characters and password at least 8 characters")
    else ok name

module _ (c : Crypto) where
  -- hashPassword, for a salt that was drawn.
  unfoldable pub hash_password : String → String → String
  hash_password salt password =
      append "argon2id$v=19$m=65536,t=3,p=2$"
        (append (c.encode salt) (append "$" (c.encode (c.id_key password salt 32))))

  abbrev pub compare_key : String → Option String → Option String → Bool
  compare_key password (some salt) (some expected) =
      str_eq expected (c.id_key password salt (count expected))
  compare_key password (some salt) none = false
  compare_key password none expected = false

  -- What verifyPassword does with the parts.
  abbrev pub verify_parts : String → List String → Bool
  verify_parts password (name ∷ version ∷ cost ∷ salt ∷ key ∷ []) =
      if not (str_eq name "argon2id") || not (str_eq cost "m=65536,t=3,p=2")
      then false
      else compare_key password (c.decode salt) (c.decode key)
  verify_parts password _ = false

  -- verifyPassword
  unfoldable pub verify_password : String → String → Bool
  verify_password password encoded = verify_parts password (split_char encoded b'$')
