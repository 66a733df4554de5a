-- ===== src/Auth/Passwords/Verified.antt =====
-- controller/internal/auth/auth.go: a stored password is verified by itself.
use Prim.Native.String.{◌++◌ as append}
use mosdns_controller.Base.{◌≡◌, refl, String, count, true, false, ◌∷◌, eq_iff, arith}
use mosdns_controller.Go.Text.Split.{
  nil_append, cons_append, append_assoc, split_char-whole, split_char-append,
}
use mosdns_controller.Go.Text.{contains_char, split_char}
use mosdns_controller.Auth.Passwords.{Crypto, Encodes, hash_password, verify_password}

split_char-dollar :
    (s t : String)
    → contains_char s b'$' ≡ false
    → split_char (append s (append "$" t)) b'$' ≡ s ∷ split_char t b'$'
split_char-dollar s t h = rw (cons_append, nil_append) (split_char-append s t b'$' "$" refl h)

prefix_parts :
    "argon2id$v=19$m=65536,t=3,p=2$"
    ≡ append "argon2id" (append "$" (append "v=19" (append "$" (append "m=65536,t=3,p=2" "$"))))
prefix_parts = refl

split_char-prefix :
    (x : String)
    → split_char (append "argon2id$v=19$m=65536,t=3,p=2$" x) b'$'
      ≡ "argon2id" ∷ "v=19" ∷ "m=65536,t=3,p=2" ∷ split_char x b'$'
unfolding contains_char
split_char-prefix x =
    rw
      (
        prefix_parts,
        append_assoc,
        append_assoc,
        append_assoc,
        append_assoc,
        append_assoc,
        split_char-dollar "argon2id" _ refl,
        split_char-dollar "v=19" _ refl,
        split_char-dollar "m=65536,t=3,p=2" x refl,
      )
      refl

-- The stored form of a password, with any salt, is verified by that password, if base64 encodes
-- and decodes the salt and the key, and the key has the 32 bytes that are asked for.
pub verify_password-hash_password :
    (c : Crypto) (salt password : String)
    → Encodes c salt
    → Encodes c (c.id_key password salt 32)
    → count (c.id_key password salt 32) ≡ 32
    → verify_password c password (hash_password c salt password) ≡ true
unfolding verify_password hash_password
verify_password-hash_password c salt password h k size =
    let key = c.id_key password salt 32 in
    rw
      (
        split_char-prefix _,
        split_char-dollar (c.encode salt) _ h.no_dollar,
        split_char-whole (c.encode key) b'$' k.no_dollar,
        h.decoded,
        k.decoded,
        size,
      )
      (ground (arith, eq_iff key key))
