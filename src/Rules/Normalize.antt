-- ===== src/Rules/Normalize.antt =====
-- controller/internal/rules/service.go: the normal form of a pattern, and of a list of addresses.
pub mod Addresses
use Prim.Native.Char.{Char}
use mosdns_controller.Base.{
  String, len, Bool, true, false, not, ◌&&◌, ◌||◌, List, [], ◌∷◌, length, ltb, str_eq,
  if◌then◌else◌, any,
}
use mosdns_controller.Go.Text.{
  trim_space, to_lower, trim_suffix, contains_char, split_char, text_mem, sort_texts,
}
use mosdns_controller.Go.Result.{Error, Result, ok, err, message, ◌>>=◌, ◌>>◌, reject_if}

-- netip.Addr, as far as it is read: Is4 and String.
pub record Address : Type 0 where
  pub is4 : Bool
  pub text : String

-- The functions outside the repository, or of parts of Go's library that are not modelled: the
-- rune mapping of unicode.ToLower, idna.Lookup.ToASCII, netip.ParseAddr and regexp.Compile.
pub record Library : Type 0 where
  pub rune_lower : Char → Char
  pub to_ascii : String → Result String
  pub parse_addr : String → Result Address
  pub compile : String → Result (Unit {0})

abbrev bad_label : String → Bool
bad_label l = str_eq l "" || ltb 63 (len l)

module _ (lib : Library) where
  -- normalize
  unfoldable pub normalize : String → String → Result String
  normalize pattern match_type =
      let p = trim_space pattern in
      if str_eq match_type "regexp"
      then (do reject_if (str_eq p "") "regexp is empty"; ok p)
      else (do
        reject_if (not (str_eq match_type "full") && not (str_eq match_type "domain"))
            "invalid match type"
        let q = trim_suffix (to_lower lib.rune_lower p) "."
        reject_if (str_eq q "" || contains_char q b'*') "invalid domain pattern"
        ascii ← lib.to_ascii q
        reject_if (ltb 253 (len ascii)) "invalid domain length"
        reject_if (any bad_label (split_char ascii b'.')) "invalid domain label"
        ok (to_lower lib.rune_lower ascii))

  abbrev bad_address : Bool → Error
  bad_address true = message "invalid IPv4 address"
  bad_address false = message "invalid IPv6 address"

  abbrev pub parse_family : Bool → String → Result String
  parse_family want4 value = elim (lib.parse_addr (trim_space value)) [
    | ok addr ↦ if same addr.is4 want4 then ok addr.text else err (bad_address want4)
    | err _ ↦ err (bad_address want4)
  ]
    where
      same : Bool → Bool → Bool
      same true b = b
      same false b = not b

  -- The loop of normalizeIPs; `out` holds the addresses seen, the latest first.
  unfoldable pub collect_addresses : Bool → List String → List String → Result (List String)
  collect_addresses want4 out [] = ok out
  collect_addresses want4 out (value ∷ values) = do
    n ← parse_family want4 value
    collect_addresses want4 (if text_mem n out then out else n ∷ out) values

  -- normalizeIPs
  unfoldable pub normalize_ips : List String → Bool → Result (List String)
  normalize_ips values want4 = do
    reject_if (ltb 16 (length values)) "address family exceeds 16 entries"
    out ← collect_addresses want4 [] values
    ok (sort_texts out)
