-- ===== src/Rules/Validate.antt =====
-- controller/internal/rules/service.go: validateRules and what it checks of one rule.
pub mod Sound
use Prim.Native.String.{◌++◌ as append}
use mosdns_controller.Base.{
  ℕ, String, len, count, Bool, true, false, not, ◌&&◌, ◌||◌, List, [], ◌∷◌, length, ltb, ◌==◌,
  str_eq, if◌then◌else◌, suc,
}
use mosdns_controller.Go.Int.{pos, lt}
use mosdns_controller.Go.Text.{trim_space, text_mem}
use mosdns_controller.Go.Result.{Result, ok, ◌>>=◌, ◌>>◌, reject_if}
use mosdns_controller.Rules.Types.{Rule}
use mosdns_controller.Rules.Normalize.{Library, normalize, normalize_ips}

-- validAction
unfoldable pub valid_action : String → String → Bool
valid_action category action =
    str_eq category "access" && (str_eq action "allow" || str_eq action "block")
    || str_eq category "route" && str_eq action "upstream"
    || str_eq category "logging" && str_eq action "no_log"
    || str_eq category "answer" && str_eq action "static"

-- The key by which two rules of one list are duplicates.
abbrev pub key_of : Rule → String
key_of r = append r.category (append "\0" (append r.match_type (append "\0" r.pattern)))

abbrev is_nil : List String → Bool
is_nil [] = true
is_nil (x ∷ xs) = false

abbrev pub is_route : Rule → Bool
is_route r = str_eq r.category "route"

-- The checks of the upstream group: a route rule keeps its trimmed group, others have none.
unfoldable pub check_group : Rule → Result Rule
check_group r =
    if is_route r
    then (do
      let group = trim_space r.upstream_group_id
      reject_if (str_eq group "") "route rules require upstream_group_id"
      ok (record r { upstream_group_id = group }))
    else (do
      reject_if (not (str_eq (trim_space r.upstream_group_id) ""))
          "only route rules may include upstream_group_id"
      ok r)

abbrev pub regexp_step : Rule → ℕ → ℕ
regexp_step r n = if str_eq r.match_type "regexp" then suc n else n

module _ (lib : Library) where
  -- The checks of the static answer.
  unfoldable pub check_answer : Rule → Result Rule
  check_answer r =
      if str_eq r.category "answer"
      then (do
        reject_if (ltb r.ttl 1 || ltb 86400 r.ttl) "ttl must be between 1 and 86400"
        ipv4 ← normalize_ips lib r.ipv4_addresses true
        ipv6 ← normalize_ips lib r.ipv6_addresses false
        reject_if (is_nil ipv4 && is_nil ipv6) "static answer requires at least one address"
        ok (record r { ipv4_addresses = ipv4; ipv6_addresses = ipv6 }))
      else (do
        reject_if
            (not (is_nil r.ipv4_addresses) || not (is_nil r.ipv6_addresses) || not (r.ttl == 0))
            "address fields are only valid for answer rules"
        ok r)

  -- The length of a regular expression, and that it compiles.
  unfoldable pub check_regexp : Rule → Result Rule
  check_regexp r =
      if str_eq r.match_type "regexp"
      then (do
        reject_if (ltb 512 (len r.pattern)) "regexp exceeds 512 bytes"
        lib.compile r.pattern
        ok r)
      else ok r

  -- The body of the loop of validateRules, up to the duplicate check: the rule in normal form.
  unfoldable pub check_rule : Rule → Result Rule
  check_rule r = do
    reject_if (lt r.priority (pos 0) || lt (pos 1000) r.priority)
        "priority must be between 0 and 1000"
    reject_if (ltb 500 (count r.comment)) "comment exceeds 500 characters"
    reject_if (not (valid_action r.category r.action)) "invalid category/action"
    grouped ← check_group r
    answered ← check_answer grouped
    n ← normalize lib answered.pattern answered.match_type
    check_regexp (record answered { pattern = n })

  -- The loop: `seen` holds the keys of the rules before, `regexps` counts the regular expressions.
  unfoldable pub check_rules : List String → ℕ → List Rule → Result (List Rule)
  check_rules seen regexps [] = do reject_if (ltb 500 regexps) "regexp rule limit exceeded"; ok []
  check_rules seen regexps (r ∷ rs) = do
    r' ← check_rule r
    reject_if (text_mem (key_of r') seen) "duplicate rule pattern in category"
    rest ← check_rules (key_of r' ∷ seen) (regexp_step r' regexps) rs
    ok (r' ∷ rest)

  -- validateRules: it rewrites the rules in place, so the model returns them.
  unfoldable pub validate_rules : List Rule → Result (List Rule)
  validate_rules rules = do
    reject_if (ltb 200000 (length rules)) "rule limit exceeded"
    check_rules [] 0 rules
