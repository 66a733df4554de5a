-- ===== src/Rules/Parsing.antt =====
-- controller/internal/rules/subscriptions.go: parseSubscription, for a body that is valid UTF-8.
pub mod Sound
use mosdns_controller.Base.{
  ℕ, String, len, Bool, true, false, ◌||◌, List, [], ◌∷◌, ltb, str_eq, starts_with, if◌then◌else◌,
}
use mosdns_controller.Go.Text.{trim_space, trim_suffix, split_char, text_mem}
use mosdns_controller.Go.Result.{Error, Result, ok, err, ◌>>=◌, ◌>>◌, reject_if}
use mosdns_controller.Rules.Normalize.{Library, normalize}

-- strings.TrimSpace(strings.TrimSuffix(raw, "\r"))
unfoldable pub line_of : String → String
line_of raw = trim_space (trim_suffix raw "\r")

abbrev pub is_skipped : String → Bool
is_skipped raw = str_eq (line_of raw) "" || starts_with (line_of raw) "#"

abbrev is_nil : List String → Bool
is_nil [] = true
is_nil (x ∷ xs) = false

abbrev pub prepend : String → Result (List String) → Result (List String)
prepend p (ok ps) = ok (p ∷ ps)
prepend p (err e) = err e

module _ (lib : Library) where
  abbrev pub pattern_of : String → Result String
  pattern_of raw = normalize lib (line_of raw) "domain"

  -- The loop: `seen` holds the patterns of the lines before.
  unfoldable pub parse_lines : List String → List String → Result (List String)
  parse_lines seen [] = ok []
  parse_lines seen (raw ∷ rest) = elim (is_skipped raw) [
    | true ↦ parse_lines seen rest
    | false ↦ elim (pattern_of raw) [
      | err e ↦ err e
      | ok p ↦ elim (text_mem p seen) [
        | true ↦ parse_lines seen rest
        | false ↦ prepend p (parse_lines (p ∷ seen) rest)
      ]
    ]
  ]

  -- parseSubscription
  unfoldable pub parse_subscription : String → Result (List String)
  parse_subscription body = do
    reject_if (str_eq body "" || ltb 20971520 (len body))
        "subscription file must contain 1..20971520 bytes"
    patterns ← parse_lines [] (split_char body b'\n')
    reject_if (is_nil patterns) "subscription file contains no domains"
    ok patterns
