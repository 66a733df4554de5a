-- ===== src/Rules/Tests/Parsing.antt =====
-- A list of domains that is parsed.
use mosdns_controller.Base.{◌≡◌, ◌≢◌, ◌≤◌, refl, String, len, All, List, [], ◌∷◌}
use mosdns_controller.Go.Text.{trim_space, to_lower, trim_suffix, contains_char, split_char}
use mosdns_controller.Go.Result.{ok}
use mosdns_controller.Rules.Normalize.{normalize}
use mosdns_controller.Rules.Parsing.{line_of, parse_lines, parse_subscription}
use mosdns_controller.Rules.Parsing.Sound.{
  DistinctTexts, FromLine, Covered, parse_subscription_sound,
}
use mosdns_controller.Rules.Tests.{test_library}

abbrev some_body : String
some_body = "# ads\na.example\n\nb.example.\r\na.example\n"

abbrev some_domains : List String
some_domains = "a.example" ∷ "b.example" ∷ []

parses : parse_subscription test_library some_body ≡ ok some_domains
unfolding parse_subscription parse_lines line_of normalize trim_space to_lower trim_suffix
    contains_char split_char
parses = refl

parse_subscription_sound_example :
    (some_domains ≢ [])
    × DistinctTexts some_domains
    × Covered test_library (split_char some_body b'\n') [] some_domains
    × All (FromLine test_library (split_char some_body b'\n')) some_domains
    × (len some_body ≤ 20971520)
parse_subscription_sound_example = parse_subscription_sound test_library some_body parses
