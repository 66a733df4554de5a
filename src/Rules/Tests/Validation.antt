-- ===== src/Rules/Tests/Validation.antt =====
-- Lists of rules that are accepted.
use Prim.Native.String.{◌++◌ as append}
use mosdns_controller.Base.{◌≡◌, refl, [], ◌∷◌}
use mosdns_controller.Go.Text.{trim_space, to_lower, trim_suffix, contains_char, split_char}
use mosdns_controller.Rules.Types.{Rule}
use mosdns_controller.Rules.Normalize.{normalize}
use mosdns_controller.Rules.Validate.{
  valid_action, check_group, check_answer, check_regexp, check_rule, check_rules, validate_rules,
}
use mosdns_controller.Rules.Snapshot.{build_snapshot, to_wire}
use mathlib.Core.List.{Perm}
use mosdns_controller.Rules.Tests.{block_rule}
use mosdns_controller.Base.{◌≤◌, keep, map, All, arith}
use mosdns_controller.Base.{length}
use mosdns_controller.Rules.Validate.Sound.{
  IsWellFormed, SameRules, Distinct, count_regexps, validate_rules_sound, validate_rules_complete,
}
use mosdns_controller.Go.Result.{ok}
use mosdns_controller.Rules.Snapshot.Order.{Ordered, build_snapshot-rules}
use mosdns_controller.Rules.Tests.{test_library}

abbrev normal_rule : Rule
normal_rule = record block_rule { pattern = "ads.example" }

checked_one : check_rule test_library block_rule ≡ ok normal_rule
unfolding check_rule check_group check_answer check_regexp valid_action normalize trim_space
    to_lower trim_suffix contains_char split_char
checked_one = refl

accepted_one : validate_rules test_library (block_rule ∷ []) ≡ ok (normal_rule ∷ [])
unfolding validate_rules check_rules check_rule check_group check_answer check_regexp valid_action
    normalize trim_space to_lower trim_suffix contains_char split_char
accepted_one = refl

validate_rules_sound_example :
    (length (block_rule ∷ []) ≤ 200000)
    × All (IsWellFormed test_library) (normal_rule ∷ [])
    × SameRules (block_rule ∷ []) (normal_rule ∷ [])
    × Distinct (normal_rule ∷ [])
    × (count_regexps (normal_rule ∷ []) ≤ 500)
validate_rules_sound_example = validate_rules_sound test_library (block_rule ∷ []) accepted_one

validate_rules_complete_example :
    validate_rules test_library (block_rule ∷ []) ≡ ok (normal_rule ∷ [])
validate_rules_complete_example =
    validate_rules_complete test_library (block_rule ∷ []) (normal_rule ∷ []) (ground arith)
      (checked_one, tt) (tt, tt) (ground arith)

build_snapshot-rules_example :
    let s = build_snapshot (λ c. "c") 9 2 1 (block_rule ∷ []) [] in
    Perm s.rules (map to_wire (keep (λ r. r.enabled) (block_rule ∷ [])))
    × Ordered s.rules
    × (s.subscription_sets ≡ [])
    × (s.checksum ≡ append "sha256:" "c")
build_snapshot-rules_example = build_snapshot-rules (λ c. "c") 9 2 1 (block_rule ∷ []) []
