-- ===== src/Rules/Tests/Publication.antt =====
-- Publications that succeed and fail.
use mosdns_controller.Base.{◌≡◌, refl, [], ◌∷◌, none, some}
use mosdns_controller.Go.Result.{message}
use mosdns_controller.Go.Text.{trim_space, to_lower, trim_suffix, contains_char, split_char}
use mosdns_controller.Rules.Normalize.{normalize}
use mosdns_controller.Rules.Validate.{
  valid_action, check_group, check_answer, check_regexp, check_rule, check_rules, validate_rules,
}
use mosdns_controller.Rules.Snapshot.{build_snapshot, sort_by, insert_by, to_wire}
use mosdns_controller.Rules.Store.{◌>>=◌, call, now, query, exec, transaction}
use mosdns_controller.Rules.Statements.{
  max_version, find_version, find_active, active_of, insert_version, update_version, mark_failed,
  supersede_active, set_active, clear_rules, insert_rule, insert_audit,
}
use mosdns_controller.Rules.Sources.{build_sets, subscription_sets}
use mosdns_controller.Rules.Targets.{targets_of, validate_route_targets}
use mosdns_controller.Rules.Publish.{
  candidate_row, version_of, rule_row, active_version, next_version, prepare, insert_rules,
  write_audit, finalize_body, finalize_with_rules, fail, activate, apply_candidate, deliver,
  publish,
}
use mosdns_controller.Rules.Publish.Guarantees.{
  Unpublished, IsPublished, publish_failed, publish_succeeded,
}
use mosdns_controller.Rules.Listing.{published-listed, ids_of, visible}
use mosdns_controller.Rules.Read.{listed_rules}
use mathlib.Core.List.{Perm}
use mosdns_controller.Rules.Tests.{block_rule, test_env, refusing_env, admin, empty_world}

published_one : (publish test_env (block_rule ∷ []) admin 0 empty_world).0.error ≡ none
unfolding publish prepare subscription_sets build_sets sort_by insert_by validate_rules check_rules
    check_rule check_group check_answer check_regexp valid_action normalize trim_space to_lower
    trim_suffix contains_char split_char build_snapshot to_wire ◌>>=◌ call now query exec
    transaction max_version find_version find_active active_of insert_version update_version
    supersede_active set_active clear_rules insert_rule insert_audit targets_of
    validate_route_targets candidate_row version_of rule_row active_version next_version
    insert_rules write_audit finalize_body finalize_with_rules activate apply_candidate deliver
published_one = refl

refused_one :
    (publish refusing_env (block_rule ∷ []) admin 0 empty_world).0.error ≡ some (message "busy")
unfolding publish prepare subscription_sets build_sets sort_by insert_by validate_rules check_rules
    check_rule check_group check_answer check_regexp valid_action normalize trim_space to_lower
    trim_suffix contains_char split_char build_snapshot to_wire ◌>>=◌ call now query exec
    max_version find_version find_active active_of insert_version update_version targets_of
    validate_route_targets candidate_row version_of active_version next_version apply_candidate
    deliver fail mark_failed
refused_one = refl

publish_succeeded_example :
    IsPublished test_env empty_world.tables
      (block_rule ∷ [])
      (publish test_env (block_rule ∷ []) admin 0 empty_world).0.version
      (publish test_env (block_rule ∷ []) admin 0 empty_world).1.tables
publish_succeeded_example =
    publish_succeeded test_env (block_rule ∷ []) admin 0 empty_world published_one

publish_failed_example :
    Unpublished empty_world.tables
      (publish refusing_env (block_rule ∷ []) admin 0 empty_world).1.tables
publish_failed_example =
    publish_failed refusing_env (block_rule ∷ []) admin 0 empty_world refused_one

published-listed_example :
    Perm
      (ids_of (listed_rules (publish test_env (block_rule ∷ []) admin 0 empty_world).1.tables))
      (ids_of (visible (block_rule ∷ [])))
published-listed_example =
    published-listed test_env empty_world.tables (block_rule ∷ [])
      (publish test_env (block_rule ∷ []) admin 0 empty_world).0.version
      (publish test_env (block_rule ∷ []) admin 0 empty_world).1.tables
      (publish_succeeded test_env (block_rule ∷ []) admin 0 empty_world published_one)
