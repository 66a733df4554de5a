-- ===== src/Rules/Tests/Editing.antt =====
-- Requests that succeed and fail, and a life of the service.
use mosdns_controller.Base.{true, false, ◌≡◌, refl, [], none, some}
use mosdns_controller.Go.Text.{trim_space, to_lower, trim_suffix, contains_char, split_char}
use mosdns_controller.Rules.Types.{Rule}
use mosdns_controller.Rules.Normalize.{normalize}
use mosdns_controller.Rules.Validate.{
  valid_action, check_group, check_answer, check_regexp, check_rule, check_rules, validate_rules,
}
use mosdns_controller.Rules.Snapshot.{build_snapshot, sort_by, insert_by, to_wire}
use mosdns_controller.Rules.Store.{◌>>=◌, call, now, query, exec, transaction}
use mosdns_controller.Rules.Statements.{
  max_version, find_version, find_active, active_of, insert_version, update_version,
  supersede_active, set_active, clear_rules, insert_rule, insert_audit,
}
use mosdns_controller.Rules.Sources.{build_sets, subscription_sets}
use mosdns_controller.Rules.Targets.{targets_of, validate_route_targets}
use mosdns_controller.Rules.Publish.{
  candidate_row, version_of, rule_row, active_version, next_version, prepare, insert_rules,
  write_audit, finalize_body, finalize_with_rules, activate, apply_candidate, deliver, publish,
}
use mosdns_controller.Rules.Read.{listed_rules}
use mosdns_controller.Rules.Tests.{block_rule, test_env, admin, empty_world}
use mosdns_controller.Go.Result.{no_rows}
use mosdns_controller.Rules.Read.{
  is_subscription_rule, all_rules, reserve_rule_ids, next_rule_id, ids_after, last_id, like_prefix,
}
use mosdns_controller.Rules.Targets.{expected_version, validate_route_write}
use mosdns_controller.Rules.Edit.{
  create_rule, delete_rule, handle, create, created_rules, delete, remaining_rules, remove_rule,
}
use mosdns_controller.Rules.Edit.Guarantees.{Untouched, Publishes}
use mosdns_controller.Rules.Edit.Requests.{Asks, request_succeeded, request_failed}

created_one : (handle test_env (create_rule block_rule) admin empty_world).0.error ≡ none
unfolding publish prepare subscription_sets build_sets sort_by insert_by validate_rules check_rules
    check_rule check_group check_answer check_regexp valid_action normalize trim_space to_lower
    trim_suffix contains_char split_char build_snapshot to_wire ◌>>=◌ call now query exec
    transaction max_version find_version find_active active_of insert_version update_version
    supersede_active set_active clear_rules insert_rule insert_audit targets_of
    validate_route_targets candidate_row version_of rule_row active_version next_version
    insert_rules write_audit finalize_body finalize_with_rules activate apply_candidate deliver
    handle create created_rules is_subscription_rule all_rules listed_rules reserve_rule_ids
    next_rule_id ids_after last_id expected_version validate_route_write
created_one = refl

missing_one : (handle test_env (delete_rule 7) admin empty_world).0.error ≡ some no_rows
unfolding handle delete remaining_rules all_rules listed_rules sort_by remove_rule query ◌>>=◌
missing_one = refl

request_succeeded_example :
    Publishes test_env
      (Asks (create_rule block_rule) empty_world.tables)
      empty_world.tables
      (handle test_env (create_rule block_rule) admin empty_world).0.version
      (handle test_env (create_rule block_rule) admin empty_world).1.tables
request_succeeded_example =
    request_succeeded test_env admin empty_world (create_rule block_rule) created_one

request_failed_example :
    Untouched empty_world.tables (handle test_env (delete_rule 7) admin empty_world).1.tables
request_failed_example = request_failed test_env admin empty_world (delete_rule 7) missing_one

-- A rule whose source has a capital letter is no subscription's rule by the one test, and not
-- listed by the other.
abbrev capital_rule : Rule
capital_rule = record block_rule { source = "Subscription:mine" }

capital_source :
    (is_subscription_rule capital_rule ≡ false)
    × (like_prefix capital_rule.source "subscription:" ≡ true)
unfolding is_subscription_rule like_prefix
capital_source = (refl, refl)

capital_lost :
    listed_rules (handle test_env (create_rule capital_rule) admin empty_world).1.tables ≡ []
unfolding publish prepare subscription_sets build_sets sort_by insert_by validate_rules check_rules
    check_rule check_group check_answer check_regexp valid_action normalize trim_space to_lower
    trim_suffix contains_char split_char build_snapshot to_wire ◌>>=◌ call now query exec
    transaction max_version find_version find_active active_of insert_version update_version
    supersede_active set_active clear_rules insert_rule insert_audit targets_of
    validate_route_targets candidate_row version_of rule_row active_version next_version
    insert_rules write_audit finalize_body finalize_with_rules activate apply_candidate deliver
    handle create created_rules is_subscription_rule all_rules listed_rules reserve_rule_ids
    next_rule_id ids_after last_id expected_version validate_route_write like_prefix
capital_lost = refl
