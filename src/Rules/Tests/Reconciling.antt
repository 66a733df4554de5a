-- ===== src/Rules/Tests/Reconciling.antt =====
-- Rounds of Reconcile.
use mosdns_controller.Base.{◌≡◌, refl, [], ◌∷◌, none}
use mosdns_controller.Go.Text.{trim_space, to_lower, trim_suffix, contains_char, split_char}
use mosdns_controller.Rules.Normalize.{normalize}
use mosdns_controller.Rules.Validate.{
  valid_action, check_group, check_answer, check_regexp, check_rule, check_rules, validate_rules,
}
use mosdns_controller.Rules.Snapshot.{build_snapshot, sort_by, insert_by, to_wire}
use mosdns_controller.Rules.Store.{◌>>=◌, call, now, query, exec, transaction}
use mosdns_controller.Rules.Statements.{
  max_version, find_version, find_active, active_of, insert_version, update_version,
  supersede_active, set_active, clear_rules, insert_rule, insert_audit,
}
use mosdns_controller.Rules.Sources.{build_sets, subscription_sets}
use mosdns_controller.Rules.Targets.{targets_of, validate_route_targets}
use mosdns_controller.Rules.Publish.{
  candidate_row, version_of, rule_row, active_version, next_version, prepare, insert_rules,
  write_audit, finalize_body, finalize_with_rules, activate, apply_candidate, deliver, publish,
}
use mosdns_controller.Rules.Read.{listed_rules}
use mosdns_controller.Rules.Tests.{block_rule, test_env, admin, empty_world}
use mosdns_controller.Rules.Store.{World}
use mosdns_controller.Rules.Statements.{mark_unknown}
use mosdns_controller.Rules.Publish.{resolve_unknown}
use mosdns_controller.Rules.Read.{all_rules}
use mosdns_controller.Rules.Reconcile.{
  sets_eq, find_candidate, republish, finalize, adopt_candidate, compare_sources, reconcile_active,
  reconcile, unchanged, matched_candidate, republished,
}
use mosdns_controller.Rules.Reconcile.Guarantees.{
  RunsActive, Adopts, Reissues, reconcile_unchanged, reconcile_matched, reconcile_republished,
}
use mosdns_controller.Rules.Tests.{silent_env, fresh_env}

-- After one publication.
abbrev published_world : World
published_world = (publish test_env (block_rule ∷ []) admin 0 empty_world).1

-- After one whose outcome is unknown.
abbrev unknown_world : World
unknown_world = (publish silent_env (block_rule ∷ []) admin 0 empty_world).1

keeps_published :
    (reconcile test_env published_world).0 ≡ record { state = unchanged; error = none }
unfolding publish prepare subscription_sets build_sets sort_by insert_by validate_rules check_rules
    check_rule check_group check_answer check_regexp valid_action normalize trim_space to_lower
    trim_suffix contains_char split_char build_snapshot to_wire ◌>>=◌ call now query exec
    transaction max_version find_version find_active active_of insert_version update_version
    supersede_active set_active clear_rules insert_rule insert_audit targets_of
    validate_route_targets candidate_row version_of rule_row active_version next_version
    insert_rules write_audit finalize_body finalize_with_rules activate apply_candidate deliver
    reconcile reconcile_active compare_sources find_candidate sets_eq
keeps_published = refl

adopts_unknown :
    (reconcile test_env unknown_world).0 ≡ record { state = matched_candidate; error = none }
unfolding publish prepare subscription_sets build_sets sort_by insert_by validate_rules check_rules
    check_rule check_group check_answer check_regexp valid_action normalize trim_space to_lower
    trim_suffix contains_char split_char build_snapshot to_wire ◌>>=◌ call now query exec
    transaction max_version find_version find_active active_of insert_version update_version
    supersede_active set_active clear_rules insert_rule insert_audit targets_of
    validate_route_targets candidate_row version_of rule_row active_version next_version
    insert_rules write_audit finalize_body finalize_with_rules activate apply_candidate deliver
    resolve_unknown mark_unknown reconcile find_candidate adopt_candidate finalize sets_eq
adopts_unknown = refl

republishes_none :
    (reconcile fresh_env empty_world).0 ≡ record { state = republished; error = none }
unfolding publish prepare subscription_sets build_sets sort_by insert_by validate_rules check_rules
    check_rule check_group check_answer check_regexp valid_action normalize trim_space to_lower
    trim_suffix contains_char split_char build_snapshot to_wire ◌>>=◌ call now query exec
    transaction max_version find_version find_active active_of insert_version update_version
    supersede_active set_active clear_rules insert_rule insert_audit targets_of
    validate_route_targets candidate_row version_of rule_row active_version next_version
    insert_rules write_audit finalize_body finalize_with_rules activate apply_candidate deliver
    reconcile reconcile_active find_candidate republish all_rules listed_rules
republishes_none = refl

reconcile_unchanged_example :
    ((reconcile test_env published_world).1.tables ≡ published_world.tables)
    × RunsActive test_env published_world.tables
reconcile_unchanged_example = reconcile_unchanged test_env published_world keeps_published

reconcile_matched_example :
    Adopts test_env unknown_world.tables (reconcile test_env unknown_world).1.tables
reconcile_matched_example = reconcile_matched test_env unknown_world adopts_unknown

reconcile_republished_example :
    Reissues fresh_env empty_world.tables (reconcile fresh_env empty_world).1.tables
reconcile_republished_example = reconcile_republished fresh_env empty_world republishes_none
