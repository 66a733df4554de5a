-- ===== src/Rules/Tests/Subscribing.antt =====
-- Orders on subscriptions that succeed and fail.
use mosdns_controller.Base.{
  ◌≡◌, refl, true, false, List, [], ◌∷◌, none, some, arith, ◌⊎◌, ◌+◌, ◌^◌, ◌≤◌, ◌&&◌, str_eq, count,
}
use mosdns_controller.Go.Int.{pos}
use mosdns_controller.Go.Result.{ok, err, message}
use mosdns_controller.Rules.Store.{
  Env, World, SourceRow, Sources, pure, ◌>>=◌, call, now, query, exec, transaction,
}
use mosdns_controller.Go.Text.{
  trim_space, to_lower, trim_suffix, contains_char, split_char, has_suffix,
}
use mosdns_controller.Rules.Normalize.{normalize}
use mosdns_controller.Rules.Parsing.{parse_subscription, parse_lines, line_of}
use mosdns_controller.Rules.Validate.{valid_action, check_rules, validate_rules}
use mosdns_controller.Rules.Snapshot.{build_snapshot, sort_by, insert_by}
use mosdns_controller.Rules.Statements.{
  max_version, find_version, find_active, active_of, insert_version, update_version, mark_failed,
  supersede_active, set_active, clear_rules, insert_audit, source_less,
}
use mosdns_controller.Rules.Sources.{build_sets, source_set, subscription_sets}
use mosdns_controller.Rules.Targets.{targets_of, validate_route_targets}
use mosdns_controller.Rules.Publish.{
  candidate_row, version_of, active_version, next_version, prepare, insert_rules, write_audit,
  finalize_body, finalize_with_rules, fail, activate, apply_candidate, deliver, publish,
}
use mosdns_controller.Rules.Catalog.{insert_source, check_source, place, find_source, remove_source}
use mosdns_controller.Rules.Subscribe.{
  settle, conclude, subscription, restore_mutation, is_restored, failed_before_apply,
}
use mosdns_controller.Rules.Subscribe.Change.{insert_new, new_source}
use mosdns_controller.Rules.Subscriptions.{
  Download, SubscriptionInput, validate_subscription_input, duration, validate_subscription_binding,
}
use mosdns_controller.Rules.Catalog.Kept.{IsCatalog}
use mosdns_controller.Rules.Publish.Consistent.{IsConsistent}
use mosdns_controller.Rules.Publish.Guarantees.{IsPublished}
use mosdns_controller.Rules.Read.{all_rules, listed_rules}
use mosdns_controller.Rules.Edit.{create_rule}
use mosdns_controller.Rules.Run.{
  no_sources, fresh_tables, serve, order, check_runtime, Turn, perform, refresh_source, refresh_all,
  run, run-IsConsistent,
}
use mosdns_controller.Rules.Subscribe.Requests.{
  Order, subscribe_upload, enable, unsubscribe, carry, carry_out, create_upload, add_subscription,
  insert_subscription,
}
use mosdns_controller.Rules.Subscribe.Guarantees.{Idle, Wanted, order_succeeded}
use mosdns_controller.Rules.Subscriptions.Bounds.{validate_subscription_input_sound}
use mosdns_controller.Rules.Subscribe.Justified.{Decides, restore_mutation-Decides}
use mosdns_controller.Rules.Tests.{test_env, fresh_env, admin, empty_world, test_feed, block_rule}

abbrev block_list : SubscriptionInput
block_list = record {
  category = "access";
  action = "block";
  name = "ads";
  source_url = "";
  refresh_interval_seconds = pos 0;
  enabled = true;
  upstream_group_id = "";
  priority = none;
  expected_version = none;
}

abbrev upload : Order
upload = subscribe_upload block_list "ads.txt" "ads.example\n"

-- mosdns refuses every snapshot and has none.
abbrev bare_env : Env
bare_env = record fresh_env { apply = λ n s. err (message "busy") }

no_sources-IsCatalog : IsCatalog no_sources
no_sources-IsCatalog = record { ascending = tt; sound = tt; unshared = tt }

uploaded : (carry test_env test_feed upload admin empty_world).0.error ≡ none
unfolding carry carry_out create_upload add_subscription insert_subscription
    validate_subscription_input duration validate_subscription_binding parse_subscription
    parse_lines line_of has_suffix to_lower trim_space trim_suffix valid_action split_char
    contains_char normalize insert_new new_source insert_source check_source place settle conclude
    subscription find_source publish prepare subscription_sets build_sets source_set sort_by
    insert_by validate_rules check_rules build_snapshot ◌>>=◌ call now query exec transaction
    max_version find_version find_active active_of insert_version update_version targets_of
    validate_route_targets candidate_row version_of active_version next_version apply_candidate
    deliver all_rules listed_rules source_less supersede_active set_active clear_rules insert_audit
    insert_rules write_audit finalize_body finalize_with_rules activate
uploaded = refl

-- mosdns refuses the snapshot, and the new source is gone again.
reverted : (carry bare_env test_feed upload admin empty_world).1.tables.sources.rows ≡ []
unfolding carry carry_out create_upload add_subscription insert_subscription
    validate_subscription_input duration validate_subscription_binding parse_subscription
    parse_lines line_of has_suffix to_lower trim_space trim_suffix valid_action split_char
    contains_char normalize insert_new new_source insert_source check_source place settle conclude
    subscription find_source publish prepare subscription_sets build_sets source_set sort_by
    insert_by validate_rules check_rules build_snapshot ◌>>=◌ call now query exec transaction
    max_version find_version find_active active_of insert_version update_version targets_of
    validate_route_targets candidate_row version_of active_version next_version apply_candidate
    deliver all_rules listed_rules source_less fail mark_failed restore_mutation is_restored
    failed_before_apply remove_source
reverted = refl

abbrev one_life : List Turn
one_life =
    perform (serve (create_rule block_rule) admin)
    ∷ perform (order upload admin)
    ∷ perform check_runtime
    ∷ refresh_source (order (enable 1 false) admin ∷ []) 1 admin
    ∷ refresh_all []
    ∷ perform (order (unsubscribe 1) admin)
    ∷ []

run-IsConsistent_example : IsConsistent (run test_env test_feed one_life empty_world).tables
run-IsConsistent_example = run-IsConsistent test_env test_feed one_life no_sources 0

order_succeeded_example :
    ((carry test_env test_feed upload admin empty_world).1.tables ≡ empty_world.tables)
      × Idle test_env test_feed empty_world.tables no_sources-IsCatalog upload
    ⊎ ((s : Sources) × Wanted test_env test_feed empty_world.tables no_sources-IsCatalog upload s
        × IsPublished test_env
            (record (empty_world.tables) { sources = s })
            (listed_rules empty_world.tables)
            (carry test_env test_feed upload admin empty_world).0.version
            (carry test_env test_feed upload admin empty_world).1.tables)
order_succeeded_example =
    order_succeeded test_env test_feed upload admin empty_world no_sources-IsCatalog uploaded

restore_mutation-Decides_example :
    Decides bare_env
      (carry bare_env test_feed upload admin empty_world).0.version
      (message "busy")
      (pure tt)
      (carry bare_env test_feed upload admin empty_world).1.tables
      (restore_mutation bare_env
        (carry bare_env test_feed upload admin empty_world).0.version
        (message "busy")
        (pure tt)
        (carry bare_env test_feed upload admin empty_world).1)
restore_mutation-Decides_example =
    restore_mutation-Decides bare_env (carry bare_env test_feed upload admin empty_world).0.version
      (message "busy") (pure tt) (carry bare_env test_feed upload admin empty_world).1

-- An interval of more than a thousand million years passes the check, since its duration wraps
-- around to 900 seconds.
interval_wraps :
    validate_subscription_input
      (record block_list { refresh_interval_seconds = pos (900 + 2 ^ 55) })
      "upload"
    ≡ ok tt
unfolding validate_subscription_input duration valid_action trim_space
interval_wraps = refl

abbrev ads_source : SourceRow
ads_source = record {
  subscription = record {
    id = 1;
    category = "access";
    action = "block";
    kind = "url";
    name = "ads";
    source_url = "https://lists.example/ads";
    refresh_interval_seconds = 86400;
    enabled = true;
    rule_count = 1;
    last_checked_at_ms = 5;
    last_success_at_ms = 5;
    last_error = "";
    created_at_ms = 5;
    updated_at_ms = 5;
    binding = none;
  };
  content_checksum = "sha256:a";
  domains = some ("old.example" ∷ []);
}

abbrev one_source : Sources
one_source = record { rows = ads_source ∷ []; sequence = 1; binding_sequence = 0 }

abbrev source_world : World
source_world = record { tables = fresh_tables one_source; tick = 0 }

abbrev ads_download : Download
ads_download = record { body = "ads.example\n"; url = "https://lists.example/ads" }

named_input :
    validate_subscription_input
      (record block_list { refresh_interval_seconds = pos 86400 })
      "upload"
    ≡ ok tt
unfolding validate_subscription_input duration valid_action trim_space
named_input = refl

validate_subscription_input_sound_example :
    (valid_action "access" "block" ≡ true)
    × (str_eq "access" "logging" ≡ false)
    × (str_eq (trim_space "ads") "" ≡ false)
    × (count "ads" ≤ 128)
    × ((str_eq "upload" "url" && str_eq (trim_space "") "") ≡ false)
    × (900 ≤ 86400)
    × (86400 ≤ 2592000)
validate_subscription_input_sound_example =
    validate_subscription_input_sound (record block_list { refresh_interval_seconds = pos 86400 })
      "upload" 86400 refl (omega arith) named_input
