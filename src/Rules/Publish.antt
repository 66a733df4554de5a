-- ===== src/Rules/Publish.antt =====
-- controller/internal/rules/service.go: publish, and the helpers that it runs on.
pub mod Steps
pub mod Outcome
pub mod Consistent
pub mod Guarantees
use mosdns_controller.Base.{
  ℕ, suc, ◌+◌, String, Bool, true, false, not, List, [], ◌∷◌, ◌++◌, map, Option, none, some, ◌==◌,
  str_eq, if◌then◌else◌, ltb, ◌||◌, ◌&&◌, any, keep,
}
use mosdns_controller.Go.Result.{
  Error, Result, ok, err, message, database, no_rows, version_conflict, is_unknown, reject_if,
}
use mosdns_controller.Rules.Types.{Rule}
use mosdns_controller.Rules.Normalize.{normalize}
use mosdns_controller.Rules.Validate.{is_route, validate_rules}
use mosdns_controller.Rules.Snapshot.{
  Snapshot, SubscriptionSet, build_snapshot, snapshot_rule_count, regexp_count, sort_by,
}
use mosdns_controller.Rules.Store.{
  Status, pending, unknown, active, VersionRow, RuleRow, SourceRow, AuditRow, Binding, Tables,
  Registry, Group, Env, World, M, ◌>>=◌, ◌>>◌, pure, lift, call, now, query, exec, transaction,
  Validation, Applied, RuntimeStatus,
}
use mosdns_controller.Rules.Statements.{
  max_version, find_active, active_of, insert_version, mark_unknown, mark_failed, supersede_active,
  set_active, clear_rules, nullable_group_id, insert_rule, insert_audit, find_version,
}
use mosdns_controller.Rules.Sources.{subscription_sets}
use mosdns_controller.Rules.Targets.{validate_route_targets}

-- The type Version, as a caller sees it; the status of Version{} is the empty text.
pub record Version : Type 0 where
  pub version : ℕ
  pub checksum : String
  pub status : Option Status
  pub rule_count : ℕ
  pub created_at_ms : ℕ

abbrev pub no_version : Version
no_version = record { version = 0; checksum = ""; status = none; rule_count = 0; created_at_ms = 0 }

-- A Go result `(Version, error)`: both are read.
pub record Published : Type 0 where
  pub version : Version
  pub error : Option Error

-- Who asks for the change; no administrator has the identifier 0.
pub record Actor : Type 0 where
  pub admin_id : ℕ
  pub request_id : String
  pub ip : String

-- nullableVersion and nullableAdminID
abbrev pub nullable : ℕ → Option ℕ
nullable n = if n == 0 then none else some n

-- persistedRules
abbrev pub persisted : Rule → Rule
persisted r = record r { expected_registry_version = none }

-- A candidate that stands in rule_versions with the status pending.
pub record Candidate : Type 0 where
  pub version : ℕ
  pub current : ℕ
  pub rules : List Rule
  pub snapshot : Snapshot
  pub created_at_ms : ℕ

unfoldable pub candidate_row : Candidate → ℕ → ℕ → VersionRow
candidate_row c admin_id rollback_from = record {
  version = c.version;
  checksum = c.snapshot.checksum;
  status = pending;
  previous_version = c.current;
  rollback_from_version = nullable rollback_from;
  rule_count = snapshot_rule_count c.snapshot;
  regexp_rule_count = regexp_count c.snapshot.rules;
  snapshot = c.snapshot;
  rules = map persisted c.rules;
  created_by = nullable admin_id;
  error_code = none;
  error_message = none;
  created_at_ms = c.created_at_ms;
  activated_at_ms = none;
}

-- The value `v` of publish, with the status that it has at a point.
unfoldable pub version_of : Candidate → Status → Version
version_of c status = record {
  version = c.version;
  checksum = c.snapshot.checksum;
  status = some status;
  rule_count = snapshot_rule_count c.snapshot;
  created_at_ms = c.created_at_ms;
}

unfoldable pub rule_row : ℕ → Rule → String → RuleRow
rule_row version r normalized = record {
  version = version;
  rule = persisted r;
  upstream_group_id = nullable_group_id r;
  normalized_pattern = normalized;
}

module _ (env : Env) where
  -- activeVersion
  unfoldable pub active_version : M ℕ
  active_version = query env (λ t. ok (active_of t.versions))

  -- nextVersion
  unfoldable pub next_version : M ℕ
  next_version = query env (λ t. ok (max_version t.versions + 1))

  -- publish, up to the INSERT INTO rule_versions.
  unfoldable pub prepare : List Rule → ℕ → ℕ → M Candidate
  prepare rules admin_id rollback_from = do
    sets ← subscription_sets env
    valid ← lift (validate_rules env.library rules)
    validate_route_targets env valid none
    current ← active_version
    version ← next_version
    generated ← now env
    let snapshot = build_snapshot env.encode generated version current valid sets
    created ← now env
    let c : Candidate = record {
      version = version;
      current = current;
      rules = valid;
      snapshot = snapshot;
      created_at_ms = created;
    }
    exec env (insert_version (candidate_row c admin_id rollback_from))
    pure c

  -- The loop of finalizeWithRules.
  unfoldable pub insert_rules : ℕ → List Rule → M (Unit {0})
  insert_rules version [] = pure tt
  insert_rules version (r ∷ rs) = do
    normalized ← lift (normalize env.library r.pattern r.match_type)
    exec env (insert_rule (rule_row version r normalized))
    insert_rules version rs

  abbrev pub audit_row : Actor → ℕ → AuditRow
  audit_row actor at = record {
    admin_id = actor.admin_id;
    action = "publish";
    resource_type = "rule_version";
    request_id = actor.request_id;
    client_ip = actor.ip;
    result = "success";
    created_at_ms = at;
  }

  unfoldable pub write_audit : Actor → M (Unit {0})
  write_audit actor =
      if actor.admin_id == 0
      then pure tt
      else (do at ← now env; exec env (insert_audit (audit_row actor at)))

  -- The statements of finalizeWithRules; the one that changes nothing is PrepareContext.
  unfoldable pub finalize_body : ℕ → List Rule → Actor → M (Unit {0})
  finalize_body version rules actor = do
    exec env supersede_active
    at ← now env
    exec env (set_active version at)
    exec env clear_rules
    exec env ok
    insert_rules version rules
    write_audit actor

  -- finalizeWithRules
  unfoldable pub finalize_with_rules : ℕ → List Rule → Actor → M (Unit {0})
  finalize_with_rules version rules actor = transaction env (finalize_body version rules actor)

  abbrev pub answer : Candidate → Status → Error → Published
  answer c status e = record { version = version_of c status; error = some e }

  abbrev pub failed_with :
      Candidate → Status → Error → Result (Unit {0}) × World → Published × World
  failed_with c status cause (ok _, w) = (answer c status cause, w)
  failed_with c status cause (err e, w) = (answer c status e, w)

  -- return v, s.fail(ctx, version, code, cause)
  unfoldable pub fail : Candidate → Status → String → Error → World → Published × World
  fail c status code cause w =
      failed_with c status cause (exec env (mark_failed c.version code cause) w)

  abbrev pub activated : Candidate → Status → Result (Unit {0}) × World → Published × World
  activated c status (ok _, w) = (record { version = version_of c active; error = none }, w)
  activated c status (err e, w) = (answer c status e, w)

  -- finalizeWithRules and `v.Status = statusActive`
  unfoldable pub activate : Candidate → Status → Actor → World → Published × World
  activate c status actor w = activated c status (finalize_with_rules c.version c.rules actor w)

  abbrev pub shows_candidate : Candidate → RuntimeStatus → Bool
  shows_candidate c s = s.snapshot_version == c.version && str_eq s.checksum c.snapshot.checksum

  abbrev pub resolved : Candidate → Actor → Error → Result RuntimeStatus × World → Published × World
  resolved c actor cause (ok s, w) =
      if shows_candidate c s
      then activate c unknown actor w
      else if s.snapshot_version == c.current
      then fail c unknown "APPLY_TIMEOUT_NOT_APPLIED" (message "mosdns retained previous snapshot")
          w
      else (answer c unknown cause, w)
  resolved c actor cause (err _, w) = (answer c unknown cause, w)

  -- After ErrUnknown: the row is marked, and mosdns is asked which snapshot it runs.
  unfoldable pub resolve_unknown : Candidate → Actor → Error → World → Published × World
  resolve_unknown c actor cause w =
      let (_, marked) = exec env (mark_unknown c.version) w in
      resolved c actor cause (call env env.status marked)

  abbrev pub applied_as : Candidate → Applied → Bool
  applied_as c a = a.applied && a.version == c.version && str_eq a.checksum c.snapshot.checksum

  abbrev pub after_apply : Candidate → Actor → Result Applied × World → Published × World
  after_apply c actor (ok a, w) =
      if applied_as c a
      then activate c pending actor w
      else fail c pending "APPLY_RESPONSE_INVALID" (message "invalid apply response") w
  after_apply c actor (err e, w) =
      if is_unknown e then resolve_unknown c actor e w else fail c pending "APPLY_FAILED" e w

  unfoldable pub apply_candidate : Candidate → Actor → World → Published × World
  apply_candidate c actor w = after_apply c actor (call env (λ n. env.apply n c.snapshot) w)

  abbrev pub after_validate : Candidate → Actor → Result Validation × World → Published × World
  after_validate c actor (ok v, w) =
      if not v.valid
      then fail c pending "VALIDATION_FAILED" (message "mosdns rejected snapshot") w
      else if not (str_eq v.checksum c.snapshot.checksum)
      then fail c pending "CHECKSUM_MISMATCH" (message "mosdns returned a different checksum") w
      else apply_candidate c actor w
  after_validate c actor (err e, w) = fail c pending "VALIDATION_FAILED" e w

  -- publish, from the call of Validate on.
  unfoldable pub deliver : Candidate → Actor → World → Published × World
  deliver c actor w = after_validate c actor (call env (λ n. env.validate n c.snapshot) w)

  abbrev pub delivered : Actor → Result Candidate × World → Published × World
  delivered actor (ok c, w) = deliver c actor w
  delivered actor (err e, w) = (record { version = no_version; error = some e }, w)

  -- publish
  unfoldable pub publish : List Rule → Actor → ℕ → World → Published × World
  publish rules actor rollback_from w =
      delivered actor (prepare rules actor.admin_id rollback_from w)
