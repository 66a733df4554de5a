-- ===== src/Rules/Statements.antt =====
-- The SQL statements of controller/internal/rules/service.go as functions of the tables, with the
-- keys of controller/internal/storage/migrations.go. The newest row of rule_versions stands first.
pub mod Versions
use mosdns_controller.Base.{
  ℕ, suc, ◌+◌, String, Bool, true, false, not, List, [], ◌∷◌, ◌++◌, map, Option, none, some, ◌==◌,
  str_eq, if◌then◌else◌, ltb, ◌||◌, ◌&&◌, any, keep,
}
use mosdns_controller.Go.Int.{lt, eq}
use mosdns_controller.Go.Text.{text_lt}
use mosdns_controller.Go.Result.{Error, Result, ok, err, database, no_rows}
use mosdns_controller.Rules.Types.{Rule}
use mosdns_controller.Rules.Validate.{is_route}
use mosdns_controller.Rules.Snapshot.{sort_by}
use mosdns_controller.Rules.Store.{
  Status, pending, unknown, active, superseded, failed, VersionRow, RuleRow, Subscription,
  SourceRow, AuditRow, Tables,
}

abbrev pub is_active : Status → Bool
is_active active = true
is_active _ = false

abbrev pub is_candidate : Status → Bool
is_candidate pending = true
is_candidate unknown = true
is_candidate _ = false

-- SELECT COALESCE(MAX(version),0) FROM rule_versions
unfoldable pub max_version : List VersionRow → ℕ
max_version [] = 0
max_version (r ∷ rs) = let m = max_version rs in if ltb m r.version then r.version else m

-- SELECT … FROM rule_versions WHERE version=?
unfoldable pub find_version : ℕ → List VersionRow → Option VersionRow
find_version v [] = none
find_version v (r ∷ rs) = if r.version == v then some r else find_version v rs

-- SELECT … FROM rule_versions WHERE status='active'
unfoldable pub find_active : List VersionRow → Option VersionRow
find_active [] = none
find_active (r ∷ rs) = if is_active r.status then some r else find_active rs

-- The active version, or 0.
unfoldable pub active_of : List VersionRow → ℕ
unfolding find_active
active_of rows = elim (find_active rows) [ none ↦ 0 | some r ↦ r.version ]

-- INSERT INTO rule_versions: the version is the primary key, the checksum is unique.
unfoldable pub insert_version : VersionRow → Tables → Result Tables
insert_version row t =
    if any (λ r. r.version == row.version || str_eq r.checksum row.checksum) t.versions
    then err database
    else ok (record t { versions = row ∷ t.versions })

-- UPDATE rule_versions … WHERE version=?
unfoldable pub update_version : ℕ → (VersionRow → VersionRow) → List VersionRow → List VersionRow
update_version v f [] = []
update_version v f (r ∷ rs) = (if r.version == v then f r else r) ∷ update_version v f rs

abbrev pub unknown_row : VersionRow → VersionRow
unknown_row r = record r { status = unknown; error_code = some "PUBLISH_UNKNOWN" }

abbrev pub failed_row : String → Error → VersionRow → VersionRow
failed_row code cause r = record r {
  status = failed;
  error_code = some code;
  error_message = some cause;
}

-- … SET status='unknown',error_code='PUBLISH_UNKNOWN'
unfoldable pub mark_unknown : ℕ → Tables → Result Tables
mark_unknown v t = ok (record t { versions = update_version v unknown_row t.versions })

-- … SET status='failed',error_code=?,error_message=?
unfoldable pub mark_failed : ℕ → String → Error → Tables → Result Tables
mark_failed v code cause t =
    ok (record t { versions = update_version v (failed_row code cause) t.versions })

abbrev pub supersede_row : VersionRow → VersionRow
supersede_row r = if is_active r.status then record r { status = superseded } else r

-- UPDATE rule_versions SET status='superseded' WHERE status='active'
unfoldable pub supersede_active : Tables → Result Tables
supersede_active t = ok (record t { versions = map supersede_row t.versions })

abbrev pub activate_row : ℕ → VersionRow → VersionRow
activate_row at r = record r {
  status = active;
  activated_at_ms = some at;
  error_code = none;
  error_message = none;
}

-- UPDATE rule_versions SET status='active',activated_at_ms=?,error_code=NULL,error_message=NULL
unfoldable pub set_active : ℕ → ℕ → Tables → Result Tables
set_active v at t = ok (record t { versions = update_version v (activate_row at) t.versions })

-- DELETE FROM domain_rules
unfoldable pub clear_rules : Tables → Result Tables
clear_rules t = ok (record t { domain_rules = [] })

-- nullableGroupID
unfoldable pub nullable_group_id : Rule → Option String
nullable_group_id r = if is_route r then some r.upstream_group_id else none

-- UNIQUE(normalized_pattern,match_type,category)
unfoldable pub same_pattern : RuleRow → RuleRow → Bool
same_pattern a b =
    str_eq a.normalized_pattern b.normalized_pattern
    && str_eq a.rule.match_type b.rule.match_type
    && str_eq a.rule.category b.rule.category

-- INSERT INTO domain_rules: the id is the primary key, and the pattern is unique. A row that a CHECK
-- of the table refuses is one of the failures that every call of the database may have.
unfoldable pub insert_rule : RuleRow → Tables → Result Tables
insert_rule row t =
    if any (λ r. r.rule.id == row.rule.id || same_pattern r row) t.domain_rules
    then err database
    else ok (record t { domain_rules = t.domain_rules ++ row ∷ [] })

-- INSERT INTO admin_audit_logs
unfoldable pub insert_audit : AuditRow → Tables → Result Tables
insert_audit row t = ok (record t { audit = row ∷ t.audit })

-- COALESCE(b.priority,100)
abbrev rank : Subscription → ℕ
rank s = elim s.binding [ none ↦ 100 | some x ↦ x.priority ]

-- ORDER BY COALESCE(b.priority,100),s.id
unfoldable pub source_less : SourceRow → SourceRow → Bool
source_less x y =
    let a = x.subscription in
    let b = y.subscription in
    let p = rank a in let q = rank b in if p == q then ltb a.id b.id else ltb p q
