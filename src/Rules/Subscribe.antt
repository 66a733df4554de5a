-- ===== src/Rules/Subscribe.antt =====
-- controller/internal/rules/subscriptions.go: the reads of the subscriptions, and the compensation of
-- a change of the sources whose publication fails.
pub mod Change
pub mod Requests
pub mod Restore
pub mod Compensation
pub mod Writes
pub mod Creates
pub mod Rebinds
pub mod Ends
pub mod Justified
pub mod Refreshes
pub mod Refreshed
pub mod Guarantees
pub mod Contained
pub mod Tame
pub mod Consistent
pub mod Calls
pub mod Renewals
use mosdns_controller.Base.{
  ℕ, suc, String, Bool, true, false, not, ◌&&◌, ◌||◌, List, [], ◌∷◌, map, Option, none, some, ◌==◌,
  str_eq, if◌then◌else◌, ltb, leb, keep,
}
use mosdns_controller.Go.Result.{
  Error, Result, ok, err, message, no_rows, outcome_unknown, joined, is_unknown, reject_if, or_fail,
}
use mosdns_controller.Rules.Types.{Rule}
use mosdns_controller.Rules.Validate.{valid_action}
use mosdns_controller.Rules.Snapshot.{sort_by}
use mosdns_controller.Rules.Store.{
  Status, failed, VersionRow, Subscription, SourceRow, Tables, RuntimeStatus, Env, World, M, ◌>>=◌,
  ◌>>◌, pure, lift, call, query,
}
use mosdns_controller.Rules.Statements.{find_version}
use mosdns_controller.Rules.Catalog.{find_source}
use mosdns_controller.Rules.Publish.{Version, no_version, Published, Actor, publish}
use mosdns_controller.Rules.Read.{all_rules}

-- ORDER BY s.created_at_ms,s.id
unfoldable pub subscription_less : Subscription → Subscription → Bool
subscription_less a b =
    if a.created_at_ms == b.created_at_ms
    then ltb a.id b.id
    else ltb a.created_at_ms b.created_at_ms

-- Subscription{}
abbrev pub no_subscription : Subscription
no_subscription = record {
  id = 0;
  category = "";
  action = "";
  kind = "";
  name = "";
  source_url = "";
  refresh_interval_seconds = 0;
  enabled = false;
  rule_count = 0;
  last_checked_at_ms = 0;
  last_success_at_ms = 0;
  last_error = "";
  created_at_ms = 0;
  updated_at_ms = 0;
  binding = none;
}

-- A Go result `(Subscription, V, error)`: all three are read.
pub record Answer (V : Type 0) : Type 0 where
  pub item : Subscription
  pub version : V
  pub error : Option Error

-- errors.Join of two errors, each of which may be nil.
abbrev pub join : Option Error → Option Error → Option Error
join none b = b
join (some a) none = some a
join (some a) (some b) = some (joined a b)

abbrev pub error_of : {A : Type 0} → Result A → Option Error
error_of (ok a) = none
error_of (err e) = some e

-- errors.Join(cause, restore())
abbrev pub joined_with : Error → Result (Unit {0}) × World → Error × World
joined_with cause (ok _, w) = (cause, w)
joined_with cause (err e, w) = (joined cause e, w)

-- The failures that come before mosdns was asked to apply, or that it has reported.
unfoldable pub failed_before_apply : VersionRow → Bool
failed_before_apply row = elim row.status [
  | failed ↦ elim row.error_code [
    | none ↦ false
    | some code ↦
        str_eq code "VALIDATION_FAILED"
        || str_eq code "CHECKSUM_MISMATCH"
        || str_eq code "APPLY_FAILED"
        || str_eq code "APPLY_TIMEOUT_NOT_APPLIED"
  ]
  | _ ↦ false
]

-- Whether the sources are restored, by the row of the candidate and what mosdns answers.
unfoldable pub is_restored : ℕ → VersionRow → Result RuntimeStatus → Bool
is_restored candidate row (err e) = failed_before_apply row
is_restored candidate row (ok s) =
    not (s.snapshot_version == candidate && str_eq s.checksum row.checksum)
    && (failed_before_apply row || s.snapshot_version == row.previous_version)

abbrev pub flag_matches : Bool → Bool → Bool
flag_matches true b = b
flag_matches false b = not b

-- How a change ends whose statement is written: allRules fails, publish fails, or neither.
pub data Settled : Type 0 where
  unlisted : Error → Settled
  refused : Version → Error → Settled
  adopted : Version → Settled

module _ (env : Env) where
  -- subscription
  unfoldable pub subscription : ℕ → M Subscription
  subscription id = do
    row ← query env (λ t. or_fail (find_source id t.sources.rows) no_rows)
    pure row.subscription

  abbrev pub selects : String → String → Subscription → Bool
  selects category action s =
      str_eq category "" && str_eq action "" || str_eq s.category category && str_eq s.action action

  -- Subscriptions
  unfoldable pub subscriptions : String → String → M (List Subscription)
  subscriptions category action = do
    lift (
        reject_if
          (not (str_eq category "" && str_eq action "") && not (valid_action category action))
          "invalid category/action")
    query env (λ t. ok (
        sort_by subscription_less
          (keep (selects category action) (map (λ r. r.subscription) t.sources.rows))))

  abbrev pub judged :
      Version → Error → M (Unit {0}) → VersionRow → Result RuntimeStatus × World → Error × World
  judged candidate cause restore row (runtime, w) =
      if is_restored candidate.version row runtime
      then joined_with cause (restore w)
      else (joined cause outcome_unknown, w)

  abbrev pub weighed : Version → Error → M (Unit {0}) → Result VersionRow × World → Error × World
  weighed candidate cause restore (err e, w) = (joined cause outcome_unknown, w)
  weighed candidate cause restore (ok row, w) =
      judged candidate cause restore row (call env env.status w)

  -- restoreSubscriptionMutation
  unfoldable pub restore_mutation : Version → Error → M (Unit {0}) → World → Error × World
  restore_mutation candidate cause restore w =
      if candidate.version == 0
      then joined_with cause (restore w)
      else weighed candidate cause restore
          (query env (λ t. or_fail (find_version candidate.version t.versions) no_rows) w)

  abbrev pub refused_as : Version → Error × World → Settled × World
  refused_as v (e, w) = (refused v e, w)

  abbrev pub published_as : M (Unit {0}) → Published × World → Settled × World
  published_as restore (p, w) = elim p.error [
    | none ↦ (adopted p.version, w)
    | some e ↦ refused_as p.version (restore_mutation p.version e restore w)
  ]

  abbrev pub unlisted_as : Error × World → Settled × World
  unlisted_as (e, w) = (unlisted e, w)

  abbrev pub listed_as : Actor → M (Unit {0}) → Result (List Rule) × World → Settled × World
  listed_as actor restore (ok rules, w) = published_as restore (publish env rules actor 0 w)
  listed_as actor restore (err e, w) = unlisted_as (restore_mutation no_version e restore w)

  -- What follows the statement of a change: allRules, publish, and restoreSubscriptionMutation.
  unfoldable pub settle : Actor → M (Unit {0}) → World → Settled × World
  settle actor restore w = listed_as actor restore (all_rules env w)

  abbrev pub answered :
      {V : Type 0} → V → Option Error → Result Subscription × World → Answer V × World
  answered v e (ok item, w) = (record { item = item; version = v; error = e }, w)
  answered v e (err x, w) =
      (record { item = no_subscription; version = v; error = join e (some x) }, w)

  abbrev pub failed_as : {V : Type 0} → V → Error → World → Answer V × World
  failed_as v e w = (record { item = no_subscription; version = v; error = some e }, w)

  -- What a change answers when it has settled; `zero` stands for the version before a publication.
  unfoldable pub conclude :
      {V : Type 0} → V → (Version → V) → ℕ → Settled × World → Answer V × World
  conclude zero wrap id (unlisted e, w) = failed_as zero e w
  conclude zero wrap id (refused v e, w) =
      if is_unknown e
      then answered (wrap v) (some e) (subscription id w)
      else failed_as (wrap v) e w
  conclude zero wrap id (adopted v, w) = answered (wrap v) none (subscription id w)
