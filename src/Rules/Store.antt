-- ===== src/Rules/Store.antt =====
-- The tables of the rules service and the world that its methods run in. A method is a function of
-- the world; what it wrote before it failed stays written, unless it stands in a transaction.
pub mod Ensures
use mosdns_controller.Base.{
  ℕ, suc, String, Bool, true, false, List, [], ◌∷◌, map, Option, none, some, ◌==◌, if◌then◌else◌,
  ltb,
}
use mosdns_controller.Go.Result.{Error, Result, ok, err}
use mosdns_controller.Rules.Types.{Rule}
use mosdns_controller.Rules.Normalize.{Library}
use mosdns_controller.Rules.Snapshot.{Snapshot, Canonical}

-- The values of the column rule_versions.status.
pub data Status : Type 0 where
  pending unknown active superseded failed : Status

-- A row of rule_versions. The JSON columns hold the values that they encode.
pub record VersionRow : Type 0 where
  pub version : ℕ
  pub checksum : String
  pub status : Status
  pub previous_version : ℕ
  pub rollback_from_version : Option ℕ
  pub rule_count : ℕ
  pub regexp_rule_count : ℕ
  pub snapshot : Snapshot
  pub rules : List Rule
  pub created_by : Option ℕ
  pub error_code : Option String
  pub error_message : Option Error
  pub created_at_ms : ℕ
  pub activated_at_ms : Option ℕ

-- A row of domain_rules: `rule` holds the columns that are stored as they are.
pub record RuleRow : Type 0 where
  pub version : ℕ
  pub rule : Rule
  pub upstream_group_id : Option String
  pub normalized_pattern : String

-- A row of subscription_bindings; its subscription is the one that it stands in.
pub record Binding : Type 0 where
  pub id : ℕ
  pub upstream_group_id : String
  pub priority : ℕ
  pub created_at_ms : ℕ
  pub updated_at_ms : ℕ

-- The type Subscription.
pub record Subscription : Type 0 where
  pub id : ℕ
  pub category : String
  pub action : String
  pub kind : String
  pub name : String
  pub source_url : String
  pub refresh_interval_seconds : ℕ
  pub enabled : Bool
  pub rule_count : ℕ
  pub last_checked_at_ms : ℕ
  pub last_success_at_ms : ℕ
  pub last_error : String
  pub created_at_ms : ℕ
  pub updated_at_ms : ℕ
  pub binding : Option Binding

-- A row of rule_subscriptions joined with its row of subscription_bindings. `domains` is `none`
-- where the column is no JSON list of texts.
pub record SourceRow : Type 0 where
  pub subscription : Subscription
  pub content_checksum : String
  pub domains : Option (List String)

-- The rows in the order of their identifiers, and the last identifiers that AUTOINCREMENT gave.
pub record Sources : Type 0 where
  pub rows : List SourceRow
  pub sequence : ℕ
  pub binding_sequence : ℕ

-- A row of admin_audit_logs.
pub record AuditRow : Type 0 where
  pub admin_id : ℕ
  pub action : String
  pub resource_type : String
  pub request_id : String
  pub client_ip : String
  pub result : String
  pub created_at_ms : ℕ

pub record Tables : Type 0 where
  pub versions : List VersionRow
  pub domain_rules : List RuleRow
  pub next_rule_id : Option ℕ
  pub sources : Sources
  pub audit : List AuditRow

-- What mosdns answers, as far as the service reads it.
pub record RuntimeStatus : Type 0 where
  pub snapshot_version : ℕ
  pub checksum : String

pub record Validation : Type 0 where
  pub valid : Bool
  pub checksum : String

pub record Applied : Type 0 where
  pub applied : Bool
  pub version : ℕ
  pub checksum : String

pub record Group : Type 0 where
  pub id : String
  pub enabled : Bool

pub record Registry : Type 0 where
  pub version : ℕ
  pub groups : List Group

-- What the service does not decide: whether the n-th call of the database fails, what the clock
-- shows and what mosdns answers at the n-th call, and the functions outside the repository.
pub record Env : Type 0 where
  pub library : Library
  pub encode : Canonical → String
  pub fault : ℕ → Option Error
  pub clock : ℕ → ℕ
  pub status : ℕ → Result RuntimeStatus
  pub validate : ℕ → Snapshot → Result Validation
  pub apply : ℕ → Snapshot → Result Applied
  pub registry : ℕ → Result Registry

-- `tick` numbers the calls made so far.
pub record World : Type 0 where
  pub tables : Tables
  pub tick : ℕ

abbrev pub M : Type 0 → Type 0
M A = World → Result A × World

abbrev pub continue : {A B : Type 0} → Result A → (A → M B) → M B
continue (ok a) f w = f a w
continue (err e) f w = (err e, w)

infixl 5 ◌>>=◌ ◌>>◌
unfoldable pub ◌>>=◌ : {A B : Type 0} → M A → (A → M B) → M B
◌>>=◌ m f w = let (r, w') = m w in continue r f w'

abbrev pub ◌>>◌ : {B : Type 0} → M (Unit {0}) → M B → M B
m >> k = m >>= λ _. k

abbrev pub pure : {A : Type 0} → A → M A
pure a w = (ok a, w)

abbrev pub lift : {A : Type 0} → Result A → M A
lift r w = (r, w)

abbrev pub next : World → World
next w = record w { tick = suc w.tick }

abbrev pub store : World → Result Tables → Result (Unit {0}) × World
store w (ok t) = (ok tt, record w { tables = t })
store w (err e) = (err e, w)

abbrev pub undo : {A : Type 0} → Tables → Result A × World → Result A × World
undo t (ok a, w) = (ok a, w)
undo t (err e, w) = (err e, record w { tables = t })

module _ (env : Env) where
  -- A call of something outside.
  unfoldable pub call : {A : Type 0} → (ℕ → Result A) → M A
  call f w = (f w.tick, next w)

  -- time.Now().UnixMilli()
  unfoldable pub now : M ℕ
  now w = (ok (env.clock w.tick), next w)

  -- A SELECT: it fails, or it reads.
  unfoldable pub query : {A : Type 0} → (Tables → Result A) → M A
  query f w = elim (env.fault w.tick) [ some e ↦ (err e, next w) | none ↦ (f w.tables, next w) ]

  -- An INSERT, UPDATE or DELETE: it fails and changes nothing, or it writes.
  unfoldable pub exec : (Tables → Result Tables) → M (Unit {0})
  exec f w = elim (env.fault w.tick) [
    | some e ↦ (err e, next w)
    | none ↦ store (next w) (f w.tables)
  ]

  -- BeginTx, the body, Commit. The deferred Rollback takes back what a failed body wrote.
  unfoldable pub transaction : {A : Type 0} → M A → M A
  transaction body w = undo w.tables ((do exec ok; a ← body; exec ok; pure a) w)
