-- ===== src/Rules/Reconcile.antt =====
-- controller/internal/rules/service.go: Reconcile, which brings the tables and mosdns together after
-- a crash, a timeout or a restart of mosdns.
pub mod Equal
pub mod Verdict
pub mod Guarantees
use mosdns_controller.Base.{
  ℕ, String, Bool, true, false, not, ◌&&◌, ◌||◌, List, [], ◌∷◌, Option, none, some, ◌==◌, str_eq,
  if◌then◌else◌, ltb,
}
use mosdns_controller.Go.Result.{Error, Result, ok, err, message, no_rows, or_fail}
use mosdns_controller.Rules.Types.{Rule}
use mosdns_controller.Rules.Snapshot.{SubscriptionSet, Snapshot}
use mosdns_controller.Rules.Store.{
  VersionRow, Tables, Env, World, M, ◌>>=◌, ◌>>◌, pure, lift, call, query, RuntimeStatus,
}
use mosdns_controller.Rules.Statements.{is_candidate, find_version, find_active}
use mosdns_controller.Rules.Sources.{subscription_sets}
use mosdns_controller.Rules.Publish.{Actor, Published, publish, finalize_with_rules}
use mosdns_controller.Rules.Read.{all_rules}

-- The text that Reconcile returns; `no_state` is the empty one.
pub data ReconcileState : Type 0 where
  no_state matched_candidate republished degraded unchanged : ReconcileState

pub record Reconciled : Type 0 where
  pub state : ReconcileState
  pub error : Option Error

abbrev pub texts_eq : List String → List String → Bool
texts_eq [] [] = true
texts_eq [] (y ∷ ys) = false
texts_eq (x ∷ xs) [] = false
texts_eq (x ∷ xs) (y ∷ ys) = str_eq x y && texts_eq xs ys

unfoldable pub set_eq : SubscriptionSet → SubscriptionSet → Bool
set_eq a b =
    a.source_id == b.source_id
    && str_eq a.source_name b.source_name
    && str_eq a.category b.category
    && str_eq a.action b.action
    && a.binding_id == b.binding_id
    && str_eq a.upstream_group_id b.upstream_group_id
    && a.priority == b.priority
    && texts_eq a.domains b.domains

-- subscriptionSetsEqual: equal JSON texts are those of equal values.
unfoldable pub sets_eq : List SubscriptionSet → List SubscriptionSet → Bool
sets_eq [] [] = true
sets_eq [] (b ∷ bs) = false
sets_eq (a ∷ as') [] = false
sets_eq (a ∷ as') (b ∷ bs) = set_eq a b && sets_eq as' bs

-- `if err != nil { return state, err }`
abbrev pub on_ok :
    {A : Type 0}
    → ReconcileState
    → Result A × World
    → (A → World → Reconciled × World)
    → Reconciled × World
on_ok state (ok a, w) k = k a w
on_ok state (err e, w) k = (record { state = state; error = some e }, w)

abbrev pub finish : ReconcileState → Option Error → World → Reconciled × World
finish state e w = (record { state = state; error = e }, w)

abbrev pub system : String → Actor
system request_id = record { admin_id = 0; request_id = request_id; ip = "" }

-- The row of the version that mosdns runs, if it is a candidate.
unfoldable pub find_candidate : ℕ → Tables → Result VersionRow
find_candidate v t = elim (find_version v t.versions) [
  | none ↦ err no_rows
  | some r ↦ if is_candidate r.status then ok r else err no_rows
]

module _ (env : Env) where
  abbrev pub as_republished : Published × World → Reconciled × World
  as_republished (p, w) = finish republished p.error w

  -- allRules and publish
  unfoldable pub republish : ReconcileState → String → World → Reconciled × World
  republish state request_id w =
      on_ok state (all_rules env w)
        λ rules v. as_republished (publish env rules (system request_id) 0 v)

  -- finalize
  unfoldable pub finalize : ℕ → M (Unit {0})
  finalize version = do
    row ← query env (λ t. or_fail (find_version version t.versions) no_rows)
    finalize_with_rules env version row.rules (system "reconcile")

  -- The branch of a candidate that mosdns runs.
  unfoldable pub adopt_candidate : ℕ → World → Reconciled × World
  adopt_candidate version w = on_ok matched_candidate (subscription_sets env w) λ sets w1.
      on_ok matched_candidate (finalize version w1) λ _ w2.
        on_ok matched_candidate
          (query env (λ t. or_fail (find_version version t.versions) no_rows) w2)
          λ row w3.
            if sets_eq row.snapshot.subscription_sets sets
            then finish matched_candidate none w3
            else republish matched_candidate "reconcile_candidate_sources" w3

  -- mosdns runs the active snapshot: are its subscriptions still those of the sources?
  unfoldable pub compare_sources : VersionRow → World → Reconciled × World
  compare_sources row w =
      on_ok no_state (query env (λ t. or_fail (find_version row.version t.versions) no_rows) w)
        λ r w1. on_ok no_state (subscription_sets env w1) λ sets w2.
          if not (sets_eq r.snapshot.subscription_sets sets)
          then republish no_state "reconcile_sources" w2
          else finish unchanged none w2

  abbrev pub compare_active :
      RuntimeStatus → Result (Option VersionRow) × World → Reconciled × World
  compare_active runtime (err e, w) = finish no_state (some e) w
  compare_active runtime (ok none, w) =
      if runtime.snapshot_version == 0
      then republish no_state "reconcile_initial" w
      else finish no_state (some no_rows) w
  compare_active runtime (ok (some row), w) =
      if ltb row.version runtime.snapshot_version
      then finish degraded (some (message "runtime version is not a known candidate")) w
      else if ltb runtime.snapshot_version row.version
      then republish no_state "reconcile" w
      else if not (str_eq runtime.checksum row.checksum)
      then finish degraded (some (message "runtime checksum does not match active version")) w
      else compare_sources row w

  unfoldable pub reconcile_active : RuntimeStatus → World → Reconciled × World
  reconcile_active runtime w =
      compare_active runtime (query env (λ t. ok (find_active t.versions)) w)

  -- An error of the first SELECT is treated as if no candidate fitted.
  abbrev pub reconcile_runtime : RuntimeStatus → Result VersionRow × World → Reconciled × World
  reconcile_runtime runtime (err e, w) = reconcile_active runtime w
  reconcile_runtime runtime (ok row, w) =
      if str_eq row.checksum runtime.checksum
      then adopt_candidate row.version w
      else reconcile_active runtime w

  -- Reconcile
  unfoldable pub reconcile : World → Reconciled × World
  reconcile w = on_ok no_state (call env env.status w) λ runtime w1.
      reconcile_runtime runtime (query env (find_candidate runtime.snapshot_version) w1)
