-- ===== src/Rules/Edit.antt =====
-- controller/internal/rules/service.go: Create, Update, Delete, Rollback, Batch and Import. Each
-- computes the new list of rules, and publishes it. The two mutexes that each method holds make
-- the methods run one after another.
pub mod Steps
pub mod Changes
pub mod Batches
pub mod Guarantees
pub mod Requests
use mosdns_controller.Base.{
  ℕ, zero, suc, ◌+◌, String, Bool, true, false, not, ◌||◌, List, [], ◌∷◌, ◌++◌, map, length, Option,
  none, some, ◌==◌, str_eq, if◌then◌else◌, leb, keep, any,
}
use mosdns_controller.Go.Result.{
  Error, Result, ok, err, message, no_rows, rule_conflict, reject_if, or_fail,
}
use mosdns_controller.Go.Result
use mosdns_controller.Rules.Types.{Rule}
use mosdns_controller.Rules.Validate.{is_route}
use mosdns_controller.Rules.Store.{Env, World, M, ◌>>=◌, ◌>>◌, pure, lift, now, query}
use mosdns_controller.Rules.Statements.{find_version}
use mosdns_controller.Rules.Targets.{validate_route_write, validate_route_targets, has_route_rules}
use mosdns_controller.Rules.Publish.{Actor, Published, no_version, publish}
use mosdns_controller.Rules.Read.{is_subscription_rule, all_rules, reserve_rule_ids, next_rule_id}

abbrev pub managed : Error
managed = message "subscription rules must be managed through their source"

abbrev pub reject_managed : Rule → Result (Unit {0})
reject_managed r = if is_subscription_rule r then err managed else ok tt

abbrev pub or_source : String → String → String
or_source source default = if str_eq source "" then default else source

abbrev is_none : Option ℕ → Bool
is_none none = true
is_none (some n) = false

-- The rule that replaces `old`, at a reading of the clock.
unfoldable pub patched : ℕ → Rule → Rule → ℕ → Rule
patched id old patch at = record patch {
  id = id;
  created_at_ms = old.created_at_ms;
  updated_at_ms = if leb at old.updated_at_ms then old.updated_at_ms + 1 else at;
  source = or_source patch.source old.source;
}

unfoldable pub check_patch : Rule → Rule → Result (Unit {0})
check_patch old patch =
    if is_subscription_rule old
    then err managed
    else if patch.updated_at_ms == 0 || not (patch.updated_at_ms == old.updated_at_ms)
    then err rule_conflict
    else ok tt

-- The loop of Delete.
unfoldable pub remove_rule : ℕ → List Rule → Result (List Rule × Bool)
remove_rule id [] = ok ([], false)
remove_rule id (r ∷ rs) =
    let rest = remove_rule id rs in
    if r.id == id
    then Result.◌>>=◌ (reject_managed r) (λ _. Result.◌>>=◌ rest (λ p. ok (p.0, true)))
    else Result.◌>>=◌ rest (λ p. ok (r ∷ p.0, p.1))

abbrev pub id_mem : ℕ → List ℕ → Bool
id_mem i ids = any (λ j. j == i) ids

-- The identifiers of the set `selected`, each once.
unfoldable pub distinct_ids : List ℕ → List ℕ
distinct_ids [] = []
distinct_ids (i ∷ is) = let rest = distinct_ids is in if id_mem i rest then rest else i ∷ rest

pub record Batched : Type 0 where
  pub out : List Rule
  pub found : ℕ
  pub routes : List Rule

-- What a batch operation makes of one selected rule.
unfoldable pub operate : String → Rule → Result (List Rule)
operate operation r =
    if str_eq operation "enable"
    then ok (record r { enabled = true } ∷ [])
    else if str_eq operation "disable"
    then ok (record r { enabled = false } ∷ [])
    else if str_eq operation "delete"
    then ok []
    else err (message "unsupported batch operation")

-- The loop of Batch.
unfoldable pub batch_rules : String → List ℕ → List Rule → Result Batched
batch_rules operation ids [] = ok (record { out = []; found = 0; routes = [] })
batch_rules operation ids (r ∷ rs) =
    let rest = batch_rules operation ids rs in
    if id_mem r.id ids
    then Result.◌>>=◌ (reject_managed r) (λ _. Result.◌>>=◌ (operate operation r) (λ kept.
      Result.◌>>=◌ rest (λ b. ok (record {
        out = kept ++ b.out;
        found = suc b.found;
        routes = if is_route r then r ∷ b.routes else b.routes;
      }))))
    else Result.◌>>=◌ rest (λ b. ok (record b { out = r ∷ b.out }))

abbrev pub is_nil_ids : List ℕ → Bool
is_nil_ids [] = true
is_nil_ids (i ∷ is) = false

module _ (env : Env) where
  abbrev pub publish_rules : Actor → ℕ → Result (List Rule) × World → Published × World
  publish_rules actor from (ok rules, w) = publish env rules actor from w
  publish_rules actor from (err e, w) = (record { version = no_version; error = some e }, w)

  -- Create, up to the call of publish.
  unfoldable pub created_rules : Rule → M (List Rule)
  created_rules r = do
    lift (reject_managed r)
    validate_route_write env (r ∷ [])
    rules ← all_rules env
    id ← next_rule_id env
    at ← now env
    pure (
        rules
        ++ record r {
          id = id;
          created_at_ms = at;
          updated_at_ms = at;
          source = or_source r.source "manual";
        }
          ∷ [])

  unfoldable pub create : Rule → Actor → World → Published × World
  create r actor w = publish_rules actor 0 (created_rules r w)

  -- The loop of Update: the rules with the replacement, and whether one was found. A replacement
  -- is the patch of the rest of the loop.
  unfoldable pub replace_rule : ℕ → Rule → List Rule → M (List Rule × Bool)
  replace_rule id patch [] = pure ([], false)
  replace_rule id patch (r ∷ rs) = elim (r.id == id) [
    | false ↦ replace_rule id patch rs >>= λ p. pure (r ∷ p.0, p.1)
    | true ↦
        lift (check_patch r patch)
        >> (now env >>= λ at. replace_rule id (patched id r patch at) rs >>= λ p.
            pure (patched id r patch at ∷ p.0, true))
  ]

  -- Update, up to the call of publish.
  unfoldable pub updated_rules : ℕ → Rule → M (List Rule)
  updated_rules id patch = do
    rules ← all_rules env
    validate_route_write env (patch ∷ [])
    p ← replace_rule id patch rules
    lift (if p.1 then ok p.0 else err no_rows)

  unfoldable pub update : ℕ → Rule → Actor → World → Published × World
  update id patch actor w = publish_rules actor 0 (updated_rules id patch w)

  -- Delete, up to the call of publish.
  unfoldable pub remaining_rules : ℕ → M (List Rule)
  remaining_rules id = do
    rules ← all_rules env
    p ← lift (remove_rule id rules)
    lift (if p.1 then ok p.0 else err no_rows)

  unfoldable pub delete : ℕ → Actor → World → Published × World
  delete id actor w = publish_rules actor 0 (remaining_rules id w)

  -- Rollback, up to the call of publish.
  unfoldable pub recorded_rules : ℕ → Option ℕ → M (List Rule)
  recorded_rules from expected = do
    row ← query env (λ t. or_fail (find_version from t.versions) no_rows)
    lift (
        if is_none expected
        then reject_if (has_route_rules row.rules)
            "route rollback requires expected_upstream_registry_version"
        else ok tt)
    validate_route_targets env row.rules expected
    pure row.rules

  unfoldable pub rollback : ℕ → Option ℕ → Actor → World → Published × World
  rollback from expected actor w = publish_rules actor from (recorded_rules from expected w)

  -- The checks of the selected route rules.
  abbrev pub check_routes : List Rule → Option ℕ → M (Unit {0})
  check_routes [] expected = pure tt
  check_routes (r ∷ rs) none =
      lift (err (message "route batch operations require expected_upstream_registry_version"))
  check_routes (r ∷ rs) (some v) = validate_route_targets env (r ∷ rs) (some v)

  -- Batch, up to the call of publish.
  unfoldable pub operated_rules : String → List ℕ → Option ℕ → M (List Rule)
  operated_rules operation ids expected = do
    lift (reject_if (is_nil_ids ids) "ids must not be empty")
    rules ← all_rules env
    b ← lift (batch_rules operation ids rules)
    lift (if b.found == length (distinct_ids ids) then ok tt else err no_rows)
    check_routes b.routes expected
    pure b.out

  unfoldable pub batch : String → List ℕ → Option ℕ → Actor → World → Published × World
  batch operation ids expected actor w =
      publish_rules actor 0 (operated_rules operation ids expected w)

  -- The loop of Import, over the incoming rules and their identifiers.
  unfoldable pub number_rules : List Rule → List ℕ → M (List Rule)
  number_rules (r ∷ rs) (i ∷ is) = do
    lift (reject_managed r)
    at ← now env
    rest ← number_rules rs is
    pure (
        record r {
          id = i;
          created_at_ms = at;
          updated_at_ms = at;
          source = or_source r.source "import";
        }
        ∷ rest)
  number_rules _ _ = pure []

  -- Import, up to the call of publish.
  unfoldable pub imported_rules : List Rule → M (List Rule)
  imported_rules incoming = do
    current ← all_rules env
    validate_route_write env incoming
    ids ← reserve_rule_ids env (length incoming)
    numbered ← number_rules incoming ids
    pure (current ++ numbered)

  unfoldable pub import_rules : List Rule → Actor → World → Published × World
  import_rules incoming actor w = publish_rules actor 0 (imported_rules incoming w)

-- The requests of the administration, as the HTTP handlers pass them on.
pub data Request : Type 0 where
  create_rule : Rule → Request
  update_rule : ℕ → Rule → Request
  delete_rule : ℕ → Request
  roll_back : ℕ → Option ℕ → Request
  operate_rules : String → List ℕ → Option ℕ → Request
  import_list : List Rule → Request

unfoldable pub handle : Env → Request → Actor → World → Published × World
handle env (create_rule r) actor w = create env r actor w
handle env (update_rule id patch) actor w = update env id patch actor w
handle env (delete_rule id) actor w = delete env id actor w
handle env (roll_back from expected) actor w = rollback env from expected actor w
handle env (operate_rules operation ids expected) actor w = batch env operation ids expected actor w
handle env (import_list incoming) actor w = import_rules env incoming actor w
