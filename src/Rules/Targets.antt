-- ===== src/Rules/Targets.antt =====
-- controller/internal/rules/service.go: the upstream groups that route rules name.
use mosdns_controller.Base.{
  ℕ, String, Bool, true, false, not, ◌||◌, List, [], ◌∷◌, map, Option, none, some, ◌==◌,
  if◌then◌else◌, keep,
}
use mosdns_controller.Go.Text.{trim_space, text_mem}
use mosdns_controller.Go.Result.{Result, ok, err, message, version_conflict, reject_if}
use mosdns_controller.Rules.Types.{Rule}
use mosdns_controller.Rules.Validate.{is_route}
use mosdns_controller.Rules.Store.{Group, Registry, Env, M, ◌>>=◌, pure, lift, call}

-- The groups that the route rules name; a group named twice stands here twice.
unfoldable pub targets_of : List Rule → List String
targets_of [] = []
targets_of (r ∷ rs) =
    let rest = targets_of rs in if is_route r then trim_space r.upstream_group_id ∷ rest else rest

abbrev pub enabled_ids : List Group → List String
enabled_ids gs = map (λ g. g.id) (keep (λ g. g.enabled) gs)

abbrev pub is_empty : List String → Bool
is_empty [] = true
is_empty (x ∷ xs) = false

abbrev pub differs : Option ℕ → ℕ → Bool
differs none v = false
differs (some e) v = not (v == e)

-- What the registry must show: the expected version, and every target enabled.
unfoldable pub check_targets : List String → Option ℕ → Registry → Result (Unit {0})
check_targets targets expected registry =
    if differs expected registry.version
    then err version_conflict
    else reject_if
        (not (is_empty (keep (λ t. not (text_mem t (enabled_ids registry.groups))) targets)))
        "upstream group must exist and be enabled"

abbrev pub targets_checked : Env → List String → Option ℕ → M (Unit {0})
targets_checked env [] expected = pure tt
targets_checked env (t ∷ ts) expected = do
  registry ← call env env.registry
  lift (check_targets (t ∷ ts) expected registry)

-- validateRouteTargets
unfoldable pub validate_route_targets : Env → List Rule → Option ℕ → M (Unit {0})
validate_route_targets env rules expected = targets_checked env (targets_of rules) expected

-- The loop of validateRouteWrite: the one registry version that the route rules expect.
unfoldable pub expected_version : Option ℕ → List Rule → Result (Option ℕ)
expected_version expected [] = ok expected
expected_version expected (r ∷ rs) =
    if is_route r
    then (elim r.expected_registry_version [
      | none ↦ err (message "route rules require expected_upstream_registry_version")
      | some v ↦
          if differs expected v
          then err (message "route rules must use one expected_upstream_registry_version")
          else expected_version (some v) rs
    ])
    else expected_version expected rs

-- validateRouteWrite
unfoldable pub validate_route_write : Env → List Rule → M (Unit {0})
validate_route_write env rules = do
  expected ← lift (expected_version none rules)
  validate_route_targets env rules expected

-- hasRouteRules
unfoldable pub has_route_rules : List Rule → Bool
has_route_rules [] = false
has_route_rules (r ∷ rs) = is_route r || has_route_rules rs
