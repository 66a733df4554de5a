-- ===== src/Rules/Read.antt =====
-- controller/internal/rules/service.go: allRules (List reads the same), and the identifiers of rules.
use Prim.Native.Char.{code}
use mosdns_controller.Base.{
  ℕ, zero, suc, ◌+◌, ◌%◌, ◌^◌, String, Bool, true, false, not, ◌&&◌, List, [], ◌∷◌, map, none, some,
  ◌==◌, str_eq, if◌then◌else◌, ltb, leb, keep, starts_with,
}
use mosdns_controller.Go.Int.{lt, eq}
use mosdns_controller.Go.Text.{text_lt}
use mosdns_controller.Go.Result.{Result, ok, err, no_rows, reject_if, or_fail}
use mosdns_controller.Rules.Types.{Rule}
use mosdns_controller.Rules.Snapshot.{sort_by}
use mosdns_controller.Rules.Store.{RuleRow, Tables, Env, M, ◌>>=◌, ◌>>◌, pure, lift, query, exec}

-- isSubscriptionRule
unfoldable pub is_subscription_rule : Rule → Bool
is_subscription_rule r = starts_with r.source "subscription:"

-- LIKE compares ASCII letters without regard to case.
abbrev fold_case : ℕ → ℕ
fold_case c = if leb b'A' c && leb c b'Z' then c + 32 else c

-- text LIKE 'prefix%'
unfoldable pub like_prefix : String → String → Bool
like_prefix s String.[] = true
like_prefix String.[] (String.◌∷◌ d p) = false
like_prefix (String.◌∷◌ c s) (String.◌∷◌ d p) =
    fold_case (code c) == fold_case (code d) && like_prefix s p

-- ORDER BY category,priority ASC,match_type,normalized_pattern,id
unfoldable pub row_less : RuleRow → RuleRow → Bool
row_less x y =
    let a = x.rule in
    let b = y.rule in
    if not (str_eq a.category b.category)
    then text_lt a.category b.category
    else if not (eq a.priority b.priority)
    then lt a.priority b.priority
    else if not (str_eq a.match_type b.match_type)
    then text_lt a.match_type b.match_type
    else if not (str_eq x.normalized_pattern y.normalized_pattern)
    then text_lt x.normalized_pattern y.normalized_pattern
    else ltb a.id b.id

-- The scan of a row: COALESCE(upstream_group_id,'').
abbrev pub scan_rule : RuleRow → Rule
scan_rule x = record (x.rule) {
  upstream_group_id = elim x.upstream_group_id [ none ↦ "" | some g ↦ g ];
}

abbrev pub is_listed : RuleRow → Bool
is_listed x = not (like_prefix x.rule.source "subscription:")

-- The SELECT of list with the filter that List and allRules give it.
unfoldable pub listed_rules : Tables → List Rule
listed_rules t = map scan_rule (sort_by row_less (keep is_listed t.domain_rules))

-- An int64 counter one further, in two's complement.
abbrev pub next_id : ℕ → ℕ
next_id n = (n + 1) % 2 ^ 64

-- The identifiers after `n`.
unfoldable pub ids_after : ℕ → ℕ → List ℕ
ids_after n zero = []
ids_after n (suc k) = next_id n ∷ ids_after (next_id n) k

unfoldable pub last_id : ℕ → ℕ → ℕ
last_id n zero = n
last_id n (suc k) = last_id (next_id n) k

abbrev pub counter_of : Tables → ℕ
counter_of t = elim t.next_rule_id [ none ↦ 0 | some n ↦ n ]

-- ids[0]
abbrev pub first_of_ids : List ℕ → Result ℕ
first_of_ids [] = err no_rows
first_of_ids (i ∷ is) = ok i

module _ (env : Env) where
  -- allRules
  unfoldable pub all_rules : M (List Rule)
  all_rules = query env (λ t. ok (listed_rules t))

  -- reserveRuleIDs
  unfoldable pub reserve_rule_ids : ℕ → M (List ℕ)
  reserve_rule_ids n = do
    lift (reject_if (ltb n 1) "rule ID count must be greater than zero")
    exec env (λ t. ok (record t { next_rule_id = some (counter_of t) }))
    first ← query env (λ t. or_fail t.next_rule_id no_rows)
    exec env (λ t. ok (record t { next_rule_id = some (last_id first n) }))
    pure (ids_after first n)

  -- nextRuleID
  unfoldable pub next_rule_id : M ℕ
  next_rule_id = do ids ← reserve_rule_ids 1; lift (first_of_ids ids)
