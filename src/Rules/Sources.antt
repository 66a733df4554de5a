-- ===== src/Rules/Sources.antt =====
-- controller/internal/rules/subscriptions.go: subscriptionSets, the published form of the sources.
use mosdns_controller.Base.{
  String, Bool, true, false, not, ◌&&◌, List, [], ◌∷◌, none, some, str_eq, if◌then◌else◌,
}
use mosdns_controller.Go.Text.{sort_texts}
use mosdns_controller.Go.Result.{Result, ok, err, message, reject_if, or_fail}
use mosdns_controller.Go.Result
use mosdns_controller.Rules.Snapshot.{SubscriptionSet, sort_by}
use mosdns_controller.Rules.Store.{Subscription, SourceRow, Env, M, ◌>>=◌, lift, query}
use mosdns_controller.Rules.Statements.{source_less}

abbrev is_bound : Subscription → Bool
is_bound s = elim s.binding [ none ↦ false | some b ↦ true ]

-- The set of a source with its domains: the binding is published for route sources only.
unfoldable pub source_set : Subscription → List String → SubscriptionSet
source_set s domains =
    let plain : SubscriptionSet = record {
      source_id = s.id;
      source_name = s.name;
      category = s.category;
      action = s.action;
      binding_id = 0;
      upstream_group_id = "";
      priority = 100;
      domains = sort_texts domains;
    } in
    if str_eq s.category "route"
    then (elim s.binding [
      | none ↦ plain
      | some b ↦ record plain {
        binding_id = b.id;
        upstream_group_id = b.upstream_group_id;
        priority = b.priority;
      }
    ])
    else plain

abbrev add_set : Subscription → List String → List SubscriptionSet → List SubscriptionSet
add_set s [] sets = sets
add_set s (d ∷ ds) sets = source_set s (d ∷ ds) ∷ sets

-- The loop over the rows in their order.
unfoldable pub build_sets : List SourceRow → Result (List SubscriptionSet)
build_sets [] = ok []
build_sets (row ∷ rows) =
    let s = row.subscription in
    let rest = build_sets rows in
    if not s.enabled
    then rest
    else Result.◌>>=◌
        (reject_if (str_eq s.category "route" && not (is_bound s))
          "route subscription has no binding")
        (λ _.
          Result.◌>>=◌ (or_fail row.domains (message "subscription domains are invalid"))
            (λ domains. Result.◌>>=◌ rest (λ sets. ok (add_set s domains sets))))

-- subscriptionSets
unfoldable pub subscription_sets : Env → M (List SubscriptionSet)
subscription_sets env = do
  rows ← query env (λ t. ok (sort_by source_less t.sources.rows))
  lift (build_sets rows)
