-- ===== src/Rules/Edit/Steps.antt =====
-- What each operation hands to publish, and that it has changed no more than the counter of
-- identifiers by then.
use mosdns_controller.Base.{ℕ, ◌≤◌, ◌≡◌, refl, ◌∙◌, String, false, List, [], ◌∷◌, ◌++◌, some, arith}
use mosdns_controller.Go.Result.{ok}
use mosdns_controller.Rules.Types.{Rule}
use mosdns_controller.Rules.Store.{Tables, Env, World}
use mosdns_controller.Rules.Store.Ensures.{
  Holds, Reads, bind, read_then, weaken_pair, now-Reads, query-Reads, exec-Holds, lift-Reads,
}
use mosdns_controller.Rules.Targets.{validate_route_write}
use mosdns_controller.Rules.Publish.Steps.{validate_route_targets-Reads}
use mosdns_controller.Rules.Read.{
  is_subscription_rule, listed_rules, all_rules, reserve_rule_ids, next_rule_id, ids_after, last_id,
  next_id, counter_of,
}
use mosdns_controller.Rules.Edit.{reject_managed, or_source, created_rules}

-- At most the counter differs.
abbrev pub OnlyCounter : Tables → Tables → Type 0
OnlyCounter t u = u ≡ record t { next_rule_id = u.next_rule_id }

-- A rule as Create and Import store it.
abbrev pub numbered : Rule → ℕ → ℕ → String → Rule
numbered r id at default = record r {
  id = id;
  created_at_ms = at;
  updated_at_ms = at;
  source = or_source r.source default;
}

pub reject_managed-ok :
    (r : Rule) {u : Unit {0}} → reject_managed r ≡ ok u → is_subscription_rule r ≡ false
reject_managed-ok r e = ground arith

module _ (env : Env) where
  pub validate_route_write-Reads :
      (w : World) (rules : List Rule) → Reads w (λ _. Unit {0}) (validate_route_write env rules)
  unfolding validate_route_write
  validate_route_write-Reads w rules = read_then _ _ w refl (lift-Reads w _) λ expected w1 s1 _.
      weaken_pair _ (validate_route_targets-Reads env w1 rules expected) (λ _ w2 h. (h.0 ∙ s1, tt))
        (λ e w2 h. h ∙ s1)

  pub all_rules-Reads :
      (w : World) → Reads w (λ rules. rules ≡ listed_rules w.tables) (all_rules env)
  unfolding all_rules
  all_rules-Reads w =
      weaken_pair _ (query-Reads env w _) (λ rules v h. (h.0, ground (arith, h.1))) (λ e v h. h)

  -- The reserved identifiers are the next ones of the counter, which moves past them.
  pub reserve_rule_ids-Holds :
      (w : World) (n : ℕ)
      → Holds
          (λ ids u.
            (1 ≤ n)
            × (ids ≡ ids_after (counter_of w.tables) n)
            × (u.tables
                ≡ record (w.tables) { next_rule_id = some (last_id (counter_of w.tables) n) }))
          (λ e u. OnlyCounter w.tables u.tables)
          (reserve_rule_ids env n w)
  unfolding reserve_rule_ids
  reserve_rule_ids-Holds w n =
      bind _ _ _ (lift-Reads w _)
        (λ _ w1 h1.
          bind _ _ _ (exec-Holds env w1 _)
            (λ _ w2 h2.
              bind _ _ _ (query-Reads env w2 _)
                (λ first w3 h3.
                  bind _ _ _ (exec-Holds env w3 _)
                    (λ _ w4 h4. record {
                      outcome =
                          (ground arith, ground (arith, h1.0), ground (arith, h1.0, h3.0, h3.1));
                    })
                    (λ e w4 h4. ground (arith, h1.0, h3.0)))
                (λ e w3 h3. ground (arith, h1.0)))
            (λ e w2 h2. ground (arith, h1.0)))
        (λ e w1 h1. ground arith)

  next_rule_id-Holds :
      (w : World)
      → Holds
          (λ id u.
            (id ≡ next_id (counter_of w.tables))
            × (u.tables
                ≡ record (w.tables) { next_rule_id = some (next_id (counter_of w.tables)) }))
          (λ e u. OnlyCounter w.tables u.tables)
          (next_rule_id env w)
  unfolding next_rule_id ids_after last_id
  next_rule_id-Holds w =
      bind _ _ _ (reserve_rule_ids-Holds w 1)
        (λ ids w1 h1.
          weaken_pair _ (lift-Reads w1 _)
            (λ id w2 h2. (ground (arith, h2.1, h1.1), ground (arith, h2.0, h1.2)))
            (λ e w2 h2. ground (arith, h2, h1.2)))
        (λ e w1 h1. h1)

  -- Create adds the rule under the next identifier; it refuses a subscription's rule.
  pub created_rules-Holds :
      (w : World) (r : Rule)
      → Holds
          (λ rules u.
            (is_subscription_rule r ≡ false)
            × ((at : ℕ) × (rules
                  ≡ listed_rules w.tables
                    ++ numbered r (next_id (counter_of w.tables)) at "manual" ∷ []))
            × (u.tables
                ≡ record (w.tables) { next_rule_id = some (next_id (counter_of w.tables)) }))
          (λ e u. OnlyCounter w.tables u.tables)
          (created_rules env r w)
  unfolding created_rules
  created_rules-Holds w r =
      bind _ _ _ (lift-Reads w _)
        (λ _ w1 h1.
          bind _ _ _ (validate_route_write-Reads w1 (r ∷ []))
            (λ _ w2 h2.
              bind _ _ _ (all_rules-Reads w2)
                (λ rules w3 h3.
                  bind _ _ _ (next_rule_id-Holds w3)
                    (λ id w4 h4.
                      let same : w3.tables ≡ w.tables = h3.0 ∙ h2.0 ∙ h1.0 in
                      bind _ _ _ (now-Reads env w4)
                        (λ at w5 h5. record {
                          outcome = (
                            reject_managed-ok r h1.1,
                            (at, ground (arith, h3.1, h2.0, h1.0, h4.0, same)),
                            ground (arith, h5.0, h4.1, same),
                          );
                        })
                        (λ e w5 h5. ground (arith, h5, h4.1, same)))
                    (λ e w4 h4. ground (arith, h4, h3.0, h2.0, h1.0)))
                (λ e w3 h3. ground (arith, h3, h2.0, h1.0)))
            (λ e w2 h2. ground (arith, h2, h1.0)))
        (λ e w1 h1. ground (arith, h1))
