-- ===== src/Rules/Edit/Changes.antt =====
-- What Update, Delete, Rollback, Batch and Import hand to publish.
use mosdns_controller.Base.{
  ℕ, ◌<◌, ◌≡◌, ◌≢◌, refl, ◌∙◌, subst, ◌⊎◌, inl, inr, Bool, true, false, not, List, [], ◌∷◌, Option,
  some, ◌==◌, keep, any, arith, Bool-cases,
}
use mosdns_controller.Go.Result.{ok, Result-cases}
use mosdns_controller.Rules.Types.{Rule}
use mosdns_controller.Rules.Store.{VersionRow, Env, World}
use mosdns_controller.Rules.Store.Ensures.{
  Reads, bind, read_then, weaken_pair, now-Reads, query-Reads, lift-Reads,
}
use mosdns_controller.Rules.Statements.{find_version}
use mosdns_controller.Rules.Publish.Steps.{validate_route_targets-Reads}
use mosdns_controller.Rules.Read.{is_subscription_rule, listed_rules}
use mosdns_controller.Rules.Edit.{
  patched, check_patch, replace_rule, updated_rules, remove_rule, remaining_rules, recorded_rules,
}
use mosdns_controller.Rules.Edit.Steps.{validate_route_write-Reads, all_rules-Reads}

-- The loop of Update, rule by rule: a rule of another identifier stays, and one of the identifier is
-- replaced, if the patch carries its time of update; the replacement has a later one.
abbrev pub Replaced : ℕ → Rule → List Rule → List Rule → Type 0
Replaced id patch [] [] = Unit {0}
Replaced id patch [] (s ∷ ss) = ⊥
Replaced id patch (r ∷ rs) [] = ⊥
Replaced id patch (r ∷ rs) (s ∷ ss) =
    ((r.id ≢ id) × (s ≡ r) × Replaced id patch rs ss)
    ⊎ ((r.id ≡ id)
        × (is_subscription_rule r ≡ false)
        × (0 < patch.updated_at_ms)
        × (patch.updated_at_ms ≡ r.updated_at_ms)
        × (r.updated_at_ms < s.updated_at_ms)
        × ((at : ℕ) × (s ≡ patched id r patch at))
        × Replaced id s rs ss)

check_patch-ok :
    (id : ℕ) (old patch : Rule) (at : ℕ) {u : Unit {0}}
    → check_patch old patch ≡ ok u
    → (is_subscription_rule old ≡ false)
      × (0 < patch.updated_at_ms)
      × (patch.updated_at_ms ≡ old.updated_at_ms)
      × (old.updated_at_ms < (patched id old patch at).updated_at_ms)
unfolding check_patch patched
check_patch-ok id old patch at e = ground arith

abbrev pub has_id : ℕ → List Rule → Bool
has_id id rs = any (λ r. r.id == id) rs

module _ (env : Env) where
  replace_rule-Replaced :
      (id : ℕ) (patch : Rule) (rules : List Rule) (w : World)
      → Reads w
          (λ p. Replaced id patch rules p.0 × (p.1 ≡ has_id id rules))
          (replace_rule env id patch rules)
  unfolding replace_rule
  replace_rule-Replaced id patch [] w = record { outcome = (refl, (tt, refl)) }
  replace_rule-Replaced id patch (r ∷ rs) w = elim (Bool-cases (r.id == id)) [
    | inr e ↦
        rw (e, replace_rule)
          (bind _ _ _ (replace_rule-Replaced id patch rs w)
            (λ p w1 h1. record {
              outcome = (h1.0, (inl (ground (arith, e), refl, h1.1.0), ground (arith, h1.1.1, e)));
            })
            (λ e w1 h1. h1))
    | inl e ↦
        rw (e, replace_rule)
          (read_then _ _ w refl (lift-Reads w _) λ _ w1 s1 checked.
            read_then _ _ w1 s1 (now-Reads env w1) λ at w2 s2 _.
              read_then _ _ w2 s2 (replace_rule-Replaced id (patched id r patch at) rs w2)
                λ p w3 s3 h3.
                  let k = check_patch-ok id r patch at checked in
                  record {
                    outcome = (
                      s3,
                      (
                        inr (ground (arith, e), k.0, k.1, k.2, k.3, (at, refl), h3.0),
                        ground (arith, e),
                      ),
                    );
                  })
  ]

  -- Update replaces the rule that is listed under the identifier, and no other.
  pub updated_rules-Reads :
      (w : World) (id : ℕ) (patch : Rule)
      → Reads w
          (λ rules.
            Replaced id patch (listed_rules w.tables) rules
            × (has_id id (listed_rules w.tables) ≡ true))
          (updated_rules env id patch)
  unfolding updated_rules
  updated_rules-Reads w id patch =
      read_then _ _ w refl (all_rules-Reads env w) λ rules w1 s1 listed.
        read_then _ _ w1 s1 (validate_route_write-Reads env w1 (patch ∷ [])) λ _ w2 s2 _.
          read_then _ _ w2 s2 (replace_rule-Replaced id patch rules w2) λ p w3 s3 h3.
            weaken_pair _ (lift-Reads w3 _)
              (λ out w4 h4.
                let found : has_id id rules ≡ true = ground (arith, h3.1, h4.1) in
                let same : p.0 ≡ out = ground (arith, h4.1) in
                (
                  h4.0 ∙ s3,
                  (
                    subst (λ rs. Replaced id patch rs out) listed
                        (subst (Replaced id patch rules) same h3.0),
                    subst (λ rs. has_id id rs ≡ true) listed found,
                  ),
                ))
              (λ e w4 h4. h4 ∙ s3)

abbrev pub others : ℕ → List Rule → List Rule
others id rs = keep (λ r. not (r.id == id)) rs

remove_rule-others :
    (id : ℕ) (rules : List Rule) {p : List Rule × Bool}
    → remove_rule id rules ≡ ok p
    → (p.0 ≡ others id rules) × (p.1 ≡ has_id id rules)
unfolding remove_rule
remove_rule-others id [] e = ground arith
remove_rule-others id (r ∷ rs) {p} e = elim (Result-cases (remove_rule id rs)) [
  | inr (x, f) ↦ absurd (ground (arith, f))
  | inl (q, f) ↦ ground (arith, f, remove_rule-others id rs f)
]

module _ (env : Env) where
  -- Delete takes away the rules that are listed under the identifier, and there is one.
  pub remaining_rules-Reads :
      (w : World) (id : ℕ)
      → Reads w
          (λ rules.
            (rules ≡ others id (listed_rules w.tables))
            × (has_id id (listed_rules w.tables) ≡ true))
          (remaining_rules env id)
  unfolding remaining_rules
  remaining_rules-Reads w id = read_then _ _ w refl (all_rules-Reads env w) λ rules w1 s1 listed.
      read_then _ _ w1 s1 (lift-Reads w1 _) λ p w2 s2 removed.
        let k = remove_rule-others id rules removed in
        weaken_pair _ (lift-Reads w2 _)
          (λ out w3 h3.
            (h3.0 ∙ s2, (ground (arith, h3.1, k, listed), ground (arith, h3.1, k, listed))))
          (λ e w3 h3. h3 ∙ s2)

  -- Rollback takes the rules that the row of the version records.
  pub recorded_rules-Reads :
      (w : World) (from : ℕ) (expected : Option ℕ)
      → Reads w
          (λ rules.
            (row : VersionRow) × (find_version from w.tables.versions ≡ some row)
            × (rules ≡ row.rules))
          (recorded_rules env from expected)
  unfolding recorded_rules
  recorded_rules-Reads w from expected =
      read_then _ _ w refl (query-Reads env w _) λ row w1 s1 found.
        read_then _ _ w1 s1 (lift-Reads w1 _) λ _ w2 s2 _.
          read_then _ _ w2 s2 (validate_route_targets-Reads env w2 row.rules expected)
            λ _ w3 s3 _. record { outcome = (s3, (row, ground (arith, found), refl)) }
