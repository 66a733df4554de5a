-- ===== src/Rules/Publish/Consistent.antt =====
-- The invariant of the tables of the rules service.
use mosdns_controller.Base.{
  ℕ, ◌≤◌, ◌≡◌, refl, ap, ◌∙◌, sym, subst, List, [], ◌∷◌, map, some, All, arith,
}
use mosdns_controller.Rules.Types.{Rule}
use mosdns_controller.Rules.Normalize.{Library}
use mosdns_controller.Rules.Store.{VersionRow, RuleRow, Tables, Env}
use mosdns_controller.Rules.Statements.{
  find_active, active_of, activate_row, supersede_row, find_version,
}
use mosdns_controller.Rules.Statements.Versions.{
  active_count, Descends, Descends-supersede, update_version-Descends, active_count-update,
  active_count-supersede, find_active-update, find_version-supersede, find_version-version,
}
use mosdns_controller.Rules.Publish.{persisted, rule_row}
use mosdns_controller.Rules.Publish.Steps.{Stored, DistinctIds, IsFinalized}

-- The stored rules are the rules of the version.
pub record Mirrors (row : VersionRow) (rows : List RuleRow) : Type 0 where
  pub rules : map (λ x. x.rule) rows ≡ map persisted row.rules
  pub versions : All (λ x. x.version ≡ row.version) rows

-- The versions fall along the table, at most one is active, no two stored rules have one identifier,
-- and the stored rules are those of the active version.
pub record IsConsistent (t : Tables) : Type 0 where
  pub descends : Descends t.versions
  pub single : active_count t.versions ≤ 1
  pub distinct : DistinctIds t.domain_rules
  pub mirrors : (row : VersionRow) → find_active t.versions ≡ some row → Mirrors row t.domain_rules

Stored-rules :
    (lib : Library) (v : ℕ) (rules : List Rule) (rows : List RuleRow)
    → Stored lib v rules rows
    → (map (λ x. x.rule) rows ≡ map persisted rules) × All (λ x. x.version ≡ v) rows
unfolding rule_row
Stored-rules lib v [] [] h = (refl, tt)
Stored-rules lib v [] (x ∷ xs) h = absurd h
Stored-rules lib v (r ∷ rs) [] h = absurd h
Stored-rules lib v (r ∷ rs) (x ∷ xs) h =
    let (same, versions) = Stored-rules lib v rs xs h.2 in
    (ground (arith, h.1, same), (ground (arith, h.1), versions))

pub persisted_twice : (rs : List Rule) → map persisted (map persisted rs) ≡ map persisted rs
persisted_twice [] = refl
persisted_twice (r ∷ rs) = ap (◌∷◌ (persisted r)) (persisted_twice rs)

module _ {env : Env} {v : ℕ} {rules : List Rule} {t t' : Tables} {row : VersionRow}
    (h : IsFinalized env v rules t t') (found : find_version v t.versions ≡ some row) where
  activated_row : VersionRow
  activated_row = activate_row h.at (supersede_row row)

  find_active-finalized : find_active t'.versions ≡ some activated_row
  unfolding activated_row
  find_active-finalized =
      ap find_active h.versions
      ∙ find_active-update v (activate_row h.at) _ (active_count-supersede t.versions) refl
          (find_version-supersede v t.versions found)

  activated_row-kept : (activated_row.rules ≡ row.rules) × (activated_row.version ≡ v)
  unfolding activated_row
  activated_row-kept = ground (arith, find_version-version v t.versions found)

  -- After finalizeWithRules its version is the active one.
  pub finalized-current : active_of t'.versions ≡ v
  unfolding active_of
  finalized-current = ground (arith, find_active-finalized, activated_row-kept)

  -- And the tables are consistent, if the rules are those of the version's row.
  pub finalized-IsConsistent :
      Descends t.versions → map persisted rules ≡ map persisted row.rules → IsConsistent t'
  finalized-IsConsistent d same = record {
    descends = subst Descends (sym h.versions) (
        update_version-Descends v (activate_row h.at) _ (λ r. refl)
          (Descends-supersede t.versions d));
    single =
        subst (λ rs. active_count rs ≤ 1) (sym h.versions)
          (active_count-update v (activate_row h.at) _ (Descends-supersede t.versions d)
            (active_count-supersede t.versions));
    distinct = h.distinct;
    mirrors = λ r e.
        let same_row : activated_row ≡ r = ground (arith, e, find_active-finalized) in
        subst (λ r. Mirrors r t'.domain_rules) same_row
          (record {
            rules = stored.0 ∙ same ∙ ap (map persisted) (sym activated_row-kept.0);
            versions =
                subst (λ n. All (λ x. x.version ≡ n) t'.domain_rules) (sym activated_row-kept.1)
                  stored.1;
          });
  }
    where
      stored :
          (map (λ x. x.rule) t'.domain_rules ≡ map persisted rules)
          × All (λ x. x.version ≡ v) t'.domain_rules
      stored = Stored-rules env.library v rules t'.domain_rules h.stored
