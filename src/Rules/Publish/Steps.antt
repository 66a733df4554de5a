-- ===== src/Rules/Publish/Steps.antt =====
-- What each step of publish leaves in the tables.
use mosdns_controller.Base.{
  ◌||◌, ℕ, ◌+◌, ◌≡◌, ◌≢◌, refl, ◌∙◌, sym, subst, String, false, List, [], ◌∷◌, ◌++◌, map, Option,
  none, ◌==◌, any, All, All-append, arith, Bool-cases, inl, inr,
}
use mathlib.Core.List.{append-nil, append_assoc}
use mosdns_controller.Go.Result.{ok}
use mosdns_controller.Rules.Types.{Rule}
use mosdns_controller.Rules.Normalize.{Library, normalize}
use mosdns_controller.Rules.Validate.{validate_rules}
use mosdns_controller.Rules.Snapshot.{SubscriptionSet, build_snapshot, sort_by}
use mosdns_controller.Rules.Store.{VersionRow, RuleRow, Tables, Env, World}
use mosdns_controller.Rules.Store.Ensures.{
  Holds, Reads, bind, then_, read_then, weaken_pair, call-Reads, now-Reads, query-Reads, exec-Holds,
  transaction-Holds, lift-Reads,
}
use mosdns_controller.Rules.Statements.{
  max_version, active_of, insert_version, supersede_active, set_active, clear_rules, insert_rule,
  insert_audit, source_less, same_pattern, update_version, activate_row, supersede_row,
}
use mosdns_controller.Rules.Sources.{subscription_sets, build_sets}
use mosdns_controller.Rules.Targets.{
  validate_route_targets, targets_of, check_targets, targets_checked,
}
use mosdns_controller.Rules.Publish.{
  Candidate, Actor, candidate_row, rule_row, active_version, next_version, prepare, insert_rules,
  write_audit, finalize_body, finalize_with_rules,
}

-- The rows of domain_rules that finalizeWithRules writes for the rules of a version.
abbrev pub Stored : Library → ℕ → List Rule → List RuleRow → Type 0
Stored lib v [] [] = Unit {0}
Stored lib v [] (x ∷ xs) = ⊥
Stored lib v (r ∷ rs) [] = ⊥
Stored lib v (r ∷ rs) (x ∷ xs) =
    (normalize lib r.pattern r.match_type ≡ ok x.normalized_pattern)
    × (x ≡ rule_row v r x.normalized_pattern)
    × Stored lib v rs xs

-- No two stored rules have one identifier.
abbrev pub DistinctIds : List RuleRow → Type 0
DistinctIds [] = Unit {0}
DistinctIds (r ∷ rs) = All (λ s. r.rule.id ≢ s.rule.id) rs × DistinctIds rs

module _ (env : Env) where
  pub subscription_sets-Reads :
      (w : World)
      → Reads w
          (λ sets. build_sets (sort_by source_less w.tables.sources.rows) ≡ ok sets)
          (subscription_sets env)
  unfolding subscription_sets
  subscription_sets-Reads w =
      bind _ _ _ (query-Reads env w _)
        (λ rows v h.
          weaken_pair _ (lift-Reads v (build_sets rows))
            (λ sets u k. (ground (arith, h.0, k.0), ground (arith, h.1, k.1)))
            (λ e u k. ground (arith, h.0, k)))
        (λ e v h. h)

  targets_checked-Reads :
      (w : World) (targets : List String) (expected : Option ℕ)
      → Reads w (λ _. Unit {0}) (targets_checked env targets expected)
  targets_checked-Reads w [] expected = record { outcome = (refl, tt) }
  targets_checked-Reads w (t ∷ ts) expected =
      bind _ _ _ (call-Reads env w env.registry)
        (λ registry v h.
          weaken_pair _ (lift-Reads v (check_targets (t ∷ ts) expected registry))
            (λ _ u k. (ground (arith, h.0, k.0), tt)) (λ e u k. ground (arith, h.0, k)))
        (λ e v h. h)

  pub validate_route_targets-Reads :
      (w : World) (rules : List Rule) (expected : Option ℕ)
      → Reads w (λ _. Unit {0}) (validate_route_targets env rules expected)
  unfolding validate_route_targets
  validate_route_targets-Reads w rules expected =
      targets_checked-Reads w (targets_of rules) expected

  -- A candidate of the tables `t`, with the tables after its INSERT.
  pub record IsPrepared (t : Tables) (rules : List Rule) (c : Candidate) (t' : Tables)
      : Type 0 where
    pub valid : validate_rules env.library rules ≡ ok c.rules
    pub version : c.version ≡ max_version t.versions + 1
    pub current : c.current ≡ active_of t.versions
    pub sets : List SubscriptionSet
    pub built : build_sets (sort_by source_less t.sources.rows) ≡ ok sets
    pub generated : ℕ
    pub snapshot : c.snapshot ≡ build_snapshot env.encode generated c.version c.current c.rules sets
    pub row : VersionRow
    pub row_of : (a : ℕ) × (f : ℕ) × (row ≡ candidate_row c a f)
    pub inserted : t' ≡ record t { versions = row ∷ t.versions }

  inserted-eq :
      (row : VersionRow) (t : Tables) {t' : Tables}
      → insert_version row t ≡ ok t'
      → t' ≡ record t { versions = row ∷ t.versions }
  unfolding insert_version
  inserted-eq row t e = ground arith

  -- Up to its INSERT publish only reads; a failure leaves the tables as they were.
  pub prepare-IsPrepared :
      (w : World) (rules : List Rule) (admin_id rollback_from : ℕ)
      → Holds
          (λ c w'. IsPrepared w.tables rules c w'.tables)
          (λ e w'. w'.tables ≡ w.tables)
          (prepare env rules admin_id rollback_from w)
  unfolding prepare active_version next_version
  prepare-IsPrepared w rules admin_id rollback_from =
      read_then _ _ w refl (subscription_sets-Reads w) λ sets w1 s1 v1.
        read_then _ _ w1 s1 (lift-Reads w1 _) λ valid w2 s2 v2.
          read_then _ _ w2 s2 (validate_route_targets-Reads w2 valid none) λ _ w3 s3 _.
            read_then _ _ w3 s3 (query-Reads env w3 _) λ current w4 s4 v4.
              read_then _ _ w4 s4 (query-Reads env w4 _) λ version w5 s5 v5.
                read_then _ _ w5 s5 (now-Reads env w5) λ generated w6 s6 _.
                  read_then _ _ w6 s6 (now-Reads env w6) λ created w7 s7 _.
                    bind _ _ _ (exec-Holds env w7 _)
                      (λ _ w8 h. record {
                        outcome = record {
                          valid = v2;
                          version = ground arith;
                          current = ground arith;
                          sets = sets;
                          built = v1;
                          generated = generated;
                          snapshot = refl;
                          row = _;
                          row_of = (admin_id, rollback_from, refl);
                          inserted = ground (arith, inserted-eq _ w7.tables h);
                        };
                      })
                      (λ e w8 h. h ∙ s7)

  -- What the loop of finalizeWithRules adds to domain_rules.
  pub record IsInserted (v : ℕ) (rules : List Rule) (t t' : Tables) : Type 0 where
    pub rows : List RuleRow
    pub stored : Stored env.library v rules rows
    pub added : t' ≡ record t { domain_rules = t.domain_rules ++ rows }
    pub distinct : DistinctIds t.domain_rules → DistinctIds t'.domain_rules

  insert_rule-eq :
      (row : RuleRow) (t : Tables) {t' : Tables}
      → insert_rule row t ≡ ok t'
      → t' ≡ record t { domain_rules = t.domain_rules ++ row ∷ [] }
  unfolding insert_rule
  insert_rule-eq row t e = ground arith

  distinct-snoc :
      (row : RuleRow) (rs : List RuleRow)
      → DistinctIds rs
      → any (λ r. r.rule.id == row.rule.id || same_pattern r row) rs ≡ false
      → DistinctIds (rs ++ row ∷ []) × All (λ r. r.rule.id ≢ row.rule.id) rs
  distinct-snoc row [] d e = ((tt, tt), tt)
  distinct-snoc row (r ∷ rs) d e =
      let (below, apart) = distinct-snoc row rs d.1 (ground arith) in
      let ne : r.rule.id ≢ row.rule.id = ground arith in
      ((All-append _ rs (row ∷ []) d.0 (ne, tt), below), (ne, apart))

  insert_rule-distinct :
      (row : RuleRow) (t : Tables) {t' : Tables}
      → insert_rule row t ≡ ok t'
      → DistinctIds t.domain_rules
      → DistinctIds t'.domain_rules
  unfolding insert_rule
  insert_rule-distinct row t {t'} e d =
      elim (Bool-cases (any (λ r. r.rule.id == row.rule.id || same_pattern r row) t.domain_rules)) [
        | inl b ↦ absurd (ground (arith, b))
        | inr b ↦
            subst (λ u. DistinctIds u.domain_rules) (sym (insert_rule-eq row t e))
              (distinct-snoc row t.domain_rules d b).0
      ]

  insert_rules-IsInserted :
      (v : ℕ) (rules : List Rule) (w : World)
      → Holds
          (λ _ w'. IsInserted v rules w.tables w'.tables)
          (λ e w'. Unit {0})
          (insert_rules env v rules w)
  unfolding insert_rules rule_row
  insert_rules-IsInserted v [] w = record {
    outcome = record {
      rows = [];
      stored = tt;
      added = ground (arith, append-nil w.tables.domain_rules);
      distinct = λ d. d;
    };
  }
  insert_rules-IsInserted v (r ∷ rs) w =
      bind _ _ _ (lift-Reads w _)
        (λ n w1 h1.
          bind _ _ _ (exec-Holds env w1 _)
            (λ _ w2 h2.
              weaken_pair _ (insert_rules-IsInserted v rs w2)
                (λ _ w3 h3. record {
                  rows = rule_row v r n ∷ h3.rows;
                  stored = (h1.1, refl, h3.stored);
                  added = ground (
                    arith,
                    insert_rule-eq _ w1.tables h2,
                    append_assoc w.tables.domain_rules (rule_row v r n ∷ []) h3.rows,
                  );
                  distinct = λ d. h3.distinct (
                      insert_rule-distinct _ w1.tables h2
                        (subst (λ t. DistinctIds t.domain_rules) (sym h1.0) d));
                })
                (λ e u k. tt))
            (λ e u k. tt))
        (λ e u k. tt)

  -- What finalizeWithRules leaves: the version is active, and its rules are the stored ones.
  pub record IsFinalized (v : ℕ) (rules : List Rule) (t t' : Tables) : Type 0 where
    pub at : ℕ
    pub versions : t'.versions ≡ update_version v (activate_row at) (map supersede_row t.versions)
    pub stored : Stored env.library v rules t'.domain_rules
    pub sources : t'.sources ≡ t.sources
    pub next_rule_id : t'.next_rule_id ≡ t.next_rule_id
    pub distinct : DistinctIds t'.domain_rules

  abbrev SameButAudit : Tables → Tables → Type 0
  SameButAudit t t' =
      (t'.versions ≡ t.versions)
      × (t'.domain_rules ≡ t.domain_rules)
      × (t'.sources ≡ t.sources)
      × (t'.next_rule_id ≡ t.next_rule_id)

  write_audit-SameButAudit :
      (actor : Actor) (w : World)
      → Holds (λ _ w'. SameButAudit w.tables w'.tables) (λ _ _. Unit {0}) (write_audit env actor w)
  unfolding write_audit insert_audit
  write_audit-SameButAudit actor w = elim (Bool-cases (actor.admin_id == 0)) [
    | inl e ↦ rw (e, write_audit) (record { outcome = (refl, refl, refl, refl) })
    | inr e ↦
        rw (e, write_audit)
          (bind _ _ _ (now-Reads env w)
            (λ at w1 h1.
              weaken_pair _ (exec-Holds env w1 _) (λ _ w2 h2. ground arith) (λ _ _ _. tt))
            (λ _ _ _. tt))
  ]

  finalize_body-IsFinalized :
      (v : ℕ) (rules : List Rule) (actor : Actor) (w : World)
      → Holds
          (λ _ w'. IsFinalized v rules w.tables w'.tables)
          (λ _ _. Unit {0})
          (finalize_body env v rules actor w)
  unfolding finalize_body supersede_active set_active clear_rules
  finalize_body-IsFinalized v rules actor w = then_ _ _ w (exec-Holds env w _) λ _ w1 h1.
      then_ _ _ w1 (now-Reads env w1) λ at w2 h2. then_ _ _ w2 (exec-Holds env w2 _) λ _ w3 h3.
        then_ _ _ w3 (exec-Holds env w3 _) λ _ w4 h4. then_ _ _ w4 (exec-Holds env w4 _) λ _ w5 h5.
          then_ _ _ w5 (insert_rules-IsInserted v rules w5) λ _ w6 h6.
            weaken_pair _ (write_audit-SameButAudit actor w6)
              (λ _ w7 h7.
                let empty : w5.tables.domain_rules ≡ [] = ground arith in
                let rows : w7.tables.domain_rules ≡ h6.rows = ground (arith, h6.added) in
                record {
                  at = at;
                  versions = ground (arith, h6.added);
                  stored = subst (Stored env.library v rules) (sym rows) h6.stored;
                  sources = ground (arith, h6.added);
                  next_rule_id = ground (arith, h6.added);
                  distinct =
                      subst (λ t. DistinctIds t) (sym h7.1)
                        (h6.distinct (subst (λ t. DistinctIds t) (sym empty) tt));
                })
              (λ _ _ _. tt)

  -- finalizeWithRules activates the version and stores its rules, or it changes nothing.
  pub finalize_with_rules-IsFinalized :
      (v : ℕ) (rules : List Rule) (actor : Actor) (w : World)
      → Holds
          (λ _ w'. IsFinalized v rules w.tables w'.tables)
          (λ e w'. w'.tables ≡ w.tables)
          (finalize_with_rules env v rules actor w)
  unfolding finalize_with_rules
  finalize_with_rules-IsFinalized v rules actor w =
      transaction-Holds env (λ _ t. IsFinalized v rules w.tables t) w _
        λ u e.
          subst
            (λ t.
              Holds (λ _ w'. IsFinalized v rules t w'.tables) (λ _ _. Unit {0})
                (finalize_body env v rules actor u))
            e (finalize_body-IsFinalized v rules actor u)
