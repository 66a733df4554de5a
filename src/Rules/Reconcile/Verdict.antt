-- ===== src/Rules/Reconcile/Verdict.antt =====
-- How a call of Reconcile may end.
use mosdns_controller.Base.{
  ℕ, ◌≡◌, ◌≢◌, refl, ap, ◌∙◌, sym, subst, ◌⊎◌, inl, inr, String, true, List, Option, none, some,
  ◌==◌, str_eq, eq_iff, ltb, arith, Bool-cases,
}
use mosdns_controller.Go.Result.{Error, Result, ok, err, no_rows}
use mosdns_controller.Rules.Snapshot.{SubscriptionSet, sort_by}
use mosdns_controller.Rules.Store.{VersionRow, Tables, Env, World, RuntimeStatus, call, query}
use mosdns_controller.Rules.Store.Ensures.{
  Outcome, Holds, Reads, read_then, weaken_pair, call-Reads, query-Reads,
}
use mosdns_controller.Rules.Statements.{is_candidate, find_version, find_active, source_less}
use mosdns_controller.Rules.Statements.Versions.{find_version-version}
use mosdns_controller.Rules.Sources.{subscription_sets, build_sets}
use mosdns_controller.Rules.Publish.{publish}
use mosdns_controller.Rules.Publish.Steps.{
  IsFinalized, subscription_sets-Reads, finalize_with_rules-IsFinalized,
}
use mosdns_controller.Rules.Read.{all_rules, listed_rules}
use mosdns_controller.Rules.Reconcile.Equal.{sets_eq-eq}
use mosdns_controller.Rules.Reconcile.{
  ReconcileState, no_state, matched_candidate, degraded, unchanged, Reconciled, sets_eq, on_ok,
  finish, system, find_candidate, as_republished, republish, finalize, adopt_candidate,
  compare_sources, compare_active, reconcile_active, reconcile_runtime, reconcile,
}

-- The tables after the candidate that mosdns runs has been activated.
pub record IsAdopted (env : Env) (s : RuntimeStatus) (t u : Tables) : Type 0 where
  pub row : VersionRow
  pub found : find_version row.version t.versions ≡ some row
  pub candidate : is_candidate row.status ≡ true
  pub version : row.version ≡ s.snapshot_version
  pub checksum : row.checksum ≡ s.checksum
  pub finalized : IsFinalized env row.version row.rules t u

-- A publication of the listed rules, from the tables `u`.
pub record IsReissued (env : Env) (u : Tables) (p : Reconciled × World) : Type 0 where
  pub request_id : String
  pub start : World
  pub tables : start.tables ≡ u
  pub result : p ≡ as_republished env (publish env (listed_rules u) (system request_id) 0 start)

-- The snapshot of the version of `row` publishes the subscriptions that the sources have.
pub record IsCurrent (t : Tables) (row : VersionRow) : Type 0 where
  pub recorded : VersionRow
  pub found : find_version row.version t.versions ≡ some recorded
  pub sets : List SubscriptionSet
  pub built : build_sets (sort_by source_less t.sources.rows) ≡ ok sets
  pub equal : recorded.snapshot.subscription_sets ≡ sets

-- `s` is what mosdns reports.
pub data Verdict (env : Env) (t : Tables) (s : RuntimeStatus) (p : Reconciled × World)
    : Type 0 where
  halted : p.1.tables ≡ t → p.0.error ≢ none → Verdict env t s p
  settled :
      (row : VersionRow)
      → p.1.tables ≡ t
      → p.0 ≡ record { state = unchanged; error = none }
      → find_active t.versions ≡ some row
      → row.version ≡ s.snapshot_version
      → row.checksum ≡ s.checksum
      → IsCurrent t row
      → Verdict env t s p
  adopted : IsAdopted env s t p.1.tables → p.0.state ≡ matched_candidate → Verdict env t s p
  reissued : IsReissued env t p → Verdict env t s p
  adopted_reissued : (u : Tables) → IsAdopted env s t u → IsReissued env u p → Verdict env t s p

on_ok_rule :
    {A : Type 0} {Q : A → World → Type 0} {E : Error → World → Type 0}
    (P : Reconciled × World → Type 0) (state : ReconcileState) (p : Result A × World)
    (k : A → World → Reconciled × World)
    → Holds Q E p
    → ((a : A) (w : World) → Q a w → P (k a w))
    → ((e : Error) (w : World) → E e w → P (record { state = state; error = some e }, w))
    → P (on_ok state p k)
on_ok_rule P state (ok a, w) k h f g = f a w h.outcome
on_ok_rule P state (err e, w) k h f g = g e w h.outcome

module _ (env : Env) where
  all_rules-Reads : (w : World) → Reads w (λ rules. rules ≡ listed_rules w.tables) (all_rules env)
  unfolding all_rules
  all_rules-Reads w =
      weaken_pair _ (query-Reads env w _) (λ rules v h. (h.0, ground (arith, h.1))) (λ e v h. h)

  -- republish either stops before it publishes, or is a publication of the listed rules.
  republish-cases :
      (P : Reconciled × World → Type 0) (state : ReconcileState) (request_id : String) (w : World)
      → ((e : Error) (v : World)
          → v.tables ≡ w.tables
          → P (record { state = state; error = some e }, v))
      → ((p : Reconciled × World) → IsReissued env w.tables p → P p)
      → P (republish env state request_id w)
  unfolding republish
  republish-cases P state request_id w stop go =
      on_ok_rule P state (all_rules env w) _ (all_rules-Reads w)
        (λ rules v h. go _ (record {
          request_id = request_id;
          start = v;
          tables = h.0;
          result = ap (λ rs. as_republished env (publish env rs (system request_id) 0 v)) h.1;
        }))
        stop

  finalize-Reads :
      (v : ℕ) (w : World)
      → Holds
          (λ _ w'.
            (row : VersionRow) × (find_version v w.tables.versions ≡ some row)
            × IsFinalized env v row.rules w.tables w'.tables)
          (λ e w'. w'.tables ≡ w.tables)
          (finalize env v w)
  unfolding finalize
  finalize-Reads v w = read_then _ _ w refl (query-Reads env w _) λ row w1 s1 found.
      weaken_pair _ (finalize_with_rules-IsFinalized env v row.rules (system "reconcile") w1)
        (λ _ w2 h.
          (row, ground (arith, found), subst (λ t. IsFinalized env v row.rules t w2.tables) s1 h))
        (λ e w2 h. h ∙ s1)

  find_candidate-lem :
      (v : ℕ) (t : Tables) {row : VersionRow}
      → find_candidate v t ≡ ok row
      → (find_version v t.versions ≡ some row) × (is_candidate row.status ≡ true)
  unfolding find_candidate
  find_candidate-lem v t e = ground arith

  same-IsFinalized :
      {t t1 u : Tables} {row row1 : VersionRow}
      → t1 ≡ t
      → find_version row.version t.versions ≡ some row
      → find_version row.version t1.versions ≡ some row1
      → IsFinalized env row.version row1.rules t1 u
      → IsFinalized env row.version row.rules t u
  same-IsFinalized {t} {t1} {u} {row} {row1} e f f1 h =
      let same : row1 ≡ row = ground (arith, e, f, f1) in
      subst (λ r. IsFinalized env row.version r.rules t u) same
        (subst (λ t. IsFinalized env row.version row1.rules t u) e h)

  module _ (t : Tables) (s : RuntimeStatus) where
    halted_with :
        (state : ReconcileState) (e : Error) (v : World)
        → v.tables ≡ t
        → Verdict env t s (finish state (some e) v)
    halted_with state e v h = halted h (λ k. cc)

    republish-Verdict :
        (state : ReconcileState) (request_id : String) (w : World)
        → w.tables ≡ t
        → Verdict env t s (republish env state request_id w)
    republish-Verdict state request_id w start =
        republish-cases (Verdict env t s) state request_id w
          (λ e v h. halted_with state e v (h ∙ start))
          (λ p h. reissued (subst (λ u. IsReissued env u p) start h))

    adopt_candidate-Verdict :
        (row : VersionRow) (w : World)
        → w.tables ≡ t
        → find_version row.version t.versions ≡ some row
        → is_candidate row.status ≡ true
        → row.version ≡ s.snapshot_version
        → row.checksum ≡ s.checksum
        → Verdict env t s (adopt_candidate env row.version w)
    unfolding adopt_candidate
    adopt_candidate-Verdict row w start found candidate version checksum =
        on_ok_rule (Verdict env t s) matched_candidate (subscription_sets env w) _
          (subscription_sets-Reads env w)
          (λ sets w1 h1.
            on_ok_rule (Verdict env t s) matched_candidate (finalize env row.version w1) _
              (finalize-Reads row.version w1)
              (λ _ w2 h2.
                let is_adopted : IsAdopted env s t w2.tables = record {
                  row = row;
                  found = found;
                  candidate = candidate;
                  version = version;
                  checksum = checksum;
                  finalized = same-IsFinalized (h1.0 ∙ start) found h2.1 h2.2;
                } in
                on_ok_rule (Verdict env t s) matched_candidate (query env _ w2) _
                  (query-Reads env w2 _)
                  (λ r w3 h3. elim (Bool-cases (sets_eq r.snapshot.subscription_sets sets)) [
                    | inl e ↦ rw e (adopted (subst (IsAdopted env s t) (sym h3.0) is_adopted) refl)
                    | inr e ↦ rw e (
                        republish-cases (Verdict env t s) matched_candidate
                          "reconcile_candidate_sources" w3
                          (λ e v h.
                            adopted (subst (IsAdopted env s t) (sym (h ∙ h3.0)) is_adopted) refl)
                          (λ p h.
                            adopted_reissued w2.tables is_adopted
                              (subst (λ u. IsReissued env u p) h3.0 h)))
                  ])
                  (λ e v h. adopted (subst (IsAdopted env s t) (sym h) is_adopted) refl))
              (λ e v h. halted_with matched_candidate e v (h ∙ h1.0 ∙ start)))
          (λ e v h. halted_with matched_candidate e v (h ∙ start))

    compare_sources-Verdict :
        (row : VersionRow) (w : World)
        → w.tables ≡ t
        → find_active t.versions ≡ some row
        → row.version ≡ s.snapshot_version
        → row.checksum ≡ s.checksum
        → Verdict env t s (compare_sources env row w)
    unfolding compare_sources
    compare_sources-Verdict row w start active version checksum =
        on_ok_rule (Verdict env t s) no_state (query env _ w) _ (query-Reads env w _)
          (λ r w1 h1.
            on_ok_rule (Verdict env t s) no_state (subscription_sets env w1) _
              (subscription_sets-Reads env w1)
              (λ sets w2 h2. elim (Bool-cases (sets_eq r.snapshot.subscription_sets sets)) [
                | inl e ↦ rw e (
                    settled row (h2.0 ∙ h1.0 ∙ start) refl active version checksum (record {
                      recorded = r;
                      found = ground (arith, h1.1, start);
                      sets = sets;
                      built = ground (arith, h2.1, h1.0, start);
                      equal = sets_eq-eq r.snapshot.subscription_sets sets e;
                    }))
                | inr e ↦
                    rw e (republish-Verdict no_state "reconcile_sources" w2 (h2.0 ∙ h1.0 ∙ start))
              ])
              (λ e v h. halted_with no_state e v (h ∙ h1.0 ∙ start)))
          (λ e v h. halted_with no_state e v (h ∙ start))

    reconcile_active-Verdict :
        (w : World) → w.tables ≡ t → Verdict env t s (reconcile_active env s w)
    unfolding reconcile_active
    reconcile_active-Verdict w start = active_cases _ (query-Reads env w _).outcome
      where
        active_cases :
            (r : Result (Option VersionRow) × World)
            → Outcome
                (λ o v.
                  (v.tables ≡ w.tables)
                  × (◌≡◌ {A = Result (Option VersionRow)}
                      (ok (find_active w.tables.versions))
                      (ok o)))
                (λ e v. v.tables ≡ w.tables)
                r
            → Verdict env t s (compare_active env s r)
        active_cases (err e, v) h = halted_with no_state e v (h ∙ start)
        active_cases (ok none, v) h = elim (Bool-cases (s.snapshot_version == 0)) [
          | inl e ↦ rw e (republish-Verdict no_state "reconcile_initial" v (h.0 ∙ start))
          | inr e ↦ rw e (halted_with no_state no_rows v (h.0 ∙ start))
        ]
        active_cases (ok (some row), v) h = elim (Bool-cases (ltb row.version s.snapshot_version)) [
          | inl e ↦ rw e (halted_with degraded _ v (h.0 ∙ start))
          | inr e ↦ elim (Bool-cases (ltb s.snapshot_version row.version)) [
            | inl f ↦ rw (e, f) (republish-Verdict no_state "reconcile" v (h.0 ∙ start))
            | inr f ↦ elim (Bool-cases (str_eq s.checksum row.checksum)) [
              | inr g ↦ rw (e, f, g) (halted_with degraded _ v (h.0 ∙ start))
              | inl g ↦
                  rw (e, f, g)
                    (compare_sources-Verdict row v (h.0 ∙ start) (ground (arith, h.1, start))
                      (ground (arith, e, f)) (ground (arith, eq_iff s.checksum row.checksum, g)))
            ]
          ]
        ]

    reconcile_runtime-Verdict :
        (w : World)
        → w.tables ≡ t
        → Verdict env t s
            (reconcile_runtime env s (query env (find_candidate s.snapshot_version) w))
    reconcile_runtime-Verdict w start = candidate_cases _ (query-Reads env w _).outcome
      where
        candidate_cases :
            (r : Result VersionRow × World)
            → Outcome
                (λ row v.
                  (v.tables ≡ w.tables) × (find_candidate s.snapshot_version w.tables ≡ ok row))
                (λ e v. v.tables ≡ w.tables)
                r
            → Verdict env t s (reconcile_runtime env s r)
        candidate_cases (err e, v) h = reconcile_active-Verdict v (h ∙ start)
        candidate_cases (ok row, v) h =
            let (found, candidate) = find_candidate-lem s.snapshot_version w.tables h.1 in
            let version : row.version ≡ s.snapshot_version =
              find_version-version s.snapshot_version w.tables.versions found in
            let found' : find_version row.version t.versions ≡ some row =
              ground (arith, found, version, start) in
            elim (Bool-cases (str_eq row.checksum s.checksum)) [
              | inl e ↦ rw e (
                  adopt_candidate-Verdict row v (h.0 ∙ start) found' candidate version
                    ((eq_iff row.checksum s.checksum).0 e))
              | inr e ↦ rw e (reconcile_active-Verdict v (h.0 ∙ start))
            ]

  abbrev pub Ends : Tables → Reconciled × World → Type 0
  Ends t p =
      ((p.1.tables ≡ t) × (p.0.error ≢ none))
      ⊎ ((n : ℕ) × (s : RuntimeStatus) × (env.status n ≡ ok s) × Verdict env t s p)

  -- Reconcile fails to learn what mosdns runs and changes nothing, or ends by what it has learnt.
  pub reconcile-Ends : (w : World) → Ends w.tables (reconcile env w)
  unfolding reconcile
  reconcile-Ends w =
      on_ok_rule (Ends w.tables) no_state (call env env.status w) _ (call-Reads env w env.status)
        (λ s v h. inr (w.tick, s, h.1, reconcile_runtime-Verdict w.tables s v h.0))
        (λ e v h. inl (h, λ k. cc))
