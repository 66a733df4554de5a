-- ===== src/Rules/Subscribe/Compensation.antt =====
-- What restoreSubscriptionMutation, and the publication that it follows, leave in the tables.
use mosdns_controller.Base.{
  ◌≡◌, refl, ap, ◌∙◌, sym, subst, ◌⊎◌, inl, inr, true, List, ◌==◌, none, some, arith, Bool-cases,
  Option-cases,
}
use mosdns_controller.Go.Result.{
  Error, Result, ok, err, no_rows, joined, outcome_unknown, is_unknown, or_fail,
}
use mosdns_controller.Rules.Types.{Rule}
use mosdns_controller.Rules.Store.{
  VersionRow, SourceRow, Sources, Tables, RuntimeStatus, Env, World, M, call, query,
}
use mosdns_controller.Rules.Store.Ensures.{Reads-tables, Outcome, Faulted, query-Reads, call-Reads}
use mosdns_controller.Rules.Statements.{find_active, find_version}
use mosdns_controller.Rules.Publish.{Version, no_version, Published, Actor, publish}
use mosdns_controller.Rules.Publish.Guarantees.{
  IsPublished, Unpublished, publish_failed, publish_succeeded,
}
use mosdns_controller.Rules.Read.{all_rules, listed_rules}
use mosdns_controller.Rules.Edit.Steps.{all_rules-Reads}
use mosdns_controller.Rules.Subscribe.{
  Settled, unlisted, refused, adopted, settle, restore_mutation, joined_with, judged, weighed,
  published_as, listed_as, is_restored,
}
use mosdns_controller.Rules.Subscribe.Restore.{Restores}

-- A statement that takes the sources `s` back to the rows `rows` was run from them, and failed, with
-- the tables `u` left; the error joins its failure to a cause.
pub data Unrestored (env : Env) (rows : List SourceRow) (s : Sources) (u : Tables)
    : Error → Type 0 where
  failing :
      {cause f : Error} {v w : World} (restore : M (Unit {0}))
      → Restores env s rows restore
      → v.tables.sources ≡ s
      → restore v ≡ (err f, w)
      → w.tables ≡ u
      → Unrestored env rows s u (joined cause f)
  noted : {a b : Error} → Unrestored env rows s u a → Unrestored env rows s u (joined a b)

-- The sources are those of `t`, and the error says that the outcome is unknown; or their rows are
-- `rows` again; or the statement that restores them was run and failed, and the error says so.
abbrev pub Sourced : Env → List SourceRow → Tables → Tables → Error → Type 0
Sourced env rows t t' e =
    ((t'.sources ≡ t.sources) × (is_unknown e ≡ true))
    ⊎ ((t'.sources.rows ≡ rows) ⊎ Unrestored env rows t.sources t' e)

-- Nothing but the sources differs, and they are as `Sourced` says.
pub record Compensated (env : Env) (rows : List SourceRow) (t : Tables) (p : Error × World)
    : Type 0 where
  pub others : p.1.tables ≡ record t { sources = p.1.tables.sources }
  pub sourced : Sourced env rows t p.1.tables p.0

abbrev pub Restored : Env → List SourceRow → Tables → Result (Unit {0}) × World → Type 0
Restored env rows t p =
    Outcome (λ _ u. (s : Sources) × (u.tables ≡ record t { sources = s }) × (s.rows ≡ rows))
      (λ e u. ((s : Sources) × (u.tables ≡ record t { sources = s })) × Faulted env e) p

module _ (env : Env) (rows : List SourceRow) (t : Tables) (cause : Error) where
  kept-Compensated :
      (w : World) → w.tables ≡ t → Compensated env rows t (joined cause outcome_unknown, w)
  kept-Compensated w h = record {
    others = h ∙ ap (λ s. record t { sources = s }) (ap (λ t. t.sources) (sym h));
    sourced = inl (ap (λ t. t.sources) h, ground arith);
  }

  module _ (restore : M (Unit {0})) (back : Restores env t.sources rows restore)
      (candidate : Version) where
    joined_with-Compensated :
        (w : World)
        → w.tables ≡ t
        → (p : Result (Unit {0}) × World) → restore w ≡ p
        → Restored env rows t p
        → Compensated env rows t (joined_with cause p)
    joined_with-Compensated w k (ok _, u) r h = record {
      others = h.1 ∙ ap (λ s. record t { sources = s }) (ap (λ t. t.sources) (sym h.1));
      sourced = inr (inl (ap (λ t. t.sources.rows) h.1 ∙ h.2));
    }
    joined_with-Compensated w k (err e, u) r h = record {
      others = h.0.1 ∙ ap (λ s. record t { sources = s }) (ap (λ t. t.sources) (sym h.0.1));
      sourced = inr (inr (failing restore back (ap (λ t. t.sources) k) r refl));
    }

    at-Compensated :
        (w : World) → w.tables ≡ t → Compensated env rows t (joined_with cause (restore w))
    at-Compensated w h =
        joined_with-Compensated w h (restore w) refl
          (subst (λ t. Restored env rows t (restore w)) h (back w (ap (λ t. t.sources) h)).outcome)

    judged-Compensated :
        (row : VersionRow) (p : Result RuntimeStatus × World)
        → p.1.tables ≡ t
        → Compensated env rows t (judged env candidate cause restore row p)
    judged-Compensated row (runtime, w) h =
        elim (Bool-cases (is_restored candidate.version row runtime)) [
          | inl e ↦ rw e (at-Compensated w h)
          | inr e ↦ rw e (kept-Compensated w h)
        ]

    weighed-Compensated :
        (p : Result VersionRow × World)
        → p.1.tables ≡ t
        → Compensated env rows t (weighed env candidate cause restore p)
    weighed-Compensated (err e, w) h = kept-Compensated w h
    weighed-Compensated (ok row, w) h =
        judged-Compensated row (call env env.status w)
          (Reads-tables w (call env env.status) (call-Reads env w env.status) ∙ h)

    pub restore_mutation-Compensated :
        (w : World)
        → w.tables ≡ t
        → Compensated env rows t (restore_mutation env candidate cause restore w)
    unfolding restore_mutation
    restore_mutation-Compensated w h =
        let read : Tables → Result VersionRow =
          λ t. or_fail (find_version candidate.version t.versions) no_rows in
        elim (Bool-cases (candidate.version == 0)) [
          | inl e ↦ rw e (at-Compensated w h)
          | inr e ↦ rw e (
              weighed-Compensated (query env read w)
                (Reads-tables w (query env read) (query-Reads env w read) ∙ h))
        ]

-- What is left of a change of the sources from `t` that was not adopted: the active version and the
-- stored rules are those of `t`, and the sources are as `Sourced` says.
pub record Refused (env : Env) (rows : List SourceRow) (t t' : Tables) (e : Error) : Type 0 where
  pub active_row : find_active t'.versions ≡ find_active t.versions
  pub stored : t'.domain_rules ≡ t.domain_rules
  pub counter : t'.next_rule_id ≡ t.next_rule_id
  pub sourced : Sourced env rows t t' e

abbrev pub Settles : Env → List SourceRow → Tables → Settled × World → Type 0
Settles env rows t (unlisted e, w) = Refused env rows t w.tables e
Settles env rows t (refused v e, w) = Refused env rows t w.tables e
Settles env rows t (adopted v, w) = IsPublished env t (listed_rules t) v w.tables

Compensated-Refused :
    {env : Env} {rows : List SourceRow} {t u : Tables} (p : Error × World)
    → find_active u.versions ≡ find_active t.versions
    → u.domain_rules ≡ t.domain_rules
    → u.next_rule_id ≡ t.next_rule_id
    → u.sources ≡ t.sources
    → Compensated env rows u p
    → Refused env rows t p.1.tables p.0
Compensated-Refused {env} {rows} (e, w) a d n s c = record {
  active_row = ap (λ t. find_active t.versions) c.others ∙ a;
  stored = ap (λ t. t.domain_rules) c.others ∙ d;
  counter = ap (λ t. t.next_rule_id) c.others ∙ n;
  sourced =
      subst
        (λ s.
          ((w.tables.sources ≡ s) × (is_unknown e ≡ true))
          ⊎ ((w.tables.sources.rows ≡ rows) ⊎ Unrestored env rows s w.tables e))
        s c.sourced;
}

module _ (env : Env) (actor : Actor) (rows : List SourceRow) (t : Tables) (restore : M (Unit {0}))
    (back : Restores env t.sources rows restore) where
  published_as-Settles :
      (p : Published × World)
      → ((e : Error) → p.0.error ≡ some e → Unpublished t p.1.tables)
      → (p.0.error ≡ none → IsPublished env t (listed_rules t) p.0.version p.1.tables)
      → Settles env rows t (published_as env restore p)
  published_as-Settles (p, w) kept done = elim (Option-cases p.error) [
    | inl e ↦ rw e (done e)
    | inr (x, e) ↦
        let u = kept x e in
        let back' : Restores env w.tables.sources rows restore =
          subst (λ s. Restores env s rows restore) (sym u.sources) back in
        rw e (
          Compensated-Refused (restore_mutation env p.version x restore w) u.active_row u.stored
            u.counter u.sources
            (restore_mutation-Compensated env rows w.tables x restore back' p.version w refl))
  ]

  listed_as-Settles :
      (p : Result (List Rule) × World)
      → Outcome (λ rules u. (u.tables ≡ t) × (rules ≡ listed_rules t)) (λ e u. u.tables ≡ t) p
      → Settles env rows t (listed_as env actor restore p)
  listed_as-Settles (ok rules, w) h =
      let p = publish env rules actor 0 w in
      published_as-Settles p
        (λ e f. subst (λ t. Unpublished t p.1.tables) h.0 (publish_failed env rules actor 0 w f))
        (λ f.
          subst (λ rules'. IsPublished env t rules' p.0.version p.1.tables) h.1
            (subst (λ t. IsPublished env t rules p.0.version p.1.tables) h.0
              (publish_succeeded env rules actor 0 w f)))
  listed_as-Settles (err e, w) h =
      Compensated-Refused (restore_mutation env no_version e restore w) refl refl refl refl
        (restore_mutation-Compensated env rows t e restore back no_version w h)

  -- The change of the sources is published with the listed rules, or it is refused.
  pub settle-Settles : (w : World) → w.tables ≡ t → Settles env rows t (settle env actor restore w)
  unfolding settle
  settle-Settles w h = listed_as-Settles (all_rules env w) (
      subst
        (λ t.
          Outcome (λ rules u. (u.tables ≡ t) × (rules ≡ listed_rules t)) (λ e u. u.tables ≡ t)
            (all_rules env w))
        h (all_rules-Reads env w).outcome)
