-- ===== src/Rules/Publish/Guarantees.antt =====
-- What publish guarantees, whatever the database, the clock and mosdns answer.
use mosdns_controller.Base.{
  ℕ, ◌+◌, ◌<◌, ◌≡◌, ap, ◌∙◌, sym, subst, ◌⊎◌, inl, inr, false, List, ◌∷◌, map, none, some, All,
  arith,
}
use mosdns_controller.Go.Result.{Error, ok}
use mosdns_controller.Rules.Types.{Rule}
use mosdns_controller.Rules.Validate.{validate_rules}
use mosdns_controller.Rules.Store.{VersionRow, Tables, Env, World, active}
use mosdns_controller.Rules.Statements.{
  is_active, max_version, find_active, active_of, find_version,
}
use mosdns_controller.Rules.Statements.Versions.{Descends, active_count, max_version-bound}
use mosdns_controller.Rules.Publish.{
  Version, Published, Actor, Candidate, persisted, version_of, publish,
}
use mosdns_controller.Rules.Publish.Steps.{Stored}
use mosdns_controller.Rules.Publish.Outcome.{IsPending, Confirmed, publish-PublishEnds}
use mosdns_controller.Rules.Publish.Consistent.{
  IsConsistent, Mirrors, finalized-IsConsistent, finalized-current, persisted_twice,
}

-- The active row, the stored rules, the sources and the counter of identifiers are untouched, and
-- at most one row of rule_versions is new: it is above all others and not active.
pub record Unpublished (t t' : Tables) : Type 0 where
  pub active_row : find_active t'.versions ≡ find_active t.versions
  pub stored : t'.domain_rules ≡ t.domain_rules
  pub sources : t'.sources ≡ t.sources
  pub counter : t'.next_rule_id ≡ t.next_rule_id
  pub versions :
      (t'.versions ≡ t.versions)
      ⊎ ((row : VersionRow) × (t'.versions ≡ row ∷ t.versions)
          × (row.version ≡ max_version t.versions + 1)
          × (is_active row.status ≡ false))

-- The rules, in normal form, are the stored rules of a new version, which is the active one.
pub record IsPublished (env : Env) (t : Tables) (rules : List Rule) (v : Version) (t' : Tables)
    : Type 0 where
  pub candidate : Candidate
  pub newest : candidate.version ≡ max_version t.versions + 1
  pub answer : v ≡ version_of candidate active
  pub valid : validate_rules env.library rules ≡ ok candidate.rules
  pub confirmed : Confirmed env candidate
  pub current : active_of t'.versions ≡ candidate.version
  pub stored : Stored env.library candidate.version candidate.rules t'.domain_rules
  pub sources : t'.sources ≡ t.sources
  pub counter : t'.next_rule_id ≡ t.next_rule_id

refused-Unpublished : {t t' : Tables} → t' ≡ t → Unpublished t t'
refused-Unpublished e = record {
  active_row = ap (λ t. find_active t.versions) e;
  stored = ap (λ t. t.domain_rules) e;
  sources = ap (λ t. t.sources) e;
  counter = ap (λ t. t.next_rule_id) e;
  versions = inl (ap (λ t. t.versions) e);
}

IsPending-Unpublished :
    {t : Tables} {c : Candidate} {t' : Tables}
    → c.version ≡ max_version t.versions + 1
    → IsPending t c t'
    → Unpublished t t'
unfolding find_active
IsPending-Unpublished n p = record {
  active_row = ground (arith, p.tables, p.inactive);
  stored = ground (arith, p.tables);
  sources = ground (arith, p.tables);
  counter = ground (arith, p.tables);
  versions = inr (p.row, ap (λ t. t.versions) p.tables, p.version ∙ n, p.inactive);
}

module _ (t : Tables) (c : Candidate) (t' : Tables)
    (newest : c.version ≡ max_version t.versions + 1) where
  below : All (λ r. r.version < c.version) t.versions
  below =
      subst (λ n. All (λ r. r.version < n) t.versions) (sym newest) (max_version-bound t.versions)

  pending-IsConsistent : IsPending t c t' → IsConsistent t → IsConsistent t'
  unfolding find_active active_count
  pending-IsConsistent p k = record {
    descends = subst (λ t. Descends t.versions) (sym p.tables) (pending_descends p k);
    single = ground (arith, p.tables, p.inactive, k.single);
    distinct = ground (arith, p.tables, k.distinct);
    mirrors = λ row e.
        subst (λ t. Mirrors row t.domain_rules) (sym p.tables)
          (k.mirrors row (ground (arith, e, p.tables, p.inactive)));
  }
    where
      pending_descends : (p : IsPending t c t') → IsConsistent t → Descends (p.row ∷ t.versions)
      pending_descends p k = (
        ground (arith, p.version, newest),
        subst (λ n. All (λ r. r.version < n) t.versions) (sym p.version) below,
        k.descends,
      )

  pending_found : (p : IsPending t c t') → find_version c.version t'.versions ≡ some p.row
  unfolding find_version
  pending_found p = ground (arith, p.tables, p.version)

module _ (env : Env) (rules : List Rule) (actor : Actor) (rollback_from : ℕ) (w : World) where
  abbrev result : Published
  result = (publish env rules actor rollback_from w).0

  abbrev after : Tables
  after = (publish env rules actor rollback_from w).1.tables

  -- A publish that returns an error leaves the active version and the stored rules as they were.
  pub publish_failed : {e : Error} → result.error ≡ some e → Unpublished w.tables after
  publish_failed e = elim (publish-PublishEnds env rules actor rollback_from w) [
    | inl r ↦ refused-Unpublished r.tables
    | inr (c, t1, prepared, inl kept) ↦ IsPending-Unpublished prepared.version kept.pending
    | inr (c, t1, prepared, inr done) ↦ absurd (ground (arith, done.reported))
  ]

  -- A publish that returns no error activates a new version, above all others and confirmed by
  -- mosdns, and stores exactly its rules, in normal form.
  pub publish_succeeded : result.error ≡ none → IsPublished env w.tables rules result.version after
  publish_succeeded e = elim (publish-PublishEnds env rules actor rollback_from w) [
    | inl r ↦ absurd (ground (arith, r.reported))
    | inr (c, t1, prepared, inl kept) ↦ absurd (ground (arith, kept.reported))
    | inr (c, t1, prepared, inr done) ↦ record {
      candidate = c;
      newest = prepared.version;
      answer = done.version;
      valid = prepared.valid;
      confirmed = done.confirmed;
      current =
          finalized-current done.finalized
            (pending_found w.tables c done.before prepared.version done.pending);
      stored = done.finalized.stored;
      sources = ground (arith, done.finalized.sources, done.pending.tables);
      counter = ground (arith, done.finalized.next_rule_id, done.pending.tables);
    }
  ]

  -- Whatever happens, the tables stay consistent.
  pub publish-IsConsistent : IsConsistent w.tables → IsConsistent after
  publish-IsConsistent k = elim (publish-PublishEnds env rules actor rollback_from w) [
    | inl r ↦ subst IsConsistent (sym r.tables) k
    | inr (c, t1, prepared, inl kept) ↦
        pending-IsConsistent w.tables c after prepared.version kept.pending k
    | inr (c, t1, prepared, inr done) ↦
        finalized-IsConsistent done.finalized
          (pending_found w.tables c done.before prepared.version done.pending)
          (pending-IsConsistent w.tables c done.before prepared.version done.pending k).descends
          (sym (persisted_twice c.rules) ∙ ap (map persisted) (sym done.pending.rules))
  ]
