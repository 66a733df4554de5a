-- ===== src/Rules/Edit/Guarantees.antt =====
-- What the operations on rules guarantee, whatever the database, the clock and mosdns answer.
use mosdns_controller.Base.{
  ℕ, ◌+◌, ◌≡◌, ap, ◌∙◌, sym, subst, ◌⊎◌, inl, false, List, ◌∷◌, none, some,
}
use mosdns_controller.Go.Result.{Error, Result, ok, err}
use mosdns_controller.Rules.Types.{Rule}
use mosdns_controller.Rules.Store.{VersionRow, Tables, Env, World}
use mosdns_controller.Rules.Store.Ensures.{Outcome}
use mosdns_controller.Rules.Edit.{publish_rules}
use mosdns_controller.Rules.Statements.{max_version, find_active, is_active}
use mosdns_controller.Rules.Publish.{Actor, Version}
use mosdns_controller.Rules.Publish.Consistent.{IsConsistent}
use mosdns_controller.Rules.Publish.Guarantees.{
  Unpublished, IsPublished, publish_failed, publish_succeeded, publish-IsConsistent,
}
use mosdns_controller.Rules.Edit.Steps.{OnlyCounter}

-- The rules and the active version of the tables `t` are untouched.
pub record Untouched (t t' : Tables) : Type 0 where
  pub active_row : find_active t'.versions ≡ find_active t.versions
  pub stored : t'.domain_rules ≡ t.domain_rules
  pub sources : t'.sources ≡ t.sources
  pub versions :
      (t'.versions ≡ t.versions)
      ⊎ ((row : VersionRow) × (t'.versions ≡ row ∷ t.versions)
          × (row.version ≡ max_version t.versions + 1)
          × (is_active row.status ≡ false))

OnlyCounter-kept : {t u : Tables} → OnlyCounter t u → Untouched t u
OnlyCounter-kept e = record {
  active_row = ap (λ t. find_active t.versions) e;
  stored = ap (λ t. t.domain_rules) e;
  sources = ap (λ t. t.sources) e;
  versions = inl (ap (λ t. t.versions) e);
}

-- The rules are published from the tables `start`, which differ from `t` in the counter at most, and
-- both satisfy `V`.
pub record Publishes (env : Env) (V : List Rule → Tables → Type 0) (t : Tables) (v : Version)
    (t' : Tables) : Type 0 where
  pub rules : List Rule
  pub start : Tables
  pub holds : V rules start
  pub counter : OnlyCounter t start
  pub published : IsPublished env start rules v t'

OnlyCounter-IsConsistent : {t u : Tables} → OnlyCounter t u → IsConsistent t → IsConsistent u
OnlyCounter-IsConsistent e k = subst IsConsistent (sym e) (record {
  descends = k.descends;
  single = k.single;
  distinct = k.distinct;
  mirrors = k.mirrors;
})

OnlyCounter-Untouched : {t u t' : Tables} → OnlyCounter t u → Unpublished u t' → Untouched t t'
OnlyCounter-Untouched {t'} e p = record {
  active_row = p.active_row ∙ ap (λ t. find_active t.versions) e;
  stored = p.stored ∙ ap (λ t. t.domain_rules) e;
  sources = p.sources ∙ ap (λ t. t.sources) e;
  versions =
      subst
        (λ vs.
          (t'.versions ≡ vs)
          ⊎ ((row : VersionRow) × (t'.versions ≡ row ∷ vs)
              × (row.version ≡ max_version vs + 1)
              × (is_active row.status ≡ false)))
        (ap (λ t. t.versions) e) p.versions;
}

module _ (env : Env) (actor : Actor) (from : ℕ) (t : Tables) where
  pub publish_rules-succeeded :
      (V : List Rule → Tables → Type 0) (p : Result (List Rule) × World)
      → Outcome
          (λ rules u. V rules u.tables × OnlyCounter t u.tables)
          (λ _ u. OnlyCounter t u.tables)
          p
      → (publish_rules env actor from p).0.error ≡ none
      → Publishes env V t
          (publish_rules env actor from p).0.version
          (publish_rules env actor from p).1.tables
  publish_rules-succeeded V (ok rules, u) h e = record {
    rules = rules;
    holds = h.0;
    start = u.tables;
    counter = h.1;
    published = publish_succeeded env rules actor from u e;
  }
  publish_rules-succeeded V (err x, u) h e = cc

  pub publish_rules-failed :
      (p : Result (List Rule) × World) {x : Error}
      → Outcome (λ rules u. OnlyCounter t u.tables) (λ _ u. OnlyCounter t u.tables) p
      → (publish_rules env actor from p).0.error ≡ some x
      → Untouched t (publish_rules env actor from p).1.tables
  publish_rules-failed (ok rules, u) h e =
      OnlyCounter-Untouched h (publish_failed env rules actor from u e)
  publish_rules-failed (err y, u) h e = OnlyCounter-kept h

  pub publish_rules-IsConsistent :
      (p : Result (List Rule) × World)
      → Outcome (λ _ u. OnlyCounter t u.tables) (λ _ u. OnlyCounter t u.tables) p
      → IsConsistent t
      → IsConsistent (publish_rules env actor from p).1.tables
  publish_rules-IsConsistent (ok rules, u) h k =
      publish-IsConsistent env rules actor from u (OnlyCounter-IsConsistent h k)
  publish_rules-IsConsistent (err e, u) h k = OnlyCounter-IsConsistent h k
