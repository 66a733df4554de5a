-- ===== src/Rules/Publish/Outcome.antt =====
-- How a call of publish may end.
use mosdns_controller.Base.{
  eq_iff, ℕ, ◌+◌, ◌<◌, ◌≡◌, ◌≢◌, refl, ◌∙◌, sym, subst, ◌⊎◌, inl, inr, String, true, false, List,
  ◌∷◌, map, none, some, ◌==◌, str_eq, All, arith, Bool-cases,
}
use mosdns_controller.Go.Result.{Error, Result, ok, err, is_unknown}
use mosdns_controller.Rules.Types.{Rule}
use mosdns_controller.Rules.Store.{
  Status, pending, unknown, active, VersionRow, Tables, Env, World, Applied, RuntimeStatus,
  Validation, exec, call, next,
}
use mosdns_controller.Rules.Store.Ensures.{Outcome, exec-Holds}
use mosdns_controller.Rules.Statements.{
  is_active, max_version, update_version, mark_unknown, mark_failed, unknown_row, failed_row,
}
use mosdns_controller.Rules.Statements.Versions.{max_version-bound, update_version_head}
use mosdns_controller.Rules.Publish.{
  no_version, Published, Actor, Candidate, candidate_row, persisted, version_of, answer,
  failed_with, fail, activated, activate, shows_candidate, resolved, resolve_unknown, applied_as,
  after_apply, apply_candidate, after_validate, deliver, delivered, publish,
}
use mosdns_controller.Rules.Publish.Steps.{
  IsPrepared, IsFinalized, prepare-IsPrepared, finalize_with_rules-IsFinalized,
}

-- The tables `t` with one more row, which is not active, for the candidate.
pub record IsPending (t : Tables) (c : Candidate) (t' : Tables) : Type 0 where
  pub row : VersionRow
  pub version : row.version ≡ c.version
  pub inactive : is_active row.status ≡ false
  pub rules : row.rules ≡ map persisted c.rules
  pub tables : t' ≡ record t { versions = row ∷ t.versions }

abbrev pub IsNewest : Tables → Candidate → Type 0
IsNewest t c = c.version ≡ max_version t.versions + 1

-- What mosdns has answered where a candidate is activated: it applied the snapshot under the
-- candidate's version and checksum, or its status shows them.
abbrev pub Confirmed : Env → Candidate → Type 0
Confirmed env c =
    ((n : ℕ) × (a : Applied) × (env.apply n c.snapshot ≡ ok a)
      × (a.applied ≡ true)
      × (a.version ≡ c.version)
      × (a.checksum ≡ c.snapshot.checksum))
    ⊎ ((n : ℕ) × (s : RuntimeStatus) × (env.status n ≡ ok s)
        × (s.snapshot_version ≡ c.version)
        × (s.checksum ≡ c.snapshot.checksum))

applied-Confirmed :
    (env : Env) (c : Candidate) (n : ℕ) (a : Applied)
    → env.apply n c.snapshot ≡ ok a
    → applied_as env c a ≡ true
    → Confirmed env c
applied-Confirmed env c n a h e =
    let same = eq_iff a.checksum c.snapshot.checksum in
    inl (n, a, h, ground (arith, e), ground (arith, e), ground (arith, e, same))

shown-Confirmed :
    (env : Env) (c : Candidate) (n : ℕ) (s : RuntimeStatus)
    → env.status n ≡ ok s
    → shows_candidate env c s ≡ true
    → Confirmed env c
shown-Confirmed env c n s h e =
    let same = eq_iff s.checksum c.snapshot.checksum in
    inr (n, s, h, ground (arith, e), ground (arith, e, same))

-- The candidate is not active, the caller has an error, and the rest of the tables is as before.
pub record IsKept (t : Tables) (c : Candidate) (p : Published) (t' : Tables) : Type 0 where
  pub error : Error
  pub reported : p.error ≡ some error
  pub version : p.version.version ≡ c.version
  pub status : p.version.status ≢ some active
  pub pending : IsPending t c t'

-- The candidate is active, and its rules are the stored rules.
pub record IsDone (env : Env) (t : Tables) (c : Candidate) (p : Published) (t' : Tables)
    : Type 0 where
  pub reported : p.error ≡ none
  pub version : p.version ≡ version_of c active
  pub confirmed : Confirmed env c
  pub before : Tables
  pub pending : IsPending t c before
  pub finalized : IsFinalized env c.version c.rules before t'

abbrev pub Delivered : Env → Tables → Candidate → Published × World → Type 0
Delivered env t c (p, w) = IsKept t c p w.tables ⊎ IsDone env t c p w.tables

module _ {t : Tables} {c : Candidate} (newest : IsNewest t c) where
  update-IsPending :
      (f : VersionRow → VersionRow) {t' u : Tables} (p : IsPending t c t')
      → u ≡ record t' { versions = update_version c.version f t'.versions }
      → (f p.row).version ≡ p.row.version
      → is_active (f p.row).status ≡ false
      → (f p.row).rules ≡ p.row.rules
      → IsPending t c u
  update-IsPending f {t'} p e v i r =
      let bound =
        subst (λ n. All (λ r. r.version < n) t.versions) (sym newest)
          (max_version-bound t.versions) in
      record {
        row = f p.row;
        version = ground (arith, p.version);
        inactive = i;
        rules = r ∙ p.rules;
        tables =
            ground
              (arith, p.tables, update_version_head c.version f p.row t.versions p.version bound);
      }

  mark_unknown-IsPending :
      {t' u : Tables} → IsPending t c t' → mark_unknown c.version t' ≡ ok u → IsPending t c u
  unfolding mark_unknown
  mark_unknown-IsPending {t'} p e = update-IsPending unknown_row p (ground arith) refl refl refl

  mark_failed-IsPending :
      (code : String) (cause : Error) {t' u : Tables}
      → IsPending t c t'
      → mark_failed c.version code cause t' ≡ ok u
      → IsPending t c u
  unfolding mark_failed
  mark_failed-IsPending code cause {t'} p e =
      update-IsPending (failed_row code cause) p (ground arith) refl refl refl

  module _ (env : Env) where
    answer-IsKept :
        (status : Status) (e : Error) {u : Tables}
        → status ≢ active
        → IsPending t c u
        → IsKept t c (answer env c status e) u
    unfolding version_of
    answer-IsKept status e s p = record {
      error = e;
      reported = refl;
      version = refl;
      status = λ h. s (ground arith);
      pending = p;
    }

    failed_with-Delivered :
        (status : Status) (code : String) (cause : Error) (w : World)
        (r : Result (Unit {0}) × World)
        → status ≢ active
        → IsPending t c w.tables
        → Outcome
            (λ _ w'. mark_failed c.version code cause w.tables ≡ ok w'.tables)
            (λ e w'. w'.tables ≡ w.tables)
            r
        → Delivered env t c (failed_with env c status cause r)
    failed_with-Delivered status code cause w (ok u, w') s p h =
        inl (answer-IsKept status cause s (mark_failed-IsPending code cause p h))
    failed_with-Delivered status code cause w (err e, w') s p h =
        inl (answer-IsKept status e s (subst (IsPending t c) (sym h) p))

    fail-Delivered :
        (status : Status) (code : String) (cause : Error) (w : World)
        → status ≢ active
        → IsPending t c w.tables
        → Delivered env t c (fail env c status code cause w)
    unfolding fail
    fail-Delivered status code cause w s p =
        failed_with-Delivered status code cause w _ s p (exec-Holds env w _).outcome

    activated-Delivered :
        (status : Status) (w : World) (r : Result (Unit {0}) × World)
        → status ≢ active
        → Confirmed env c
        → IsPending t c w.tables
        → Outcome
            (λ _ w'. IsFinalized env c.version c.rules w.tables w'.tables)
            (λ e w'. w'.tables ≡ w.tables)
            r
        → Delivered env t c (activated env c status r)
    activated-Delivered status w (ok u, w') s k p h = inr (record {
      reported = refl;
      version = refl;
      confirmed = k;
      before = w.tables;
      pending = p;
      finalized = h;
    })
    activated-Delivered status w (err e, w') s k p h =
        inl (answer-IsKept status e s (subst (IsPending t c) (sym h) p))

    activate-Delivered :
        (status : Status) (actor : Actor) (w : World)
        → status ≢ active
        → Confirmed env c
        → IsPending t c w.tables
        → Delivered env t c (activate env c status actor w)
    unfolding activate
    activate-Delivered status actor w s k p =
        activated-Delivered status w _ s k p
          (finalize_with_rules-IsFinalized env c.version c.rules actor w).outcome

    resolved-Delivered :
        (actor : Actor) (cause : Error) (n : ℕ) (r : Result RuntimeStatus) (w : World)
        → env.status n ≡ r
        → IsPending t c w.tables
        → Delivered env t c (resolved env c actor cause (r, w))
    resolved-Delivered actor cause n (err e) w h p = inl (answer-IsKept unknown cause (λ e. cc) p)
    resolved-Delivered actor cause n (ok s) w h p = elim (Bool-cases (shows_candidate env c s)) [
      | inl e ↦
          rw e (activate-Delivered unknown actor w (λ e. cc) (shown-Confirmed env c n s h e) p)
      | inr e ↦ elim (Bool-cases (s.snapshot_version == c.current)) [
        | inl o ↦ rw (e, o) (fail-Delivered unknown _ _ w (λ e. cc) p)
        | inr o ↦ rw (e, o) (inl (answer-IsKept unknown cause (λ e. cc) p))
      ]
    ]

    marked-IsPending :
        (w : World) (r : Result (Unit {0}) × World)
        → IsPending t c w.tables
        → Outcome
            (λ _ w'. mark_unknown c.version w.tables ≡ ok w'.tables)
            (λ e w'. w'.tables ≡ w.tables)
            r
        → IsPending t c r.1.tables
    marked-IsPending w (ok u, w') p h = mark_unknown-IsPending p h
    marked-IsPending w (err e, w') p h = subst (IsPending t c) (sym h) p

    resolve_unknown-Delivered :
        (actor : Actor) (cause : Error) (w : World)
        → IsPending t c w.tables
        → Delivered env t c (resolve_unknown env c actor cause w)
    unfolding resolve_unknown call
    resolve_unknown-Delivered actor cause w p =
        let r = exec env (mark_unknown c.version) w in
        resolved-Delivered actor cause r.1.tick (env.status r.1.tick) (next r.1) refl
          (marked-IsPending w r p (exec-Holds env w (mark_unknown c.version)).outcome)

    after_apply-Delivered :
        (actor : Actor) (n : ℕ) (r : Result Applied) (w : World)
        → env.apply n c.snapshot ≡ r
        → IsPending t c w.tables
        → Delivered env t c (after_apply env c actor (r, w))
    after_apply-Delivered actor n (ok a) w h p = elim (Bool-cases (applied_as env c a)) [
      | inl e ↦
          rw e (activate-Delivered pending actor w (λ e. cc) (applied-Confirmed env c n a h e) p)
      | inr e ↦ rw e (fail-Delivered pending _ _ w (λ e. cc) p)
    ]
    after_apply-Delivered actor n (err e) w h p = elim (Bool-cases (is_unknown e)) [
      | inl b ↦ rw b (resolve_unknown-Delivered actor e w p)
      | inr b ↦ rw b (fail-Delivered pending _ _ w (λ e. cc) p)
    ]

    after_validate-Delivered :
        (actor : Actor) (r : Result Validation) (w : World)
        → IsPending t c w.tables
        → Delivered env t c (after_validate env c actor (r, w))
    unfolding apply_candidate call
    after_validate-Delivered actor (ok v) w p = elim (Bool-cases v.valid) [
      | inr e ↦ rw e (fail-Delivered pending _ _ w (λ e. cc) p)
      | inl e ↦ elim (Bool-cases (str_eq v.checksum c.snapshot.checksum)) [
        | inr o ↦ rw (e, o) (fail-Delivered pending _ _ w (λ e. cc) p)
        | inl o ↦
            rw (e, o)
              (after_apply-Delivered actor w.tick (env.apply w.tick c.snapshot) (next w) refl p)
      ]
    ]
    after_validate-Delivered actor (err e) w p = fail-Delivered pending _ _ w (λ e. cc) p

    deliver-Delivered :
        (actor : Actor) (w : World)
        → IsPending t c w.tables
        → Delivered env t c (deliver env c actor w)
    unfolding deliver call
    deliver-Delivered actor w p =
        after_validate-Delivered actor (env.validate w.tick c.snapshot) (next w) p

-- How publish ends: nothing was written; or a candidate was written and is not active; or it is.
pub record IsRefused (t : Tables) (p : Published) (t' : Tables) : Type 0 where
  pub error : Error
  pub reported : p ≡ record { version = no_version; error = some error }
  pub tables : t' ≡ t

abbrev pub PublishEnds : Env → Tables → List Rule → Published × World → Type 0
PublishEnds env t rules (p, w) =
    IsRefused t p w.tables
    ⊎ ((c : Candidate) × (t1 : Tables) × IsPrepared env t rules c t1
        × (IsKept t c p w.tables ⊎ IsDone env t c p w.tables))

IsPrepared-IsPending :
    {env : Env} {t t1 : Tables} {rules : List Rule} {c : Candidate}
    → IsPrepared env t rules c t1
    → IsPending t c t1
unfolding candidate_row
IsPrepared-IsPending h = record {
  row = h.row;
  version = ground (arith, h.row_of.2);
  inactive = ground (arith, h.row_of.2);
  rules = ground (arith, h.row_of.2);
  tables = h.inserted;
}

module _ (env : Env) (rules : List Rule) (actor : Actor) where
  delivered-PublishEnds :
      (t : Tables) (r : Result Candidate × World)
      → Outcome (λ c w'. IsPrepared env t rules c w'.tables) (λ e w'. w'.tables ≡ t) r
      → PublishEnds env t rules (delivered env actor r)
  delivered-PublishEnds t (ok c, w) h =
      inr (c, w.tables, h, deliver-Delivered h.version env actor w (IsPrepared-IsPending h))
  delivered-PublishEnds t (err e, w) h = inl (record { error = e; reported = refl; tables = h })

  pub publish-PublishEnds :
      (rollback_from : ℕ) (w : World)
      → PublishEnds env w.tables rules (publish env rules actor rollback_from w)
  unfolding publish
  publish-PublishEnds rollback_from w =
      delivered-PublishEnds w.tables _
        (prepare-IsPrepared env w rules actor.admin_id rollback_from).outcome
