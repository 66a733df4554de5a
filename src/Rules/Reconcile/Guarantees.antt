-- ===== src/Rules/Reconcile/Guarantees.antt =====
-- What Reconcile guarantees, whatever the database, the clock and mosdns answer.
use mosdns_controller.Base.{ℕ, ◌≡◌, refl, ap, ◌∙◌, sym, subst, ◌⊎◌, inl, inr, none, some, arith}
use mosdns_controller.Go.Result.{ok}
use mosdns_controller.Rules.Store.{VersionRow, Tables, Env, World, RuntimeStatus}
use mosdns_controller.Rules.Statements.{find_active, active_of}
use mosdns_controller.Rules.Publish.{Version, Published, publish}
use mosdns_controller.Rules.Publish.Consistent.{
  IsConsistent, finalized-IsConsistent, finalized-current,
}
use mosdns_controller.Rules.Publish.Guarantees.{
  IsPublished, publish_succeeded, publish-IsConsistent,
}
use mosdns_controller.Rules.Read.{listed_rules}
use mosdns_controller.Rules.Reconcile.{
  matched_candidate, republished, unchanged, Reconciled, as_republished, reconcile, system,
}
use mosdns_controller.Rules.Reconcile.Verdict.{
  IsAdopted, IsReissued, IsCurrent, Verdict, halted, settled, adopted, reissued, adopted_reissued,
  reconcile-Ends,
}

-- mosdns reports the version and the checksum of the active row, whose subscriptions are current.
abbrev pub RunsActive : Env → Tables → Type 0
RunsActive env t =
    (n : ℕ) × (s : RuntimeStatus) × (row : VersionRow) × (env.status n ≡ ok s)
    × (find_active t.versions ≡ some row)
    × (row.version ≡ s.snapshot_version)
    × (row.checksum ≡ s.checksum)
    × IsCurrent t row

-- The candidate that mosdns reports has become the active version.
abbrev pub Adopts : Env → Tables → Tables → Type 0
Adopts env t t' =
    (n : ℕ) × (s : RuntimeStatus) × (env.status n ≡ ok s)
    × IsAdopted env s t t'
    × (active_of t'.versions ≡ s.snapshot_version)

-- The listed rules are published, perhaps after a candidate has become active.
abbrev pub Reissues : Env → Tables → Tables → Type 0
Reissues env t t' =
    (u : Tables) × (v : Version) × ((u ≡ t) ⊎ ((s : RuntimeStatus) × IsAdopted env s t u))
    × IsPublished env u (listed_rules u) v t'

module _ (env : Env) where
  adopted-IsConsistent :
      {s : RuntimeStatus} {t u : Tables} → IsAdopted env s t u → IsConsistent t → IsConsistent u
  adopted-IsConsistent a k = finalized-IsConsistent a.finalized a.found k.descends refl

  reissued-IsConsistent :
      {u : Tables} (p : Reconciled × World)
      → IsReissued env u p
      → IsConsistent u
      → IsConsistent p.1.tables
  reissued-IsConsistent {u} p r k =
      subst (λ q. IsConsistent q.1.tables) (sym r.result)
        (publish-IsConsistent env (listed_rules u) (system r.request_id) 0 r.start
          (subst IsConsistent (sym r.tables) k))

  Verdict-IsConsistent :
      {t : Tables} {s : RuntimeStatus} (p : Reconciled × World)
      → Verdict env t s p
      → IsConsistent t
      → IsConsistent p.1.tables
  Verdict-IsConsistent p (halted e _) k = subst IsConsistent (sym e) k
  Verdict-IsConsistent p (settled row e _ _ _ _ _) k = subst IsConsistent (sym e) k
  Verdict-IsConsistent p (adopted a _) k = adopted-IsConsistent a k
  Verdict-IsConsistent p (reissued r) k = reissued-IsConsistent p r k
  Verdict-IsConsistent p (adopted_reissued u a r) k =
      reissued-IsConsistent p r (adopted-IsConsistent a k)

  IsReissued-state :
      {u : Tables} {p : Reconciled × World} → IsReissued env u p → p.0.state ≡ republished
  IsReissued-state r = ap (λ p. p.0.state) r.result

  as_republished-error : (q : Published × World) → (as_republished env q).0.error ≡ q.0.error
  as_republished-error (p, w) = refl

  as_republished-tables : (q : Published × World) → (as_republished env q).1.tables ≡ q.1.tables
  as_republished-tables (p, w) = refl

  reissued-IsPublished :
      {u : Tables} (p : Reconciled × World)
      → IsReissued env u p
      → p.0.error ≡ none
      → (v : Version) × IsPublished env u (listed_rules u) v p.1.tables
  reissued-IsPublished {u} p r e =
      let q = publish env (listed_rules u) (system r.request_id) 0 r.start in
      let error : q.0.error ≡ none =
        sym (as_republished-error q) ∙ sym (ap (λ p. p.0.error) r.result) ∙ e in
      let tables : q.1.tables ≡ p.1.tables =
        sym (as_republished-tables q) ∙ sym (ap (λ p. p.1.tables) r.result) in
      let published =
        publish_succeeded env (listed_rules u) (system r.request_id) 0 r.start error in
      (
        q.0.version,
        subst (λ t. IsPublished env u (listed_rules u) q.0.version t) tables
            (subst (λ t. IsPublished env t (listed_rules u) q.0.version q.1.tables) r.tables
              published),
      )

  module _ (w : World) where
    -- Reconcile keeps the tables consistent, however it ends.
    pub reconcile-IsConsistent : IsConsistent w.tables → IsConsistent (reconcile env w).1.tables
    reconcile-IsConsistent k = elim (reconcile-Ends env w) [
      | inl (e, _) ↦ subst IsConsistent (sym e) k
      | inr (n, s, e, v) ↦ Verdict-IsConsistent (reconcile env w) v k
    ]

    -- Where Reconcile says "unchanged" and has no error, the tables are as before, and mosdns runs the
    -- active version under its checksum, with the subscriptions that the sources have.
    pub reconcile_unchanged :
        (reconcile env w).0 ≡ record { state = unchanged; error = none }
        → ((reconcile env w).1.tables ≡ w.tables) × RunsActive env w.tables
    reconcile_unchanged h = elim (reconcile-Ends env w) [
      | inl (e, f) ↦ absurd (f (ap (λ r. r.error) h))
      | inr (n, s, e, v) ↦ from_verdict n s e v
    ]
      where
        from_verdict :
            (n : ℕ) (s : RuntimeStatus)
            → env.status n ≡ ok s
            → Verdict env w.tables s (reconcile env w)
            → ((reconcile env w).1.tables ≡ w.tables) × RunsActive env w.tables
        from_verdict n s e (halted t f) = absurd (f (ap (λ r. r.error) h))
        from_verdict n s e (settled row t _ a v c k) = (t, (n, s, row, e, a, v, c, k))
        from_verdict n s e (adopted a m) = absurd (ground (arith, ap (λ r. r.state) h, m))
        from_verdict n s e (reissued r) =
            absurd (ground (arith, ap (λ r. r.state) h, IsReissued-state r))
        from_verdict n s e (adopted_reissued u a r) =
            absurd (ground (arith, ap (λ r. r.state) h, IsReissued-state r))

    -- Where it says "matched_candidate" and has no error, the active version is the one that mosdns
    -- runs, with the same checksum; it was a candidate before.
    pub reconcile_matched :
        (reconcile env w).0 ≡ record { state = matched_candidate; error = none }
        → Adopts env w.tables (reconcile env w).1.tables
    reconcile_matched h = elim (reconcile-Ends env w) [
      | inl (e, f) ↦ absurd (f (ap (λ r. r.error) h))
      | inr (n, s, e, v) ↦ from_verdict n s e v
    ]
      where
        from_verdict :
            (n : ℕ) (s : RuntimeStatus)
            → env.status n ≡ ok s
            → Verdict env w.tables s (reconcile env w)
            → Adopts env w.tables (reconcile env w).1.tables
        from_verdict n s e (halted t f) = absurd (f (ap (λ r. r.error) h))
        from_verdict n s e (settled row t f _ _ _ _) = absurd (ground (arith, h, f))
        from_verdict n s e (adopted a m) =
            (n, s, e, a, finalized-current a.finalized a.found ∙ a.version)
        from_verdict n s e (reissued r) =
            absurd (ground (arith, ap (λ r. r.state) h, IsReissued-state r))
        from_verdict n s e (adopted_reissued u a r) =
            absurd (ground (arith, ap (λ r. r.state) h, IsReissued-state r))

    -- Where it says "republished" and has no error, the listed rules are published under a new version
    -- above all others: from the tables as they were, or after mosdns's candidate was activated.
    pub reconcile_republished :
        (reconcile env w).0 ≡ record { state = republished; error = none }
        → Reissues env w.tables (reconcile env w).1.tables
    reconcile_republished h = elim (reconcile-Ends env w) [
      | inl (e, f) ↦ absurd (f (ap (λ r. r.error) h))
      | inr (n, s, e, v) ↦ from_verdict s v
    ]
      where
        from_verdict :
            (s : RuntimeStatus)
            → Verdict env w.tables s (reconcile env w)
            → Reissues env w.tables (reconcile env w).1.tables
        from_verdict s (halted t f) = absurd (f (ap (λ r. r.error) h))
        from_verdict s (settled row t f _ _ _ _) = absurd (ground (arith, h, f))
        from_verdict s (adopted a m) = absurd (ground (arith, ap (λ r. r.state) h, m))
        from_verdict s (reissued r) =
            let (v, p) = reissued-IsPublished (reconcile env w) r (ap (λ r. r.error) h) in
            (w.tables, v, inl refl, p)
        from_verdict s (adopted_reissued u a r) =
            let (v, p) = reissued-IsPublished (reconcile env w) r (ap (λ r. r.error) h) in
            (u, v, inr (s, a), p)
