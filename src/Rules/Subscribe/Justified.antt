-- ===== src/Rules/Subscribe/Justified.antt =====
-- When restoreSubscriptionMutation restores the sources.
use mosdns_controller.Base.{
  ℕ, ◌≡◌, refl, ◌∙◌, ◌⊎◌, inl, inr, true, Option, none, some, ◌==◌, str_eq, arith, Bool-cases,
}
use mosdns_controller.Go.Result.{Error, Result, ok, err, no_rows, joined, outcome_unknown, or_fail}
use mosdns_controller.Rules.Store.{VersionRow, Tables, RuntimeStatus, Env, World, M, call}
use mosdns_controller.Rules.Store.Ensures.{
  weaken_pair, Reads-tables, Outcome, query-Reads, call-Reads,
}
use mosdns_controller.Rules.Statements.{find_version}
use mosdns_controller.Rules.Publish.{Version}
use mosdns_controller.Rules.Subscribe.{
  restore_mutation, joined_with, judged, weighed, is_restored, failed_before_apply,
}

-- mosdns runs the snapshot of the candidate, as its row has it.
abbrev pub Shows : ℕ → VersionRow → RuntimeStatus → Type 0
Shows candidate row s = (s.snapshot_version ≡ candidate) × (str_eq s.checksum row.checksum ≡ true)

-- mosdns cannot run the candidate: it was not recorded; or its row says that it failed before it was
-- applied, and mosdns does not show it or does not answer; or mosdns shows the version before it.
abbrev pub IsJustified : Env → Version → Tables → Type 0
IsJustified env candidate t =
    (candidate.version ≡ 0)
    ⊎ ((row : VersionRow) × (n : ℕ) × (find_version candidate.version t.versions ≡ some row)
        × (((x : Error) × (env.status n ≡ err x) × (failed_before_apply row ≡ true))
            ⊎ ((s : RuntimeStatus) × (env.status n ≡ ok s)
                × (Shows candidate.version row s → ⊥)
                × ((failed_before_apply row ≡ true)
                    ⊎ (s.snapshot_version ≡ row.previous_version)))))

-- The sources are restored, and that is justified; or nothing is written, and the error says that
-- the outcome is unknown.
abbrev pub Decides : Env → Version → Error → M (Unit {0}) → Tables → Error × World → Type 0
Decides env candidate cause restore t p =
    ((v : World) × (v.tables ≡ t)
      × (p ≡ joined_with cause (restore v))
      × IsJustified env candidate t)
    ⊎ ((p.1.tables ≡ t) × (p.0 ≡ joined cause outcome_unknown))

found_ok : (o : Option VersionRow) {row : VersionRow} → or_fail o no_rows ≡ ok row → o ≡ some row
found_ok none e = cc
found_ok (some r) e = ground (arith, e)

module _ (env : Env) (candidate : Version) (cause : Error) (restore : M (Unit {0}))
    (t : Tables) where
  justify :
      (row : VersionRow) (n : ℕ) (r : Result RuntimeStatus)
      → env.status n ≡ r
      → find_version candidate.version t.versions ≡ some row
      → is_restored candidate.version row r ≡ true
      → IsJustified env candidate t
  unfolding is_restored
  justify row n (ok s) e f h = inr (
    row,
    n,
    f,
    inr (
      s,
      e,
      (λ shows. absurd (ground (arith, h, shows.0, shows.1))),
      elim (Bool-cases (failed_before_apply row)) [
        | inl b ↦ inl b
        | inr b ↦ inr (ground (arith, h, b))
      ],
    ),
  )
  justify row n (err x) e f h = inr (row, n, f, inl (x, e, h))

  judged-Decides :
      (row : VersionRow) (n : ℕ) (p : Result RuntimeStatus × World)
      → p.1.tables ≡ t
      → env.status n ≡ p.0
      → find_version candidate.version t.versions ≡ some row
      → Decides env candidate cause restore t (judged env candidate cause restore row p)
  judged-Decides row n (runtime, w) h e f =
      elim (Bool-cases (is_restored candidate.version row runtime)) [
        | inl c ↦ rw c (inl (w, h, refl, justify row n runtime e f c))
        | inr c ↦ rw c (inr (h, refl))
      ]

  asked : (w : World) → env.status w.tick ≡ (call env env.status w).0
  unfolding call
  asked w = refl

  weighed-Decides :
      (p : Result VersionRow × World)
      → Outcome
          (λ row w. (w.tables ≡ t) × (find_version candidate.version t.versions ≡ some row))
          (λ e w. w.tables ≡ t)
          p
      → Decides env candidate cause restore t (weighed env candidate cause restore p)
  weighed-Decides (err e, w) h = inr (h, refl)
  weighed-Decides (ok row, w) h =
      judged-Decides row w.tick (call env env.status w)
        (Reads-tables w (call env env.status) (call-Reads env w env.status) ∙ h.0) (asked w) h.1

-- restoreSubscriptionMutation restores the sources only where mosdns cannot run the candidate: it was
-- not recorded; or its row says that it failed before it was applied, and mosdns does not show it or
-- does not answer; or mosdns shows the version before it, and not it. Otherwise it writes nothing, and
-- adds to the error that the outcome is unknown.
pub restore_mutation-Decides :
    (env : Env) (candidate : Version) (cause : Error) (restore : M (Unit {0})) (w : World)
    → Decides env candidate cause restore w.tables (restore_mutation env candidate cause restore w)
unfolding restore_mutation
restore_mutation-Decides env candidate cause restore w =
    elim (Bool-cases (candidate.version == 0)) [
      | inl c ↦ rw c (inl (w, refl, refl, inl (ground (arith, c))))
      | inr c ↦ rw c (
          weighed-Decides env candidate cause restore w.tables _
            (weaken_pair _ (query-Reads env w _) (λ row v h. (h.0, found_ok _ h.1))
              (λ e v h. h)).outcome)
    ]
