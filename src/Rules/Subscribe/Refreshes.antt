-- ===== src/Rules/Subscribe/Refreshes.antt =====
-- What RefreshSubscription guarantees, from the locks on.
use mosdns_controller.Base.{
  ℕ, ◌<◌, ◌≡◌, ◌≢◌, refl, ap, ◌∙◌, ◌⊎◌, inl, inr, String, Bool, true, false, List, none, some,
  str_eq, eq_iff, arith,
}
use mosdns_controller.Go.Result.{Error, Result, ok, err, no_rows, version_conflict, or_fail}
use mosdns_controller.Go.Result
use mosdns_controller.Rules.Store.{SourceRow, Sources, Tables, Env, World}
use mosdns_controller.Rules.Store.Ensures.{
  Holds, Outcome, Faulted, Reads, exec-Holds, now-Reads, bind, read_then, weaken_pair, query-Finds,
}
use mosdns_controller.Rules.Catalog.{find_source, update_source, on_rows}
use mosdns_controller.Rules.Catalog.Kept.{IsCatalog}
use mosdns_controller.Rules.Catalog.Rows.{update_source-back, update_source-twice}
use mosdns_controller.Rules.Subscriptions.{Feed, Download}
use mosdns_controller.Rules.Subscribe.Change.{
  Change, same, stale, touched, written, later_than, refreshed_source, unrefreshed_source,
  checked_source,
}
use mosdns_controller.Rules.Subscribe.Requests.{
  refresh_unless, store_unless, source_checksum, checksum_of, or_empty, noted_as, write,
}
use mosdns_controller.Rules.Subscribe.Restore.{Restores, write-Restores}
use mosdns_controller.Rules.Subscribe.Writes.{column_then, later_than-later}

module _ (env : Env) (feed : Feed) (t : Tables) (k : IsCatalog t.sources) (row : SourceRow)
    (found : find_source row.subscription.id t.sources.rows ≡ some row) (d : Download)
    (patterns : List String) where
  abbrev id : ℕ
  id = row.subscription.id

  -- The checksum of the row; or the empty text, if the database fails.
  abbrev pub Summed : String → Type 0
  Summed digest = (digest ≡ row.content_checksum) ⊎ (((x : Error) × Faulted env x) × (digest ≡ ""))

  -- The checksum that was read is not that of the download, and the row has the patterns and the
  -- checksum of the download now, and a later time of update.
  abbrev pub Refreshed : Sources → Type 0
  Refreshed s =
      (digest : String) × Summed digest
      × (feed.sha256 d.body ≢ digest)
      × (at : ℕ) × (row.subscription.updated_at_ms < at)
      × (s ≡ record (t.sources) {
        rows =
            update_source id (refreshed_source d (feed.sha256 d.body) patterns at) t.sources.rows;
      })

  -- The checksum that was read is that of the download, and the row notes the time of the check, and
  -- a later time of update.
  abbrev pub Checked : Sources → Type 0
  Checked s =
      (digest : String) × Summed digest
      × (feed.sha256 d.body ≡ digest)
      × (at : ℕ) × (row.subscription.updated_at_ms < at)
      × (s
          ≡ record (t.sources) { rows = update_source id (checked_source d.url at) t.sources.rows })

  abbrev unsummed : SourceRow → SourceRow
  unsummed r = record r { content_checksum = "" }

  -- The rows that a refused refresh goes back to: those of `t`; or, if the database failed when the
  -- checksum was read, those with no checksum.
  abbrev pub GoesBack : List SourceRow → Type 0
  GoesBack rows =
      (rows ≡ t.sources.rows)
      ⊎ (((f : Error) × Faulted env f) × (rows ≡ update_source id unsummed t.sources.rows))

  abbrev pub Stored : Change → World → Type 0
  Stored (same s) w = ⊥
  Stored (stale s) w = w.tables ≡ t
  Stored (touched _ e) w =
      ((e ≢ none) × (w.tables ≡ t))
      ⊎ ((s : Sources) × (w.tables ≡ record t { sources = s }) × Checked s)
  Stored (written _ restore) w =
      (s : Sources) × (rows : List SourceRow) × (w.tables ≡ record t { sources = s })
      × Refreshed s
      × GoesBack rows
      × Restores env s rows restore

  abbrev pub Stores : Result Change × World → Type 0
  Stores p = Holds Stored (λ e u. u.tables ≡ t) p

  or_empty-Holds :
      (w : World) (p : Result String × World)
      → Outcome
          (λ b u. (u.tables ≡ w.tables) × (b ≡ row.content_checksum))
          (λ e u. (u.tables ≡ w.tables) × Faulted env e)
          p
      → Holds
          (λ digest u. (u.tables ≡ w.tables) × Summed digest)
          (λ _ u. u.tables ≡ w.tables)
          (or_empty env feed p)
  or_empty-Holds w (ok b, u) h = record { outcome = (h.0, inl h.1) }
  or_empty-Holds w (err x, u) h = record { outcome = (h.0, inr ((x, h.1), refl)) }

  checksum-Reads : (w : World) → w.tables ≡ t → Reads w (Summed) (source_checksum env feed id)
  unfolding source_checksum
  checksum-Reads w h =
      or_empty-Holds w (checksum_of env feed id w)
        (query-Finds env w _ row.content_checksum (accepted h)).outcome
    where
      accepted :
          w.tables ≡ t
          → Result.◌>>=◌
              (or_fail (find_source id w.tables.sources.rows) no_rows)
              (λ r. ok r.content_checksum)
            ≡ ok row.content_checksum
      accepted h =
          ap
            (λ t.
              Result.◌>>=◌ (or_fail (find_source id t.sources.rows) no_rows)
                (λ r. ok r.content_checksum))
            h
          ∙ ap (λ o. Result.◌>>=◌ (or_fail o no_rows) (λ r. ok r.content_checksum)) found

  noted_as-Begins :
      (at : ℕ) (digest : String)
      → Summed digest
      → feed.sha256 d.body ≡ digest
      → (p : Result (Unit {0}) × World) → row.subscription.updated_at_ms < at
      → Outcome
          (λ _ u. u.tables ≡ record t {
            sources = record (t.sources) {
              rows = update_source id (checked_source d.url at) t.sources.rows;
            };
          })
          (λ e u. u.tables ≡ t)
          p
      → Stores (noted_as env feed id p)
  noted_as-Begins at digest sum e (ok _, w) l h = record {
    outcome = inr (_, h, (digest, sum, e, at, l, refl));
  }
  noted_as-Begins at digest sum q (err e, w) l h = record {
    outcome = inl ((λ n. absurd (ground (arith, n))), h);
  }

  goes_back :
      (digest : String) (at : ℕ)
      → Summed digest
      → GoesBack (
          update_source id
            (unrefreshed_source row.subscription digest row.domains)
            (update_source id (refreshed_source d (feed.sha256 d.body) patterns at) t.sources.rows))
  unfolding unrefreshed_source refreshed_source
  goes_back digest at (inl e) = inl (
      update_source-back id (refreshed_source d (feed.sha256 d.body) patterns at)
        (unrefreshed_source row.subscription digest row.domains) t.sources.rows row k.ascending
        found (λ r. refl) (ap (λ c. record row { content_checksum = c }) e))
  goes_back digest at (inr (f, e)) = inr (
    f,
    update_source-twice id (refreshed_source d (feed.sha256 d.body) patterns at)
        (unrefreshed_source row.subscription digest row.domains) unsummed t.sources.rows row
        k.ascending found (λ r. refl) (ap (λ c. record row { content_checksum = c }) e),
  )

  store_unless-Begins :
      (at : ℕ) (digest : String)
      → Summed digest
      → (b : Bool) → str_eq (feed.sha256 d.body) digest ≡ b
      → (w : World) → row.subscription.updated_at_ms < at
      → w.tables ≡ t
      → Stores (store_unless env feed d patterns row.subscription at b w)
  store_unless-Begins at old summed true e w l h =
      noted_as-Begins at old summed (ground (arith, e, eq_iff (feed.sha256 d.body) old))
        (write env feed (update_source id (checked_source d.url at)) w) l
        (weaken_pair _ (exec-Holds env w (on_rows (update_source id (checked_source d.url at))))
          (λ _ u r. ground (arith, r, h)) (λ e u l'. l' ∙ h)).outcome
  store_unless-Begins at old summed false q w l h =
      column_then env feed t k id (λ r. r.domains) _ row w h found
        λ w1 h1. read_then _ _ w1 h1 (checksum-Reads w1 h1) λ digest w2 h2 sum.
          let back : SourceRow → SourceRow =
            unrefreshed_source row.subscription digest row.domains in
          let new : Sources = record (t.sources) {
            rows =
                update_source id (refreshed_source d (feed.sha256 d.body) patterns at)
                  t.sources.rows;
          } in
          bind _ _ _ (exec-Holds env w2 _)
            (λ _ w3 e. record {
              outcome = (
                new,
                update_source id back new.rows,
                ground (arith, e, h2),
                (
                  old,
                  summed,
                  (λ x. ground (arith, q, x, eq_iff (feed.sha256 d.body) old)),
                  at,
                  l,
                  refl,
                ),
                goes_back digest at sum,
                write-Restores env (update_source id back) new (update_source id back new.rows)
                    refl,
              );
            })
            (λ e w3 l. l ∙ h2)

  pub refresh_unless-Begins :
      (b : Bool) (w : World)
      → w.tables ≡ t
      → Stores (refresh_unless env feed d patterns row.subscription b w)
  refresh_unless-Begins true w h = record { outcome = h }
  refresh_unless-Begins false w h = read_then _ _ w h (now-Reads env w) λ at w1 h1 _.
      read_then _ _ w1 h1 (checksum-Reads w1 h1) λ digest w2 h2 sum.
        store_unless-Begins (later_than row.subscription.updated_at_ms at) digest sum
          (str_eq (feed.sha256 d.body) digest) refl w2
          (later_than-later row.subscription.updated_at_ms at) h2
