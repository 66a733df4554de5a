-- ===== src/Rules/Subscribe/Writes.antt =====
-- What each change of the sources has done to them by the call of allRules.
use mosdns_controller.Base.{
  ℕ, ◌<◌, ◌≡◌, refl, ap, ◌∙◌, sym, subst, Bool, true, false, Option, none, some, arith,
}
use mosdns_controller.Go.Result.{Error, Result, ok, err, no_rows, or_fail}
use mosdns_controller.Go.Result
use mosdns_controller.Rules.Store.{
  Subscription, SourceRow, Sources, Tables, Env, World, M, exec, query, pure, ◌>>=◌,
}
use mosdns_controller.Rules.Store.Ensures.{
  Holds, Reads, exec-Holds, query-Reads, now-Reads, weaken_pair, bind, read_then,
}
use mosdns_controller.Rules.Catalog.{find_source, update_source, remove_source, on_sources, on_rows}
use mosdns_controller.Rules.Catalog.Kept.{IsCatalog}
use mosdns_controller.Rules.Subscriptions.{Feed}
use mosdns_controller.Rules.Subscribe.{subscription, flag_matches}
use mosdns_controller.Rules.Subscribe.Change.{
  Change, same, stale, touched, written, later_than, enabled_source,
}
use mosdns_controller.Rules.Subscribe.Requests.{set_enabled, enable_unless, delete_subscription}
use mosdns_controller.Rules.Subscribe.Restore.{Restores, write-Restores, undelete-Restores}
use mosdns_controller.Rules.Catalog.Rows.{KeepsId, update_source-back}

-- A change of the sources of `t` to some that satisfy `W`, with a statement that takes it back; or
-- none, where `I` holds.
abbrev pub Begun : Env → Type 0 → (Sources → Type 0) → Tables → Change → World → Type 0
Begun env I W t (same item) w = (w.tables ≡ t) × I
Begun env I W t (stale item) w = w.tables ≡ t
Begun env I W t (touched id e) w = ⊥
Begun env I W t (written id restore) w =
    (s : Sources) × (w.tables ≡ record t { sources = s })
    × W s
    × Restores env s t.sources.rows restore

-- A begun change, or an error that has changed nothing.
abbrev pub Begins : Env → Type 0 → (Sources → Type 0) → Tables → Result Change × World → Type 0
Begins env I W t p = Holds (λ c u. Begun env I W t c u) (λ e u. u.tables ≡ t) p

module _ (env : Env) (I : Type 0) (t : Tables) {W W' : Sources → Type 0}
    (k : (s : Sources) → W s → W' s) where
  Begun-weaken : (c : Change) (w : World) → Begun env I W t c w → Begun env I W' t c w
  Begun-weaken (same item) w h = h
  Begun-weaken (stale item) w h = h
  Begun-weaken (touched id e) w h = h
  Begun-weaken (written id restore) w h = (h.0, h.1, k h.0 h.2, h.3)

  pub Begins-weaken : (p : Result Change × World) → Begins env I W t p → Begins env I W' t p
  Begins-weaken p h = weaken_pair p h Begun-weaken (λ _ _ l. l)

found_ok : (o : Option SourceRow) {row : SourceRow} → or_fail o no_rows ≡ ok row → o ≡ some row
found_ok none e = cc
found_ok (some r) e = ground (arith, e)

pub on_sources-cases :
    (t t' : Tables) (r : Result Sources)
    → Result.◌>>=◌ r (λ s. ok (record t { sources = s })) ≡ ok t'
    → (s : Sources) × (r ≡ ok s) × (t' ≡ record t { sources = s })
on_sources-cases t t' (ok s) h = (s, refl, ground (arith, h))
on_sources-cases t t' (err e) h = cc

pub later_than-later : (updated at : ℕ) → updated < later_than updated at
later_than-later updated at = ground arith

flag_matches-eq : (a b : Bool) → flag_matches a b ≡ true → a ≡ b
flag_matches-eq true b h = sym h
flag_matches-eq false b h = ground arith

column_of :
    {A : Type 0} (column : SourceRow → A) (o : Option SourceRow) (row : SourceRow) (a : A)
    → o ≡ some row
    → Result.◌>>=◌ (or_fail o no_rows) (λ r. ok (column r)) ≡ ok a
    → column row ≡ a
column_of column none row a h e = cc
column_of column (some r) row a h e = cc

module _ (env : Env) where
  -- The item is that of the row that stands under the identifier.
  pub subscription-Reads :
      (id : ℕ) (w : World)
      → Reads w
          (λ item.
            (row : SourceRow) × (find_source id w.tables.sources.rows ≡ some row)
            × (item ≡ row.subscription))
          (subscription env id)
  unfolding subscription
  subscription-Reads id w =
      bind _ _ _ (query-Reads env w (λ t. or_fail (find_source id t.sources.rows) no_rows))
        (λ row v h. record { outcome = (h.0, (row, found_ok _ h.1, refl)) }) (λ e v h. h)

  -- A method that begins with the item of an identifier.
  pub source_then :
      {B : Type 0} {Q : B → World → Type 0} {t : Tables} (id : ℕ) (f : Subscription → M B)
      (w : World)
      → w.tables ≡ t
      → ((row : SourceRow) (u : World)
          → u.tables ≡ t
          → find_source id t.sources.rows ≡ some row
          → Holds Q (λ _ v. v.tables ≡ t) (f row.subscription u))
      → Holds Q (λ _ v. v.tables ≡ t) ((subscription env id >>= f) w)
  source_then {Q} {t} id f w h k =
      read_then _ _ w h (subscription-Reads id w) λ item u l (row, found, item-is).
        subst (λ s. Holds Q (λ _ v. v.tables ≡ t) (f s u)) (sym item-is)
          (k row u l (subst (λ t. find_source id t.sources.rows ≡ some row) h found))

  -- The statement of a change, with the statement that takes it back.
  pub written-Begins :
      {I : Type 0} {W : Sources → Type 0} {t : Tables} (g : Sources → Result Sources) (id : ℕ)
      (restore : M (Unit {0})) (w : World)
      → w.tables ≡ t
      → ((s : Sources) → g t.sources ≡ ok s → W s × Restores env s t.sources.rows restore)
      → Begins env I W t ((exec env (on_sources g) >>= λ _. pure (written id restore)) w)
  written-Begins {W} {t} g id restore w h k =
      bind _ _ _ (exec-Holds env w (on_sources g))
        (λ _ v e.
          let (s, accepted, tables) =
            on_sources-cases t v.tables (g t.sources)
              (subst (λ t. on_sources g t ≡ ok v.tables) h e) in
          record { outcome = (s, tables, (k s accepted).0, (k s accepted).1) })
        (λ e v l. l ∙ h)

  -- An UPDATE of a found row, with the UPDATE that takes it back.
  pub update-Begins :
      {I : Type 0} {W : Sources → Type 0} {t : Tables} (f g : SourceRow → SourceRow) (id : ℕ)
      (row : SourceRow) (w : World)
      → IsCatalog t.sources
      → find_source id t.sources.rows ≡ some row
      → KeepsId f
      → g (f row) ≡ row
      → w.tables ≡ t
      → W (record (t.sources) { rows = update_source id f t.sources.rows })
      → Begins env I W t (
          (exec env (on_rows (update_source id f)) >>= λ _.
          pure (written id (exec env (on_rows (update_source id g)))))
            w)
  update-Begins {W} {t} f g id row w k found kf back h done =
      written-Begins (λ s. ok (record s { rows = update_source id f s.rows })) id
        (exec env (on_rows (update_source id g))) w h
        λ s e.
          let new : record (t.sources) { rows = update_source id f t.sources.rows } ≡ s =
            ground (arith, e) in
          (
            subst W new done,
            write-Restores env (update_source id g) s t.sources.rows (
                ap (λ s. update_source id g s.rows) (sym new)
                ∙ update_source-back id f g t.sources.rows row k.ascending found kf back),
          )

  module _ (feed : Feed) (t : Tables) (k : IsCatalog t.sources) where
    -- The row of the identifier, with the flag set and a later time of update.
    abbrev pub Enabled : ℕ → Bool → Sources → Type 0
    Enabled id enabled s =
        (row : SourceRow) × (find_source id t.sources.rows ≡ some row)
        × ((at : ℕ) × (row.subscription.updated_at_ms < at)
            × (s ≡ record (t.sources) {
              rows = update_source id (enabled_source enabled at) t.sources.rows;
            }))

    -- The row of the identifier has the flag.
    abbrev pub IsEnabled : ℕ → Bool → Type 0
    IsEnabled id enabled =
        (row : SourceRow) × (find_source id t.sources.rows ≡ some row)
        × (row.subscription.enabled ≡ enabled)

    enable_unless-Begins :
        (id : ℕ) (enabled : Bool) (row : SourceRow) (b : Bool) (w : World)
        → w.tables ≡ t
        → find_source id t.sources.rows ≡ some row
        → (b ≡ true → row.subscription.enabled ≡ enabled)
        → Begins env
            (IsEnabled id enabled)
            (Enabled id enabled)
            t
            (enable_unless env feed id enabled row.subscription b w)
    enable_unless-Begins id enabled row true w h f s = record { outcome = (h, (row, f, s refl)) }
    enable_unless-Begins id enabled row false w h f s =
        read_then _ _ w h (now-Reads env w) λ at w1 h1 _.
          let later = later_than row.subscription.updated_at_ms at in
          update-Begins (enabled_source enabled later)
            (enabled_source row.subscription.enabled row.subscription.updated_at_ms) id row w1 k f
            (λ r. refl) refl h1
            (row, f, (later, later_than-later row.subscription.updated_at_ms at, refl))

    pub set_enabled-Begins :
        (id : ℕ) (enabled : Bool) (w : World)
        → w.tables ≡ t
        → Begins env
            (IsEnabled id enabled)
            (Enabled id enabled)
            t
            (set_enabled env feed id enabled w)
    unfolding set_enabled
    set_enabled-Begins id enabled w h = source_then id _ w h λ row w1 h1 f.
        enable_unless-Begins id enabled row (flag_matches row.subscription.enabled enabled) w1 h1 f
          (flag_matches-eq row.subscription.enabled enabled)

    -- A column of a row that was found.
    pub column_then :
        {A B : Type 0} {Q : B → World → Type 0} (id : ℕ) (column : SourceRow → A) (f : A → M B)
        (row : SourceRow) (w : World)
        → w.tables ≡ t
        → find_source id t.sources.rows ≡ some row
        → ((u : World) → u.tables ≡ t → Holds Q (λ _ v. v.tables ≡ t) (f (column row) u))
        → Holds Q
            (λ _ v. v.tables ≡ t)
            ((query env (λ t.
                  Result.◌>>=◌
                    (or_fail (find_source id t.sources.rows) no_rows)
                    (λ r. ok (column r)))
                >>= f)
              w)
    column_then {Q} id column f row w h found k = read_then _ _ w h (query-Reads env w _) λ a u l e.
        subst (λ a. Holds Q (λ _ v. v.tables ≡ t) (f a u))
          (column_of column (find_source id t.sources.rows) row a found (
            subst
              (λ t.
                Result.◌>>=◌ (or_fail (find_source id t.sources.rows) no_rows) (λ r. ok (column r))
                ≡ ok a)
              h e))
          (k u l)

    -- The source without the row of the identifier.
    abbrev pub Removed : ℕ → Sources → Type 0
    Removed id s =
        (row : SourceRow) × (find_source id t.sources.rows ≡ some row)
        × (s ≡ record (t.sources) { rows = remove_source id t.sources.rows })

    pub delete_subscription-Begins :
        (id : ℕ) (w : World)
        → w.tables ≡ t
        → Holds
            (λ restore u.
              (s : Sources) × (u.tables ≡ record t { sources = s })
              × Removed id s
              × Restores env s t.sources.rows restore)
            (λ e u. u.tables ≡ t)
            (delete_subscription env feed id w)
    unfolding delete_subscription
    delete_subscription-Begins id w h = source_then id _ w h λ row w1 h1 f.
        column_then id (λ r. r.domains) _ row w1 h1 f
          λ w2 h2.
            column_then id (λ r. r.content_checksum) _ row w2 h2 f
              λ w3 h3.
                bind _ _ _ (exec-Holds env w3 (on_rows (remove_source id)))
                  (λ _ w4 e. record {
                    outcome = (
                      record (t.sources) { rows = remove_source id t.sources.rows },
                      ground (arith, e, h3),
                      (row, f, refl),
                      undelete-Restores env feed id t.sources row k f,
                    );
                  })
                  (λ e w4 l. l ∙ h3)
