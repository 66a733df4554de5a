-- ===== src/Rules/Subscribe/Restore.antt =====
-- The statements of controller/internal/rules/subscriptions.go that take a change of the sources back.
use mosdns_controller.Base.{
  ℕ, ◌≡◌, ◌≤◌, refl, ap, ap₂, ◌∙◌, sym, subst, true, false, List, Option, none, some, ◌||◌, not,
  any, arith,
}
use mosdns_controller.Go.Result.{Error, Result, ok, err}
use mosdns_controller.Go.Result
use mosdns_controller.Rules.Store.{
  Binding, Subscription, SourceRow, Sources, Tables, Env, World, M, exec,
}
use mosdns_controller.Rules.Store.Ensures.{Holds, Faulted, exec-Writes, weaken_pair, bind}
use mosdns_controller.Rules.Catalog.{
  find_source, update_source, remove_source, insert_source, insert_binding, on_sources, on_rows,
  with_binding, has_id, has_binding, larger, check_source,
}
use mosdns_controller.Rules.Catalog.Rows.{
  update_source-back, update_source-same, place-remove, remove_source-gone, find_source-All,
  find_source-id, find_source-update, any-unbound,
}
use mosdns_controller.Rules.Catalog.Kept.{IsCatalog, Sound, Unshared-remove}
use mosdns_controller.Rules.Subscriptions.{Feed}
use mosdns_controller.Rules.Subscribe.Requests.{undelete, restored_row, restore_binding}

-- From the sources `s` on, the statement gives the rows `rows` back, and changes nothing but the
-- sources; or the database fails.
abbrev pub Restores : Env → Sources → List SourceRow → M (Unit {0}) → Type 0
Restores env s rows restore =
    (v : World)
    → v.tables.sources ≡ s
    → Holds
        (λ _ u. (s' : Sources) × (u.tables ≡ record (v.tables) { sources = s' }) × (s'.rows ≡ rows))
        (λ e u. ((s' : Sources) × (u.tables ≡ record (v.tables) { sources = s' })) × Faulted env e)
        (restore v)

check_source-unbound :
    (s : Subscription) (b : Option Binding)
    → check_source (record s { binding = b }) ≡ check_source s
unfolding check_source
check_source-unbound s b = refl

owns :
    (row : SourceRow) (b : Binding)
    → row.subscription.binding ≡ some b
    → has_binding b.id row ≡ true
owns row b e = ground arith

larger-bound : (a b : ℕ) → b ≤ a → larger a b ≡ a
larger-bound a b h = ground arith

pub on_sources-ok :
    (f : Sources → Result Sources) (t : Tables) {s : Sources}
    → f t.sources ≡ ok s
    → on_sources f t ≡ ok (record t { sources = s })
on_sources-ok f t h = ap (λ r. Result.◌>>=◌ r (λ s. ok (record t { sources = s }))) h

module _ (env : Env) where
  pub write-Restores :
      (f : List SourceRow → List SourceRow) (s : Sources) (rows : List SourceRow)
      → f s.rows ≡ rows
      → Restores env s rows (exec env (on_rows f))
  write-Restores f s rows h v e =
      weaken_pair _ (exec-Writes env v (on_rows f) _ refl)
        (λ _ u k. (_, k, ap (λ s. f s.rows) e ∙ h)) (λ x u k. ((v.tables.sources, k.0), k.1))

  module _ (feed : Feed) (id : ℕ) (s : Sources) (row : SourceRow) (k : IsCatalog s)
      (found : find_source id s.rows ≡ some row) where
    abbrev item : Subscription
    item = row.subscription

    same : item.id ≡ id
    same = find_source-id id s.rows row found

    abbrev bare : SourceRow
    bare = restored_row env feed item row.content_checksum row.domains

    abbrev without : Sources
    without = record s { rows = remove_source id s.rows }

    bare-accepted :
        (any (has_id bare.subscription.id) (remove_source id s.rows)
          || not (check_source bare.subscription))
        ≡ false
    bare-accepted =
        let gone = remove_source-gone id s.rows in
        let sound =
          find_source-All (Sound s.sequence s.binding_sequence) id s.rows row k.sound found in
        let checked : check_source bare.subscription ≡ true =
          check_source-unbound item none ∙ sound.checked in
        ap₂ (λ x y. x || not y)
          (subst (λ n. any (has_id n) (remove_source id s.rows) ≡ false) (sym same) gone) checked

    inserted :
        insert_source bare without
        ≡ ok (record s { rows = update_source id (with_binding none) s.rows })
    unfolding insert_source
    inserted =
        let sound =
          find_source-All (Sound s.sequence s.binding_sequence) id s.rows row k.sound found in
        let placed = place-remove id (with_binding none) s.rows row k.ascending found (λ r. refl) in
        let kept = larger-bound s.sequence item.id sound.fresh in
        rw (bare-accepted) (ap₂ (λ rows n. ok (record s { rows = rows; sequence = n })) placed kept)

    abbrev unbound_sources : Sources
    unbound_sources = record s { rows = update_source id (with_binding none) s.rows }

    unbound-found : find_source id unbound_sources.rows ≡ some bare
    unbound-found = find_source-update id (with_binding none) s.rows row found (λ r. refl)

    rebound : (b : Binding) → item.binding ≡ some b → insert_binding id b unbound_sources ≡ ok s
    unfolding insert_binding
    rebound b e =
        let back =
          update_source-back id (with_binding none) (with_binding (some b)) s.rows row k.ascending
            found (λ r. refl) (ap (λ x. with_binding x row) (sym e)) in
        let sound =
          find_source-All (Sound s.sequence s.binding_sequence) id s.rows row k.sound found in
        let bounds = sound.bound b e in
        let kept = larger-bound s.binding_sequence b.id bounds.1 in
        let alone : any (has_binding b.id) unbound_sources.rows ≡ false =
          any-unbound b.id id s.rows
          ∙ Unshared-remove id s.rows row b.id k.unshared found (owns row b e) in
        rw (insert_binding, unbound-found, alone, bounds.0)
          (ap₂ (λ rows n. ok (record s { rows = rows; binding_sequence = n })) back kept)

    pub undelete-Restores :
        Restores env without s.rows (undelete env feed item row.content_checksum row.domains)
    unfolding undelete
    undelete-Restores v e =
        bind _ _ _
          (exec-Writes env v _ (record (v.tables) { sources = unbound_sources })
            (on_sources-ok (insert_source bare) v.tables (ap (insert_source bare) e ∙ inserted)))
          (λ _ u h. restored u v.tables item.binding refl h)
          (λ x u h. ((v.tables.sources, h.0), h.1))
      where
        restored :
            (u : World) (t : Tables) (o : Option Binding)
            → item.binding ≡ o
            → u.tables ≡ record t { sources = unbound_sources }
            → Holds
                (λ _ u'.
                  (s' : Sources) × (u'.tables ≡ record t { sources = s' }) × (s'.rows ≡ s.rows))
                (λ x u'. ((s' : Sources) × (u'.tables ≡ record t { sources = s' })) × Faulted env x)
                (restore_binding env feed item.id o u)
        restored u t none e h =
            let same =
              update_source-same id (with_binding none) s.rows row k.ascending found
                (ap (λ x. with_binding x row) (sym e)) in
            record { outcome = (unbound_sources, h, same) }
        restored u t (some b) e h =
            weaken_pair _
              (exec-Writes env u _ (record t { sources = s })
                (ap (on_sources (insert_binding item.id b)) h
                  ∙ on_sources-ok (insert_binding item.id b)
                      (record t { sources = unbound_sources })
                      (ap (λ n. insert_binding n b unbound_sources) same ∙ rebound b e)))
              (λ _ u' l. (s, l, refl)) (λ x u' l. ((unbound_sources, l.0 ∙ h), l.1))
