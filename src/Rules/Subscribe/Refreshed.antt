-- ===== src/Rules/Subscribe/Refreshed.antt =====
-- How RefreshSubscription ends, from the locks on.
use mosdns_controller.Base.{◌≡◌, ◌≢◌, ◌⊎◌, String, List, Option, none, some}
use mosdns_controller.Go.Result.{Result}
use mosdns_controller.Rules.Store.{Subscription, SourceRow, Sources, Tables, Env, World}
use mosdns_controller.Rules.Catalog.{find_source}
use mosdns_controller.Rules.Catalog.Kept.{IsCatalog}
use mosdns_controller.Rules.Publish.{Version, Actor}
use mosdns_controller.Rules.Subscriptions.{Feed, Download}
use mosdns_controller.Rules.Subscribe.{Answer, subscription}
use mosdns_controller.Rules.Subscribe.Change.{Change, stale}
use mosdns_controller.Rules.Subscribe.Requests.{carry_out}
use mosdns_controller.Rules.Subscribe.Ends.{Changed}
use mosdns_controller.Rules.Subscribe.Refreshes.{Refreshed, Checked, GoesBack, Stored}

module _ (env : Env) (feed : Feed) (t : Tables) (k : IsCatalog t.sources) (item : Subscription)
    (d : Download) (patterns : List String) where
  -- The row of the item, not changed since the item was read.
  pub record Current : Type 0 where
    pub row : SourceRow
    pub found : find_source row.subscription.id t.sources.rows ≡ some row
    pub named : row.subscription.id ≡ item.id
    pub unchanged : row.subscription.updated_at_ms ≡ item.updated_at_ms

  abbrev Held : Change → World → Type 0
  Held c w =
      ((w.tables ≡ t) × ((current : Subscription) × (c ≡ stale current)))
      ⊎ ((r : Current) × Stored env feed t k r.row r.found d patterns c w)

  -- The row is current, and notes that it was checked; or it has the new content, which is published,
  -- or refused.
  abbrev pub Renews : Answer (Option Version) × World → Type 0
  Renews p =
      (r : Current) × (((s : Sources) × (p.1.tables ≡ record t { sources = s })
          × Checked env feed t k r.row r.found d patterns s
          × (p.0.version ≡ none))
        ⊎ ((s : Sources) × (rows : List SourceRow) × Refreshed env feed t k r.row r.found d patterns
              s
            × GoesBack env feed t k r.row r.found d patterns rows
            × Changed env some rows t s p.0.version p.0.error p.1.tables))

  -- Nothing is written, and an error is reported; or the source is renewed.
  abbrev pub RefreshEnds : Answer (Option Version) × World → Type 0
  RefreshEnds p = ((p.1.tables ≡ t) × (p.0.error ≢ none)) ⊎ Renews p

  module _ (actor : Actor) where
    abbrev carried : Result Change × World → Answer (Option Version) × World
    carried = carry_out env feed none some (λ s. s) actor
