-- ===== src/Rules/Subscribe/Renewals.antt =====
-- RefreshSubscription and RefreshDue keep the tables of the rules consistent.
use mosdns_controller.Base.{
  ℕ, ◌≡◌, refl, sym, subst, inl, inr, String, Bool, true, false, List, [], ◌∷◌, none, some, str_eq,
  Bool-cases,
}
use mosdns_controller.Go.Result.{Error, Result, ok, err, version_conflict}
use mosdns_controller.Rules.Parsing.{parse_subscription}
use mosdns_controller.Rules.Store.{Subscription, Tables, Env, World, lift, now}
use mosdns_controller.Rules.Publish.{Actor}
use mosdns_controller.Rules.Publish.Consistent.{IsConsistent}
use mosdns_controller.Rules.Subscriptions.{Feed, Download, download_subscription}
use mosdns_controller.Rules.Subscribe.{subscription, subscriptions}
use mosdns_controller.Rules.Subscribe.Change.{stale, later_than}
use mosdns_controller.Rules.Subscribe.Requests.{
  source_checksum, checksum_of, store_unless, refresh_unless, store_content, fetch, note_unless,
  note_failure, subscription_failure, failed_noted, fetched, refresh_if, refresh_item, refresh,
  is_due, refresh_each, due_listed, refresh_due, due_items, or_empty,
}
use mosdns_controller.Rules.Subscribe.Guarantees.{download-Reads}
use mosdns_controller.Rules.Subscribe.Contained.{
  Contained, SourcesOnly, Reads-Contained, bind-Contained, pure-Contained, lift-Contained,
  now-Contained, query-Contained, write-Contained, subscription-Contained,
}
use mosdns_controller.Rules.Subscribe.Consistent.{
  Contained-IsConsistent, IsTame, carry_out-IsConsistent, joined_with-tables,
}
use mosdns_controller.Rules.Subscribe.Calls.{bind-IsTame}

SourcesOnly-then : (t : Tables) {u v : Tables} → v ≡ u → SourcesOnly t u → SourcesOnly t v
SourcesOnly-then t h k = subst (SourcesOnly t) (sym h) k

module _ (env : Env) (feed : Feed) where
  or_empty-tables : (p : Result String × World) → (or_empty env feed p).1.tables ≡ p.1.tables
  or_empty-tables (ok v, w) = refl
  or_empty-tables (err e, w) = refl

  source_checksum-Contained : (id : ℕ) → Contained (source_checksum env feed id)
  unfolding source_checksum
  source_checksum-Contained id w =
      SourcesOnly-then w.tables (or_empty-tables (checksum_of env feed id w))
        (query-Contained env _ w)

  store_unless-Contained :
      (d : Download) (patterns : List String) (item : Subscription) (at : ℕ) (c : Bool)
      → Contained (store_unless env feed d patterns item at c)
  store_unless-Contained d patterns item at true w = write-Contained env _ w
  store_unless-Contained d patterns item at false w =
      bind-Contained _ _ (query-Contained env _)
        (λ previous.
          bind-Contained _ _ (source_checksum-Contained item.id)
            λ digest. bind-Contained _ _ (write-Contained env _) λ _ w. refl)
        w

  store_unless-IsTame :
      (d : Download) (patterns : List String) (item : Subscription) (at : ℕ) (c : Bool) (w : World)
      → IsTame (store_unless env feed d patterns item at c w)
  store_unless-IsTame d patterns item at true w = tt
  store_unless-IsTame d patterns item at false w =
      bind-IsTame _ _
        (λ previous. bind-IsTame _ _ λ digest. bind-IsTame _ _ λ _ w. write-Contained env _) w

  refresh_unless-Contained :
      (d : Download) (patterns : List String) (current : Subscription) (c : Bool)
      → Contained (refresh_unless env feed d patterns current c)
  refresh_unless-Contained d patterns current true = pure-Contained (stale current)
  refresh_unless-Contained d patterns current false =
      bind-Contained (now env) _ (now-Contained env) λ at.
        bind-Contained _ _ (source_checksum-Contained current.id) λ digest.
          store_unless-Contained d patterns current (later_than current.updated_at_ms at)
            (str_eq (feed.sha256 d.body) digest)

  refresh_unless-IsTame :
      (d : Download) (patterns : List String) (current : Subscription) (c : Bool) (w : World)
      → IsTame (refresh_unless env feed d patterns current c w)
  refresh_unless-IsTame d patterns current true w = tt
  refresh_unless-IsTame d patterns current false w =
      bind-IsTame (now env) _
        (λ at. bind-IsTame _ _ λ digest.
          store_unless-IsTame d patterns current (later_than current.updated_at_ms at)
            (str_eq (feed.sha256 d.body) digest))
        w

  store_content-Contained :
      (item : Subscription) (d : Download) (patterns : List String)
      → Contained (store_content env feed item d patterns)
  unfolding store_content
  store_content-Contained item d patterns =
      bind-Contained _ _ (subscription-Contained env item.id)
        λ current. refresh_unless-Contained d patterns current _

  store_content-IsTame :
      (item : Subscription) (d : Download) (patterns : List String) (w : World)
      → IsTame (store_content env feed item d patterns w)
  unfolding store_content
  store_content-IsTame item d patterns =
      bind-IsTame _ _ λ current. refresh_unless-IsTame d patterns current _

  fetch-Contained : (item : Subscription) → Contained (fetch env feed item)
  unfolding fetch
  fetch-Contained item =
      bind-Contained (download_subscription env feed item.source_url) _
        (Reads-Contained _ _ (download-Reads env feed item.source_url))
        λ d.
          bind-Contained (lift (parse_subscription env.library d.body)) _
            (lift-Contained (parse_subscription env.library d.body)) λ patterns w. refl

  note_unless-Contained :
      (item : Subscription) (cause : Error) (c : Bool)
      → Contained (note_unless env feed item cause c)
  note_unless-Contained item cause true = lift-Contained {A = Unit {0}} (err version_conflict)
  note_unless-Contained item cause false =
      bind-Contained (now env) _ (now-Contained env) λ at. write-Contained env _

  note_failure-Contained :
      (item : Subscription) (cause : Error) → Contained (note_failure env feed item cause)
  unfolding note_failure
  note_failure-Contained item cause =
      bind-Contained _ _ (subscription-Contained env item.id)
        λ current. note_unless-Contained item cause _

  failed_noted-IsConsistent :
      (p : Error × World)
      → IsConsistent p.1.tables
      → IsConsistent (failed_noted env feed p).1.tables
  failed_noted-IsConsistent (e, w) k = k

  -- What other calls do meanwhile keeps the tables consistent.
  module _ (meanwhile : World → World)
      (keeps : (w : World) → IsConsistent w.tables → IsConsistent (meanwhile w).tables) where
    fetched-IsConsistent :
        (item : Subscription) (actor : Actor) (p : Result (Download × List String) × World)
        → IsConsistent p.1.tables
        → IsConsistent (fetched env feed meanwhile item actor p).1.tables
    unfolding subscription_failure
    fetched-IsConsistent item actor (err e, w) k =
        failed_noted-IsConsistent (subscription_failure env feed item e (meanwhile w)) (
          subst IsConsistent
            (sym (joined_with-tables e (note_failure env feed item e (meanwhile w))))
            (Contained-IsConsistent (note_failure env feed item e) (meanwhile w)
              (note_failure-Contained item e) (keeps w k)))
    fetched-IsConsistent item actor (ok (d, patterns), w) k =
        carry_out-IsConsistent env feed actor none some (λ s. s)
          (store_content env feed item d patterns (meanwhile w)) (λ _. refl)
          (store_content-IsTame item d patterns (meanwhile w))
          (Contained-IsConsistent (store_content env feed item d patterns) (meanwhile w)
            (store_content-Contained item d patterns) (keeps w k))

    refresh_if-IsConsistent :
        (item : Subscription) (actor : Actor) (c : Bool) (w : World)
        → IsConsistent w.tables
        → IsConsistent (refresh_if env feed meanwhile item actor c w).1.tables
    refresh_if-IsConsistent item actor false w k = k
    refresh_if-IsConsistent item actor true w k =
        fetched-IsConsistent item actor (fetch env feed item w)
          (Contained-IsConsistent (fetch env feed item) w (fetch-Contained item) k)

    refresh_item-IsConsistent :
        (actor : Actor) (p : Result Subscription × World)
        → IsConsistent p.1.tables
        → IsConsistent (refresh_item env feed meanwhile actor p).1.tables
    refresh_item-IsConsistent actor (err e, w) k = k
    refresh_item-IsConsistent actor (ok item, w) k =
        refresh_if-IsConsistent item actor (str_eq item.kind "url") w k

    -- A refresh keeps the tables consistent.
    pub refresh-IsConsistent :
        (id : ℕ) (actor : Actor) (w : World)
        → IsConsistent w.tables
        → IsConsistent (refresh env feed meanwhile id actor w).1.tables
    unfolding refresh
    refresh-IsConsistent id actor w k =
        refresh_item-IsConsistent actor (subscription env id w)
          (Contained-IsConsistent (subscription env id) w (subscription-Contained env id) k)

    refresh_each-IsConsistent :
        (at : ℕ) (items : List Subscription) (w : World)
        → IsConsistent w.tables
        → IsConsistent (refresh_each env feed meanwhile at items w).tables
    unfolding refresh_each
    refresh_each-IsConsistent at [] w k = k
    refresh_each-IsConsistent at (item ∷ items) w k = elim (Bool-cases (is_due env feed at item)) [
      | inl c ↦
          rw (c, refresh_each)
            (refresh_each-IsConsistent at items _ (refresh-IsConsistent item.id _ w k))
      | inr c ↦ rw (c, refresh_each) (refresh_each-IsConsistent at items w k)
    ]

    due_listed-IsConsistent :
        (p : Result (List Subscription × ℕ) × World)
        → IsConsistent p.1.tables
        → IsConsistent (due_listed env feed meanwhile p).tables
    due_listed-IsConsistent (err e, w) k = k
    due_listed-IsConsistent (ok (items, at), w) k = refresh_each-IsConsistent at items w k

    subscriptions-Contained :
        (category action : String) → Contained (subscriptions env category action)
    unfolding subscriptions
    subscriptions-Contained category action w =
        bind-Contained _ _ (λ w. refl) (λ _. query-Contained env _) w

    due_items-Contained : Contained (due_items env feed)
    unfolding due_items
    due_items-Contained =
        bind-Contained _ _ (subscriptions-Contained "" "")
          λ items. bind-Contained (now env) _ (now-Contained env) λ at w. refl

    -- A round of RefreshDue keeps the tables consistent.
    pub refresh_due-IsConsistent :
        (w : World) → IsConsistent w.tables → IsConsistent (refresh_due env feed meanwhile w).tables
    unfolding refresh_due
    refresh_due-IsConsistent w k =
        due_listed-IsConsistent (due_items env feed w)
          (Contained-IsConsistent (due_items env feed) w due_items-Contained k)
