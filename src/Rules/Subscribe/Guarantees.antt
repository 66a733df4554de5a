-- ===== src/Rules/Subscribe/Guarantees.antt =====
-- What the calls of the administration on subscriptions guarantee, whatever the database, the clock,
-- the download and mosdns answer.
use mosdns_controller.Base.{◌≡◌, refl, ◌∙◌, sym, subst, ◌⊎◌, inl, inr, String, none, arith}
use mosdns_controller.Go.Result.{Error, ok}
use mosdns_controller.Rules.Store.{Sources, Tables, Env, World}
use mosdns_controller.Rules.Store.Ensures.{Reads, lift-Reads, call-Reads, read_then, weaken_pair}
use mosdns_controller.Rules.Statements.{find_active}
use mosdns_controller.Rules.Catalog.Kept.{IsCatalog}
use mosdns_controller.Rules.Publish.{no_version, Published, Actor}
use mosdns_controller.Rules.Publish.Guarantees.{IsPublished}
use mosdns_controller.Rules.Read.{listed_rules}
use mosdns_controller.Rules.Subscriptions.{
  Feed, Download, SubscriptionInput, download_subscription, validate_subscription_input,
  read_response,
}
use mosdns_controller.Rules.Subscribe.Change.{with_interval}
use mosdns_controller.Rules.Subscribe.Requests.{
  Order, subscribe_url, subscribe_upload, enable, bind_group, unsubscribe, carry, create_url,
  create_upload, set_enabled, set_binding, with_name, as_refused, add_subscription,
}
use mosdns_controller.Rules.Subscribe.Compensation.{Unrestored}
use mosdns_controller.Rules.Subscribe.Writes.{
  Begins, Begins-weaken, Enabled, IsEnabled, Removed, set_enabled-Begins,
  delete_subscription-Begins,
}
use mosdns_controller.Rules.Subscribe.Rebinds.{Bound, IsBound, set_binding-Begins}
use mosdns_controller.Rules.Subscribe.Creates.{Subscribed, add_subscription-Begins}
use mosdns_controller.Rules.Subscribe.Ends.{
  Ends, carry_out-Ends, finish_delete-Ends, as_refused-Settles,
}

pub download-Reads :
    (env : Env) (feed : Feed) (url : String) (w : World)
    → Reads w (λ _. Unit {0}) (download_subscription env feed url)
unfolding download_subscription
download-Reads env feed url w = read_then _ _ w refl (lift-Reads w _) λ parsed w1 h1 _.
    read_then _ _ w1 h1 (lift-Reads w1 (feed.new_request parsed.text)) λ _ w2 h2 _.
      read_then _ _ w2 h2 (call-Reads env w2 (λ n. feed.do_request n parsed.text))
        λ response w3 h3 _.
          weaken_pair _ (lift-Reads w3 (read_response response)) (λ _ u l. (l.0 ∙ h3, tt))
            (λ _ u l. l ∙ h3)

module _ (env : Env) (feed : Feed) (t : Tables) (k : IsCatalog t.sources) where
  -- The sources that an order asks for.
  abbrev pub Wanted : Order → Sources → Type 0
  Wanted (subscribe_url input) s =
      (validate_subscription_input (with_interval input) "url" ≡ ok tt)
      × ((d : Download) × Subscribed env feed t k
            (record (with_interval input) { source_url = d.url }) "url" d.body s)
  Wanted (subscribe_upload input filename body) s =
      (validate_subscription_input (with_name env feed filename (with_interval input)) "upload"
        ≡ ok tt)
      × Subscribed env feed t k (with_name env feed filename (with_interval input)) "upload" body s
  Wanted (enable id enabled) s = Enabled env feed t k id enabled s
  Wanted (bind_group id input) s = Bound env feed t k id input s
  Wanted (unsubscribe id) s = Removed env feed t k id s

  -- The sources are as the order asks.
  abbrev pub Idle : Order → Type 0
  Idle (enable id enabled) = IsEnabled env feed t k id enabled
  Idle (bind_group id input) = IsBound env feed t k id input
  Idle _ = ⊥

  create_url-Begins :
      (input : SubscriptionInput) (w : World)
      → w.tables ≡ t
      → Begins env
          (Idle (subscribe_url input))
          (Wanted (subscribe_url input))
          t
          (create_url env feed input w)
  unfolding create_url
  create_url-Begins input w h =
      read_then _ _ w h (lift-Reads w (validate_subscription_input (with_interval input) "url"))
        λ _ w1 h1 v. read_then _ _ w1 h1 (download-Reads env feed input.source_url w1) λ d w2 h2 _.
          Begins-weaken env ⊥ t (λ s c. (v, (d, c)))
            (add_subscription env feed (record (with_interval input) { source_url = d.url }) "url"
              d.body w2)
            (add_subscription-Begins env feed t k
              (record (with_interval input) { source_url = d.url }) "url" d.body w2 h2)

  create_upload-Begins :
      (input : SubscriptionInput) (filename body : String) (w : World)
      → w.tables ≡ t
      → Begins env
          (Idle (subscribe_upload input filename body))
          (Wanted (subscribe_upload input filename body))
          t
          (create_upload env feed input filename body w)
  unfolding create_upload
  create_upload-Begins input filename body w h =
      let named = with_name env feed filename (with_interval input) in
      read_then _ _ w h (lift-Reads w _) λ _ w1 h1 _.
        read_then _ _ w1 h1 (lift-Reads w1 (validate_subscription_input named "upload"))
          λ _ w2 h2 v.
            Begins-weaken env ⊥ t (λ s c. (v, c)) (add_subscription env feed named "upload" body w2)
              (add_subscription-Begins env feed t k named "upload" body w2 h2)

  pub order-Ends :
      (order : Order) (actor : Actor) (w : World)
      → w.tables ≡ t
      → Ends env
          (Idle order)
          (Wanted order)
          (λ v. v)
          t
          (carry env feed order actor w).0.version
          (carry env feed order actor w).0.error
          (carry env feed order actor w).1.tables
  unfolding carry
  order-Ends (subscribe_url input) actor w h =
      carry_out-Ends env feed actor t (Idle (subscribe_url input)) (Wanted (subscribe_url input))
        no_version (λ v. v) (as_refused env feed) (create_url env feed input w)
        (as_refused-Settles env feed t.sources.rows) (create_url-Begins input w h)
  order-Ends (subscribe_upload input filename body) actor w h =
      carry_out-Ends env feed actor t (Idle (subscribe_upload input filename body))
        (Wanted (subscribe_upload input filename body)) no_version (λ v. v) (as_refused env feed)
        (create_upload env feed input filename body w) (as_refused-Settles env feed t.sources.rows)
        (create_upload-Begins input filename body w h)
  order-Ends (enable id enabled) actor w h =
      carry_out-Ends env feed actor t (Idle (enable id enabled)) (Wanted (enable id enabled))
        no_version (λ v. v) (λ s. s) (set_enabled env feed id enabled w) (λ _ _ h. h)
        (set_enabled-Begins env feed t k id enabled w h)
  order-Ends (bind_group id input) actor w h =
      carry_out-Ends env feed actor t (Idle (bind_group id input)) (Wanted (bind_group id input))
        no_version (λ v. v) (as_refused env feed) (set_binding env feed id input w)
        (as_refused-Settles env feed t.sources.rows) (set_binding-Begins env feed t k id input w h)
  order-Ends (unsubscribe id) actor w h =
      finish_delete-Ends env feed actor t (Idle (unsubscribe id)) (Wanted (unsubscribe id)) _
        (delete_subscription-Begins env feed t k id w h)

-- The active version and the stored rules of `t` are untouched, and the subscriptions are those of
-- `t`, unless the statement that restores them from sources that satisfy `W` was run and failed, and
-- the error says so.
pub record Reverted (env : Env) (W : Sources → Type 0) (t t' : Tables) (e : Error) : Type 0 where
  pub active_row : find_active t'.versions ≡ find_active t.versions
  pub stored : t'.domain_rules ≡ t.domain_rules
  pub sources :
      (t'.sources.rows ≡ t.sources.rows)
      ⊎ ((s : Sources) × W s × Unrestored env t.sources.rows s t' e)

module _ (env : Env) (feed : Feed) (order : Order) (actor : Actor) (w : World)
    (k : IsCatalog w.tables.sources) where
  abbrev answer : Published
  answer = (carry env feed order actor w).0

  abbrev after : Tables
  after = (carry env feed order actor w).1.tables

  -- An order that returns no error leaves everything as it was, the source being as the order asks
  -- already, or publishes the listed rules with the sources that the order asks for: a new row for a
  -- validated input and a parsed body, the row with its flag, or its binding to an enabled group, set,
  -- or the other rows.
  pub order_succeeded :
      answer.error ≡ none
      → ((after ≡ w.tables) × Idle env feed w.tables k order)
        ⊎ ((s : Sources) × Wanted env feed w.tables k order s
            × IsPublished env
                (record (w.tables) { sources = s })
                (listed_rules w.tables)
                answer.version
                after)
  order_succeeded e = elim (order-Ends env feed w.tables k order actor w refl) [
    | inl (h, idle) ↦ inl (h, idle e)
    | inr (s, wanted, inl (v, n, p)) ↦ inr (
      s,
      wanted,
      subst
          (λ v. IsPublished env (record (w.tables) { sources = s }) (listed_rules w.tables) v after)
          (sym n) p,
    )
    | inr (s, wanted, inr (x, n, r)) ↦ absurd (ground (arith, e, n))
  ]
