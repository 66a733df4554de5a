-- ===== src/Rules/Subscribe/Requests.antt =====
-- controller/internal/rules/subscriptions.go: CreateURLSubscription, CreateUploadSubscription,
-- RefreshSubscription, SetSubscriptionEnabled, UpdateSubscriptionBinding, DeleteSubscription and
-- RefreshDue.
use mosdns_controller.Base.{
  ℕ, ◌+◌, ◌*◌, String, Bool, true, false, not, ◌&&◌, List, [], ◌∷◌, Option, none, some, ◌==◌,
  str_eq, if◌then◌else◌, leb,
}
use mosdns_controller.Go.Int.{ℤ, pos, eq}
use mosdns_controller.Go.Text.{trim_space}
use mosdns_controller.Go.Result.{
  Error, Result, ok, err, message, database, no_rows, version_conflict, reject_if, or_fail, joined,
}
use mosdns_controller.Go.Result
use mosdns_controller.Rules.Parsing.{parse_subscription}
use mosdns_controller.Rules.Store.{
  Binding, Subscription, SourceRow, Sources, Env, World, M, ◌>>=◌, ◌>>◌, pure, lift, now, query,
  exec, transaction,
}
use mosdns_controller.Rules.Catalog.{
  find_source, update_source, remove_source, insert_source, insert_binding, on_sources, on_rows,
  check_binding,
}
use mosdns_controller.Rules.Publish.{Version, no_version, Published, Actor}
use mosdns_controller.Rules.Subscriptions.{
  SubscriptionInput, BindingInput, validate_subscription_binding, validate_binding, Feed, Download,
  download_subscription, validate_subscription_input,
}
use mosdns_controller.Rules.Subscribe.{
  subscription, subscriptions, error_of, flag_matches, Answer, Settled, unlisted, refused, adopted,
  joined_with, settle, conclude, answered, failed_as,
}
use mosdns_controller.Rules.Subscribe.Change.{
  Change, same, stale, touched, written, natural, later_than, insert_new, bind_new, is_txt,
  with_interval, refreshed_source, unrefreshed_source, checked_source, failed_source,
  enabled_source, rebound_source, truncate_error,
}

module _ (env : Env) (feed : Feed) where
  -- LastInsertId, which asks no database.
  abbrev pub last_insert_id : M ℕ
  last_insert_id w = (ok w.tables.sources.sequence, w)

  -- The binding of a route subscription: it is validated by then, and has a priority.
  abbrev pub bind_route : SubscriptionInput → ℕ → ℕ → Bool → Option ℤ → M (Unit {0})
  bind_route input at id true (some p) =
      exec env (on_sources (bind_new input.upstream_group_id p at id))
  bind_route input at id _ _ = pure tt

  -- The statements of createSubscription between BeginTx and Commit.
  unfoldable pub insert_subscription : SubscriptionInput → String → String → List String → ℕ → M ℕ
  insert_subscription input kind digest patterns at = do
    exec env (on_sources (insert_new input kind digest patterns at))
    id ← last_insert_id
    bind_route input at id (str_eq input.category "route") input.priority
    pure id

  -- createSubscription, up to the call of allRules.
  unfoldable pub add_subscription : SubscriptionInput → String → String → M Change
  add_subscription input kind body = do
    patterns ← lift (parse_subscription env.library body)
    validate_subscription_binding env input
    at ← now env
    id ← transaction env (insert_subscription input kind (feed.sha256 body) patterns at)
    pure (written id (exec env (on_rows (remove_source id))))

  -- CreateURLSubscription, up to the call of allRules.
  unfoldable pub create_url : SubscriptionInput → M Change
  create_url input = do
    lift (validate_subscription_input (with_interval input) "url")
    d ← download_subscription env feed input.source_url
    add_subscription (record (with_interval input) { source_url = d.url }) "url" d.body

  abbrev pub with_name : String → SubscriptionInput → SubscriptionInput
  with_name filename input =
      if str_eq input.name "" then record input { name = filename } else input

  -- CreateUploadSubscription, up to the call of allRules.
  unfoldable pub create_upload : SubscriptionInput → String → String → M Change
  create_upload input filename body = do
    lift (reject_if (not (is_txt env filename)) "subscription upload must be a .txt file")
    lift (validate_subscription_input (with_name filename (with_interval input)) "upload")
    add_subscription (with_name filename (with_interval input)) "upload" body

  -- UPDATE rule_subscriptions SET …, or INSERT or DELETE of another row than those of a binding.
  abbrev pub write : (List SourceRow → List SourceRow) → M (Unit {0})
  write f = exec env (on_rows f)

  abbrev pub enable_unless : ℕ → Bool → Subscription → Bool → M Change
  enable_unless id enabled item true = pure (same item)
  enable_unless id enabled item false = do
    at ← now env
    write (update_source id (enabled_source enabled (later_than item.updated_at_ms at)))
    pure (written id (write (update_source id (enabled_source item.enabled item.updated_at_ms))))

  -- SetSubscriptionEnabled, up to the call of allRules.
  unfoldable pub set_enabled : ℕ → Bool → M Change
  set_enabled id enabled = do
    item ← subscription env id
    enable_unless id enabled item (flag_matches item.enabled enabled)

  abbrev pub unbound : {A : Type 0} → M A
  unbound = lift (err (message "subscription is not a route subscription"))

  abbrev pub binding_is : Binding → BindingInput → Bool
  binding_is b input =
      str_eq b.upstream_group_id (trim_space input.upstream_group_id)
      && eq (pos b.priority) input.priority

  -- UPDATE subscription_bindings, with the CHECKs of the table.
  unfoldable pub update_binding : ℕ → BindingInput → ℕ → Binding → Sources → Result Sources
  update_binding id input at b s = Result.◌>>=◌ (natural input.priority) (λ p.
      if check_binding
        (record b { upstream_group_id = trim_space input.upstream_group_id; priority = p })
      then ok (record s {
        rows = update_source id (rebound_source (trim_space input.upstream_group_id) p at) s.rows;
      })
      else err database)

  abbrev pub bind_unless : ℕ → BindingInput → Subscription → Binding → Bool → M Change
  bind_unless id input item b true = pure (same item)
  bind_unless id input item b false = do
    at ← now env
    exec env (on_sources (update_binding id input at b))
    pure (
        written id (
          write (update_source id (rebound_source b.upstream_group_id b.priority b.updated_at_ms))))

  abbrev pub bind_as : ℕ → BindingInput → Subscription → Option Binding → M Change
  bind_as id input item none = unbound
  bind_as id input item (some b) = do
    validate_binding env input.upstream_group_id input.priority input.expected_version
    bind_unless id input item b (binding_is b input)

  abbrev pub bind_if : ℕ → BindingInput → Subscription → Bool → M Change
  bind_if id input item false = unbound
  bind_if id input item true = bind_as id input item item.binding

  -- UpdateSubscriptionBinding, up to the call of allRules.
  unfoldable pub set_binding : ℕ → BindingInput → M Change
  set_binding id input = do
    item ← subscription env id
    bind_if id input item (str_eq item.category "route")

  -- The row that the restoring INSERT of DeleteSubscription writes.
  abbrev pub restored_row : Subscription → String → Option (List String) → SourceRow
  restored_row item digest domains = record {
    subscription = record item { binding = none };
    content_checksum = digest;
    domains = domains;
  }

  abbrev pub restore_binding : ℕ → Option Binding → M (Unit {0})
  restore_binding id none = pure tt
  restore_binding id (some b) = exec env (on_sources (insert_binding id b))

  unfoldable pub undelete : Subscription → String → Option (List String) → M (Unit {0})
  undelete item digest domains = do
    exec env (on_sources (insert_source (restored_row item digest domains)))
    restore_binding item.id item.binding

  -- SELECT domains_json FROM rule_subscriptions WHERE id=?
  abbrev pub domains_of : ℕ → M (Option (List String))
  domains_of id =
      query env
        (λ t. Result.◌>>=◌ (or_fail (find_source id t.sources.rows) no_rows) λ r. ok r.domains)

  -- SELECT content_checksum FROM rule_subscriptions WHERE id=?
  abbrev pub checksum_of : ℕ → M String
  checksum_of id = query env (λ t.
      Result.◌>>=◌ (or_fail (find_source id t.sources.rows) no_rows) λ r. ok r.content_checksum)

  -- DeleteSubscription, up to the call of allRules.
  unfoldable pub delete_subscription : ℕ → M (M (Unit {0}))
  delete_subscription id = do
    item ← subscription env id
    domains ← domains_of id
    digest ← checksum_of id
    write (remove_source id)
    pure (undelete item digest domains)

  abbrev pub or_empty : Result String × World → Result String × World
  or_empty (ok v, w) = (ok v, w)
  or_empty (err e, w) = (ok "", w)

  -- sourceChecksum
  unfoldable pub source_checksum : ℕ → M String
  source_checksum id w = or_empty (checksum_of id w)

  abbrev pub noted_as : ℕ → Result (Unit {0}) × World → Result Change × World
  noted_as id (r, w) = (ok (touched id (error_of r)), w)

  abbrev pub store_unless : Download → List String → Subscription → ℕ → Bool → M Change
  store_unless d patterns item at true w =
      noted_as item.id (write (update_source item.id (checked_source d.url at)) w)
  store_unless d patterns item at false w =
      (do
        previous ← domains_of item.id
        digest ← source_checksum item.id
        write (update_source item.id (refreshed_source d (feed.sha256 d.body) patterns at))
        pure (
            written item.id
              (write (update_source item.id (unrefreshed_source item digest previous)))))
        w

  abbrev pub refresh_unless : Download → List String → Subscription → Bool → M Change
  refresh_unless d patterns current true = pure (stale current)
  refresh_unless d patterns current false = do
    at ← now env
    digest ← source_checksum current.id
    store_unless d patterns current (later_than current.updated_at_ms at)
        (str_eq (feed.sha256 d.body) digest)

  -- RefreshSubscription, from the locks up to the call of allRules: `item` was read before.
  unfoldable pub store_content : Subscription → Download → List String → M Change
  store_content item d patterns = do
    current ← subscription env item.id
    refresh_unless d patterns current (not (current.updated_at_ms == item.updated_at_ms))

  -- The body of a subscription that is refreshed, and its patterns.
  unfoldable pub fetch : Subscription → M (Download × List String)
  fetch item = do
    d ← download_subscription env feed item.source_url
    patterns ← lift (parse_subscription env.library d.body)
    pure (d, patterns)

  abbrev pub note_unless : Subscription → Error → Bool → M (Unit {0})
  note_unless item cause true = lift (err version_conflict)
  note_unless item cause false = do
    at ← now env
    write (
        update_source item.id
          (failed_source (truncate_error feed cause) (later_than item.updated_at_ms at)))

  unfoldable pub note_failure : Subscription → Error → M (Unit {0})
  note_failure item cause = do
    current ← subscription env item.id
    note_unless item cause (not (current.updated_at_ms == item.updated_at_ms))

  abbrev pub failed_noted : Error × World → Answer (Option Version) × World
  failed_noted (e, w) = failed_as env none e w

  -- subscriptionFailure
  unfoldable pub subscription_failure : Subscription → Error → World → Error × World
  subscription_failure item cause w = joined_with cause (note_failure item cause w)

  -- What createSubscription and UpdateSubscriptionBinding make of a failed allRules.
  abbrev pub as_refused : Settled × World → Settled × World
  as_refused (unlisted e, w) = (refused no_version e, w)
  as_refused (refused v e, w) = (refused v e, w)
  as_refused (adopted v, w) = (adopted v, w)

  -- A change and what it answers: `zero` is the version where none is published.
  unfoldable pub carry_out :
      {V : Type 0}
      → V
      → (Version → V)
      → (Settled × World → Settled × World)
      → Actor
      → Result Change × World
      → Answer V × World
  carry_out zero wrap late actor (err e, w) = failed_as env zero e w
  carry_out zero wrap late actor (ok (same item), w) =
      (record { item = item; version = zero; error = none }, w)
  carry_out zero wrap late actor (ok (stale item), w) =
      (record { item = item; version = zero; error = some version_conflict }, w)
  carry_out zero wrap late actor (ok (touched id e), w) =
      answered env zero e (subscription env id w)
  carry_out zero wrap late actor (ok (written id restore), w) =
      conclude env zero wrap id (late (settle env actor restore w))

  abbrev pub fetched :
      (World → World)
      → Subscription
      → Actor
      → Result (Download × List String) × World
      → Answer (Option Version) × World
  fetched meanwhile item actor (err e, w) = failed_noted (subscription_failure item e (meanwhile w))
  fetched meanwhile item actor (ok p, w) =
      carry_out none some (λ s. s) actor (store_content item p.0 p.1 (meanwhile w))

  abbrev pub refresh_if :
      (World → World) → Subscription → Actor → Bool → World → Answer (Option Version) × World
  refresh_if meanwhile item actor false w =
      failed_as env none (message "uploaded subscriptions cannot be refreshed") w
  refresh_if meanwhile item actor true w = fetched meanwhile item actor (fetch item w)

  abbrev pub refresh_item :
      (World → World) → Actor → Result Subscription × World → Answer (Option Version) × World
  refresh_item meanwhile actor (err e, w) = failed_as env none e w
  refresh_item meanwhile actor (ok item, w) =
      refresh_if meanwhile item actor (str_eq item.kind "url") w

  -- RefreshSubscription: `meanwhile` is what other calls do before it takes the locks.
  unfoldable pub refresh : (World → World) → ℕ → Actor → World → Answer (Option Version) × World
  refresh meanwhile id actor w = refresh_item meanwhile actor (subscription env id w)

  -- `now-item.LastCheckedAtMS >= int64(item.RefreshIntervalSeconds)*1000`, of an enabled download
  unfoldable pub is_due : ℕ → Subscription → Bool
  is_due at item =
      str_eq item.kind "url"
      && item.enabled
      && leb (item.last_checked_at_ms + item.refresh_interval_seconds * 1000) at

  -- The loop of RefreshDue.
  unfoldable pub refresh_each : (World → World) → ℕ → List Subscription → World → World
  refresh_each meanwhile at [] w = w
  refresh_each meanwhile at (item ∷ items) w = refresh_each meanwhile at items (
      if is_due at item
      then (refresh meanwhile item.id
          (record { admin_id = 0; request_id = "subscription_refresh"; ip = "" }) w).1
      else w)

  abbrev pub due_listed : (World → World) → Result (List Subscription × ℕ) × World → World
  due_listed meanwhile (err e, w) = w
  due_listed meanwhile (ok (items, at), w) = refresh_each meanwhile at items w

  -- What RefreshDue reads before its loop.
  unfoldable pub due_items : M (List Subscription × ℕ)
  due_items = do items ← subscriptions env "" ""; at ← now env; pure (items, at)

  -- RefreshDue
  unfoldable pub refresh_due : (World → World) → World → World
  refresh_due meanwhile w = due_listed meanwhile (due_items w)

  abbrev pub removed : Settled × World → Published × World
  removed (unlisted e, w) = (record { version = no_version; error = some e }, w)
  removed (refused v e, w) = (record { version = v; error = some e }, w)
  removed (adopted v, w) = (record { version = v; error = none }, w)

  -- DeleteSubscription, from the call of allRules on.
  unfoldable pub finish_delete : Actor → Result (M (Unit {0})) × World → Published × World
  finish_delete actor (err e, w) = (record { version = no_version; error = some e }, w)
  finish_delete actor (ok restore, w) = removed (settle env actor restore w)

  abbrev pub as_published : Answer Version × World → Published × World
  as_published (a, w) = (record { version = a.version; error = a.error }, w)

-- The calls of the administration on subscriptions, as the HTTP handlers pass them on.
pub data Order : Type 0 where
  subscribe_url : SubscriptionInput → Order
  subscribe_upload : SubscriptionInput → String → String → Order
  enable : ℕ → Bool → Order
  bind_group : ℕ → BindingInput → Order
  unsubscribe : ℕ → Order

-- The version and the error that a call returns.
unfoldable pub carry : Env → Feed → Order → Actor → World → Published × World
carry env feed (subscribe_url input) actor w = as_published env feed (
    carry_out env feed no_version (λ v. v) (as_refused env feed) actor
      (create_url env feed input w))
carry env feed (subscribe_upload input filename body) actor w = as_published env feed (
    carry_out env feed no_version (λ v. v) (as_refused env feed) actor
      (create_upload env feed input filename body w))
carry env feed (enable id enabled) actor w =
    as_published env feed
      (carry_out env feed no_version (λ v. v) (λ s. s) actor (set_enabled env feed id enabled w))
carry env feed (bind_group id input) actor w = as_published env feed (
    carry_out env feed no_version (λ v. v) (as_refused env feed) actor
      (set_binding env feed id input w))
carry env feed (unsubscribe id) actor w =
    finish_delete env feed actor (delete_subscription env feed id w)
