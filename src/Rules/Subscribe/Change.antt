-- ===== src/Rules/Subscribe/Change.antt =====
-- controller/internal/rules/subscriptions.go: each change of the sources, up to the call of allRules.
use mosdns_controller.Base.{
  ℕ, suc, ◌+◌, String, len, Bool, List, length, Option, none, some, if◌then◌else◌, ltb,
}
use mosdns_controller.Go.Int.{ℤ, pos, negsuc, eq}
use mosdns_controller.Go.Text.{trim_space, to_lower, take_text, has_suffix}
use mosdns_controller.Go.Result.{
  Error, Result, ok, err, message, database, no_rows, version_conflict, reject_if, or_fail,
}
use mosdns_controller.Go.Result
use mosdns_controller.Rules.Store.{Binding, Subscription, SourceRow, Sources, Env, M}
use mosdns_controller.Rules.Catalog.{insert_source, insert_binding}
use mosdns_controller.Rules.Subscriptions.{SubscriptionInput, Feed, Download}

-- What a change has done by the call of allRules: nothing, as the source is as it should be; nothing,
-- as the source has changed meanwhile; a note that its content is the same; or its statement, with
-- the statement that takes it back.
pub data Change : Type 0 where
  same : Subscription → Change
  stale : Subscription → Change
  touched : ℕ → Option Error → Change
  written : ℕ → M (Unit {0}) → Change

-- A column that a CHECK bounds from below by 0.
abbrev pub natural : ℤ → Result ℕ
natural (pos n) = ok n
natural (negsuc n) = err database

-- `if now <= item.UpdatedAtMS { now = item.UpdatedAtMS + 1 }`
abbrev pub later_than : ℕ → ℕ → ℕ
later_than updated at = if ltb updated at then at else suc updated

-- The row of a new source, under its identifier.
unfoldable pub new_source :
    SubscriptionInput → String → String → List String → ℕ → ℕ → ℕ → SourceRow
new_source input kind digest patterns at interval id = record {
  subscription = record {
    id = id;
    category = input.category;
    action = input.action;
    kind = kind;
    name = trim_space input.name;
    source_url = input.source_url;
    refresh_interval_seconds = interval;
    enabled = input.enabled;
    rule_count = length patterns;
    last_checked_at_ms = at;
    last_success_at_ms = at;
    last_error = "";
    created_at_ms = at;
    updated_at_ms = at;
    binding = none;
  };
  content_checksum = digest;
  domains = some patterns;
}

-- INSERT INTO rule_subscriptions, under the next identifier.
unfoldable pub insert_new :
    SubscriptionInput → String → String → List String → ℕ → Sources → Result Sources
insert_new input kind digest patterns at s =
    Result.◌>>=◌ (natural input.refresh_interval_seconds) (λ interval.
      insert_source (new_source input kind digest patterns at interval (s.sequence + 1)) s)

-- INSERT INTO subscription_bindings, under the next identifier.
unfoldable pub bind_new : String → ℤ → ℕ → ℕ → Sources → Result Sources
bind_new group priority at id s = Result.◌>>=◌ (natural priority) (λ p.
    insert_binding id
      (record {
        id = s.binding_sequence + 1;
        upstream_group_id = trim_space group;
        priority = p;
        created_at_ms = at;
        updated_at_ms = at;
      })
      s)

-- strings.HasSuffix(strings.ToLower(strings.TrimSpace(filename)), ".txt")
abbrev pub is_txt : Env → String → Bool
is_txt env filename = has_suffix (to_lower env.library.rune_lower (trim_space filename)) ".txt"

-- The default of the refresh interval.
abbrev pub with_interval : SubscriptionInput → SubscriptionInput
with_interval input =
    if eq input.refresh_interval_seconds (pos 0)
    then record input { refresh_interval_seconds = pos 86400 }
    else input

-- The columns that a refresh sets.
unfoldable pub refreshed_source : Download → String → List String → ℕ → SourceRow → SourceRow
refreshed_source d digest patterns at r = record {
  subscription = record (r.subscription) {
    source_url = d.url;
    rule_count = length patterns;
    last_checked_at_ms = at;
    last_success_at_ms = at;
    last_error = "";
    updated_at_ms = at;
  };
  content_checksum = digest;
  domains = some patterns;
}

-- The columns that a refresh sets back.
unfoldable pub unrefreshed_source :
    Subscription → String → Option (List String) → SourceRow → SourceRow
unrefreshed_source item digest domains r = record {
  subscription = record (r.subscription) {
    source_url = item.source_url;
    rule_count = item.rule_count;
    last_checked_at_ms = item.last_checked_at_ms;
    last_success_at_ms = item.last_success_at_ms;
    last_error = item.last_error;
    updated_at_ms = item.updated_at_ms;
  };
  content_checksum = digest;
  domains = domains;
}

abbrev pub checked_source : String → ℕ → SourceRow → SourceRow
checked_source url at r = record r {
  subscription = record (r.subscription) {
    source_url = url;
    last_checked_at_ms = at;
    last_error = "";
    updated_at_ms = at;
  };
}

abbrev pub failed_source : String → ℕ → SourceRow → SourceRow
failed_source text at r = record r {
  subscription = record (r.subscription) {
    last_checked_at_ms = at;
    last_error = text;
    updated_at_ms = at;
  };
}

abbrev pub enabled_source : Bool → ℕ → SourceRow → SourceRow
enabled_source enabled at r = record r {
  subscription = record (r.subscription) { enabled = enabled; updated_at_ms = at };
}

abbrev pub rebind : String → ℕ → ℕ → Option Binding → Option Binding
rebind group priority at none = none
rebind group priority at (some b) =
    some (record b { upstream_group_id = group; priority = priority; updated_at_ms = at })

abbrev pub rebound_source : String → ℕ → ℕ → SourceRow → SourceRow
rebound_source group priority at r = record r {
  subscription = record (r.subscription) {
    binding = rebind group priority at r.subscription.binding;
  };
}

-- truncateError, for a text in ASCII.
unfoldable pub truncate_error : Feed → Error → String
truncate_error feed e =
    let value = feed.error_text e in if ltb 500 (len value) then take_text 500 value else value
