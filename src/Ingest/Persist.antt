-- ===== src/Ingest/Persist.antt =====
-- controller/internal/queryingest/service.go: persist, one transaction for each batch of the writer.
pub mod Rows
pub mod Again
use mosdns_controller.Base.{
  ℕ, suc, ◌+◌, String, Bool, true, false, not, List, [], ◌∷◌, map, any, Option, none, some, str_eq,
  if◌then◌else◌,
}
use mosdns_controller.Go.Int.{ℤ}
use mosdns_controller.Go.Result.{Result, ok, err, database}
use mosdns_controller.Ingest.Events.{Event, StoredEvent, Details, from_event}
use mosdns_controller.Ingest.Stats.{Counts, Device, aggregate_all}

-- The tables. The rows of dns_queries stand newest first; an event passed validateEvent, so that
-- the constraint that makes INSERT OR IGNORE skip it is the one on event_id.
pub record Store : Type 0 where
  pub rows : List StoredEvent
  pub last_id : ℕ
  pub counts : Counts
  pub last_successful_ingest_at : Option ℤ

-- What a flush meets: whether every statement of its transaction and the commit succeed, the clock, how
-- many identifiers SQLite passes over after one, as AUTOINCREMENT may, and how many events the reader of
-- a subscriber takes off its channel before the n-th event is offered.
pub record Attempt : Type 0 where
  pub works : Bool
  pub now : ℤ
  pub gap : ℕ → ℕ
  pub taken : ℕ → ℕ → ℕ

pub record Inserts : Type 0 where
  pub store : Store
  pub inserted : List Event
  pub stored : List StoredEvent

unfoldable pub has_row : String → List StoredEvent → Bool
has_row id rows = any (λ r. str_eq r.event_id id) rows

abbrev pub next_id : Attempt → Store → ℕ
next_id a st = suc (st.last_id + a.gap st.last_id)

-- The row of an event: fromEvent, with the identifier that the database gave it.
abbrev pub item_of : Attempt → Event → Store → StoredEvent
item_of a e st = record (from_event e) { id = next_id a st }

abbrev pub add_row : Attempt → Event → Store → Store
add_row a e st = record st { rows = item_of a e st ∷ st.rows; last_id = next_id a st }

-- INSERT OR IGNORE
unfoldable pub insert_row : Attempt → Event → Store → Store
unfolding has_row
insert_row a e st = if has_row e.event_id st.rows then st else add_row a e st

abbrev pub note_row : Attempt → Event → Store → Inserts → Inserts
note_row a e st r = record r { inserted = e ∷ r.inserted; stored = item_of a e st ∷ r.stored }

-- The first loop of persist.
unfoldable pub insert_events : Attempt → List Event → Store → Inserts
unfolding has_row insert_row
insert_events a [] st = record { store = st; inserted = []; stored = [] }
insert_events a (e ∷ es) st =
    let rest = insert_events a es (insert_row a e st) in
    if has_row e.event_id st.rows then rest else note_row a e st rest

-- COALESCE(NULLIF(display_name,''),hostname,'')
abbrev or_empty : Option String → String
or_empty none = ""
or_empty (some s) = s

abbrev pub shown_name : Device → String
shown_name d = elim d.display_name [
  | none ↦ or_empty d.hostname
  | some s ↦ if str_eq s "" then or_empty d.hostname else s
]

abbrev pub device_name_of : String → List (String × Device) → String
device_name_of ip [] = ""
device_name_of ip (d ∷ ds) = if str_eq d.0 ip then shown_name d.1 else device_name_of ip ds

abbrev pub with_name : List (String × Device) → StoredEvent → StoredEvent
with_name ds e = record e { device_name = device_name_of e.client_ip ds }

-- What the transaction leaves in the tables.
abbrev pub committed : Attempt → Inserts → Inserts
committed a r =
    let counts = aggregate_all a.now r.inserted r.store.counts in
    record {
      store = record (r.store) { counts = counts; last_successful_ingest_at = some a.now };
      inserted = r.inserted;
      stored = map (with_name counts.devices) r.stored;
    }

-- persist, but for the cache of diagnostics.
unfoldable pub persist : Attempt → List Event → Store → Result Inserts
unfolding insert_events
persist a es st = if a.works then ok (committed a (insert_events a es st)) else err database
