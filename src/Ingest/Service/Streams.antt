-- ===== src/Ingest/Service/Streams.antt =====
-- controller/internal/queryingest/service.go: what the readers of the live stream get.
use mosdns_controller.Base.{◌+◌, ◌≤◌, ◌<◌, ◌≡◌, List, [], ◌∷◌, ◌++◌, length, keep, ◌⊎◌}
use mosdns_controller.Ingest.Events.{StoredEvent}
use mosdns_controller.Ingest.Filter.{query_matches}
use mosdns_controller.Ingest.Service.{Subscription, channel_capacity}

-- The events that a subscriber asked for.
abbrev pub wanted : List StoredEvent → Subscription → List StoredEvent
wanted es sub = keep (λ e. query_matches e sub.query) es

-- A channel never holds more than it can.
abbrev pub Fits : Subscription → Type 0
Fits sub = length sub.channel ≤ channel_capacity

-- The subscriber is there, and its reader has taken some of what it held and of the events that it
-- asked for, in order; its channel holds the others.
pub record Served (es : List StoredEvent) (sub r : Subscription) : Type 0 where
  pub id : r.id ≡ sub.id
  pub query : r.query ≡ sub.query
  pub read : List StoredEvent
  pub all : read ++ r.channel ≡ sub.channel ++ wanted es sub
  pub fits : Fits r

-- The channel cannot hold what it held and the events that were asked for.
abbrev pub Overfull : List StoredEvent → Subscription → Type 0
Overfull es sub = channel_capacity < length sub.channel + length (wanted es sub)

-- Each subscriber is served, or dropped, and that only if its channel cannot hold everything.
abbrev pub ServedAll : List StoredEvent → List Subscription → List Subscription → Type 0
ServedAll es [] out = out ≡ []
ServedAll es (sub ∷ subs) out =
    (rest : List Subscription) × (((out ≡ rest) × Overfull es sub)
      ⊎ ((r : Subscription) × (out ≡ r ∷ rest) × Served es sub r))
    × ServedAll es subs rest

-- One subscriber: it is dropped, or served.
abbrev Ended : List StoredEvent → Subscription → List Subscription → Type 0
Ended es sub out =
    ((out ≡ []) × Overfull es sub) ⊎ ((r : Subscription) × (out ≡ r ∷ []) × Served es sub r)
