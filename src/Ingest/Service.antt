-- ===== src/Ingest/Service.antt =====
-- controller/internal/queryingest/service.go: the service. HTTP handlers call Enqueue and Subscribe,
-- the writer goroutine takes events off the queue, and each call that holds a lock is one step.
pub mod Flow
pub mod Runs
pub mod Streams
use mosdns_controller.Base.{
  ℕ, suc, ◌+◌, ◌*◌, ◌^◌, String, Bool, true, false, not, ◌||◌, List, [], ◌∷◌, ◌++◌, length, keep,
  Option, none, some, ◌==◌, str_eq, ltb, if◌then◌else◌,
}
use mosdns_controller.Go.Int.{ℤ, pos, lt}
use mosdns_controller.Go.Result.{Error, Result, ok, err, message}
use mosdns_controller.Rules.Normalize.{Library}
use mosdns_controller.Ingest.Events.{Event, Batch, StoredEvent, Query}
use mosdns_controller.Ingest.Validation.{validate_batch}
use mosdns_controller.Ingest.Filter.{Condition, query_conditions, query_matches}
use mosdns_controller.Ingest.Persist.{Store, Attempt, Inserts, persist}
use mosdns_controller.Ingest.Diagnostics.{Cache, cache_answer_diagnostics}

abbrev pub queue_capacity : ℕ
queue_capacity = 8192

abbrev pub batch_size : ℕ
batch_size = 500

-- The buffer of a subscriber's channel.
abbrev pub channel_capacity : ℕ
channel_capacity = 256

pub record Subscription : Type 0 where
  pub id : ℕ
  pub query : Query
  pub channel : List StoredEvent

-- The channel `queue`, oldest first, the writer's slice `events`, and the map of subscribers.
pub record Service : Type 0 where
  pub queue : List Event
  pub events : List Event
  pub next_subscriber : ℕ
  pub subscribers : List Subscription
  pub diagnostics : Cache
  pub store : Store
  pub retention_days : ℕ
  pub database_max_bytes : ℕ

-- ErrOverloaded
abbrev pub overloaded : Error
overloaded = message "ingestion queue is full"

-- The loop of Enqueue.
unfoldable pub send_events : List Event → List Event → List Event × Result (Unit {0})
send_events [] q = (q, ok tt)
send_events (e ∷ es) q =
    let rest = send_events es (q ++ (e ∷ [])) in
    if ltb (length q) queue_capacity then rest else (q, err overloaded)

-- What Enqueue does with a valid batch.
unfoldable pub offer : List Event → List Event → List Event × Result (Unit {0})
unfolding send_events
offer es q =
    if ltb queue_capacity (length q + length es) then (q, err overloaded) else send_events es q

abbrev pub answered : Service → List Event × Result (Unit {0}) → Service × Result (Unit {0})
answered s r = (record s { queue = r.0 }, r.1)

abbrev pub after_check : Service → Batch → Result (Unit {0}) → Service × Result (Unit {0})
after_check s b (err x) = (s, err x)
after_check s b (ok u) = answered s (offer b.events s.queue)

-- Enqueue
unfoldable pub enqueue : Library → Batch → Service → Service × Result (Unit {0})
unfolding offer
enqueue lib b s = after_check s b (validate_batch lib b)

-- An event is offered to a subscriber: the channel takes it, or the subscriber is dropped.
unfoldable pub deliver_to : StoredEvent → Subscription → List Subscription
deliver_to e sub =
    if not (query_matches e sub.query)
    then sub ∷ []
    else if ltb (length sub.channel) channel_capacity
    then record sub { channel = sub.channel ++ (e ∷ []) } ∷ []
    else []

-- The first k elements, which a reader takes, and the others.
abbrev pub skip {ℓ} : {A : Type ℓ} → ℕ → List A → List A
skip k [] = []
skip Prim.Native.Nat.zero (x ∷ xs) = x ∷ xs
skip (suc k) (x ∷ xs) = skip k xs

-- A reader takes events off its channel, for which it needs no lock: `taken` says how many.
abbrev pub read_by : (ℕ → ℕ) → Subscription → Subscription
read_by taken sub = record sub { channel = skip (taken sub.id) sub.channel }

-- The inner loop of publish.
unfoldable pub deliver : (ℕ → ℕ) → StoredEvent → List Subscription → List Subscription
unfolding deliver_to
deliver taken e [] = []
deliver taken e (sub ∷ subs) = deliver_to e (read_by taken sub) ++ deliver taken e subs

-- publish: before it offers its n-th event to a subscriber, the reader has taken `taken n` events.
unfoldable pub publish : (ℕ → ℕ → ℕ) → List StoredEvent → List Subscription → List Subscription
unfolding deliver
publish taken [] subs = subs
publish taken (e ∷ es) subs = publish (λ n. taken (suc n)) es (deliver (taken 0) e subs)

-- What flush does with the answer of persist.
abbrev pub after_persist : Attempt → Service → Result Inserts → Service
after_persist a s (err x) = record s { events = [] }
after_persist a s (ok r) = record s {
  events = [];
  store = r.store;
  diagnostics = cache_answer_diagnostics r.inserted s.diagnostics;
  subscribers = publish a.taken r.stored s.subscribers;
}

abbrev pub is_empty : List Event → Bool
is_empty [] = true
is_empty (e ∷ es) = false

-- flush
unfoldable pub flush : Attempt → Service → Service
flush a s = if is_empty s.events then s else after_persist a s (persist a s.events s.store)

-- case e := <-s.queue, on what the queue holds.
unfoldable pub receive_from : Attempt → Service → List Event → Service
unfolding flush
receive_from a s [] = s
receive_from a s (e ∷ q) =
    let t = record s { queue = q; events = s.events ++ (e ∷ []) } in
    if length t.events == batch_size then flush a t else t

abbrev pub receive : Attempt → Service → Service
receive a s = receive_from a s s.queue

-- case <-s.done: the loop takes all the events, and flushes once.
unfoldable pub drain : Attempt → Service → Service
unfolding flush
drain a s = flush a (record s { queue = []; events = s.events ++ s.queue })

abbrev pub admitted : Service → Query → Result (List Condition) → Service × Result ℕ
admitted s q (err x) = (s, err x)
admitted s q (ok cs) = (
  record s {
    next_subscriber = suc s.next_subscriber;
    subscribers = record { id = s.next_subscriber; query = q; channel = [] } ∷ s.subscribers;
  },
  ok s.next_subscriber,
)

-- Subscribe
unfoldable pub subscribe : Library → Query → Service → Service × Result ℕ
subscribe lib q s = admitted s q (query_conditions lib q)

-- The function that Subscriber.Close calls.
unfoldable pub unsubscribe : ℕ → Service → Service
unsubscribe id s = record s { subscribers = keep (λ sub. not (sub.id == id)) s.subscribers }

-- A reader takes the oldest event off its channel.
abbrev take_first : ℕ → Subscription → Subscription
take_first id sub = elim sub.channel [
  | [] ↦ sub
  | e ∷ es ↦ if sub.id == id then record sub { channel = es } else sub
]

unfoldable pub read_channel : ℕ → List Subscription → List Subscription
read_channel id [] = []
read_channel id (sub ∷ subs) = take_first id sub ∷ read_channel id subs

-- Close, after the writer has ended.
unfoldable pub close : Attempt → Service → Service
unfolding drain
close a s = record (drain a s) { subscribers = [] }

-- SetRetentionDays
unfoldable pub set_retention_days : ℤ → Service → Service × Result (Unit {0})
set_retention_days days s = elim days [
  | pos n ↦
      if ltb n 1 || ltb 365 n
      then (s, err (message "query retention days must be within 1..365"))
      else (record s { retention_days = n }, ok tt)
  | ℤ.negsuc n ↦ (s, err (message "query retention days must be within 1..365"))
]

-- SetDatabaseMaxGiB
unfoldable pub set_database_max_gib : ℤ → Service → Service × Result (Unit {0})
set_database_max_gib gib s = elim gib [
  | pos n ↦
      if ltb n 1 || ltb 128 n
      then (s, err (message "database max size must be within 1..128 GiB"))
      else (record s { database_max_bytes = n * 2 ^ 30 }, ok tt)
  | ℤ.negsuc n ↦ (s, err (message "database max size must be within 1..128 GiB"))
]

-- New, on the tables of a database.
abbrev pub fresh : Store → Service
fresh st = record {
  queue = [];
  events = [];
  next_subscriber = 0;
  subscribers = [];
  diagnostics = record { entries = []; order = [] };
  store = st;
  retention_days = 7;
  database_max_bytes = 2 * 2 ^ 30;
}
