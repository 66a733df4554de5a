-- ===== src/Ingest/Service/Flow.antt =====
-- controller/internal/queryingest/service.go: the way of an event from Enqueue to the tables.
use mosdns_controller.Base.{
  append-nil, append_assoc, ◌+◌, ◌≤◌, ◌<◌, ◌≡◌, refl, ap, sym, subst, ◌∙◌, String, Bool, true, ◌||◌,
  List, [], ◌∷◌, ◌++◌, length, length-append, any, str_eq, eq_iff, ltb, All, arith, ◌⊎◌, inl, inr,
  Bool-cases,
}
use mosdns_controller.Go.Result.{Error, ok, err, Result-cases}
use mosdns_controller.Rules.Normalize.{Library}
use mosdns_controller.Ingest.Events.{Event, Batch, StoredEvent}
use mosdns_controller.Ingest.Validation.{validate_batch}
use mosdns_controller.Ingest.Persist.{Attempt, has_row, persist}
use mosdns_controller.Ingest.Persist.Rows.{IsStore, insert_events-IsInserted}
use mosdns_controller.Ingest.Service.{
  Service, queue_capacity, batch_size, overloaded, send_events, offer, answered, after_check,
  enqueue, is_empty, flush,
}

-- With enough room, the loop sends all the events.
send_events-fit :
    (es q : List Event)
    → length q + length es ≤ queue_capacity
    → send_events es q ≡ (q ++ es, ok tt)
unfolding send_events
send_events-fit [] q h = ap (λ x. (x, ok tt)) (sym (append-nil q))
send_events-fit (e ∷ es) q h =
    let one = length-append q (e ∷ []) in
    let rest = send_events-fit es (q ++ (e ∷ [])) (omega (arith, h, one)) in
    let room : ltb (length q) queue_capacity ≡ true = ground (arith, h) in
    rw room (rest ∙ ap (λ x. (x, ok tt)) (append_assoc q (e ∷ []) es))

offer-cases :
    (es q : List Event)
    → ((length q + length es ≤ queue_capacity) × (offer es q ≡ (q ++ es, ok tt)))
      ⊎ ((queue_capacity < length q + length es) × (offer es q ≡ (q, err overloaded)))
unfolding offer
offer-cases es q = elim (Bool-cases (ltb queue_capacity (length q + length es))) [
  | inl b ↦ inr (ground (arith, b), rw b refl)
  | inr b ↦
      let fits : length q + length es ≤ queue_capacity = ground (arith, b) in
      inl (fits, rw b (send_events-fit es q fits))
]

module _ (lib : Library) where
  pub enqueue_whole :
      (b : Batch) (s : Service)
      → ((x : Error) × (validate_batch lib b ≡ err x) × (enqueue lib b s ≡ (s, err x)))
        ⊎ ((queue_capacity < length s.queue + length b.events)
            × (enqueue lib b s ≡ (s, err overloaded)))
        ⊎ ((length s.queue + length b.events ≤ queue_capacity)
            × (enqueue lib b s ≡ (record s { queue = s.queue ++ b.events }, ok tt)))
  unfolding enqueue
  enqueue_whole b s = elim (Result-cases (validate_batch lib b)) [
    | inr (x, h) ↦ inl (x, h, ap (after_check s b) h)
    | inl (u, h) ↦ elim (offer-cases b.events s.queue) [
      | inl (room, k) ↦ inr (inr (room, ap (after_check s b) h ∙ ap (answered s) k))
      | inr (full, k) ↦ inr (inl (full, ap (after_check s b) h ∙ ap (answered s) k))
    ]
  ]

-- The queue and the writer's slice within their bounds, on tables that are in order.
pub record IsRunning (s : Service) : Type 0 where
  pub queue : length s.queue ≤ queue_capacity
  pub events : length s.events < batch_size
  pub store : IsStore s.store

abbrev pub has_event : String → List Event → Bool
has_event id es = any (λ e. str_eq e.event_id id) es

-- The event is stored, or on its way.
abbrev pub is_held : String → Service → Bool
is_held id s = has_row id s.store.rows || has_event id s.events || has_event id s.queue

has_event-row :
    (id : String) (es : List Event) (rows : List StoredEvent)
    → All (λ e. has_row e.event_id rows ≡ true) es
    → has_event id es ≡ true
    → has_row id rows ≡ true
has_event-row id [] rows h k = absurd (ground (arith, k))
has_event-row id (e ∷ es) rows h k = elim (Bool-cases (str_eq e.event_id id)) [
  | inl b ↦ subst (λ x. has_row x rows ≡ true) (ground (arith, b, eq_iff e.event_id id)) h.0
  | inr b ↦ has_event-row id es rows h.1 (ground (arith, b, k))
]

-- What flush does to the service.
pub record IsFlushed (a : Attempt) (s t : Service) : Type 0 where
  pub queue : t.queue ≡ s.queue
  pub events : t.events ≡ []
  pub store : IsStore t.store
  pub stored :
      a.works ≡ true
      → (id : String) → (has_row id s.store.rows || has_event id s.events) ≡ true
      → has_row id t.store.rows ≡ true

is_empty-eq : (es : List Event) → is_empty es ≡ true → es ≡ []
is_empty-eq [] h = refl
is_empty-eq (e ∷ es) h = absurd (ground (arith, h))

pub flush-IsFlushed : (a : Attempt) (s : Service) → IsStore s.store → IsFlushed a s (flush a s)
unfolding flush persist
flush-IsFlushed a s h = elim (Bool-cases (is_empty s.events)) [
  | inl b ↦
      let none_left = is_empty-eq s.events b in
      rw b (record {
        queue = refl;
        events = none_left;
        store = h;
        stored = λ w id k. ground (arith, k, ap (has_event id) none_left);
      })
  | inr b ↦ elim (Bool-cases a.works) [
    | inr w ↦
        rw (b, w)
          (record {
            queue = refl;
            events = refl;
            store = h;
            stored = λ v id k. absurd (ground (arith, w, v));
          })
    | inl w ↦
        let i = insert_events-IsInserted a s.events s.store h in
        rw (b, w)
          (record {
            queue = refl;
            events = refl;
            store = record { bounded = i.store.bounded; rows = i.store.rows };
            stored = λ v id k. elim (Bool-cases (has_row id s.store.rows)) [
              | inl c ↦ i.kept id c
              | inr c ↦ has_event-row id s.events _ i.all (ground (arith, k, c))
            ];
          })
  ]
]
