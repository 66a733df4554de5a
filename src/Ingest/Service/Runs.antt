-- ===== src/Ingest/Service/Runs.antt =====
-- controller/internal/queryingest/service.go: runs of the service, as sequences of its calls.
use mosdns_controller.Base.{
  any-append, ℕ, ◌≤◌, ◌≡◌, refl, ap, sym, subst, String, true, false, ◌||◌, List, [], ◌∷◌, ◌++◌,
  length, length-append, ◌==◌, str_eq, eq_iff, All, arith, inl, inr, Bool-cases,
}
use mosdns_controller.Go.Result.{Result, ok, err}
use mosdns_controller.Rules.Normalize.{Library}
use mosdns_controller.Ingest.Events.{Event, Batch, Query, StoredEvent}
use mosdns_controller.Ingest.Persist.{Attempt, has_row}
use mosdns_controller.Ingest.Persist.Rows.{IsStore}
use mosdns_controller.Ingest.Filter.{Condition, query_conditions}
use mosdns_controller.Ingest.Service.{
  Service, queue_capacity, batch_size, enqueue, flush, receive_from, receive, drain, admitted,
  subscribe, unsubscribe, read_channel,
}
use mosdns_controller.Ingest.Service.Flow.{
  IsRunning, has_event, is_held, enqueue_whole, flush-IsFlushed,
}

-- A call that holds a lock, or one turn of the writer's loop; `ends` is its last one.
pub data Step : Type 0 where
  offers : Batch → Step
  receives ticks ends : Attempt → Step
  subscribes : Query → Step
  unsubscribes reads : ℕ → Step

unfoldable pub step : Library → Step → Service → Service
unfolding enqueue flush receive_from drain subscribe unsubscribe read_channel
step lib (offers b) s = (enqueue lib b s).0
step lib (receives a) s = receive a s
step lib (ticks a) s = flush a s
step lib (ends a) s = drain a s
step lib (subscribes q) s = (subscribe lib q s).0
step lib (unsubscribes id) s = unsubscribe id s
step lib (reads id) s = record s { subscribers = read_channel id s.subscribers }

unfoldable pub run : Library → List Step → Service → Service
unfolding step
run lib [] s = s
run lib (c ∷ cs) s = run lib cs (step lib c s)

-- The transactions of the step commit.
abbrev pub Works : Step → Type 0
Works (receives a) = a.works ≡ true
Works (ticks a) = a.works ≡ true
Works (ends a) = a.works ≡ true
Works (offers b) = Unit {0}
Works (subscribes q) = Unit {0}
Works (unsubscribes id) = Unit {0}
Works (reads id) = Unit {0}

-- The service is in order again, and has lost no event if its transactions commit.
record Keeps (works : Type 0) (s t : Service) : Type 0 where
  running : IsRunning t
  held : works → (id : String) → is_held id s ≡ true → is_held id t ≡ true

has_event-nil : (id : String) (es : List Event) → es ≡ [] → has_event id es ≡ false
has_event-nil id es h = ap (has_event id) h

-- A flush of a slice `es` that the service took from its queue, which is now `q`.
flush-Keeps :
    (a : Attempt) (s : Service) (es q : List Event)
    → IsRunning s
    → length q ≤ queue_capacity
    → ((id : String)
        → (has_event id s.events || has_event id s.queue) ≡ (has_event id es || has_event id q))
    → Keeps (a.works ≡ true) s (flush a (record s { events = es; queue = q }))
flush-Keeps a s es q h room same =
    let t = record s { events = es; queue = q } in
    let f = flush-IsFlushed a t h.store in
    record {
      running = record {
        queue = omega (arith, ap length f.queue, room);
        events = omega (arith, ap length f.events);
        store = f.store;
      };
      held = λ w id k. ground (
        arith,
        k,
        same id,
        f.stored w id,
        ap (has_event id) f.queue,
        has_event-nil id _ f.events,
      );
    }

idle : (a : Type 0) (s : Service) → IsRunning s → Keeps a s s
idle a s h = record { running = h; held = λ w id k. k }

receive_from-Keeps :
    (a : Attempt) (s : Service) (q : List Event)
    → IsRunning s
    → s.queue ≡ q
    → Keeps (a.works ≡ true) s (receive_from a s q)
unfolding receive_from
receive_from-Keeps a s [] h e = idle _ s h
receive_from-Keeps a s (x ∷ q) h e =
    let es = s.events ++ (x ∷ []) in
    let size = length-append s.events (x ∷ []) in
    let room : length q ≤ queue_capacity = omega (arith, h.queue, ap length e) in
    let same : (id : String)
        → (has_event id s.events || has_event id s.queue) ≡ (has_event id es || has_event id q) =
      λ id.
        ground
          (arith, any-append (λ e. str_eq e.event_id id) s.events (x ∷ []), ap (has_event id) e) in
    elim (Bool-cases (length es == batch_size)) [
      | inl b ↦ rw b (flush-Keeps a s es q h room same)
      | inr b ↦ rw b (record {
        running = record {
          queue = room;
          events = ground (arith, b, size, h.events);
          store = h.store;
        };
        held = λ w id k. ground (arith, k, same id);
      })
    ]

drain-Keeps : (a : Attempt) (s : Service) → IsRunning s → Keeps (a.works ≡ true) s (drain a s)
unfolding drain
drain-Keeps a s h =
    flush-Keeps a s (s.events ++ s.queue) [] h (omega arith)
      (λ id. ground (arith, any-append (λ e. str_eq e.event_id id) s.events s.queue))

-- What a step of another kind leaves as it was.
same-Keeps :
    (works : Type 0) (s t : Service)
    → IsRunning s
    → t.queue ≡ s.queue
    → t.events ≡ s.events
    → t.store ≡ s.store
    → Keeps works s t
same-Keeps works s t h q e r = record {
  running = record {
    queue = omega (arith, h.queue, ap length q);
    events = omega (arith, h.events, ap length e);
    store = subst IsStore (sym r) h.store;
  };
  held = λ w id k.
      ground (arith, k, ap (has_event id) q, ap (has_event id) e, ap (λ x. has_row id x.rows) r);
}

module _ (lib : Library) where
  enqueue-Keeps :
      (works : Type 0) (b : Batch) (s : Service) → IsRunning s → Keeps works s (enqueue lib b s).0
  enqueue-Keeps works b s h = elim (enqueue_whole lib b s) [
    | inl (x, v, e) ↦ subst (Keeps works s) (sym (ap (λ r. r.0) e)) (idle works s h)
    | inr (inl (full, e)) ↦ subst (Keeps works s) (sym (ap (λ r. r.0) e)) (idle works s h)
    | inr (inr (room, e)) ↦ subst (Keeps works s) (sym (ap (λ r. r.0) e)) (record {
      running = record {
        queue = omega (arith, room, length-append s.queue b.events);
        events = h.events;
        store = h.store;
      };
      held = λ w id k. ground (arith, k, any-append (λ e. str_eq e.event_id id) s.queue b.events);
    })
  ]

  subscribe-Keeps :
      (works : Type 0) (q : Query) (s : Service) → IsRunning s → Keeps works s (subscribe lib q s).0
  unfolding subscribe
  subscribe-Keeps works q s h = go (query_conditions lib q)
    where
      go : (r : Result (List Condition)) → Keeps works s (admitted s q r).0
      go (ok cs) = same-Keeps works s _ h refl refl refl
      go (err x) = idle works s h

  step-Keeps : (c : Step) (s : Service) → IsRunning s → Keeps (Works c) s (step lib c s)
  unfolding step unsubscribe
  step-Keeps (offers b) s h = enqueue-Keeps _ b s h
  step-Keeps (receives a) s h = receive_from-Keeps a s s.queue h refl
  step-Keeps (ticks a) s h = flush-Keeps a s s.events s.queue h h.queue (λ id. refl)
  step-Keeps (ends a) s h = drain-Keeps a s h
  step-Keeps (subscribes q) s h = subscribe-Keeps _ q s h
  step-Keeps (unsubscribes id) s h = same-Keeps _ s _ h refl refl refl
  step-Keeps (reads id) s h = same-Keeps _ s _ h refl refl refl

  -- In a service that starts on tables in order, whatever the calls and whatever transactions fail,
  -- the queue holds at most 8192 events, the writer's slice fewer than 500 between its turns, and
  -- the rows have falling identifiers and no event twice.
  pub run-IsRunning : (cs : List Step) (s : Service) → IsRunning s → IsRunning (run lib cs s)
  unfolding run
  run-IsRunning [] s h = h
  run-IsRunning (c ∷ cs) s h = run-IsRunning cs (step lib c s) (step-Keeps c s h).running

  run_held :
      (cs : List Step) (s : Service) (id : String)
      → IsRunning s
      → All Works cs
      → is_held id s ≡ true
      → is_held id (run lib cs s) ≡ true
  unfolding run
  run_held [] s id h w k = k
  run_held (c ∷ cs) s id h w k =
      let one = step-Keeps c s h in
      run_held cs (step lib c s) id one.running w.1 (one.held w.0 id k)

  -- No event stays on its way when the writer has ended.
  drain_stored :
      (a : Attempt) (s : Service) (id : String)
      → IsRunning s
      → a.works ≡ true
      → is_held id s ≡ true
      → has_row id (drain a s).store.rows ≡ true
  unfolding drain
  drain_stored a s id h w k =
      let t = record s { queue = []; events = s.events ++ s.queue } in
      (flush-IsFlushed a t h.store).stored w id
        (ground (arith, k, any-append (λ e. str_eq e.event_id id) s.events s.queue))

  sent-All :
      (es fs : List Event) (rows : List StoredEvent)
      → ((id : String) → has_event id (fs ++ es) ≡ true → has_row id rows ≡ true)
      → All (λ e. has_row e.event_id rows ≡ true) es
  sent-All [] fs rows h = tt
  sent-All (e ∷ es) fs rows h =
      let here = any-append (λ f. str_eq f.event_id e.event_id) fs (e ∷ es) in
      (
        h e.event_id (ground (arith, here, eq_iff e.event_id e.event_id)),
        sent-All es (fs ++ (e ∷ [])) rows (λ id k. h id (
            ground (
              arith,
              k,
              any-append (λ f. str_eq f.event_id id) fs (e ∷ es),
              any-append (λ f. str_eq f.event_id id) (fs ++ (e ∷ [])) es,
              any-append (λ f. str_eq f.event_id id) fs (e ∷ []),
            ))),
      )

  -- Every event of a batch that Enqueue accepted has its row when the writer has ended, if every
  -- transaction since then has committed, whatever else the service was called for.
  pub accepted_stored :
      (b : Batch) (s : Service) (cs : List Step) (a : Attempt)
      → IsRunning s
      → (enqueue lib b s).1 ≡ ok tt
      → All Works cs
      → a.works ≡ true
      → All
          (λ e. has_row e.event_id (drain a (run lib cs (enqueue lib b s).0)).store.rows ≡ true)
          b.events
  accepted_stored b s cs a h answer works w = sent-All b.events [] _ (λ id k.
      drain_stored a _ id (run-IsRunning cs _ (enqueue-Keeps Unit b s h).running) w
        (run_held cs _ id (enqueue-Keeps Unit b s h).running works (taken id k)))
    where
      taken : (id : String) → has_event id b.events ≡ true → is_held id (enqueue lib b s).0 ≡ true
      taken id k = elim (enqueue_whole lib b s) [
        | inl (x, v, e) ↦ absurd (ground (arith, answer, ap (λ r. r.1) e))
        | inr (inl (full, e)) ↦ absurd (ground (arith, answer, ap (λ r. r.1) e))
        | inr (inr (room, e)) ↦
            subst (λ t. is_held id t ≡ true) (sym (ap (λ r. r.0) e))
              (ground (arith, k, any-append (λ e. str_eq e.event_id id) s.queue b.events))
      ]
