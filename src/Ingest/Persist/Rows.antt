-- ===== src/Ingest/Persist/Rows.antt =====
-- controller/internal/queryingest/service.go: the rows that persist leaves, and their statistics.
use mosdns_controller.Base.{
  length-map, map, suc, ◌+◌, ◌≤◌, ◌<◌, ◌≡◌, ◌≢◌, refl, ap, subst, sym, ◌∙◌, String, true, false,
  List, [], ◌∷◌, length, any, str_eq, eq_iff, if◌then◌else◌, All, arith, inl, inr, Bool-cases,
}
use mosdns_controller.Go.Result.{ok}
use mosdns_controller.Ingest.Events.{Event, StoredEvent, from_event}
use mosdns_controller.Ingest.Stats.{aggregate_all}
use mosdns_controller.Ingest.Stats.Totals.{Counted, aggregate_all-Counted}
use mosdns_controller.Ingest.Persist.{
  Store, Attempt, Inserts, has_row, next_id, add_row, insert_row, note_row, insert_events,
  with_name, committed, persist,
}

-- Newest first: identifiers fall, and no event is there twice.
abbrev pub Rows : List StoredEvent → Type 0
Rows [] = Unit {0}
Rows (r ∷ rs) = All (λ s. (s.id < r.id) × (r.event_id ≢ s.event_id)) rs × Rows rs

pub record IsStore (st : Store) : Type 0 where
  pub bounded : All (λ r. r.id ≤ st.last_id) st.rows
  pub rows : Rows st.rows

apart :
    (a : Attempt) (e : Event) (st : Store) (rs : List StoredEvent)
    → any (λ r. str_eq r.event_id e.event_id) rs ≡ false
    → All (λ r. r.id ≤ st.last_id) rs
    → All (λ s. (s.id < next_id a st) × (e.event_id ≢ s.event_id)) rs
apart a e st [] n h = tt
apart a e st (r ∷ rs) n h = (
  (omega (arith, h.0), ground (arith, n, eq_iff r.event_id e.event_id)),
  apart a e st rs (ground (arith, n)) h.1,
)

below :
    (a : Attempt) (st : Store) (rs : List StoredEvent)
    → All (λ r. r.id ≤ st.last_id) rs
    → All (λ r. r.id ≤ next_id a st) rs
below a st [] h = tt
below a st (r ∷ rs) h = (omega (arith, h.0), below a st rs h.1)

insert_row-IsStore :
    (a : Attempt) (e : Event) (st : Store) → IsStore st → IsStore (insert_row a e st)
unfolding insert_row has_row from_event
insert_row-IsStore a e st h = elim (Bool-cases (has_row e.event_id st.rows)) [
  | inl b ↦ rw b h
  | inr b ↦ rw b (record {
    bounded = (omega arith, below a st st.rows h.bounded);
    rows = (apart a e st st.rows b h.bounded, h.rows);
  })
]

-- A branch of the loop, in the two forms of what it returns.
pub insert_events-seen :
    (a : Attempt) (e : Event) (es : List Event) (st : Store)
    → has_row e.event_id st.rows ≡ true
    → insert_events a (e ∷ es) st ≡ insert_events a es st
unfolding insert_events insert_row has_row
insert_events-seen a e es st b = rw b refl

insert_events-new :
    (a : Attempt) (e : Event) (es : List Event) (st : Store)
    → has_row e.event_id st.rows ≡ false
    → insert_events a (e ∷ es) st ≡ note_row a e st (insert_events a es (add_row a e st))
unfolding insert_events insert_row has_row
insert_events-new a e es st b = rw b refl

-- What the first loop of persist has done: the tables keep their form and their statistics, each
-- new row is counted, and each event has its row.
pub record IsInserted (es : List Event) (st : Store) (r : Inserts) : Type 0 where
  pub store : IsStore r.store
  pub rows : length r.store.rows ≡ length r.inserted + length st.rows
  pub stored : length r.stored ≡ length r.inserted
  pub counts : r.store.counts ≡ st.counts
  pub all : All (λ e. has_row e.event_id r.store.rows ≡ true) es
  pub kept : (id : String) → has_row id st.rows ≡ true → has_row id r.store.rows ≡ true

own_row : (a : Attempt) (e : Event) (st : Store) → has_row e.event_id (add_row a e st).rows ≡ true
unfolding has_row from_event
own_row a e st = ground (arith, eq_iff e.event_id e.event_id)

other_row :
    (a : Attempt) (e : Event) (st : Store) (id : String)
    → has_row id st.rows ≡ true
    → has_row id (add_row a e st).rows ≡ true
unfolding has_row from_event
other_row a e st id h = ground (arith, h)

pub insert_events-IsInserted :
    (a : Attempt) (es : List Event) (st : Store)
    → IsStore st
    → IsInserted es st (insert_events a es st)
unfolding insert_events
insert_events-IsInserted a [] st h = record {
  store = h;
  rows = omega arith;
  stored = refl;
  counts = refl;
  all = tt;
  kept = λ id k. k;
}
insert_events-IsInserted a (e ∷ es) st h = elim (Bool-cases (has_row e.event_id st.rows)) [
  | inl b ↦
      let r = insert_events-IsInserted a es st h in
      rw (insert_events-seen a e es st b) (record {
        store = r.store;
        rows = r.rows;
        stored = r.stored;
        counts = r.counts;
        all = (r.kept e.event_id b, r.all);
        kept = r.kept;
      })
  | inr b ↦
      let valid : IsStore (add_row a e st) =
        rw (sym (ap (λ c. if c then st else add_row a e st) b)) (insert_row-IsStore a e st h) in
      let r = insert_events-IsInserted a es (add_row a e st) valid in
      rw (insert_events-new a e es st b) (record {
        store = r.store;
        rows = omega (arith, r.rows);
        stored = ap suc r.stored;
        counts = r.counts;
        all = (r.kept e.event_id (own_row a e st), r.all);
        kept = λ id k. r.kept id (other_row a e st id k);
      })
]

-- The events whose identifier is not among those before, each the first of its identifier.
abbrev pub unseen : List String → List Event → List Event
unseen ids [] = []
unseen ids (e ∷ es) =
    if any (λ id. str_eq id e.event_id) ids then unseen ids es else e ∷ unseen (e.event_id ∷ ids) es

has_row-ids :
    (id : String) (rs : List StoredEvent)
    → any (λ k. str_eq k id) (map (λ r. r.event_id) rs) ≡ has_row id rs
unfolding has_row
has_row-ids id [] = refl
has_row-ids id (r ∷ rs) = ground (arith, has_row-ids id rs)

insert_events-unseen :
    (a : Attempt) (es : List Event) (st : Store)
    → (insert_events a es st).inserted ≡ unseen (map (λ r. r.event_id) st.rows) es
unfolding insert_events from_event
insert_events-unseen a [] st = refl
insert_events-unseen a (e ∷ es) st = elim (Bool-cases (has_row e.event_id st.rows)) [
  | inl b ↦
      rw (insert_events-seen a e es st b, has_row-ids e.event_id st.rows, b)
        (insert_events-unseen a es st)
  | inr b ↦
      rw (insert_events-new a e es st b, has_row-ids e.event_id st.rows, b)
        (ap (λ xs. e ∷ xs) (insert_events-unseen a es (add_row a e st)))
]

pub record IsPersisted (es : List Event) (st : Store) (r : Inserts) : Type 0 where
  pub store : IsStore r.store
  pub rows : length r.store.rows ≡ length r.stored + length st.rows
  pub all : All (λ e. has_row e.event_id r.store.rows ≡ true) es
  pub kept : (id : String) → has_row id st.rows ≡ true → has_row id r.store.rows ≡ true
  pub new : r.inserted ≡ unseen (map (λ r. r.event_id) st.rows) es
  pub counts : Counted r.inserted st.counts r.store.counts
  pub stored : length r.stored ≡ length r.inserted

-- On tables whose rows have falling identifiers, a transaction that commits leaves such tables: each
-- event of the batch has exactly one row, no row is lost, and the events that were new, those whose
-- identifier no row and no event before has, in their order, are counted. Every table of the
-- statistics counts exactly these more, each in the row of its hour and key: their number, and where it
-- keeps them their errors, cache hits and classes; that of the upstream groups counts those that have
-- one.
pub persist-IsPersisted :
    (a : Attempt) (es : List Event) (st : Store)
    → IsStore st
    → a.works ≡ true
    → (r : Inserts) × (persist a es st ≡ ok r) × IsPersisted es st r
unfolding persist
persist-IsPersisted a es st h w =
    let r = insert_events a es st in
    let i = insert_events-IsInserted a es st h in
    let same =
      length-map (with_name (aggregate_all a.now r.inserted r.store.counts).devices) r.stored in
    (
      committed a r,
      rw w refl,
      record {
        store = record { bounded = i.store.bounded; rows = i.store.rows };
        rows = omega (arith, i.rows, i.stored, same);
        all = i.all;
        kept = i.kept;
        new = insert_events-unseen a es st;
        counts =
            subst (λ c. Counted r.inserted c (aggregate_all a.now r.inserted r.store.counts))
              i.counts (aggregate_all-Counted a.now r.inserted r.store.counts);
        stored = same ∙ i.stored;
      },
    )
