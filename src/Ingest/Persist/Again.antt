-- ===== src/Ingest/Persist/Again.antt =====
-- controller/internal/queryingest/service.go: a batch that is delivered again.
use mosdns_controller.Base.{◌≡◌, refl, ◌∙◌, true, List, [], ◌∷◌, All, some}
use mosdns_controller.Go.Result.{ok}
use mosdns_controller.Ingest.Events.{Event}
use mosdns_controller.Ingest.Stats.{aggregate_all}
use mosdns_controller.Ingest.Persist.{
  Store, Attempt, Inserts, has_row, insert_events, committed, persist,
}
use mosdns_controller.Ingest.Persist.Rows.{IsStore, insert_events-IsInserted, insert_events-seen}

-- Events that have their rows change nothing.
insert_events-present :
    (b : Attempt) (es : List Event) (st : Store)
    → All (λ e. has_row e.event_id st.rows ≡ true) es
    → insert_events b es st ≡ record { store = st; inserted = []; stored = [] }
unfolding insert_events
insert_events-present b [] st h = refl
insert_events-present b (e ∷ es) st h =
    insert_events-seen b e es st h.0 ∙ insert_events-present b es st h.1

-- A batch that is sent again after its transaction has committed stores no event, and leaves the
-- rows and the statistics as they are: an event is never counted twice.
pub persist_again :
    (a b : Attempt) (es : List Event) (st : Store)
    → IsStore st
    → a.works ≡ true
    → b.works ≡ true
    → (r : Inserts) × (persist a es st ≡ ok r)
      × (persist b es r.store
          ≡ ok (record {
            store = record (r.store) { last_successful_ingest_at = some b.now };
            inserted = [];
            stored = [];
          }))
unfolding persist aggregate_all
persist_again a b es st h v w =
    let r = committed a (insert_events a es st) in
    let i = insert_events-IsInserted a es st h in
    (r, rw v refl, rw (w, insert_events-present b es r.store i.all) refl)
