-- ===== src/Ingest/Tests/Storing.antt =====
-- Batches that are accepted and stored.
use mosdns_controller.Base.{
  ℕ, len, ◌≤◌, ◌≡◌, refl, true, List, [], ◌∷◌, length, some, All, arith, ◌⊎◌,
}
use mosdns_controller.Go.Int.{pos}
use mosdns_controller.Go.Result.{ok}
use mosdns_controller.Go.Text.{to_lower, trim_suffix}
use mosdns_controller.Ingest.Validation.{
  bad_identity, bad_envelope, bad_fields, bad_values, bad_route, exceeds_limit, check_records,
  validate_event, validate_events, validate_batch, max_batch_events,
}
use mosdns_controller.Ingest.Validation.Sound.{validate_batch_sound, IsAccepted}
use mosdns_controller.Ingest.Stats.{first_bound, upper_bound}
use mosdns_controller.Ingest.Persist.{Inserts, has_row, persist}
use mosdns_controller.Ingest.Persist.Rows.{IsStore, IsPersisted, persist-IsPersisted}
use mosdns_controller.Ingest.Persist.Again.{persist_again}
use mosdns_controller.Ingest.Service.{send_events, offer, enqueue, drain}
use mosdns_controller.Ingest.Service.Flow.{IsRunning}
use mosdns_controller.Ingest.Service.Runs.{
  Step, receives, ticks, reads, run, run-IsRunning, accepted_stored,
}
use mosdns_controller.Ingest.Tests.{test_library, event, batch, no_rows, commits, service}

accepted_batch : validate_batch test_library batch ≡ ok tt
unfolding validate_batch validate_events validate_event bad_envelope bad_identity bad_fields
    bad_values bad_route exceeds_limit check_records to_lower trim_suffix
accepted_batch = refl

queued_batch : (enqueue test_library batch service).1 ≡ ok tt
unfolding enqueue offer send_events validate_batch validate_events validate_event bad_envelope
    bad_identity bad_fields bad_values bad_route exceeds_limit check_records to_lower trim_suffix
queued_batch = refl

latency_of_four : upper_bound event.latency_us ≡ 5000
unfolding upper_bound first_bound
latency_of_four = refl

empty-IsStore : IsStore no_rows
empty-IsStore = record { bounded = tt; rows = tt }

service-IsRunning : IsRunning service
service-IsRunning = record { queue = omega arith; events = omega arith; store = empty-IsStore }

validate_batch_sound_example :
    ((batch.schema_version ≡ pos 2) ⊎ (batch.schema_version ≡ pos 3))
    × ((1 ≤ len batch.sender_id) × (len batch.sender_id ≤ 128))
    × ((n : ℕ) × (batch.sent_at_ms ≡ pos n) × (1 ≤ n))
    × (1 ≤ length batch.events)
    × (length batch.events ≤ max_batch_events)
    × All (IsAccepted test_library) batch.events
validate_batch_sound_example = validate_batch_sound test_library batch accepted_batch

persist-IsPersisted_example :
    (r : Inserts) × (persist commits batch.events no_rows ≡ ok r)
    × IsPersisted batch.events no_rows r
persist-IsPersisted_example = persist-IsPersisted commits batch.events no_rows empty-IsStore refl

persist_again_example :
    (r : Inserts) × (persist commits batch.events no_rows ≡ ok r)
    × (persist commits batch.events r.store
        ≡ ok (record {
          store = record (r.store) { last_successful_ingest_at = some commits.now };
          inserted = [];
          stored = [];
        }))
persist_again_example = persist_again commits commits batch.events no_rows empty-IsStore refl refl

abbrev later_steps : List Step
later_steps = receives commits ∷ ticks commits ∷ reads 0 ∷ receives commits ∷ []

run-IsRunning_example : IsRunning (run test_library later_steps service)
run-IsRunning_example = run-IsRunning test_library later_steps service service-IsRunning

accepted_stored_example :
    All
      (λ e.
        has_row e.event_id
          (drain commits
            (run test_library later_steps (enqueue test_library batch service).0)).store.rows
        ≡ true)
      batch.events
accepted_stored_example =
    accepted_stored test_library batch service later_steps commits service-IsRunning queued_batch
      (refl, (refl, (tt, (refl, tt)))) refl
