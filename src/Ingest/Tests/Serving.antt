-- ===== src/Ingest/Tests/Serving.antt =====
-- Queries, the live stream and the diagnostics.
use Prim.Native.String.{◌++◌ as append}
use mosdns_controller.Base.{◌≡◌, refl, true, false, [], ◌++◌, arith, inr}
use mosdns_controller.Go.Text.{contains}
use mosdns_controller.Ingest.Events.{StoredEvent, from_event, result_class_of}
use mosdns_controller.Ingest.Filter.{conditions, all_hold, query_matches}
use mosdns_controller.Ingest.Filter.Like.{
  tokens, escape_like, like, like_tokens, literal, within_pattern, tokens-escape_like,
}
use mosdns_controller.Ingest.Filter.Agrees.{conditions-query_matches}
use mosdns_controller.Ingest.Diagnostics.{cache_answer_diagnostics}
use mosdns_controller.Ingest.Diagnostics.Bounded.{
  push_all, cache_of, IsQueue, cache_answer_diagnostics-push_all,
}
use mosdns_controller.Ingest.Service.{Subscription}
use mosdns_controller.Ingest.Tests.{details, event, query, batch}

abbrev stored : StoredEvent
stored = record { id = 1; details = details; result_class = "success"; device_name = "" }

stored_event : from_event event ≡ record stored { id = 0 }
unfolding from_event result_class_of
stored_event = refl

abbrev reader : Subscription
reader = record { id = 0; query = query; channel = [] }

-- The database disregards the case of a letter that the live stream minds.
upper_like : like "example.org" (within_pattern "EXAMPLE") ≡ true
unfolding like within_pattern tokens escape_like like_tokens
upper_like = refl

upper_contains : contains "example.org" "EXAMPLE" ≡ false
unfolding contains
upper_contains = refl

conditions-query_matches_example : all_hold stored (conditions query) ≡ query_matches stored query
conditions-query_matches_example = conditions-query_matches stored query (inr (refl, refl))

cache_answer_diagnostics-push_all_example :
    (cache_answer_diagnostics batch.events (cache_of []) ≡ cache_of (push_all batch.events []))
    × IsQueue (push_all batch.events [])
cache_answer_diagnostics-push_all_example =
    cache_answer_diagnostics-push_all batch.events [] (record { size = omega arith; distinct = tt })

tokens-escape_like_example :
    tokens false (append (escape_like "50%_\\") "%") ≡ literal "50%_\\" ++ tokens false "%"
tokens-escape_like_example = tokens-escape_like "50%_\\" "%"
