-- ===== src/Ingest/Diagnostics.antt =====
-- controller/internal/queryingest/service.go: the answers of the last events, which are kept in memory
-- only (cacheAnswerDiagnostics, AnswerDiagnostics). The Go map is a list of keys and values.
pub mod Bounded
use mosdns_controller.Base.{
  ℕ, ◌+◌, String, Bool, true, false, not, List, [], ◌∷◌, ◌++◌, length, map, keep, any, Option, none,
  some, str_eq, ltb, if◌then◌else◌,
}
use mosdns_controller.Ingest.Events.{Event, Details}

abbrev pub max_answer_diagnostics : ℕ
max_answer_diagnostics = 1024

pub record AnswerDiagnostics : Type 0 where
  pub answer_ips : List String
  pub answer_records : List String

abbrev pub Entry : Type 0
Entry = String × AnswerDiagnostics

-- answerDiagnostics and answerDiagnosticsOrder, oldest first.
pub record Cache : Type 0 where
  pub entries : List Entry
  pub order : List String

unfoldable pub has_entry : String → List Entry → Bool
has_entry id es = any (λ e. str_eq e.0 id) es

-- delete(s.answerDiagnostics, id)
unfoldable pub delete_entry : String → List Entry → List Entry
delete_entry id es = keep (λ e. not (str_eq e.0 id)) es

abbrev pub entry_of : Event → Entry
entry_of e = (e.event_id, record { answer_ips = e.answer_ips; answer_records = e.answer_records })

-- The map and the order without the oldest event.
unfoldable pub drop_oldest : List Entry → List String → Cache
unfolding delete_entry
drop_oldest es [] = record { entries = es; order = [] }
drop_oldest es (oldest ∷ rest) = record { entries = delete_entry oldest es; order = rest }

unfoldable pub append_entry : Event → Cache → Cache
unfolding drop_oldest
append_entry e c =
    let entries = c.entries ++ (entry_of e ∷ []) in
    let order = c.order ++ (e.event_id ∷ []) in
    if ltb max_answer_diagnostics (length order)
    then drop_oldest entries order
    else record { entries = entries; order = order }

-- One event of cacheAnswerDiagnostics.
unfoldable pub cache_event : Event → Cache → Cache
unfolding has_entry append_entry
cache_event e c = if has_entry e.event_id c.entries then c else append_entry e c

-- cacheAnswerDiagnostics
unfoldable pub cache_answer_diagnostics : List Event → Cache → Cache
unfolding cache_event
cache_answer_diagnostics [] c = c
cache_answer_diagnostics (e ∷ es) c = cache_answer_diagnostics es (cache_event e c)

abbrev no_answers : AnswerDiagnostics
no_answers = record { answer_ips = []; answer_records = [] }

-- AnswerDiagnostics
unfoldable pub answer_diagnostics : String → List Entry → AnswerDiagnostics × Bool
answer_diagnostics id [] = (no_answers, false)
answer_diagnostics id (e ∷ es) = if str_eq e.0 id then (e.1, true) else answer_diagnostics id es
