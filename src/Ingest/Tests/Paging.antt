-- ===== src/Ingest/Tests/Paging.antt =====
-- The log, read in pages of one row.
use mosdns_controller.Base.{
  str_eq, ℕ, zero, suc, ◌≤◌, ◌<◌, ◌≡◌, refl, ap, String, false, List, [], ◌∷◌, length, map, keep,
  some, arith,
}
use mosdns_controller.Go.Int.{pos, negsuc}
use mosdns_controller.Go.Result.{ok}
use mosdns_controller.Go.Text.{contains_char}
use mosdns_controller.Ingest.Events.{StoredEvent, Query}
use mosdns_controller.Ingest.Filter.{
  Condition, all_hold, check_query, conditions, qname_condition, query_conditions,
}
use mosdns_controller.Ingest.Persist.{Store, with_name}
use mosdns_controller.Ingest.Persist.Rows.{Rows}
use mosdns_controller.Ingest.Pages.{Codec, ordered, walk}
use mosdns_controller.Ingest.Pages.Cursor.{IsCodec, IsKey}
use mosdns_controller.Ingest.Pages.Walk.{walk-queries}
use mosdns_controller.Ingest.Tests.{test_library, details, query, no_rows}

-- Numbers in strokes.
abbrev strokes : ℕ → String
strokes zero = ""
strokes (suc n) = String.◌∷◌ "1" (strokes n)

abbrev size : String → ℕ
size String.[] = 0
size (String.◌∷◌ c s) = suc (size s)

abbrev stroke_codec : Codec
stroke_codec = record {
  encode = λ s. s;
  decode = some;
  format_int = λ a. elim a [ pos n ↦ strokes n | negsuc n ↦ "-" ];
  parse_int = λ s. some (pos (size s));
}

size-strokes : (n : ℕ) → size (strokes n) ≡ n
size-strokes zero = refl
size-strokes (suc n) = ap suc (size-strokes n)

no_colon : (n : ℕ) → contains_char (strokes n) b':' ≡ false
unfolding contains_char
no_colon zero = refl
no_colon (suc n) = no_colon n

stroke_codec-IsCodec : IsCodec stroke_codec
stroke_codec-IsCodec = record {
  decode-encode = λ s. refl;
  nonempty = λ s n. n;
  parse-format = λ n h. ap (λ x. some (pos x)) (size-strokes n);
  no_colon = no_colon;
}

abbrev first_row : StoredEvent
first_row = record {
  id = 1;
  details = record details { timestamp_ms = pos 3 };
  result_class = "success";
  device_name = "";
}

abbrev second_row : StoredEvent
second_row = record {
  id = 2;
  details = record details { event_id = "e2"; timestamp_ms = pos 3 };
  result_class = "success";
  device_name = "";
}

abbrev two_rows : Store
two_rows = record no_rows { rows = second_row ∷ first_row ∷ []; last_id = 2 }

abbrev one_a_page : Query
one_a_page = record query {
  limit = pos 1;
  from_ms = pos 1;
  to_ms = pos 5;
  qname = "example.org";
  qname_match = "";
}

abbrev found : List Condition
found =
    Condition.from_time (pos 1)
    ∷ Condition.to_time (pos 5)
    ∷ Condition.route_is "forward"
    ∷ Condition.is_no_error
    ∷ Condition.qname_is "example.org"
    ∷ []

valid_query : query_conditions test_library one_a_page ≡ ok found
unfolding query_conditions check_query conditions qname_condition
valid_query = refl

two_rows-Rows : Rows two_rows.rows
two_rows-Rows = (((omega arith, λ e. ground (arith, ap (λ s. str_eq s "e1") e)), tt), (tt, tt))

three-IsKey : (id : ℕ) → 1 ≤ id → id < 3 → IsKey (record { timestamp_ms = pos 3; id = id })
three-IsKey id h k = record {
  time = 3;
  timestamp = refl;
  time_fits = omega arith;
  id = h;
  id_fits = omega (arith, k);
}

walk-queries_example :
    walk stroke_codec test_library two_rows (suc (length two_rows.rows)) one_a_page
    ≡ map (with_name two_rows.counts.devices) (keep (λ e. all_hold e found) (ordered two_rows.rows))
walk-queries_example =
    walk-queries stroke_codec stroke_codec-IsCodec test_library two_rows two_rows-Rows
      (three-IsKey 2 (omega arith) (omega arith), (three-IsKey 1 (omega arith) (omega arith), tt))
      one_a_page found valid_query refl
