-- ===== src/Ingest/Validation.antt =====
-- controller/internal/queryingest/service.go: validateBatch and validateEvent.
pub mod Sound
use mosdns_controller.Base.{
  ℕ, zero, ◌+◌, ◌-◌, ◌^◌, String, len, Bool, true, false, not, ◌||◌, ◌&&◌, List, [], ◌∷◌, length,
  Option, none, some, ◌==◌, str_eq, ltb, if◌then◌else◌, any,
}
use mosdns_controller.Go.Int.{ℤ, pos, lt, eq}
use mosdns_controller.Go.Text.{to_lower, trim_suffix}
use mosdns_controller.Go.Result.{Result, ok, err, message, ◌>>=◌, ◌>>◌, reject_if}
use mosdns_controller.Rules.Normalize.{Library}
use mosdns_controller.Ingest.Events.{Event, Batch}

abbrev pub max_batch_events : ℕ
max_batch_events = 500

-- schema version 2 or 3
abbrev pub bad_schema : ℤ → Bool
bad_schema v = not (eq v (pos 2)) && not (eq v (pos 3))

abbrev pub bad_ttl : Option ℤ → Bool
bad_ttl none = false
bad_ttl (some t) = lt t (pos 0) || lt (pos 4294967295) t

-- The checks of the first line.
unfoldable pub bad_identity : Event → Bool
bad_identity e =
    bad_schema e.schema_version
    || len e.event_id == 0
    || ltb 128 (len e.event_id)
    || not (lt (pos 0) e.timestamp_ms)

unfoldable pub bad_envelope : Batch → Bool
bad_envelope b =
    bad_schema b.schema_version
    || len b.sender_id == 0
    || ltb 128 (len b.sender_id)
    || not (lt (pos 0) b.sent_at_ms)
    || length b.events == 0
    || ltb max_batch_events (length b.events)

-- The fields with a limit of their own.
unfoldable pub exceeds_limit : Event → Bool
exceeds_limit e =
    ltb 128 (len e.upstream_group)
    || ltb 128 (len e.upstream_tag)
    || ltb 128 (len e.error_code)
    || ltb 4096 (len e.error_text)

unfoldable pub bad_route : Event → Bool
bad_route e =
    not (str_eq e.protocol "udp") && not (str_eq e.protocol "tcp")
    || not (str_eq e.route "forward")
      && not (str_eq e.route "block")
      && not (str_eq e.route "local")
    || not (str_eq e.route_source "default")
      && not (str_eq e.route_source "dynamic_rule")
      && not (str_eq e.route_source "subscription")

unfoldable pub bad_values : Event → Bool
bad_values e =
    e.qtype == 0
    || e.qclass == 0
    || lt e.rcode (pos 0)
    || lt (pos 23) e.rcode
    || lt e.latency_us (pos 0)
    || lt e.answer_count (pos 0)
    || lt e.subscription_binding_id (pos 0)
    || bad_ttl e.answer_min_ttl_seconds
    || ltb 9223372036854775807 e.snapshot

-- The loop over the answer records: `used` counts the bytes of the records before.
unfoldable pub check_records : ℕ → List String → Result (Unit {0})
check_records used [] = ok tt
check_records used (r ∷ rs) =
    let total = used + len r in
    let rest = check_records total rs in
    if len r == 0 || ltb 1024 (len r)
    then err (message "invalid answer record")
    else if ltb 16384 total
    then err (message "answer records exceed size limit")
    else rest

module _ (lib : Library) where
  abbrev pub is_address : String → Bool
  is_address s = elim (lib.parse_addr s) [ ok a ↦ true | err e ↦ false ]

  unfoldable pub bad_fields : Event → Bool
  bad_fields e =
      not (is_address e.client_ip)
      || len e.qname == 0
      || ltb 253 (len e.qname)
      || not (str_eq (to_lower lib.rune_lower (trim_suffix e.qname ".")) e.qname)

  unfoldable pub validate_event : Event → Result (Unit {0})
  validate_event e = do
    reject_if (bad_identity e) "invalid event"
    reject_if (bad_fields e) "invalid event fields"
    reject_if (bad_values e) "invalid event values"
    reject_if (bad_route e) "invalid event route"
    reject_if (exceeds_limit e) "event field exceeds limit"
    reject_if (ltb 16 (length e.answer_ips)) "too many answer IPs"
    reject_if (any (λ ip. not (is_address ip)) e.answer_ips) "invalid answer IP"
    reject_if (ltb 32 (length e.answer_records)) "too many answer records"
    check_records 0 e.answer_records

  unfoldable pub validate_events : List Event → Result (Unit {0})
  validate_events [] = ok tt
  validate_events (e ∷ es) = validate_event e >> validate_events es

  unfoldable pub validate_batch : Batch → Result (Unit {0})
  validate_batch b = do reject_if (bad_envelope b) "invalid event batch"; validate_events b.events
