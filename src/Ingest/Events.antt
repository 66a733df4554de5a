-- ===== src/Ingest/Events.antt =====
-- controller/internal/queryingest/service.go: the events that mosdns sends, and what is stored of them.
use mosdns_controller.Base.{ℕ, String, Bool, not, ◌||◌, ◌&&◌, List, Option, str_eq, if◌then◌else◌}
use mosdns_controller.Go.Int.{ℤ, pos, eq}

-- The fields that Event and StoredEvent share.
pub record Details : Type 0 where
  pub event_id : String
  pub timestamp_ms : ℤ
  pub client_ip : String
  pub protocol : String
  pub qname : String
  pub qtype : ℕ
  pub qclass : ℕ
  pub rcode : ℤ
  pub route : String
  pub route_source : String
  pub upstream_group : String
  pub upstream_tag : String
  pub cache_hit : Bool
  pub snapshot : ℕ
  pub access_rule_id : ℤ
  pub route_rule_id : ℤ
  pub answer_rule_id : ℤ
  pub subscription_source_id : ℤ
  pub subscription_binding_id : ℤ
  pub subscription_source_name : String
  pub subscription_categories : List String
  pub answer_count : ℤ
  pub answer_min_ttl_seconds : Option ℤ
  pub latency_us : ℤ
  pub error_code : String
  pub error_text : String

pub record Event : Type 0 where
  pub schema_version : ℤ
  pub process_started_at_ms : ℤ
  pub answer_ips : List String
  pub answer_records : List String
  pub details : Details
  pub open details use *

pub record Batch : Type 0 where
  pub schema_version : ℤ
  pub sender_id : String
  pub sent_at_ms : ℤ
  pub events : List Event

pub record StoredEvent : Type 0 where
  pub id : ℕ
  pub details : Details
  pub open details use *
  pub result_class : String
  pub device_name : String

pub record Query : Type 0 where
  pub limit : ℤ
  pub from_ms : ℤ
  pub to_ms : ℤ
  pub qtype : ℤ
  pub rcode : Option ℤ
  pub cache_hit : Option Bool
  pub has_error : Option Bool
  pub cursor : String
  pub client_ip : String
  pub route : String
  pub qname : String
  pub qname_match : String
  pub route_source : String
  pub upstream_group : String
  pub upstream_tag : String
  pub protocol : String
  pub result_class : String

-- resultClass
unfoldable pub result_class_of : Event → String
result_class_of e =
    if str_eq e.route "block"
    then "policy_block"
    else if not (str_eq e.error_code "")
        || not (str_eq e.error_text "")
        || not (eq e.rcode (pos 0)) && not (eq e.rcode (pos 3))
    then "processing_error"
    else if eq e.rcode (pos 3) || eq e.answer_count (pos 0)
    then "negative_answer"
    else "success"

-- fromEvent
unfoldable pub from_event : Event → StoredEvent
from_event e = record {
  id = 0;
  details = e.details;
  result_class = result_class_of e;
  device_name = "";
}
