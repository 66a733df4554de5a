-- ===== src/Ingest/Tests.antt =====
-- Runs of the query ingest on small data.
mod Storing
mod Serving
mod Paging
use mosdns_controller.Base.{ℕ, String, true, false, List, [], ◌∷◌, none, some}
use mosdns_controller.Go.Int.{pos}
use mosdns_controller.Go.Result.{ok}
use mosdns_controller.Rules.Normalize.{Library}
use mosdns_controller.Ingest.Events.{Details, Event, Batch, StoredEvent, Query}
use mosdns_controller.Ingest.Stats.{Counts}
use mosdns_controller.Ingest.Persist.{Store, Attempt}
use mosdns_controller.Ingest.Service.{Service, fresh}

abbrev pub test_library : Library
test_library = record {
  rune_lower = λ c. c;
  to_ascii = ok;
  parse_addr = λ s. ok (record { is4 = true; text = s });
  compile = λ s. ok tt;
}

abbrev pub details : Details
details = record {
  event_id = "e1";
  timestamp_ms = pos 7200001;
  client_ip = "192.0.2.1";
  protocol = "udp";
  qname = "example.org";
  qtype = 1;
  qclass = 1;
  rcode = pos 0;
  route = "forward";
  route_source = "default";
  upstream_group = "main";
  upstream_tag = "";
  cache_hit = true;
  snapshot = 3;
  access_rule_id = pos 0;
  route_rule_id = pos 0;
  answer_rule_id = pos 0;
  subscription_source_id = pos 0;
  subscription_binding_id = pos 0;
  subscription_source_name = "";
  subscription_categories = [];
  answer_count = pos 1;
  answer_min_ttl_seconds = some (pos 60);
  latency_us = pos 4000;
  error_code = "";
  error_text = "";
}

abbrev pub event : Event
event = record {
  schema_version = pos 3;
  process_started_at_ms = pos 1;
  answer_ips = "192.0.2.7" ∷ [];
  answer_records = "example.org. 60 IN A 192.0.2.7" ∷ [];
  details = details;
}

abbrev pub other_event : Event
other_event = record event {
  details = record details { event_id = "e2"; rcode = pos 3; cache_hit = false };
}

abbrev pub batch : Batch
batch = record {
  schema_version = pos 3;
  sender_id = "mosdns";
  sent_at_ms = pos 7200002;
  events = event ∷ other_event ∷ [];
}

abbrev pub no_counts : Counts
no_counts = record {
  devices = [];
  global = [];
  domain = [];
  client = [];
  client_domain = [];
  upstream_group = [];
  latency_bucket = [];
}

abbrev pub no_rows : Store
no_rows = record { rows = []; last_id = 0; counts = no_counts; last_successful_ingest_at = none }

abbrev pub commits : Attempt
commits = record { works = true; now = pos 7300000; gap = λ n. 0; taken = λ n id. 0 }

abbrev pub service : Service
service = fresh no_rows

abbrev pub query : Query
query = record {
  limit = pos 0;
  from_ms = pos 7000000;
  to_ms = pos 8000000;
  qtype = pos 0;
  rcode = none;
  cache_hit = none;
  has_error = some false;
  cursor = "";
  client_ip = "";
  route = "forward";
  qname = "ample";
  qname_match = "contains";
  route_source = "";
  upstream_group = "";
  upstream_tag = "";
  protocol = "";
  result_class = "";
}
