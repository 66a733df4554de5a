-- ===== src/Ingest/Stats.antt =====
-- controller/internal/queryingest/service.go: aggregate, the statistics by hour that each stored event
-- adds to. A table is a list of keys and values, without two rows of one key.
pub mod Totals
use mosdns_controller.Base.{
  ℕ, zero, suc, ◌+◌, ◌-◌, ◌*◌, ◌/◌, String, Bool, true, false, not, ◌&&◌, List, [], ◌∷◌, Option,
  none, some, ◌==◌, str_eq, if◌then◌else◌,
}
use mosdns_controller.Go.Int.{ℤ, pos, negsuc, lt, eq, minus, add, larger}
use mosdns_controller.Ingest.Events.{Event, result_class_of}

-- A row of devices. The names are NULL until they are set.
pub record Device : Type 0 where
  pub hostname : Option String
  pub display_name : Option String
  pub first_seen_at_ms : ℤ
  pub last_seen_at_ms : ℤ
  pub updated_at_ms : ℤ

-- The columns that dns_stats_hourly_domain and dns_stats_hourly_client keep for their keys.
pub record Tally : Type 0 where
  pub query_count : ℕ
  pub error_count : ℕ
  pub cache_hit_count : ℕ
  pub latency_sum_us : ℤ

-- dns_stats_hourly_upstream_group
pub record GroupTally : Type 0 where
  pub tally : Tally
  pub latency_max_us : ℤ

-- dns_stats_hourly_global
pub record GlobalTally : Type 0 where
  pub tally : Tally
  pub latency_max_us : ℤ
  pub success_count : ℕ
  pub negative_answer_count : ℕ
  pub policy_block_count : ℕ
  pub processing_error_count : ℕ

pub record GlobalKey : Type 0 where
  pub hour_start_ms : ℤ
  pub route : String
  pub qtype : ℕ
  pub rcode : ℤ

-- An hour and one or two texts.
pub record TextKey : Type 0 where
  pub hour_start_ms : ℤ
  pub name : String
  pub other : String

pub record PairKey : Type 0 where
  pub hour_start_ms : ℤ
  pub client_ip : String
  pub qname : String
  pub route : String

pub record BucketKey : Type 0 where
  pub hour_start_ms : ℤ
  pub upper_bound_us : ℕ

abbrev pub same_global : GlobalKey → GlobalKey → Bool
same_global a b =
    eq a.hour_start_ms b.hour_start_ms
    && str_eq a.route b.route
    && a.qtype == b.qtype
    && eq a.rcode b.rcode

abbrev pub same_text : TextKey → TextKey → Bool
same_text a b = eq a.hour_start_ms b.hour_start_ms && str_eq a.name b.name && str_eq a.other b.other

abbrev pub same_pair : PairKey → PairKey → Bool
same_pair a b =
    eq a.hour_start_ms b.hour_start_ms
    && str_eq a.client_ip b.client_ip
    && str_eq a.qname b.qname
    && str_eq a.route b.route

abbrev pub same_bucket : BucketKey → BucketKey → Bool
same_bucket a b = eq a.hour_start_ms b.hour_start_ms && a.upper_bound_us == b.upper_bound_us

pub record Counts : Type 0 where
  pub devices : List (String × Device)
  pub global : List (GlobalKey × GlobalTally)
  pub domain : List (TextKey × Tally)
  pub client : List (TextKey × Tally)
  pub client_domain : List (PairKey × ℕ)
  pub upstream_group : List (TextKey × GroupTally)
  pub latency_bucket : List (BucketKey × ℕ)

-- INSERT ... ON CONFLICT(key) DO UPDATE: `merge` takes the row that is there and the excluded one.
unfoldable pub upsert {ℓ κ} :
    {K : Type ℓ} {V : Type κ} → (K → K → Bool) → (V → V → V) → K → V → List (K × V) → List (K × V)
upsert same merge k v [] = (k, v) ∷ []
upsert same merge k v (row ∷ rows) =
    let rest = upsert same merge k v rows in
    if same row.0 k then (row.0, merge row.1 v) ∷ rows else row ∷ rest

-- query_count=query_count+1, and the sums of the others.
abbrev pub merge_tally : Tally → Tally → Tally
merge_tally old new = record {
  query_count = old.query_count + 1;
  error_count = old.error_count + new.error_count;
  cache_hit_count = old.cache_hit_count + new.cache_hit_count;
  latency_sum_us = add old.latency_sum_us new.latency_sum_us;
}

abbrev pub merge_group : GroupTally → GroupTally → GroupTally
merge_group old new = record {
  tally = merge_tally old.tally new.tally;
  latency_max_us = larger old.latency_max_us new.latency_max_us;
}

abbrev pub merge_global : GlobalTally → GlobalTally → GlobalTally
merge_global old new = record {
  tally = merge_tally old.tally new.tally;
  latency_max_us = larger old.latency_max_us new.latency_max_us;
  success_count = old.success_count + new.success_count;
  negative_answer_count = old.negative_answer_count + new.negative_answer_count;
  policy_block_count = old.policy_block_count + new.policy_block_count;
  processing_error_count = old.processing_error_count + new.processing_error_count;
}

abbrev pub add_one : ℕ → ℕ → ℕ
add_one old new = old + 1

abbrev pub merge_device : Device → Device → Device
merge_device old new = record old {
  last_seen_at_ms = larger old.last_seen_at_ms new.last_seen_at_ms;
  updated_at_ms = new.updated_at_ms;
}

-- e.TimestampMS / 3_600_000 * 3_600_000, where Go's division truncates.
unfoldable pub hour_of : ℤ → ℤ
hour_of (pos t) = pos (t / 3600000 * 3600000)
hour_of (negsuc t) = minus (suc t / 3600000 * 3600000)

-- boolInt
abbrev pub bool_int : Bool → ℕ
bool_int true = 1
bool_int false = 0

abbrev pub latency_bucket_bounds_us : List ℕ
latency_bucket_bounds_us =
    1000 ∷ 5000 ∷ 10000 ∷ 25000 ∷ 50000 ∷ 100000 ∷ 250000 ∷ 500000 ∷ 1000000 ∷ 5000000 ∷ 10000000
    ∷ []

-- The first bound that the latency does not exceed, or else `last`.
unfoldable pub first_bound : ℤ → ℕ → List ℕ → ℕ
first_bound latency last [] = last
first_bound latency last (b ∷ bs) =
    let rest = first_bound latency last bs in if not (lt (pos b) latency) then b else rest

unfoldable pub upper_bound : ℤ → ℕ
unfolding first_bound
upper_bound latency = first_bound latency 10000000 latency_bucket_bounds_us

abbrev pub tally_of : Event → Tally
tally_of e = record {
  query_count = 1;
  error_count = bool_int (str_eq (result_class_of e) "processing_error");
  cache_hit_count = bool_int e.cache_hit;
  latency_sum_us = e.latency_us;
}

abbrev pub class_count : Event → String → ℕ
class_count e class = bool_int (str_eq (result_class_of e) class)

abbrev pub global_of : Event → GlobalTally
global_of e = record {
  tally = tally_of e;
  latency_max_us = e.latency_us;
  success_count = class_count e "success";
  negative_answer_count = class_count e "negative_answer";
  policy_block_count = class_count e "policy_block";
  processing_error_count = class_count e "processing_error";
}

-- aggregate
unfoldable pub aggregate : ℤ → Event → Counts → Counts
aggregate now e c =
    let hour = hour_of e.timestamp_ms in
    record {
      devices =
          upsert str_eq merge_device e.client_ip
            (record {
              hostname = none;
              display_name = none;
              first_seen_at_ms = e.timestamp_ms;
              last_seen_at_ms = e.timestamp_ms;
              updated_at_ms = now;
            })
            c.devices;
      global =
          upsert same_global merge_global
            (record { hour_start_ms = hour; route = e.route; qtype = e.qtype; rcode = e.rcode })
            (global_of e) c.global;
      domain =
          upsert same_text merge_tally
            (record { hour_start_ms = hour; name = e.qname; other = e.route }) (tally_of e)
            c.domain;
      client =
          upsert same_text merge_tally
            (record { hour_start_ms = hour; name = e.client_ip; other = e.route }) (tally_of e)
            c.client;
      client_domain =
          upsert same_pair add_one
            (record {
              hour_start_ms = hour;
              client_ip = e.client_ip;
              qname = e.qname;
              route = e.route;
            })
            1 c.client_domain;
      upstream_group =
          if not (str_eq e.upstream_group "")
          then upsert same_text merge_group
              (record { hour_start_ms = hour; name = e.upstream_group; other = "" })
              (record { tally = tally_of e; latency_max_us = e.latency_us }) c.upstream_group
          else c.upstream_group;
      latency_bucket =
          upsert same_bucket add_one
            (record { hour_start_ms = hour; upper_bound_us = upper_bound e.latency_us }) 1
            c.latency_bucket;
    }

-- The loop of persist over the events that were new.
unfoldable pub aggregate_all : ℤ → List Event → Counts → Counts
aggregate_all now [] c = c
aggregate_all now (e ∷ es) c = aggregate_all now es (aggregate now e c)
