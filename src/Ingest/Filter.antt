-- ===== src/Ingest/Filter.antt =====
-- controller/internal/queryingest/service.go: which events a query selects, in the database
-- (queryConditions) and in the live stream (queryMatches).
pub mod Like
pub mod Agrees
use mosdns_controller.Base.{
  ℕ, ◌+◌, ◌-◌, String, Bool, true, false, not, ◌||◌, ◌&&◌, List, [], ◌∷◌, ◌++◌, Option, none, some,
  ◌==◌, str_eq, ltb, leb, if◌then◌else◌,
}
use mosdns_controller.Go.Int.{ℤ, pos, negsuc, lt, eq}
use mosdns_controller.Go.Text.{contains}
use mosdns_controller.Go.Result.{Result, ok, err, ◌>>=◌, ◌>>◌, reject_if}
use mosdns_controller.Rules.Normalize.{Library}
use mosdns_controller.Ingest.Events.{Details, StoredEvent, Query}
use mosdns_controller.Ingest.Validation.{is_address}
use mosdns_controller.Ingest.Filter.Like.{like, within_pattern}

-- The conditions that queryConditions joins with AND, with their arguments.
pub data Condition : Type 0 where
  from_time to_time : ℤ → Condition
  client_ip_is route_is route_source_is upstream_tag_is upstream_group_is protocol_is :
      String → Condition
  qtype_is rcode_is : ℤ → Condition
  cache_hit_is : Bool → Condition
  is_error is_no_error : Condition
  result_class_is qname_is qname_like : String → Condition

abbrev same : Bool → Bool → Bool
same true b = b
same false b = not b

-- A condition, of a row of dns_queries.
unfoldable pub holds : StoredEvent → Condition → Bool
holds e (from_time t) = not (lt e.timestamp_ms t)
holds e (to_time t) = not (lt t e.timestamp_ms)
holds e (client_ip_is v) = str_eq e.client_ip v
holds e (route_is v) = str_eq e.route v
holds e (route_source_is v) = str_eq e.route_source v
holds e (upstream_tag_is v) = str_eq e.upstream_tag v
holds e (upstream_group_is v) = str_eq e.upstream_group v
holds e (protocol_is v) = str_eq e.protocol v
holds e (qtype_is v) = eq (pos e.qtype) v
holds e (rcode_is v) = eq e.rcode v
holds e (cache_hit_is b) = same e.cache_hit b
holds e is_error = str_eq e.result_class "processing_error"
holds e is_no_error = not (str_eq e.result_class "processing_error")
holds e (result_class_is v) = str_eq e.result_class v
holds e (qname_is v) = str_eq e.qname v
holds e (qname_like p) = like e.qname p

unfoldable pub all_hold : StoredEvent → List Condition → Bool
all_hold e [] = true
all_hold e (c ∷ cs) = holds e c && all_hold e cs

-- if present { add(condition) }
abbrev pub when : Bool → Condition → List Condition
when true c = c ∷ []
when false c = []

abbrev pub is_set : String → Bool
is_set s = not (str_eq s "")

abbrev pub when_some : {A : Type 0} → Option A → (A → Condition) → List Condition
when_some none c = []
when_some (some a) c = c a ∷ []

abbrev pub error_condition : Bool → Condition
error_condition true = is_error
error_condition false = is_no_error

unfoldable pub qname_condition : Query → Condition
qname_condition q =
    if str_eq q.qname_match "contains"
    then qname_like (within_pattern q.qname)
    else qname_is q.qname

-- The conditions of a query that is valid.
unfoldable pub conditions : Query → List Condition
conditions q =
    when (not (eq q.from_ms (pos 0))) (from_time q.from_ms)
    ++ (when (not (eq q.to_ms (pos 0))) (to_time q.to_ms)
        ++ (when (is_set q.client_ip) (client_ip_is q.client_ip)
            ++ (when (is_set q.route) (route_is q.route)
                ++ (when (is_set q.route_source) (route_source_is q.route_source)
                    ++ (when (is_set q.upstream_tag) (upstream_tag_is q.upstream_tag)
                        ++ (when (is_set q.upstream_group) (upstream_group_is q.upstream_group)
                            ++ (when (is_set q.protocol) (protocol_is q.protocol)
                                ++ (when (not (eq q.qtype (pos 0))) (qtype_is q.qtype)
                                    ++ (when_some q.rcode rcode_is
                                        ++ (when_some q.cache_hit cache_hit_is
                                            ++ (when_some q.has_error error_condition
                                                ++ (when (is_set q.result_class)
                                                      (result_class_is q.result_class)
                                                    ++ when (is_set q.qname)
                                                        (qname_condition q)))))))))))))

-- q.ToMS-q.FromMS > limit, for times that are not negative.
abbrev pub spans_more : ℕ → ℤ → ℤ → Bool
spans_more limit (pos a) (pos b) = ltb (a + limit) b
spans_more limit (pos a) (negsuc b) = false
spans_more limit (negsuc a) b = false

abbrev is_one_of : String → String → String → String → Bool
is_one_of s a b c = str_eq s a || str_eq s b || str_eq s c

abbrev bad_code : ℤ → Bool
bad_code c = lt c (pos 0) || lt (pos 65535) c

abbrev bad_rcode : Option ℤ → Bool
bad_rcode none = false
bad_rcode (some c) = bad_code c

-- The checks of queryConditions.
unfoldable pub check_query : Library → Query → Result (Unit {0})
check_query lib q = do
  reject_if (is_set q.client_ip && not (is_address lib q.client_ip)) "invalid client_ip"
  reject_if (is_set q.route && not (is_one_of q.route "forward" "block" "local")) "invalid route"
  reject_if
      (is_set q.qname_match
        && not (str_eq q.qname_match "exact" || str_eq q.qname_match "contains"))
      "invalid qname_match"
  reject_if (bad_code q.qtype) "invalid qtype"
  reject_if (bad_rcode q.rcode) "invalid rcode"
  reject_if
      (is_set q.result_class
        && not (
            is_one_of q.result_class "success" "negative_answer" "policy_block"
            || str_eq q.result_class "processing_error"))
      "invalid result_class"
  reject_if
      (lt q.from_ms (pos 0)
        || lt q.to_ms (pos 0)
        || not (eq q.from_ms (pos 0)) && not (eq q.to_ms (pos 0)) && lt q.to_ms q.from_ms)
      "invalid time range"
  reject_if
      (is_set q.qname
        && str_eq q.qname_match "contains"
        && (eq q.from_ms (pos 0) || eq q.to_ms (pos 0) || spans_more 604800000 q.from_ms q.to_ms))
      "qname contains requires a time range of at most 7 days"

-- queryConditions
unfoldable pub query_conditions : Library → Query → Result (List Condition)
query_conditions lib q = do check_query lib q; ok (conditions q)

abbrev pub rcode_differs : Option ℤ → ℤ → Bool
rcode_differs none r = false
rcode_differs (some c) r = not (eq r c)

abbrev pub flag_differs : Option Bool → Bool → Bool
flag_differs none b = false
flag_differs (some c) b = not (same b c)

-- The first test of queryMatches.
unfoldable pub clashes : StoredEvent → Query → Bool
clashes e q =
    not (eq q.from_ms (pos 0)) && lt e.timestamp_ms q.from_ms
    || not (eq q.to_ms (pos 0)) && lt q.to_ms e.timestamp_ms
    || is_set q.client_ip && not (str_eq e.client_ip q.client_ip)
    || is_set q.route && not (str_eq e.route q.route)
    || is_set q.route_source && not (str_eq e.route_source q.route_source)
    || is_set q.upstream_group && not (str_eq e.upstream_group q.upstream_group)
    || is_set q.upstream_tag && not (str_eq e.upstream_tag q.upstream_tag)
    || is_set q.protocol && not (str_eq e.protocol q.protocol)
    || not (eq q.qtype (pos 0)) && not (eq (pos e.qtype) q.qtype)
    || rcode_differs q.rcode e.rcode
    || flag_differs q.cache_hit e.cache_hit

unfoldable pub qname_matches : StoredEvent → Query → Bool
qname_matches e q =
    if str_eq q.qname ""
    then true
    else if str_eq q.qname_match "contains"
    then contains e.qname q.qname
    else str_eq e.qname q.qname

-- queryMatches
unfoldable pub query_matches : StoredEvent → Query → Bool
query_matches e q =
    if clashes e q
    then false
    else if flag_differs q.has_error (str_eq e.result_class "processing_error")
    then false
    else if is_set q.result_class && not (str_eq e.result_class q.result_class)
    then false
    else qname_matches e q
