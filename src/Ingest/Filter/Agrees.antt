-- ===== src/Ingest/Filter/Agrees.antt =====
-- controller/internal/queryingest/service.go: the database and the live stream select the same events.
use mosdns_controller.Base.{
  ◌≡◌, refl, ◌⊎◌, inl, inr, Bool, true, false, not, ◌||◌, ◌&&◌, List, [], ◌∷◌, ◌++◌, Option, none,
  some, str_eq, if◌then◌else◌, arith,
}
use mosdns_controller.Go.Int.{ℤ, pos, lt, eq}
use mosdns_controller.Ingest.Events.{StoredEvent, Query}
use mosdns_controller.Ingest.Filter.Like.{like-within_pattern, has_no_capital}
use mosdns_controller.Ingest.Filter.{
  Condition, holds, all_hold, when, when_some, is_set, error_condition, qname_condition, conditions,
  clashes, rcode_differs, flag_differs, qname_matches, query_matches, rcode_is, cache_hit_is,
}

all_hold-append :
    (e : StoredEvent) (cs ds : List Condition)
    → all_hold e (cs ++ ds) ≡ (all_hold e cs && all_hold e ds)
unfolding all_hold
all_hold-append e [] ds = refl
all_hold-append e (c ∷ cs) ds = ground (arith, all_hold-append e cs ds)

-- A condition that is added under a test fails exactly where the test holds and it does not.
all_hold-when :
    (e : StoredEvent) (b : Bool) (c : Condition) (ds : List Condition)
    → all_hold e (when b c ++ ds) ≡ (not (b && not (holds e c)) && all_hold e ds)
unfolding all_hold
all_hold-when e true c ds = ground arith
all_hold-when e false c ds = refl

all_hold-rcode :
    (e : StoredEvent) (o : Option ℤ) (ds : List Condition)
    → all_hold e (when_some o rcode_is ++ ds) ≡ (not (rcode_differs o e.rcode) && all_hold e ds)
unfolding all_hold holds
all_hold-rcode e none ds = refl
all_hold-rcode e (some c) ds = ground arith

all_hold-cache :
    (e : StoredEvent) (o : Option Bool) (ds : List Condition)
    → all_hold e (when_some o cache_hit_is ++ ds)
      ≡ (not (flag_differs o e.cache_hit) && all_hold e ds)
unfolding all_hold holds
all_hold-cache e none ds = refl
all_hold-cache e (some c) ds = ground arith

all_hold-error :
    (e : StoredEvent) (o : Option Bool) (ds : List Condition)
    → all_hold e (when_some o error_condition ++ ds)
      ≡ (not (flag_differs o (str_eq e.result_class "processing_error")) && all_hold e ds)
unfolding all_hold holds
all_hold-error e none ds = refl
all_hold-error e (some true) ds = ground arith
all_hold-error e (some false) ds = ground arith

-- The names of the event and of the query have no capitals, or they are compared as a whole.
abbrev pub Comparable : StoredEvent → Query → Type 0
Comparable e q =
    (str_eq q.qname_match "contains" ≡ false)
    ⊎ ((has_no_capital e.qname ≡ true) × (has_no_capital q.qname ≡ true))

all_hold-qname :
    (e : StoredEvent) (q : Query)
    → Comparable e q
    → all_hold e (when (is_set q.qname) (qname_condition q)) ≡ qname_matches e q
unfolding all_hold holds qname_condition qname_matches
all_hold-qname e q (inl h) = ground (arith, h)
all_hold-qname e q (inr (h, k)) = ground (arith, like-within_pattern e.qname q.qname h k)

not-not : (b : Bool) → not (not b) ≡ b
not-not true = refl
not-not false = refl

-- No clash means that every condition holds.
regroup :
    (a b c d e f g h i j k l m r : Bool)
    → (not a
        && (not b
            && (not c
                && (not d
                    && (not e
                        && (not g
                            && (not f
                                && (not h
                                    && (not i
                                        && (not j && (not k && (not l && (not m && r)))))))))))))
      ≡ (if a || b || c || d || e || f || g || h || i || j || k
          then false
          else if l
          then false
          else if m
          then false
          else r)
regroup a b c d e f g h i j k l m r = ground arith

-- A query selects an event in the database exactly if it matches it in the live stream, if the names
-- are compared as a whole, or have no capitals.
pub conditions-query_matches :
    (e : StoredEvent) (q : Query) → Comparable e q → all_hold e (conditions q) ≡ query_matches e q
unfolding conditions query_matches clashes holds
conditions-query_matches e q c =
    rw
      (
        all_hold-when,
        all_hold-when,
        all_hold-when,
        all_hold-when,
        all_hold-when,
        all_hold-when,
        all_hold-when,
        all_hold-when,
        all_hold-when,
        all_hold-rcode,
        all_hold-cache,
        all_hold-error,
        all_hold-when,
        all_hold-qname e q c,
        not-not,
        not-not,
      )
      (regroup (not (eq q.from_ms (pos 0)) && lt e.timestamp_ms q.from_ms)
        (not (eq q.to_ms (pos 0)) && lt q.to_ms e.timestamp_ms)
        (is_set q.client_ip && not (str_eq e.client_ip q.client_ip))
        (is_set q.route && not (str_eq e.route q.route))
        (is_set q.route_source && not (str_eq e.route_source q.route_source))
        (is_set q.upstream_group && not (str_eq e.upstream_group q.upstream_group))
        (is_set q.upstream_tag && not (str_eq e.upstream_tag q.upstream_tag))
        (is_set q.protocol && not (str_eq e.protocol q.protocol))
        (not (eq q.qtype (pos 0)) && not (eq (pos e.qtype) q.qtype)) (rcode_differs q.rcode e.rcode)
        (flag_differs q.cache_hit e.cache_hit)
        (flag_differs q.has_error (str_eq e.result_class "processing_error"))
        (is_set q.result_class && not (str_eq e.result_class q.result_class)) (qname_matches e q))
