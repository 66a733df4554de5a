-- ===== src/Ingest/Stats/Totals.antt =====
-- controller/internal/queryingest/service.go: what aggregate adds to the statistics.
use mosdns_controller.Base.{
  ℕ, ◌+◌, ◌≡◌, refl, ap, String, Bool, true, false, not, ◌&&◌, List, [], ◌∷◌, str_eq, eq_iff,
  if◌then◌else◌, arith, Bool-cases, inl, inr,
}
use mosdns_controller.Go.Int.{ℤ, pos, negsuc, eq}
use mosdns_controller.Ingest.Events.{Event, result_class_of}
use mosdns_controller.Ingest.Stats.{
  Counts, Tally, GlobalKey, TextKey, PairKey, BucketKey, same_global, same_text, same_pair,
  same_bucket, upsert, aggregate, aggregate_all, hour_of, upper_bound, bool_int,
}

-- The sum of a column, over the rows whose key satisfies P.
abbrev pub sum_at {ℓ κ} : {K : Type ℓ} {V : Type κ} → (K → Bool) → (V → ℕ) → List (K × V) → ℕ
sum_at P f [] = 0
sum_at P f (row ∷ rows) = (if P row.0 then f row.1 else 0) + sum_at P f rows

abbrev part : Bool → ℕ → ℕ
part b n = if b then n else 0

-- What the events `on` add to the rows whose key satisfies P.
abbrev pub added {ℓ} :
    {K : Type ℓ} → (Event → Bool) → (Event → K) → (Event → ℕ) → (K → Bool) → List Event → ℕ
added on key g P [] = 0
added on key g P (e ∷ es) = part (on e && P (key e)) (g e) + added on key g P es

-- For every set of keys, the sum of a column over its rows is that before, and `g e` for each of the
-- events `on` whose key is in the set.
abbrev pub Grows {ℓ κ} :
    {K : Type ℓ} {V : Type κ}
    → (Event → Bool)
    → (Event → K)
    → (V → ℕ)
    → (Event → ℕ)
    → List Event
    → List (K × V)
    → List (K × V)
    → Type ℓ
Grows {K = K} on key f g es rows rows' =
    (P : K → Bool) → sum_at P f rows' ≡ added on key g P es + sum_at P f rows

abbrev pub one_of : Event → ℕ
one_of e = 1

abbrev pub hit_of : Event → ℕ
hit_of e = bool_int e.cache_hit

abbrev pub class_of : String → Event → ℕ
class_of class e = bool_int (str_eq (result_class_of e) class)

abbrev pub error_of : Event → ℕ
error_of e = class_of "processing_error" e

-- The queries, the errors and the cache hits of a table.
pub record Tallies {ℓ κ} {K : Type ℓ} {V : Type κ} (on : Event → Bool) (key : Event → K)
    (get : V → Tally) (es : List Event) (rows rows' : List (K × V)) : Type ℓ where
  pub query_counts : Grows on key (λ v. (get v).query_count) one_of es rows rows'
  pub errors : Grows on key (λ v. (get v).error_count) error_of es rows rows'
  pub hits : Grows on key (λ v. (get v).cache_hit_count) hit_of es rows rows'

abbrev pub always : Event → Bool
always e = true

abbrev pub in_group : Event → Bool
in_group e = not (str_eq e.upstream_group "")

-- The keys: the hour of the event, and what the table is by.
abbrev pub global_key : Event → GlobalKey
global_key e = record {
  hour_start_ms = hour_of e.timestamp_ms;
  route = e.route;
  qtype = e.qtype;
  rcode = e.rcode;
}

abbrev pub text_key : (Event → String) → (Event → String) → Event → TextKey
text_key name other e = record {
  hour_start_ms = hour_of e.timestamp_ms;
  name = name e;
  other = other e;
}

abbrev pub pair_key : Event → PairKey
pair_key e = record {
  hour_start_ms = hour_of e.timestamp_ms;
  client_ip = e.client_ip;
  qname = e.qname;
  route = e.route;
}

abbrev pub bucket_key : Event → BucketKey
bucket_key e = record {
  hour_start_ms = hour_of e.timestamp_ms;
  upper_bound_us = upper_bound e.latency_us;
}

-- Every table counts the events, at their keys, and the tables that keep them count their errors,
-- cache hits and classes; the table of the upstream groups counts the events that have one.
pub record Counted (es : List Event) (c c' : Counts) : Type 0 where
  pub global : Tallies always global_key (λ t. t.tally) es c.global c'.global
  pub successes :
      Grows always global_key (λ t. t.success_count) (class_of "success") es c.global c'.global
  pub negatives :
      Grows always global_key
        (λ t. t.negative_answer_count)
        (class_of "negative_answer")
        es
        c.global
        c'.global
  pub blocks :
      Grows always global_key
        (λ t. t.policy_block_count)
        (class_of "policy_block")
        es
        c.global
        c'.global
  pub failures :
      Grows always global_key
        (λ t. t.processing_error_count)
        (class_of "processing_error")
        es
        c.global
        c'.global
  pub domain :
      Tallies always (text_key (λ e. e.qname) (λ e. e.route)) (λ t. t) es c.domain c'.domain
  pub client :
      Tallies always (text_key (λ e. e.client_ip) (λ e. e.route)) (λ t. t) es c.client c'.client
  pub client_domain : Grows always pair_key (λ n. n) one_of es c.client_domain c'.client_domain
  pub upstream_group :
      Tallies in_group
        (text_key (λ e. e.upstream_group) (λ e. ""))
        (λ t. t.tally)
        es
        c.upstream_group
        c'.upstream_group
  pub latency : Grows always bucket_key (λ n. n) one_of es c.latency_bucket c'.latency_bucket

eq_of : (a b : ℤ) → eq a b ≡ true → a ≡ b
eq_of (pos a) (pos b) h = ground (arith, h)
eq_of (pos a) (negsuc b) h = absurd (ground (arith, h))
eq_of (negsuc a) (pos b) h = absurd (ground (arith, h))
eq_of (negsuc a) (negsuc b) h = ground (arith, h)

same_global-eq : (a b : GlobalKey) → same_global a b ≡ true → a ≡ b
same_global-eq a b h =
    ground (
      arith,
      h,
      eq_of a.hour_start_ms b.hour_start_ms,
      eq_iff a.route b.route,
      eq_of a.rcode b.rcode,
    )

same_text-eq : (a b : TextKey) → same_text a b ≡ true → a ≡ b
same_text-eq a b h =
    ground (
      arith,
      h,
      eq_of a.hour_start_ms b.hour_start_ms,
      eq_iff a.name b.name,
      eq_iff a.other b.other,
    )

same_pair-eq : (a b : PairKey) → same_pair a b ≡ true → a ≡ b
same_pair-eq a b h = ground (
  arith,
  h,
  eq_of a.hour_start_ms b.hour_start_ms,
  eq_iff a.client_ip b.client_ip,
  eq_iff a.qname b.qname,
  eq_iff a.route b.route,
)

same_bucket-eq : (a b : BucketKey) → same_bucket a b ≡ true → a ≡ b
same_bucket-eq a b h = ground (arith, h, eq_of a.hour_start_ms b.hour_start_ms)

-- A row is added, or merged into that of its key.
sum_at-upsert {ℓ κ} :
    {K : Type ℓ} {V : Type κ} (f : V → ℕ) (same : K → K → Bool) (merge : V → V → V) (k : K) (v : V)
    → ((a b : K) → same a b ≡ true → a ≡ b)
    → ((w : V) → f (merge w v) ≡ f w + f v)
    → (P : K → Bool) (rows : List (K × V))
    → sum_at P f (upsert same merge k v rows) ≡ part (P k) (f v) + sum_at P f rows
unfolding upsert
sum_at-upsert f same merge k v eqv h P [] = refl
sum_at-upsert f same merge k v eqv h P (row ∷ rows) = elim (Bool-cases (same row.0 k)) [
  | inl b ↦ ground (arith, b, h row.1, ap P (eqv row.0 k b))
  | inr b ↦ ground (arith, b, sum_at-upsert f same merge k v eqv h P rows)
]

module _ {ℓ κ} {K : Type ℓ} {V : Type κ} (on : Event → Bool) (key : Event → K) where
  -- A row for an event, in every set of keys.
  abbrev Step : (V → ℕ) → (Event → ℕ) → Event → List (K × V) → List (K × V) → Type ℓ
  Step f g e rows rows' =
      (P : K → Bool) → sum_at P f rows' ≡ part (on e && P (key e)) (g e) + sum_at P f rows

  chain :
      (f : V → ℕ) (g : Event → ℕ) (e : Event) (es : List Event) (rows mid rows' : List (K × V))
      → Step f g e rows mid
      → Grows on key f g es mid rows'
      → Grows on key f g (e ∷ es) rows rows'
  chain f g e es rows mid rows' a b P = omega (arith, a P, b P)

  record TallyStep (get : V → Tally) (e : Event) (rows rows' : List (K × V)) : Type ℓ where
    pub query_counts : Step (λ v. (get v).query_count) one_of e rows rows'
    pub errors : Step (λ v. (get v).error_count) error_of e rows rows'
    pub hits : Step (λ v. (get v).cache_hit_count) hit_of e rows rows'

  chain-Tallies :
      (get : V → Tally) (e : Event) (es : List Event) {rows mid rows' : List (K × V)}
      → TallyStep get e rows mid
      → Tallies on key get es mid rows'
      → Tallies on key get (e ∷ es) rows rows'
  chain-Tallies get e es a b = record {
    query_counts = chain _ _ e es _ _ _ a.query_counts b.query_counts;
    errors = chain _ _ e es _ _ _ a.errors b.errors;
    hits = chain _ _ e es _ _ _ a.hits b.hits;
  }

-- A row is added for an event that is on, and for no other.
sum_at-if {ℓ κ} :
    {K : Type ℓ} {V : Type κ} (f : V → ℕ) (same : K → K → Bool) (merge : V → V → V) (k : K) (v : V)
    → ((a b : K) → same a b ≡ true → a ≡ b)
    → ((w : V) → f (merge w v) ≡ f w + f v)
    → (b : Bool) (P : K → Bool) (rows : List (K × V))
    → sum_at P f (if b then upsert same merge k v rows else rows)
      ≡ part (b && P k) (f v) + sum_at P f rows
sum_at-if f same merge k v eqv h true P rows = sum_at-upsert f same merge k v eqv h P rows
sum_at-if f same merge k v eqv h false P rows = omega arith

none_added {ℓ κ} :
    {K : Type ℓ} {V : Type κ} (on : Event → Bool) (key : Event → K) (get : V → Tally)
    (rows : List (K × V))
    → Tallies on key get [] rows rows
none_added on key get rows = record {
  query_counts = λ P. omega arith;
  errors = λ P. omega arith;
  hits = λ P. omega arith;
}

pub aggregate_all-Counted :
    (now : ℤ) (es : List Event) (c : Counts) → Counted es c (aggregate_all now es c)
unfolding aggregate_all aggregate
aggregate_all-Counted now [] c = record {
  global = none_added _ _ _ _;
  successes = λ P. omega arith;
  negatives = λ P. omega arith;
  blocks = λ P. omega arith;
  failures = λ P. omega arith;
  domain = none_added _ _ _ _;
  client = none_added _ _ _ _;
  client_domain = λ P. omega arith;
  upstream_group = none_added _ _ _ _;
  latency = λ P. omega arith;
}
aggregate_all-Counted now (e ∷ es) c =
    let next = aggregate now e c in
    let last = aggregate_all now es next in
    let rest = aggregate_all-Counted now es next in
    record {
      global =
          chain-Tallies _ _ (λ t. t.tally) e es
            (record {
              query_counts =
                  λ P. sum_at-upsert _ same_global _ _ _ same_global-eq (λ w. refl) P c.global;
              errors = λ P. sum_at-upsert _ same_global _ _ _ same_global-eq (λ w. refl) P c.global;
              hits = λ P. sum_at-upsert _ same_global _ _ _ same_global-eq (λ w. refl) P c.global;
            })
            rest.global;
      domain =
          chain-Tallies _ _ (λ t. t) e es
            (record {
              query_counts =
                  λ P. sum_at-upsert _ same_text _ _ _ same_text-eq (λ w. refl) P c.domain;
              errors = λ P. sum_at-upsert _ same_text _ _ _ same_text-eq (λ w. refl) P c.domain;
              hits = λ P. sum_at-upsert _ same_text _ _ _ same_text-eq (λ w. refl) P c.domain;
            })
            rest.domain;
      client =
          chain-Tallies _ _ (λ t. t) e es
            (record {
              query_counts =
                  λ P. sum_at-upsert _ same_text _ _ _ same_text-eq (λ w. refl) P c.client;
              errors = λ P. sum_at-upsert _ same_text _ _ _ same_text-eq (λ w. refl) P c.client;
              hits = λ P. sum_at-upsert _ same_text _ _ _ same_text-eq (λ w. refl) P c.client;
            })
            rest.client;
      successes =
          chain always global_key (λ t. t.success_count) (class_of "success") e es c.global
            (next.global) (last.global)
            (λ P. sum_at-upsert _ same_global _ _ _ same_global-eq (λ w. refl) P c.global)
            rest.successes;
      negatives =
          chain always global_key (λ t. t.negative_answer_count) (class_of "negative_answer") e es
            c.global (next.global) (last.global)
            (λ P. sum_at-upsert _ same_global _ _ _ same_global-eq (λ w. refl) P c.global)
            rest.negatives;
      blocks =
          chain always global_key (λ t. t.policy_block_count) (class_of "policy_block") e es
            c.global (next.global) (last.global)
            (λ P. sum_at-upsert _ same_global _ _ _ same_global-eq (λ w. refl) P c.global)
            rest.blocks;
      failures =
          chain always global_key (λ t. t.processing_error_count) (class_of "processing_error") e es
            c.global (next.global) (last.global)
            (λ P. sum_at-upsert _ same_global _ _ _ same_global-eq (λ w. refl) P c.global)
            rest.failures;
      client_domain =
          chain always pair_key (λ n. n) one_of e es c.client_domain (next.client_domain)
            (last.client_domain)
            (λ P. sum_at-upsert _ same_pair _ _ _ same_pair-eq (λ w. refl) P c.client_domain)
            rest.client_domain;
      latency =
          chain always bucket_key (λ n. n) one_of e es c.latency_bucket (next.latency_bucket)
            (last.latency_bucket)
            (λ P. sum_at-upsert _ same_bucket _ _ _ same_bucket-eq (λ w. refl) P c.latency_bucket)
            rest.latency;
      upstream_group =
          chain-Tallies _ _ (λ t. t.tally) e es
            (record {
              query_counts = λ P.
                  sum_at-if _ same_text _ _ _ same_text-eq (λ w. refl) (in_group e) P
                    c.upstream_group;
              errors = λ P.
                  sum_at-if _ same_text _ _ _ same_text-eq (λ w. refl) (in_group e) P
                    c.upstream_group;
              hits = λ P.
                  sum_at-if _ same_text _ _ _ same_text-eq (λ w. refl) (in_group e) P
                    c.upstream_group;
            })
            rest.upstream_group;
    }
