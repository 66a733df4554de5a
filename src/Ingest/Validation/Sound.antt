-- ===== src/Ingest/Validation/Sound.antt =====
-- controller/internal/queryingest/service.go: what the events of an accepted batch are.
use mosdns_controller.Base.{
  ℕ, ◌+◌, ◌≤◌, ◌<◌, ◌≡◌, refl, ◌⊎◌, inl, inr, String, len, true, false, not, List, [], ◌∷◌, length,
  eq_iff, All, arith, any, Option, none, some, ap,
}
use mosdns_controller.Go.Int.{ℤ, pos, negsuc, lt}
use mosdns_controller.Go.Text.{to_lower, trim_suffix}
use mosdns_controller.Go.Result.{ok, Result-cases}
use mosdns_controller.Rules.Normalize.{Library, Address}
use mosdns_controller.Ingest.Events.{Event, Batch}
use mosdns_controller.Ingest.Validation.{
  max_batch_events, bad_identity, bad_envelope, bad_schema, exceeds_limit, bad_route, bad_values,
  bad_ttl, check_records, is_address, bad_fields, validate_event, validate_events, validate_batch,
}

-- The bytes of some texts.
abbrev pub total : List String → ℕ
total [] = 0
total (r ∷ rs) = len r + total rs

pub record IsAccepted (lib : Library) (e : Event) : Type 0 where
  pub schema : (e.schema_version ≡ pos 2) ⊎ (e.schema_version ≡ pos 3)
  pub event_id : (1 ≤ len e.event_id) × (len e.event_id ≤ 128)
  pub timestamp : (n : ℕ) × (e.timestamp_ms ≡ pos n) × (1 ≤ n)
  pub client_ip : (a : Address) × (lib.parse_addr e.client_ip ≡ ok a)
  pub qname :
      (1 ≤ len e.qname)
      × (len e.qname ≤ 253)
      × (to_lower lib.rune_lower (trim_suffix e.qname ".") ≡ e.qname)
  pub qtype : 1 ≤ e.qtype
  pub qclass : 1 ≤ e.qclass
  pub binding : (n : ℕ) × (e.subscription_binding_id ≡ pos n)
  pub ttl :
      (e.answer_min_ttl_seconds ≡ none)
      ⊎ ((n : ℕ) × (e.answer_min_ttl_seconds ≡ some (pos n)) × (n ≤ 4294967295))
  pub route_source :
      (e.route_source ≡ "default")
      ⊎ (e.route_source ≡ "dynamic_rule")
      ⊎ (e.route_source ≡ "subscription")
  pub rcode : (n : ℕ) × (e.rcode ≡ pos n) × (n ≤ 23)
  pub latency : (n : ℕ) × (e.latency_us ≡ pos n)
  pub answers : (n : ℕ) × (e.answer_count ≡ pos n)
  pub snapshot : e.snapshot < 9223372036854775808
  pub protocol : (e.protocol ≡ "udp") ⊎ (e.protocol ≡ "tcp")
  pub route : (e.route ≡ "forward") ⊎ (e.route ≡ "block") ⊎ (e.route ≡ "local")
  pub texts :
      (len e.upstream_group ≤ 128)
      × (len e.upstream_tag ≤ 128)
      × (len e.error_code ≤ 128)
      × (len e.error_text ≤ 4096)
  pub ips :
      (length e.answer_ips ≤ 16)
      × All (λ ip. (a : Address) × (lib.parse_addr ip ≡ ok a)) e.answer_ips
  pub records :
      (length e.answer_records ≤ 32)
      × All (λ r. (1 ≤ len r) × (len r ≤ 1024)) e.answer_records
      × (total e.answer_records ≤ 16384)

check_records_sound :
    (used : ℕ) (rs : List String) {u : Unit {0}}
    → used ≤ 16384
    → check_records used rs ≡ ok u
    → All (λ r. (1 ≤ len r) × (len r ≤ 1024)) rs × (used + total rs ≤ 16384)
unfolding check_records
check_records_sound used [] h e = (tt, omega arith)
check_records_sound used (r ∷ rs) h e =
    let k = check_records_sound (used + len r) rs (ground (arith, e)) (ground (arith, e)) in
    ((ground (arith, e), k.0), omega (arith, k.1))

positive : (a : ℤ) → lt (pos 0) a ≡ true → (n : ℕ) × (a ≡ pos n) × (1 ≤ n)
positive (pos n) h = (n, refl, ground (arith, h))
positive (negsuc n) h = absurd (ground (arith, h))

within :
    (k : ℕ) (a : ℤ) → lt a (pos 0) ≡ false → lt (pos k) a ≡ false → (n : ℕ) × (a ≡ pos n) × (n ≤ k)
within k (pos n) h g = (n, refl, ground (arith, g))
within k (negsuc n) h g = absurd (ground (arith, h))

nonnegative : (a : ℤ) → lt a (pos 0) ≡ false → (n : ℕ) × (a ≡ pos n)
nonnegative (pos n) h = (n, refl)
nonnegative (negsuc n) h = absurd (ground (arith, h))

ttl_of :
    (t : Option ℤ)
    → bad_ttl t ≡ false
    → (t ≡ none) ⊎ ((n : ℕ) × (t ≡ some (pos n)) × (n ≤ 4294967295))
ttl_of none h = inl refl
ttl_of (some t) h =
    let (n, e, l) = within 4294967295 t (ground (arith, h)) (ground (arith, h)) in
    inr (n, ap some e, l)

schema_of : (v : ℤ) → bad_schema v ≡ false → (v ≡ pos 2) ⊎ (v ≡ pos 3)
schema_of (pos n) h = ground (arith, h)
schema_of (negsuc n) h = absurd (ground (arith, h))

module _ (lib : Library) where
  address_of : (s : String) → is_address lib s ≡ true → (a : Address) × (lib.parse_addr s ≡ ok a)
  address_of s h = elim (Result-cases (lib.parse_addr s)) [
    | inl r ↦ r
    | inr (x, f) ↦ absurd (ground (arith, h, f))
  ]

  addresses_of :
      (ss : List String)
      → any (λ ip. not (is_address lib ip)) ss ≡ false
      → All (λ ip. (a : Address) × (lib.parse_addr ip ≡ ok a)) ss
  addresses_of [] h = tt
  addresses_of (s ∷ ss) h = (address_of s (ground (arith, h)), addresses_of ss (ground (arith, h)))

  module _ (e : Event) where
    identity_of :
        bad_identity e ≡ false
        → ((e.schema_version ≡ pos 2) ⊎ (e.schema_version ≡ pos 3))
          × ((1 ≤ len e.event_id) × (len e.event_id ≤ 128))
          × ((n : ℕ) × (e.timestamp_ms ≡ pos n) × (1 ≤ n))
    unfolding bad_identity
    identity_of h = (
      schema_of e.schema_version (ground (arith, h)),
      ground (arith, h),
      positive e.timestamp_ms (ground (arith, h)),
    )

    fields_of :
        bad_fields lib e ≡ false
        → ((a : Address) × (lib.parse_addr e.client_ip ≡ ok a))
          × ((1 ≤ len e.qname)
              × (len e.qname ≤ 253)
              × (to_lower lib.rune_lower (trim_suffix e.qname ".") ≡ e.qname))
    unfolding bad_fields
    fields_of h =
        let same = eq_iff (to_lower lib.rune_lower (trim_suffix e.qname ".")) e.qname in
        (
          address_of e.client_ip (ground (arith, h)),
          (ground (arith, h), ground (arith, h), ground (arith, h, same)),
        )

    values_of :
        bad_values e ≡ false
        → ((n : ℕ) × (e.rcode ≡ pos n) × (n ≤ 23))
          × ((n : ℕ) × (e.latency_us ≡ pos n))
          × ((n : ℕ) × (e.answer_count ≡ pos n))
          × (e.snapshot < 9223372036854775808)
          × ((1 ≤ e.qtype) × (1 ≤ e.qclass))
          × ((n : ℕ) × (e.subscription_binding_id ≡ pos n))
          × ((e.answer_min_ttl_seconds ≡ none)
              ⊎ ((n : ℕ) × (e.answer_min_ttl_seconds ≡ some (pos n)) × (n ≤ 4294967295)))
    unfolding bad_values
    values_of h = (
      within 23 e.rcode (ground (arith, h)) (ground (arith, h)),
      nonnegative e.latency_us (ground (arith, h)),
      nonnegative e.answer_count (ground (arith, h)),
      ground (arith, h),
      (ground (arith, h), ground (arith, h)),
      nonnegative e.subscription_binding_id (ground (arith, h)),
      ttl_of e.answer_min_ttl_seconds (ground (arith, h)),
    )

    source_of :
        bad_route e ≡ false
        → (e.route_source ≡ "default")
          ⊎ (e.route_source ≡ "dynamic_rule")
          ⊎ (e.route_source ≡ "subscription")
    unfolding bad_route
    source_of h = ground (
      arith,
      h,
      eq_iff e.route_source "default",
      eq_iff e.route_source "dynamic_rule",
      eq_iff e.route_source "subscription",
    )

    protocol_of : bad_route e ≡ false → (e.protocol ≡ "udp") ⊎ (e.protocol ≡ "tcp")
    unfolding bad_route
    protocol_of h = ground (arith, h, eq_iff e.protocol "udp", eq_iff e.protocol "tcp")

    route_of :
        bad_route e ≡ false → (e.route ≡ "forward") ⊎ (e.route ≡ "block") ⊎ (e.route ≡ "local")
    unfolding bad_route
    route_of h =
        ground (arith, h, eq_iff e.route "forward", eq_iff e.route "block", eq_iff e.route "local")

    texts_of :
        exceeds_limit e ≡ false
        → (len e.upstream_group ≤ 128)
          × (len e.upstream_tag ≤ 128)
          × (len e.error_code ≤ 128)
          × (len e.error_text ≤ 4096)
    unfolding exceeds_limit
    texts_of h = ground (arith, h)

  validate_event-IsAccepted :
      (e : Event) {u : Unit {0}} → validate_event lib e ≡ ok u → IsAccepted lib e
  unfolding validate_event
  validate_event-IsAccepted e h =
      let (schema, event_id, timestamp) = identity_of e (ground (arith, h)) in
      let (client, qname) = fields_of e (ground (arith, h)) in
      let (rcode, latency, answers, snapshot, (qtype, qclass), binding, ttl) =
        values_of e (ground (arith, h)) in
      let route : bad_route e ≡ false = ground (arith, h) in
      let (each, all) =
        check_records_sound 0 e.answer_records {u = tt} (omega arith) (ground (arith, h)) in
      record {
        schema = schema;
        event_id = event_id;
        timestamp = timestamp;
        client_ip = client;
        qname = qname;
        qtype = qtype;
        qclass = qclass;
        binding = binding;
        ttl = ttl;
        route_source = source_of e route;
        rcode = rcode;
        latency = latency;
        answers = answers;
        snapshot = snapshot;
        protocol = protocol_of e route;
        route = route_of e route;
        texts = texts_of e (ground (arith, h));
        ips = (ground (arith, h), addresses_of e.answer_ips (ground (arith, h)));
        records = (ground (arith, h), each, omega (arith, all));
      }

  validate_events-IsAccepted :
      (es : List Event) {u : Unit {0}} → validate_events lib es ≡ ok u → All (IsAccepted lib) es
  unfolding validate_events
  validate_events-IsAccepted [] h = tt
  validate_events-IsAccepted (e ∷ es) h = (
    validate_event-IsAccepted e {u = tt} (ground (arith, h)),
    validate_events-IsAccepted es {u = tt} (ground (arith, h)),
  )

  -- An accepted batch has a known schema, a sender of at most 128 bytes, a positive time and between 1
  -- and 500 events, each of them accepted: known schema, positive time, identifiers and names within
  -- their limits, addresses that parse, a name in lower case with no final dot, a positive type and
  -- class, every other number in its range, a known protocol, route and route source, at most 16
  -- addresses and at most 32 records, of 16384 bytes in all.
  pub validate_batch_sound :
      (b : Batch) {u : Unit {0}}
      → validate_batch lib b ≡ ok u
      → ((b.schema_version ≡ pos 2) ⊎ (b.schema_version ≡ pos 3))
        × ((1 ≤ len b.sender_id) × (len b.sender_id ≤ 128))
        × ((n : ℕ) × (b.sent_at_ms ≡ pos n) × (1 ≤ n))
        × (1 ≤ length b.events)
        × (length b.events ≤ max_batch_events)
        × All (IsAccepted lib) b.events
  unfolding validate_batch bad_envelope
  validate_batch_sound b h = (
    schema_of b.schema_version (ground (arith, h)),
    ground (arith, h),
    positive b.sent_at_ms (ground (arith, h)),
    ground (arith, h),
    ground (arith, h),
    validate_events-IsAccepted b.events {u = tt} (ground (arith, h)),
  )
