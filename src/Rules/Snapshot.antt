-- ===== src/Rules/Snapshot.antt =====
-- controller/internal/rules/service.go: buildSnapshot, and the counts of a snapshot.
pub mod Order
use Prim.Native.String.{◌++◌ as append}
use mosdns_controller.Base.{
  ℕ, ◌≡◌, ◌≤◌, ◌+◌, String, len, count, Bool, true, false, not, ◌&&◌, ◌||◌, List, [], ◌∷◌, length,
  map, arith, ltb, ◌==◌, str_eq, if◌then◌else◌, suc, keep,
}
use mosdns_controller.Go.Int.{ℤ, lt, eq}
use mosdns_controller.Go.Text.{text_lt}
use mosdns_controller.Rules.Types.{Rule}

-- mosdnsclient.Rule
pub record WireRule : Type 0 where
  pub id : ℕ
  pub category : String
  pub action : String
  pub upstream_group_id : String
  pub match_type : String
  pub pattern : String
  pub priority : ℤ
  pub source : String
  pub comment : String
  pub ipv4_addresses : List String
  pub ipv6_addresses : List String
  pub ttl : ℕ

-- mosdnsclient.SubscriptionSet
pub record SubscriptionSet : Type 0 where
  pub source_id : ℕ
  pub source_name : String
  pub category : String
  pub action : String
  pub binding_id : ℕ
  pub upstream_group_id : String
  pub priority : ℕ
  pub domains : List String

-- The fields of mosdnsclient.Snapshot that snapshotCanonicalJSON writes, in its order.
pub record Canonical : Type 0 where
  pub schema_version : ℕ
  pub version : ℕ
  pub expected_current_version : ℕ
  pub generated_at : ℕ
  pub block_rcode : ℕ
  pub rules : List WireRule
  pub subscription_sets : List SubscriptionSet

pub record Snapshot : Type 0 where
  pub content : Canonical
  pub open content use *
  pub checksum : String

-- toWire
unfoldable pub to_wire : Rule → WireRule
to_wire r = record {
  id = r.id;
  category = r.category;
  action = r.action;
  upstream_group_id = r.upstream_group_id;
  match_type = r.match_type;
  pattern = r.pattern;
  priority = r.priority;
  source = r.source;
  comment = r.comment;
  ipv4_addresses = r.ipv4_addresses;
  ipv6_addresses = r.ipv6_addresses;
  ttl = r.ttl;
}

-- The order by which buildSnapshot sorts.
unfoldable pub wire_less : WireRule → WireRule → Bool
wire_less a b =
    if not (str_eq a.category b.category)
    then text_lt a.category b.category
    else if not (eq a.priority b.priority)
    then lt a.priority b.priority
    else if not (str_eq a.match_type b.match_type)
    then text_lt a.match_type b.match_type
    else if not (str_eq a.pattern b.pattern)
    then text_lt a.pattern b.pattern
    else ltb a.id b.id

-- sort.Slice, as an insertion sort by the same test.
module _ {ℓ} {A : Type ℓ} (less : A → A → Bool) where
  unfoldable pub insert_by : A → List A → List A
  insert_by k [] = k ∷ []
  insert_by k (x ∷ xs) = if less x k then x ∷ insert_by k xs else k ∷ x ∷ xs

  unfoldable pub sort_by : List A → List A
  sort_by [] = []
  sort_by (x ∷ xs) = insert_by x (sort_by xs)

-- `encode` is the SHA-256 of the JSON text, in hexadecimal.
unfoldable pub build_snapshot :
    (Canonical → String) → ℕ → ℕ → ℕ → List Rule → List SubscriptionSet → Snapshot
build_snapshot encode now version current rules sets =
    let content : Canonical = record {
      schema_version = 5;
      version = version;
      expected_current_version = current;
      generated_at = now;
      block_rcode = 3;
      rules = sort_by wire_less (map to_wire (keep (λ r. r.enabled) rules));
      subscription_sets = sets;
    } in
    record { content = content; checksum = append "sha256:" (encode content) }

abbrev pub domain_count : List SubscriptionSet → ℕ
domain_count [] = 0
domain_count (s ∷ ss) = length s.domains + domain_count ss

-- snapshotRuleCount
unfoldable pub snapshot_rule_count : Snapshot → ℕ
snapshot_rule_count s = length s.rules + domain_count s.subscription_sets

-- regexpCount
unfoldable pub regexp_count : List WireRule → ℕ
regexp_count [] = 0
regexp_count (r ∷ rs) =
    if str_eq r.match_type "regexp" then suc (regexp_count rs) else regexp_count rs
