-- ===== src/Rules/Catalog.antt =====
-- The SQL statements of controller/internal/rules/subscriptions.go as functions of the sources, with
-- the keys and the CHECKs of controller/internal/storage/migrations.go.
pub mod Rows
pub mod Kept
use Prim.Native.Char.{code}
use mosdns_controller.Base.{
  ℕ, String, Bool, true, false, not, ◌&&◌, ◌||◌, List, [], ◌∷◌, Option, none, some, ◌==◌, str_eq,
  if◌then◌else◌, ltb, leb, any,
}
use mosdns_controller.Go.Result.{Result, ok, err, ◌>>=◌, database}
use mosdns_controller.Rules.Store.{Binding, Subscription, SourceRow, Sources, Tables}

-- SELECT … FROM rule_subscriptions … WHERE id=?
unfoldable pub find_source : ℕ → List SourceRow → Option SourceRow
find_source id [] = none
find_source id (r ∷ rs) = if r.subscription.id == id then some r else find_source id rs

-- UPDATE rule_subscriptions … WHERE id=?
unfoldable pub update_source : ℕ → (SourceRow → SourceRow) → List SourceRow → List SourceRow
update_source id f [] = []
update_source id f (r ∷ rs) =
    let rest = update_source id f rs in (if r.subscription.id == id then f r else r) ∷ rest

-- DELETE FROM rule_subscriptions WHERE id=?
unfoldable pub remove_source : ℕ → List SourceRow → List SourceRow
remove_source id [] = []
remove_source id (r ∷ rs) =
    let rest = remove_source id rs in if r.subscription.id == id then rest else r ∷ rest

-- A row in its place: the identifier is the row's number.
unfoldable pub place : SourceRow → List SourceRow → List SourceRow
place row [] = row ∷ []
place row (r ∷ rs) =
    let rest = place row rs in
    if ltb row.subscription.id r.subscription.id then row ∷ r ∷ rs else r ∷ rest

-- The CHECKs of rule_subscriptions.
unfoldable pub check_source : Subscription → Bool
check_source s =
    (str_eq s.category "access" && (str_eq s.action "allow" || str_eq s.action "block")
      || str_eq s.category "route" && str_eq s.action "upstream")
    && (str_eq s.kind "url" || str_eq s.kind "upload")
    && leb 900 s.refresh_interval_seconds
    && leb s.refresh_interval_seconds 2592000

-- trim(text) of SQL leaves nothing.
unfoldable pub is_blank : String → Bool
is_blank String.[] = true
is_blank (String.◌∷◌ c s) = code c == b' ' && is_blank s

-- The CHECKs of subscription_bindings.
abbrev pub check_binding : Binding → Bool
check_binding b = not (is_blank b.upstream_group_id) && leb b.priority 1000

abbrev pub larger : ℕ → ℕ → ℕ
larger a b = if ltb a b then b else a

abbrev pub has_id : ℕ → SourceRow → Bool
has_id id r = r.subscription.id == id

abbrev pub has_binding : ℕ → SourceRow → Bool
has_binding id r = elim r.subscription.binding [ none ↦ false | some b ↦ b.id == id ]

-- INSERT INTO rule_subscriptions
unfoldable pub insert_source : SourceRow → Sources → Result Sources
insert_source row s =
    if any (has_id row.subscription.id) s.rows || not (check_source row.subscription)
    then err database
    else ok (record s { rows = place row s.rows; sequence = larger s.sequence row.subscription.id })

abbrev pub with_binding : Option Binding → SourceRow → SourceRow
with_binding b r = record r { subscription = record (r.subscription) { binding = b } }

abbrev is_bound : Subscription → Bool
is_bound s = elim s.binding [ none ↦ false | some b ↦ true ]

-- INSERT INTO subscription_bindings: the subscription exists and has no binding.
unfoldable pub insert_binding : ℕ → Binding → Sources → Result Sources
insert_binding id b s = elim (find_source id s.rows) [
  | none ↦ err database
  | some r ↦
      if is_bound r.subscription || any (has_binding b.id) s.rows || not (check_binding b)
      then err database
      else ok (record s {
        rows = update_source id (with_binding (some b)) s.rows;
        binding_sequence = larger s.binding_sequence b.id;
      })
]

-- A statement on the sources as one on the tables.
abbrev pub on_sources : (Sources → Result Sources) → Tables → Result Tables
on_sources f t = f t.sources >>= λ s. ok (record t { sources = s })

abbrev pub on_rows : (List SourceRow → List SourceRow) → Tables → Result Tables
on_rows f t = ok (record t { sources = record (t.sources) { rows = f t.sources.rows } })
