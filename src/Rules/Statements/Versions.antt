-- ===== src/Rules/Statements/Versions.antt =====
-- The rows of rule_versions: their greatest version, the active one, and updates of one row.
use mosdns_controller.Base.{
  ℕ, suc, ◌+◌, ◌≤◌, ◌<◌, ◌≡◌, refl, true, List, [], ◌∷◌, map, some, ◌==◌, if◌then◌else◌, All, arith,
  sym, subst,
}
use mosdns_controller.Rules.Store.{VersionRow}
use mosdns_controller.Rules.Statements.{
  is_active, max_version, find_active, update_version, supersede_row, find_version,
}

bounded_from : (rs : List VersionRow) (n : ℕ) → max_version rs ≤ n → All (λ r. r.version < n + 1) rs
unfolding max_version
bounded_from [] n h = tt
bounded_from (r ∷ rs) n h = (ground arith, bounded_from rs n (ground arith))

-- Every row is below the next version.
pub max_version-bound : (rs : List VersionRow) → All (λ r. r.version < max_version rs + 1) rs
max_version-bound rs = bounded_from rs (max_version rs) (omega arith)

-- No row has the version, so nothing is updated.
pub update_version_above :
    (v : ℕ) (f : VersionRow → VersionRow) (rs : List VersionRow)
    → All (λ r. r.version < v) rs
    → update_version v f rs ≡ rs
unfolding update_version
update_version_above v f [] h = refl
update_version_above v f (r ∷ rs) h = ground (arith, h.0, update_version_above v f rs h.1)

-- The only row of the version stands first.
pub update_version_head :
    (v : ℕ) (f : VersionRow → VersionRow) (r : VersionRow) (rs : List VersionRow)
    → r.version ≡ v
    → All (λ r. r.version < v) rs
    → update_version v f (r ∷ rs) ≡ f r ∷ rs
unfolding update_version
update_version_head v f r rs e h = ground (arith, update_version_above v f rs h)

pub supersede-bound :
    (v : ℕ) (rs : List VersionRow)
    → All (λ r. r.version < v) rs
    → All (λ r. r.version < v) (map supersede_row rs)
supersede-bound v [] h = tt
supersede-bound v (r ∷ rs) h = (ground (arith, h.0), supersede-bound v rs h.1)

-- How many rows are active.
unfoldable pub active_count : List VersionRow → ℕ
active_count [] = 0
active_count (r ∷ rs) = let n = active_count rs in if is_active r.status then suc n else n

pub active_count-supersede : (rs : List VersionRow) → active_count (map supersede_row rs) ≡ 0
unfolding active_count
active_count-supersede [] = refl
active_count-supersede (r ∷ rs) = ground (arith, active_count-supersede rs)

-- The rows stand in falling order of their versions, which are positive.
abbrev pub Descends : List VersionRow → Type 0
Descends [] = Unit {0}
Descends (r ∷ rs) = (0 < r.version) × All (λ s. s.version < r.version) rs × Descends rs

supersede-version : (r : VersionRow) → (supersede_row r).version ≡ r.version
supersede-version r = ground arith

below_eq :
    {m n : ℕ} (rs : List VersionRow)
    → m ≡ n
    → All (λ s. s.version < m) rs
    → All (λ s. s.version < n) rs
below_eq rs e = subst (λ n. All (λ s. s.version < n) rs) e

pub Descends-supersede : (rs : List VersionRow) → Descends rs → Descends (map supersede_row rs)
Descends-supersede [] h = tt
Descends-supersede (r ∷ rs) h =
    let same = supersede-version r in
    (
      ground (arith, h.0, same),
      below_eq _ (sym same) (supersede-bound r.version rs h.1),
      Descends-supersede rs h.2,
    )

-- An update that keeps the version of a row.
abbrev pub KeepsVersion : (VersionRow → VersionRow) → Type 0
KeepsVersion f = (r : VersionRow) → (f r).version ≡ r.version

update_version-bound :
    (v n : ℕ) (f : VersionRow → VersionRow) (rs : List VersionRow)
    → KeepsVersion f
    → All (λ r. r.version < n) rs
    → All (λ r. r.version < n) (update_version v f rs)
unfolding update_version
update_version-bound v n f [] k h = tt
update_version-bound v n f (r ∷ rs) k h =
    (ground (arith, h.0, k r), update_version-bound v n f rs k h.1)

pub update_version-Descends :
    (v : ℕ) (f : VersionRow → VersionRow) (rs : List VersionRow)
    → KeepsVersion f
    → Descends rs
    → Descends (update_version v f rs)
unfolding update_version
update_version-Descends v f [] k h = tt
update_version-Descends v f (r ∷ rs) k h =
    let same : (if r.version == v then f r else r).version ≡ r.version = ground (arith, k r) in
    (
      ground (arith, h.0, same),
      below_eq _ (sym same) (update_version-bound v r.version f rs k h.1),
      update_version-Descends v f rs k h.2,
    )

-- In falling order a version has one row, so to activate it leaves one active row.
pub active_count-update :
    (v : ℕ) (f : VersionRow → VersionRow) (rs : List VersionRow)
    → Descends rs
    → active_count rs ≡ 0
    → active_count (update_version v f rs) ≤ 1
unfolding active_count update_version
active_count-update v f [] d z = omega arith
active_count-update v f (r ∷ rs) d z = ground (
  arith,
  active_count-update v f rs d.2,
  update_version_above v f rs,
  below_eq {m = r.version} {n = v} rs,
)

-- And that row is the one that is found.
pub find_active-update :
    (v : ℕ) (f : VersionRow → VersionRow) (rs : List VersionRow) {row : VersionRow}
    → active_count rs ≡ 0
    → is_active (f row).status ≡ true
    → find_version v rs ≡ some row
    → find_active (update_version v f rs) ≡ some (f row)
unfolding active_count update_version find_active find_version
find_active-update v f [] z a e = cc
find_active-update v f (r ∷ rs) {row} z a e = ground (arith, find_active-update v f rs {row = row})

pub find_version-supersede :
    (v : ℕ) (rs : List VersionRow) {row : VersionRow}
    → find_version v rs ≡ some row
    → find_version v (map supersede_row rs) ≡ some (supersede_row row)
unfolding find_version
find_version-supersede v [] e = cc
find_version-supersede v (r ∷ rs) {row} e = ground (arith, find_version-supersede v rs {row = row})

pub find_version-version :
    (v : ℕ) (rs : List VersionRow) {row : VersionRow}
    → find_version v rs ≡ some row
    → row.version ≡ v
unfolding find_version
find_version-version v [] e = cc
find_version-version v (r ∷ rs) {row} e = ground (arith, find_version-version v rs {row = row})
