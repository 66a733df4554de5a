-- ===== src/Rules/Catalog/Rows.antt =====
-- Changes of the sources that take each other back.
use mosdns_controller.Base.{
  ℕ, ◌+◌, ◌<◌, ◌≤◌, ◌≡◌, refl, ◌∙◌, sym, subst, true, false, List, [], ◌∷◌, none, some, ◌==◌, ltb,
  any, All, arith, lt→ltb, Bool-cases, inl, inr,
}
use mosdns_controller.Rules.Store.{SourceRow}
use mosdns_controller.Rules.Catalog.{
  find_source, update_source, remove_source, place, has_id, has_binding, with_binding,
}

-- The identifiers rise along the rows.
abbrev pub Ascending : List SourceRow → Type 0
Ascending [] = Unit {0}
Ascending (r ∷ rs) = All (λ x. r.subscription.id < x.subscription.id) rs × Ascending rs

abbrev pub Above : ℕ → List SourceRow → Type 0
Above id rows = All (λ x. id < x.subscription.id) rows

abbrev pub KeepsId : (SourceRow → SourceRow) → Type 0
KeepsId f = (r : SourceRow) → (f r).subscription.id ≡ r.subscription.id

pub find_source-id :
    (id : ℕ) (rows : List SourceRow) (row : SourceRow)
    → find_source id rows ≡ some row
    → row.subscription.id ≡ id
unfolding find_source
find_source-id id [] row h = cc
find_source-id id (r ∷ rs) row h = elim (Bool-cases (r.subscription.id == id)) [
  | inl e ↦ ground arith
  | inr e ↦ find_source-id id rs row (ground arith)
]

pub update_source-absent :
    (id : ℕ) (f : SourceRow → SourceRow) (rows : List SourceRow)
    → Above id rows
    → update_source id f rows ≡ rows
unfolding update_source
update_source-absent id f [] h = refl
update_source-absent id f (r ∷ rs) h =
    let rest = update_source-absent id f rs h.1 in ground (arith, rest, h.0)

pub remove_source-absent :
    (id : ℕ) (rows : List SourceRow) → Above id rows → remove_source id rows ≡ rows
unfolding remove_source
remove_source-absent id [] h = refl
remove_source-absent id (r ∷ rs) h =
    let rest = remove_source-absent id rs h.1 in ground (arith, rest, h.0)

found-Above :
    (id : ℕ) (r : SourceRow) (rs : List SourceRow)
    → Ascending (r ∷ rs)
    → (r.subscription.id == id) ≡ true
    → Above id rs
found-Above id r rs h e = subst (λ n. Above n rs) (ground arith) h.0

-- Two changes of a found row are one.
pub update_source-twice :
    (id : ℕ) (f g h : SourceRow → SourceRow) (rows : List SourceRow) (row : SourceRow)
    → Ascending rows
    → find_source id rows ≡ some row
    → KeepsId f
    → g (f row) ≡ h row
    → update_source id g (update_source id f rows) ≡ update_source id h rows
unfolding update_source find_source
update_source-twice id f g h [] row a found kf b = refl
update_source-twice id f g h (r ∷ rs) row a found kf b =
    elim (Bool-cases (r.subscription.id == id)) [
      | inl e ↦
          let above = found-Above id r rs a e in
          let once = update_source-absent id f rs above in
          let twice = update_source-absent id g rs above in
          let other = update_source-absent id h rs above in
          let kept = kf r in
          let first : r ≡ row = ground (arith, found, e) in
          ground (arith, once, twice, other, kept, first, b, e)
      | inr e ↦
          let rest = update_source-twice id f g h rs row a.1 (ground (arith, found, e)) kf b in
          ground (arith, rest, e)
    ]

-- A change of a found row that is then changed back.
pub update_source-back :
    (id : ℕ) (f g : SourceRow → SourceRow) (rows : List SourceRow) (row : SourceRow)
    → Ascending rows
    → find_source id rows ≡ some row
    → KeepsId f
    → g (f row) ≡ row
    → update_source id g (update_source id f rows) ≡ rows
unfolding update_source find_source
update_source-back id f g [] row a h kf b = refl
update_source-back id f g (r ∷ rs) row a h kf b = elim (Bool-cases (r.subscription.id == id)) [
  | inl e ↦
      let above = found-Above id r rs a e in
      let once = update_source-absent id f rs above in
      let twice = update_source-absent id g rs above in
      let kept = kf r in
      let found : r ≡ row = ground arith in ground (arith, once, twice, kept, found, b, e)
  | inr e ↦
      let rest = update_source-back id f g rs row a.1 (ground arith) kf b in ground (arith, rest, e)
]

pub find_source-All :
    (P : SourceRow → Type 0) (id : ℕ) (rows : List SourceRow) (row : SourceRow)
    → All P rows
    → find_source id rows ≡ some row
    → P row
unfolding find_source
find_source-All P id [] row p h = cc
find_source-All P id (r ∷ rs) row p h = elim (Bool-cases (r.subscription.id == id)) [
  | inl e ↦ let found : r ≡ row = ground arith in subst P found p.0
  | inr e ↦ find_source-All P id rs row p.1 (ground arith)
]

place-first :
    (row : SourceRow) (rows : List SourceRow)
    → Above row.subscription.id rows
    → place row rows ≡ row ∷ rows
unfolding place
place-first row [] h = refl
place-first row (r ∷ rs) h = let first = lt→ltb _ _ h.0 in ground (arith, first)

pub update_source-same :
    (id : ℕ) (f : SourceRow → SourceRow) (rows : List SourceRow) (row : SourceRow)
    → Ascending rows
    → find_source id rows ≡ some row
    → f row ≡ row
    → update_source id f rows ≡ rows
unfolding update_source find_source
update_source-same id f [] row a h b = refl
update_source-same id f (r ∷ rs) row a h b = elim (Bool-cases (r.subscription.id == id)) [
  | inl e ↦
      let above = found-Above id r rs a e in
      let once = update_source-absent id f rs above in
      let found : r ≡ row = ground (arith, h, e) in ground (arith, once, found, b)
  | inr e ↦
      let rest = update_source-same id f rs row a.1 (ground (arith, h, e)) b in
      ground (arith, rest, e)
]

pub find_source-update :
    (id : ℕ) (f : SourceRow → SourceRow) (rows : List SourceRow) (row : SourceRow)
    → find_source id rows ≡ some row
    → KeepsId f
    → find_source id (update_source id f rows) ≡ some (f row)
unfolding find_source update_source
find_source-update id f [] row h kf = cc
find_source-update id f (r ∷ rs) row h kf = elim (Bool-cases (r.subscription.id == id)) [
  | inl e ↦
      let found : r ≡ row = ground (arith, h, e) in
      let kept : (f r).subscription.id ≡ r.subscription.id = kf r in ground (arith, found, e, kept)
  | inr e ↦
      let later : find_source id rs ≡ some row = ground (arith, h, e) in
      let rest = find_source-update id f rs row later kf in ground (arith, rest, e)
]

-- A deleted row is not among the others, and is put back in its place.
pub place-remove :
    (id : ℕ) (f : SourceRow → SourceRow) (rows : List SourceRow) (row : SourceRow)
    → Ascending rows
    → find_source id rows ≡ some row
    → KeepsId f
    → place (f row) (remove_source id rows) ≡ update_source id f rows
unfolding update_source find_source remove_source place
place-remove id f [] row a h kf = cc
place-remove id f (r ∷ rs) row a h kf = elim (Bool-cases (r.subscription.id == id)) [
  | inl e ↦
      let above = found-Above id r rs a e in
      let once = update_source-absent id f rs above in
      let gone = remove_source-absent id rs above in
      let found : r ≡ row = ground arith in
      let kept : (f row).subscription.id ≡ id = kf row ∙ find_source-id id (r ∷ rs) row h in
      let first = place-first (f row) rs (subst (λ n. Above n rs) (sym kept) above) in
      ground (arith, once, gone, found, e, first)
  | inr e ↦
      let later : find_source id rs ≡ some row = ground (arith, h, e) in
      let rest = place-remove id f rs row a.1 later kf in
      let below =
        find_source-All (λ x. r.subscription.id < x.subscription.id) id rs row a.0 later in
      let kept = kf row in ground (arith, rest, e, below, kept)
]

pub remove_source-gone :
    (id : ℕ) (rows : List SourceRow) → any (has_id id) (remove_source id rows) ≡ false
unfolding remove_source
remove_source-gone id [] = refl
remove_source-gone id (r ∷ rs) = let rest = remove_source-gone id rs in ground arith

pub remove_source-update :
    (id : ℕ) (f : SourceRow → SourceRow) (rows : List SourceRow)
    → KeepsId f
    → remove_source id (update_source id f rows) ≡ remove_source id rows
unfolding remove_source update_source
remove_source-update id f [] kf = refl
remove_source-update id f (r ∷ rs) kf =
    let rest = remove_source-update id f rs kf in let kept = kf r in ground (arith, rest, kept)

update_source-missing :
    (id : ℕ) (f : SourceRow → SourceRow) (rows : List SourceRow)
    → any (has_id id) rows ≡ false
    → update_source id f rows ≡ rows
unfolding update_source
update_source-missing id f [] h = refl
update_source-missing id f (r ∷ rs) h =
    let rest = update_source-missing id f rs (ground arith) in ground (arith, rest, h)

-- No row has an identifier that was not given out.
pub unused :
    (n : ℕ) (rows : List SourceRow)
    → All (λ r. r.subscription.id ≤ n) rows
    → any (has_id (n + 1)) rows ≡ false
unused n [] h = refl
unused n (r ∷ rs) h = let rest = unused n rs h.1 in ground (arith, rest, h.0)

remove_source-missing :
    (id : ℕ) (rows : List SourceRow) → any (has_id id) rows ≡ false → remove_source id rows ≡ rows
unfolding remove_source
remove_source-missing id [] h = refl
remove_source-missing id (r ∷ rs) h =
    let rest = remove_source-missing id rs (ground arith) in ground (arith, rest, h)

-- A row with a new identifier is put in and deleted.
pub remove_source-place :
    (row : SourceRow) (rows : List SourceRow)
    → any (has_id row.subscription.id) rows ≡ false
    → remove_source row.subscription.id (place row rows) ≡ rows
unfolding remove_source place
remove_source-place row [] h = ground arith
remove_source-place row (r ∷ rs) h =
    let rest = remove_source-place row rs (ground arith) in
    let missing = remove_source-missing row.subscription.id rs (ground arith) in
    elim (Bool-cases (ltb row.subscription.id r.subscription.id)) [
      | inl e ↦ rw e (ground (arith, missing, h))
      | inr e ↦ rw e (ground (arith, rest, h))
    ]

-- A row whose binding is gone is as good as gone to the other bindings.
pub any-unbound :
    (n id : ℕ) (rows : List SourceRow)
    → any (has_binding n) (update_source id (with_binding none) rows)
      ≡ any (has_binding n) (remove_source id rows)
unfolding update_source remove_source
any-unbound n id [] = refl
any-unbound n id (r ∷ rs) =
    let rest = any-unbound n id rs in
    elim (Bool-cases (r.subscription.id == id)) [
      | inl e ↦ rw e (ground (arith, rest))
      | inr e ↦ rw e (ground (arith, rest))
    ]

-- A change of the row that was put in under a new identifier.
pub update_source-place :
    (f : SourceRow → SourceRow) (row : SourceRow) (rows : List SourceRow)
    → any (has_id row.subscription.id) rows ≡ false
    → KeepsId f
    → update_source row.subscription.id f (place row rows) ≡ place (f row) rows
unfolding update_source place
update_source-place f row [] h kf = ground arith
update_source-place f row (r ∷ rs) h kf =
    let rest = update_source-place f row rs (ground arith) kf in
    let others = update_source-missing row.subscription.id f rs (ground arith) in
    let kept = kf row in
    elim (Bool-cases (ltb row.subscription.id r.subscription.id)) [
      | inl e ↦ rw (e, kept) (ground (arith, others, h, e))
      | inr e ↦ rw (e, kept) (ground (arith, rest, h, e))
    ]
