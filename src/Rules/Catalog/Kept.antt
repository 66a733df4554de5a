-- ===== src/Rules/Catalog/Kept.antt =====
-- The invariant of the sources, which every statement keeps.
use mosdns_controller.Base.{
  ℕ, ◌≤◌, ◌≡◌, refl, sym, subst, Bool, true, false, List, [], ◌∷◌, some, ◌==◌, any, All, All-weaken,
  arith, Bool-cases, inl, inr,
}
use mosdns_controller.Rules.Store.{Binding, SourceRow, Sources}
use mosdns_controller.Rules.Catalog.{
  find_source, remove_source, has_binding, check_source, check_binding,
}
use mosdns_controller.Rules.Catalog.Rows.{Ascending, find_source-All}

-- What holds of a row on its own: the CHECKs, and the identifiers were given out.
pub record Sound (sequence binding_sequence : ℕ) (r : SourceRow) : Type 0 where
  pub fresh : r.subscription.id ≤ sequence
  pub checked : check_source r.subscription ≡ true
  pub bound :
      (b : Binding)
      → r.subscription.binding ≡ some b
      → (check_binding b ≡ true) × (b.id ≤ binding_sequence)

-- Two rows have no binding in common.
abbrev pub Apart : SourceRow → SourceRow → Type 0
Apart r x = (n : ℕ) → has_binding n r ≡ true → has_binding n x ≡ false

abbrev pub Unshared : List SourceRow → Type 0
Unshared [] = Unit {0}
Unshared (r ∷ rs) = All (Apart r) rs × Unshared rs

-- The identifiers rise and were given out, every row passes the CHECKs, and no two rows share the
-- identifier of a binding.
pub record IsCatalog (s : Sources) : Type 0 where
  pub ascending : Ascending s.rows
  pub sound : All (Sound s.sequence s.binding_sequence) s.rows
  pub unshared : Unshared s.rows

any-remove :
    (p : SourceRow → Bool) (id : ℕ) (rows : List SourceRow)
    → All (λ x. p x ≡ false) rows
    → any p (remove_source id rows) ≡ false
unfolding remove_source
any-remove p id [] h = refl
any-remove p id (r ∷ rs) h = let rest = any-remove p id rs h.1 in ground (arith, rest, h.0)

-- No other row has the binding of a found row.
pub Unshared-remove :
    (id : ℕ) (rows : List SourceRow) (row : SourceRow) (n : ℕ)
    → Unshared rows
    → find_source id rows ≡ some row
    → has_binding n row ≡ true
    → any (has_binding n) (remove_source id rows) ≡ false
unfolding find_source remove_source
Unshared-remove id [] row n u h b = refl
Unshared-remove id (r ∷ rs) row n u h b = elim (Bool-cases (r.subscription.id == id)) [
  | inl e ↦
      let found : r ≡ row = ground (arith, h, e) in
      let others : All (λ x. has_binding n x ≡ false) rs =
        All-weaken rs (λ x a. a n (subst (λ y. has_binding n y ≡ true) (sym found) b)) u.0 in
      rw e (any-remove (has_binding n) id rs others)
  | inr e ↦
      let later : find_source id rs ≡ some row = ground (arith, h, e) in
      let rest = Unshared-remove id rs row n u.1 later b in
      let apart = find_source-All (Apart r) id rs row u.0 later in
      elim (Bool-cases (has_binding n r)) [
        | inl k ↦ absurd (ground (arith, apart n k, b))
        | inr k ↦ rw e (ground (arith, rest, k))
      ]
]
