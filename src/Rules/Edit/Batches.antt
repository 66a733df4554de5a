-- ===== src/Rules/Edit/Batches.antt =====
-- What Batch and Import hand to publish.
use mosdns_controller.Base.{
  ℕ, ◌≤◌, ◌<◌, ◌≡◌, refl, ap, ◌∙◌, sym, inl, inr, String, Bool, true, false, not, List, [], ◌∷◌,
  ◌++◌, length, Option, none, some, str_eq, if◌then◌else◌, keep, arith, map, ◌||◌,
}
use mosdns_controller.Go.Result.{ok, Result-cases, reject_if-eq-ok}
use mosdns_controller.Rules.Types.{Rule}
use mosdns_controller.Rules.Store.{Env, World}
use mosdns_controller.Rules.Store.Ensures.{Holds, Reads, bind, read_then, now-Reads, lift-Reads}
use mosdns_controller.Rules.Publish.Steps.{validate_route_targets-Reads}
use mosdns_controller.Rules.Read.{
  is_subscription_rule, listed_rules, ids_after, last_id, next_id, counter_of,
}
use mosdns_controller.Rules.Edit.{
  id_mem, distinct_ids, Batched, operate, batch_rules, check_routes, operated_rules, number_rules,
  imported_rules, is_nil_ids,
}
use mosdns_controller.Rules.Edit.Steps.{
  OnlyCounter, numbered, reject_managed-ok, validate_route_write-Reads, all_rules-Reads,
  reserve_rule_ids-Holds,
}

abbrev pub is_selected : List ℕ → Rule → Bool
is_selected ids r = id_mem r.id ids

abbrev set_enabled : Bool → List ℕ → Rule → Rule
set_enabled b ids r = if is_selected ids r then record r { enabled = b } else r

-- The rules after an operation on the selected ones.
abbrev pub batched : String → List ℕ → List Rule → List Rule
batched operation ids rules =
    if str_eq operation "enable"
    then map (set_enabled true ids) rules
    else if str_eq operation "disable"
    then map (set_enabled false ids) rules
    else keep (λ r. not (is_selected ids r)) rules

abbrev pub is_operation : String → Bool
is_operation o = str_eq o "enable" || str_eq o "disable" || str_eq o "delete"

batch_rules-batched :
    (operation : String) (ids : List ℕ) (rules : List Rule) {b : Batched}
    → batch_rules operation ids rules ≡ ok b
    → (b.out ≡ batched operation ids rules) × (b.found ≡ length (keep (is_selected ids) rules))
unfolding batch_rules operate
batch_rules-batched operation ids [] e = ground arith
batch_rules-batched operation ids (r ∷ rs) e = elim (Result-cases (batch_rules operation ids rs)) [
  | inr (x, f) ↦ absurd (ground (arith, f))
  | inl (q, f) ↦ ground (arith, f, batch_rules-batched operation ids rs f)
]

-- An operation on a selected rule is one of the three.
batch_rules-operation :
    (operation : String) (ids : List ℕ) (rules : List Rule) {b : Batched}
    → batch_rules operation ids rules ≡ ok b
    → 0 < b.found
    → is_operation operation ≡ true
unfolding batch_rules operate
batch_rules-operation operation ids [] e h = absurd (ground arith)
batch_rules-operation operation ids (r ∷ rs) e h =
    elim (Result-cases (batch_rules operation ids rs)) [
      | inr (x, f) ↦ absurd (ground (arith, f))
      | inl (q, f) ↦ ground (arith, f, batch_rules-operation operation ids rs f)
    ]

distinct_ids-pos : (ids : List ℕ) → is_nil_ids ids ≡ false → 0 < length (distinct_ids ids)
unfolding distinct_ids
distinct_ids-pos [] h = cc
distinct_ids-pos (i ∷ is) h = grind arith

-- The incoming rules under their identifiers.
abbrev pub Imported : List Rule → List ℕ → List Rule → Type 0
Imported [] _ [] = Unit {0}
Imported [] _ (s ∷ ss) = ⊥
Imported (r ∷ rs) [] _ = ⊥
Imported (r ∷ rs) (i ∷ is) [] = ⊥
Imported (r ∷ rs) (i ∷ is) (s ∷ ss) =
    (is_subscription_rule r ≡ false)
    × ((at : ℕ) × (s ≡ numbered r i at "import"))
    × Imported rs is ss

module _ (env : Env) where
  check_routes-Reads :
      (w : World) (routes : List Rule) (expected : Option ℕ)
      → Reads w (λ _. Unit {0}) (check_routes env routes expected)
  check_routes-Reads w [] expected = record { outcome = (refl, tt) }
  check_routes-Reads w (r ∷ rs) none = record { outcome = refl }
  check_routes-Reads w (r ∷ rs) (some v) = validate_route_targets-Reads env w (r ∷ rs) (some v)

  -- Batch operates on the selected rules, of which there are as many as distinct identifiers.
  pub operated_rules-Reads :
      (w : World) (operation : String) (ids : List ℕ) (expected : Option ℕ)
      → Reads w
          (λ rules.
            (rules ≡ batched operation ids (listed_rules w.tables))
            × (is_operation operation ≡ true)
            × (length (keep (is_selected ids) (listed_rules w.tables)) ≡ length (distinct_ids ids)))
          (operated_rules env operation ids expected)
  unfolding operated_rules
  operated_rules-Reads w operation ids expected =
      read_then _ _ w refl (lift-Reads w _) λ _ w1 s1 some_id.
        read_then _ _ w1 s1 (all_rules-Reads env w1) λ rules w2 s2 listed.
          read_then _ _ w2 s2 (lift-Reads w2 _) λ b w3 s3 done.
            read_then _ _ w3 s3 (lift-Reads w3 _) λ _ w4 s4 counted.
              read_then _ _ w4 s4 (check_routes-Reads w4 b.routes expected) λ _ w5 s5 _.
                let k = batch_rules-batched operation ids rules done in
                let same : rules ≡ listed_rules w.tables = ground (arith, listed, s1) in
                record {
                  outcome = (
                    s5,
                    (
                      k.0 ∙ ap (batched operation ids) same,
                      batch_rules-operation operation ids rules done (
                          ground
                            (arith, counted, distinct_ids-pos ids (reject_if-eq-ok _ _ some_id))),
                      ap (λ rs. length (keep (is_selected ids) rs)) (sym same)
                          ∙ sym k.1
                          ∙ ground (arith, counted),
                    ),
                  );
                }

  number_rules-Imported :
      (incoming : List Rule) (first : ℕ) (w : World)
      → Reads w
          (λ out. Imported incoming (ids_after first (length incoming)) out)
          (number_rules env incoming (ids_after first (length incoming)))
  unfolding number_rules ids_after
  number_rules-Imported [] first w = record { outcome = (refl, tt) }
  number_rules-Imported (r ∷ rs) first w = read_then _ _ w refl (lift-Reads w _) λ _ w1 s1 free.
      read_then _ _ w1 s1 (now-Reads env w1) λ at w2 s2 _.
        read_then _ _ w2 s2 (number_rules-Imported rs (next_id first) w2)
          λ rest w3 s3 h3. record { outcome = (s3, (reject_managed-ok r free, (at, refl), h3)) }

  -- Import adds the incoming rules, under the next identifiers.
  pub imported_rules-Holds :
      (w : World) (incoming : List Rule)
      → Holds
          (λ rules u.
            (1 ≤ length incoming)
            × ((out : List Rule) × Imported incoming
                  (ids_after (counter_of w.tables) (length incoming))
                  out
                × (rules ≡ listed_rules w.tables ++ out))
            × (u.tables ≡ record (w.tables) {
              next_rule_id = some (last_id (counter_of w.tables) (length incoming));
            }))
          (λ e u. OnlyCounter w.tables u.tables)
          (imported_rules env incoming w)
  unfolding imported_rules
  imported_rules-Holds w incoming =
      bind _ _ _ (all_rules-Reads env w)
        (λ rules w1 h1.
          bind _ _ _ (validate_route_write-Reads env w1 incoming)
            (λ _ w2 h2.
              bind _ _ _ (reserve_rule_ids-Holds env w2 (length incoming))
                (λ ids w3 h3.
                  let same : w2.tables ≡ w.tables = h2.0 ∙ h1.0 in
                  let first = counter_of w.tables in
                  let is : ids ≡ ids_after first (length incoming) = ground (arith, h3.1, same) in
                  rw is (
                    bind _ _ _ (number_rules-Imported incoming first w3)
                      (λ out w4 h4. record {
                        outcome = (
                          h3.0,
                          (out, h4.1, ground (arith, h1.1)),
                          ground (arith, h4.0, h3.2, same),
                        );
                      })
                      (λ e w4 h4. ground (arith, h4, h3.2, same))))
                (λ e w3 h3. ground (arith, h3, h2.0, h1.0)))
            (λ e w2 h2. ground (arith, h2, h1.0)))
        (λ e w1 h1. ground (arith, h1))
