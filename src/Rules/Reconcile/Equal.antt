-- ===== src/Rules/Reconcile/Equal.antt =====
-- controller/internal/rules/service.go: what subscriptionSetsEqual accepts.
use mosdns_controller.Base.{◌≡◌, refl, ap₂, true, String, List, [], ◌∷◌, eq_iff, arith}
use mosdns_controller.Rules.Snapshot.{SubscriptionSet}
use mosdns_controller.Rules.Reconcile.{texts_eq, set_eq, sets_eq}

texts_eq-eq : (xs ys : List String) → texts_eq xs ys ≡ true → xs ≡ ys
texts_eq-eq [] [] h = refl
texts_eq-eq [] (y ∷ ys) h = absurd (ground (arith, h))
texts_eq-eq (x ∷ xs) [] h = absurd (ground (arith, h))
texts_eq-eq (x ∷ xs) (y ∷ ys) h =
    ap₂ (λ z zs. z ∷ zs) (ground (arith, h, eq_iff x y)) (texts_eq-eq xs ys (ground (arith, h)))

set_eq-eq : (a b : SubscriptionSet) → set_eq a b ≡ true → a ≡ b
unfolding set_eq
set_eq-eq a b h = ground (
  arith,
  h,
  eq_iff a.source_name b.source_name,
  eq_iff a.category b.category,
  eq_iff a.action b.action,
  eq_iff a.upstream_group_id b.upstream_group_id,
  texts_eq-eq a.domains b.domains,
)

-- Lists that the comparison accepts are equal.
pub sets_eq-eq : (as' bs : List SubscriptionSet) → sets_eq as' bs ≡ true → as' ≡ bs
unfolding sets_eq
sets_eq-eq [] [] h = refl
sets_eq-eq [] (b ∷ bs) h = absurd (ground (arith, h))
sets_eq-eq (a ∷ as') [] h = absurd (ground (arith, h))
sets_eq-eq (a ∷ as') (b ∷ bs) h =
    ap₂ (λ c cs. c ∷ cs) (set_eq-eq a b (ground (arith, h))) (sets_eq-eq as' bs (ground (arith, h)))
