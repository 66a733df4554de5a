-- ===== src/Rules/Snapshot/Order.antt =====
-- The rules of a snapshot are the enabled rules, each once, in the published order.
use mathlib.Core.List.{Perm}
use mathlib.Core.List.Perm
use Prim.Native.String.{◌++◌ as append}
use mosdns_controller.Base.{
  ℕ, ◌≤◌, refl, subst, ◌≡◌, String, Bool, true, false, List, [], ◌∷◌, map, arith, str_eq, eq_iff,
  keep, Bool-cases, inl, inr,
}
use mosdns_controller.Go.Int.{ℤ, lt, eq, pos, negsuc}
use mosdns_controller.Go.Text.{text_lt}
use mosdns_controller.Go.Text.Order.{text_lt_asymm}
use mosdns_controller.Rules.Types.{Rule}
use mosdns_controller.Rules.Snapshot.{
  WireRule, SubscriptionSet, Canonical, to_wire, wire_less, insert_by, sort_by, build_snapshot,
}

module _ {ℓ} {A : Type ℓ} (less : A → A → Bool) where
  -- No element stands behind one that it must precede.
  abbrev pub IsSorted : List A → Type 0
  IsSorted [] = Unit {0}
  IsSorted (x ∷ []) = Unit {0}
  IsSorted (x ∷ y ∷ ys) = (less y x ≡ false) × IsSorted (y ∷ ys)

  insert_by-perm : (k : A) (xs : List A) → Perm (insert_by less k xs) (k ∷ xs)
  unfolding insert_by
  insert_by-perm k [] = Perm.refl _
  insert_by-perm k (x ∷ xs) = elim (Bool-cases (less x k)) [
    | inl e ↦ rw e (Perm.trans (Perm.cons x (insert_by-perm k xs)) (Perm.swap k x xs))
    | inr e ↦ rw e (Perm.refl _)
  ]

  pub sort_by-perm : (xs : List A) → Perm (sort_by less xs) xs
  unfolding sort_by
  sort_by-perm [] = Perm.refl _
  sort_by-perm (x ∷ xs) = Perm.trans (insert_by-perm x _) (Perm.cons x (sort_by-perm xs))

  module _ (asymm : (a b : A) → less a b ≡ true → less b a ≡ false) where
    insert_by-IsSorted : (k : A) (xs : List A) → IsSorted xs → IsSorted (insert_by less k xs)
    unfolding insert_by
    insert_by-IsSorted k [] h = tt
    insert_by-IsSorted k (x ∷ []) h = ground (arith, asymm x k)
    insert_by-IsSorted k (x ∷ y ∷ ys) h =
        ground (arith, asymm x k, insert_by-IsSorted k (y ∷ ys) h.1)

    pub sort_by-IsSorted : (xs : List A) → IsSorted (sort_by less xs)
    unfolding sort_by
    sort_by-IsSorted [] = tt
    sort_by-IsSorted (x ∷ xs) = insert_by-IsSorted x (sort_by less xs) (sort_by-IsSorted xs)

lt_asymm : (a b : ℤ) → lt a b ≡ true → lt b a ≡ false
lt_asymm (pos a) (pos b) h = ground arith
lt_asymm (pos a) (negsuc b) h = ground arith
lt_asymm (negsuc a) (pos b) h = ground arith
lt_asymm (negsuc a) (negsuc b) h = ground arith

eq_comm : (a b : ℤ) → eq a b ≡ eq b a
eq_comm (pos a) (pos b) = ground arith
eq_comm (pos a) (negsuc b) = ground arith
eq_comm (negsuc a) (pos b) = ground arith
eq_comm (negsuc a) (negsuc b) = ground arith

str_eq_comm : (a b : String) → str_eq a b ≡ str_eq b a
str_eq_comm a b = ground (arith, eq_iff a b, eq_iff b a)

wire_less_asymm : (a b : WireRule) → wire_less a b ≡ true → wire_less b a ≡ false
unfolding wire_less
wire_less_asymm a b h = ground (
  arith,
  str_eq_comm a.category b.category,
  str_eq_comm a.match_type b.match_type,
  str_eq_comm a.pattern b.pattern,
  eq_comm a.priority b.priority,
  lt_asymm a.priority b.priority,
  text_lt_asymm a.category b.category,
  text_lt_asymm a.match_type b.match_type,
  text_lt_asymm a.pattern b.pattern,
)

-- Two rules in the published order: by category, then by priority, match type, pattern and identifier.
pub record InOrder (a b : WireRule) : Type 0 where
  pub category : text_lt b.category a.category ≡ false
  pub priority : a.category ≡ b.category → lt b.priority a.priority ≡ false
  pub match_type :
      a.category ≡ b.category → a.priority ≡ b.priority → text_lt b.match_type a.match_type ≡ false
  pub pattern :
      a.category ≡ b.category
      → a.priority ≡ b.priority
      → a.match_type ≡ b.match_type
      → text_lt b.pattern a.pattern ≡ false
  pub id :
      a.category ≡ b.category
      → a.priority ≡ b.priority
      → a.match_type ≡ b.match_type
      → a.pattern ≡ b.pattern
      → a.id ≤ b.id

abbrev pub Ordered : List WireRule → Type 0
Ordered [] = Unit {0}
Ordered (x ∷ []) = Unit {0}
Ordered (x ∷ y ∷ ys) = InOrder x y × Ordered (y ∷ ys)

lt_irrefl : (a : ℤ) → lt a a ≡ false
lt_irrefl (pos a) = ground arith
lt_irrefl (negsuc a) = ground arith

eq_refl : (a : ℤ) → eq a a ≡ true
eq_refl (pos a) = ground arith
eq_refl (negsuc a) = ground arith

eq_of : (a b : ℤ) → eq a b ≡ true → a ≡ b
eq_of (pos a) (pos b) h = ground (arith, h)
eq_of (pos a) (negsuc b) h = absurd (ground (arith, h))
eq_of (negsuc a) (pos b) h = absurd (ground (arith, h))
eq_of (negsuc a) (negsuc b) h = ground (arith, h)

text_lt_irrefl : (a b : String) → a ≡ b → text_lt b a ≡ false
text_lt_irrefl a b e = elim (Bool-cases (text_lt b a)) [
  | inl h ↦ absurd (ground (arith, h, e, text_lt_asymm b a h))
  | inr h ↦ h
]

lt_of : (a b : ℤ) → a ≡ b → eq b a ≡ true
lt_of a b e = subst (λ b. eq b a ≡ true) e (eq_refl a)

wire_less-InOrder : (a b : WireRule) → wire_less b a ≡ false → InOrder a b
unfolding wire_less
wire_less-InOrder a b h =
    let c = eq_iff b.category a.category in
    let m = eq_iff b.match_type a.match_type in
    let p = eq_iff b.pattern a.pattern in
    record {
      category = ground (arith, h, c, text_lt_irrefl a.category b.category);
      priority = λ e. ground (arith, h, c, e, eq_of b.priority a.priority, lt_irrefl a.priority);
      match_type = λ e f. ground (
        arith,
        h,
        c,
        m,
        e,
        lt_of a.priority b.priority f,
        text_lt_irrefl a.match_type b.match_type,
      );
      pattern = λ e f g. ground (
        arith,
        h,
        c,
        m,
        p,
        e,
        g,
        lt_of a.priority b.priority f,
        text_lt_irrefl a.pattern b.pattern,
      );
      id = λ e f g i. ground (arith, h, c, m, p, e, g, i, lt_of a.priority b.priority f);
    }

IsSorted-Ordered : (rules : List WireRule) → IsSorted wire_less rules → Ordered rules
IsSorted-Ordered [] h = tt
IsSorted-Ordered (x ∷ []) h = tt
IsSorted-Ordered (x ∷ y ∷ ys) h = (wire_less-InOrder x y h.0, IsSorted-Ordered (y ∷ ys) h.1)

-- A snapshot carries the enabled rules, each exactly once, in the order of category, priority, match
-- type, pattern and identifier; its subscription sets are those given, and its checksum is that of
-- its content.
pub build_snapshot-rules :
    (encode : Canonical → String) (now version current : ℕ) (rules : List Rule)
    (sets : List SubscriptionSet)
    → let s = build_snapshot encode now version current rules sets in
      Perm s.rules (map to_wire (keep (λ r. r.enabled) rules))
      × Ordered s.rules
      × (s.subscription_sets ≡ sets)
      × (s.checksum ≡ append "sha256:" (encode s.content))
unfolding build_snapshot
build_snapshot-rules encode now version current rules sets = (
  sort_by-perm wire_less _,
  IsSorted-Ordered _ (sort_by-IsSorted wire_less wire_less_asymm _),
  refl,
  refl,
)
