-- ===== src/Ingest/Pages/Order.antt =====
-- controller/internal/queryingest/service.go: the order of the log, and the rows after a cursor.
use mosdns_controller.Base.{
  ℕ, zero, suc, ◌<◌, ◌≡◌, ◌≢◌, refl, ap, subst, sym, ◌∙◌, Bool, true, false, List, [], ◌∷◌, length,
  keep, keep-yes, keep-no, Option, none, some, ltb, All, arith, ◌⊎◌, inl, inr, Bool-cases,
}
use mosdns_controller.Go.Int.{ℤ, pos, negsuc, lt, eq}
use mosdns_controller.Ingest.Events.{StoredEvent}
use mosdns_controller.Ingest.Persist.Rows.{Rows}
use mosdns_controller.Ingest.Pages.{Key, key_of, newer, place_row, ordered, after_cursor}

lt_trans : (a b c : ℤ) → lt a b ≡ true → lt b c ≡ true → lt a c ≡ true
lt_trans (pos a) (pos b) (pos c) h k = ground (arith, h, k)
lt_trans (pos a) (pos b) (negsuc c) h k = absurd (ground (arith, k))
lt_trans (pos a) (negsuc b) c h k = absurd (ground (arith, h))
lt_trans (negsuc a) (pos b) (pos c) h k = refl
lt_trans (negsuc a) (pos b) (negsuc c) h k = absurd (ground (arith, k))
lt_trans (negsuc a) (negsuc b) (pos c) h k = refl
lt_trans (negsuc a) (negsuc b) (negsuc c) h k = ground (arith, h, k)

eq_sound : (a b : ℤ) → eq a b ≡ true → a ≡ b
eq_sound (pos a) (pos b) h = ground (arith, h)
eq_sound (pos a) (negsuc b) h = absurd (ground (arith, h))
eq_sound (negsuc a) (pos b) h = absurd (ground (arith, h))
eq_sound (negsuc a) (negsuc b) h = ground (arith, h)

lt_irreflexive : (a : ℤ) → lt a a ≡ false
lt_irreflexive (pos a) = ground arith
lt_irreflexive (negsuc a) = ground arith

trichotomy : (a b : ℤ) → (lt a b ≡ true) ⊎ (eq a b ≡ true) ⊎ (lt b a ≡ true)
trichotomy (pos a) (pos b) = ground arith
trichotomy (pos a) (negsuc b) = inr (inr refl)
trichotomy (negsuc a) (pos b) = inl refl
trichotomy (negsuc a) (negsuc b) = ground arith

eq_refl : (a : ℤ) → eq a a ≡ true
eq_refl (pos a) = ground arith
eq_refl (negsuc a) = ground arith

-- Either the time decides, or it is the same and the identifier does.
newer-cases :
    (a b : Key)
    → newer a b ≡ true
    → (lt b.timestamp_ms a.timestamp_ms ≡ true)
      ⊎ ((b.timestamp_ms ≡ a.timestamp_ms) × (b.id < a.id))
unfolding newer
newer-cases a b h = elim (Bool-cases (lt b.timestamp_ms a.timestamp_ms)) [
  | inl t ↦ inl t
  | inr f ↦
      inr (eq_sound b.timestamp_ms a.timestamp_ms (ground (arith, h, f)), ground (arith, h, f))
]

newer_by_time : (a b : Key) → lt b.timestamp_ms a.timestamp_ms ≡ true → newer a b ≡ true
unfolding newer
newer_by_time a b h = ground (arith, h)

newer_by_id : (a b : Key) → b.timestamp_ms ≡ a.timestamp_ms → b.id < a.id → newer a b ≡ true
unfolding newer
newer_by_id a b h k =
    let e : eq b.timestamp_ms a.timestamp_ms ≡ true =
      subst (λ t. eq b.timestamp_ms t ≡ true) h (eq_refl b.timestamp_ms) in
    ground (arith, e, k)

pub newer_trans : (a b c : Key) → newer a b ≡ true → newer b c ≡ true → newer a c ≡ true
newer_trans a b c h k = elim (newer-cases a b h) [
  | inl t ↦ elim (newer-cases b c k) [
    | inl s ↦ newer_by_time a c (lt_trans c.timestamp_ms b.timestamp_ms a.timestamp_ms s t)
    | inr (e, i) ↦ newer_by_time a c (subst (λ x. lt x a.timestamp_ms ≡ true) (sym e) t)
  ]
  | inr (e, i) ↦ elim (newer-cases b c k) [
    | inl s ↦ newer_by_time a c (subst (λ x. lt c.timestamp_ms x ≡ true) e s)
    | inr (f, j) ↦ newer_by_id a c (f ∙ e) (omega (arith, i, j))
  ]
]

pub newer_irreflexive : (a : Key) → newer a a ≡ false
unfolding newer
newer_irreflexive a = ground (arith, lt_irreflexive a.timestamp_ms)

pub newer_asymmetric : (a b : Key) → newer a b ≡ true → newer b a ≡ false
newer_asymmetric a b h = elim (Bool-cases (newer b a)) [
  | inr f ↦ f
  | inl k ↦ absurd (ground (arith, newer_trans a b a h k, newer_irreflexive a))
]

newer_total : (a b : Key) → a.id ≢ b.id → newer a b ≡ false → newer b a ≡ true
newer_total a b n h = elim (trichotomy a.timestamp_ms b.timestamp_ms) [
  | inl t ↦ newer_by_time b a t
  | inr (inl e) ↦ elim (Bool-cases (ltb a.id b.id)) [
    | inl i ↦ newer_by_id b a (eq_sound a.timestamp_ms b.timestamp_ms e) (ground (arith, i))
    | inr j ↦ absurd (
        ground (
          arith,
          h,
          newer_by_id a b (sym (eq_sound a.timestamp_ms b.timestamp_ms e)) (ground (arith, j, n)),
        ))
  ]
  | inr (inr t) ↦ absurd (ground (arith, h, newer_by_time a b t))
]

-- Each row comes before all that follow it.
abbrev pub Desc : List StoredEvent → Type 0
Desc [] = Unit {0}
Desc (x ∷ xs) = All (λ y. newer (key_of x) (key_of y) ≡ true) xs × Desc xs

pub place_row-All :
    (P : StoredEvent → Type 0) (e : StoredEvent) (rs : List StoredEvent)
    → P e
    → All P rs
    → All P (place_row e rs)
unfolding place_row
place_row-All P e [] h k = (h, tt)
place_row-All P e (r ∷ rs) h k = elim (Bool-cases (newer (key_of e) (key_of r))) [
  | inl b ↦ rw b (h, k)
  | inr b ↦ rw b (k.0, place_row-All P e rs h k.1)
]

pub ordered-All : (P : StoredEvent → Type 0) (rs : List StoredEvent) → All P rs → All P (ordered rs)
unfolding ordered
ordered-All P [] h = tt
ordered-All P (r ∷ rs) h = place_row-All P r (ordered rs) h.0 (ordered-All P rs h.1)

newer-All :
    (a b : Key) (rs : List StoredEvent)
    → newer a b ≡ true
    → All (λ y. newer b (key_of y) ≡ true) rs
    → All (λ y. newer a (key_of y) ≡ true) rs
newer-All a b [] h k = tt
newer-All a b (r ∷ rs) h k = (newer_trans a b (key_of r) h k.0, newer-All a b rs h k.1)

place_row-Desc :
    (e : StoredEvent) (rs : List StoredEvent)
    → All (λ r. e.id ≢ r.id) rs
    → Desc rs
    → Desc (place_row e rs)
unfolding place_row
place_row-Desc e [] h k = (tt, tt)
place_row-Desc e (r ∷ rs) h k = elim (Bool-cases (newer (key_of e) (key_of r))) [
  | inl b ↦ rw b ((b, newer-All (key_of e) (key_of r) rs b k.0), k)
  | inr b ↦ rw b (
    place_row-All (λ y. newer (key_of r) (key_of y) ≡ true) e rs
        (newer_total (key_of e) (key_of r) h.0 b) k.0,
    place_row-Desc e rs h.1 k.1,
  )
]

below-All :
    (r : StoredEvent) (rs : List StoredEvent)
    → All (λ s. (s.id < r.id) × (r.event_id ≢ s.event_id)) rs
    → All (λ s. r.id ≢ s.id) rs
below-All r [] h = tt
below-All r (s ∷ rs) h = (ground (arith, h.0), below-All r rs h.1)

pub ordered-Desc : (rs : List StoredEvent) → Rows rs → Desc (ordered rs)
unfolding ordered
ordered-Desc [] h = tt
ordered-Desc (r ∷ rs) h =
    place_row-Desc r (ordered rs) (ordered-All (λ s. r.id ≢ s.id) rs (below-All r rs h.0))
      (ordered-Desc rs h.1)

pub keep-All :
    (P : StoredEvent → Type 0) (p : StoredEvent → Bool) (xs : List StoredEvent)
    → All P xs
    → All P (keep p xs)
keep-All P p [] h = tt
keep-All P p (x ∷ xs) h = elim (Bool-cases (p x)) [
  | inl b ↦ subst (All P) (sym (keep-yes p x xs b)) (h.0, keep-All P p xs h.1)
  | inr b ↦ subst (All P) (sym (keep-no p x xs b)) (keep-All P p xs h.1)
]

pub keep-Desc : (p : StoredEvent → Bool) (xs : List StoredEvent) → Desc xs → Desc (keep p xs)
keep-Desc p [] h = tt
keep-Desc p (x ∷ xs) h = elim (Bool-cases (p x)) [
  | inl b ↦ subst Desc (sym (keep-yes p x xs b)) (keep-All _ p xs h.0, keep-Desc p xs h.1)
  | inr b ↦ subst Desc (sym (keep-no p x xs b)) (keep-Desc p xs h.1)
]

-- What is kept of rows that all come after the key.
keep-after :
    (k : Key) (xs : List StoredEvent)
    → All (λ y. newer k (key_of y) ≡ true) xs
    → keep (after_cursor (some k)) xs ≡ xs
keep-after k [] h = refl
keep-after k (x ∷ xs) h =
    keep-yes (after_cursor (some k)) x xs h.0 ∙ ap (λ ys. x ∷ ys) (keep-after k xs h.1)

abbrev pub drop : ℕ → List StoredEvent → List StoredEvent
drop zero xs = xs
drop (suc n) [] = []
drop (suc n) (x ∷ xs) = drop n xs

-- The (n+1)-th row, or `e` if there is none.
abbrev pub row_at : ℕ → StoredEvent → List StoredEvent → StoredEvent
row_at n e [] = e
row_at zero e (x ∷ xs) = x
row_at (suc n) e (x ∷ xs) = row_at n e xs

pub row_at-All :
    (P : StoredEvent → Type 0) (n : ℕ) (e : StoredEvent) (xs : List StoredEvent)
    → n < length xs
    → All P xs
    → P (row_at n e xs)
row_at-All P n e [] h k = absurd (omega (arith, h))
row_at-All P zero e (x ∷ xs) h k = k.0
row_at-All P (suc n) e (x ∷ xs) h k = row_at-All P n e xs (omega (arith, h)) k.1

-- The rows after the (n+1)-th one are those that follow it.
pub keep-drop :
    (n : ℕ) (e : StoredEvent) (xs : List StoredEvent)
    → n < length xs
    → Desc xs
    → keep (after_cursor (some (key_of (row_at n e xs)))) xs ≡ drop (suc n) xs
keep-drop n e [] h d = absurd (omega (arith, h))
keep-drop zero e (x ∷ xs) h d =
    keep-no (after_cursor (some (key_of x))) x xs (newer_irreflexive (key_of x))
    ∙ keep-after (key_of x) xs d.0
keep-drop (suc n) e (x ∷ xs) h d =
    let k = key_of (row_at n e xs) in
    let before =
      row_at-All (λ y. newer (key_of x) (key_of y) ≡ true) n e xs (omega (arith, h)) d.0 in
    keep-no (after_cursor (some k)) x xs (newer_asymmetric (key_of x) k before)
    ∙ keep-drop n e xs (omega (arith, h)) d.1

abbrev pub after_key : Option Key → Key → Bool
after_key none k = true
after_key (some c) k = newer c k

-- A later cursor makes an earlier one redundant.
pub keep-cursor :
    (cursor : Option Key) (k : Key) (xs : List StoredEvent)
    → after_key cursor k ≡ true
    → keep (after_cursor (some k)) (keep (after_cursor cursor) xs) ≡ keep (after_cursor (some k)) xs
keep-cursor cursor k [] h = refl
keep-cursor cursor k (x ∷ xs) h = elim (Bool-cases (after_cursor cursor x)) [
  | inl b ↦
      ap (keep (after_cursor (some k))) (keep-yes (after_cursor cursor) x xs b)
      ∙ elim (Bool-cases (newer k (key_of x))) [
        | inl c ↦
            keep-yes (after_cursor (some k)) x _ c
            ∙ ap (λ ys. x ∷ ys) (keep-cursor cursor k xs h)
            ∙ sym (keep-yes (after_cursor (some k)) x xs c)
        | inr c ↦
            keep-no (after_cursor (some k)) x _ c
            ∙ keep-cursor cursor k xs h
            ∙ sym (keep-no (after_cursor (some k)) x xs c)
      ]
  | inr b ↦
      ap (keep (after_cursor (some k))) (keep-no (after_cursor cursor) x xs b)
      ∙ keep-cursor cursor k xs h
      ∙ sym (keep-no (after_cursor (some k)) x xs (beyond cursor k x h b))
]
  where
    beyond :
        (cursor : Option Key) (k : Key) (x : StoredEvent)
        → after_key cursor k ≡ true
        → after_cursor cursor x ≡ false
        → newer k (key_of x) ≡ false
    beyond none k x h b = absurd (ground (arith, b))
    beyond (some c) k x h b = elim (Bool-cases (newer k (key_of x))) [
      | inr f ↦ f
      | inl t ↦ absurd (ground (arith, b, newer_trans c k (key_of x) h t))
    ]
