-- ===== src/Auth/Limiter/Bounds.antt =====
-- controller/internal/auth/ratelimit.go: the size of the map of failures.
use mosdns_controller.Base.{
  ◌⊎◌, ℕ, zero, suc, ◌+◌, ◌≤◌, ◌<◌, ◌≡◌, ◌≢◌, refl, String, Bool, List, [], ◌∷◌, length, keep,
  Option, none, some, str_eq, eq_iff, leb, arith, All, Bool-cases, inl, inr, length-keep-le,
  Option-cases,
}
use mosdns_controller.Auth.Limiter.{
  Entry, Attempt, max_entries, find, remove, put, allowed, answer_for, bump, or_zero, remove_at,
  shrink, evict, make_room, record_failure, succeeded, Event, asks, fails, succeeds, react,
  after_events,
}

-- No two entries have one key.
abbrev pub DistinctKeys : List Entry → Type 0
DistinctKeys [] = Unit {0}
DistinctKeys (e ∷ es) = All (λ f. e.key ≢ f.key) es × DistinctKeys es

-- A map of at most 4096 entries.
pub record IsBounded (es : List Entry) : Type 0 where
  pub size : length es ≤ max_entries
  pub distinct : DistinctKeys es

All-keep : (P : Entry → Type 0) (p : Entry → Bool) (es : List Entry) → All P es → All P (keep p es)
All-keep P p [] h = tt
All-keep P p (e ∷ es) h = elim (Bool-cases (p e)) [
  | inl b ↦ rw (b, All) (h.0, All-keep P p es h.1)
  | inr b ↦ rw (b, All) (All-keep P p es h.1)
]

keep-DistinctKeys :
    (p : Entry → Bool) (es : List Entry) → DistinctKeys es → DistinctKeys (keep p es)
keep-DistinctKeys p [] h = tt
keep-DistinctKeys p (e ∷ es) h = elim (Bool-cases (p e)) [
  | inl b ↦ rw (b, DistinctKeys) (All-keep _ p es h.0, keep-DistinctKeys p es h.1)
  | inr b ↦ rw (b, DistinctKeys) (keep-DistinctKeys p es h.1)
]

All-remove_at : (P : Entry → Type 0) (i : ℕ) (es : List Entry) → All P es → All P (remove_at i es)
unfolding remove_at
All-remove_at P i [] h = tt
All-remove_at P zero (e ∷ es) h = h.1
All-remove_at P (suc i) (e ∷ []) h = tt
All-remove_at P (suc i) (e ∷ f ∷ es) h = (h.0, All-remove_at P i (f ∷ es) h.1)

remove_at-DistinctKeys : (i : ℕ) (es : List Entry) → DistinctKeys es → DistinctKeys (remove_at i es)
unfolding remove_at
remove_at-DistinctKeys i [] h = tt
remove_at-DistinctKeys zero (e ∷ es) h = h.1
remove_at-DistinctKeys (suc i) (e ∷ []) h = tt
remove_at-DistinctKeys (suc i) (e ∷ f ∷ es) h =
    (All-remove_at _ i (f ∷ es) h.0, remove_at-DistinctKeys i (f ∷ es) h.1)

length-remove_at : (i : ℕ) (e : Entry) (es : List Entry) → length (remove_at i (e ∷ es)) ≡ length es
unfolding remove_at
length-remove_at zero e es = refl
length-remove_at (suc i) e [] = refl
length-remove_at (suc i) e (f ∷ es) = ground (arith, length-remove_at i f es)

removed_apart : (key : String) (es : List Entry) → All (λ f. key ≢ f.key) (remove key es)
unfolding remove
removed_apart key [] = tt
removed_apart key (e ∷ es) = elim (Bool-cases (str_eq e.key key)) [
  | inl b ↦ rw (b, All) (removed_apart key es)
  | inr b ↦ rw (b, All) (ground (arith, b, eq_iff e.key key), removed_apart key es)
]

length-remove-le : (key : String) (es : List Entry) → length (remove key es) ≤ length es
unfolding remove
length-remove-le key es = length-keep-le _ es

remove-IsBounded : (key : String) (es : List Entry) → IsBounded es → IsBounded (remove key es)
unfolding remove
remove-IsBounded key es h = record {
  size = omega (arith, h.size, length-remove-le key es);
  distinct = keep-DistinctKeys _ es h.distinct;
}

put-DistinctKeys :
    (key : String) (a : Attempt) (es : List Entry) → DistinctKeys es → DistinctKeys (put key a es)
unfolding put remove
put-DistinctKeys key a es h = (removed_apart key es, keep-DistinctKeys _ es h)

-- A key that is there leaves its place to the new entry.
length-put-found :
    (key : String) (a b : Attempt) (es : List Entry)
    → find key es ≡ some b
    → length (put key a es) ≤ length es
unfolding put remove find
length-put-found key a b [] h = absurd (ground arith)
length-put-found key a b (e ∷ es) h = elim (Bool-cases (str_eq e.key key)) [
  | inl c ↦ ground (arith, c, length-remove-le key es)
  | inr c ↦ ground (arith, c, h, length-put-found key a b es)
]

length-put-le :
    (key : String) (a : Attempt) (es : List Entry) → length (put key a es) ≤ length es + 1
unfolding put
length-put-le key a es = omega (arith, length-remove-le key es)

answer_for-IsBounded :
    (key : String) (now : ℕ) (es : List Entry) (found : Option Attempt)
    → IsBounded es
    → IsBounded (answer_for key now es found).1
answer_for-IsBounded key now es none h = h
answer_for-IsBounded key now es (some a) h = elim (Option-cases a.until) [
  | inl e ↦ rw e h
  | inr (u, e) ↦ elim (Bool-cases (leb u now)) [
    | inl b ↦ rw (e, b) (remove-IsBounded key es h)
    | inr b ↦ rw (e, b) h
  ]
]

module _ (pick : List Entry → ℕ) where
  shrink-DistinctKeys :
      (n : ℕ) (es : List Entry) → DistinctKeys es → DistinctKeys (shrink pick n es)
  unfolding shrink
  shrink-DistinctKeys zero es h = h
  shrink-DistinctKeys (suc n) es h = elim (Bool-cases (leb max_entries (length es))) [
    | inl b ↦ rw (b, shrink) (shrink-DistinctKeys n _ (remove_at-DistinctKeys (pick es) es h))
    | inr b ↦ rw (b, shrink) h
  ]

  -- The fuel is enough: the second loop of evict ends below the bound.
  length-shrink :
      (n : ℕ) (es : List Entry)
      → length es < n + max_entries
      → length (shrink pick n es) < max_entries
  unfolding shrink
  length-shrink zero es h = h
  length-shrink (suc n) [] h = ground arith
  length-shrink (suc n) (e ∷ es) h = elim (Bool-cases (leb max_entries (length (e ∷ es)))) [
    | inl b ↦
        rw (b, shrink) (length-shrink n _ (omega (arith, h, length-remove_at (pick (e ∷ es)) e es)))
    | inr b ↦ rw (b, shrink) (ground (arith, b))
  ]

  evict-DistinctKeys :
      (now : ℕ) (es : List Entry) → DistinctKeys es → DistinctKeys (evict pick now es)
  unfolding evict
  evict-DistinctKeys now es h = shrink-DistinctKeys _ _ (keep-DistinctKeys _ es h)

  length-evict : (now : ℕ) (es : List Entry) → length (evict pick now es) < max_entries
  unfolding evict
  length-evict now es = length-shrink _ _ (omega arith)

  make_room-DistinctKeys :
      (key : String) (now : ℕ) (es : List Entry)
      → DistinctKeys es
      → DistinctKeys (make_room pick key now es)
  unfolding make_room
  make_room-DistinctKeys key now es h = ground (arith, h, evict-DistinctKeys now es h)

  -- The key is there already, or there is room for it.
  length-make_room :
      (key : String) (now : ℕ) (es : List Entry)
      → length es ≤ max_entries
      → (length (make_room pick key now es) < max_entries)
        ⊎ ((a : Attempt) × (make_room pick key now es ≡ es) × (find key es ≡ some a))
  unfolding make_room
  length-make_room key now es h = elim (Option-cases (find key es)) [
    | inr (a, e) ↦ inr (a, ground (arith, e), e)
    | inl e ↦ inl (ground (arith, e, length-evict now es))
  ]

  length-record_failure :
      (key : String) (now : ℕ) (es : List Entry)
      → length es ≤ max_entries
      → length (record_failure pick key now es) ≤ max_entries
  unfolding record_failure
  length-record_failure key now es h = elim (length-make_room key now es h) [
    | inl room ↦ omega (
      arith,
      room,
      length-put-le key (bump now (or_zero (find key (make_room pick key now es))))
          (make_room pick key now es),
    )
    | inr (a, same, found) ↦
        let b = bump now (or_zero (find key es)) in
        rw same (omega (arith, h, length-put-found key b a es found))
  ]

  record_failure-IsBounded :
      (key : String) (now : ℕ) (es : List Entry)
      → IsBounded es
      → IsBounded (record_failure pick key now es)
  unfolding record_failure
  record_failure-IsBounded key now es h = record {
    size = length-record_failure key now es h.size;
    distinct = put-DistinctKeys key _ _ (make_room-DistinctKeys key now es h.distinct);
  }

  react-IsBounded : (e : Event) (es : List Entry) → IsBounded es → IsBounded (react pick e es)
  unfolding react succeeded allowed
  react-IsBounded (fails key now) es h = record_failure-IsBounded key now es h
  react-IsBounded (succeeds key) es h = remove-IsBounded key es h
  react-IsBounded (asks key now) es h = answer_for-IsBounded key now es (find key es) h

  -- Whatever logins are asked for, fail and succeed, the limiter has at most 4096 entries, and one at
  -- most for each key.
  pub after_events-IsBounded : (es : List Event) → IsBounded (after_events pick es)
  unfolding after_events
  after_events-IsBounded [] = record { size = omega arith; distinct = tt }
  after_events-IsBounded (e ∷ earlier) = react-IsBounded e _ (after_events-IsBounded earlier)
