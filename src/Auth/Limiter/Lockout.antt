-- ===== src/Auth/Limiter/Lockout.antt =====
-- controller/internal/auth/ratelimit.go: whom the limiter locks out, and for how long.
use mosdns_controller.Base.{
  ℕ, zero, suc, ◌+◌, ◌<◌, ◌≡◌, ◌≢◌, refl, ap, ◌∙◌, String, Bool, true, List, [], ◌∷◌, length, keep,
  none, some, eq_iff, leb, arith, Bool-cases, inl, inr, Option-cases, ◌⊎◌, ◌++◌, str_eq,
  if◌then◌else◌, false,
}
use mosdns_controller.Auth.Limiter.{
  Event, asks, fails, succeeds, react, Entry, Attempt, max_entries, lockout, find, remove, put,
  allowed, bump, or_zero, remove_at, shrink, evict, make_room, record_failure, succeeded, is_over,
}

find-put : (key : String) (a : Attempt) (es : List Entry) → find key (put key a es) ≡ some a
unfolding put find
find-put key a es = ground (arith, eq_iff key key)

find-keep-none :
    (key : String) (p : Entry → Bool) (es : List Entry)
    → find key es ≡ none
    → find key (keep p es) ≡ none
unfolding find
find-keep-none key p [] h = refl
find-keep-none key p (e ∷ es) h = ground (arith, h, find-keep-none key p es)

find-remove_at-none :
    (key : String) (i : ℕ) (es : List Entry) → find key es ≡ none → find key (remove_at i es) ≡ none
unfolding find remove_at
find-remove_at-none key i [] h = refl
find-remove_at-none key zero (e ∷ es) h = ground (arith, h)
find-remove_at-none key (suc i) (e ∷ []) h = refl
find-remove_at-none key (suc i) (e ∷ f ∷ es) h =
    ground (arith, h, find-remove_at-none key i (f ∷ es))

find-removed : (key : String) (es : List Entry) → find key (remove key es) ≡ none
unfolding find remove
find-removed key [] = refl
find-removed key (e ∷ es) = ground (arith, find-removed key es)

-- Another key's entry is not affected by remove and put.
find-remove-other :
    (key other : String) (es : List Entry)
    → other ≢ key
    → find other (remove key es) ≡ find other es
unfolding find remove
find-remove-other key other [] ne = refl
find-remove-other key other (e ∷ es) ne =
    ground (arith, ne, find-remove-other key other es ne, eq_iff e.key key, eq_iff e.key other)

module _ (pick : List Entry → ℕ) where
  find-shrink-none :
      (key : String) (n : ℕ) (es : List Entry)
      → find key es ≡ none
      → find key (shrink pick n es) ≡ none
  unfolding shrink
  find-shrink-none key zero es h = h
  find-shrink-none key (suc n) es h = elim (Bool-cases (leb max_entries (length es))) [
    | inl b ↦ rw (b, shrink) (find-shrink-none key n _ (find-remove_at-none key (pick es) es h))
    | inr b ↦ rw (b, shrink) h
  ]

  find-evict-none :
      (key : String) (now : ℕ) (es : List Entry)
      → find key es ≡ none
      → find key (evict pick now es) ≡ none
  unfolding evict
  find-evict-none key now es h = find-shrink-none key _ _ (find-keep-none key _ es h)

  find-make_room :
      (key : String) (now : ℕ) (es : List Entry)
      → find key (make_room pick key now es) ≡ find key es
  unfolding make_room
  find-make_room key now es = elim (Option-cases (find key es)) [
    | inl e ↦ ground (arith, e, find-evict-none key now es e)
    | inr (a, e) ↦ ground (arith, e)
  ]

  find-record_failure :
      (key : String) (now : ℕ) (es : List Entry)
      → find key (record_failure pick key now es) ≡ some (bump now (or_zero (find key es)))
  unfolding record_failure
  find-record_failure key now es =
      find-put key _ (make_room pick key now es)
      ∙ ap (λ a. some (bump now (or_zero a))) (find-make_room key now es)

  -- The failures of one key, the latest first.
  abbrev pub failures : String → List ℕ → List Entry → List Entry
  failures key [] es = es
  failures key (t ∷ earlier) es = record_failure pick key t (failures key earlier es)

  abbrev tally : List ℕ → Attempt
  tally [] = or_zero none
  tally (t ∷ earlier) = bump t (tally earlier)

  find-failures :
      (key : String) (times : List ℕ) (es : List Entry)
      → find key es ≡ none
      → or_zero (find key (failures key times es)) ≡ tally times
  find-failures key [] es h = ap or_zero h
  find-failures key (t ∷ earlier) es h =
      ap or_zero (find-record_failure key t (failures key earlier es))
      ∙ ap (bump t) (find-failures key earlier es h)

  -- Fewer than five failures lock nobody out.
  few_failures :
      (times : List ℕ)
      → length times < 5
      → ((tally times).count ≡ length times) × ((tally times).until ≡ none)
  unfolding bump
  few_failures [] h = (refl, refl)
  few_failures (t ∷ earlier) h = ground (arith, h, few_failures earlier)

  allowed-until :
      (key : String) (now : ℕ) (es : List Entry)
      → (allowed key now es).0 ≡ is_over (or_zero (find key es)).until now
  unfolding allowed
  allowed-until key now es = elim (Option-cases (find key es)) [
    | inl e ↦ ground (arith, e)
    | inr (a, e) ↦ ground (arith, e)
  ]

  -- A key that the limiter does not know, and that fails fewer than five times, is allowed at any
  -- time.
  pub failures-allowed :
      (key : String) (times : List ℕ) (now : ℕ) (es : List Entry)
      → find key es ≡ none
      → length times < 5
      → (allowed key now (failures key times es)).0 ≡ true
  failures-allowed key times now es h few =
      allowed-until key now _
      ∙ ap (λ a. is_over a.until now) (find-failures key times es h)
      ∙ ap (λ u. is_over u now) (few_failures times few).1

  -- A failure of one key leaves the entry of every other key as it was, while there is room.
  pub record_failure-others :
      (key other : String) (now : ℕ) (es : List Entry)
      → other ≢ key
      → length es < max_entries
      → find other (record_failure pick key now es) ≡ find other es
  unfolding record_failure make_room put find
  record_failure-others key other now es ne room =
      ground (arith, ne, room, eq_iff key other, find-remove-other key other es ne)

  -- The limiter after events, the latest first, from the entries `es` on.
  abbrev pub events_from : List Event → List Entry → List Entry
  events_from [] es = es
  events_from (e ∷ earlier) es = react pick e (events_from earlier es)

  -- The times at which a key failed.
  abbrev pub failed_at : String → List Event → List ℕ
  failed_at key [] = []
  failed_at key (asks k now ∷ earlier) = failed_at key earlier
  failed_at key (fails k now ∷ earlier) =
      if str_eq k key then now ∷ failed_at key earlier else failed_at key earlier
  failed_at key (succeeds k ∷ earlier) = failed_at key earlier

  -- The key does not succeed; it is not asked for after its fifth failure, but where it is refused;
  -- and another key fails only while there is room.
  abbrev pub Undisturbed : String → List Event → List Entry → Type 0
  Undisturbed key [] es = Unit {0}
  Undisturbed key (asks k now ∷ earlier) es =
      (k ≡ key
        → (length (failed_at key earlier) < 5)
          ⊎ ((allowed key now (events_from earlier es)).0 ≡ false))
      × Undisturbed key earlier es
  Undisturbed key (fails k now ∷ earlier) es =
      (k ≢ key → length (events_from earlier es) < max_entries) × Undisturbed key earlier es
  Undisturbed key (succeeds k ∷ earlier) es = (k ≢ key) × Undisturbed key earlier es

  -- A refusal, and an answer for a key with no lock, leave the entries as they are.
  allowed-keeps :
      (key : String) (now : ℕ) (es : List Entry)
      → ((or_zero (find key es)).until ≡ none) ⊎ ((allowed key now es).0 ≡ false)
      → (allowed key now es).1 ≡ es
  unfolding allowed
  allowed-keeps key now es h = elim (Option-cases (find key es)) [
    | inl e ↦ ground (arith, e)
    | inr (a, e) ↦ elim (Option-cases a.until) [
      | inl n ↦ ground (arith, e, n)
      | inr (u, n) ↦ ground (arith, e, n, h)
    ]
  ]

  allowed-others :
      (key other : String) (now : ℕ) (es : List Entry)
      → other ≢ key
      → find other (allowed key now es).1 ≡ find other es
  unfolding allowed
  allowed-others key other now es ne = elim (Option-cases (find key es)) [
    | inl e ↦ ground (arith, e)
    | inr (a, e) ↦ elim (Option-cases a.until) [
      | inl n ↦ ground (arith, e, n)
      | inr (u, n) ↦ ground (arith, e, n, find-remove-other key other es ne)
    ]
  ]

  find-events :
      (key : String) (events : List Event) (es : List Entry)
      → find key es ≡ none
      → Undisturbed key events es
      → or_zero (find key (events_from events es)) ≡ tally (failed_at key events)
  unfolding react succeeded
  find-events key [] es h q = ap or_zero h
  find-events key (asks k now ∷ earlier) es h q =
      let before = find-events key earlier es h q.1 in
      elim (Bool-cases (str_eq k key)) [
        | inl b ↦
            let same : k ≡ key = ground (arith, b, eq_iff k key) in
            let kept : (allowed key now (events_from earlier es)).1 ≡ events_from earlier es =
              allowed-keeps key now _ (elim (q.0 same) [
                | inl few ↦ inl (ap (λ a. a.until) before ∙ (few_failures _ few).1)
                | inr refused ↦ inr refused
              ]) in
            ap (λ k. or_zero (find key (allowed k now (events_from earlier es)).1)) same
            ∙ ap (λ es. or_zero (find key es)) kept
            ∙ before
        | inr b ↦
            ap or_zero (
              allowed-others k key now (events_from earlier es)
                (λ e. ground (arith, b, e, eq_iff k key)))
            ∙ before
      ]
  find-events key (fails k now ∷ earlier) es h q =
      let before = find-events key earlier es h q.1 in
      elim (Bool-cases (str_eq k key)) [
        | inl b ↦
            let same : k ≡ key = ground (arith, b, eq_iff k key) in
            rw b (
              ap (λ k. or_zero (find key (record_failure pick k now (events_from earlier es)))) same
              ∙ ap or_zero (find-record_failure key now (events_from earlier es))
              ∙ ap (bump now) before)
        | inr b ↦ rw b (
            ap or_zero (
              record_failure-others k key now (events_from earlier es)
                (λ e. ground (arith, b, e, eq_iff k key))
                (q.0 (λ e. ground (arith, b, e, eq_iff k key))))
            ∙ before)
      ]
  find-events key (succeeds k ∷ earlier) es h q =
      ap or_zero (find-remove-other k key (events_from earlier es) (λ e. ground (arith, e, q.0)))
      ∙ find-events key earlier es h q.1

  -- The fifth failure locks, and the next four do not move the lock.
  tally-locked :
      (more : List ℕ) (last : ℕ) (earlier : List ℕ)
      → length earlier ≡ 4
      → length more < 5
      → ((tally (more ++ last ∷ earlier)).count ≡ length more)
        × ((tally (more ++ last ∷ earlier)).until ≡ some (last + lockout))
  unfolding bump
  tally-locked [] last earlier four few =
      ground (arith, few_failures earlier (omega (arith, four)), four)
  tally-locked (t ∷ more) last earlier four few =
      ground (arith, few, tally-locked more last earlier four (omega (arith, few)))

  -- A key that the limiter does not know, and that fails five to nine times, is refused for five
  -- minutes from its fifth failure on, and allowed from then on, whatever else the limiter is told in
  -- between: other keys are asked for, succeed, and fail while there is room; the key itself is asked
  -- for, but after its fifth failure only where it is refused, and does not succeed.
  pub failures-locked :
      (key : String) (last now : ℕ) (more earlier : List ℕ) (events : List Event) (es : List Entry)
      → find key es ≡ none
      → Undisturbed key events es
      → failed_at key events ≡ more ++ last ∷ earlier
      → length earlier ≡ 4
      → length more < 5
      → (allowed key now (events_from events es)).0 ≡ leb (last + lockout) now
  failures-locked key last now more earlier events es h quiet times four few =
      allowed-until key now _
      ∙ ap (λ a. is_over a.until now) (find-events key events es h quiet ∙ ap tally times)
      ∙ ap (λ u. is_over u now) (tally-locked more last earlier four few).1

-- A success forgets the failures of its key, and of no other.
pub find-succeeded :
    (key other : String) (es : List Entry)
    → other ≢ key
    → (find key (succeeded key es) ≡ none) × (find other (succeeded key es) ≡ find other es)
unfolding succeeded
find-succeeded key other es ne = (find-removed key es, find-remove-other key other es ne)
