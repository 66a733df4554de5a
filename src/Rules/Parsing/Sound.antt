-- ===== src/Rules/Parsing/Sound.antt =====
-- controller/internal/rules/subscriptions.go: what parseSubscription returns.
use mosdns_controller.Base.{
  ◌≡◌, ◌≢◌, ◌≤◌, subst, len, ◌⊎◌, inl, inr, String, true, false, List, [], ◌∷◌, eq_iff, All, arith,
  Bool-cases,
}
use mosdns_controller.Go.Text.{split_char, text_mem}
use mosdns_controller.Go.Result.{ok, Result-cases}
use mosdns_controller.Rules.Normalize.{Library}
use mosdns_controller.Rules.Parsing.{is_skipped, pattern_of, parse_lines, parse_subscription}

-- No pattern stands twice.
abbrev pub DistinctTexts : List String → Type 0
DistinctTexts [] = Unit {0}
DistinctTexts (p ∷ ps) = All (λ q. p ≢ q) ps × DistinctTexts ps

module _ (lib : Library) where
  -- Some line that is not skipped has the pattern.
  abbrev pub FromLine : List String → String → Type 0
  FromLine [] p = ⊥
  FromLine (raw ∷ rest) p =
      ((is_skipped raw ≡ false) × (pattern_of lib raw ≡ ok p)) ⊎ FromLine rest p

  -- Every line is skipped, or has a pattern that is in one of the two lists.
  abbrev pub Covered : List String → List String → List String → Type 0
  Covered [] seen out = Unit {0}
  Covered (raw ∷ rest) seen out =
      ((is_skipped raw ≡ true)
        ⊎ ((p : String) × (pattern_of lib raw ≡ ok p)
            × ((text_mem p seen ≡ true) ⊎ (text_mem p out ≡ true))))
      × Covered rest seen out

  abbrev Parsed : List String → List String → List String → Type 0
  Parsed seen lines out =
      All (λ p. text_mem p seen ≡ false) out
      × DistinctTexts out
      × Covered lines seen out
      × All (FromLine lines) out

  later :
      (raw : String) (lines ps : List String)
      → All (FromLine lines) ps
      → All (FromLine (raw ∷ lines)) ps
  later raw lines [] h = tt
  later raw lines (p ∷ ps) h = (inr h.0, later raw lines ps h.1)

  apart :
      (p : String) (seen ps : List String)
      → All (λ q. text_mem q (p ∷ seen) ≡ false) ps
      → All (λ q. text_mem q seen ≡ false) ps × All (λ q. p ≢ q) ps
  apart p seen [] h = (tt, tt)
  apart p seen (q ∷ qs) h =
      let (unseen, different) = apart p seen qs h.1 in
      ((ground (arith, h.0), unseen), (ground (arith, h.0, eq_iff p q), different))

  moved :
      (p : String) (lines seen out : List String)
      → Covered lines (p ∷ seen) out
      → Covered lines seen (p ∷ out)
  moved p [] seen out h = tt
  moved p (raw ∷ rest) seen out h = (shift h.0, moved p rest seen out h.1)
    where
      shift :
          (is_skipped raw ≡ true)
            ⊎ ((q : String) × (pattern_of lib raw ≡ ok q)
                × ((text_mem q (p ∷ seen) ≡ true) ⊎ (text_mem q out ≡ true)))
          → (is_skipped raw ≡ true)
            ⊎ ((q : String) × (pattern_of lib raw ≡ ok q)
                × ((text_mem q seen ≡ true) ⊎ (text_mem q (p ∷ out) ≡ true)))
      shift (inl e) = inl e
      shift (inr (q, e, m)) = inr (q, e, ground (arith, m))

  added :
      (p : String) (seen : List String) (raw : String) (rest ps : List String)
      → is_skipped raw ≡ false
      → pattern_of lib raw ≡ ok p
      → text_mem p seen ≡ false
      → Parsed (p ∷ seen) rest ps
      → Parsed seen (raw ∷ rest) (p ∷ ps)
  added p seen raw rest ps s f m (a, b, c, d) =
      let (unseen, different) = apart p seen ps a in
      let here : text_mem p (p ∷ ps) ≡ true = ground (arith, eq_iff p p) in
      (
        (m, unseen),
        (different, b),
        (inr (p, f, inr here), moved p rest seen ps c),
        (inl (s, f), later raw rest ps d),
      )

  parse_lines-Parsed :
      (seen lines : List String) {out : List String}
      → parse_lines lib seen lines ≡ ok out
      → Parsed seen lines out
  unfolding parse_lines
  parse_lines-Parsed seen [] {out} e =
      let same : [] ≡ out = ground (arith, e) in subst (Parsed seen []) same (tt, tt, tt, tt)
  parse_lines-Parsed seen (raw ∷ rest) {out} e = elim (Bool-cases (is_skipped raw)) [
    | inl s ↦
        let (a, b, c, d) = parse_lines-Parsed seen rest {out = out} (ground (arith, e, s)) in
        (a, b, (inl s, c), later raw rest out d)
    | inr s ↦ elim (Result-cases (pattern_of lib raw)) [
      | inr (x, f) ↦ absurd (ground (arith, e, s, f))
      | inl (p, f) ↦ elim (Bool-cases (text_mem p seen)) [
        | inl m ↦
            let (a, b, c, d) =
              parse_lines-Parsed seen rest {out = out} (ground (arith, e, s, f, m)) in
            (a, b, (inr (p, f, inl m), c), later raw rest out d)
        | inr m ↦ elim (Result-cases (parse_lines lib (p ∷ seen) rest)) [
          | inr (x, g) ↦ absurd (ground (arith, e, s, f, m, g))
          | inl (ps, g) ↦
              let same : p ∷ ps ≡ out = ground (arith, e, s, f, m, g) in
              subst (Parsed seen (raw ∷ rest)) same
                (added p seen raw rest ps s f m (parse_lines-Parsed (p ∷ seen) rest g))
        ]
      ]
    ]
  ]

  -- What parseSubscription returns is not empty; it has no pattern twice; each of its patterns is the
  -- normal form of a line that is neither blank nor a comment; every such line has its normal form
  -- in it; and the body has at most 20971520 bytes.
  pub parse_subscription_sound :
      (body : String) {out : List String}
      → parse_subscription lib body ≡ ok out
      → (out ≢ [])
        × DistinctTexts out
        × Covered (split_char body b'\n') [] out
        × All (FromLine (split_char body b'\n')) out
        × (len body ≤ 20971520)
  unfolding parse_subscription
  parse_subscription_sound body {out} e =
      elim (Result-cases (parse_lines lib [] (split_char body b'\n'))) [
        | inr (x, f) ↦ absurd (ground (arith, e, f))
        | inl (ps, f) ↦
            let (_, distinct, covered, sources) =
              parse_lines-Parsed [] (split_char body b'\n') {out = out} (ground (arith, e, f)) in
            (
              λ h. absurd (ground (arith, e, f, h)),
              distinct,
              covered,
              sources,
              ground (arith, e, f),
            )
      ]
