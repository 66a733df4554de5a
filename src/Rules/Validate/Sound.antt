-- ===== src/Rules/Validate/Sound.antt =====
-- What validateRules guarantees of the rules that it accepts.
use mosdns_controller.Base.{
  ℕ, ◌≡◌, ◌≢◌, refl, ◌≤◌, ◌+◌, inl, inr, String, len, count, eq_iff, true, false, List, [], ◌∷◌,
  length, arith, All, ◌&&◌, str_eq, Bool-cases, subst, ap, sym,
}
use mosdns_controller.Go.Int.{Within}
use mosdns_controller.Go.Text.{trim_space, text_mem}
use mosdns_controller.Go.Result.{ok, Result-cases}
use mosdns_controller.Rules.Types.{Rule}
use mosdns_controller.Rules.Normalize.{Library, normalize, normalize_ips}
use mosdns_controller.Rules.Normalize.Addresses.{IsAddress, normalize_ips-All}
use mosdns_controller.Rules.Validate.{
  valid_action, key_of, is_nil, check_group, check_answer, check_regexp, check_rule, check_rules,
  regexp_step, validate_rules,
}

-- A rule that may be published.
pub record IsWellFormed (lib : Library) (r : Rule) : Type 0 where
  pub priority : Within 1000 r.priority
  pub comment : count r.comment ≤ 500
  pub action : valid_action r.category r.action ≡ true
  pub routed : r.category ≡ "route" → r.upstream_group_id ≢ ""
  pub unrouted : r.category ≢ "route" → trim_space r.upstream_group_id ≡ ""
  pub ttl : r.category ≡ "answer" → (1 ≤ r.ttl) × (r.ttl ≤ 86400)
  pub addresses :
      r.category ≡ "answer" → (is_nil r.ipv4_addresses && is_nil r.ipv6_addresses) ≡ false
  pub ipv4 : All (IsAddress lib true) r.ipv4_addresses × (length r.ipv4_addresses ≤ 16)
  pub ipv6 : All (IsAddress lib false) r.ipv6_addresses × (length r.ipv6_addresses ≤ 16)
  pub no_answer :
      r.category ≢ "answer" → (r.ipv4_addresses ≡ []) × (r.ipv6_addresses ≡ []) × (r.ttl ≡ 0)
  pub pattern : (p : String) × (normalize lib p r.match_type ≡ ok r.pattern)
  pub regexp : r.match_type ≡ "regexp" → (len r.pattern ≤ 512) × (lib.compile r.pattern ≡ ok tt)

-- The parts of a rule that the checks leave alone.
abbrev pub SameRule : Rule → Rule → Type 0
SameRule r s =
    (s.id ≡ r.id)
    × (s.category ≡ r.category)
    × (s.action ≡ r.action)
    × (s.match_type ≡ r.match_type)
    × (s.priority ≡ r.priority)
    × (s.source ≡ r.source)
    × (s.comment ≡ r.comment)
    × (s.enabled ≡ r.enabled)
    × (s.ttl ≡ r.ttl)
    × (s.created_at_ms ≡ r.created_at_ms)
    × (s.updated_at_ms ≡ r.updated_at_ms)

-- No two rules have one key.
abbrev pub Distinct : List Rule → Type 0
Distinct [] = Unit {0}
Distinct (r ∷ rs) = All (λ s. key_of r ≢ key_of s) rs × Distinct rs

abbrev pub count_regexps : List Rule → ℕ
count_regexps [] = 0
count_regexps (r ∷ rs) = regexp_step r (count_regexps rs)

abbrev pub SameRules : List Rule → List Rule → Type 0
SameRules [] [] = Unit {0}
SameRules [] (s ∷ ss) = ⊥
SameRules (r ∷ rs) [] = ⊥
SameRules (r ∷ rs) (s ∷ ss) = SameRule r s × SameRules rs ss

abbrev Unseen : List String → List Rule → Type 0
Unseen seen = All (λ s. text_mem (key_of s) seen ≡ false)

module _ (lib : Library) where
  abbrev Family4 : List String → Type 0
  Family4 addresses = All (IsAddress lib true) addresses × (length addresses ≤ 16)

  abbrev Family6 : List String → Type 0
  Family6 addresses = All (IsAddress lib false) addresses × (length addresses ≤ 16)

  check_group-keeps :
      (r : Rule) {s : Rule}
      → check_group r ≡ ok s
      → (s ≡ record r { upstream_group_id = s.upstream_group_id })
  unfolding check_group
  check_group-keeps r e = ground arith

  check_group-routed :
      (r : Rule) {s : Rule} → check_group r ≡ ok s → r.category ≡ "route" → s.upstream_group_id ≢ ""
  unfolding check_group
  check_group-routed r {s} e =
      ground (arith, eq_iff r.category "route", eq_iff (trim_space r.upstream_group_id) "")

  check_group-unrouted :
      (r : Rule) {s : Rule}
      → check_group r ≡ ok s
      → r.category ≢ "route"
      → trim_space s.upstream_group_id ≡ ""
  unfolding check_group
  check_group-unrouted r {s} e =
      ground (arith, eq_iff r.category "route", eq_iff (trim_space r.upstream_group_id) "")

  check_answer-keeps :
      (r : Rule) {s : Rule}
      → check_answer lib r ≡ ok s
      → (s ≡ record r { ipv4_addresses = s.ipv4_addresses; ipv6_addresses = s.ipv6_addresses })
  unfolding check_answer
  check_answer-keeps r e = ground arith

  check_answer-ttl :
      (r : Rule) {s : Rule}
      → check_answer lib r ≡ ok s
      → r.category ≡ "answer"
      → (1 ≤ r.ttl)
        × (r.ttl ≤ 86400)
        × ((is_nil s.ipv4_addresses && is_nil s.ipv6_addresses) ≡ false)
  unfolding check_answer
  check_answer-ttl r e c = ground (arith, eq_iff r.category "answer")

  check_answer-none :
      (r : Rule) {s : Rule}
      → check_answer lib r ≡ ok s
      → r.category ≢ "answer"
      → (s.ipv4_addresses ≡ []) × (s.ipv6_addresses ≡ []) × (r.ttl ≡ 0)
  unfolding check_answer
  check_answer-none r e c = ground (arith, eq_iff r.category "answer")

  check_answer-addresses :
      (r : Rule) {s : Rule}
      → check_answer lib r ≡ ok s
      → (All (IsAddress lib true) s.ipv4_addresses × (length s.ipv4_addresses ≤ 16))
        × (All (IsAddress lib false) s.ipv6_addresses × (length s.ipv6_addresses ≤ 16))
  unfolding check_answer
  check_answer-addresses r {s} e = elim (Bool-cases (str_eq r.category "answer")) [
    | inr b ↦
        let none4 : s.ipv4_addresses ≡ [] = ground (arith, e, b) in
        let none6 : s.ipv6_addresses ≡ [] = ground (arith, e, b) in
        rw (none4, none6) ((tt, omega arith), (tt, omega arith))
    | inl b ↦ elim (Result-cases (normalize_ips lib r.ipv4_addresses true)) [
      | inr (x, f) ↦ absurd (ground (arith, e, b, f))
      | inl (four, f) ↦ elim (Result-cases (normalize_ips lib r.ipv6_addresses false)) [
        | inr (x, g) ↦ absurd (ground (arith, e, b, f, g))
        | inl (six, g) ↦
            let same4 : s.ipv4_addresses ≡ four = ground (arith, e, b, f, g) in
            let same6 : s.ipv6_addresses ≡ six = ground (arith, e, b, f, g) in
            rw (same4, same6)
              (
                normalize_ips-All lib r.ipv4_addresses true f,
                normalize_ips-All lib r.ipv6_addresses false g,
              )
      ]
    ]
  ]

  check_regexp-keeps :
      (r : Rule) {s : Rule}
      → check_regexp lib r ≡ ok s
      → (s ≡ r)
        × (r.match_type ≡ "regexp" → (len r.pattern ≤ 512) × (lib.compile r.pattern ≡ ok tt))
  unfolding check_regexp
  check_regexp-keeps r e = ground (arith, eq_iff r.match_type "regexp")

  check_rule-parts :
      (r : Rule) {s : Rule}
      → check_rule lib r ≡ ok s
      → (Within 1000 r.priority)
        × (count r.comment ≤ 500)
        × (valid_action r.category r.action ≡ true)
        × ((g : Rule) × (a : Rule) × (n : String) × (check_group r ≡ ok g)
            × (check_answer lib g ≡ ok a)
            × (normalize lib a.pattern a.match_type ≡ ok n)
            × (check_regexp lib (record a { pattern = n }) ≡ ok s))
  unfolding check_rule
  check_rule-parts r e = elim (Result-cases (check_group r)) [
    | inr (x, p) ↦ absurd (ground arith)
    | inl (g, p) ↦ elim (Result-cases (check_answer lib g)) [
      | inr (x, q) ↦ absurd (ground arith)
      | inl (a, q) ↦ elim (Result-cases (normalize lib a.pattern a.match_type)) [
        | inr (x, o) ↦ absurd (ground arith)
        | inl (n, o) ↦ (ground arith, ground arith, ground arith, (g, a, n, p, q, o, ground arith))
      ]
    ]
  ]

  check_rule-IsWellFormed :
      (r : Rule) {s : Rule} → check_rule lib r ≡ ok s → IsWellFormed lib s × SameRule r s
  check_rule-IsWellFormed r {s} e =
      let (priority, comment, action, (g, a, n, pg, pa, pn, ps)) = check_rule-parts r e in
      let kg = check_group-keeps r pg in
      let ka = check_answer-keeps g pa in
      let (ks, re) = check_regexp-keeps (record a { pattern = n }) ps in
      let same4 : a.ipv4_addresses ≡ s.ipv4_addresses = ap (λ r. r.ipv4_addresses) (sym ks) in
      let same6 : a.ipv6_addresses ≡ s.ipv6_addresses = ap (λ r. r.ipv6_addresses) (sym ks) in
      (
        record {
          priority = ground arith;
          comment = ground arith;
          action = ground arith;
          routed = λ c. ground (arith, check_group-routed r pg (ground arith));
          unrouted = λ c. ground (arith, check_group-unrouted r pg (ground arith));
          ttl = λ c. ground (arith, check_answer-ttl g pa (ground arith));
          addresses = λ c. ground (arith, check_answer-ttl g pa (ground arith));
          ipv4 = subst Family4 same4 (check_answer-addresses g pa).0;
          ipv6 = subst Family6 same6 (check_answer-addresses g pa).1;
          no_answer = λ c. ground (arith, check_answer-none g pa (ground arith));
          pattern = (a.pattern, ground arith);
          regexp = λ c. ground (arith, re (ground arith));
        },
        ground arith,
      )

  split-Unseen :
      (k : String) (seen : List String) (rs : List Rule)
      → Unseen (k ∷ seen) rs
      → All (λ s. k ≢ key_of s) rs × Unseen seen rs
  split-Unseen k seen [] h = (tt, tt)
  split-Unseen k seen (r ∷ rs) h =
      let (a, b) = split-Unseen k seen rs h.1 in
      ((λ e. ground (arith, eq_iff k (key_of r), h.0), a), (ground (arith, h.0), b))

  check_rules_sound :
      (seen : List String) (n : ℕ) (rs : List Rule) {out : List Rule}
      → check_rules lib seen n rs ≡ ok out
      → All (IsWellFormed lib) out
        × SameRules rs out
        × Distinct out
        × Unseen seen out
        × (count_regexps out + n ≤ 500)
  unfolding check_rules
  check_rules_sound seen n [] {out} e =
      let o : out ≡ [] = ground arith in rw o (tt, tt, tt, tt, ground arith)
  check_rules_sound seen n (r ∷ rs) {out} e = elim (Result-cases (check_rule lib r)) [
    | inr (x, p) ↦ absurd (ground arith)
    | inl (s, p) ↦ elim (Result-cases (check_rules lib (key_of s ∷ seen) (regexp_step s n) rs)) [
      | inr (x, q) ↦ absurd (ground arith)
      | inl (rest, q) ↦
          let o : out ≡ s ∷ rest = ground arith in
          let (wf, same, distinct, unseen, few) =
            check_rules_sound (key_of s ∷ seen) (regexp_step s n) rs q in
          let (new, old) = split-Unseen (key_of s) seen rest unseen in
          let (w, k) = check_rule-IsWellFormed r p in
          rw o ((w, wf), (k, same), (new, distinct), (ground arith, old), ground arith)
    ]
  ]

  -- What validateRules accepts is a list of at most 200000 well-formed rules with distinct keys, at
  -- most 500 of them regular expressions; each rule keeps all but its group, addresses and pattern. A
  -- well-formed rule has its numbers and texts within their limits, a known category and action, a
  -- group exactly if it is a route, and for an answer at least one address and at most 16 of each
  -- family, each the text of an address of that family, and none for another; its pattern is in normal
  -- form, and compiles if it is a regular expression.
  pub validate_rules_sound :
      (rules : List Rule) {out : List Rule}
      → validate_rules lib rules ≡ ok out
      → (length rules ≤ 200000)
        × All (IsWellFormed lib) out
        × SameRules rules out
        × Distinct out
        × (count_regexps out ≤ 500)
  unfolding validate_rules
  validate_rules_sound rules {out} e =
      let (wf, same, distinct, unseen, few) =
        check_rules_sound [] 0 rules {out = out} (ground arith) in
      (ground arith, wf, same, distinct, omega arith)

  -- Each rule passes its own checks, with the given normal form.
  abbrev pub Checked : List Rule → List Rule → Type 0
  Checked [] [] = Unit {0}
  Checked [] (s ∷ ss) = ⊥
  Checked (r ∷ rs) [] = ⊥
  Checked (r ∷ rs) (s ∷ ss) = (check_rule lib r ≡ ok s) × Checked rs ss

  join-Unseen :
      (k : String) (seen : List String) (rs : List Rule)
      → All (λ s. k ≢ key_of s) rs
      → Unseen seen rs
      → Unseen (k ∷ seen) rs
  join-Unseen k seen [] h g = tt
  join-Unseen k seen (r ∷ rs) h g =
      (ground (arith, eq_iff k (key_of r), h.0, g.0), join-Unseen k seen rs h.1 g.1)

  check_rules_complete :
      (seen : List String) (n : ℕ) (rs out : List Rule)
      → Checked rs out
      → Distinct out
      → Unseen seen out
      → count_regexps out + n ≤ 500
      → check_rules lib seen n rs ≡ ok out
  unfolding check_rules
  check_rules_complete seen n [] [] c d u f = ground arith
  check_rules_complete seen n [] (s ∷ ss) c d u f = absurd c
  check_rules_complete seen n (r ∷ rs) [] c d u f = absurd c
  check_rules_complete seen n (r ∷ rs) (s ∷ ss) c d u f =
      let rest =
        check_rules_complete (key_of s ∷ seen) (regexp_step s n) rs ss c.1 d.1
          (join-Unseen (key_of s) seen ss d.0 u.1) (ground arith) in
      ground (arith, rest, c.0, u.0)

  Unseen-nil : (rs : List Rule) → Unseen [] rs
  Unseen-nil [] = tt
  Unseen-nil (r ∷ rs) = (refl, Unseen-nil rs)

  -- And it accepts every list whose rules pass their checks, within those limits.
  pub validate_rules_complete :
      (rules out : List Rule)
      → length rules ≤ 200000
      → Checked rules out
      → Distinct out
      → count_regexps out ≤ 500
      → validate_rules lib rules ≡ ok out
  unfolding validate_rules
  validate_rules_complete rules out l c d f =
      ground (arith, check_rules_complete [] 0 rules out c d (Unseen-nil out) (omega arith))
