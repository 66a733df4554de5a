-- ===== src/Rules/Listing.antt =====
-- controller/internal/rules/service.go: what List shows after a publication.
use mathlib.Core.List.{Perm}
use mathlib.Core.List.Perm
use mosdns_controller.Base.{ℕ, ◌≡◌, refl, ap, ◌∙◌, sym, subst, not, List, [], ◌∷◌, map, keep, arith}
use mosdns_controller.Rules.Types.{Rule}
use mosdns_controller.Rules.Normalize.{Library}
use mosdns_controller.Rules.Validate.Sound.{SameRules, validate_rules_sound}
use mosdns_controller.Rules.Snapshot.{sort_by}
use mosdns_controller.Rules.Snapshot.Order.{sort_by-perm}
use mosdns_controller.Rules.Store.{RuleRow, Tables, Env}
use mosdns_controller.Rules.Publish.{Version, rule_row}
use mosdns_controller.Rules.Publish.Steps.{Stored}
use mosdns_controller.Rules.Publish.Guarantees.{IsPublished}
use mosdns_controller.Rules.Read.{like_prefix, listed_rules, row_less, is_listed, scan_rule}

abbrev pub ids_of : List Rule → List ℕ
ids_of rules = map (λ r. r.id) rules

-- List and allRules leave out the rules whose source is LIKE 'subscription:%'.
abbrev pub visible : List Rule → List Rule
visible rules = keep (λ r. not (like_prefix r.source "subscription:")) rules

SameRules-ids :
    (rules out : List Rule) → SameRules rules out → ids_of (visible out) ≡ ids_of (visible rules)
SameRules-ids [] [] h = refl
SameRules-ids [] (s ∷ ss) h = absurd h
SameRules-ids (r ∷ rs) [] h = absurd h
SameRules-ids (r ∷ rs) (s ∷ ss) h = ground (arith, h.0, SameRules-ids rs ss h.1)

Stored-ids :
    (lib : Library) (v : ℕ) (rules : List Rule) (rows : List RuleRow)
    → Stored lib v rules rows
    → map (λ x. x.rule.id) (keep is_listed rows) ≡ ids_of (visible rules)
unfolding rule_row
Stored-ids lib v [] [] h = refl
Stored-ids lib v [] (x ∷ xs) h = absurd h
Stored-ids lib v (r ∷ rs) [] h = absurd h
Stored-ids lib v (r ∷ rs) (x ∷ xs) h = ground (arith, h.1, Stored-ids lib v rs xs h.2)

scanned_ids : (rows : List RuleRow) → ids_of (map scan_rule rows) ≡ map (λ x. x.rule.id) rows
scanned_ids [] = refl
scanned_ids (x ∷ xs) = ap (◌∷◌ (x.rule.id)) (scanned_ids xs)

-- After a publication List shows each of the published rules once, by its identifier, but for those
-- whose source starts with "subscription:" in some mix of upper and lower case.
pub published-listed :
    (env : Env) (t : Tables) (rules : List Rule) (v : Version) (t' : Tables)
    → IsPublished env t rules v t'
    → Perm (ids_of (listed_rules t')) (ids_of (visible rules))
unfolding listed_rules
published-listed env t rules v t' p =
    let same : map (λ x. x.rule.id) (keep is_listed t'.domain_rules) ≡ ids_of (visible rules) =
      Stored-ids env.library _ p.candidate.rules t'.domain_rules p.stored
      ∙ SameRules-ids rules p.candidate.rules (validate_rules_sound env.library rules p.valid).2 in
    subst (λ is. Perm is (ids_of (visible rules))) (sym (scanned_ids _))
      (subst
        (λ is. Perm (map (λ x. x.rule.id) (sort_by row_less (keep is_listed t'.domain_rules))) is)
        same (Perm.map (λ x. x.rule.id) (sort_by-perm row_less (keep is_listed t'.domain_rules))))
