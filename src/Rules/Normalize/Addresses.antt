-- ===== src/Rules/Normalize/Addresses.antt =====
-- controller/internal/rules/service.go: what normalizeIPs accepts.
use mosdns_controller.Base.{
  ◌+◌, ◌≤◌, ◌≡◌, refl, String, Bool, true, false, List, [], ◌∷◌, length, All, arith, inl, inr,
  Bool-cases,
}
use mosdns_controller.Go.Text.{trim_space, text_lt, text_mem, sort_texts, insert_text}
use mosdns_controller.Go.Result.{ok, Result-cases}
use mosdns_controller.Rules.Normalize.{
  Library, Address, parse_family, collect_addresses, normalize_ips,
}

-- The text of an address of the family, as the library writes one that it has read.
abbrev pub IsAddress : Library → Bool → String → Type 0
IsAddress lib want4 text =
    (v : String) × (a : Address) × (lib.parse_addr v ≡ ok a) × (a.is4 ≡ want4) × (a.text ≡ text)

module _ (P : String → Type 0) where
  insert_text-All : (k : String) (xs : List String) → P k → All P xs → All P (insert_text k xs)
  insert_text-All k [] h g = (h, tt)
  insert_text-All k (x ∷ xs) h g = elim (Bool-cases (text_lt x k)) [
    | inl b ↦ rw b (g.0, insert_text-All k xs h g.1)
    | inr b ↦ rw b (h, g)
  ]

  sort_texts-All : (xs : List String) → All P xs → All P (sort_texts xs)
  sort_texts-All [] h = tt
  sort_texts-All (x ∷ xs) h = insert_text-All x (sort_texts xs) h.0 (sort_texts-All xs h.1)

length-insert_text : (k : String) (xs : List String) → length (insert_text k xs) ≡ 1 + length xs
length-insert_text k [] = omega arith
length-insert_text k (x ∷ xs) = ground (arith, length-insert_text k xs)

length-sort_texts : (xs : List String) → length (sort_texts xs) ≡ length xs
length-sort_texts [] = refl
length-sort_texts (x ∷ xs) =
    omega (arith, length-insert_text x (sort_texts xs), length-sort_texts xs)

module _ (lib : Library) where
  parse_family-IsAddress :
      (want4 : Bool) (value : String) {n : String}
      → parse_family lib want4 value ≡ ok n
      → IsAddress lib want4 n
  parse_family-IsAddress true value h = elim (Result-cases (lib.parse_addr (trim_space value))) [
    | inr (x, e) ↦ absurd (ground (arith, h, e))
    | inl (a, e) ↦ (trim_space value, a, e, ground (arith, h, e), ground (arith, h, e))
  ]
  parse_family-IsAddress false value h = elim (Result-cases (lib.parse_addr (trim_space value))) [
    | inr (x, e) ↦ absurd (ground (arith, h, e))
    | inl (a, e) ↦ (trim_space value, a, e, ground (arith, h, e), ground (arith, h, e))
  ]

  collect_addresses-All :
      (want4 : Bool) (seen values : List String) {out : List String}
      → All (IsAddress lib want4) seen
      → collect_addresses lib want4 seen values ≡ ok out
      → All (IsAddress lib want4) out × (length out ≤ length seen + length values)
  unfolding collect_addresses
  collect_addresses-All want4 seen [] {out} h e =
      let same : out ≡ seen = ground (arith, e) in rw same (h, omega arith)
  collect_addresses-All want4 seen (value ∷ values) {out} h e =
      elim (Result-cases (parse_family lib want4 value)) [
        | inr (x, f) ↦ absurd (ground (arith, e, f))
        | inl (n, f) ↦ elim (Bool-cases (text_mem n seen)) [
          | inl b ↦
              let (all, few) =
                collect_addresses-All want4 seen values {out = out} h (ground (arith, e, f, b)) in
              (all, omega (arith, few))
          | inr b ↦
              let (all, few) =
                collect_addresses-All want4 (n ∷ seen) values {out = out}
                  (parse_family-IsAddress want4 value f, h) (ground (arith, e, f, b)) in
              (all, omega (arith, few))
        ]
      ]

  -- What normalizeIPs accepts is a list of at most 16 addresses of the family.
  pub normalize_ips-All :
      (values : List String) (want4 : Bool) {out : List String}
      → normalize_ips lib values want4 ≡ ok out
      → All (IsAddress lib want4) out × (length out ≤ 16)
  unfolding normalize_ips
  normalize_ips-All values want4 {out} e =
      elim (Result-cases (collect_addresses lib want4 [] values)) [
        | inr (x, f) ↦ absurd (ground (arith, e, f))
        | inl (found, f) ↦
            let (all, few) = collect_addresses-All want4 [] values tt f in
            let same : out ≡ sort_texts found = ground (arith, e, f) in
            rw same (
              sort_texts-All (IsAddress lib want4) found all,
              ground (arith, e, f, few, length-sort_texts found),
            )
      ]
