-- ===== src/Ingest/Diagnostics/Bounded.antt =====
-- controller/internal/queryingest/service.go: the cache of diagnostics is a queue of at most 1024 events.
use mosdns_controller.Base.{
  ℕ, suc, ◌≤◌, ◌≡◌, ◌≢◌, refl, ap, sym, ◌∙◌, String, false, List, [], ◌∷◌, ◌++◌, length,
  length-append, eq_iff, ltb, if◌then◌else◌, All, arith, inl, inr, Bool-cases,
}
use mosdns_controller.Ingest.Events.{Event}
use mosdns_controller.Ingest.Diagnostics.{
  Entry, Cache, max_answer_diagnostics, has_entry, delete_entry, entry_of, drop_oldest,
  append_entry, cache_event, cache_answer_diagnostics,
}

-- The abstract cache: entries in the order of their arrival.
abbrev pub Queue : Type 0
Queue = List Entry

abbrev rest_of : Queue → Queue
rest_of [] = []
rest_of (x ∷ xs) = xs

-- A new event goes to the end; beyond the limit the first one leaves.
unfoldable pub push : Event → Queue → Queue
unfolding has_entry
push e q =
    if has_entry e.event_id q
    then q
    else if ltb max_answer_diagnostics (length (q ++ (entry_of e ∷ [])))
    then rest_of (q ++ (entry_of e ∷ []))
    else q ++ (entry_of e ∷ [])

unfoldable pub push_all : List Event → Queue → Queue
unfolding push
push_all [] q = q
push_all (e ∷ es) q = push_all es (push e q)

abbrev pub keys : Queue → List String
keys [] = []
keys (x ∷ xs) = x.0 ∷ keys xs

-- The concrete cache of a queue.
abbrev pub cache_of : Queue → Cache
cache_of q = record { entries = q; order = keys q }

abbrev pub Distinct : Queue → Type 0
Distinct [] = Unit {0}
Distinct (x ∷ xs) = All (λ y. y.0 ≢ x.0) xs × Distinct xs

pub record IsQueue (q : Queue) : Type 0 where
  pub size : length q ≤ max_answer_diagnostics
  pub distinct : Distinct q

keys-append : (q : Queue) (x : Entry) → keys (q ++ (x ∷ [])) ≡ keys q ++ (x.0 ∷ [])
keys-append [] x = refl
keys-append (y ∷ q) x = ap (λ ks. y.0 ∷ ks) (keys-append q x)

append-Distinct :
    (q : Queue) (x : Entry) → has_entry x.0 q ≡ false → Distinct q → Distinct (q ++ (x ∷ []))
unfolding has_entry
append-Distinct [] x n h = (tt, tt)
append-Distinct (y ∷ q) x n h =
    let apart : x.0 ≢ y.0 = ground (arith, n, eq_iff y.0 x.0) in
    (all q h.0 apart, append-Distinct q x (ground (arith, n)) h.1)
  where
    all : (q : Queue) → All (λ z. z.0 ≢ y.0) q → x.0 ≢ y.0 → All (λ z. z.0 ≢ y.0) (q ++ (x ∷ []))
    all [] h k = (k, tt)
    all (z ∷ q) h k = (h.0, all q h.1 k)

-- Nothing is removed under a key that is not there.
delete_entry-other : (id : String) (q : Queue) → All (λ z. z.0 ≢ id) q → delete_entry id q ≡ q
unfolding delete_entry
delete_entry-other id [] h = refl
delete_entry-other id (x ∷ q) h = ground (arith, h.0, eq_iff x.0 id, delete_entry-other id q h.1)

delete_entry-first : (x : Entry) (q : Queue) → All (λ z. z.0 ≢ x.0) q → delete_entry x.0 (x ∷ q) ≡ q
unfolding delete_entry
delete_entry-first x q h = ground (arith, eq_iff x.0 x.0, delete_entry-other x.0 q h)

drop_oldest-cache_of : (q : Queue) → Distinct q → drop_oldest q (keys q) ≡ cache_of (rest_of q)
unfolding drop_oldest
drop_oldest-cache_of [] h = refl
drop_oldest-cache_of (x ∷ q) h =
    ap (λ es. record { entries = es; order = keys q }) (delete_entry-first x q h.0)

length-keys : (q : Queue) → length (keys q) ≡ length q
length-keys [] = refl
length-keys (x ∷ q) = ap suc (length-keys q)

append_entry-cache_of :
    (e : Event) (q : Queue)
    → has_entry e.event_id q ≡ false
    → Distinct q
    → append_entry e (cache_of q)
      ≡ cache_of (
          if ltb max_answer_diagnostics (length (q ++ (entry_of e ∷ [])))
          then rest_of (q ++ (entry_of e ∷ []))
          else q ++ (entry_of e ∷ []))
unfolding append_entry
append_entry-cache_of e q n h =
    let k = keys-append q (entry_of e) in
    elim (Bool-cases (ltb max_answer_diagnostics (length (q ++ (entry_of e ∷ []))))) [
      | inl b ↦
          rw (sym k, length-keys, b)
            (drop_oldest-cache_of (q ++ (entry_of e ∷ [])) (append-Distinct q (entry_of e) n h))
      | inr b ↦ rw (sym k, length-keys, b) refl
    ]

rest_of-Distinct : (q : Queue) → Distinct q → Distinct (rest_of q)
rest_of-Distinct [] h = tt
rest_of-Distinct (x ∷ q) h = h.1

length-rest_of : (q : Queue) (n : ℕ) → length q ≤ suc n → length (rest_of q) ≤ n
length-rest_of [] n h = omega arith
length-rest_of (x ∷ q) n h = omega (arith, h)

push-IsQueue : (e : Event) (q : Queue) → IsQueue q → IsQueue (push e q)
unfolding push
push-IsQueue e q h = elim (Bool-cases (has_entry e.event_id q)) [
  | inl b ↦ rw b h
  | inr b ↦
      let full = q ++ (entry_of e ∷ []) in
      let distinct = append-Distinct q (entry_of e) b h.distinct in
      let size = length-append q (entry_of e ∷ []) in
      elim (Bool-cases (ltb max_answer_diagnostics (length full))) [
        | inl c ↦
            rw (b, c)
              (record {
                size = length-rest_of full max_answer_diagnostics (omega (arith, size, h.size));
                distinct = rest_of-Distinct full distinct;
              })
        | inr c ↦ rw (b, c) (record { size = ground (arith, c); distinct = distinct })
      ]
]

cache_event-cache_of :
    (e : Event) (q : Queue) → IsQueue q → cache_event e (cache_of q) ≡ cache_of (push e q)
unfolding cache_event push
cache_event-cache_of e q h = elim (Bool-cases (has_entry e.event_id q)) [
  | inl b ↦ rw b refl
  | inr b ↦ rw b (append_entry-cache_of e q b h.distinct)
]

-- The map and the order implement a queue of at most 1024 entries with distinct keys: caching some
-- events on the map and the order of a queue gives the map and the order of the queue that they are
-- pushed on, which is such a queue again.
pub cache_answer_diagnostics-push_all :
    (es : List Event) (q : Queue)
    → IsQueue q
    → (cache_answer_diagnostics es (cache_of q) ≡ cache_of (push_all es q))
      × IsQueue (push_all es q)
unfolding cache_answer_diagnostics push_all
cache_answer_diagnostics-push_all [] q h = (refl, h)
cache_answer_diagnostics-push_all (e ∷ es) q h =
    let rest = cache_answer_diagnostics-push_all es (push e q) (push-IsQueue e q h) in
    (ap (cache_answer_diagnostics es) (cache_event-cache_of e q h) ∙ rest.0, rest.1)
