-- ===== src/Ingest/Pages/Walk.antt =====
-- controller/internal/queryingest/service.go: the pages of Queries, read one after another.
use mosdns_controller.Base.{
  ℕ, zero, suc, ◌≤◌, ◌<◌, ◌≡◌, refl, ap, subst, sym, ◌∙◌, String, Bool, true, false, List, [], ◌∷◌,
  ◌++◌, append-nil, length, length-map, length-keep-le, take, map, keep, keep-yes, keep-no, Option,
  none, some, ltb, if◌then◌else◌, All, arith, inl, inr, Bool-cases,
}
use mosdns_controller.Go.Int.{ℤ, pos, negsuc}
use mosdns_controller.Go.Result.{ok}
use mosdns_controller.Rules.Normalize.{Library}
use mosdns_controller.Ingest.Events.{StoredEvent, Query}
use mosdns_controller.Ingest.Filter.{
  Condition, all_hold, query_conditions, check_query, conditions, qname_condition,
}
use mosdns_controller.Ingest.Persist.{Store, with_name}
use mosdns_controller.Ingest.Persist.Rows.{Rows}
use mosdns_controller.Ingest.Pages.{
  Codec, Key, key_of, ordered, place_row, after_cursor, selected, limit_of, encode_cursor,
  cursor_of, last_cursor, page_of, queries, read_on, walk, fetched,
}
use mosdns_controller.Ingest.Pages.Order.{
  Desc, ordered-Desc, ordered-All, keep-All, keep-Desc, drop, row_at, row_at-All, keep-drop,
  keep-cursor, after_key,
}
use mosdns_controller.Ingest.Pages.Cursor.{
  IsCodec, IsKey, decode_cursor-encode_cursor, encode_cursor_nonempty,
}

take-all : (n : ℕ) (xs : List StoredEvent) → length xs ≤ n → take n xs ≡ xs
take-all zero [] h = refl
take-all zero (x ∷ xs) h = absurd (omega (arith, h))
take-all (suc n) [] h = refl
take-all (suc n) (x ∷ xs) h = ap (λ ys. x ∷ ys) (take-all n xs (omega (arith, h)))

length-take-more :
    (n : ℕ) (xs : List StoredEvent) → n < length xs → length (take (suc n) xs) ≡ suc n
length-take-more n [] h = absurd (omega (arith, h))
length-take-more zero (x ∷ xs) h = refl
length-take-more (suc n) (x ∷ xs) h = ap suc (length-take-more n xs (omega (arith, h)))

take-map-take :
    (f : StoredEvent → StoredEvent) (n : ℕ) (xs : List StoredEvent)
    → take n (map f (take (suc n) xs)) ≡ map f (take n xs)
take-map-take f zero xs = refl
take-map-take f (suc n) [] = refl
take-map-take f (suc n) (x ∷ xs) = ap (λ ys. f x ∷ ys) (take-map-take f n xs)

take-drop :
    (f : StoredEvent → StoredEvent) (n : ℕ) (xs : List StoredEvent)
    → map f (take n xs) ++ map f (drop n xs) ≡ map f xs
take-drop f zero xs = refl
take-drop f (suc n) [] = refl
take-drop f (suc n) (x ∷ xs) = ap (λ ys. f x ∷ ys) (take-drop f n xs)

length-drop-less :
    (n : ℕ) (xs : List StoredEvent) → n < length xs → length (drop (suc n) xs) < length xs
length-drop-less n [] h = absurd (omega (arith, h))
length-drop-less zero (x ∷ xs) h = omega arith
length-drop-less (suc n) (x ∷ xs) h = omega (arith, length-drop-less n xs (omega (arith, h)))

keep_self : (p : StoredEvent → Bool) (xs : List StoredEvent) → All (λ y. p y ≡ true) (keep p xs)
keep_self p [] = tt
keep_self p (x ∷ xs) = elim (Bool-cases (p x)) [
  | inl b ↦ subst (All (λ y. p y ≡ true)) (sym (keep-yes p x xs b)) (b, keep_self p xs)
  | inr b ↦ subst (All (λ y. p y ≡ true)) (sym (keep-no p x xs b)) (keep_self p xs)
]

after-key :
    (cursor : Option Key) (e : StoredEvent)
    → after_cursor cursor e ≡ true
    → after_key cursor (key_of e) ≡ true
after-key none e h = refl
after-key (some c) e h = h

length-place_row :
    (e : StoredEvent) (rs : List StoredEvent) → length (place_row e rs) ≡ suc (length rs)
unfolding place_row
length-place_row e [] = refl
length-place_row e (r ∷ rs) = ground (arith, length-place_row e rs)

length-ordered : (rs : List StoredEvent) → length (ordered rs) ≡ length rs
unfolding ordered
length-ordered [] = refl
length-ordered (r ∷ rs) = length-place_row r (ordered rs) ∙ ap suc (length-ordered rs)

limit_of-positive : (l : ℤ) → (m : ℕ) × (limit_of l ≡ suc m)
unfolding limit_of
limit_of-positive (pos zero) = (99, refl)
limit_of-positive (pos (suc n)) = elim (Bool-cases (ltb 500 (suc n))) [
  | inl b ↦ (99, ground (arith, b))
  | inr b ↦ (n, ground (arith, b))
]
limit_of-positive (negsuc n) = (99, refl)

-- The conditions do not depend on the cursor.
query_conditions-cursor :
    (lib : Library) (q : Query) (c : String)
    → query_conditions lib (record q { cursor = c }) ≡ query_conditions lib q
unfolding query_conditions check_query conditions qname_condition
query_conditions-cursor lib q c = refl

first_row : (xs : List StoredEvent) → 0 < length xs → StoredEvent
first_row [] h = absurd (omega (arith, h))
first_row (x ∷ xs) h = x

module _ (codec : Codec) (lawful : IsCodec codec) (f : StoredEvent → StoredEvent)
    (same : (e : StoredEvent) → key_of (f e) ≡ key_of e) where
  -- The cursor of a full page is that of its last row.
  last_cursor-take :
      (n : ℕ) (e : StoredEvent) (xs : List StoredEvent)
      → n < length xs
      → last_cursor codec (map f (take (suc n) xs)) ≡ encode_cursor codec (key_of (row_at n e xs))
  last_cursor-take n e [] h = absurd (omega (arith, h))
  last_cursor-take zero e (x ∷ xs) h = ap (encode_cursor codec) (same x)
  last_cursor-take (suc n) e (x ∷ []) h = absurd (omega (arith, h))
  last_cursor-take (suc n) e (x ∷ y ∷ xs) h = last_cursor-take n e (y ∷ xs) (omega (arith, h))

  -- A page that takes all the rows, and one that leaves some.
  page_of-short :
      (limit : ℕ) (xs : List StoredEvent)
      → length xs ≤ limit
      → page_of codec limit (map f (take (suc limit) xs))
        ≡ record { items = map f xs; next_cursor = "" }
  unfolding page_of
  page_of-short limit xs h =
      let small : ltb limit (length (map f xs)) ≡ false = ground (arith, length-map f xs, h) in
      rw (take-all (suc limit) xs (omega (arith, h)), small) refl

  page_of-full :
      (m : ℕ) (e : StoredEvent) (xs : List StoredEvent)
      → suc m < length xs
      → page_of codec (suc m) (map f (take (suc (suc m)) xs)) ≡ record {
        items = map f (take (suc m) xs);
        next_cursor = encode_cursor codec (key_of (row_at m e xs));
      }
  unfolding page_of
  page_of-full m e xs h =
      let rows = map f (take (suc (suc m)) xs) in
      let more : ltb (suc m) (length rows) ≡ true =
        ground (arith, length-map f (take (suc (suc m)) xs), length-take-more (suc m) xs h) in
      rw (more, take-map-take f (suc m) xs, last_cursor-take m e xs (omega (arith, h))) refl

module _ (codec : Codec) (lawful : IsCodec codec) (lib : Library) (store : Store)
    (rows : Rows store.rows) (keys : All (λ r. IsKey (key_of r)) store.rows) where
  shown : StoredEvent → StoredEvent
  shown = with_name store.counts.devices

  module _ (cs : List Condition) where
    -- All the rows that the conditions select, in order.
    matching : List StoredEvent
    matching = keep (λ e. all_hold e cs) (ordered store.rows)

    matching-Desc : Desc matching
    unfolding matching
    matching-Desc = keep-Desc _ (ordered store.rows) (ordered-Desc store.rows rows)

    matching-IsKey : All (λ r. IsKey (key_of r)) matching
    unfolding matching
    matching-IsKey = keep-All _ _ (ordered store.rows) (ordered-All _ store.rows keys)

    -- The rows after the last one of a page are the rest.
    next-selected :
        (cursor : Option Key) (m : ℕ) (e : StoredEvent)
        → m < length (selected cs cursor store.rows)
        → selected cs (some (key_of (row_at m e (selected cs cursor store.rows)))) store.rows
          ≡ drop (suc m) (selected cs cursor store.rows)
    unfolding selected matching
    next-selected cursor m e h =
        let xs = keep (after_cursor cursor) matching in
        let k = key_of (row_at m e xs) in
        let own =
          row_at-All (λ y. after_cursor cursor y ≡ true) m e xs h
            (keep_self (after_cursor cursor) matching) in
        sym (keep-cursor cursor k matching (after-key cursor (row_at m e xs) own))
        ∙ keep-drop m e xs h (keep-Desc (after_cursor cursor) matching matching-Desc)

    selected-IsKey :
        (cursor : Option Key) → All (λ r. IsKey (key_of r)) (selected cs cursor store.rows)
    unfolding selected matching
    selected-IsKey cursor = keep-All _ (after_cursor cursor) matching matching-IsKey

    queries-page :
        (q : Query) (cursor : Option Key)
        → query_conditions lib q ≡ ok cs
        → cursor_of codec q.cursor ≡ ok cursor
        → queries codec lib store q
          ≡ ok (
              page_of codec
                (limit_of q.limit)
                (fetched codec lib store (limit_of q.limit) cs cursor))
    unfolding queries
    queries-page q cursor h k = rw (h, k) refl

    cursor_of-encode_cursor :
        (k : Key) → IsKey k → cursor_of codec (encode_cursor codec k) ≡ ok (some k)
    cursor_of-encode_cursor k key =
        rw (encode_cursor_nonempty codec k lawful, decode_cursor-encode_cursor codec k lawful key)
          refl

    read_on-short :
        (next : String → List StoredEvent) (limit : ℕ) (xs : List StoredEvent)
        → length xs ≤ limit
        → read_on codec lib store next (ok (page_of codec limit (map shown (take (suc limit) xs))))
          ≡ map shown xs
    unfolding shown
    read_on-short next limit xs h =
        ap (λ p. read_on codec lib store next (ok p))
          (page_of-short codec lawful shown (λ e. refl) limit xs h)
        ∙ append-nil (map shown xs)

    read_on-full :
        (next : String → List StoredEvent) (m : ℕ) (e : StoredEvent) (xs : List StoredEvent)
        → suc m < length xs
        → next (encode_cursor codec (key_of (row_at m e xs))) ≡ map shown (drop (suc m) xs)
        → read_on codec lib store next
            (ok (page_of codec (suc m) (map shown (take (suc (suc m)) xs))))
          ≡ map shown xs
    unfolding shown
    read_on-full next m e xs h rest =
        ap (λ p. read_on codec lib store next (ok p))
          (page_of-full codec lawful shown (λ e. refl) m e xs h)
        ∙ ap
            (λ b.
              map shown (take (suc m) xs)
              ++ (if b then [] else next (encode_cursor codec (key_of (row_at m e xs)))))
            (encode_cursor_nonempty codec (key_of (row_at m e xs)) lawful)
        ∙ ap (λ ys. map shown (take (suc m) xs) ++ ys) rest
        ∙ take-drop shown (suc m) xs

    walk-selected :
        (n : ℕ) (q : Query) (cursor : Option Key)
        → query_conditions lib q ≡ ok cs
        → cursor_of codec q.cursor ≡ ok cursor
        → length (selected cs cursor store.rows) < n
        → walk codec lib store n q ≡ map shown (selected cs cursor store.rows)
    unfolding walk shown
    walk-selected zero q cursor h k b = absurd (omega (arith, b))
    walk-selected (suc n) q cursor h k b =
        let xs = selected cs cursor store.rows in
        let (m, lim) = limit_of-positive q.limit in
        let next : String → List StoredEvent =
          λ c. walk codec lib store n (record q { cursor = c }) in
        let page : queries codec lib store q
            ≡ ok (page_of codec (suc m) (map shown (take (suc (suc m)) xs))) =
          queries-page q cursor h k
          ∙ ap (λ l. ok (page_of codec l (map shown (take (suc l) xs)))) lim in
        ap (read_on codec lib store next) page ∙ elim (Bool-cases (ltb (suc m) (length xs))) [
          | inr c ↦ read_on-short next (suc m) xs (ground (arith, c))
          | inl c ↦
              let more : suc m < length xs = ground (arith, c) in
              let e = first_row xs (omega (arith, more)) in
              let last = key_of (row_at m e xs) in
              let key =
                row_at-All (λ r. IsKey (key_of r)) m e xs (omega (arith, more))
                  (selected-IsKey cursor) in
              let rest = next-selected cursor m e (omega (arith, more)) in
              read_on-full next m e xs more (
                walk-selected n (record q { cursor = encode_cursor codec last }) (some last)
                  (query_conditions-cursor lib q (encode_cursor codec last) ∙ h)
                  (cursor_of-encode_cursor last key)
                  (omega (arith, ap length rest, length-drop-less m xs (omega (arith, more)), b))
                ∙ ap (map shown) rest)
        ]

  -- A reader that asks for a query without a cursor and follows the cursors for one page more than
  -- there are rows is shown, each with the name of its device, exactly the rows that the conditions
  -- of the query select, newest first, none twice and none left out, whatever the limit.
  pub walk-queries :
      (q : Query) (cs : List Condition)
      → query_conditions lib q ≡ ok cs
      → q.cursor ≡ ""
      → walk codec lib store (suc (length store.rows)) q
        ≡ map (with_name store.counts.devices) (keep (λ e. all_hold e cs) (ordered store.rows))
  unfolding shown selected
  walk-queries q cs h e =
      let all = keep (λ r. all_hold r cs) (ordered store.rows) in
      let whole = keep_all all in
      walk-selected cs (suc (length store.rows)) q none h (ap (cursor_of codec) e) (
        omega (
          arith,
          ap length whole,
          length-keep-le (λ r. all_hold r cs) (ordered store.rows),
          length-ordered store.rows,
        ))
      ∙ ap (map (with_name store.counts.devices)) whole
    where
      keep_all : (xs : List StoredEvent) → keep (after_cursor none) xs ≡ xs
      keep_all [] = refl
      keep_all (x ∷ xs) = ap (λ ys. x ∷ ys) (keep_all xs)
