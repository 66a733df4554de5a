-- ===== src/Ingest/Pages.antt =====
-- controller/internal/queryingest/service.go: Queries, the pages of the log, and the cursor that leads from
-- a page to the next (encodeCursor, decodeCursor).
pub mod Order
pub mod Cursor
pub mod Walk
use Prim.Native.String.{◌++◌ as append}
use mosdns_controller.Base.{
  ℕ, zero, suc, ◌+◌, String, Bool, true, false, not, ◌||◌, ◌&&◌, List, [], ◌∷◌, ◌++◌, length, take,
  keep, map, Option, none, some, ◌==◌, str_eq, ltb, if◌then◌else◌,
}
use mosdns_controller.Go.Int.{ℤ, pos, negsuc, lt, eq}
use mosdns_controller.Go.Text.{split_char}
use mosdns_controller.Go.Result.{Result, ok, err, message, or_fail, ◌>>=◌, ◌>>◌}
use mosdns_controller.Rules.Normalize.{Library}
use mosdns_controller.Ingest.Events.{StoredEvent, Query, Details}
use mosdns_controller.Ingest.Stats.{Device}
use mosdns_controller.Ingest.Filter.{Condition, all_hold, query_conditions}
use mosdns_controller.Ingest.Persist.{Store, with_name}

-- What the code calls: base64.RawURLEncoding, and strconv for integers of 64 bits.
pub record Codec : Type 0 where
  pub encode : String → String
  pub decode : String → Option String
  pub format_int : ℤ → String
  pub parse_int : String → Option ℤ

-- The time and the identifier of a row, which order the log.
pub record Key : Type 0 where
  pub timestamp_ms : ℤ
  pub id : ℕ

abbrev pub key_of : StoredEvent → Key
key_of e = record { timestamp_ms = e.timestamp_ms; id = e.id }

-- ORDER BY q.timestamp_unix_ms DESC,q.id DESC: whether `a` comes before `b`. The condition of a cursor
-- is that the cursor comes before the row.
unfoldable pub newer : Key → Key → Bool
newer a b = lt b.timestamp_ms a.timestamp_ms || eq b.timestamp_ms a.timestamp_ms && ltb b.id a.id

unfoldable pub place_row : StoredEvent → List StoredEvent → List StoredEvent
place_row e [] = e ∷ []
place_row e (r ∷ rs) =
    let rest = place_row e rs in if newer (key_of e) (key_of r) then e ∷ r ∷ rs else r ∷ rest

unfoldable pub ordered : List StoredEvent → List StoredEvent
unfolding place_row
ordered [] = []
ordered (r ∷ rs) = place_row r (ordered rs)

abbrev pub after_cursor : Option Key → StoredEvent → Bool
after_cursor none e = true
after_cursor (some k) e = newer k (key_of e)

-- The rows that the conditions and the cursor select, in their order. The table is put in order first:
-- what the conditions leave out does not change the order of the rest.
unfoldable pub selected : List Condition → Option Key → List StoredEvent → List StoredEvent
unfolding ordered
selected cs cursor rows = keep (after_cursor cursor) (keep (λ e. all_hold e cs) (ordered rows))

pub record Page : Type 0 where
  pub items : List StoredEvent
  pub next_cursor : String

unfoldable pub limit_of : ℤ → ℕ
limit_of (pos n) = if n == 0 || ltb 500 n then 100 else n
limit_of (negsuc n) = 100

module _ (codec : Codec) where
  -- encodeCursor
  unfoldable pub encode_cursor : Key → String
  encode_cursor k =
      codec.encode
        (append (codec.format_int k.timestamp_ms) (append ":" (codec.format_int (pos k.id))))

  abbrev pub key_from : Option ℤ → Option ℤ → Option Key
  key_from (some (pos ts)) (some (pos id)) =
      if ltb id 1 then none else some (record { timestamp_ms = pos ts; id = id })
  key_from _ _ = none

  abbrev pub from_parts : List String → Option Key
  from_parts (ts ∷ id ∷ []) = key_from (codec.parse_int ts) (codec.parse_int id)
  from_parts _ = none

  abbrev pub from_raw : Option String → Option Key
  from_raw none = none
  from_raw (some raw) = from_parts (split_char raw b':')

  -- decodeCursor
  unfoldable pub decode_cursor : String → Option Key
  decode_cursor v = from_raw (codec.decode v)

  abbrev pub cursor_of : String → Result (Option Key)
  cursor_of v =
      if str_eq v ""
      then ok none
      else or_fail (decode_cursor v) (message "invalid cursor") >>= λ k. ok (some k)

  -- The cursor of the last item, for a page that has items.
  abbrev pub last_cursor : List StoredEvent → String
  last_cursor [] = ""
  last_cursor (e ∷ []) = encode_cursor (key_of e)
  last_cursor (e ∷ f ∷ es) = last_cursor (f ∷ es)

  -- The page of the rows that LIMIT lets through, one more than the limit.
  unfoldable pub page_of : ℕ → List StoredEvent → Page
  page_of limit rows =
      if ltb limit (length rows)
      then record { items = take limit rows; next_cursor = last_cursor (take limit rows) }
      else record { items = rows; next_cursor = "" }

  module _ (lib : Library) (store : Store) where
    -- The rows that the statement returns, with LIMIT one above the limit.
    abbrev pub fetched : ℕ → List Condition → Option Key → List StoredEvent
    fetched limit cs cursor =
        map (with_name store.counts.devices) (take (suc limit) (selected cs cursor store.rows))

    -- Queries, where the database answers.
    unfoldable pub queries : Query → Result Page
    unfolding page_of
    queries q = do
      cs ← query_conditions lib q
      cursor ← cursor_of q.cursor
      ok (page_of (limit_of q.limit) (fetched (limit_of q.limit) cs cursor))

    abbrev pub read_on : (String → List StoredEvent) → Result Page → List StoredEvent
    read_on next (err e) = []
    read_on next (ok p) = p.items ++ (if str_eq p.next_cursor "" then [] else next p.next_cursor)

    -- A reader that follows the cursors for a number of pages.
    unfoldable pub walk : ℕ → Query → List StoredEvent
    unfolding queries
    walk zero q = []
    walk (suc n) q = read_on (λ c. walk n (record q { cursor = c })) (queries q)
