-- ===== src/Auth/Limiter.antt =====
-- controller/internal/auth/ratelimit.go: the limiter of logins. Times are nanoseconds, a key is the
-- address or the name that a login comes with, and the map is a list without two entries of one key.
-- `pick` is the entry that an iteration over a map meets first, which Go does not fix.
pub mod Bounds
pub mod Lockout
use mosdns_controller.Base.{
  ℕ, zero, suc, ◌+◌, String, Bool, true, false, not, ◌&&◌, List, [], ◌∷◌, length, keep, Option,
  none, some, str_eq, if◌then◌else◌, ltb, leb,
}

abbrev pub max_entries : ℕ
max_entries = 4096

-- loginAttemptRetention
abbrev pub retention : ℕ
retention = 600000000000

-- Five minutes.
abbrev pub lockout : ℕ
lockout = 300000000000

-- `until` is `none` for the zero time.
pub record Attempt : Type 0 where
  pub count : ℕ
  pub until : Option ℕ
  pub last_seen : ℕ

pub record Entry : Type 0 where
  pub key : String
  pub attempt : Attempt

unfoldable pub find : String → List Entry → Option Attempt
find key [] = none
find key (e ∷ es) = if str_eq e.key key then some e.attempt else find key es

-- delete(l.failures, key)
unfoldable pub remove : String → List Entry → List Entry
remove key es = keep (λ e. not (str_eq e.key key)) es

-- l.failures[key] = item
unfoldable pub put : String → Attempt → List Entry → List Entry
unfolding remove
put key a es = record { key = key; attempt = a } ∷ remove key es

-- !item.until.After(now)
abbrev pub is_over : Option ℕ → ℕ → Bool
is_over none now = true
is_over (some u) now = leb u now

abbrev pub answer_for : String → ℕ → List Entry → Option Attempt → Bool × List Entry
answer_for key now es none = (true, es)
answer_for key now es (some a) = elim a.until [
  | none ↦ (true, es)
  | some u ↦ if leb u now then (true, remove key es) else (false, es)
]

-- Allowed
unfoldable pub allowed : String → ℕ → List Entry → Bool × List Entry
allowed key now es = answer_for key now es (find key es)

-- The body of Failed for the entry, once more failed at `now`.
unfoldable pub bump : ℕ → Attempt → Attempt
bump now a =
    if leb 5 (a.count + 1)
    then record { count = 0; until = some (now + lockout); last_seen = now }
    else record { count = a.count + 1; until = a.until; last_seen = now }

-- The zero value of a map.
abbrev pub or_zero : Option Attempt → Attempt
or_zero none = record { count = 0; until = none; last_seen = 0 }
or_zero (some a) = a

abbrev pub is_stale : ℕ → Attempt → Bool
is_stale now a = is_over a.until now && leb (a.last_seen + retention) now

-- One entry is removed, at the position or the last one.
unfoldable pub remove_at : ℕ → List Entry → List Entry
remove_at i [] = []
remove_at zero (e ∷ es) = es
remove_at (suc i) (e ∷ []) = []
remove_at (suc i) (e ∷ f ∷ es) = e ∷ remove_at i (f ∷ es)

module _ (pick : List Entry → ℕ) where
  -- The second loop of evict, on fuel: each round removes an entry.
  unfoldable pub shrink : ℕ → List Entry → List Entry
  shrink zero es = es
  shrink (suc fuel) es = elim (leb max_entries (length es)) [
    | true ↦ shrink fuel (remove_at (pick es) es)
    | false ↦ es
  ]

  -- evict
  unfoldable pub evict : ℕ → List Entry → List Entry
  evict now es =
      let fresh = keep (λ e. not (is_stale now e.attempt)) es in shrink (length fresh) fresh

  abbrev pub is_unknown_key : Option Attempt → Bool
  is_unknown_key none = true
  is_unknown_key (some a) = false

  -- The room that Failed makes for a key.
  unfoldable pub make_room : String → ℕ → List Entry → List Entry
  make_room key now es =
      if is_unknown_key (find key es) && leb max_entries (length es) then evict now es else es

  -- Failed
  unfoldable pub record_failure : String → ℕ → List Entry → List Entry
  record_failure key now es =
      let room = make_room key now es in put key (bump now (or_zero (find key room))) room

-- Succeeded
unfoldable pub succeeded : String → List Entry → List Entry
unfolding remove
succeeded key es = remove key es

pub data Event : Type 0 where
  asks : String → ℕ → Event
  fails : String → ℕ → Event
  succeeds : String → Event

unfoldable pub react : (List Entry → ℕ) → Event → List Entry → List Entry
react pick (asks key now) es = (allowed key now es).1
react pick (fails key now) es = record_failure pick key now es
react pick (succeeds key) es = succeeded key es

-- The limiter after events, from the empty map of NewLoginLimiter.
unfoldable pub after_events : (List Entry → ℕ) → List Event → List Entry
after_events pick [] = []
after_events pick (e ∷ earlier) = react pick e (after_events pick earlier)
