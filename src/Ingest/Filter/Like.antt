-- ===== src/Ingest/Filter/Like.antt =====
-- The LIKE operator of SQLite with an escape character, and the texts that queryConditions builds for
-- it (controller/internal/queryingest/service.go: escapeLike).
use Prim.Native.Char.{Char, code}
use Prim.Native.String.{◌++◌ as append}
use Prim.Native.String.append.{nil as append_nil, cons as append_cons}
use mosdns_controller.Base.{
  ℕ, ◌+◌, ◌≡◌, refl, String, Bool, true, false, not, ◌||◌, ◌&&◌, List, [], ◌∷◌, ◌++◌, ◌==◌, leb,
  if◌then◌else◌, arith, Bool-cases, ap₂, inl, inr,
}
use mosdns_controller.Go.Text.{has_prefix, contains}

-- A pattern: a character, one character of any kind, or any text.
pub data Token : Type 0 where
  lit : ℕ → Token
  one any_text : Token

abbrev token_of : ℕ → Token
token_of c = if c == b'%' then any_text else if c == b'_' then one else lit c

-- The tokens of a pattern; the flag says that the escape character stands before.
unfoldable pub tokens : Bool → String → List Token
tokens escaped String.[] = []
tokens true (String.◌∷◌ c s) = lit (code c) ∷ tokens false s
tokens false (String.◌∷◌ c s) =
    if code c == b'\\' then tokens true s else token_of (code c) ∷ tokens false s

-- LIKE compares ASCII letters without regard to case.
abbrev pub fold_case : ℕ → ℕ
fold_case c = if leb b'A' c && leb c b'Z' then c + 32 else c

unfoldable pub like_tokens : List Token → String → Bool
like_tokens [] String.[] = true
like_tokens [] (String.◌∷◌ d s) = false
like_tokens (lit c ∷ ts) String.[] = false
like_tokens (lit c ∷ ts) (String.◌∷◌ d s) = fold_case c == fold_case (code d) && like_tokens ts s
like_tokens (one ∷ ts) String.[] = false
like_tokens (one ∷ ts) (String.◌∷◌ d s) = like_tokens ts s
like_tokens (any_text ∷ ts) String.[] = like_tokens ts String.[]
like_tokens (any_text ∷ ts) (String.◌∷◌ d s) =
    like_tokens ts (String.◌∷◌ d s) || like_tokens (any_text ∷ ts) s

-- s LIKE pattern ESCAPE '\'
unfoldable pub like : String → String → Bool
like s pattern = like_tokens (tokens false pattern) s

abbrev is_special : ℕ → Bool
is_special c = c == b'\\' || c == b'%' || c == b'_'

-- escapeLike
unfoldable pub escape_like : String → String
escape_like String.[] = ""
escape_like (String.◌∷◌ c s) =
    if is_special (code c)
    then String.◌∷◌ "\\" (String.◌∷◌ c (escape_like s))
    else String.◌∷◌ c (escape_like s)

abbrev pub literal : String → List Token
literal String.[] = []
literal (String.◌∷◌ c s) = lit (code c) ∷ literal s

append-nil : (t : String) → append "" t ≡ t
append-nil t = λ i. append_nil t i

append-cons : (c : Char) (s t : String) → append (String.◌∷◌ c s) t ≡ String.◌∷◌ c (append s t)
append-cons c s t = λ i. append_cons c s t i

-- An escaped text, read as a pattern, is the text itself.
pub tokens-escape_like :
    (x rest : String) → tokens false (append (escape_like x) rest) ≡ literal x ++ tokens false rest
unfolding tokens escape_like
tokens-escape_like String.[] rest = rw (append-nil rest)
tokens-escape_like (String.◌∷◌ c s) rest = elim (Bool-cases (is_special (code c))) [
  | inl e ↦ rw (e, append-cons, append-cons) (ground (arith, e, tokens-escape_like s rest))
  | inr e ↦ rw (e, append-cons) (ground (arith, e, tokens-escape_like s rest))
]

-- No character is an ASCII capital.
abbrev pub has_no_capital : String → Bool
has_no_capital String.[] = true
has_no_capital (String.◌∷◌ c s) = not (leb b'A' (code c) && leb (code c) b'Z') && has_no_capital s

like-any : (s : String) → like_tokens (any_text ∷ []) s ≡ true
unfolding like_tokens
like-any String.[] = refl
like-any (String.◌∷◌ c s) = ground (arith, like-any s)

like-literal :
    (s x : String)
    → has_no_capital s ≡ true
    → has_no_capital x ≡ true
    → like_tokens (literal x ++ any_text ∷ []) s ≡ has_prefix s x
unfolding like_tokens
like-literal s String.[] h k = like-any s
like-literal String.[] (String.◌∷◌ d x) h k = refl
like-literal (String.◌∷◌ c s) (String.◌∷◌ d x) h k = ground (arith, h, k, like-literal s x)

like-contains_tokens :
    (s x : String)
    → has_no_capital s ≡ true
    → has_no_capital x ≡ true
    → like_tokens (any_text ∷ literal x ++ any_text ∷ []) s ≡ contains s x
unfolding like_tokens contains
like-contains_tokens String.[] x h k = like-literal "" x h k
like-contains_tokens (String.◌∷◌ c s) x h k =
    ap₂ ◌||◌ (like-literal (String.◌∷◌ c s) x h k) (like-contains_tokens s x (ground (arith, h)) k)

-- The pattern of queryConditions: %x%, with x escaped.
unfoldable pub within_pattern : String → String
within_pattern x = append "%" (append (escape_like x) "%")

-- For texts without capitals the pattern finds what strings.Contains finds.
pub like-within_pattern :
    (s x : String)
    → has_no_capital s ≡ true
    → has_no_capital x ≡ true
    → like s (within_pattern x) ≡ contains s x
unfolding like within_pattern tokens
like-within_pattern s x h k =
    rw (append-cons, append-nil, tokens-escape_like) (like-contains_tokens s x h k)
