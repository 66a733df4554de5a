-- ===== src/Go/Text.antt =====
-- The functions of Go's package strings that the program calls, over texts of code points.
pub mod Order
pub mod Split
use Prim.Native.Char.{Char, code}
use Prim.Native.String.{compare as compare_text}
use Prim.Native.Nat.{Ordering}
use mosdns_controller.Base.{
  ℕ, zero, suc, String, Bool, true, false, ◌&&◌, ◌||◌, List, [], ◌∷◌, leb, ◌==◌, str_eq,
  if◌then◌else◌,
}

-- unicode.IsSpace
pub is_space : ℕ → Bool
is_space c =
    leb 9 c && leb c 13
    || c == 32
    || c == 0x85
    || c == 0xa0
    || c == 0x1680
    || leb 0x2000 c && leb c 0x200a
    || c == 0x2028
    || c == 0x2029
    || c == 0x202f
    || c == 0x205f
    || c == 0x3000

trim_left : String → String
trim_left String.[] = ""
trim_left (String.◌∷◌ c s) = if is_space (code c) then trim_left s else String.◌∷◌ c s

-- A character is kept if something after it is kept, or if it is no space.
trim_char : Char → String → String
trim_char c String.[] = if is_space (code c) then "" else String.◌∷◌ c ""
trim_char c (String.◌∷◌ d s) = String.◌∷◌ c (String.◌∷◌ d s)

trim_right : String → String
trim_right String.[] = ""
trim_right (String.◌∷◌ c s) = trim_char c (trim_right s)

-- strings.TrimSpace
unfoldable pub trim_space : String → String
unfolding is_space trim_left trim_char trim_right
trim_space s = trim_right (trim_left s)

-- strings.ToLower, by the rune mapping of the package unicode.
unfoldable pub to_lower : (Char → Char) → String → String
to_lower rune String.[] = ""
to_lower rune (String.◌∷◌ c s) = String.◌∷◌ (rune c) (to_lower rune s)

-- strings.TrimSuffix, for a suffix that is not empty.
unfoldable pub trim_suffix : String → String → String
trim_suffix String.[] suffix = ""
trim_suffix (String.◌∷◌ c s) suffix =
    if str_eq (String.◌∷◌ c s) suffix then "" else String.◌∷◌ c (trim_suffix s suffix)

-- strings.Contains, for a text of one character.
unfoldable pub contains_char : String → ℕ → Bool
contains_char String.[] c = false
contains_char (String.◌∷◌ d s) c = code d == c || contains_char s c

abbrev cons_head : Char → List String → List String
cons_head c [] = String.◌∷◌ c "" ∷ []
cons_head c (x ∷ xs) = String.◌∷◌ c x ∷ xs

-- strings.Split, for a separator of one character.
unfoldable pub split_char : String → ℕ → List String
split_char String.[] c = "" ∷ []
split_char (String.◌∷◌ d s) c =
    let rest = split_char s c in if code d == c then "" ∷ rest else cons_head d rest

-- a < b, byte by byte: for UTF-8 that is the order of code points.
abbrev pub text_lt : String → String → Bool
text_lt a b = elim (compare_text a b) [ Ordering.lt ↦ true | _ ↦ false ]

abbrev pub text_mem : String → List String → Bool
text_mem k [] = false
text_mem k (x ∷ xs) = str_eq x k || text_mem k xs

abbrev pub insert_text : String → List String → List String
insert_text k [] = k ∷ []
insert_text k (x ∷ xs) = if text_lt x k then x ∷ insert_text k xs else k ∷ x ∷ xs

-- sort.Strings: the sorted order of texts is unique, so any sort computes it.
abbrev pub sort_texts : List String → List String
sort_texts [] = []
sort_texts (x ∷ xs) = insert_text x (sort_texts xs)

-- strings.HasPrefix
abbrev pub has_prefix : String → String → Bool
has_prefix s String.[] = true
has_prefix String.[] (String.◌∷◌ d p) = false
has_prefix (String.◌∷◌ c s) (String.◌∷◌ d p) = code c == code d && has_prefix s p

-- strings.Contains
unfoldable pub contains : String → String → Bool
contains String.[] p = has_prefix "" p
contains (String.◌∷◌ c s) p = has_prefix (String.◌∷◌ c s) p || contains s p

-- strings.HasSuffix, for a suffix that is not empty.
unfoldable pub has_suffix : String → String → Bool
has_suffix String.[] suffix = false
has_suffix (String.◌∷◌ c s) suffix = str_eq (String.◌∷◌ c s) suffix || has_suffix s suffix

-- value[:n], for a text in ASCII.
unfoldable pub take_text : ℕ → String → String
take_text zero s = ""
take_text (suc n) String.[] = ""
take_text (suc n) (String.◌∷◌ c s) = String.◌∷◌ c (take_text n s)
