-- ===== src/Go/Text/Split.antt =====
-- Joining texts, and splitting what was joined.
use Prim.Native.String.{◌++◌ as append}
use Prim.Native.String.append.{nil as append_nil, cons as append_cons}
use Prim.Native.Char.{Char, code}
use mosdns_controller.Base.{ℕ, ◌≡◌, refl, String, true, false, [], ◌∷◌, ◌==◌, arith}
use mosdns_controller.Go.Text.{contains_char, split_char}

pub nil_append : (t : String) → append "" t ≡ t
nil_append t = λ i. append_nil t i

pub cons_append : (c : Char) (s t : String) → append (String.◌∷◌ c s) t ≡ String.◌∷◌ c (append s t)
cons_append c s t = λ i. append_cons c s t i

-- A text without the separator is one part.
pub split_char-whole : (s : String) (d : ℕ) → contains_char s d ≡ false → split_char s d ≡ s ∷ []
unfolding split_char contains_char
split_char-whole String.[] d h = refl
split_char-whole (String.◌∷◌ c s) d h =
    let rest = split_char-whole s d (ground (arith, h)) in
    let other : (code c == d) ≡ false = ground (arith, h) in rw (other, rest) refl

-- A part without the separator is split off.
pub split_char-append :
    (s t : String) (d : ℕ) (sep : Char)
    → (code sep == d) ≡ true
    → contains_char s d ≡ false
    → split_char (append s (String.◌∷◌ sep t)) d ≡ s ∷ split_char t d
unfolding split_char contains_char
split_char-append String.[] t d sep e h = rw (nil_append, e) refl
split_char-append (String.◌∷◌ c s) t d sep e h =
    let rest = split_char-append s t d sep e (ground (arith, h)) in
    let other : (code c == d) ≡ false = ground (arith, h) in rw (cons_append, other, rest) refl

pub append_assoc : (s t u : String) → append (append s t) u ≡ append s (append t u)
append_assoc String.[] t u = rw (nil_append, nil_append) refl
append_assoc (String.◌∷◌ c s) t u =
    rw (cons_append, cons_append, cons_append, append_assoc s t u) refl
