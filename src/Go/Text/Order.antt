-- ===== src/Go/Text/Order.antt =====
-- The order of texts is strict.
use Prim.Native.String.compare
use mosdns_controller.Base.{String, ◌≡◌, true, false, arith}
use mosdns_controller.Go.Text.{text_lt}

-- At most one of two texts is below the other.
pub text_lt_asymm : (a b : String) → text_lt a b ≡ true → text_lt b a ≡ false
text_lt_asymm String.[] String.[] h = ground (arith, compare.nil-nil)
text_lt_asymm String.[] (String.◌∷◌ d t) h = ground (arith, compare.cons-nil d t)
text_lt_asymm (String.◌∷◌ c s) String.[] h = ground (arith, compare.cons-nil c s)
text_lt_asymm (String.◌∷◌ c s) (String.◌∷◌ d t) h =
    ground (arith, compare.cons-cons c d s t, compare.cons-cons d c t s, text_lt_asymm s t)
