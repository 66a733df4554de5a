-- ===== src/Go/Int.antt =====
-- Go's signed integers, where the program tests their sign: `negsuc n` is -(n + 1).
use mathlib.Core.Bool.{Bool, true, false}
use mosdns_controller.Base.{ℕ, zero, suc, ◌+◌, ◌-◌, ltb, ◌==◌, ◌≤◌, if◌then◌else◌}

pub data ℤ : Type 0 where
  pos : ℕ → ℤ
  negsuc : ℕ → ℤ

-- a < b
abbrev pub lt : ℤ → ℤ → Bool
lt (pos a) (pos b) = ltb a b
lt (pos a) (negsuc b) = false
lt (negsuc a) (pos b) = true
lt (negsuc a) (negsuc b) = ltb b a

-- a == b
abbrev pub eq : ℤ → ℤ → Bool
eq (pos a) (pos b) = a == b
eq (pos a) (negsuc b) = false
eq (negsuc a) (pos b) = false
eq (negsuc a) (negsuc b) = a == b

-- 0 ≤ a ≤ n
abbrev pub Within : ℕ → ℤ → Type 0
Within n (pos a) = a ≤ n
Within n (negsuc a) = ⊥

-- -n
abbrev pub minus : ℕ → ℤ
minus zero = pos 0
minus (suc n) = negsuc n

abbrev subtract : ℕ → ℕ → ℤ
subtract a b = if ltb a b then minus (b - a) else pos (a - b)

-- a + b, where the sum fits in the type.
abbrev pub add : ℤ → ℤ → ℤ
add (pos a) (pos b) = pos (a + b)
add (pos a) (negsuc b) = subtract a (suc b)
add (negsuc a) (pos b) = subtract b (suc a)
add (negsuc a) (negsuc b) = negsuc (suc (a + b))

abbrev pub larger : ℤ → ℤ → ℤ
larger a b = if lt a b then b else a
