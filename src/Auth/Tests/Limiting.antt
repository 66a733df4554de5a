-- ===== src/Auth/Tests/Limiting.antt =====
-- Logins that fail and succeed.
use mosdns_controller.Base.{
  ℕ, ◌+◌, ◌≡◌, refl, true, false, String, str_eq, ap, ◌≢◌, inl, inr, List, [], ◌∷◌, none, leb,
  arith,
}
use mosdns_controller.Auth.Limiter.{
  Entry, Event, asks, fails, succeeds, after_events, allowed, find, lockout,
}
use mosdns_controller.Auth.Limiter.Bounds.{IsBounded, after_events-IsBounded}
use mosdns_controller.Auth.Limiter.Lockout.{
  failures, failures-allowed, events_from, Undisturbed, failures-locked,
}

abbrev first : List Entry → ℕ
first es = 0

abbrev some_events : List Event
some_events = asks "a" 9 ∷ succeeds "b" ∷ fails "a" 7 ∷ fails "b" 5 ∷ []

after_events-IsBounded_example : IsBounded (after_events first some_events)
after_events-IsBounded_example = after_events-IsBounded first some_events

unknown_key : find "a" [] ≡ none
unfolding find
unknown_key = refl

failures-allowed_example : (allowed "a" 9 (failures first "a" (4 ∷ 3 ∷ 2 ∷ 1 ∷ []) [])).0 ≡ true
failures-allowed_example =
    failures-allowed first "a" (4 ∷ 3 ∷ 2 ∷ 1 ∷ []) 9 [] unknown_key (ground arith)

abbrev guessed : List Event
guessed =
    fails "a" 5
    ∷ fails "a" 4
    ∷ succeeds "b"
    ∷ fails "a" 3
    ∷ asks "a" 2
    ∷ fails "a" 2
    ∷ fails "a" 1
    ∷ fails "b" 1
    ∷ []

b-a : ◌≢◌ {A = String} "b" "a"
b-a e = ground (arith, ap (λ s. str_eq s "a") e)

guessed-Undisturbed : Undisturbed first "a" guessed []
guessed-Undisturbed = (
  (λ e. absurd (e refl)),
  (
    (λ e. absurd (e refl)),
    (
      b-a,
      (
        (λ e. absurd (e refl)),
        (
          (λ e. inl (ground arith)),
          ((λ e. absurd (e refl)), ((λ e. absurd (e refl)), ((λ e. ground arith), tt))),
        ),
      ),
    ),
  ),
)

guessed-refused : (allowed "a" 6 (events_from first guessed [])).0 ≡ false
guessed-refused =
    failures-locked first "a" 5 6 [] (4 ∷ 3 ∷ 2 ∷ 1 ∷ []) guessed [] unknown_key guessed-Undisturbed
      refl refl (ground arith)

abbrev hammered : List Event
hammered = fails "a" 7 ∷ asks "a" 6 ∷ guessed

failures-locked_example : (allowed "a" 9 (events_from first hammered [])).0 ≡ leb (5 + lockout) 9
failures-locked_example =
    failures-locked first "a" 5 9 (7 ∷ []) (4 ∷ 3 ∷ 2 ∷ 1 ∷ []) hammered [] unknown_key
      ((λ e. absurd (e refl)), ((λ e. inr guessed-refused), guessed-Undisturbed)) refl refl
      (ground arith)
