-- ===== src/Rules/Subscriptions/Bounds.antt =====
-- What validateSubscriptionInput accepts.
use mosdns_controller.Base.{
  ℕ, ◌*◌, ◌≤◌, ◌≡◌, ◌∙◌, ap, String, count, true, false, ◌&&◌, str_eq, arith,
}
use mosdns_controller.Go.Int.{pos}
use mosdns_controller.Go.Text.{trim_space}
use mosdns_controller.Go.Result.{ok}
use mosdns_controller.Rules.Validate.{valid_action}
use mosdns_controller.Rules.Subscriptions.{SubscriptionInput, validate_subscription_input, duration}

-- Below 2^63 nanoseconds the duration is exact.
duration-exact : (n : ℕ) → n ≤ 9223372036 → duration (pos n) ≡ pos (n * 1000000000)
unfolding duration
duration-exact n h = grind arith

-- An accepted input has an action of its category, which is not logging, a name that is not blank, of
-- at most 128 characters, and an address if the kind asks for one; and an interval of at most
-- 9223372036 seconds, whose duration does not wrap around, is between 900 and 2592000.
pub validate_subscription_input_sound :
    (input : SubscriptionInput) (kind : String) (n : ℕ)
    → input.refresh_interval_seconds ≡ pos n
    → n ≤ 9223372036
    → validate_subscription_input input kind ≡ ok tt
    → (valid_action input.category input.action ≡ true)
      × (str_eq input.category "logging" ≡ false)
      × (str_eq (trim_space input.name) "" ≡ false)
      × (count input.name ≤ 128)
      × ((str_eq kind "url" && str_eq (trim_space input.source_url) "") ≡ false)
      × (900 ≤ n)
      × (n ≤ 2592000)
unfolding validate_subscription_input
validate_subscription_input_sound input kind n e h v =
    let exact = ap duration e ∙ duration-exact n h in
    (
      ground (arith, v),
      ground (arith, v),
      ground (arith, v),
      ground (arith, v),
      ground (arith, v),
      ground (arith, v, exact),
      ground (arith, v, exact),
    )
