-- ===== src/Rules/Subscriptions.antt =====
-- controller/internal/rules/subscriptions.go: what a new subscription must be, and its download.
pub mod Bounds
use Prim.Native.String.{◌++◌ as append}
use mosdns_controller.Base.{
  ℕ, ◌+◌, ◌-◌, ◌*◌, ◌%◌, ◌^◌, String, count, len, Bool, true, false, not, ◌&&◌, ◌||◌, List, [], ◌∷◌,
  Option, none, some, ◌==◌, str_eq, if◌then◌else◌, ltb,
}
use mosdns_controller.Go.Int.{ℤ, pos, negsuc, lt}
use mosdns_controller.Go.Text.{trim_space}
use mosdns_controller.Go.Result.{
  Error, Result, ok, err, message, version_conflict, reject_if, or_fail,
}
use mosdns_controller.Go.Result
use mosdns_controller.Rules.Validate.{valid_action}
use mosdns_controller.Rules.Store.{Group, Registry, Env, M, ◌>>=◌, ◌>>◌, lift, call}

pub record SubscriptionInput : Type 0 where
  pub category : String
  pub action : String
  pub name : String
  pub source_url : String
  pub refresh_interval_seconds : ℤ
  pub enabled : Bool
  pub upstream_group_id : String
  pub priority : Option ℤ
  pub expected_version : Option ℕ

pub record BindingInput : Type 0 where
  pub upstream_group_id : String
  pub priority : ℤ
  pub expected_version : ℕ

-- The reading of 64 bits as an int64.
abbrev pub int64 : ℕ → ℤ
int64 n = if ltb n (2 ^ 63) then pos n else negsuc (2 ^ 64 - 1 - n)

-- time.Duration(n) * time.Second, which wraps around.
unfoldable pub duration : ℤ → ℤ
duration (pos n) = int64 (n * 1000000000 % 2 ^ 64)
duration (negsuc n) = int64 ((2 ^ 64 - (n + 1) * 1000000000 % 2 ^ 64) % 2 ^ 64)

-- validateSubscriptionInput
unfoldable pub validate_subscription_input : SubscriptionInput → String → Result (Unit {0})
validate_subscription_input input kind =
    Result.◌>>◌
      (reject_if (not (valid_action input.category input.action) || str_eq input.category "logging")
        "invalid subscription category/action")
      (Result.◌>>◌
        (reject_if (str_eq (trim_space input.name) "" || ltb 128 (count input.name))
          "subscription name must contain 1..128 characters")
        (Result.◌>>◌
          (reject_if (str_eq kind "url" && str_eq (trim_space input.source_url) "")
            "subscription source_url is required")
          (reject_if
            (lt (duration input.refresh_interval_seconds) (pos (900 * 1000000000))
              || lt (pos (2592000 * 1000000000)) (duration input.refresh_interval_seconds))
            "refresh_interval_seconds must be between 900 and 2592000")))

-- The loop of validateBinding.
unfoldable pub has_group : String → List Group → Bool
has_group id [] = false
has_group id (g ∷ gs) = str_eq g.id id && g.enabled || has_group id gs

unfoldable pub check_registry : String → ℕ → Registry → Result (Unit {0})
check_registry group expected registry =
    if not (registry.version == expected)
    then err version_conflict
    else reject_if (not (has_group (trim_space group) registry.groups))
        "upstream group must exist and be enabled"

-- validateBinding
unfoldable pub validate_binding : Env → String → ℤ → ℕ → M (Unit {0})
validate_binding env group priority expected = do
  lift (
      reject_if (lt priority (pos 0) || lt (pos 1000) priority)
        "priority must be between 0 and 1000")
  registry ← call env env.registry
  lift (check_registry group expected registry)

abbrev pub is_none : {A : Type 0} → Option A → Bool
is_none none = true
is_none (some a) = false

abbrev pub incomplete : {A : Type 0} → M A
incomplete = lift (
    err (
      message
        "route subscriptions require upstream_group_id, priority, and expected_upstream_registry_version"))

-- The checks of a route subscription's binding.
abbrev pub route_binding : Env → String → Option ℤ → Option ℕ → M (Unit {0})
route_binding env group none expected = incomplete
route_binding env group (some p) none = incomplete
route_binding env group (some p) (some v) =
    if str_eq (trim_space group) "" then incomplete else validate_binding env group p v

-- validateSubscriptionBinding
unfoldable pub validate_subscription_binding : Env → SubscriptionInput → M (Unit {0})
validate_subscription_binding env input =
    if str_eq input.category "access"
    then lift (
        reject_if
          (not (str_eq (trim_space input.upstream_group_id) "")
            || not (is_none input.priority)
            || not (is_none input.expected_version))
          "access subscriptions must not include a binding")
    else route_binding env input.upstream_group_id input.priority input.expected_version

-- *url.URL, as far as it is read.
pub record Url : Type 0 where
  pub scheme : String
  pub host : String
  pub text : String

-- *http.Response: `body` reads at most so many bytes, `url` is that of the last request.
pub record Response : Type 0 where
  pub status_code : ℕ
  pub status : String
  pub body : ℕ → Result String
  pub url : String

-- The functions outside the repository: url.ParseRequestURI, http.NewRequestWithContext, the n-th
-- call of http.Client.Do, the SHA-256 of a body in hexadecimal, and the text of an error.
pub record Feed : Type 0 where
  pub parse_url : String → Result Url
  pub new_request : String → Result (Unit {0})
  pub do_request : ℕ → String → Result Response
  pub sha256 : String → String
  pub error_text : Error → String

-- A download: the body and the address that it came from.
pub record Download : Type 0 where
  pub body : String
  pub url : String

unfoldable pub check_url : Result Url → Result Url
check_url (err e) = err (message "subscription source_url must be an HTTP(S) URL")
check_url (ok u) =
    if not (str_eq u.scheme "http") && not (str_eq u.scheme "https") || str_eq u.host ""
    then err (message "subscription source_url must be an HTTP(S) URL")
    else ok u

unfoldable pub read_response : Response → Result Download
read_response r =
    Result.◌>>=◌
      (reject_if (not (r.status_code == 200)) (append "download subscription: HTTP " r.status))
      (λ _. Result.◌>>=◌ (r.body 20971521) λ body.
        Result.◌>>=◌
          (reject_if (str_eq body "" || ltb 20971520 (len body))
            "subscription file must contain 1..20971520 bytes")
          (λ _. ok (record { body = body; url = r.url })))

-- downloadSubscription
unfoldable pub download_subscription : Env → Feed → String → M Download
download_subscription env feed source_url = do
  parsed ← lift (check_url (feed.parse_url (trim_space source_url)))
  lift (feed.new_request parsed.text)
  response ← call env (λ n. feed.do_request n parsed.text)
  lift (read_response response)
