-- ===== src/Config.antt =====
-- controller/internal/config/config.go: the configuration, from the defaults, a file and the
-- variables of the environment. An error that the source wraps in a text stands for itself.
pub mod Valid
pub mod Tests
use mosdns_controller.Base.{
  ℕ, ◌+◌, ◌*◌, String, Bool, true, false, not, ◌||◌, List, [], Option, none, some, str_eq,
  if◌then◌else◌,
}
use mosdns_controller.Go.Int.{ℤ, pos, lt}
use mosdns_controller.Go.Text.{trim_space}
use mosdns_controller.Go.Result.{Error, Result, ok, err, ◌>>=◌, ◌>>◌, reject_if}

pub record Server : Type 0 where
  pub public_listen : String
  pub internal_listen : String
  pub trusted_proxies : List String

pub record Web : Type 0 where
  pub secure_cookie : Bool
  pub session_ttl : ℤ
  pub session_ttl_raw : String

pub record Http : Type 0 where
  pub max_body_bytes : ℤ
  pub timeout : ℤ
  pub timeout_raw : String

-- The sections of the file; the section of the storage has one field.
pub record Settings : Type 0 where
  pub server : Server
  pub storage_path : String
  pub base_url : String
  pub token_file : String
  pub web : Web
  pub http : Http

pub record Url : Type 0 where
  pub scheme : String
  pub host : String

-- Durations are nanoseconds. The functions of Go's library that the package calls, but for those of
-- the package strings: strconv.ParseBool and ParseInt, net.SplitHostPort, url.ParseRequestURI and
-- time.ParseDuration.
pub record Parsers : Type 0 where
  pub parse_bool : String → Result Bool
  pub parse_int : String → Result ℤ
  pub split_host_port : String → Result (String × String)
  pub parse_request_uri : String → Result Url
  pub parse_duration : String → Result ℤ

-- Default
abbrev pub default : Settings
default = record {
  server = record {
    public_listen = "0.0.0.0:8080";
    internal_listen = "0.0.0.0:8081";
    trusted_proxies = [];
  };
  storage_path = "/var/lib/mosdns-controller/controller.db";
  base_url = "http://mosdns:9091";
  token_file = "/run/secrets/mosdns_control_token";
  web = record { secure_cookie = false; session_ttl = pos 0; session_ttl_raw = "24h" };
  http = record { max_body_bytes = pos 67108864; timeout = pos 0; timeout_raw = "30s" };
}

-- setString: the value of the variable, if it is not empty.
abbrev pub set_string : String → String → String
set_string value target = if str_eq value "" then target else value

-- setBool, and the part of applyEnv that reads a number, with the parser.
abbrev pub set_parsed : {A : Type 0} → (String → Result A) → String → A → Result A
set_parsed parse value target = if str_eq value "" then ok target else parse value

module _ (parsers : Parsers) where
  -- applyEnv: `env` is os.Getenv, the empty text for a variable that is not set.
  unfoldable pub apply_env : (String → String) → Settings → Result Settings
  apply_env env c = do
    secure ← set_parsed parsers.parse_bool (env "CONTROLLER_SECURE_COOKIE") c.web.secure_cookie
    size ← set_parsed parsers.parse_int (env "CONTROLLER_MAX_BODY_BYTES") c.http.max_body_bytes
    ok (record {
      server = record (c.server) {
        public_listen = set_string (env "CONTROLLER_PUBLIC_LISTEN") c.server.public_listen;
        internal_listen = set_string (env "CONTROLLER_INTERNAL_LISTEN") c.server.internal_listen;
      };
      storage_path = set_string (env "CONTROLLER_STORAGE_PATH") c.storage_path;
      base_url = set_string (env "CONTROLLER_MOSDNS_BASE_URL") c.base_url;
      token_file = set_string (env "CONTROLLER_MOSDNS_TOKEN_FILE") c.token_file;
      web = record (c.web) {
        secure_cookie = secure;
        session_ttl_raw = set_string (env "CONTROLLER_SESSION_TTL") c.web.session_ttl_raw;
      };
      http = record (c.http) {
        max_body_bytes = size;
        timeout_raw = set_string (env "CONTROLLER_HTTP_TIMEOUT") c.http.timeout_raw;
      };
    })

  abbrev absolute : Result Url → Bool
  absolute (ok u) = not (str_eq u.scheme "" || str_eq u.host "")
  absolute (err e) = false

  -- A duration that parses and is positive, or the error of the message.
  unfoldable pub positive : String → String → Result ℤ
  positive raw m = elim (parsers.parse_duration raw) [
    | err e ↦ reject_if true m >> ok (pos 0)
    | ok d ↦ reject_if (not (lt (pos 0) d)) m >> ok d
  ]

  -- Validate: it sets the two durations.
  unfoldable pub validate : Settings → Result Settings
  validate c = do
    _ ← parsers.split_host_port c.server.public_listen
    _ ← parsers.split_host_port c.server.internal_listen
    reject_if (str_eq c.server.public_listen c.server.internal_listen)
        "public and internal listeners must differ"
    reject_if (str_eq (trim_space c.storage_path) "") "storage.path is required"
    reject_if (not (absolute (parsers.parse_request_uri c.base_url)))
        "mosdns.base_url must be an absolute URL"
    ttl ← positive c.web.session_ttl_raw "web.session_ttl must be a positive duration"
    timeout ← positive c.http.timeout_raw "http.timeout must be a positive duration"
    reject_if (not (lt (pos 0) c.http.max_body_bytes) || lt (pos 67108864) c.http.max_body_bytes)
        "http.max_body_bytes must be between 1 and 67108864"
    ok (record c {
      web = record (c.web) { session_ttl = ttl };
      http = record (c.http) { timeout = timeout };
    })

  -- Load: `decoded` is the file over the defaults, where a path is given.
  unfoldable pub load : Option (Settings → Result Settings) → (String → String) → Result Settings
  load none env = do c ← apply_env env default; validate c
  load (some decoded) env = do c ← decoded default; c' ← apply_env env c; validate c'
