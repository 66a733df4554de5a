-- ===== src/Config/Tests/Loading.antt =====
-- The configuration of an environment with one variable.
use mosdns_controller.Base.{◌≡◌, refl, String, none, str_eq, if◌then◌else◌}
use mosdns_controller.Go.Int.{pos}
use mosdns_controller.Go.Text.{trim_space}
use mosdns_controller.Go.Result.{ok}
use mosdns_controller.Config.{Settings, Parsers, default, apply_env, positive, validate, load}
use mosdns_controller.Config.Valid.{IsValid, load-IsValid}

abbrev some_parsers : Parsers
some_parsers = record {
  parse_bool = λ s. ok (str_eq s "true");
  parse_int = λ s. ok (pos 1024);
  split_host_port = λ s. ok (s, "80");
  parse_request_uri = λ s. ok (record { scheme = "http"; host = s });
  parse_duration = λ s. ok (pos 30);
}

abbrev secure_env : String → String
secure_env name = if str_eq name "CONTROLLER_SECURE_COOKIE" then "true" else ""

abbrev loaded : Settings
loaded = record default {
  web = record {
    secure_cookie = str_eq "true" "true";
    session_ttl = pos 30;
    session_ttl_raw = "24h";
  };
  http = record { max_body_bytes = pos 67108864; timeout = pos 30; timeout_raw = "30s" };
}

loads : load some_parsers none secure_env ≡ ok loaded
unfolding load apply_env validate positive trim_space
loads = refl

load-IsValid_example : IsValid some_parsers loaded
load-IsValid_example = load-IsValid some_parsers none secure_env loads
