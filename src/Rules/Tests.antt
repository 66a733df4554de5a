-- ===== src/Rules/Tests.antt =====
-- Runs of the rules service on small data.
mod Validation
mod Publication
mod Editing
mod Reconciling
mod Parsing
mod Subscribing
use mosdns_controller.Base.{ℕ, String, true, List, [], ◌∷◌, none, some, str_eq, if◌then◌else◌}
use mosdns_controller.Go.Int.{pos}
use mosdns_controller.Go.Result.{Result, ok, err, message, Error, outcome_unknown}
use mosdns_controller.Rules.Types.{Rule}
use mosdns_controller.Rules.Normalize.{Library}
use mosdns_controller.Rules.Snapshot.{Snapshot}
use mosdns_controller.Rules.Store.{Env, World, Applied, RuntimeStatus}
use mosdns_controller.Rules.Subscriptions.{Feed}
use mosdns_controller.Rules.Publish.{Actor}
use mosdns_controller.Rules.Run.{fresh_tables, no_sources}

abbrev pub test_library : Library
test_library = record {
  rune_lower = λ c. c;
  to_ascii = ok;
  parse_addr = λ s. ok (record { is4 = true; text = s });
  compile = λ s. ok tt;
}

abbrev pub block_rule : Rule
block_rule = record {
  id = 0;
  category = "access";
  action = "block";
  upstream_group_id = "";
  match_type = "full";
  pattern = "ads.example.";
  priority = pos 100;
  source = "";
  comment = "";
  enabled = true;
  created_at_ms = 0;
  updated_at_ms = 0;
  expected_registry_version = none;
  ipv4_addresses = [];
  ipv6_addresses = [];
  ttl = 0;
}

-- mosdns applies every snapshot, and reports version 1.
abbrev pub test_env : Env
test_env = record {
  library = test_library;
  encode = λ c. "c";
  fault = λ n. none;
  clock = λ n. n;
  status = λ n. ok (record { snapshot_version = 1; checksum = "sha256:c" });
  validate = λ n s. ok (record { valid = true; checksum = s.checksum });
  apply = λ n s. ok (record { applied = true; version = s.version; checksum = s.checksum });
  registry = λ n. ok (record { version = 1; groups = [] });
}

-- mosdns refuses every snapshot.
abbrev pub refusing_env : Env
refusing_env = record test_env { apply = λ n s. err (message "busy") }

-- mosdns does not answer in time, and has applied nothing.
abbrev pub silent_env : Env
silent_env = record test_env {
  apply = λ n s. err outcome_unknown;
  status = λ n. err (message "down");
}

-- Every download gives one domain.
abbrev pub test_feed : Feed
test_feed = record {
  parse_url = λ s. ok (record { scheme = "https"; host = "lists.example"; text = s });
  new_request = λ s. ok tt;
  do_request = λ n s. ok (record {
    status_code = 200;
    status = "200 OK";
    body = λ limit. ok "ads.example\n";
    url = s;
  });
  sha256 = λ body. "sha256:b";
  error_text = λ e. "failed";
}

abbrev pub admin : Actor
admin = record { admin_id = 1; request_id = "r1"; ip = "192.0.2.1" }

abbrev pub empty_world : World
empty_world = record { tables = fresh_tables no_sources; tick = 0 }

-- mosdns has no snapshot.
abbrev pub fresh_env : Env
fresh_env = record test_env { status = λ n. ok (record { snapshot_version = 0; checksum = "" }) }
