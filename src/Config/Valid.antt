-- ===== src/Config/Valid.antt =====
-- controller/internal/config/config.go: what a configuration that Load returns is.
use mosdns_controller.Base.{
  ◌≡◌, ◌≢◌, sym, subst, String, true, false, Option, none, some, eq_iff, arith, inl, inr,
}
use mosdns_controller.Go.Int.{ℤ, pos, lt}
use mosdns_controller.Go.Text.{trim_space}
use mosdns_controller.Go.Result.{Result, ok, Result-cases}
use mosdns_controller.Config.{
  Settings, Url, Parsers, default, apply_env, absolute, positive, validate, load,
}

-- The requirements of a configuration.
pub record IsValid (parsers : Parsers) (c : Settings) : Type 0 where
  pub public_listen :
      (p : String × String) × (parsers.split_host_port c.server.public_listen ≡ ok p)
  pub internal_listen :
      (p : String × String) × (parsers.split_host_port c.server.internal_listen ≡ ok p)
  pub listeners : c.server.public_listen ≢ c.server.internal_listen
  pub storage : trim_space c.storage_path ≢ ""
  pub base_url :
      (u : Url) × (parsers.parse_request_uri c.base_url ≡ ok u) × (u.scheme ≢ "") × (u.host ≢ "")
  pub session_ttl :
      (parsers.parse_duration c.web.session_ttl_raw ≡ ok c.web.session_ttl)
      × (lt (pos 0) c.web.session_ttl ≡ true)
  pub timeout :
      (parsers.parse_duration c.http.timeout_raw ≡ ok c.http.timeout)
      × (lt (pos 0) c.http.timeout ≡ true)
  pub size :
      (lt (pos 0) c.http.max_body_bytes ≡ true) × (lt (pos 67108864) c.http.max_body_bytes ≡ false)

module _ (parsers : Parsers) where
  positive-ok :
      (raw m : String) {d : ℤ}
      → positive parsers raw m ≡ ok d
      → (parsers.parse_duration raw ≡ ok d) × (lt (pos 0) d ≡ true)
  unfolding positive
  positive-ok raw m e = elim (Result-cases (parsers.parse_duration raw)) [
    | inr (x, f) ↦ absurd (ground (arith, e, f))
    | inl (d, f) ↦ ground (arith, e, f)
  ]

  absolute-ok :
      (raw : String)
      → absolute parsers (parsers.parse_request_uri raw) ≡ true
      → (u : Url) × (parsers.parse_request_uri raw ≡ ok u) × (u.scheme ≢ "") × (u.host ≢ "")
  absolute-ok raw e = elim (Result-cases (parsers.parse_request_uri raw)) [
    | inr (x, f) ↦ absurd (ground (arith, e, f))
    | inl (u, f) ↦
        (u, f, ground (arith, e, f, eq_iff u.scheme ""), ground (arith, e, f, eq_iff u.host ""))
  ]

  -- The configuration that is checked last, with its two durations.
  module _ (c : Settings) {ttl timeout : ℤ} {p q : String × String}
      (public : parsers.split_host_port c.server.public_listen ≡ ok p)
      (internal : parsers.split_host_port c.server.internal_listen ≡ ok q)
      (session : positive parsers c.web.session_ttl_raw
          "web.session_ttl must be a positive duration"
        ≡ ok ttl)
      (request : positive parsers c.http.timeout_raw "http.timeout must be a positive duration"
        ≡ ok timeout) where
    abbrev finished : Settings
    finished = record c {
      web = record (c.web) { session_ttl = ttl };
      http = record (c.http) { timeout = timeout };
    }

    validate-finished : {out : Settings} → validate parsers c ≡ ok out → out ≡ finished
    unfolding validate
    validate-finished e = ground (arith, e, public, internal, session, request)

    finished-IsValid : {out : Settings} → validate parsers c ≡ ok out → IsValid parsers finished
    unfolding validate
    finished-IsValid e =
        let same = eq_iff c.server.public_listen c.server.internal_listen in
        let blank = eq_iff (trim_space c.storage_path) "" in
        record {
          public_listen = (p, public);
          internal_listen = (q, internal);
          listeners = λ h. absurd (ground (arith, e, public, internal, h, same));
          storage = λ h. absurd (ground (arith, e, public, internal, h, blank));
          base_url = absolute-ok c.base_url (ground (arith, e, public, internal));
          session_ttl = positive-ok _ _ session;
          timeout = positive-ok _ _ request;
          size = ground (arith, e, public, internal, session, request);
        }

  validate-IsValid :
      (c : Settings) {out : Settings} → validate parsers c ≡ ok out → IsValid parsers out
  unfolding validate
  validate-IsValid c e = elim (Result-cases (parsers.split_host_port c.server.public_listen)) [
    | inr (x, f) ↦ absurd (ground (arith, e, f))
    | inl (p, f) ↦ elim (Result-cases (parsers.split_host_port c.server.internal_listen)) [
      | inr (x, g) ↦ absurd (ground (arith, e, f, g))
      | inl (q, g) ↦
          elim (Result-cases (
            positive parsers c.web.session_ttl_raw "web.session_ttl must be a positive duration")) [
              | inr (x, h) ↦ absurd (ground (arith, e, f, g, h))
              | inl (ttl, h) ↦
                  elim (Result-cases (
                    positive parsers c.http.timeout_raw
                      "http.timeout must be a positive duration")) [
                        | inr (x, k) ↦ absurd (ground (arith, e, f, g, h, k))
                        | inl (timeout, k) ↦
                            subst (IsValid parsers) (sym (validate-finished c f g h k e))
                              (finished-IsValid c f g h k e)
                      ]
            ]
    ]
  ]

  -- What Load returns satisfies every requirement of IsValid, whatever the file and the environment say.
  pub load-IsValid :
      (file : Option (Settings → Result Settings)) (env : String → String) {out : Settings}
      → load parsers file env ≡ ok out
      → IsValid parsers out
  unfolding load
  load-IsValid none env e = elim (Result-cases (apply_env parsers env default)) [
    | inr (x, f) ↦ absurd (ground (arith, e, f))
    | inl (c, f) ↦ validate-IsValid c (ground (arith, e, f))
  ]
  load-IsValid (some decoded) env e = elim (Result-cases (decoded default)) [
    | inr (x, f) ↦ absurd (ground (arith, e, f))
    | inl (c, f) ↦ elim (Result-cases (apply_env parsers env c)) [
      | inr (x, g) ↦ absurd (ground (arith, e, f, g))
      | inl (c', g) ↦ validate-IsValid c' (ground (arith, e, f, g))
    ]
  ]
