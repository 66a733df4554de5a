-- ===== src/Auth/Sessions/Opened.antt =====
-- controller/internal/auth/auth.go: the session that a login opens.
use mosdns_controller.Base.{
  ℕ, ◌+◌, ◌<◌, ◌≡◌, refl, ap, subst, sym, ◌∙◌, String, true, false, not, ◌&&◌, List, ◌∷◌, Option,
  none, some, ◌==◌, str_eq, eq_iff, ltb, leb, arith, inl, inr, Bool-cases, any,
}
use mosdns_controller.Go.Text.{trim_space}
use mosdns_controller.Go.Result.{Error, Result, ok, err, or_fail, ◌>>=◌}
use mosdns_controller.Auth.Passwords.{Crypto, verify_password}
use mosdns_controller.Auth.Accounts.{
  same_name, with_admin, opened_with, fail_if, AdminRow, SessionRow, Accounts, Admin, Env,
  answer_of, milli, first, admin_named, session_of, wrap, invalid_credentials,
}
use mosdns_controller.Auth.Sessions.{
  same_csrf, after_lookup, join_admin, judge, session, verify_csrf, authenticate, session_row,
  insert_session, login_body, login,
}
use mosdns_controller.Auth.Sessions.Sound.{
  Among, first_sound, first_complete, bind-ok, check-ok, fail_if-ok, answer_of-ok,
}

pub ok-eq : {V : Type 0} {v w : V} → ok v ≡ ok w → v ≡ w
ok-eq h = ground (arith, h)

-- The administrator that the tests of Login let through.
pub record IsAuthentic (c : Crypto) (username password : String) (t : Accounts) (r : AdminRow)
    : Type 0 where
  pub named : admin_named (trim_space username) t ≡ some r
  pub enabled : r.disabled ≡ false
  pub verified : verify_password c password r.password_hash ≡ true

module _ (c : Crypto) (env : Env) (ttl : ℕ) where
  authenticate-IsAuthentic :
      (username password : String) (t : Accounts) (r : AdminRow)
      → authenticate c env ttl username password t ≡ ok r
      → IsAuthentic c username password t r
  unfolding authenticate
  authenticate-IsAuthentic username password t r h =
      let (x, found, rest) = bind-ok _ _ r h in
      let (enabled, later) = check-ok _ _ r rest in
      let (v, tried, last) = bind-ok _ _ r later in
      let (verified, done) = check-ok (fail_if (not v) invalid_credentials) (ok x) r last in
      let same : x ≡ r = ok-eq done in
      let answer =
        answer_of-ok (env.fault 1) (verify_password c password x.password_hash) v tried in
      let passed = fail_if-ok (not v) invalid_credentials verified in
      subst (IsAuthentic c username password t) same (record {
        named = named (env.fault 0) x found;
        enabled = fail_if-ok _ _ enabled;
        verified = ground (arith, passed, answer);
      })
    where
      named :
          (o : Option Error) (x : AdminRow)
          → (elim o as (λ z. Result AdminRow) [
            | some e ↦ err invalid_credentials
            | none ↦ or_fail (admin_named (trim_space username) t) invalid_credentials
          ])
            ≡ ok x
          → admin_named (trim_space username) t ≡ some x
      named (some e) x k = absurd (ground (arith, k))
      named none x k = ground (arith, k)

  insert_session-ok :
      (s : SessionRow) (t u : Accounts)
      → insert_session c env ttl s t ≡ ok u
      → u ≡ record t { sessions = s ∷ t.sessions }
  unfolding insert_session
  insert_session-ok s t u h =
      elim (Bool-cases (any (λ r. str_eq r.token_hash s.token_hash) t.sessions)) [
        | inl b ↦ absurd (ground (arith, h, b))
        | inr b ↦ sym (ground (arith, h, b))
      ]

  wrap-ok : {V : Type 0} (m : String) (r : Result V) (v : V) → wrap m r ≡ ok v → r ≡ ok v
  wrap-ok m (ok v) w h = h
  wrap-ok m (err e) w h = absurd (ground (arith, h))

  -- What a login that succeeds has done.
  pub record IsOpened (username password ip agent : String) (t : Accounts) (token csrf : String)
      (u : Accounts) : Type 0 where
    pub admin : AdminRow
    pub authentic : IsAuthentic c username password t admin
    pub opened :
        u ≡ record t { sessions = session_row c env ttl admin.id token csrf ip agent ∷ t.sessions }

  login_body-IsOpened :
      (username password ip agent : String) (t : Accounts) (token csrf : String) (u : Accounts)
      → login_body c env ttl username password ip agent t ≡ ok ((token, csrf), u)
      → IsOpened username password ip agent t token csrf u
  unfolding login_body
  login_body-IsOpened username password ip agent t token csrf u h =
      let (r, a, rest) = bind-ok _ _ _ h in
      record {
        admin = r;
        authentic = authenticate-IsAuthentic username password t r a;
        opened = made (env.fault 2) (env.fault 3) (env.fault 4) r rest;
      }
    where
      made :
          (x y z : Option Error) (r : AdminRow)
          → (answer_of x (c.encode_url (env.random 2)) >>= λ tok.
              answer_of y (c.encode_url (env.random 3)) >>= λ cs.
              wrap "create session" (
                answer_of z t
                >>= insert_session c env ttl (session_row c env ttl r.id tok cs ip agent))
              >>= λ v. opened_with tok cs v)
            ≡ ok ((token, csrf), u)
          → u ≡ record t { sessions = session_row c env ttl r.id token csrf ip agent ∷ t.sessions }
      made (some e) y z r k = absurd (ground (arith, k))
      made none (some e) z r k = absurd (ground (arith, k))
      made none none (some e) r k = absurd (ground (arith, k))
      made none none none r k =
          let tok = c.encode_url (env.random 2) in
          let cs = c.encode_url (env.random 3) in
          let (v, inserted, last) =
            bind-ok
              (wrap "create session"
                (insert_session c env ttl (session_row c env ttl r.id tok cs ip agent) t))
              (opened_with tok cs) ((token, csrf), u) k in
          let before =
            insert_session-ok (session_row c env ttl r.id tok cs ip agent) t v
              (wrap-ok "create session" _ v inserted) in
          subst
            (λ p. p.1 ≡ record t {
              sessions = session_row c env ttl r.id p.0.0 p.0.1 ip agent ∷ t.sessions;
            })
            (ok-eq last) before

  login-cases :
      (username password ip agent : String) (t : Accounts) (token csrf : String)
      → (login c env ttl username password ip agent t).0 ≡ ok (token, csrf)
      → IsOpened username password ip agent t token csrf
          (login c env ttl username password ip agent t).1
  unfolding login
  login-cases username password ip agent t token csrf h =
      go (login_body c env ttl username password ip agent t) refl h
    where
      go :
          (r : Result ((String × String) × Accounts))
          → login_body c env ttl username password ip agent t ≡ r
          → (elim r as (λ x. Result (String × String) × Accounts) [
            | err e ↦ (err e, t)
            | ok r ↦ (ok r.0, r.1)
          ]).0
            ≡ ok (token, csrf)
          → IsOpened username password ip agent t token csrf
              (elim r as (λ x. Result (String × String) × Accounts) [
                | err e ↦ (err e, t)
                | ok r ↦ (ok r.0, r.1)
              ]).1
      go (err e) f k = absurd (ground (arith, k))
      go (ok ((tok, cs), u)) f k =
          login_body-IsOpened username password ip agent t token csrf u
            (f ∙ ap (λ p. opened_with p.0 p.1 u) (ok-eq k))

  module _ (later : Env) (working : later.fault 0 ≡ none) where
    judge-ok :
        (t : Accounts) (token : String) (s : SessionRow) (x : AdminRow)
        → leb s.expires_at_ms (milli later.clock) ≡ false
        → (judge c later token t (some (s, x))).0 ≡ ok (record { id = x.id; username = x.username })
    judge-ok t token s x h = rw h refl

    -- The row of a session opens it.
    opened-session :
        (t : Accounts) (r : AdminRow) (token csrf ip agent : String) (rest : List SessionRow)
        → Among r t.admins
        → r.disabled ≡ false
        → t.sessions ≡ session_row c env ttl r.id token csrf ip agent ∷ rest
        → milli later.clock < milli (env.clock + ttl)
        → (a : Admin) × ((session c later token t).0 ≡ ok a) × (a.id ≡ r.id)
    unfolding session first
    opened-session t r token csrf ip agent rest m e s alive =
        let (x, found) =
          first_complete (λ a. a.id == r.id && not a.disabled) t.admins r m (ground (arith, e)) in
        let own = (first_sound (λ a. a.id == r.id && not a.disabled) t.admins x found).1 in
        let row = session_row c env ttl r.id token csrf ip agent in
        let here : session_of (c.digest token) t ≡ some row =
          ground (arith, s, eq_iff (c.digest token) (c.digest token)) in
        let fresh : leb (milli (env.clock + ttl)) (milli later.clock) ≡ false =
          ground (arith, alive) in
        let a : Admin = record { id = x.id; username = x.username } in
        (
          a,
          ap (λ o. (after_lookup c later token t o).0) working
              ∙ ap (λ o. (judge c later token t (join_admin c later t o)).0) here
              ∙ ap (λ o. (judge c later token t (with_admin row o)).0) found
              ∙ judge-ok t token row x fresh,
          ground (arith, own),
        )

    opened-csrf :
        (t : Accounts) (id : ℕ) (token csrf ip agent : String) (rest : List SessionRow)
        → t.sessions ≡ session_row c env ttl id token csrf ip agent ∷ rest
        → milli later.clock < milli (env.clock + ttl)
        → verify_csrf c later token csrf t ≡ true
    unfolding verify_csrf first
    opened-csrf t id token csrf ip agent rest s alive =
        let row = session_row c env ttl id token csrf ip agent in
        let live : List SessionRow → Option SessionRow =
          first (λ r.
            str_eq r.token_hash (c.digest token) && ltb (milli later.clock) r.expires_at_ms) in
        let here : live (row ∷ rest) ≡ some row =
          ground (arith, alive, eq_iff (c.digest token) (c.digest token)) in
        ap (λ o. same_csrf c later csrf (answer_of o (live t.sessions))) working
        ∙ ap (λ o. same_csrf c later csrf (ok o)) (ap live s ∙ here)
        ∙ ground (arith, eq_iff (c.digest csrf) (c.digest csrf))

    -- A login that succeeds is that of an enabled administrator of the name, whose stored password the
    -- given one verifies; and as long as the session has not expired and the database answers, its
    -- token is accepted as that administrator's, and its CSRF token is verified.
    pub login-session :
        (username password ip agent token csrf : String) (t : Accounts)
        → (login c env ttl username password ip agent t).0 ≡ ok (token, csrf)
        → milli later.clock < milli (env.clock + ttl)
        → (r : AdminRow) × IsAuthentic c username password t r
          × ((a : Admin) × ((session c later token
                  (login c env ttl username password ip agent t).1).0
                ≡ ok a)
              × (a.id ≡ r.id))
          × (verify_csrf c later token csrf (login c env ttl username password ip agent t).1 ≡ true)
    login-session username password ip agent token csrf t h alive =
        let o = login-cases username password ip agent t token csrf h in
        let r = o.admin in
        let u = (login c env ttl username password ip agent t).1 in
        let there =
          (first_sound (λ a. same_name a.username (trim_space username)) t.admins r
            o.authentic.named).0 in
        let same = ap (λ x. x.admins) o.opened in
        let rows = ap (λ x. x.sessions) o.opened in
        (
          r,
          o.authentic,
          opened-session u r token csrf ip agent t.sessions (subst (Among r) (sym same) there)
              o.authentic.enabled rows alive,
          opened-csrf u r.id token csrf ip agent t.sessions rows alive,
        )
