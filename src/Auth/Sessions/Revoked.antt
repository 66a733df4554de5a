-- ===== src/Auth/Sessions/Revoked.antt =====
-- controller/internal/auth/auth.go: what ends sessions, and what a change of password leaves.
use mosdns_controller.Base.{
  keep-yes, keep-no, ℕ, suc, ◌+◌, ◌≡◌, ◌≢◌, refl, ap, subst, sym, ◌∙◌, String, len, Bool, true,
  false, not, List, [], ◌∷◌, keep, Option, none, some, ◌==◌, str_eq, eq_iff, ltb, ◌≤◌, arith, inl,
  inr, Bool-cases,
}
use mosdns_controller.Go.Result.{Error, Result, ok, err, reject_if, reject_if-eq-ok, ◌>>=◌, ◌>>◌}
use mosdns_controller.Auth.Passwords.{Crypto, verify_password, hash_password, validate_credentials}
use mosdns_controller.Auth.Accounts.{
  AdminRow, SessionRow, Accounts, Admin, Env, answer_of, attempt, milli, admin_named, enabled_admin,
  settle, set_password, delete_sessions,
}
use mosdns_controller.Auth.Sessions.{
  hash_in, logout, session, revoked, replace_password, reset_named, store_password, check_found,
  change_password_body, change_password, reset_password_body, reset_password,
}
use mosdns_controller.Auth.Sessions.Sound.{Among, bind-ok, check-ok, answer_of-ok, session-IsLive}

-- What is kept passes the test.
keep-Among :
    {A : Type 0} (p : A → Bool) (xs : List A) (x : A)
    → Among x (keep p xs)
    → Among x xs × (p x ≡ true)
keep-Among p [] x h = absurd h
keep-Among p (y ∷ ys) x h = elim (Bool-cases (p y)) [
  | inl b ↦ elim (subst (Among x) (keep-yes p y ys b) h) [
    | inl s ↦ (inl s, ap p s ∙ b)
    | inr m ↦ let r = keep-Among p ys x m in (inr r.0, r.1)
  ]
  | inr b ↦ let r = keep-Among p ys x (subst (Among x) (keep-no p y ys b) h) in (inr r.0, r.1)
]

-- A session that is accepted after a deletion is one that was not deleted.
survivor :
    (c : Crypto) (env : Env) (token : String) (p : SessionRow → Bool) (t : Accounts) (u : Accounts)
    (a : Admin)
    → u.sessions ≡ (delete_sessions p t).sessions
    → (session c env token u).0 ≡ ok a
    → (s : SessionRow) × (s.token_hash ≡ c.digest token) × (s.admin_id ≡ a.id) × (p s ≡ false)
unfolding delete_sessions
survivor c env token p t u a e h =
    let l = session-IsLive c env token u a h in
    let k = keep-Among (λ s. not (p s)) t.sessions l.row (subst (Among l.row) e l.found) in
    (l.row, l.token_hash, sym l.owner_id ∙ ap (λ x. x.id) (sym l.identity), ground (arith, k.1))

module _ (c : Crypto) (env : Env) where
  pub settle-ok :
      (r : Result Accounts) (t : Accounts) → (settle r t).0 ≡ ok tt → r ≡ ok (settle r t).1
  settle-ok (ok u) t h = refl
  settle-ok (err e) t h = absurd (ground (arith, h))

  -- After a logout that succeeds the token is not accepted again.
  pub logout-ended :
      (token : String) (t : Accounts) (later : Env) (a : Admin)
      → (logout c env token t).0 ≡ ok tt
      → (session c later token (logout c env token t).1).0 ≢ ok a
  unfolding logout
  logout-ended token t later a h k =
      let gone : SessionRow → Bool = λ s. str_eq s.token_hash (c.digest token) in
      let u = answer_of-ok (env.fault 0) (delete_sessions gone t) _ (settle-ok _ t h) in
      let (s, hash, owner, kept) =
        survivor c later token gone t _ a (ap (λ x. x.sessions) (sym u)) k in
      ground (arith, kept, hash, eq_iff s.token_hash (c.digest token))

  -- What a change of password that succeeds has done.
  pub record IsChanged (id : ℕ) (current next kept : String) (t u : Accounts) : Type 0 where
    pub long : 8 ≤ len next
    pub admin : AdminRow
    pub found : enabled_admin id t ≡ some admin
    pub verified : verify_password c current admin.password_hash ≡ true
    pub updated :
        u
        ≡ delete_sessions
            (revoked c env id kept)
            (set_password (milli env.clock) id (hash_password c (env.random 3) next) t)

  pub hash_in-ok :
      (n : ℕ) (password hash : String)
      → hash_in c env n password ≡ ok hash
      → hash_password c (env.random (suc n)) password ≡ hash
  hash_in-ok n password hash h = hashed (env.fault n) (env.fault (suc n)) h
    where
      hashed :
          (x y : Option Error)
          → (answer_of x (tt {0}) >> answer_of y (hash_password c (env.random (suc n)) password))
            ≡ ok hash
          → hash_password c (env.random (suc n)) password ≡ hash
      hashed (some e) y k = absurd (ground (arith, k))
      hashed none y k = answer_of-ok y _ hash k

  store_password-ok :
      (n id : ℕ) (gone : SessionRow → Bool) (hash : String) (t u : Accounts)
      → store_password c env n id gone hash t ≡ ok u
      → delete_sessions gone (set_password (milli env.clock) id hash t) ≡ u
  unfolding store_password
  store_password-ok n id gone hash t u h =
      stored (env.fault n) (env.fault (n + 1)) (env.fault (n + 2)) h
    where
      stored :
          (x y z : Option Error)
          → (answer_of x (set_password (milli env.clock) id hash t) >>= λ changed.
              answer_of y (delete_sessions gone changed) >>= λ cleared. answer_of z cleared)
            ≡ ok u
          → delete_sessions gone (set_password (milli env.clock) id hash t) ≡ u
      stored (some e) y z k = absurd (ground (arith, k))
      stored none (some e) z k = absurd (ground (arith, k))
      stored none none z k = answer_of-ok z _ u k

  check_found-ok :
      (current : String) (x : Option Error) (o : Option AdminRow)
      → check_found c env current x o ≡ ok tt
      → (r : AdminRow) × (o ≡ some r) × (verify_password c current r.password_hash ≡ true)
  check_found-ok current (some e) o h = absurd (ground (arith, h))
  check_found-ok current none none h = absurd (ground (arith, h))
  check_found-ok current none (some r) h = (r, refl, ground (arith, h))

  change_password_body-IsChanged :
      (id : ℕ) (current next kept : String) (t u : Accounts)
      → change_password_body c env id current next kept t ≡ ok u
      → IsChanged id current next kept t u
  unfolding change_password_body replace_password
  change_password_body-IsChanged id current next kept t u h =
      let short = reject_if (ltb (len next) 8) "password must be at least 8 characters" in
      let known = check_found c env current (env.fault 0) (enabled_admin id t) in
      let (long, rest) = check-ok short (known >> replace_password c env id next kept t) u h in
      let (checked, last) = check-ok known (replace_password c env id next kept t) u rest in
      let (r, found, verified) =
        check_found-ok current (env.fault 0) (enabled_admin id t) checked in
      let (hash, hashed, stored) =
        bind-ok (hash_in c env 2 next)
          (λ hash. attempt env 4 tt >> store_password c env 5 id (revoked c env id kept) hash t) u
          last in
      let (begun, done) =
        check-ok (attempt env 4 tt) (store_password c env 5 id (revoked c env id kept) hash t) u
          stored in
      record {
        long = ground (arith, reject_if-eq-ok _ _ long);
        admin = r;
        found = found;
        verified = verified;
        updated = sym (
            ap
              (λ x. delete_sessions (revoked c env id kept) (set_password (milli env.clock) id x t))
              (hash_in-ok 2 next hash hashed)
            ∙ store_password-ok 5 id (revoked c env id kept) hash t u done);
      }

  -- A change of password that succeeds has a new password of at least 8 bytes, for an enabled
  -- administrator whose password was verified; it stores the new one, and afterwards the only token
  -- that is accepted as that administrator is the one that the change came with, if there is one.
  pub change_password-revoked :
      (id : ℕ) (current next kept : String) (t : Accounts)
      → (change_password c env id current next kept t).0 ≡ ok tt
      → IsChanged id current next kept t (change_password c env id current next kept t).1
        × ((later : Env) (token : String) (a : Admin)
            → (session c later token (change_password c env id current next kept t).1).0 ≡ ok a
            → a.id ≡ id
            → (kept ≢ "") × (c.digest token ≡ c.digest kept))
  unfolding change_password
  change_password-revoked id current next kept t h =
      let body = change_password_body c env id current next kept t in
      let u = (settle body t).1 in
      let changed = change_password_body-IsChanged id current next kept t u (settle-ok body t h) in
      let stored = set_password (milli env.clock) id (hash_password c (env.random 3) next) t in
      (
        changed,
        λ later token a k same.
            let (s, hash, owner, spared) =
              survivor c later token (revoked c env id kept) stored u a
                (ap (λ x. x.sessions) changed.updated) k in
            spared_token s token kept id spared (owner ∙ same) hash,
      )
    where
      spared_token :
          (s : SessionRow) (token kept : String) (id : ℕ)
          → revoked c env id kept s ≡ false
          → s.admin_id ≡ id
          → s.token_hash ≡ c.digest token
          → (kept ≢ "") × (c.digest token ≡ c.digest kept)
      spared_token s token kept id r o h = (
        ground (arith, r, o, eq_iff kept ""),
        ground (arith, r, o, h, eq_iff s.token_hash (c.digest kept)),
      )

  -- What a reset of a password that succeeds has done.
  pub record IsReset (username next : String) (t u : Accounts) : Type 0 where
    pub name : String
    pub valid : validate_credentials username next ≡ ok name
    pub admin : AdminRow
    pub found : admin_named name t ≡ some admin
    pub updated :
        u
        ≡ delete_sessions
            (λ s. s.admin_id == admin.id)
            (set_password (milli env.clock) admin.id (hash_password c (env.random 1) next) t)

  reset_named-ok :
      (hash : String) (t u : Accounts) (x : Option Error) (o : Option AdminRow)
      → reset_named c env hash t x o ≡ ok u
      → (r : AdminRow) × (o ≡ some r)
        × (delete_sessions (λ s. s.admin_id == r.id) (set_password (milli env.clock) r.id hash t)
            ≡ u)
  reset_named-ok hash t u (some e) o h = absurd (ground (arith, h))
  reset_named-ok hash t u none none h = absurd (ground (arith, h))
  reset_named-ok hash t u none (some r) h =
      (r, refl, store_password-ok 4 r.id (λ s. s.admin_id == r.id) hash t u h)

  reset_password_body-IsReset :
      (username next : String) (t u : Accounts)
      → reset_password_body c env username next t ≡ ok u
      → IsReset username next t u
  unfolding reset_password_body
  reset_password_body-IsReset username next t u h =
      let (name, valid, rest) =
        bind-ok (validate_credentials username next)
          (λ name. hash_in c env 0 next >>= λ hash.
            attempt env 2 tt >> reset_named c env hash t (env.fault 3) (admin_named name t))
          u h in
      let (hash, hashed, stored) =
        bind-ok (hash_in c env 0 next)
          (λ hash. attempt env 2 tt >> reset_named c env hash t (env.fault 3) (admin_named name t))
          u rest in
      let (begun, done) =
        check-ok (attempt env 2 tt) (reset_named c env hash t (env.fault 3) (admin_named name t)) u
          stored in
      let (r, found, made) = reset_named-ok hash t u (env.fault 3) (admin_named name t) done in
      record {
        name = name;
        valid = valid;
        admin = r;
        found = found;
        updated = sym (
            ap
              (λ x.
                delete_sessions (λ s. s.admin_id == r.id) (set_password (milli env.clock) r.id x t))
              (hash_in-ok 0 next hash hashed)
            ∙ made);
      }

  -- A reset that succeeds stores the new password for the administrator of the name, and afterwards no
  -- token is accepted as that administrator.
  pub reset_password-revoked :
      (username next : String) (t : Accounts)
      → (reset_password c env username next t).0 ≡ ok tt
      → (r : IsReset username next t (reset_password c env username next t).1) × ((later : Env)
            (token : String) (a : Admin)
          → (session c later token (reset_password c env username next t).1).0 ≡ ok a
          → a.id ≢ r.admin.id)
  unfolding reset_password
  reset_password-revoked username next t h =
      let body = reset_password_body c env username next t in
      let u = (settle body t).1 in
      let reset = reset_password_body-IsReset username next t u (settle-ok body t h) in
      let stored =
        set_password (milli env.clock) reset.admin.id (hash_password c (env.random 1) next) t in
      (
        reset,
        λ later token a k same.
            let (s, hash, owner, spared) =
              survivor c later token (λ s. s.admin_id == reset.admin.id) stored u a
                (ap (λ x. x.sessions) reset.updated) k in
            ground (arith, spared, owner ∙ same),
      )
