-- ===== src/Auth/Sessions/Initial.antt =====
-- controller/internal/auth/auth.go: the first administrator.
use mosdns_controller.Base.{
  ◌≡◌, refl, ap, subst, sym, String, true, not, List, [], ◌∷◌, Option, none, some, arith, ◌⊎◌, inl,
  inr, Bool-cases, Option-cases,
}
use mosdns_controller.Go.Result.{Error, Result, ok, err, joined, message, ◌>>=◌, ◌>>◌, Result-cases}
use mosdns_controller.Auth.Passwords.{Crypto, hash_password, validate_credentials}
use mosdns_controller.Auth.Accounts.{
  fail_if, AdminRow, Accounts, Env, answer_of, attempt, milli, add_admin, wrap, is_none,
  initial_admin_exists,
}
use mosdns_controller.Auth.Sessions.{
  hash_in, insert_first, check_created, answer_created, left_by, make_first, create_initial_body,
  create_initial_admin,
}
use mosdns_controller.Auth.Sessions.Sound.{bind-ok, check-ok}
use mosdns_controller.Auth.Sessions.Revoked.{hash_in-ok}

module _ (c : Crypto) (env : Env) where
  pub record IsFirst (username password : String) (late u : Accounts) : Type 0 where
    pub empty : late.admins ≡ []
    pub name : String
    pub valid : validate_credentials username password ≡ ok name
    pub made : u ≡ add_admin (milli env.clock) name (hash_password c (env.random 2) password) late

  is_none-eq : (xs : List AdminRow) → is_none xs ≡ true → xs ≡ []
  is_none-eq [] h = refl
  is_none-eq (x ∷ xs) h = absurd (ground (arith, h))

  -- What the method answers after its statement: it fails, with the tables as they were; or the row is
  -- there, and RowsAffected fails; or the row is there.
  abbrev pub Created : String → String → Accounts → Result (Unit {0}) × Accounts → Type 0
  Created username password late p =
      ((e : Error) × (p ≡ (err e, late)))
      ⊎ ((x : Error) × (env.fault 4 ≡ some x)
          × (p.0 ≡ err (joined (message "check initial admin creation") x))
          × IsFirst username password late p.1)
      ⊎ ((p.0 ≡ ok tt) × IsFirst username password late p.1)

  answer_created-Created :
      (username password name hash : String) (late : Accounts)
      → validate_credentials username password ≡ ok name
      → hash_password c (env.random 2) password ≡ hash
      → Created username password late (answer_created c env (insert_first c env name hash late))
  unfolding insert_first check_created
  answer_created-Created username password name hash late valid hashed =
      elim (Bool-cases (is_none late.admins)) [
        | inl b ↦
            let first : IsFirst username password late
                (add_admin (milli env.clock) name hash late) =
              record {
                empty = is_none-eq late.admins b;
                name = name;
                valid = valid;
                made = ap (λ x. add_admin (milli env.clock) name x late) (sym hashed);
              } in
            elim (Option-cases (env.fault 4)) [
              | inl e ↦ rw (b, e) (inr (inr (refl, first)))
              | inr (x, e) ↦ rw (b, e) (inr (inl (x, refl, refl, first)))
            ]
        | inr b ↦ elim (Option-cases (env.fault 4)) [
          | inl e ↦ rw (b, e) (inl (_, refl))
          | inr (x, e) ↦ rw (b, e) (inl (_, refl))
        ]
      ]

  make_first-Created :
      (username password : String) (late : Accounts) (p : Result (Unit {0}) × Accounts)
      → make_first c env username password late ≡ ok p
      → Created username password late p
  unfolding make_first
  make_first-Created username password late p h =
      let began = wrap "create initial admin" (attempt env 3 tt) in
      let end : String → String → Result (Result (Unit {0}) × Accounts) =
        λ name hash. ok (answer_created c env (insert_first c env name hash late)) in
      let (name, valid, rest) =
        bind-ok (validate_credentials username password)
          (λ name. hash_in c env 1 password >>= λ hash. began >> end name hash) p h in
      let (hash, hashed, stored) =
        bind-ok (hash_in c env 1 password) (λ hash. began >> end name hash) p rest in
      let (x, done) = check-ok began (end name hash) p stored in
      subst (Created username password late) (ground (arith, done)) (
        answer_created-Created username password name hash late valid
          (hash_in-ok c env 1 password hash hashed))

  create_initial_body-ok :
      (username password : String) (t late : Accounts) (p : Result (Unit {0}) × Accounts)
      (x : Option Error)
      → (answer_of x (is_none t.admins) >>= λ required.
          fail_if (not required) initial_admin_exists >> make_first c env username password late)
        ≡ ok p
      → make_first c env username password late ≡ ok p
  create_initial_body-ok username password t late p (some e) h = absurd (ground (arith, h))
  create_initial_body-ok username password t late p none h =
      (check-ok (fail_if (not (is_none t.admins)) initial_admin_exists)
        (make_first c env username password late) p h).1

  -- CreateInitialAdmin, whatever other calls do between its query and its insertion, either fails and
  -- leaves the administrators as they are; or there was none at the insertion, and the new one, with a
  -- valid name and the password that was given, is the only one. Then it succeeds, unless the number
  -- of the rows that were added cannot be read: that is an error, and the administrator is there.
  pub create_initial_admin-IsFirst :
      (username password : String) (t late : Accounts)
      → Created username password late (create_initial_admin c env username password t late)
  unfolding create_initial_admin create_initial_body
  create_initial_admin-IsFirst username password t late =
      elim (Result-cases (create_initial_body c env username password t late)) [
        | inr (e, h) ↦ inl (e, ap (λ r. left_by c env late r) h)
        | inl (p, h) ↦
            subst (Created username password late) (sym (ap (λ r. left_by c env late r) h)) (
              make_first-Created username password late p
                (create_initial_body-ok username password t late p (env.fault 0) h))
      ]
