-- ===== src/Auth/Sessions/Sound.antt =====
-- controller/internal/auth/auth.go: what a session that is accepted stands for.
use mosdns_controller.Base.{
  ◌<◌, ◌≡◌, refl, ap, subst, sym, String, Bool, true, false, List, [], ◌∷◌, Option, none, some,
  eq_iff, arith, ◌⊎◌, inl, inr, Bool-cases,
}
use mosdns_controller.Go.Result.{Error, Result, ok, err, ◌>>=◌, ◌>>◌}
use mosdns_controller.Auth.Passwords.{Crypto}
use mosdns_controller.Auth.Accounts.{
  with_admin, fail_if, AdminRow, SessionRow, Accounts, Admin, Env, answer_of, milli, first,
  enabled_admin, session_of,
}
use mosdns_controller.Auth.Sessions.{after_lookup, join_admin, judge, session}

abbrev pub Among : {A : Type 0} → A → List A → Type 0
Among x [] = ⊥
Among x (y ∷ ys) = (x ≡ y) ⊎ Among x ys

pub first_sound :
    {A : Type 0} (p : A → Bool) (xs : List A) (x : A)
    → first p xs ≡ some x
    → Among x xs × (p x ≡ true)
unfolding first
first_sound p [] x h = absurd (ground (arith, h))
first_sound p (y ∷ ys) x h = elim (Bool-cases (p y)) [
  | inl b ↦ let e : y ≡ x = ground (arith, h, b) in (inl (sym e), subst (λ z. p z ≡ true) e b)
  | inr b ↦ let rest = first_sound p ys x (ground (arith, h, b)) in (inr rest.0, rest.1)
]

-- A row that passes the test is found, or another one before it.
pub first_complete :
    {A : Type 0} (p : A → Bool) (xs : List A) (x : A)
    → Among x xs
    → p x ≡ true
    → (y : A) × (first p xs ≡ some y)
unfolding first
first_complete p [] x h k = absurd h
first_complete p (y ∷ ys) x h k = elim (Bool-cases (p y)) [
  | inl b ↦ (y, ground (arith, b))
  | inr b ↦ elim h [
    | inl e ↦ absurd (ground (arith, b, k, ap p e))
    | inr m ↦ let (z, f) = first_complete p ys x m k in (z, ground (arith, b, f))
  ]
]

pub bind-ok :
    {V W : Type 0} (m : Result V) (f : V → Result W) (w : W)
    → (m >>= f) ≡ ok w
    → (v : V) × (m ≡ ok v) × (f v ≡ ok w)
bind-ok (ok v) f w h = (v, refl, h)
bind-ok (err e) f w h = absurd (ground (arith, h))

pub check-ok :
    {W : Type 0} (check : Result (Unit {0})) (rest : Result W) (w : W)
    → (check >> rest) ≡ ok w
    → (check ≡ ok tt) × (rest ≡ ok w)
check-ok (ok tt) rest w h = (refl, h)
check-ok (err e) rest w h = absurd (ground (arith, h))

pub fail_if-ok : (b : Bool) (e : Error) → fail_if b e ≡ ok tt → b ≡ false
fail_if-ok true e h = absurd (ground (arith, h))
fail_if-ok false e h = refl

pub answer_of-ok : {V : Type 0} (o : Option Error) (v w : V) → answer_of o v ≡ ok w → v ≡ w
answer_of-ok none v w h = ground (arith, h)
answer_of-ok (some e) v w h = absurd (ground (arith, h))

-- What an accepted token stands for: a session of that token that has not expired, of an enabled
-- administrator.
pub record IsLive (c : Crypto) (env : Env) (token : String) (t : Accounts) (a : Admin)
    : Type 0 where
  pub row : SessionRow
  pub admin : AdminRow
  pub found : Among row t.sessions
  pub token_hash : row.token_hash ≡ c.digest token
  pub alive : milli env.clock < row.expires_at_ms
  pub owner : Among admin t.admins
  pub owner_id : admin.id ≡ row.admin_id
  pub enabled : admin.disabled ≡ false
  pub identity : a ≡ record { id = admin.id; username = admin.username }

module _ (c : Crypto) (env : Env) (token : String) (t : Accounts) (a : Admin) where
  judge_sound :
      (o : Option SessionRow)
      → session_of (c.digest token) t ≡ o
      → (judge c env token t (join_admin c env t o)).0 ≡ ok a
      → IsLive c env token t a
  judge_sound none e h = absurd (ground (arith, h))
  judge_sound (some s) e h = go (enabled_admin s.admin_id t) refl h
    where
      go :
          (r : Option AdminRow)
          → enabled_admin s.admin_id t ≡ r
          → (judge c env token t (with_admin s r)).0 ≡ ok a
          → IsLive c env token t a
      go none f h = absurd (ground (arith, h))
      go (some r) f h =
          let (found, hash) = first_sound _ t.sessions s e in
          let (owner, own) = first_sound _ t.admins r f in
          record {
            row = s;
            admin = r;
            found = found;
            token_hash = ground (arith, hash, eq_iff s.token_hash (c.digest token));
            alive = ground (arith, h);
            owner = owner;
            owner_id = ground (arith, own);
            enabled = ground (arith, own);
            identity = ground (arith, h);
          }

  -- A token that Session accepts belongs to a stored session that has not expired, of an administrator
  -- who is not disabled, and the answer is that administrator.
  pub session-IsLive : (session c env token t).0 ≡ ok a → IsLive c env token t a
  unfolding session
  session-IsLive h = go (env.fault 0) h
    where
      go : (o : Option Error) → (after_lookup c env token t o).0 ≡ ok a → IsLive c env token t a
      go (some e) h = absurd (ground (arith, h))
      go none h = judge_sound (session_of (c.digest token) t) refl h
