-- ===== src/Rules/Store/Ensures.antt =====
-- Postconditions of methods, with a rule for each way to build a method.
use mosdns_controller.Base.{ℕ, ◌≡◌, refl, arith, subst, ◌∙◌, Option-cases, some, inl, inr}
use mosdns_controller.Go.Result.{Error, Result, ok, err}
use mosdns_controller.Rules.Store.{
  Env, World, Tables, M, continue, ◌>>=◌, lift, next, call, now, query, exec, transaction, undo,
  store,
}

abbrev pub Outcome :
    {A : Type 0} → (A → World → Type 0) → (Error → World → Type 0) → Result A × World → Type 0
Outcome Q E (ok a, w) = Q a w
Outcome Q E (err e, w) = E e w

-- What holds of the result, whether it is a value or an error, and of the world after it.
pub record Holds {A : Type 0} (Q : A → World → Type 0) (E : Error → World → Type 0)
    (p : Result A × World) : Type 0 where
  pub outcome : Outcome Q E p

-- The method leaves the tables alone, and its value satisfies `V`.
abbrev pub Reads : {A : Type 0} → World → (A → Type 0) → M A → Type 0
Reads w V m = Holds (λ a w'. (w'.tables ≡ w.tables) × V a) (λ e w'. w'.tables ≡ w.tables) (m w)

module _ {A B : Type 0} {Q : B → World → Type 0} {E : Error → World → Type 0} where
  bind_pair :
      (Q' : A → World → Type 0) (E' : Error → World → Type 0) (p : Result A × World) (f : A → M B)
      → Outcome Q' E' p
      → ((a : A) (w : World) → Q' a w → Holds Q E (f a w))
      → ((e : Error) (w : World) → E' e w → E e w)
      → Holds Q E (continue p.0 f p.1)
  bind_pair Q' E' (ok a, w) f h ka ke = ka a w h
  bind_pair Q' E' (err e, w) f h ka ke = record { outcome = ke e w h }

  pub bind :
      {Q' : A → World → Type 0} {E' : Error → World → Type 0} (m : M A) (f : A → M B) (w : World)
      → Holds Q' E' (m w)
      → ((a : A) (w : World) → Q' a w → Holds Q E (f a w))
      → ((e : Error) (w : World) → E' e w → E e w)
      → Holds Q E ((m >>= f) w)
  unfolding ◌>>=◌
  bind {Q'} {E'} m f w h ka ke = bind_pair Q' E' (m w) f h.outcome ka ke

pub weaken_pair :
    {A : Type 0} {Q Q' : A → World → Type 0} {E E' : Error → World → Type 0} (p : Result A × World)
    → Holds Q E p
    → ((a : A) (w : World) → Q a w → Q' a w)
    → ((e : Error) (w : World) → E e w → E' e w)
    → Holds Q' E' p
weaken_pair (ok a, w) h kq ke = record { outcome = kq a w h.outcome }
weaken_pair (err e, w) h kq ke = record { outcome = ke e w h.outcome }

pub Reads-tables :
    {A : Type 0} {V : A → Type 0} (w : World) (m : M A) → Reads w V m → (m w).1.tables ≡ w.tables
Reads-tables {A} {V} w m h = pair (m w) h.outcome
  where
    pair :
        (p : Result A × World)
        → Outcome (λ a w'. (w'.tables ≡ w.tables) × V a) (λ e w'. w'.tables ≡ w.tables) p
        → p.1.tables ≡ w.tables
    pair (ok a, u) k = k.0
    pair (err e, u) k = k

lift_pair :
    {A : Type 0} (w : World) (r : Result A) (w' : World)
    → w'.tables ≡ w.tables
    → Holds {A = A} (λ a v. (v.tables ≡ w.tables) × (r ≡ ok a)) (λ e v. v.tables ≡ w.tables) (r, w')
lift_pair w (ok a) w' h = record { outcome = (h, refl) }
lift_pair w (err e) w' h = record { outcome = h }

pub lift-Reads : {A : Type 0} (w : World) (r : Result A) → Reads w (λ a. r ≡ ok a) (lift r)
lift-Reads w r = lift_pair w r w refl

-- A step, before the rest of a method of which nothing is asked if it fails.
pub then_ :
    {A B : Type 0} {Q : B → World → Type 0} {Q' : A → World → Type 0} {E : Error → World → Type 0}
    (m : M A) (f : A → M B) (w : World)
    → Holds Q' E (m w)
    → ((a : A) (w' : World) → Q' a w' → Holds Q (λ _ _. Unit {0}) (f a w'))
    → Holds Q (λ _ _. Unit {0}) ((m >>= f) w)
then_ m f w h k = bind m f w h k (λ _ _ _. tt)

-- A step that only reads, before steps that leave the tables `t` alone if they fail.
pub read_then :
    {A B : Type 0} {Q : B → World → Type 0} {V : A → Type 0} {t : Tables} (m : M A) (f : A → M B)
    (w : World)
    → w.tables ≡ t
    → Reads w V m
    → ((a : A) (w' : World) → w'.tables ≡ t → V a → Holds Q (λ _ u. u.tables ≡ t) (f a w'))
    → Holds Q (λ _ u. u.tables ≡ t) ((m >>= f) w)
read_then m f w s h k = bind m f w h (λ a w' l. k a w' (l.0 ∙ s) l.1) (λ e w' l. l ∙ s)

module _ (env : Env) where
  pub call-Reads :
      {A : Type 0} (w : World) (f : ℕ → Result A) → Reads w (λ a. f w.tick ≡ ok a) (call env f)
  unfolding call
  call-Reads w f = lift_pair w (f w.tick) (next w) refl

  pub now-Reads : (w : World) → Reads w (λ a. env.clock w.tick ≡ a) (now env)
  unfolding now
  now-Reads w = record { outcome = (refl, refl) }

  pub query-Reads :
      {A : Type 0} (w : World) (f : Tables → Result A)
      → Reads w (λ a. f w.tables ≡ ok a) (query env f)
  unfolding query
  query-Reads w f = elim (Option-cases (env.fault w.tick)) [
    | inl e ↦ rw (e, query) (lift_pair w (f w.tables) (next w) refl)
    | inr (x, e) ↦ rw (e, query) (record { outcome = refl })
  ]

  stored :
      (w : World) (r : Result Tables)
      → Holds (λ _ w'. r ≡ ok w'.tables) (λ e w'. w'.tables ≡ w.tables) (store (next w) r)
  stored w (ok t) = record { outcome = refl }
  stored w (err e) = record { outcome = refl }

  pub exec-Holds :
      (w : World) (f : Tables → Result Tables)
      → Holds (λ _ w'. f w.tables ≡ ok w'.tables) (λ e w'. w'.tables ≡ w.tables) (exec env f w)
  unfolding exec
  exec-Holds w f = elim (Option-cases (env.fault w.tick)) [
    | inl e ↦ rw (e, exec) (stored w (f w.tables))
    | inr (x, e) ↦ rw (e, exec) (record { outcome = refl })
  ]

  -- A failure of the database that the model leaves open.
  abbrev pub Faulted : Error → Type 0
  Faulted e = (n : ℕ) × (env.fault n ≡ some e)

  -- A statement that the tables accept fails by the database alone.
  pub exec-Writes :
      (w : World) (f : Tables → Result Tables) (t : Tables)
      → f w.tables ≡ ok t
      → Holds (λ _ u. u.tables ≡ t) (λ e u. (u.tables ≡ w.tables) × Faulted e) (exec env f w)
  unfolding exec
  exec-Writes w f t h = elim (Option-cases (env.fault w.tick)) [
    | inl e ↦ rw (e, exec, h) (record { outcome = refl })
    | inr (x, e) ↦ rw (e, exec) (record { outcome = (refl, (w.tick, e)) })
  ]

  -- A SELECT that finds its row fails by the database alone.
  pub query-Finds :
      {A : Type 0} (w : World) (f : Tables → Result A) (a : A)
      → f w.tables ≡ ok a
      → Holds
          (λ b u. (u.tables ≡ w.tables) × (b ≡ a))
          (λ e u. (u.tables ≡ w.tables) × Faulted e)
          (query env f w)
  unfolding query
  query-Finds w f a h = elim (Option-cases (env.fault w.tick)) [
    | inl e ↦ rw (e, query, h) (record { outcome = (refl, refl) })
    | inr (x, e) ↦ rw (e, query) (record { outcome = (refl, (w.tick, e)) })
  ]

  undo_pair :
      {A : Type 0} {Q : A → World → Type 0} {E : Error → World → Type 0} (w : World)
      (p : Result A × World)
      → Holds Q E p
      → Holds Q (λ e w'. w'.tables ≡ w.tables) (undo w.tables p)
  undo_pair w (ok a, w') h = record { outcome = h.outcome }
  undo_pair w (err e, w') h = record { outcome = refl }

  -- A transaction that fails leaves the tables as they were.
  pub transaction-Holds :
      {A : Type 0} (V : A → Tables → Type 0) (w : World) (body : M A)
      → ((v : World)
          → v.tables ≡ w.tables
          → Holds (λ a w'. V a w'.tables) (λ e w'. Unit {0}) (body v))
      → Holds (λ a w'. V a w'.tables) (λ e w'. w'.tables ≡ w.tables) (transaction env body w)
  unfolding transaction
  transaction-Holds {A} V w body h = undo_pair {E = λ _ _. Unit {0}} w _ (
      bind _ _ _ (exec-Holds w ok)
        (λ _ v e.
          bind _ _ _ (h v (ground arith))
            (λ a u k.
              bind _ _ _ (exec-Holds u ok)
                (λ _ x l. record { outcome = subst (V a) (ground arith) k }) (λ _ _ _. tt))
            (λ _ _ _. tt))
        (λ _ _ _. tt))
