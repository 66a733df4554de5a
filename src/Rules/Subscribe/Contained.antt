-- ===== src/Rules/Subscribe/Contained.antt =====
-- The methods on subscriptions that change no table but the sources.
use mosdns_controller.Base.{ℕ, ◌≡◌, refl, ap, ◌∙◌, sym, List, arith}
use mosdns_controller.Go.Result.{Result, ok, err}
use mosdns_controller.Rules.Store.{
  SourceRow, Sources, Tables, Env, World, M, ◌>>=◌, pure, lift, now, query, exec, transaction,
  continue, undo,
}
use mosdns_controller.Rules.Store.Ensures.{
  Outcome, Reads, Reads-tables, exec-Holds, now-Reads, query-Reads,
}
use mosdns_controller.Rules.Catalog.{on_sources, on_rows}
use mosdns_controller.Rules.Subscribe.{subscription}
use mosdns_controller.Rules.Subscribe.Writes.{subscription-Reads, on_sources-cases}

abbrev pub SourcesOnly : Tables → Tables → Type 0
SourcesOnly t u = u ≡ record t { sources = u.sources }

-- The method changes no table but the sources, whether it fails or not.
abbrev pub Contained : {A : Type 0} → M A → Type 0
Contained m = (w : World) → SourcesOnly w.tables (m w).1.tables

pub SourcesOnly-trans : (t u v : Tables) → SourcesOnly t u → SourcesOnly u v → SourcesOnly t v
SourcesOnly-trans t u v a b = b ∙ ap {A = Tables} (λ t. record t { sources = v.sources }) a

pub SourcesOnly-same : (t u : Tables) → u ≡ t → SourcesOnly t u
SourcesOnly-same t u h = h ∙ ap (λ s. record t { sources = s }) (ap (λ t. t.sources) (sym h))

pub Reads-Contained :
    {A : Type 0} (V : World → A → Type 0) (m : M A) → ((w : World) → Reads w (V w) m) → Contained m
Reads-Contained V m h w = SourcesOnly-same w.tables (m w).1.tables (Reads-tables w m (h w))

continue-Contained :
    {A B : Type 0} (f : A → M B) (t : Tables) (p : Result A × World)
    → SourcesOnly t p.1.tables
    → ((a : A) → Contained (f a))
    → SourcesOnly t (continue p.0 f p.1).1.tables
continue-Contained f t (ok a, w) h k = SourcesOnly-trans t w.tables (f a w).1.tables h (k a w)
continue-Contained f t (err e, w) h k = h

pub bind-Contained :
    {A B : Type 0} (m : M A) (f : A → M B)
    → Contained m
    → ((a : A) → Contained (f a))
    → Contained (m >>= f)
unfolding ◌>>=◌
bind-Contained m f h k w = continue-Contained f w.tables (m w) (h w) k

pub pure-Contained : {A : Type 0} (a : A) → Contained (pure a)
pure-Contained a w = refl

pub lift-Contained : {A : Type 0} (r : Result A) → Contained (lift r)
lift-Contained r w = refl

module _ (env : Env) where
  pub now-Contained : Contained (now env)
  now-Contained = Reads-Contained (λ w a. env.clock w.tick ≡ a) (now env) (now-Reads env)

  pub query-Contained : {A : Type 0} (f : Tables → Result A) → Contained (query env f)
  query-Contained f = Reads-Contained _ (query env f) (λ w. query-Reads env w f)

  pub exec-Contained : (g : Sources → Result Sources) → Contained (exec env (on_sources g))
  exec-Contained g w = pair (exec env (on_sources g) w) (exec-Holds env w (on_sources g)).outcome
    where
      pair :
          (p : Result (Unit {0}) × World)
          → Outcome (λ _ u. on_sources g w.tables ≡ ok u.tables) (λ e u. u.tables ≡ w.tables) p
          → SourcesOnly w.tables p.1.tables
      pair (ok _, u) h =
          let (s, accepted, tables) = on_sources-cases w.tables u.tables (g w.tables.sources) h in
          tables ∙ ap (λ s. record (w.tables) { sources = s }) (ap (λ t. t.sources) (sym tables))
      pair (err e, u) h = SourcesOnly-same w.tables u.tables h

  pub write-Contained : (f : List SourceRow → List SourceRow) → Contained (exec env (on_rows f))
  write-Contained f = exec-Contained (λ s. ok (record s { rows = f s.rows }))

  begin-Contained : Contained (exec env ok)
  begin-Contained w = pair (exec env ok w) (exec-Holds env w ok).outcome
    where
      pair :
          (p : Result (Unit {0}) × World)
          → Outcome (λ _ u. ok w.tables ≡ ok u.tables) (λ e u. u.tables ≡ w.tables) p
          → SourcesOnly w.tables p.1.tables
      pair (ok _, u) h = SourcesOnly-same w.tables u.tables (ground (arith, h))
      pair (err e, u) h = SourcesOnly-same w.tables u.tables h

  undo-Contained :
      {A : Type 0} (t : Tables) (p : Result A × World)
      → SourcesOnly t p.1.tables
      → SourcesOnly t (undo t p).1.tables
  undo-Contained t (ok a, w) h = h
  undo-Contained t (err e, w) h = refl

  pub transaction-Contained : {A : Type 0} (m : M A) → Contained m → Contained (transaction env m)
  unfolding transaction
  transaction-Contained m h w = undo-Contained w.tables _ (
      bind-Contained (exec env ok) _ begin-Contained
        (λ _.
          bind-Contained m _ h (λ a. bind-Contained (exec env ok) _ begin-Contained (λ _ v. refl)))
        w)

  pub subscription-Contained : (id : ℕ) → Contained (subscription env id)
  subscription-Contained id = Reads-Contained _ (subscription env id) (subscription-Reads env id)
