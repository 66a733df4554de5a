-- ===== src/Rules/Subscribe/Ends.antt =====
-- How a change of the sources ends, for what its methods have done by the call of allRules.
use mosdns_controller.Base.{
  ℕ, ◌≡◌, refl, sym, subst, ◌⊎◌, inl, inr, List, Option, none, some, arith, Bool-cases,
}
use mosdns_controller.Go.Result.{Error, Result, ok, err, joined, is_unknown}
use mosdns_controller.Rules.Store.{Subscription, SourceRow, Sources, Tables, Env, World, M}
use mosdns_controller.Rules.Store.Ensures.{Holds, Reads-tables}
use mosdns_controller.Rules.Publish.{Version, Actor}
use mosdns_controller.Rules.Publish.Guarantees.{IsPublished}
use mosdns_controller.Rules.Read.{listed_rules}
use mosdns_controller.Rules.Subscriptions.{Feed}
use mosdns_controller.Rules.Subscribe.{
  Settled, unlisted, refused, adopted, settle, conclude, answered, Answer, subscription,
}
use mosdns_controller.Rules.Subscribe.Compensation.{
  noted, Sourced, Refused, Settles, settle-Settles,
}
use mosdns_controller.Rules.Subscribe.Change.{Change, same, stale, touched, written}
use mosdns_controller.Rules.Subscribe.Requests.{as_refused, carry_out, finish_delete, removed}
use mosdns_controller.Rules.Subscribe.Restore.{Restores}
use mosdns_controller.Rules.Subscribe.Writes.{Begins, subscription-Reads}

-- The tables `u` with the changed sources `s`: their listed rules are published, or the change was
-- refused, with the rows `rows` to go back to, and the error reported.
abbrev pub Changed :
    {V : Type 0}
    → Env
    → (Version → V)
    → List SourceRow
    → Tables
    → Sources
    → V
    → Option Error
    → Tables
    → Type 0
Changed env wrap rows t s v e u =
    ((published : Version) × (v ≡ wrap published)
      × IsPublished env (record t { sources = s }) (listed_rules t) published u)
    ⊎ ((cause : Error) × (e ≡ some cause) × Refused env rows (record t { sources = s }) u cause)

-- Nothing is changed, and if no error is reported then `I` holds; or the sources are changed to some
-- that satisfy `W`.
abbrev pub Ends :
    {V : Type 0}
    → Env
    → Type 0
    → (Sources → Type 0)
    → (Version → V)
    → Tables
    → V
    → Option Error
    → Tables
    → Type 0
Ends env I W wrap t v e u =
    ((u ≡ t) × (e ≡ none → I)) ⊎ ((s : Sources) × W s × Changed env wrap t.sources.rows t s v e u)

Refused-joined :
    {env : Env} {rows : List SourceRow} {t u : Tables} {e : Error} (x : Error)
    → Refused env rows t u e
    → Refused env rows t u (joined e x)
Refused-joined {env} {rows} {t} {u} {e} x r = record {
  active_row = r.active_row;
  stored = r.stored;
  counter = r.counter;
  sourced = still r.sourced;
}
  where
    still : Sourced env rows t u e → Sourced env rows t u (joined e x)
    still (inl (a, k)) = inl (a, ground (arith, k))
    still (inr (inl a)) = inr (inl a)
    still (inr (inr k)) = inr (inr (noted k))

module _ {V : Type 0} (env : Env) (wrap : Version → V) (rows : List SourceRow) (t : Tables)
    (s : Sources) where
  abbrev ChangedAs : Answer V × World → Type 0
  ChangedAs p = Changed env wrap rows t s p.0.version p.0.error p.1.tables

  answered-Refused :
      (v : V) (e : Error) (p : Result Subscription × World) (u : Tables)
      → p.1.tables ≡ u
      → Refused env rows (record t { sources = s }) u e
      → ChangedAs (answered env v (some e) p)
  answered-Refused v e (ok item, w) u h r =
      inr (e, refl, subst (λ u. Refused env rows (record t { sources = s }) u e) (sym h) r)
  answered-Refused v e (err x, w) u h r = inr (
    joined e x,
    refl,
    Refused-joined x (subst (λ u. Refused env rows (record t { sources = s }) u e) (sym h) r),
  )

  answered-Published :
      (v : Version) (p : Result Subscription × World) (u : Tables)
      → p.1.tables ≡ u
      → IsPublished env (record t { sources = s }) (listed_rules t) v u
      → ChangedAs (answered env (wrap v) none p)
  answered-Published v (ok item, w) u h r =
      inl (v, refl, subst (IsPublished env (record t { sources = s }) (listed_rules t) v) (sym h) r)
  answered-Published v (err x, w) u h r =
      inl (v, refl, subst (IsPublished env (record t { sources = s }) (listed_rules t) v) (sym h) r)

  pub conclude-Changed :
      (zero : V) (id : ℕ) (p : Settled × World)
      → Settles env rows (record t { sources = s }) p
      → ChangedAs (conclude env zero wrap id p)
  unfolding conclude listed_rules
  conclude-Changed zero id (unlisted e, w) h = inr (e, refl, h)
  conclude-Changed zero id (refused v e, w) h = elim (Bool-cases (is_unknown e)) [
    | inl c ↦ rw c (
        answered-Refused (wrap v) e (subscription env id w) w.tables
          (Reads-tables w (subscription env id) (subscription-Reads env id w)) h)
    | inr c ↦ rw c (inr (e, refl, h))
  ]
  conclude-Changed zero id (adopted v, w) h =
      answered-Published v (subscription env id w) w.tables
        (Reads-tables w (subscription env id) (subscription-Reads env id w)) h

pub as_refused-Settles :
    (env : Env) (feed : Feed) (rows : List SourceRow) (t : Tables) (p : Settled × World)
    → Settles env rows t p
    → Settles env rows t (as_refused env feed p)
as_refused-Settles env feed rows t (unlisted e, w) h = h
as_refused-Settles env feed rows t (refused v e, w) h = h
as_refused-Settles env feed rows t (adopted v, w) h = h

module _ (env : Env) (feed : Feed) (actor : Actor) (t : Tables) (I : Type 0)
    (W : Sources → Type 0) where
  -- A change that begins as `Begins` says ends as `Ends` says.
  pub carry_out-Ends :
      {V : Type 0} (zero : V) (wrap : Version → V) (late : Settled × World → Settled × World)
      (p : Result Change × World)
      → ((u : Tables) (q : Settled × World)
          → Settles env t.sources.rows u q
          → Settles env t.sources.rows u (late q))
      → Begins env I W t p
      → Ends env I W wrap t
          (carry_out env feed zero wrap late actor p).0.version
          (carry_out env feed zero wrap late actor p).0.error
          (carry_out env feed zero wrap late actor p).1.tables
  unfolding carry_out
  carry_out-Ends zero wrap late (err e, w) k h = inl (h.outcome, λ n. absurd (ground (arith, n)))
  carry_out-Ends zero wrap late (ok (same item), w) k h = inl (h.outcome.0, λ _. h.outcome.1)
  carry_out-Ends zero wrap late (ok (stale item), w) k h =
      inl (h.outcome, λ n. absurd (ground (arith, n)))
  carry_out-Ends zero wrap late (ok (touched id e), w) k h = absurd h.outcome
  carry_out-Ends zero wrap late (ok (written id restore), w) k h =
      let (s, tables, wanted, back) = h.outcome in
      inr (
        s,
        wanted,
        conclude-Changed env wrap t.sources.rows t s zero id (late (settle env actor restore w)) (
            k (record t { sources = s }) (settle env actor restore w)
              (settle-Settles env actor t.sources.rows (record t { sources = s }) restore back w
                tables)),
      )

  removed-Changed :
      (s : Sources) (p : Settled × World)
      → Settles env t.sources.rows (record t { sources = s }) p
      → Changed env
          (λ v. v)
          t.sources.rows
          t
          s
          (removed env feed p).0.version
          (removed env feed p).0.error
          (removed env feed p).1.tables
  unfolding listed_rules
  removed-Changed s (unlisted e, w) h = inr (e, refl, h)
  removed-Changed s (refused v e, w) h = inr (e, refl, h)
  removed-Changed s (adopted v, w) h = inl (v, refl, h)

  pub finish_delete-Ends :
      (p : Result (M (Unit {0})) × World)
      → Holds
          (λ restore u.
            (s : Sources) × (u.tables ≡ record t { sources = s })
            × W s
            × Restores env s t.sources.rows restore)
          (λ e u. u.tables ≡ t)
          p
      → Ends env I W
          (λ v. v)
          t
          (finish_delete env feed actor p).0.version
          (finish_delete env feed actor p).0.error
          (finish_delete env feed actor p).1.tables
  unfolding finish_delete
  finish_delete-Ends (err e, w) h = inl (h.outcome, λ n. absurd (ground (arith, n)))
  finish_delete-Ends (ok restore, w) h =
      let (s, tables, wanted, back) = h.outcome in
      inr (
        s,
        wanted,
        removed-Changed s (settle env actor restore w) (
            settle-Settles env actor t.sources.rows (record t { sources = s }) restore back w
              tables),
      )
