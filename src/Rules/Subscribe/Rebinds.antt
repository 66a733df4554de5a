-- ===== src/Rules/Subscribe/Rebinds.antt =====
-- What UpdateSubscriptionBinding has done to the sources by the call of allRules.
use mosdns_controller.Base.{
  ℕ, ◌≡◌, refl, ap, ◌∙◌, sym, String, Bool, true, false, Option, none, some, str_eq, arith,
  Bool-cases, inl, inr, if◌then◌else◌,
}
use mosdns_controller.Go.Int.{ℤ, pos, negsuc, lt}
use mosdns_controller.Go.Text.{trim_space}
use mosdns_controller.Go.Result.{Error, Result, ok, err, database, reject_if}
use mosdns_controller.Go.Result
use mosdns_controller.Rules.Store.{Binding, SourceRow, Sources, Tables, Registry, Env, World, exec}
use mosdns_controller.Rules.Store.Ensures.{
  Reads, call-Reads, now-Reads, lift-Reads, read_then, weaken_pair,
}
use mosdns_controller.Rules.Catalog.{
  find_source, update_source, on_rows, check_binding, with_binding,
}
use mosdns_controller.Rules.Catalog.Kept.{IsCatalog}
use mosdns_controller.Rules.Catalog.Rows.{update_source-back}
use mosdns_controller.Rules.Subscriptions.{Feed, BindingInput, check_registry, validate_binding}
use mosdns_controller.Rules.Subscribe.Change.{natural, rebind, rebound_source}
use mosdns_controller.Rules.Subscribe.Requests.{
  set_binding, bind_if, bind_as, bind_unless, binding_is, update_binding,
}
use mosdns_controller.Rules.Subscribe.Restore.{write-Restores}
use mosdns_controller.Rules.Subscribe.Writes.{Begins, source_then, written-Begins}

-- mosdns has shown a registry of the expected version, where the group is enabled, and the priority
-- is in its range.
pub record IsBindable (env : Env) (group : String) (priority : ℤ) (expected : ℕ) : Type 0 where
  pub registry : Registry
  pub at : ℕ
  pub answered : env.registry at ≡ ok registry
  pub accepted : check_registry group expected registry ≡ ok tt
  pub from_zero : lt priority (pos 0) ≡ false
  pub to_1000 : lt (pos 1000) priority ≡ false

pub validate_binding-Reads :
    (env : Env) (group : String) (priority : ℤ) (expected : ℕ) (w : World)
    → Reads w
        (λ _. IsBindable env group priority expected)
        (validate_binding env group priority expected)
unfolding validate_binding
validate_binding-Reads env group priority expected w =
    read_then _ _ w refl (lift-Reads w _) λ _ w1 h1 a.
      read_then _ _ w1 h1 (call-Reads env w1 env.registry) λ registry w2 h2 b.
        weaken_pair _ (lift-Reads w2 (check_registry group expected registry))
          (λ _ w3 c. (
            c.0 ∙ h2,
            record {
              registry = registry;
              at = w1.tick;
              answered = b;
              accepted = c.1;
              from_zero = ground arith;
              to_1000 = ground arith;
            },
          ))
          (λ e w3 c. c ∙ h2)

rebound-back :
    (row : SourceRow) (b : Binding) (group : String) (priority at : ℕ)
    → row.subscription.binding ≡ some b
    → rebound_source b.upstream_group_id b.priority b.updated_at_ms
        (rebound_source group priority at row)
      ≡ row
rebound-back row b group priority at e =
    ap
      (λ o.
        with_binding
          (rebind b.upstream_group_id b.priority b.updated_at_ms (rebind group priority at o)) row)
      e
    ∙ ap (λ o. with_binding o row) (sym e)

module _ (env : Env) (feed : Feed) (t : Tables) (k : IsCatalog t.sources) (id : ℕ)
    (input : BindingInput) where
  abbrev group : String
  group = trim_space input.upstream_group_id

  natural_then :
      (at : ℕ) (b : Binding) (s : Sources) (z : ℤ)
      → Result.◌>>=◌ (natural z) (λ p.
        if check_binding (record b { upstream_group_id = group; priority = p })
        then ok (record (t.sources) {
          rows = update_source id (rebound_source group p at) t.sources.rows;
        })
        else err database)
        ≡ ok s
      → (p : ℕ) × (z ≡ pos p)
        × (s ≡ record (t.sources) {
          rows = update_source id (rebound_source group p at) t.sources.rows;
        })
  natural_then at b s (pos p) e = (
    p,
    refl,
    elim (Bool-cases (check_binding (record b { upstream_group_id = group; priority = p }))) [
      | inl c ↦ ground (arith, e, c)
      | inr c ↦ absurd (ground (arith, e, c))
    ],
  )
  natural_then at b s (negsuc n) e = cc

  updated :
      (at : ℕ) (b : Binding) (s : Sources)
      → update_binding env feed id input at b t.sources ≡ ok s
      → (p : ℕ) × (input.priority ≡ pos p)
        × (s ≡ record (t.sources) {
          rows = update_source id (rebound_source group p at) t.sources.rows;
        })
  unfolding update_binding
  updated at b s e = natural_then at b s input.priority e

  -- The row of the identifier, bound to the group with the priority, which is validated.
  abbrev pub Bound : Sources → Type 0
  Bound s =
      IsBindable env input.upstream_group_id input.priority input.expected_version
      × ((row : SourceRow) × (find_source id t.sources.rows ≡ some row)
          × ((at : ℕ) × (p : ℕ) × (input.priority ≡ pos p)
              × (s ≡ record (t.sources) {
                rows = update_source id (rebound_source group p at) t.sources.rows;
              })))

  -- The row of the identifier has the binding.
  abbrev pub IsBound : Type 0
  IsBound =
      (row : SourceRow) × (find_source id t.sources.rows ≡ some row)
      × ((b : Binding) × (row.subscription.binding ≡ some b) × (binding_is env feed b input ≡ true))

  bind_unless-Begins :
      (row : SourceRow) (b : Binding) (c : Bool) (w : World)
      → w.tables ≡ t
      → find_source id t.sources.rows ≡ some row
      → row.subscription.binding ≡ some b
      → IsBindable env input.upstream_group_id input.priority input.expected_version
      → binding_is env feed b input ≡ c
      → Begins env IsBound Bound t (bind_unless env feed id input row.subscription b c w)
  bind_unless-Begins row b true w h f e v c = record { outcome = (h, (row, f, (b, e, c))) }
  bind_unless-Begins row b false w h f e v c = read_then _ _ w h (now-Reads env w) λ at w1 h1 _.
      written-Begins env (update_binding env feed id input at b) id
        (exec env (
          on_rows
            (update_source id (rebound_source b.upstream_group_id b.priority b.updated_at_ms))))
        w1 h1
        λ s a.
          let (p, priority, new) = updated at b s a in
          (
            (v, (row, f, (at, p, priority, new))),
            write-Restores env _ s t.sources.rows (
                ap
                  (λ s.
                    update_source id (rebound_source b.upstream_group_id b.priority b.updated_at_ms)
                      s.rows)
                  new
                ∙ update_source-back id (rebound_source group p at) _ t.sources.rows row k.ascending
                    f (λ r. refl) (rebound-back row b group p at e)),
          )

  bind_as-Begins :
      (row : SourceRow) (o : Option Binding) (w : World)
      → w.tables ≡ t
      → find_source id t.sources.rows ≡ some row
      → row.subscription.binding ≡ o
      → Begins env IsBound Bound t (bind_as env feed id input row.subscription o w)
  bind_as-Begins row none w h f e = record { outcome = h }
  bind_as-Begins row (some b) w h f e =
      read_then _ _ w h
        (validate_binding-Reads env input.upstream_group_id input.priority input.expected_version w)
        λ _ w1 h1 v. bind_unless-Begins row b (binding_is env feed b input) w1 h1 f e v refl

  bind_if-Begins :
      (row : SourceRow) (c : Bool) (w : World)
      → w.tables ≡ t
      → find_source id t.sources.rows ≡ some row
      → Begins env IsBound Bound t (bind_if env feed id input row.subscription c w)
  bind_if-Begins row false w h f = record { outcome = h }
  bind_if-Begins row true w h f = bind_as-Begins row row.subscription.binding w h f refl

  pub set_binding-Begins :
      (w : World) → w.tables ≡ t → Begins env IsBound Bound t (set_binding env feed id input w)
  unfolding set_binding
  set_binding-Begins w h =
      source_then env id _ w h
        λ row w1 h1 f. bind_if-Begins row (str_eq row.subscription.category "route") w1 h1 f
