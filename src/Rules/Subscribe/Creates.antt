-- ===== src/Rules/Subscribe/Creates.antt =====
-- What createSubscription has done to the sources by the call of allRules.
use mosdns_controller.Base.{
  ℕ, ◌+◌, ◌≡◌, refl, ap, ◌∙◌, sym, subst, ◌⊎◌, inl, inr, String, Bool, true, false, not, ◌||◌, List,
  Option, none, some, str_eq, any, All-weaken, arith, Bool-cases, Option-cases, if◌then◌else◌,
}
use mosdns_controller.Go.Int.{ℤ, pos, negsuc}
use mosdns_controller.Go.Text.{trim_space}
use mosdns_controller.Go.Result.{Error, Result, ok, err, database, reject_if}
use mosdns_controller.Go.Result
use mosdns_controller.Rules.Parsing.{parse_subscription}
use mosdns_controller.Rules.Store.{Binding, SourceRow, Sources, Tables, Env, World, lift}
use mosdns_controller.Rules.Store.Ensures.{
  Holds, Reads, exec-Holds, now-Reads, lift-Reads, bind, read_then, weaken_pair, transaction-Holds,
}
use mosdns_controller.Rules.Catalog.{
  find_source, update_source, remove_source, place, insert_source, insert_binding, has_id, larger,
  check_source, on_sources, with_binding,
}
use mosdns_controller.Rules.Catalog.Kept.{IsCatalog}
use mosdns_controller.Rules.Catalog.Rows.{unused, update_source-place, remove_source-place}
use mosdns_controller.Rules.Subscriptions.{
  Feed, SubscriptionInput, validate_subscription_binding, is_none, route_binding,
}
use mosdns_controller.Rules.Subscribe.Change.{natural, new_source, insert_new, bind_new}
use mosdns_controller.Rules.Subscribe.Requests.{add_subscription, insert_subscription, bind_route}
use mosdns_controller.Rules.Subscribe.Restore.{write-Restores}
use mosdns_controller.Rules.Subscribe.Rebinds.{IsBindable, validate_binding-Reads}
use mosdns_controller.Rules.Subscribe.Writes.{Begins, on_sources-cases}

insert_source-ok :
    (row : SourceRow) (s s' : Sources)
    → insert_source row s ≡ ok s'
    → (check_source row.subscription ≡ true)
      × (s'
          ≡ record s { rows = place row s.rows; sequence = larger s.sequence row.subscription.id })
unfolding insert_source
insert_source-ok row s s' e =
    elim (Bool-cases
      (any (has_id row.subscription.id) s.rows || not (check_source row.subscription))) [
        | inl c ↦ absurd (ground (arith, e, c))
        | inr c ↦ (ground (arith, c), ground (arith, e, c))
      ]

insert_binding-rows :
    (id : ℕ) (b : Binding) (s s' : Sources)
    → insert_binding id b s ≡ ok s'
    → s'.rows ≡ update_source id (with_binding (some b)) s.rows
unfolding insert_binding
insert_binding-rows id b s s' e = elim (Option-cases (find_source id s.rows)) [
  | inl f ↦ absurd (ground (arith, e, f))
  | inr (r, f) ↦ ground (arith, e, f)
]

larger-next : (n : ℕ) → larger n (n + 1) ≡ n + 1
larger-next n = ground arith

module _ (input : SubscriptionInput) (kind digest : String) (patterns : List String)
    (s : Sources) where
  abbrev id : ℕ
  id = s.sequence + 1

  abbrev pub fresh_row : ℕ → ℕ → SourceRow
  fresh_row at interval = new_source input kind digest patterns at interval id

  -- The new row stands in its place under the next identifier, and passes the CHECKs.
  pub record Inserted (s' : Sources) : Type 0 where
    pub at : ℕ
    pub interval : ℕ
    pub given : input.refresh_interval_seconds ≡ pos interval
    pub checked : check_source (fresh_row at interval).subscription ≡ true
    pub new : s' ≡ record s { rows = place (fresh_row at interval) s.rows; sequence = id }

  natural_then :
      (at : ℕ) (z : ℤ) (s' : Sources)
      → z ≡ input.refresh_interval_seconds
      → Result.◌>>=◌ (natural z) (λ interval. insert_source (fresh_row at interval) s) ≡ ok s'
      → Inserted s'
  unfolding new_source
  natural_then at (pos n) s' same_z e =
      let (checked, new) = insert_source-ok (fresh_row at n) s s' e in
      record {
        at = at;
        interval = n;
        given = sym same_z;
        checked = checked;
        new =
            new
            ∙ ap (λ m. record s { rows = place (fresh_row at n) s.rows; sequence = m })
                (larger-next s.sequence);
      }
  natural_then at (negsuc n) s' same_z e = cc

  insert_new-Inserted :
      (at : ℕ) (s' : Sources) → insert_new input kind digest patterns at s ≡ ok s' → Inserted s'
  unfolding insert_new
  insert_new-Inserted at s' e = natural_then at input.refresh_interval_seconds s' refl e

  -- The binding that the input asks for.
  abbrev pub AsAsked : Option Binding → Type 0
  AsAsked none = (str_eq input.category "route" ≡ false) ⊎ (input.priority ≡ none)
  AsAsked (some b) =
      (str_eq input.category "route" ≡ true)
      × (b.upstream_group_id ≡ trim_space input.upstream_group_id)
      × (input.priority ≡ some (pos b.priority))

  -- The row of a subscription is put in, with the binding of a route subscription.
  pub record Created (s' : Sources) : Type 0 where
    pub inserted : Sources
    pub row : Inserted inserted
    pub binding : Option Binding
    pub asked : AsAsked binding
    pub rows : s'.rows ≡ place (with_binding binding (fresh_row row.at row.interval)) s.rows

  unused-id : IsCatalog s → any (has_id id) s.rows ≡ false
  unused-id k = unused s.sequence s.rows (All-weaken s.rows (λ r h. h.fresh) k.sound)

  pub Created-gone : IsCatalog s → (s' : Sources) → Created s' → remove_source id s'.rows ≡ s.rows
  unfolding new_source
  Created-gone k s' c =
      ap (remove_source id) c.rows
      ∙ remove_source-place (with_binding c.binding (fresh_row c.row.at c.row.interval)) s.rows
          (unused-id k)

  Inserted-Created : (s' : Sources) → Inserted s' → AsAsked none → Created s'
  unfolding new_source
  Inserted-Created s' i a = record {
    inserted = s';
    row = i;
    binding = none;
    asked = a;
    rows = ap (λ s. s.rows) i.new;
  }

  bound-Created :
      (u s' : Sources) (b : Binding)
      → IsCatalog s
      → Inserted u
      → AsAsked (some b)
      → insert_binding id b u ≡ ok s'
      → Created s'
  unfolding new_source
  bound-Created u s' b k i a e = record {
    inserted = u;
    row = i;
    binding = some b;
    asked = a;
    rows =
        insert_binding-rows id b u s' e
        ∙ ap (λ u. update_source id (with_binding (some b)) u.rows) i.new
        ∙ update_source-place (with_binding (some b)) (fresh_row i.at i.interval) s.rows
            (unused-id k) (λ r. refl);
  }

  bind_new-Created :
      (at : ℕ) (u s' : Sources) (z : ℤ)
      → IsCatalog s
      → Inserted u
      → str_eq input.category "route" ≡ true
      → input.priority ≡ some z
      → bind_new input.upstream_group_id z at id u ≡ ok s'
      → Created s'
  unfolding bind_new
  bind_new-Created at u s' (pos p) k i route e h = bound-Created u s' _ k i (route, refl, e) h
  bind_new-Created at u s' (negsuc n) k i route e h = cc

module _ (env : Env) (feed : Feed) (input : SubscriptionInput) (kind digest : String)
    (patterns : List String) (t : Tables) (k : IsCatalog t.sources) where
  -- The tables differ from `t` in the sources, which have the new row.
  abbrev Adds : Tables → Type 0
  Adds u =
      (s : Sources) × (u ≡ record t { sources = s })
      × Created input kind digest patterns t.sources s

  bind_route-Holds :
      (at : ℕ) (route : Bool) (o : Option ℤ) (w : World) (u : Sources)
      → w.tables ≡ record t { sources = u }
      → Inserted input kind digest patterns t.sources u
      → str_eq input.category "route" ≡ route
      → input.priority ≡ o
      → Holds
          (λ _ v. Adds v.tables)
          (λ _ _. Unit {0})
          (bind_route env feed input at (t.sources.sequence + 1) route o w)
  bind_route-Holds at true (some z) w u h i route e =
      weaken_pair _
        (exec-Holds env w
          (on_sources (bind_new input.upstream_group_id z at (t.sources.sequence + 1))))
        (λ _ v l.
          let (s, accepted, tables) =
            on_sources-cases (record t { sources = u }) v.tables
              (bind_new input.upstream_group_id z at (t.sources.sequence + 1) u)
              (subst
                (λ t'.
                  on_sources (bind_new input.upstream_group_id z at (t.sources.sequence + 1)) t'
                  ≡ ok v.tables)
                h l) in
          (
            s,
            tables,
            bind_new-Created input kind digest patterns t.sources at u s z k i route e accepted,
          ))
        (λ _ _ _. tt)
  bind_route-Holds at true none w u h i route e = record {
    outcome = (u, h, Inserted-Created input kind digest patterns t.sources u i (inr e));
  }
  bind_route-Holds at false o w u h i route e = record {
    outcome = (u, h, Inserted-Created input kind digest patterns t.sources u i (inl route));
  }

  insert_subscription-Holds :
      (at : ℕ) (w : World)
      → w.tables ≡ t
      → Holds
          (λ id u. (id ≡ t.sources.sequence + 1) × Adds u.tables)
          (λ _ _. Unit {0})
          (insert_subscription env feed input kind digest patterns at w)
  unfolding insert_subscription
  insert_subscription-Holds at w h =
      bind _ _ _ (exec-Holds env w (on_sources (insert_new input kind digest patterns at)))
        (λ _ v l.
          let (s, accepted, tables) =
            on_sources-cases t v.tables (insert_new input kind digest patterns at t.sources) (
              subst (λ t. on_sources (insert_new input kind digest patterns at) t ≡ ok v.tables) h
                l) in
          let i = insert_new-Inserted input kind digest patterns t.sources at s accepted in
          bind {Q' = λ id u. (id ≡ t.sources.sequence + 1) × (u.tables ≡ record t { sources = s })}
            {E' = λ _ _. Unit {0}} _ _ _
            (record {
              outcome = (ap (λ t. t.sources.sequence) tables ∙ ap (λ s. s.sequence) i.new, tables);
            })
            (λ id u h2.
              bind _ _ _
                (subst
                  (λ id.
                    Holds (λ _ v. Adds v.tables) (λ _ _. Unit {0})
                      (bind_route env feed input at id (str_eq input.category "route")
                        input.priority u))
                  (sym h2.0)
                  (bind_route-Holds at (str_eq input.category "route") input.priority u s h2.1 i
                    refl refl))
                (λ _ x a. record { outcome = (h2.0, a) }) (λ _ _ _. tt))
            (λ _ _ _. tt))
        (λ _ _ _. tt)

-- The binding of the input is validated: an access subscription has none, a route subscription one
-- that mosdns can serve.
abbrev pub IsSupported : Env → SubscriptionInput → Type 0
IsSupported env input =
    ((str_eq input.category "access" ≡ true) × (is_none input.priority ≡ true))
    ⊎ ((p : ℤ) × (v : ℕ) × (input.priority ≡ some p) × IsBindable env input.upstream_group_id p v)

module _ (env : Env) (input : SubscriptionInput) where
  route_binding-Reads :
      (o : Option ℤ) (v : Option ℕ) (w : World)
      → input.priority ≡ o
      → Reads w (λ _. IsSupported env input) (route_binding env input.upstream_group_id o v)
  route_binding-Reads none v w e = record { outcome = refl }
  route_binding-Reads (some p) none w e = record { outcome = refl }
  route_binding-Reads (some p) (some v) w e =
      elim (Bool-cases (str_eq (trim_space input.upstream_group_id) "")) [
        | inl c ↦ rw c (record { outcome = refl })
        | inr c ↦ rw c (
            weaken_pair _ (validate_binding-Reads env input.upstream_group_id p v w)
              (λ _ u h. (h.0, inr (p, v, e, h.1))) (λ _ u h. h))
      ]

  IsSupported-if :
      (c : Bool) (w : World)
      → str_eq input.category "access" ≡ c
      → Reads w
          (λ _. IsSupported env input)
          (if c
            then lift (
                reject_if
                  (not (str_eq (trim_space input.upstream_group_id) "")
                    || not (is_none input.priority)
                    || not (is_none input.expected_version))
                  "access subscriptions must not include a binding")
            else route_binding env input.upstream_group_id input.priority input.expected_version)
  IsSupported-if true w c =
      weaken_pair _ (lift-Reads w _) (λ _ u h. (h.0, inl (c, ground (arith, h.1)))) (λ _ u h. h)
  IsSupported-if false w c = route_binding-Reads input.priority input.expected_version w refl

  pub validate_subscription_binding-Reads :
      (w : World) → Reads w (λ _. IsSupported env input) (validate_subscription_binding env input)
  unfolding validate_subscription_binding
  validate_subscription_binding-Reads w = IsSupported-if (str_eq input.category "access") w refl

module _ (env : Env) (feed : Feed) (t : Tables) (k : IsCatalog t.sources) where
  -- The sources with a new row: its domains are those of the body, under the checksum of the body.
  pub record Subscribed (input : SubscriptionInput) (kind body : String) (s : Sources)
      : Type 0 where
    pub patterns : List String
    pub parsed : parse_subscription env.library body ≡ ok patterns
    pub supported : IsSupported env input
    pub created : Created input kind (feed.sha256 body) patterns t.sources s

  pub add_subscription-Begins :
      {I : Type 0} (input : SubscriptionInput) (kind body : String) (w : World)
      → w.tables ≡ t
      → Begins env I (Subscribed input kind body) t (add_subscription env feed input kind body w)
  unfolding add_subscription
  add_subscription-Begins input kind body w h =
      read_then _ _ w h (lift-Reads w (parse_subscription env.library body)) λ patterns w1 h1 p.
        read_then _ _ w1 h1 (validate_subscription_binding-Reads env input w1) λ _ w2 h2 v.
          read_then _ _ w2 h2 (now-Reads env w2) λ at w3 h3 _.
            bind _ _ _
              (transaction-Holds env
                (λ id u.
                  (id ≡ t.sources.sequence + 1)
                  × ((s : Sources) × (u ≡ record t { sources = s })
                      × Created input kind (feed.sha256 body) patterns t.sources s))
                w3 _
                (λ x l.
                  insert_subscription-Holds env feed input kind (feed.sha256 body) patterns t k at x
                    (l ∙ h3)))
              (λ id u c. record {
                outcome = (
                  c.1.0,
                  c.1.1,
                  record { patterns = patterns; parsed = p; supported = v; created = c.1.2 },
                  write-Restores env (remove_source id) c.1.0 t.sources.rows (
                      ap (λ id. remove_source id c.1.0.rows) c.0
                      ∙ Created-gone input kind (feed.sha256 body) patterns t.sources k c.1.0
                          c.1.2),
                );
              })
              (λ e u l. l ∙ h3)
