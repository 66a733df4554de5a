-- ===== src/Rules/Subscribe/Calls.antt =====
-- The orders keep the tables of the rules consistent.
use mosdns_controller.Base.{
  ℕ, ◌≡◌, refl, ap, sym, subst, String, Bool, true, false, Option, none, some, str_eq,
}
use mosdns_controller.Go.Result.{Result, ok, err}
use mosdns_controller.Rules.Store.{Binding, Subscription, Env, World, M, ◌>>=◌, pure, now, continue}
use mosdns_controller.Rules.Publish.{no_version, Actor}
use mosdns_controller.Rules.Publish.Consistent.{IsConsistent}
use mosdns_controller.Rules.Catalog.{remove_source}
use mosdns_controller.Rules.Subscriptions.{Feed, SubscriptionInput, BindingInput}
use mosdns_controller.Rules.Subscribe.{Settled, unlisted, refused, adopted, settle, flag_matches}
use mosdns_controller.Rules.Subscribe.Change.{Change}
use mosdns_controller.Rules.Subscribe.Requests.{
  as_refused, carry_out, finish_delete, removed, Order, subscribe_url, subscribe_upload, enable,
  bind_group, unsubscribe, carry, add_subscription, create_url, create_upload, set_enabled,
  enable_unless, set_binding, bind_if, bind_as, bind_unless, binding_is, delete_subscription,
  undelete,
}
use mosdns_controller.Rules.Subscribe.Contained.{Contained, write-Contained}
use mosdns_controller.Rules.Subscribe.Tame.{
  create_url-Contained, create_upload-Contained, set_enabled-Contained, set_binding-Contained,
  undelete-Contained, delete_subscription-Contained,
}
use mosdns_controller.Rules.Subscribe.Consistent.{
  Contained-IsConsistent, IsTame, carry_out-IsConsistent, settle-IsConsistent,
}

continue-IsTame :
    {A : Type 0} (f : A → M Change) (p : Result A × World)
    → ((a : A) (w : World) → IsTame (f a w))
    → IsTame (continue p.0 f p.1)
continue-IsTame f (ok a, w) k = k a w
continue-IsTame f (err e, w) k = tt

pub bind-IsTame :
    {A : Type 0} (m : M A) (f : A → M Change)
    → ((a : A) (w : World) → IsTame (f a w))
    → (w : World) → IsTame ((m >>= f) w)
unfolding ◌>>=◌
bind-IsTame m f k w = continue-IsTame f (m w) k

-- What every value of the rest of a method satisfies.
abbrev Gives : {B : Type 0} → (B → Type 0) → Result B × World → Type 0
Gives {B} P p = (b : B) → p.0 ≡ ok b → P b

pure-Gives : {B : Type 0} (P : B → Type 0) (b : B) → P b → (w : World) → Gives P (pure b w)
pure-Gives P b k w c h = subst P (ap (λ r. elim r [ ok v ↦ v | err _ ↦ b ]) h) k

continue-Gives :
    {A B : Type 0} (P : B → Type 0) (f : A → M B) (p : Result A × World)
    → ((a : A) (w : World) → Gives P (f a w))
    → Gives P (continue p.0 f p.1)
continue-Gives P f (ok a, w) k = k a w
continue-Gives P f (err e, w) k = λ b h. cc

bind-Gives :
    {A B : Type 0} (P : B → Type 0) (m : M A) (f : A → M B)
    → ((a : A) (w : World) → Gives P (f a w))
    → (w : World) → Gives P ((m >>= f) w)
unfolding ◌>>=◌
bind-Gives P m f k w = continue-Gives P f (m w) k

module _ (env : Env) (feed : Feed) where
  add_subscription-IsTame :
      (input : SubscriptionInput) (kind body : String) (w : World)
      → IsTame (add_subscription env feed input kind body w)
  unfolding add_subscription
  add_subscription-IsTame input kind body = bind-IsTame _ _ λ _.
      bind-IsTame _ _
        λ _. bind-IsTame _ _ λ _. bind-IsTame _ _ λ id w. write-Contained env (remove_source id)

  create_url-IsTame : (input : SubscriptionInput) (w : World) → IsTame (create_url env feed input w)
  unfolding create_url
  create_url-IsTame input =
      bind-IsTame _ _ λ _. bind-IsTame _ _ λ d. add_subscription-IsTame _ "url" d.body

  create_upload-IsTame :
      (input : SubscriptionInput) (filename body : String) (w : World)
      → IsTame (create_upload env feed input filename body w)
  unfolding create_upload
  create_upload-IsTame input filename body =
      bind-IsTame _ _ λ _. bind-IsTame _ _ λ _. add_subscription-IsTame _ "upload" body

  enable_unless-IsTame :
      (id : ℕ) (enabled : Bool) (item : Subscription) (c : Bool) (w : World)
      → IsTame (enable_unless env feed id enabled item c w)
  enable_unless-IsTame id enabled item true w = tt
  enable_unless-IsTame id enabled item false w =
      bind-IsTame (now env) _ (λ at. bind-IsTame _ _ λ _ w. write-Contained env _) w

  set_enabled-IsTame :
      (id : ℕ) (enabled : Bool) (w : World) → IsTame (set_enabled env feed id enabled w)
  unfolding set_enabled
  set_enabled-IsTame id enabled =
      bind-IsTame _ _
        λ item. enable_unless-IsTame id enabled item (flag_matches item.enabled enabled)

  bind_unless-IsTame :
      (id : ℕ) (input : BindingInput) (item : Subscription) (b : Binding) (c : Bool) (w : World)
      → IsTame (bind_unless env feed id input item b c w)
  bind_unless-IsTame id input item b true w = tt
  bind_unless-IsTame id input item b false w =
      bind-IsTame (now env) _ (λ at. bind-IsTame _ _ λ _ w. write-Contained env _) w

  bind_as-IsTame :
      (id : ℕ) (input : BindingInput) (item : Subscription) (o : Option Binding) (w : World)
      → IsTame (bind_as env feed id input item o w)
  bind_as-IsTame id input item none w = tt
  bind_as-IsTame id input item (some b) w =
      bind-IsTame _ _ (λ _. bind_unless-IsTame id input item b (binding_is env feed b input)) w

  bind_if-IsTame :
      (id : ℕ) (input : BindingInput) (item : Subscription) (c : Bool) (w : World)
      → IsTame (bind_if env feed id input item c w)
  bind_if-IsTame id input item true w = bind_as-IsTame id input item item.binding w
  bind_if-IsTame id input item false w = tt

  set_binding-IsTame :
      (id : ℕ) (input : BindingInput) (w : World) → IsTame (set_binding env feed id input w)
  unfolding set_binding
  set_binding-IsTame id input =
      bind-IsTame _ _ λ item. bind_if-IsTame id input item (str_eq item.category "route")

  as_refused-tables : (q : Settled × World) → (as_refused env feed q).1.tables ≡ q.1.tables
  as_refused-tables (unlisted e, w) = refl
  as_refused-tables (refused v e, w) = refl
  as_refused-tables (adopted v, w) = refl

  removed-tables : (q : Settled × World) → (removed env feed q).1.tables ≡ q.1.tables
  removed-tables (unlisted e, w) = refl
  removed-tables (refused v e, w) = refl
  removed-tables (adopted v, w) = refl

  module _ (actor : Actor) where
    finish_delete-IsConsistent :
        (p : Result (M (Unit {0})) × World)
        → Gives (λ restore. Contained restore) p
        → IsConsistent p.1.tables
        → IsConsistent (finish_delete env feed actor p).1.tables
    unfolding finish_delete
    finish_delete-IsConsistent (err e, w) h k = k
    finish_delete-IsConsistent (ok restore, w) h k =
        subst IsConsistent (sym (removed-tables (settle env actor restore w)))
          (settle-IsConsistent env restore (h restore refl) actor w k)

    carried-IsConsistent :
        (late : Settled × World → Settled × World) (m : M Change) (w : World)
        → ((q : Settled × World) → (late q).1.tables ≡ q.1.tables)
        → ((w : World) → IsTame (m w))
        → Contained m
        → IsConsistent w.tables
        → IsConsistent (carry_out env feed no_version (λ v. v) late actor (m w)).1.tables
    carried-IsConsistent late m w l h c k =
        carry_out-IsConsistent env feed actor no_version (λ v. v) late (m w) l (h w)
          (Contained-IsConsistent m w c k)

    delete-Gives :
        (id : ℕ) (w : World)
        → Gives (λ restore. Contained restore) (delete_subscription env feed id w)
    unfolding delete_subscription
    delete-Gives id = bind-Gives _ _ _ λ item. bind-Gives _ _ _ λ domains.
        bind-Gives _ _ _ λ digest. bind-Gives _ _ _ λ _.
          pure-Gives _ (undelete env feed item digest domains)
            (undelete-Contained env feed item digest domains)

    -- An order keeps the tables consistent, whether it succeeds or fails.
    pub carry-IsConsistent :
        (order : Order) (w : World)
        → IsConsistent w.tables
        → IsConsistent (carry env feed order actor w).1.tables
    unfolding carry
    carry-IsConsistent (subscribe_url input) w k =
        carried-IsConsistent (as_refused env feed) (create_url env feed input) w as_refused-tables
          (create_url-IsTame input) (create_url-Contained env feed input) k
    carry-IsConsistent (subscribe_upload input filename body) w k =
        carried-IsConsistent (as_refused env feed) (create_upload env feed input filename body) w
          as_refused-tables (create_upload-IsTame input filename body)
          (create_upload-Contained env feed input filename body) k
    carry-IsConsistent (enable id enabled) w k =
        carried-IsConsistent (λ s. s) (set_enabled env feed id enabled) w (λ _. refl)
          (set_enabled-IsTame id enabled) (set_enabled-Contained env feed id enabled) k
    carry-IsConsistent (bind_group id input) w k =
        carried-IsConsistent (as_refused env feed) (set_binding env feed id input) w
          as_refused-tables (set_binding-IsTame id input) (set_binding-Contained env feed id input)
          k
    carry-IsConsistent (unsubscribe id) w k =
        finish_delete-IsConsistent (delete_subscription env feed id w) (delete-Gives id w) (
          Contained-IsConsistent (delete_subscription env feed id) w
            (delete_subscription-Contained env feed id) k)
