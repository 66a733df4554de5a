-- ===== src/Rules/Subscribe/Tame.antt =====
-- Each change of the sources, up to the call of allRules, changes no other table.
use mosdns_controller.Base.{
  ℕ, refl, String, Bool, true, false, not, List, Option, none, some, str_eq,
}
use mosdns_controller.Go.Int.{ℤ}
use mosdns_controller.Go.Result.{err, message, reject_if}
use mosdns_controller.Rules.Parsing.{parse_subscription}
use mosdns_controller.Rules.Store.{Binding, Subscription, Env, lift, now, transaction}
use mosdns_controller.Rules.Catalog.{insert_binding}
use mosdns_controller.Rules.Subscriptions.{
  Feed, SubscriptionInput, BindingInput, download_subscription, validate_binding,
  validate_subscription_binding, validate_subscription_input,
}
use mosdns_controller.Rules.Subscribe.{subscription, flag_matches}
use mosdns_controller.Rules.Subscribe.Change.{Change, same, bind_new, with_interval, is_txt}
use mosdns_controller.Rules.Subscribe.Requests.{
  add_subscription, insert_subscription, bind_route, create_url, create_upload, set_enabled,
  enable_unless, set_binding, bind_if, bind_as, bind_unless, undelete, restore_binding,
  delete_subscription, last_insert_id, binding_is, with_name,
}
use mosdns_controller.Rules.Subscribe.Rebinds.{validate_binding-Reads}
use mosdns_controller.Rules.Subscribe.Creates.{validate_subscription_binding-Reads}
use mosdns_controller.Rules.Subscribe.Guarantees.{download-Reads}
use mosdns_controller.Rules.Subscribe.Contained.{
  Contained, Reads-Contained, bind-Contained, pure-Contained, lift-Contained, now-Contained,
  query-Contained, exec-Contained, write-Contained, transaction-Contained, subscription-Contained,
}

module _ (env : Env) (feed : Feed) where
  bind_route-Contained :
      (input : SubscriptionInput) (at id : ℕ) (route : Bool) (o : Option ℤ)
      → Contained (bind_route env feed input at id route o)
  bind_route-Contained input at id true (some p) =
      exec-Contained env (bind_new input.upstream_group_id p at id)
  bind_route-Contained input at id true none = pure-Contained tt
  bind_route-Contained input at id false o = pure-Contained tt

  add_subscription-Contained :
      (input : SubscriptionInput) (kind body : String)
      → Contained (add_subscription env feed input kind body)
  unfolding add_subscription insert_subscription
  add_subscription-Contained input kind body =
      bind-Contained (lift (parse_subscription env.library body)) _
        (lift-Contained (parse_subscription env.library body))
        λ patterns.
          bind-Contained (validate_subscription_binding env input) _
            (Reads-Contained _ _ (validate_subscription_binding-Reads env input))
            λ _. bind-Contained (now env) _ (now-Contained env) λ at.
              bind-Contained
                (transaction env
                  (insert_subscription env feed input kind (feed.sha256 body) patterns at))
                _
                (transaction-Contained env _ (
                  bind-Contained _ _ (exec-Contained env _) λ _.
                    bind-Contained (last_insert_id env feed) _ (λ w. refl)
                      λ id.
                        bind-Contained _ _
                          (bind_route-Contained input at id (str_eq input.category "route")
                            input.priority)
                          (λ _ w. refl)))
                (λ id w. refl)

  pub create_url-Contained : (input : SubscriptionInput) → Contained (create_url env feed input)
  unfolding create_url
  create_url-Contained input =
      bind-Contained _ _ (lift-Contained (validate_subscription_input (with_interval input) "url"))
        λ _.
          bind-Contained (download_subscription env feed input.source_url) _
            (Reads-Contained _ _ (download-Reads env feed input.source_url))
            (λ d. add_subscription-Contained _ "url" d.body)

  pub create_upload-Contained :
      (input : SubscriptionInput) (filename body : String)
      → Contained (create_upload env feed input filename body)
  unfolding create_upload
  create_upload-Contained input filename body =
      bind-Contained _ _
        (lift-Contained
          (reject_if (not (is_txt env filename)) "subscription upload must be a .txt file"))
        λ _.
          bind-Contained _ _
            (lift-Contained (
              validate_subscription_input (with_name env feed filename (with_interval input))
                "upload"))
            λ _. add_subscription-Contained _ "upload" body

  enable_unless-Contained :
      (id : ℕ) (enabled : Bool) (item : Subscription) (c : Bool)
      → Contained (enable_unless env feed id enabled item c)
  enable_unless-Contained id enabled item true = pure-Contained (same item)
  enable_unless-Contained id enabled item false =
      bind-Contained (now env) _ (now-Contained env)
        λ at. bind-Contained _ _ (write-Contained env _) λ _ w. refl

  pub set_enabled-Contained :
      (id : ℕ) (enabled : Bool) → Contained (set_enabled env feed id enabled)
  unfolding set_enabled
  set_enabled-Contained id enabled =
      bind-Contained (subscription env id) _ (subscription-Contained env id)
        λ item. enable_unless-Contained id enabled item (flag_matches item.enabled enabled)

  bind_unless-Contained :
      (id : ℕ) (input : BindingInput) (item : Subscription) (b : Binding) (c : Bool)
      → Contained (bind_unless env feed id input item b c)
  bind_unless-Contained id input item b true = pure-Contained (same item)
  bind_unless-Contained id input item b false =
      bind-Contained (now env) _ (now-Contained env)
        λ at. bind-Contained _ _ (exec-Contained env _) λ _ w. refl

  bind_as-Contained :
      (id : ℕ) (input : BindingInput) (item : Subscription) (o : Option Binding)
      → Contained (bind_as env feed id input item o)
  bind_as-Contained id input item none =
      lift-Contained {A = Change} (err (message "subscription is not a route subscription"))
  bind_as-Contained id input item (some b) =
      bind-Contained
        (validate_binding env input.upstream_group_id input.priority input.expected_version) _
        (Reads-Contained _ _ (
          validate_binding-Reads env input.upstream_group_id input.priority input.expected_version))
        (λ _. bind_unless-Contained id input item b (binding_is env feed b input))

  bind_if-Contained :
      (id : ℕ) (input : BindingInput) (item : Subscription) (c : Bool)
      → Contained (bind_if env feed id input item c)
  bind_if-Contained id input item true = bind_as-Contained id input item item.binding
  bind_if-Contained id input item false =
      lift-Contained {A = Change} (err (message "subscription is not a route subscription"))

  pub set_binding-Contained :
      (id : ℕ) (input : BindingInput) → Contained (set_binding env feed id input)
  unfolding set_binding
  set_binding-Contained id input =
      bind-Contained (subscription env id) _ (subscription-Contained env id)
        λ item. bind_if-Contained id input item (str_eq item.category "route")

  restore_binding-Contained :
      (id : ℕ) (o : Option Binding) → Contained (restore_binding env feed id o)
  restore_binding-Contained id none = pure-Contained tt
  restore_binding-Contained id (some b) = exec-Contained env (insert_binding id b)

  pub undelete-Contained :
      (item : Subscription) (digest : String) (domains : Option (List String))
      → Contained (undelete env feed item digest domains)
  unfolding undelete
  undelete-Contained item digest domains =
      bind-Contained _ _ (exec-Contained env _) λ _. restore_binding-Contained item.id item.binding

  pub delete_subscription-Contained : (id : ℕ) → Contained (delete_subscription env feed id)
  unfolding delete_subscription
  delete_subscription-Contained id =
      bind-Contained (subscription env id) _ (subscription-Contained env id) λ item.
        bind-Contained _ _ (query-Contained env _) λ domains.
          bind-Contained _ _ (query-Contained env _)
            λ digest. bind-Contained _ _ (write-Contained env _) λ _ w. refl
