-- ===== src/Rules/Edit/Requests.antt =====
-- controller/internal/rules/service.go: what Create, Update, Delete, Rollback, Batch and Import
-- guarantee, each with its call of publish.
use mosdns_controller.Base.{
  ℕ, ◌≤◌, ◌≡◌, refl, ap, ◌∙◌, sym, subst, true, false, List, [], ◌∷◌, ◌++◌, length, none, some,
  keep, arith,
}
use mosdns_controller.Go.Result.{Error, Result}
use mosdns_controller.Rules.Types.{Rule}
use mosdns_controller.Rules.Store.{VersionRow, Tables, Env, World, M}
use mosdns_controller.Rules.Store.Ensures.{Outcome, Holds, Reads, weaken_pair}
use mosdns_controller.Rules.Statements.{find_version}
use mosdns_controller.Rules.Read.{
  is_subscription_rule, listed_rules, ids_after, last_id, next_id, counter_of,
}
use mosdns_controller.Rules.Edit.{
  created_rules, updated_rules, remaining_rules, recorded_rules, distinct_ids, operated_rules,
  imported_rules, create, update, delete, rollback, batch, import_rules, publish_rules, Request,
  create_rule, update_rule, delete_rule, roll_back, operate_rules, import_list, handle,
}
use mosdns_controller.Rules.Publish.{Actor}
use mosdns_controller.Rules.Publish.Consistent.{IsConsistent}
use mosdns_controller.Rules.Edit.Steps.{OnlyCounter, numbered, created_rules-Holds}
use mosdns_controller.Rules.Edit.Changes.{
  Replaced, has_id, others, updated_rules-Reads, remaining_rules-Reads, recorded_rules-Reads,
}
use mosdns_controller.Rules.Edit.Batches.{
  is_selected, batched, is_operation, Imported, operated_rules-Reads, imported_rules-Holds,
}
use mosdns_controller.Rules.Edit.Guarantees.{
  Untouched, Publishes, publish_rules-succeeded, publish_rules-failed, publish_rules-IsConsistent,
}

-- What a request publishes from the tables `t`, and the tables `u` that the publication starts from.
abbrev pub Asks : Request → Tables → List Rule → Tables → Type 0
Asks (create_rule r) t rules u =
    (is_subscription_rule r ≡ false)
    × ((at : ℕ) × (rules ≡ listed_rules t ++ numbered r (next_id (counter_of t)) at "manual" ∷ []))
    × (u.next_rule_id ≡ some (next_id (counter_of t)))
Asks (update_rule id patch) t rules u =
    Replaced id patch (listed_rules t) rules × (has_id id (listed_rules t) ≡ true)
Asks (delete_rule id) t rules u =
    (rules ≡ others id (listed_rules t)) × (has_id id (listed_rules t) ≡ true)
Asks (roll_back from expected) t rules u =
    (row : VersionRow) × (find_version from t.versions ≡ some row) × (rules ≡ row.rules)
Asks (operate_rules operation ids expected) t rules u =
    (rules ≡ batched operation ids (listed_rules t))
    × (is_operation operation ≡ true)
    × (length (keep (is_selected ids) (listed_rules t)) ≡ length (distinct_ids ids))
Asks (import_list incoming) t rules u =
    (1 ≤ length incoming)
    × ((out : List Rule) × Imported incoming (ids_after (counter_of t) (length incoming)) out
        × (rules ≡ listed_rules t ++ out))
    × (u.next_rule_id ≡ some (last_id (counter_of t) (length incoming)))

-- The rules that a method hands to publish, and the call.
record Handed (env : Env) (req : Request) (actor : Actor) (w : World) : Type 0 where
  from : ℕ
  handed : Result (List Rule) × World
  call : handle env req actor w ≡ publish_rules env actor from handed
  asked :
      Holds
        (λ rules u. Asks req w.tables rules u.tables × OnlyCounter w.tables u.tables)
        (λ _ u. OnlyCounter w.tables u.tables)
        handed

same-OnlyCounter : {t u : Tables} → u ≡ t → OnlyCounter t u
same-OnlyCounter e = ground (arith, e)

Reads-Holds :
    {V : List Rule → Type 0} (w : World) (m : M (List Rule))
    → Reads w V m
    → Holds
        (λ rules u. V rules × OnlyCounter w.tables u.tables)
        (λ _ u. OnlyCounter w.tables u.tables)
        (m w)
Reads-Holds w m h =
    weaken_pair (m w) h (λ rules u k. (k.1, same-OnlyCounter k.0)) (λ _ u k. same-OnlyCounter k)

module _ (env : Env) (actor : Actor) (w : World) where
  handle-Handed : (req : Request) → Handed env req actor w
  unfolding handle create update delete rollback batch import_rules
  handle-Handed (create_rule r) = record {
    from = 0;
    handed = created_rules env r w;
    call = refl;
    asked =
        weaken_pair _ (created_rules-Holds env w r)
          (λ rules u h. ((h.0, h.1, ap (λ t. t.next_rule_id) h.2), ground (arith, h.2)))
          (λ _ u h. h);
  }
  handle-Handed (update_rule id patch) = record {
    from = 0;
    handed = updated_rules env id patch w;
    call = refl;
    asked = Reads-Holds w (updated_rules env id patch) (updated_rules-Reads env w id patch);
  }
  handle-Handed (delete_rule id) = record {
    from = 0;
    handed = remaining_rules env id w;
    call = refl;
    asked = Reads-Holds w (remaining_rules env id) (remaining_rules-Reads env w id);
  }
  handle-Handed (roll_back from expected) = record {
    from = from;
    handed = recorded_rules env from expected w;
    call = refl;
    asked =
        Reads-Holds w (recorded_rules env from expected) (recorded_rules-Reads env w from expected);
  }
  handle-Handed (operate_rules operation ids expected) = record {
    from = 0;
    handed = operated_rules env operation ids expected w;
    call = refl;
    asked =
        Reads-Holds w (operated_rules env operation ids expected)
          (operated_rules-Reads env w operation ids expected);
  }
  handle-Handed (import_list incoming) = record {
    from = 0;
    handed = imported_rules env incoming w;
    call = refl;
    asked =
        weaken_pair _ (imported_rules-Holds env w incoming)
          (λ rules u h. ((h.0, h.1, ap (λ t. t.next_rule_id) h.2), ground (arith, h.2)))
          (λ _ u h. h);
  }

  -- A request that returns no error publishes the rules that it asks for, from the listed rules and
  -- the counter of identifiers: Create the rules and the new one under the next identifier, not a
  -- subscription's; Update the rules with the one replaced, if the patch carries its time of update;
  -- Delete the others; Rollback those that the version records; Batch the rules with the selected
  -- ones changed; Import the rules and the incoming ones under the next identifiers.
  pub request_succeeded :
      (req : Request)
      → (handle env req actor w).0.error ≡ none
      → Publishes env
          (Asks req w.tables)
          w.tables
          (handle env req actor w).0.version
          (handle env req actor w).1.tables
  request_succeeded req e =
      let h = handle-Handed req in
      subst (λ p. Publishes env (Asks req w.tables) w.tables p.0.version p.1.tables) (sym h.call)
        (publish_rules-succeeded env actor h.from w.tables (Asks req w.tables) h.handed
          h.asked.outcome (ap (λ p. p.0.error) (sym h.call) ∙ e))

  counted :
      {req : Request} (h : Handed env req actor w)
      → Outcome
          (λ _ u. OnlyCounter w.tables u.tables)
          (λ _ u. OnlyCounter w.tables u.tables)
          h.handed
  counted h = (weaken_pair h.handed h.asked (λ _ u k. k.1) (λ _ u k. k)).outcome

  -- A request that returns an error leaves the active version and the stored rules as they were.
  pub request_failed :
      (req : Request) {e : Error}
      → (handle env req actor w).0.error ≡ some e
      → Untouched w.tables (handle env req actor w).1.tables
  request_failed req e =
      let h = handle-Handed req in
      subst (λ p. Untouched w.tables p.1.tables) (sym h.call)
        (publish_rules-failed env actor h.from w.tables h.handed (counted h)
          (ap (λ p. p.0.error) (sym h.call) ∙ e))

  -- A request keeps the tables consistent, whether it succeeds or fails.
  pub request-IsConsistent :
      (req : Request) → IsConsistent w.tables → IsConsistent (handle env req actor w).1.tables
  request-IsConsistent req k =
      let h = handle-Handed req in
      subst (λ p. IsConsistent p.1.tables) (sym h.call)
        (publish_rules-IsConsistent env actor h.from w.tables h.handed (counted h) k)
