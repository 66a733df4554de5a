-- ===== src/Rules/Subscribe/Consistent.antt =====
-- The calls on subscriptions keep the tables of the rules consistent, whatever fails.
use mosdns_controller.Base.{
  ℕ, ◌≡◌, refl, sym, subst, inl, inr, List, Option, none, some, ◌==◌, Bool-cases, Option-cases,
}
use mosdns_controller.Go.Result.{Error, Result, ok, err, is_unknown, or_fail, no_rows}
use mosdns_controller.Rules.Types.{Rule}
use mosdns_controller.Rules.Store.{
  VersionRow, Subscription, Tables, RuntimeStatus, Env, World, M, call, query,
}
use mosdns_controller.Rules.Store.Ensures.{Reads-tables, call-Reads}
use mosdns_controller.Rules.Statements.{find_version}
use mosdns_controller.Rules.Publish.{Version, no_version, Published, Actor, publish}
use mosdns_controller.Rules.Publish.Consistent.{IsConsistent}
use mosdns_controller.Rules.Publish.Guarantees.{publish-IsConsistent}
use mosdns_controller.Rules.Read.{all_rules}
use mosdns_controller.Rules.Edit.Steps.{all_rules-Reads}
use mosdns_controller.Rules.Subscriptions.{Feed}
use mosdns_controller.Rules.Subscribe.{
  Settled, unlisted, refused, adopted, settle, restore_mutation, joined_with, judged, weighed,
  published_as, listed_as, is_restored, conclude, answered, subscription,
}
use mosdns_controller.Rules.Subscribe.Change.{Change, same, stale, touched, written}
use mosdns_controller.Rules.Subscribe.Requests.{carry_out}
use mosdns_controller.Rules.Subscribe.Contained.{
  SourcesOnly, Contained, Reads-Contained, query-Contained, subscription-Contained,
}

pub SourcesOnly-IsConsistent : (t u : Tables) → SourcesOnly t u → IsConsistent t → IsConsistent u
SourcesOnly-IsConsistent t u h k = subst IsConsistent (sym h) (record {
  descends = k.descends;
  single = k.single;
  distinct = k.distinct;
  mirrors = k.mirrors;
})

-- A method that changes only the sources keeps the tables consistent.
pub Contained-IsConsistent :
    {A : Type 0} (m : M A) (w : World)
    → Contained m
    → IsConsistent w.tables
    → IsConsistent (m w).1.tables
Contained-IsConsistent m w h = SourcesOnly-IsConsistent w.tables (m w).1.tables (h w)

pub joined_with-tables :
    (cause : Error) (p : Result (Unit {0}) × World) → (joined_with cause p).1.tables ≡ p.1.tables
joined_with-tables cause (ok _, w) = refl
joined_with-tables cause (err e, w) = refl

module _ (env : Env) (restore : M (Unit {0})) (back : Contained restore) where
  restored-IsConsistent :
      (cause : Error) (w : World)
      → IsConsistent w.tables
      → IsConsistent (joined_with cause (restore w)).1.tables
  restored-IsConsistent cause w k =
      subst IsConsistent (sym (joined_with-tables cause (restore w)))
        (Contained-IsConsistent restore w back k)

  judged-IsConsistent :
      (candidate : Version) (cause : Error) (row : VersionRow) (p : Result RuntimeStatus × World)
      → IsConsistent p.1.tables
      → IsConsistent (judged env candidate cause restore row p).1.tables
  judged-IsConsistent candidate cause row (runtime, w) k =
      elim (Bool-cases (is_restored candidate.version row runtime)) [
        | inl e ↦ rw e (restored-IsConsistent cause w k)
        | inr e ↦ rw e k
      ]

  weighed-IsConsistent :
      (candidate : Version) (cause : Error) (p : Result VersionRow × World)
      → IsConsistent p.1.tables
      → IsConsistent (weighed env candidate cause restore p).1.tables
  weighed-IsConsistent candidate cause (err e, w) k = k
  weighed-IsConsistent candidate cause (ok row, w) k =
      judged-IsConsistent candidate cause row (call env env.status w) (
        subst IsConsistent
          (sym (Reads-tables w (call env env.status) (call-Reads env w env.status))) k)

  restore_mutation-IsConsistent :
      (candidate : Version) (cause : Error) (w : World)
      → IsConsistent w.tables
      → IsConsistent (restore_mutation env candidate cause restore w).1.tables
  unfolding restore_mutation
  restore_mutation-IsConsistent candidate cause w k =
      let read : Tables → Result VersionRow =
        λ t. or_fail (find_version candidate.version t.versions) no_rows in
      elim (Bool-cases (candidate.version == 0)) [
        | inl e ↦ rw e (restored-IsConsistent cause w k)
        | inr e ↦ rw e (
            weighed-IsConsistent candidate cause (query env read w)
              (Contained-IsConsistent (query env read) w (query-Contained env read) k))
      ]

  published_as-IsConsistent :
      (p : Published × World)
      → IsConsistent p.1.tables
      → IsConsistent (published_as env restore p).1.tables
  published_as-IsConsistent (p, w) k = elim (Option-cases p.error) [
    | inl e ↦ rw e k
    | inr (x, e) ↦ rw e (restore_mutation-IsConsistent p.version x w k)
  ]

  listed_as-IsConsistent :
      (actor : Actor) (p : Result (List Rule) × World)
      → IsConsistent p.1.tables
      → IsConsistent (listed_as env actor restore p).1.tables
  listed_as-IsConsistent actor (ok rules, w) k =
      published_as-IsConsistent (publish env rules actor 0 w)
        (publish-IsConsistent env rules actor 0 w k)
  listed_as-IsConsistent actor (err e, w) k = restore_mutation-IsConsistent no_version e w k

  pub settle-IsConsistent :
      (actor : Actor) (w : World)
      → IsConsistent w.tables
      → IsConsistent (settle env actor restore w).1.tables
  unfolding settle
  settle-IsConsistent actor w k = listed_as-IsConsistent actor (all_rules env w) (
      Contained-IsConsistent (all_rules env) w
        (Reads-Contained _ (all_rules env) (all_rules-Reads env)) k)

answered-tables :
    {V : Type 0} (env : Env) (v : V) (e : Option Error) (p : Result Subscription × World)
    → (answered env v e p).1.tables ≡ p.1.tables
answered-tables env v e (ok item, w) = refl
answered-tables env v e (err x, w) = refl

module _ {V : Type 0} (env : Env) (zero : V) (wrap : Version → V) (id : ℕ) where
  read-IsConsistent :
      (v : V) (e : Option Error) (w : World)
      → IsConsistent w.tables
      → IsConsistent (answered env v e (subscription env id w)).1.tables
  read-IsConsistent v e w k =
      subst IsConsistent (sym (answered-tables env v e (subscription env id w)))
        (Contained-IsConsistent (subscription env id) w (subscription-Contained env id) k)

  conclude-IsConsistent :
      (p : Settled × World)
      → IsConsistent p.1.tables
      → IsConsistent (conclude env zero wrap id p).1.tables
  unfolding conclude
  conclude-IsConsistent (unlisted e, w) k = k
  conclude-IsConsistent (refused v e, w) k = elim (Bool-cases (is_unknown e)) [
    | inl c ↦ rw c (read-IsConsistent (wrap v) (some e) w k)
    | inr c ↦ rw c k
  ]
  conclude-IsConsistent (adopted v, w) k = read-IsConsistent (wrap v) none w k

-- The statement that a change comes with changes only the sources.
abbrev pub IsTame : Result Change × World → Type 0
IsTame (ok (written id restore), w) = Contained restore
IsTame _ = Unit {0}

module _ (env : Env) (feed : Feed) (actor : Actor) where
  pub carry_out-IsConsistent :
      {V : Type 0} (zero : V) (wrap : Version → V) (late : Settled × World → Settled × World)
      (p : Result Change × World)
      → ((q : Settled × World) → (late q).1.tables ≡ q.1.tables)
      → IsTame p
      → IsConsistent p.1.tables
      → IsConsistent (carry_out env feed zero wrap late actor p).1.tables
  unfolding carry_out
  carry_out-IsConsistent zero wrap late (err e, w) l h k = k
  carry_out-IsConsistent zero wrap late (ok (same item), w) l h k = k
  carry_out-IsConsistent zero wrap late (ok (stale item), w) l h k = k
  carry_out-IsConsistent zero wrap late (ok (touched id e), w) l h k =
      read-IsConsistent env zero wrap id zero e w k
  carry_out-IsConsistent zero wrap late (ok (written id restore), w) l h k =
      conclude-IsConsistent env zero wrap id (late (settle env actor restore w)) (
        subst IsConsistent (sym (l (settle env actor restore w)))
          (settle-IsConsistent env restore h actor w k))
