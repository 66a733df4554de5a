-- ===== src/Rules/Run.antt =====
-- controller/internal/rules: a life of the service. The requests, the orders and the rounds of
-- Reconcile run one after another, since every one of them holds the mutex of the service while it
-- reads or writes the tables.
use mosdns_controller.Base.{ℕ, List, [], ◌∷◌, none, arith}
use mosdns_controller.Rules.Store.{Sources, Tables, Env, World}
use mosdns_controller.Rules.Statements.{find_active}
use mosdns_controller.Rules.Statements.Versions.{active_count}
use mosdns_controller.Rules.Publish.{Actor}
use mosdns_controller.Rules.Publish.Consistent.{IsConsistent}
use mosdns_controller.Rules.Edit.{Request, handle}
use mosdns_controller.Rules.Edit.Requests.{request-IsConsistent}
use mosdns_controller.Rules.Subscriptions.{Feed}
use mosdns_controller.Rules.Subscribe.Requests.{Order, carry, refresh, refresh_due}
use mosdns_controller.Rules.Subscribe.Calls.{carry-IsConsistent}
use mosdns_controller.Rules.Subscribe.Renewals.{refresh-IsConsistent, refresh_due-IsConsistent}
use mosdns_controller.Rules.Reconcile.{reconcile}
use mosdns_controller.Rules.Reconcile.Guarantees.{reconcile-IsConsistent}

pub data Action : Type 0 where
  serve : Request → Actor → Action
  order : Order → Actor → Action
  check_runtime : Action

-- A turn: an action; or a refresh of one source, or of all that are due, where other actions come in
-- between the download and the locks.
pub data Turn : Type 0 where
  perform : Action → Turn
  refresh_source : List Action → ℕ → Actor → Turn
  refresh_all : List Action → Turn

module _ (env : Env) (feed : Feed) where
  unfoldable pub act : Action → World → World
  act (serve req actor) w = (handle env req actor w).1
  act (order o actor) w = (carry env feed o actor w).1
  act check_runtime w = (reconcile env w).1

  unfoldable pub act_all : List Action → World → World
  act_all [] w = w
  act_all (a ∷ as') w = act_all as' (act a w)

  unfoldable pub turn : Turn → World → World
  turn (perform a) w = act a w
  turn (refresh_source between id actor) w = (refresh env feed (act_all between) id actor w).1
  turn (refresh_all between) w = refresh_due env feed (act_all between) w

  unfoldable pub run : List Turn → World → World
  run [] w = w
  run (t ∷ ts) w = run ts (turn t w)

abbrev pub no_sources : Sources
no_sources = record { rows = []; sequence = 0; binding_sequence = 0 }

-- The tables after the migrations, with the sources that there are.
abbrev pub fresh_tables : Sources → Tables
fresh_tables sources = record {
  versions = [];
  domain_rules = [];
  next_rule_id = none;
  sources = sources;
  audit = [];
}

pub fresh-IsConsistent : (sources : Sources) → IsConsistent (fresh_tables sources)
unfolding find_active active_count
fresh-IsConsistent sources = record {
  descends = tt;
  single = ground arith;
  distinct = tt;
  mirrors = λ row e. absurd (ground arith);
}

module _ (env : Env) (feed : Feed) where
  act-IsConsistent :
      (a : Action) (w : World) → IsConsistent w.tables → IsConsistent (act env feed a w).tables
  unfolding act
  act-IsConsistent (serve req actor) w k = request-IsConsistent env actor w req k
  act-IsConsistent (order o actor) w k = carry-IsConsistent env feed actor o w k
  act-IsConsistent check_runtime w k = reconcile-IsConsistent env w k

  act_all-IsConsistent :
      (as' : List Action) (w : World)
      → IsConsistent w.tables
      → IsConsistent (act_all env feed as' w).tables
  unfolding act_all
  act_all-IsConsistent [] w k = k
  act_all-IsConsistent (a ∷ as') w k =
      act_all-IsConsistent as' (act env feed a w) (act-IsConsistent a w k)

  turn-IsConsistent :
      (t : Turn) (w : World) → IsConsistent w.tables → IsConsistent (turn env feed t w).tables
  unfolding turn
  turn-IsConsistent (perform a) w k = act-IsConsistent a w k
  turn-IsConsistent (refresh_source between id actor) w k =
      refresh-IsConsistent env feed (act_all env feed between) (act_all-IsConsistent between) id
        actor w k
  turn-IsConsistent (refresh_all between) w k =
      refresh_due-IsConsistent env feed (act_all env feed between) (act_all-IsConsistent between) w
        k

  run_from :
      (ts : List Turn) (w : World) → IsConsistent w.tables → IsConsistent (run env feed ts w).tables
  unfolding run
  run_from [] w k = k
  run_from (t ∷ ts) w k = run_from ts (turn env feed t w) (turn-IsConsistent t w k)

-- From a fresh database, after any requests, orders, refreshes and rounds of Reconcile, each failing
-- or not, and with other actions between the download of a refresh and its locks: the versions are
-- distinct and the newest first, at most one is active, the stored rules have distinct identifiers,
-- and they are the rules of the active version.
pub run-IsConsistent :
    (env : Env) (feed : Feed) (ts : List Turn) (sources : Sources) (tick : ℕ)
    → IsConsistent (run env feed ts (record { tables = fresh_tables sources; tick = tick })).tables
run-IsConsistent env feed ts sources tick =
    run_from env feed ts (record { tables = fresh_tables sources; tick = tick })
      (fresh-IsConsistent sources)
