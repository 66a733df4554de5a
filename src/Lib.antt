-- ===== src/Lib.antt =====
-- A verification library of the controller of mosdns (controller/, in Go).
--
-- The controller keeps the rules, the subscriptions and the administrators in SQLite, and sends
-- complete snapshots of the rules to mosdns. A change of the rules is a publication: the new list is
-- validated, a snapshot is built and recorded as a candidate version, mosdns validates and applies it,
-- and only then does a transaction make the version active and store its rules. Reconcile brings
-- the tables and mosdns together after a crash, a timeout or a restart.
--
-- Base and Go hold what the parts share: lists and tests over native numbers; Go's strings, integers
-- and errors. Rules is controller/internal/rules/service.go and
-- controller/internal/rules/subscriptions.go:
-- * Rules.Types is the type Rule. Rules.Normalize is normalize and normalizeIPs, and
--   Normalize.Addresses what the latter accepts; Rules.Validate is
--   validateRules, one function for each group of its checks. validateRules rewrites the rules in
--   place, so validate_rules returns them. Rules.Snapshot is buildSnapshot.
-- * Rules.Store is the state: the tables, and a world in which calls of the database, of the clock
--   and of mosdns are numbered. The environment decides what each call answers and which call of the
--   database fails, so a theorem for every environment holds for every failure. A method is a function
--   of the world; transaction takes back what a failed body wrote. Rules.Store.Ensures has a rule of
--   reasoning for each way to build a method. Rules.Statements are the SQL statements.
-- * Rules.Sources and Rules.Targets are subscriptionSets and the checks of upstream groups;
--   Rules.Publish is publish, fail and finalizeWithRules. Publish.Steps and Publish.Outcome say what
--   each step leaves in the tables and how publish may end.
-- * Rules.Read is list, allRules and reserveRuleIDs; Rules.Edit is Create, Update, Delete, Rollback,
--   Batch and Import, each as the rules that it computes and their publication, and the requests of
--   controller/internal/app/app.go that call them. Rules.Reconcile is Reconcile, and
--   Reconcile.Equal its comparison of subscriptions.
-- * controller/internal/rules/subscriptions.go is Rules.Parsing (parseSubscription),
--   Rules.Subscriptions (the checks of inputs and bindings, and the download), Rules.Catalog (its SQL
--   statements) and Rules.Subscribe: the reads, restoreSubscriptionMutation and what follows the
--   statement of a change; Subscribe.Change and Subscribe.Requests are each change up to the call of
--   allRules, and the calls as a whole. RefreshSubscription reads before it takes the mutexes, so what
--   other calls do in between is an argument. The other children of Subscribe are proofs: Restore and
--   Compensation of the statements that take a change back, Justified of when they are run, Writes,
--   Creates, Rebinds and Refreshes of what a change has done, Ends, Guarantees and Refreshed of how a
--   call ends, Contained, Tame, Consistent, Calls and Renewals of the invariant of the tables.
-- * Rules.Run runs requests, orders, refreshes and rounds of Reconcile one after another, since each
--   holds the mutexes of the service while it reads or writes the tables. Rules.Listing is what List shows after a publication. Rules.Tests runs the model.
--
-- Auth.Limiter is controller/internal/auth/ratelimit.go: the limiter of logins, its size in
-- Limiter.Bounds and its lockouts in Limiter.Lockout. Auth.Passwords, Auth.Accounts and
-- Auth.Sessions are controller/internal/auth/auth.go: how passwords are stored, the tables of
-- administrators and sessions, and the methods as functions of the two tables; the children of
-- Sessions prove what opens and ends a session. Config is controller/internal/config/config.go: the
-- defaults, the file and the environment, and the checks.
--
-- Ingest is controller/internal/queryingest/service.go, the log of queries:
-- * Ingest.Events are the events of mosdns and what is stored of them; Ingest.Validation is
--   validateBatch and validateEvent.
-- * Ingest.Stats is aggregate: each table is a list of keys and values, and upsert its INSERT ON
--   CONFLICT. Ingest.Persist is persist, on tables whose rows stand newest first. A transaction either
--   commits as a whole or changes nothing, which the argument of each run says.
-- * Ingest.Diagnostics is the cache of answers; Diagnostics.Bounded implements a queue with it.
-- * Ingest.Service is the service: Enqueue, the three cases of the loop of writer, publish, Subscribe
--   and the function that Close calls. Service.Runs are sequences of these steps, each under a lock or
--   in the one goroutine of the writer, in any order. A reader takes events off its channel without a
--   lock, so what it takes while publish runs is an argument.
-- * Ingest.Pages is Queries with its cursor; walk is a reader that follows the cursors, on fuel, and one
--   page more than there are rows is enough.
-- * Ingest.Filter is queryConditions, with what SQLite makes of its conditions, and queryMatches.
--
-- Bounds: the loops are structural recursion on the lists that they run over. On fuel are the second
-- loop of evict, with the number of entries as fuel, since each round removes an entry, and the
-- reader of Ingest.Pages. Identifiers of rules are int64 counters: next_id wraps at 2^64. Versions
-- and times are natural numbers. Priorities are Go integers, and so are the numbers of an event;
-- sums of them are taken to fit in 64 bits. A text is its code points, and len counts its UTF-8
-- bytes.
--
-- Parameters: the parsers, the file and the variables of the configuration; the mapping of letters
-- of unicode, idna, netip, regexp; the checksum of the JSON text of a snapshot; SHA-256, Argon2,
-- base64 and the random source; strconv for the cursor; the database's failures, the clock and
-- mosdns; and the order of an iteration over a map. Nothing is assumed of them but in two theorems,
-- whose hypotheses say it: that base64 decodes what it encodes, in letters other than the dollar
-- sign, and that Argon2 gives the bytes it is asked for, for stored passwords; and that base64 and
-- strconv read back what they write, for the pages of the log. The identifiers that SQLite passes
-- over, and whether a transaction of the log commits, are arguments. The number of the rows that a
-- statement of such a transaction adds, and the identifier that it gives, whose errors persist discards,
-- are taken to be read. JSON columns hold the values
-- that they encode. The CHECKs of the tables of subscriptions are modelled; a CHECK of another table
-- that refuses a row is one of the failures of the environment. For the subscriptions, the parser of
-- addresses, the HTTP client, SHA-256 and the texts of errors are parameters too; an error that wraps
-- another stands for that other one, and a text that is cut to 500 bytes is taken to be ASCII.
--
-- Not modelled: operations, which has state of its own; the retention of the log of queries and its statistics as they are read, which are SQL
-- over the clock and the size of files; the HTTP handlers and the client of mosdns, which are I/O;
-- the schema and the connection of storage; the web interface.
pub mod Auth
pub mod Base
pub mod Config
pub mod Go
pub mod Ingest
pub mod Rules
