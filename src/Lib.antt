-- ===== src/Lib.antt =====
-- A verification library for the vire gateway, a Go program that sends chat completions to model
-- backends, meters them for accounts, and serves a portal. The parts that are modelled:
--
-- * Gateway (package gateway). Gateway/Capture is the capture of a response in
--   gateway/usage_capture.go: `observe` and `read` keep the body of an ordinary response up to a
--   limit, or the tail of a stream in a ring. Gateway/Usage is the scan of the capture for its token
--   usage (`streamUsage`, `validUsage`) and the outcome of a request (`result`). Gateway/Route is
--   the choice of a backend in gateway/proxy.go (`buildRing`, `selectBackend`,
--   `selectHealthyBackend`). Gateway/Metering is `serveCompletions` of gateway/proxy.go, which takes
--   a slot of the limit of concurrent requests, begins a usage record, sends the request on, and
--   finishes the record with the result of the capture. Gateway/Proxy is what runs between the two:
--   `modelRoute.ServeHTTP`, which chooses the backend of a conversation, and the hooks of the
--   reverse proxy (`newProxy`) on the header of a request and on an error. Gateway/Bearer is
--   `authenticate` of gateway/accounts.go. Gateway/Registry is `loadModels` and `PricedModels` of
--   gateway/server.go. Gateway/Membership is the routing that a registry gives (`buildRouting`) and
--   its reloads (`ReloadRegistry`, `probeBackend`) in gateway/membership.go: a pointer to a backend
--   is a number, and a heap holds the objects. Gateway/Portal is gateway/portal.go: the checks on a
--   request, the handlers over a record `PortalStore` of operations, and the lists of models.
--   Gateway/Observed is the writer of gateway/observability.go (`observedWriter`) over the response
--   writer of net/http, and what `wrap` records of a request.
-- * Accounts (package internal/accountdb). Accounts/Tables has the rows of
--   internal/accountdb/db/models.go, the state `Db` of all tables, and the errors. Accounts/Ledger
--   is `BeginUsage`, `FinishUsage` and `SetPrice` of internal/accountdb/store.go. Accounts/Keys is
--   `IssueKey`, `RevokeKey` and `Authenticate`. Accounts/Sessions is `Signup`, and Accounts/Login is
--   `Login`, `Session`, `ChatKeyID` and `Logout` of internal/accountdb/portal.go. Accounts/Daily and
--   Accounts/Rollup are `Maintain` of internal/accountdb/maintenance.go, which adds finished
--   requests to daily totals and deletes old rows. Accounts/Report is `Usage` of
--   internal/accountdb/portal.go and `DailyUsage` of internal/accountdb/store.go.
-- * Command (cmd/gateway/main.go): the checks on the flags (`validate`), and the prices that `run`
--   sets for the models of the registry.
-- * FakeVllm (cmd/fake-vllm/main.go): the backend for tests, with the checks on its flags, its
--   answer to a completion, and the events of its stream (`writeEvent`). Whether each step of a
--   stream succeeds is an argument, and so is the encoder of a chunk.
-- * Base has the names that the parts share: Boolean tests, lists with native lengths, Go's slices
--   and copies, bytes, text and `int64`.
--
-- The parts meet in several places. `serveCompletions` calls an `AccountStore`, a record of
-- operations in Gateway/Metering; the functions of Accounts/Ledger fill it. The handlers of the
-- portal call a `PortalStore`, which the functions of Accounts/Sessions, Accounts/Login and
-- Accounts/Report fill. The routes that Gateway/Membership builds are those that Gateway/Route
-- chooses from. The capture reads what FakeVllm writes. The records that `serveCompletions` leaves
-- are what `Maintain` rolls up and what the reports show.
--
-- A statement of SQL is a function on `Db`: the state of a table is a list of rows, a constraint
-- that refuses a statement is an error, and a transaction that fails leaves the tables as they were.
-- The statements are those of internal/accountdb/db/queries.sql.go and of the Go files; each is
-- atomic, as Postgres runs it. The time, the random values, the collation of texts, the date of a
-- time, and the rows that other transactions have locked are arguments.
--
-- Arguments also stand for packages outside this repository: the consistent hash of a conversation,
-- the decoding of JSON, SHA-256, base64, argon2id, `strings.ToLower`, `url.Parse` and
-- `mail.ParseAddress`. Where a theorem needs something of them, it is a hypothesis of the theorem.
--
-- Numbers: the counter of the round robin wraps at 2 ^ 64, a status is stored as an `int32`, and a
-- cost or a total that no BIGINT holds is an error. Token counts are integers, since a response may
-- report a negative one. The number of login attempts is not bounded, while its column is an
-- INTEGER.
--
-- The loops of `Maintain` run on fuel; a fuel above the number of usage rows is enough, since a
-- batch of the first loop that writes a total marks a row, and a batch of the second that counts a
-- row deletes it. The other loops are structural.
--
-- Not modelled: the connection to the database and its failures, the migrations, the listeners and
-- tickers of gateway/server.go and gateway/membership.go, the logs and the collectors of metrics in
-- gateway/observability.go, the reverse proxy itself, the parsing of flags, the browser code under
-- web, and the deployment. They are mostly input and output, and are outside this library.
-- gateway/worker.go has a struct that nothing uses.
pub mod Accounts
pub mod Base
pub mod Command
pub mod FakeVllm
pub mod Gateway
