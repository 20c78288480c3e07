-- ===== src/Lib.antt =====
-- Verification library of go-personal-web, a personal site: a Go server with Posts and Pages in
-- PostgreSQL, and the private surface under /admin where the Author writes them.
--
-- The parts and where they are modelled:
--   * Content models internal/content: the types of content.go; Content/Errors is errors.go (`wrap`,
--     `domainError`); Content/Store is store.go, one definition for each method of `Store`, as the pop query
--     that it builds. Content/Store/Visibility, Publication and Matching are about what those
--     queries return.
--   * View models internal/view: view.go (what a screen is given, its words and its URLs: `listURL`,
--     `savePath`, ...); View/Markup is the generated code of the templ files, each function as the writes that
--     it makes, with its literals (Controls, Lists, Editing, Layout), and what rendering them prints.
--     View/Reader is HTML as a browser reads it: tags, attributes, texts, the fields of a form, and the
--     constraints that a button checks before it posts them (the pattern's matching is a parameter).
--   * Admin models internal/admin: Session (session.go), Limiter (ratelimit.go), Password (password.go),
--     Render (render.go), Auth (auth.go), Store (the interface in admin.go), Writing (writing.go, with
--     the two resources in Writing/Resources), Lists (lists.go), Assets (assets.go) and Routes (the muxes
--     of admin.go). The modules below each one hold its proofs.
--   * Config models internal/config: config.go, dsn.go and secret.go, with load.go in Config/Sources and
--     `MarshalYAML` in Config/Rendering.
--   * Server models internal/server/server.go (`routes`, and `Run` in Server/Run) and the constructor `New` of
--     internal/admin.
--   * Database models internal/database: `Open`, `Ping`, `NewMigrator`, `Up`, `Down`, `Status`, `Pending`
--     and `lockMigrations`, and `requireCurrentSchema` of internal/cli/serve.go.
--   * Cli models version.go and the password reading of admin.go in internal/cli; Cli/Commands has the
--     commands of root.go, serve.go, migrate.go and config.go, and the exit code of main.go.
--   * Process is what a command does: the calls it makes outside the repository and what it releases, in
--     order (`Event`), and how it ends. What the calls answer is a parameter, the `World`.
--   * GoStd is what the program uses of Go's standard library (GoStd/Paths is the cleaning of paths by
--     `http.Redirect`), Http its requests and responses, and Prelude the shared types and lemmas. Tests has concrete runs and instances.
--
-- How they interact: Server mounts Admin where the configuration enables it; Routes sends a request
-- through the guard of Auth to the handlers of Writing and Lists, which reach the store of Content
-- through the interface of Admin/Store; the URLs of View lead back into Routes, and the markup of View,
-- read and posted by a browser (Admin/Writing/Browser), leads back into the handlers.
--
-- How state is kept: a handler takes the state that it changes and returns the new one with its reply,
-- and the login also its effects (log lines and runs of argon2id) in order. A function `clock` gives
-- the time at each place where a handler reads it. A function `others` stands for what other requests do
-- to the store meanwhile: `others 0` between the load and the update of an autosave and inside the update
-- of a save, `others 1` inside the update of an autosave. An update is the code's two statements: the row is
-- re-read, others act, and the row is written. A login reads its two clocks at one instant. The limiter's
-- mutex makes each call one step. Errors are values: Option, `Result` and `DbResult`.
--
-- Numbers: lengths and counts are native naturals; Go's int and int64 are integers whose additions
-- wrap at 64 bits where the code adds (the limiter's count, the next page, `time.Unix`), and times are
-- nanoseconds since the epoch on one clock. Decimal prints run twenty rounds, which are enough for
-- every 64-bit number since 10 ^ 20 is above 2 ^ 64.
--
-- What is not modelled: HMAC-SHA256 and argon2id are arbitrary functions, and the constant-time
-- comparisons are equality; pop and PostgreSQL are a connection (`Conn`) with what a query promises as
-- a hypothesis (`IsFaithful`, `IsPaged`, `KeepsPosts`); what it
-- keeps of an instant is less than a microsecond away from it. `uuid` parsing and printing, time zones
-- with their layouts, and `url.Parse` of a connection string are parameters. templ's runtime is a parameter,
-- with its documented escaping where a theorem uses it. viper, pop, PostgreSQL, net/http and the order
-- in which Go ranges over a map are the `World` and the parameters of a command. The muxes' own
-- redirects of unclean paths, the rounding of `Max-Age` through float64, logging that changes nothing,
-- cobra's parsing and help, and the terminal prompt for a password are left out.
pub mod Prelude
pub mod GoStd
pub mod Http
pub mod Content
pub mod View
pub mod Admin
pub mod Config
pub mod Process
pub mod Server
pub mod Database
pub mod Cli
pub mod Tests
