-- ===== src/Lib.antt =====
-- The verification development of SynCent, a dashboard that manages servers over SSH: its Go server
-- under internal/.
--
-- A handler of the program is a function from the request's data and the database to the database
-- afterwards and the response; a table is a list of rows in order of insertion; an error is a value
-- of the result. Calls of the system and of other packages (hashes, AES-GCM, bcrypt, TOTP, JSON Web
-- Tokens, times as texts) are the fields of a record, `External`, and what the program relies on is
-- a named hypothesis (`JwtLaw`, `CipherLaws`). Times are nanoseconds. Statements of the
-- database either succeed or fail for the reasons written out: a value that does not fit its
-- column, a row that is missing.
--
-- The parts, and the files that model them:
--   Base            lists, texts and tests that all parts share
--   External        what the program calls and does not implement
--   Database        internal/database/database.go: the rows
--   Config          internal/config/config.go: Load, RunSecurityChecklist
--   Crypto          internal/services/crypto.go: Encrypt, Decrypt; Crypto/Keys the pairs of keys
--   Audit           internal/services/audit.go: WriteAuditLog, VerifyAuditChain
--   Tokens          internal/services/auth.go: passwords, tokens, VerifyTOTPWithReplay
--   Http            internal/handlers/middleware.go: responses
--   Middleware      internal/handlers/middleware.go: AuthMiddleware, AdminMiddleware
--   Auth            internal/handlers/auth.go: Login, Refresh, Logout, Me, incrementFailures
--   TwoFactor       internal/handlers/settings.go: VerifyAction, Toggle2FA
--   Accounts        internal/handlers/settings.go and auth.go: Setup, Register, ResetPassword,
--                   ValidateCredentials, UpdateAppConfig
--   Regex           the regular expressions of the standard library, their matching relation and
--                   a matcher for it
--   Classifier      internal/services/command_classifier.go: ClassifyCommand
--   Execute         internal/handlers/api.go: ExecuteCommand
--   Snippets        internal/handlers/api.go: CreateSnippet, DeleteSnippet
--   Terminal        internal/websocket/terminal.go: checks and counters, with any interleaving;
--                   Terminal/Sockets the checks of internal/websocket/gs_terminal.go and logs.go
--   Captcha         internal/handlers/settings.go: GenerateCaptcha, VerifyCaptcha
--   LogBuffer       internal/websocket/logs.go: addToBuffer
--   Ssh             internal/services/ssh_manager.go: the semaphores of ExecuteCommand and ExecuteBatch,
--                   with any interleaving, and the result of a command
--   Gsocket         internal/services/gsocket.go: GSocketTestConnection; Gsocket/Output GSocketExecute;
--                   Gsocket/Lines the lines of the shell in its output
--   Routes          cmd/server/main.go: the table of routes and their middleware
--   Servers         internal/handlers/servers.go: CreateServer; Servers/Manage ListServers, GetServer,
--                   UpdateServer, DeleteServer, GetPublicKey; Servers/Connect ManualKeySetup,
--                   TestConnection; Servers/Inject InjectKey; Servers/Requests all that write, as one
--                   type
--   Transfer        internal/handlers/settings.go: ExportConfig; Transfer/Import ImportConfig;
--                   Transfer/Imported the row of an imported server
--   Availability    internal/handlers/api.go: GetAvailability, calcAvailability
--   History         internal/handlers/history.go: GetAuditLog, GetServerHistory, GetStatusHistory,
--                   DashboardSummary
--   Health          internal/services/health_checker.go: pings, TCP checks, metrics runs
--   Sample          concrete functions and rows for the examples
--
-- Handlers call one another as in the program: Login goes through Tokens and Audit, Execute through
-- Classifier, TwoFactor, Crypto and Audit, Terminal through Tokens and Crypto, Servers through Crypto,
-- TwoFactor, Gsocket and Audit, Transfer through Crypto and Servers. Loops are recursion on
-- lists; the repetition in Regex is bounded by the length of the text that is left, which is enough
-- since each round of it must read a character. The numbers of requests and of the configuration are
-- taken not to be negative, and counters not to exceed their width; the durations of tokens wrap around.
-- Ids are compared as texts, in the one spelling that the program writes. The order in which the
-- database gives rows of one time, and the arithmetic of float64, are parameters.
--
-- Not modelled: network and SSH dialogues, the parsing of the metrics and their table, the streams of
-- the websockets, running gs-netcat, the choice of a route by the router, and cmd/keygen. Concurrency
-- is modelled where a property depends on it: the audit trail, the failure counter, the terminals, the
-- semaphores of the SSH sessions.
pub mod Base
pub mod External
pub mod Database
pub mod Crypto
pub mod Audit
pub mod Config
pub mod Http
pub mod Tokens
pub mod Auth
pub mod Sample
pub mod Regex
pub mod Classifier
pub mod TwoFactor
pub mod Execute
pub mod Terminal
pub mod Health
pub mod Accounts
pub mod Snippets
pub mod Ssh
pub mod Servers
pub mod Gsocket
pub mod Availability
pub mod History
pub mod Transfer
pub mod Captcha
pub mod LogBuffer
pub mod Middleware
pub mod Routes
