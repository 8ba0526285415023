-- ===== src/Lib.antt =====
-- A print server: users submit PDF documents in a browser, each job is paid from the quota of its user
-- and sent to a printer of a queue.
--
-- The parts and how they interact. A submission (internal/app/submit.go) checks the upload and its
-- price, hands the job to the store (internal/postgres/job_store.go), which checks the quota of the user and
-- stores the job in one transaction, and then delivers it (internal/app/deliver.go): a destination of
-- the queue is picked, the job is marked as sent, and the document goes to the printer until an attempt
-- succeeds. Every change of state is guarded by the state that it starts from, since a sweeper
-- (internal/app/sweep.go) of any instance fails jobs that are left behind. Pages and uploads come in
-- through the web server (internal/web), which asks for a session in a sealed cookie (internal/session,
-- internal/seal); who has none is sent to the identity provider (internal/oidc), and is provisioned with
-- quota on the way back (internal/app/provision.go).
--
-- Files and code:
--   Prelude    shared names: tests on numbers, lists, and the integers of Go (`int` and `int64` are ℤ,
--              with `wrap64` after each operation)
--   Error      the sentinel errors that `errors.Is` finds, and results
--   Job        internal/job/job.go; Job/Machine has the theorems on the machine of states
--   Quota      internal/quota/quota.go; Quota/Bounds: its range
--   Queue      internal/queue/queue.go; Queue/Balance: the load balancer
--   Pdf        internal/pdf/pdf.go
--   Decimal    what the code uses of strconv
--   PrintTicket  internal/printticket/printticket.go, on lists of bytes and code points;
--              PrintTicket/Lines: how a printer reads it
--   Base64     what the code uses of encoding/base64; Base64/RoundTrip: decoding what was encoded
--   Seal       internal/seal/seal.go; Seal/Sealed: what the cipher promises, and what follows
--   Session    internal/session/session.go; Session/Lasts: how long a session lasts
--   Oidc       internal/oidc/oidc.go; Oidc/Users: `ToUser`. Oidc/Flow, Oidc/Answers, Oidc/Enrolled: from the
--              redirect to the user
--   Web        internal/web: requests, responses and the server. Web/Views: views.go. Web/Handlers and
--              Web/Auth: handlers.go. Web/Routes: the routes and checks of server.go. Web/Site: the server
--              as cmd/piping/main.go makes it. Web/Gate, Web/Submits, Web/Keeps, Web/Sound, Web/Login,
--              Web/Granted and Web/Safe: the theorems
--   Url        net/url, as `safePath` of internal/web/handlers.go uses it: `url.Parse` and `RequestURI`;
--              Url/Local: URLs of plain characters
--   Smb        internal/smb/sender.go: what the error of a failed run says; Smb/Statuses and Smb/Trim: the codes
--              in it, and what is cut. The run itself is `send` of App/Postgres
--   Ghostscript  internal/ghostscript/analyzer.go; Ghostscript/Lines and Ghostscript/Counts: what is
--              printed and what is counted
--   Settings   cmd/piping/main.go: the environment. Settings/Start: how the server is made of it
--   Store      schema.sql, and the SQL statements of internal/postgres as functions on tables. Store/World:
--              one statement among other processes and failures. Store/Sound: what holds of the
--              database at every moment. Store/Ensures, Store/View and Store/Cells: rules to step over
--              a statement. Store/Jobs: internal/postgres/job_store.go. Store/Queues:
--              internal/postgres/queue_store.go. Store/Quotas: internal/postgres/quota_store.go and
--              `EnsureUser`. Store/Listings: the listings for the web pages. A method of the Go store is the
--              function of the same name
--   Semester   internal/semester/semester.go; Semester/RoundTrip: codes and names
--   User       internal/user/user.go; User/Roles: roles from groups
--   App        App/Submit, App/Deliver, App/Sweep and App/Provision: the files of internal/app of these
--              names, over records of functions for the Go interfaces. App/Postgres: cmd/piping/main.go,
--              the parts put together. App/Sound: the result for a whole submission
--   Examples   runs at concrete inputs
--
-- State. Every call takes and returns a `World`: the database, the schedule of what is still to come
-- from outside, and what has been printed. A schedule gives for each statement the commits of other
-- processes before it, which are all the methods of the store that write and the passing of time, and
-- whether the statement is answered, lost, or carried out with its answer lost. SELECT … FOR UPDATE
-- holds back the submissions of the same user that other processes commit. A rollback gives no id of a
-- sequence back, and a refused INSERT has taken one. An error is its sentinel, and `other` if it has
-- none; the texts of errors, but for what Smb says of smbclient, and the log are left out. Ids and
-- times are ℕ: identity columns count up, and times are instants of one clock.
--
-- Bounds and fuel. The retry loop is a recursion on the attempts that are left, which is
-- `maxAttempts - 1` at its start, as the loop counts. The digits of a number `n` are found with fuel `n + 1`,
-- which is more than there are. The loop of the sweeper is a recursion on the events that it sees.
--
-- Requests. A handler takes the state behind the server and returns a response and the state. What a
-- request reads of the clock and of crypto/rand comes with it as a `Moment`; net/http redirects a path that is
-- not clean before any handler runs, but for a CONNECT request. A page is the data of its template.
--
-- Parameters. AES-GCM, SHA-256, encoding/json, mime/multipart, the file server, html/template, the LDAP names, the
-- identity provider, Ghostscript and float64 are not written out: they are fields of the records `Aead`,
-- `Codec`, `Outside`, `Http`, `Json`, `Floats` and `Machine`. `IsAead` and `IsCodec` are what the theorems on
-- sessions and sign-in ask of the first two.
--
-- Not modelled: smbclient, whose runs are scripted by the schedule; the texts of other errors and of
-- the log; the templates and the script in the browser; the HTTP server itself; administrators who
-- change queues and destinations by hand; the migration scripts.
pub mod Prelude
pub mod Error
pub mod Job
pub mod Quota
pub mod Queue
pub mod Semester
pub mod User
pub mod Store
pub mod Decimal
pub mod Base64
pub mod Seal
pub mod Session
pub mod Oidc
pub mod Web
pub mod Settings
pub mod Ghostscript
pub mod Url
pub mod Smb
pub mod PrintTicket
pub mod App
pub mod Pdf
mod Examples
