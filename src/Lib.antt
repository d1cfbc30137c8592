-- ===== src/Lib.antt =====
-- RankeDB, the server of Ranke-Archives (Go).
--
-- A request comes to an endpoint with a credential. The core authenticates it against the configured
-- backends, authorizes it against the grants of the account and the caveats of the credential, and
-- executes it: on the archive through the library ranke-go, on the registry of verification runs,
-- or on the dev clock. The answer is a stream or an error, and an error has a category, an HTTP
-- status and, in the client, an error of its own. Paths are from the repository's root.
--
-- Which file models what:
--   Base           lists, texts, results, decimal numerals, dictionaries, fields of a text
--   Access         internal/core/access/access.go: Access.Glob has path.Match for what a grant can
--                  hold and matchBranch; Access.Grant has ParseGrant, String and Allows;
--                  Access.Checker has New, Grants and Allow
--   Errors         internal/core/core.go (the sentinels and Categorize), mapLibError and
--                  mapVerifyError of internal/core/execute.go, httpStatus of
--                  adapters/endpoints/rest_http/respond.go, client/errors.go
--   Auth           adapters/auth: the set of backends, noauth, apikey (Auth.ApiKey), macaroon
--                  (Auth.Macaroon) and jwt (Auth.Jwt)
--   Verification   internal/core/verification.go: the registry; start is `reserve` and `enrol`, its
--                  two critical sections, with the library's Verify between
--   Core           internal/core/core.go, execute.go, request.go and the dispatch of verification.go:
--                  Core.Pipeline has authenticate, authorize, allow, archive and branch; Core.Read
--                  the arms that read; Core.Contribute the arm that writes; Core.Execute the
--                  dispatch and Handle
--   Storage        adapters/storage/storage.go: Describe, distinct, checkLayer and parseSize;
--                  Storage.Bookmarks has CheckBookmarks of bookmarks.go
--   Sequencer      adapters/sequencer/sequencer.go: bookmarkList, on the sections of Storage
--   Wire           the bytes of a response: Wire.Serve has internal/core/serve.go, over an io.Writer
--                  that may fail (Wire.Writer); Wire.Split and Wire.Records have client/seq.go and
--                  the loops of Query and QueryClaims in client/read.go
--   Rest           adapters/endpoints/rest_http: Rest.Credentials has auth.go and, from
--                  client/client.go, the credential that a client presents; Rest.Cors cors.go;
--                  Rest.Respond respond.go; Rest.Handlers the handlers of endpoints_*.go and the
--                  chain that New builds around them; Rest.Listen New's reading of its section, the
--                  address and the socket (rest_http.go)
--   Config         config: Config.Secrets has vaultBox and resolveValue (section.go, resolve.go),
--                  Config.Sections the reads of a section and resolveSection, Config.Load the checks
--                  of load, the checker of buildEndpoint and resolveAll (config.go),
--                  Config.Founding founding at launch and by command (found.go)
--   Client         client/contributor_window.go: ContributorWindowOf and Admits; Client.Ready has
--                  WaitReady of client/read.go
--
-- How code becomes definitions. A Go function that returns a value and an error is a function into
-- Result; one that also changes its receiver or request is an `Exec` function (Core.Exec) from an
-- exchange to a result and an exchange, and what it wrote before an error stays written. An
-- `Exchange` is the library's world, the registry, the dev clock, the time, and the request's
-- principal and report. A text is the list of its code points. An error is the list of the
-- sentinels that errors.Is finds in it; messages are left out. A time is a number of whole units.
-- A map is an association list where one order of its keys is enough; where Go's map order could
-- matter, the definition says which order stands for it.
--
-- What is a parameter. ranke-go is the record `Ranke` (Core.Library) of types and of operations on a
-- world: nothing is assumed of them, and each theorem holds for every library. Macaroon
-- verification, JOSE, SHA-256 and the decoding of an error body are arguments in the same way. The
-- encoders and decoders of a response are the record `Codec` (Wire), and what the client relies on of
-- them is `IsLawful` (Wire.Laws); what a handler reads of a body is `Inputs` (Rest); the vault, its
-- clock and the environment are `VaultPort` (Config.Secrets). The generated router is not code of
-- this model: a request of Rest carries the call that the router matched.
--
-- Concurrency. The registry's operations are steps on a system of a registry and its pending starts,
-- in any order; a whole operation is the same steps in a row. A request of Core.Turns runs to its
-- end before the next begins, and a verification walk ends at any point between.
--
-- Bounds and fuel. Three loops run on fuel: the polling of a stack, one round for each millisecond of
-- its window and one more, a round taking 50; the splitting of a CBOR sequence, one round for each item
-- with one more round than there are bytes, and the trimming of white space, one round for each byte;
-- each round takes at least a byte. Every other loop of the modelled code is a recursion on a list, a
-- text or a value. Rights are the bits of a byte, and sizes wrap at 2 ^ 64 as uint64 does.
--
-- Bytes. In Wire and Rest a text is a list of bytes, as a Go string is; elsewhere it is the list of
-- its code points. The two agree on the ASCII texts that the code compares with.
--
-- Not modelled: the assembly of a launch (build, Verify and Run of config.go, the encryption
-- of a configuration), the construction of storage, signer and vault backends, which calls vendor
-- libraries, the listener's accept loop and shutdown, the client's calls through the generated client,
-- the commands (cmd), and the frontend. Logging and the text of report lines are left out.
pub mod Base
pub mod Access
pub mod Errors
pub mod Core
pub mod Verification
pub mod Auth
pub mod Storage
pub mod Sequencer
pub mod Rest
pub mod Client
pub mod Config
pub mod Wire
