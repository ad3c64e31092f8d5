-- ===== src/Lib.antt =====
-- Verification of Shiv, an intercepting HTTP proxy with a desktop user interface, written in Go.
-- Paths are given from the root of the repository.
--
-- A request comes in at `ServeHTTP` (internal/proxy/proxy.go) or through an HTTPS tunnel
-- (internal/proxy/mitm.go). The proxy reads it, puts it on the event bus (internal/events), sends
-- what the middlewares made of it to the server, answers the browser, and puts the exchange on the
-- bus for those who log it. One middleware is the intercept gate (internal/store/intercept.go), at
-- which a request waits until the user decides on it in the intercept tab (internal/ui/intercept.go)
-- or the gate is opened. The gate asks the scope (internal/store/scope.go) whether a host is of
-- interest. The plugin table and its logs (internal/store/plugin.go) are handlers on the bus too, and
-- so is the engine that runs the hooks of the Lua plugins (internal/plugin/engine.go).
-- The UI shows a message as coloured lines (internal/ui/widgets/tokeniser.go), and sends edited
-- messages, which the user changes in a text entry (internal/ui/widgets/textviewentry.go), as raw
-- text (internal/http/rawrequest.go). Every exchange is kept in the history
-- (internal/store/history.go), which the history tab (internal/ui/history.go) reads page by page,
-- beside a site map of the hosts and paths seen. A row can be handed, in its raw form
-- (internal/ui/format.go), to the intruder (internal/ui/intruder.go), which sends it many times with
-- changed parts.
--
-- Prelude          library names, Boolean tests on numbers, lists measured by native numbers
-- Text             Go's packages strings, strconv and net, as far as the program calls them
-- Http.Header      net/http's Header: canonical keys with their values
-- Http.Message     the fields of http.Request and http.Response that are used
-- Http.Headers     internal/http/headers.go: NormalizeHost, StripRequestCacheHeaders,
--                  StripResponseCacheHeaders, HopByHop
-- Http.Compression internal/http/compression.go: Decompress, IsBinary, TruncateBody
-- Http.RawRequest  internal/http/rawrequest.go: SplitRaw, NormalizeLineEndings,
--                  rewriteRequestLine, rewriteHeaders, ParseHostFromRaw, ParseRawHeaders,
--                  buildRawResponse, ExtractURL, ExtractMethod
-- Events.Event     internal/events/events.go
-- Events.Bus       internal/events/bus.go: Register and the Emit functions
-- Scope            internal/store/scope.go; Scope.Cache has its readers and writers interleaved
-- Intercept        internal/store/intercept.go: Hold, SetEnabled, SetScopeFilter and ForwardAll one
--                  shared access at a time, HandleRequest; Intercept.System adds the tab (watchQueue, decide),
--                  Intercept.Editing its text (formatLiveRequest, parseRawRequest)
-- Proxy.Forward    internal/proxy/forward.go
-- Proxy.Upstream   what a server is sent: the requests that the HTTP client is given, counted
-- Proxy.Plain      internal/proxy/proxy.go: ServeHTTP for what is not CONNECT
-- Proxy.Tunnel     internal/proxy/mitm.go: the loop of handleConnect over the requests of a tunnel
-- Proxy.Stream     internal/proxy/mitm2.go: the handler of one HTTP/2 stream of a tunnel
-- Proxy.WebSocket  internal/proxy/websocket.go: the upstream headers and the frame loops
-- Plugins          internal/store/plugin.go
-- Engine           internal/plugin/engine.go, and of plugin.go the state of a plugin and its log buffer:
--                  HandleRequest, ObserveResponse, ObserveWebSocketFrame, ObservePluginEnabled,
--                  ObserveLoadPlugin, NewEngine
-- Frames           internal/store/websocket.go: the tables of connections and frames
-- History          internal/store/history.go: Log, TransactionsPage and the other reads and deletes;
--                  History.Export has exportHAR of internal/ui/har.go, up to the file
-- Repeater         internal/store/repeater.go: the saved tabs of the repeater
-- Annotations      internal/store/annotation.go: the comments on rows of the history
-- Loot             internal/store/loot.go: the findings, read by severity
-- IntruderConfig   internal/store/intruder.go: the one row of settings
-- Format           internal/ui/format.go
-- SiteMap          internal/ui/history.go: siteMap, parseNodeID, labelFor and the paths of a URL
-- HistoryTab       internal/ui/history.go: matchesFilter, currentFilter, fetchPage and the handlers;
--                  HistoryTab.System puts them beside the store, with pages that are read and
--                  delivered late; HistoryTab.Scroll follows a user who scrolls; HistoryTab.Csrf has
--                  generateCSRFPoC, SiteMap.Entries loadSiteMapEntries
-- Attack           internal/ui/intruder.go: the checks of startAttack; Attack.Redirect has
--                  followRedirect, Attack.Loop the goroutine of startAttack, stopAttack, applyFilter
-- Tokeniser        internal/ui/widgets/tokeniser.go
-- TextEntry        internal/ui/widgets/textviewentry.go, the editor: State and Lines have its fields and
--                  its lines, Visual the wrapped lines, Edits, Moves and Keys TypedRune and TypedKey,
--                  Shortcuts TypedShortcut, Mouse the pointer; the other modules are the proofs, which
--                  read the lines as one flat text (Flat, Valid, Edited)
--
-- A text is the list of its bytes, or of its runes in the tokeniser and the editor, where a text that
-- is not valid UTF-8, in which Go puts U+FFFD for a byte, is outside the model; case and white space
-- are those of ASCII. A Go map is an association list, in the order in which Go walks it. A
-- statement of the database is a function on the rows, with a flag that makes it fail. What the
-- code takes from elsewhere is a parameter: the HTTP client, the decoders of bodies, whether a
-- request can be built, the host of a URL, net.ParseIP, the text of a status code, LIKE of the database, the JSON of
-- headers, the width of a line in runes, a call of the Lua machine, json.Indent, the numbers that
-- fmt.Sscanf reads, the escapes of payloads. A failed read is an argument. All handlers of the bus
-- share one world, of any type, that each of them may change; the hooks of the Lua plugins share
-- another, the store that scripts read and write.
--
-- The loops of `tokeniseJSON` and `wrapTokens` run on fuel, the number of runes that are left, of
-- which each round takes at least one: the theorems on their results hold for all texts, so the
-- fuel is never used up. The digits of a number n are written on the fuel n + 1. The rounds of the
-- HAR export are bounded by the number of rows and one, which is enough: the theorem gives the
-- whole result. A schedule of the gate is any list of steps of any number of calls; a step that
-- blocks is no step. The rounds of an attack are a list, and its redirects are
-- counted down from `MaxRedirects`.
--
-- Not modelled: TLS, certificates (internal/cert), sockets and listeners, the HTTP/2 server, the
-- HAR form, the API of Lua scripts (internal/plugin/api.go) and the loading of their files, the
-- drawing and scrolling of the editor, the widgets of the history tab and of the intruder, the other
-- windows of the UI, the read-only text view and the table, the logger and main.go. They are mostly
-- calls into the libraries behind them (TLS, SQLite, Lua, Fyne).
pub mod Prelude
pub mod Text
pub mod History
pub mod Http
pub mod Events
pub mod Scope
pub mod Intercept
pub mod Proxy
pub mod Tokeniser
pub mod Plugins
pub mod Engine
pub mod Format
pub mod SiteMap
pub mod HistoryTab
pub mod Frames
pub mod Repeater
pub mod IntruderConfig
pub mod Attack
pub mod Loot
pub mod Annotations
pub mod TextEntry
