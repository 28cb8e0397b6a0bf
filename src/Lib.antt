-- ===== src/Lib.antt =====
-- A model of go-bananas, a framework for web applications in Go, with what makes its parts correct.
--
-- A request passes a chain of middleware. RequireSession loads the session and saves it before the
-- response's first byte; the session's accessors and the flash messages work on the values that it
-- loads; HandleCSRF keeps its token there and checks requests that change state; guards answer a
-- request or let it pass; the context carries what they find out to handlers and templates, and the
-- response package sends the error pages. Forms are bound to structs with errors by field.
-- Configuration values may refer to secrets, which a registered manager resolves, over a cache.
--
-- Which file models which part:
--   Base: byte strings (Text), Go maps as association lists (Dict), integers with a sign (Int), and
--     what a call can come to: a value, an error or a panic (Result).
--   Cache: cache/cache.go. A locked section is one step, so two-lock operations are sequences of
--     steps; Steps has the interleavings with the goroutines that lookups start. Time is an argument,
--     in nanoseconds, and a deadline is wrapped to 64 bits as in the source.
--   Values: the keys and values of a gorilla session, with the heap of its message sets.
--   Flash: flash/flash.go. The heap shows which flashes share a set.
--   Session: session/session.go. The session and its map may be nil.
--   Webctx: webctx/context.go, webctx/os.go, webctx/template.go. Template maps are taken by value.
--   Response: response/response.go and response/content_type.go.
--   Form: form/errors.go and form/form.go.
--   Middleware.Csrf: middleware/csrf.go, with internal/util/random.go.
--   Middleware.Sessions: middleware/sessions.go. A handler is the list of its calls, those on the
--     underlying writer and a panic included; the store is what it loads under the name of a cookie
--     and which of its saves fail.
--   Middleware.Guards: middleware/auth.go, middleware/header.go, middleware/enabled.go,
--     middleware/request_id.go.
--   Middleware.Contexts: middleware/trace_id.go, middleware/nonce.go, middleware/i18n.go,
--     middleware/operating_system.go, middleware/template.go, middleware/method.go,
--     middleware/static.go, middleware/debug.go, middleware/current_path.go.
--   Middleware.Policy: middleware/csp.go and middleware/recovery.go.
--   Middleware.Recorder: middleware/log_requests.go, for handlers that return.
--   Paths: internal/util/path.go. A cleaned path is its components, with a flag for absolute ones.
--   App: examples/ssr-oidc/auth.go and examples/ssr-oidc/main.go, the sign-in and the allow-list.
--   Render: render/renderer.go, render/html.go, render/text.go, render/json.go, render/csv.go,
--     render/assets.go, render/funcs.go. A response is the list of calls on its writer.
--   I18n: i18n/i18n.go; Directories describes which locale a hint stands for.
--   Server: server/server.go as the steps of two goroutines, and server/healthz.go.
--   Cookiestore: cookiestore/codec.go and cookiestore/cookiestore.go.
--   Keys: keys/keys.go, keys/filesystem.go, and keys/vault/vault.go with internal/util/base64.go.
--   Secrets: secrets/resolver.go, secrets/secrets.go, secrets/in_memory.go, secrets/cacher.go,
--     secrets/filesystem.go, secrets/json_expander.go.
--
-- Functions have the names of the source in this spelling: purgeExpired is purge_expired. All loops
-- run over a list or a chain of pointers, so there is no fuel. The order of a map's entries stands for
-- one order of the iteration. What is not code of the repository is an argument: the random source,
-- base64, SHA-256, the URL parser, filepath.Join in the resolver and the in-memory manager,
-- strings.TrimSpace and strings.ToLower on Unicode, the session store, the form decoder and validator,
-- the file system's errors, template engines, the JSON codec, AES-GCM, x509, the language matcher, the
-- codecs of securecookie, and authenticators.
--
-- Not modelled: logging, the clients of other cloud services for keys and secrets, and configuration
-- structs; middleware/logger.go, middleware/secure.go and middleware/gzip.go; the tables of template
-- functions; the router and the pages of the examples. Most of these assemble calls of other
-- libraries.
pub mod Base
pub mod Cache
pub mod Values
pub mod Flash
pub mod Session
pub mod Middleware
pub mod Webctx
pub mod Response
pub mod Form
pub mod Paths
pub mod Render
pub mod App
pub mod Cookiestore
pub mod I18n
pub mod Server
pub mod Keys
pub mod Secrets
