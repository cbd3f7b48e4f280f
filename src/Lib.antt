-- ===== src/Lib.antt =====
-- A verification library of kubio, an HTTP reverse proxy in Go. The program reads a configuration
-- (config.go), builds from it a router of sites with their routes (router.go), backends of several
-- targets with retries, health checks and budgets (proxy.go), and a limiter of requests
-- (rate_limit.go). A request passes the limiter, a site is selected by its host and a route by its
-- path and conditions, the path is rewritten, and the request goes to a target of a backend, again
-- to another one where it fails; the response's headers are changed by the policies.
--
-- The files:
--   Prelude, Prelude/*       shared names, Boolean tests, lists, integers with int64 wrap-around
--   Text, Url, Net           strings as lists of bytes; what is used of net/url; package net and
--                            net/netip as the parameters of a record Net
--   CasLoop, CasLoop/*       the compare-and-swap loops over an atomic pointer as a machine of
--                            threads, whose runs are lists of actions
--   RateLimit, RateLimit/*   rate_limit.go: reserveBucket and reserve
--   Path, Path/*             router.go: pathPattern, stripRequestPath, rewriteProxyPath
--   ClientIp, ClientIp/*     router.go and proxy.go: effectiveClientIP, isTrustedProxy, peerAddress,
--                            setForwardedHeaders, rewriteProxyRequest
--   Route, Route/*           router.go: routeMatchState.matches, betterRoute
--   Host                     router.go: hostPattern, selectSite
--   Site, Site/*             router.go: buildRouteIndex, selectRoute
--   Headers, Headers/*       config.go: the checks of headers, methods and alternatives, expandEnv;
--                            proxy.go: applyResponseHeaders
--   Backend/Schedule         proxy.go: validateTargetWeights, buildTargetSchedule
--   Backend/Health           proxy.go: backendHealth
--   Backend/Targets          proxy.go: nextTargetIndex, retryTargetIndex
--   Backend/Budget           proxy.go: retryBudget
--   Backend/Backoff          proxy.go: buildBackoffDelays
--   Backend/Attempts         proxy.go: RoundTrip, roundTripWithStatusRetry
--   Backend/ReplayBody       proxy.go: prepareRetryBody
--   Backend/Retryable        proxy.go: retryableBackendRequest, validateRetryStatuses
--   Backend/DirectBody, DirectBody/*  proxy.go: directBody
--   Config/Json, Values      config.go: JSON values, and the UnmarshalJSON methods of the small types
--   Config/Schema, Schema/*  config.go: validateJSON, consumeJSONValue, childJSONSchema
--   Config/Objects, Retry    config.go, tls.go: the UnmarshalJSON methods of the objects
--   Config/Backends, Sites, Decode   config.go: decodeConfig
--   Config/Prefixes          router.go: parseTrustedProxies, parseRouteMatchPrefixes
--   Config/Checked, Accepted, Whole  config.go: the conditions on what decodeConfig accepts
--   Respond, Respond/*       router.go: serveGeneratedResponse
--   RequestId, RequestId/*   request_id.go: requestIDFor, removeRequestID, requestIDWriter
--   Reload, Reload/*         main.go: ServeHTTP, StoreGeneration, watchConfig; router.go:
--                            serveRejected; rate_limit.go: admitGeneration
-- The Tests of a component hold its theorems at concrete inputs.
--
-- Conventions. An int64 of the limiter is an integer brought back into range after each operation;
-- the ints elsewhere are bounded by the checks of the configuration and are natural numbers or
-- integers. A time is a number of nanoseconds, 0 the zero time.Time; a clock is given by its
-- readings. A string is a list of bytes, and changes of case and the trimming of
-- spaces are those of ASCII. A map is a list of
-- entries in the order in which range visits it. An error is a constructor, its text left out. A
-- mutex makes an operation one step; where a loop swaps an atomic pointer, the interleavings are
-- those of the machine in CasLoop. Transports, contexts, readers and random numbers are parameters.
-- The loop that buffers a body runs on a fuel of 101 rounds for each byte of the limit and 101 more:
-- each round reads a byte, or is one of at most 100 empty reads in a row, so that it suffices.
-- expandEnv runs on one round for each byte and one more.
-- validateJSON runs on two rounds for each token and one more. The fields of an object are decoded in
-- the order of the struct's fields where the code goes through the document, so that of several
-- errors another may come first. The handler of a request may change a response's header at any time:
-- the writer of the id is run on any list of calls and of changes. decodeConfig starts after its call
-- of validateJSON. The scan of the targets for a retry is one step. RoundTrip takes what
-- prepareRetryBody returns as a parameter.
--
-- Not modelled: the loading of certificates and crypto/tls (tls.go, of which the settings of the
-- configuration and their checks are modelled), the access log (access_log.go), main and its server,
-- the lexing of JSON, the construction of net/http transports and proxies, the timers of health
-- probes, the context of a request with a deadline, and of the handlers what they write through
-- net/http: input and output through the standard library. Of requestIDWriter, Unwrap is left out, and
-- of prepareRetryBody the close of the body.
pub mod Backend
pub mod CasLoop
pub mod ClientIp
pub mod Config
pub mod Headers
pub mod Host
pub mod Net
pub mod Path
pub mod Prelude
pub mod RateLimit
pub mod Reload
pub mod RequestId
pub mod Respond
pub mod Route
pub mod Site
pub mod Text
pub mod Url
