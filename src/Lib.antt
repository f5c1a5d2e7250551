-- ===== src/Lib.antt =====
-- The routing framework in fasthttp-routing/ and its middleware, built on a copy of the HTTP library
-- fasthttp. A request enters `Router.HandleRequest`, which looks its path up in the radix tree of its
-- method (`store.Get`), and runs the handlers of the route, the middleware among them, by `Ctx.Next`.
--
-- The files and the code that they model:
--   Routing/Store     fasthttp-routing/store.go: the radix tree. `Node` keeps `children` as `Kids`, in
--                     the order of the first bytes' registration, and `pchildren` as `Nodes`; `add`,
--                     `add_child`, `get` are the methods of `node`, `store_add` and `store_get` those
--                     of `store`. A slice of values is a list, and a write out of range is a panic.
--                     Least has the reference that collects all matches of a path, with no order to
--                     skip by; Timely and Added are about the orders that `add` leaves, Picks and
--                     First about `get` and the reference, and Bounds, Grow, Below and Total about
--                     the indices of the parameters.
--   Routing/Chain     fasthttp-routing/context.go: `Next`, `Abort`, and the start of a request. A
--                     handler is the tree of what it does; the index is kept one higher than in Go.
--   Routing/Template  fasthttp-routing/route.go: `buildURLTemplate` and `buildURLTemplate2`.
--   Routing/Url       fasthttp-routing/route.go: `URLByIndex`, `URLByNames` and `URL`.
--   Routing/Param     fasthttp-routing/context.go: `Param`.
--   Routing/Router    fasthttp-routing/router.go, group.go and route.go: groups, routes, registration
--                     and `find`. Groups and routes, which Go shares by pointers, stand in two lists of
--                     the router, and a pointer is an index; a call with an index of none panics.
--   Routing/Request   fasthttp-routing/router.go, context.go and error.go: `HandleRequest` with the pool
--                     of contexts, `handleError` and the default handlers. A handler is a value of any
--                     type, whose code is a tree as in Routing/Chain; the pool gives any of its contexts.
--   Negotiation       fasthttp-routing/helpers.go: `getOffer` with its parsing and sorting, and
--                     `getSplicedStrList`. A float64 that is not negative stands as its bit pattern.
--   Session           fasthttp-routing/middleware/session and helpers/utilcrypt: the data of a session,
--                     its tokens, the calls of the store, and the middleware. A token is a slice with
--                     what its array holds in front and behind, since the keys of the store are read in
--                     front of the token. Base64 is that of Go's standard library.
--                     Redis is session/redisstore/redisstore.go.
--   Cors, Csrf        fasthttp-routing/middleware/cors and csrf/verifyCsrfToken.go. In Cors/Subdomain the
--                     loops of `matchSubdomain` swap elements by their indices, and may panic.
--   Compress          fasthttp-routing/middleware/compress.
--   Addresses         helpers/utilnet/ip.go: `SplitIpAndPort` and `AddressesAndRangesToIPNets`.
--   Xff               fasthttp-routing/middleware/xff/xff.go: the middleware and the methods of `xffInfo`.
--                     A `Forwarded` header is written to while it is read, and so is passed on. What
--                     `Ctx.IP`, `Ctx.Host` and the others make of it stands in Routing/Request/Client.
--   Paths             helpers/http.go: `CleanUrlPath`; a buffer that is made late.
--   Common            lists, maps, tests on numbers and bytes, and `Panics`, the computations that panic.
--
-- Parameters stand for code of others: the engine of regular expressions (`Regexp`), the store of the
-- sessions and sonic's two functions (`Backend`, `Sonic`), the random reader, the headers of a response
-- (`Headers`), fasthttp.ParseUfloat, http.StatusText, what is used of package net (`Net`), strconv.Atoi,
-- the client of Redis (`Rueidis`), the compression of fasthttp (`Compression`), url.QueryEscape, and the
-- handlers after a middleware.
--
-- Fuel: `add` and `add_child` recurse on a number that `store_add` takes from the height of the tree,
-- and `add_child` from the length of the key; the loop of `Next` has one unit for each handler and one
-- more; the binary search of the sort has one for each element in front and one more. Running out is a
-- result of its own (`out_of_fuel`, `stuck`), and the theorems exclude it. The two parsers of headers
-- take the length of the header; Negotiation/Fuel is about more fuel than that. The loops of
-- `RedisStore.All` and `AllCtx` have one unit for each batch of the scan, and that of `CleanUrlPath` one
-- for each byte.
--
-- Not modelled: the copy of fasthttp, logging, demos and benchmarks, and in helpers.go the entity tags
-- and the parameters of media types. Requests are handled one after the other. Times are opaque, numbers
-- in a session are bit patterns, and the sizes of numbers in the router are not bounded, since they
-- count what is in memory.
pub mod Common
pub mod Routing
pub mod Session
pub mod Cors
pub mod Csrf
pub mod Addresses
pub mod Negotiation
pub mod Xff
pub mod Compress
pub mod Paths
