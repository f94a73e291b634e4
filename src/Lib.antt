-- ===== src/Lib.antt =====
-- Forcefield is a gateway that hands credentials to untrusted agents without showing them. An agent
-- holds a bearer token; the gateway validates it for a workload and an audience (internal/tokens),
-- charges its limits (internal/gateway), decides the request by deny-wins rules (internal/policy)
-- and only then fetches the credential. The token store is written by the operator's commands mint,
-- delegate and revoke. This library models the token store, the policy decision, the
-- gateway's path of a request to the upstream and back, and the cache of secrets.
--
-- Base: byte strings (lists of numbers), Go's maps as association lists, `strings` functions, errors
-- as values (`Result`). Library: what the code takes from Go's standard library, as records of
-- functions (Text for utf8 and unicode, Codec for sha256, base64 and hex, Url for net/url).
--
-- Tokens models internal/tokens/store.go, types.go and persistence.go.
--   Types: the records (`TokenRecord` is `record`), requests, claims and options. Id: bearers and
--   their hashes. Settings: `normalizeOptions` (`RawOptions` are the caller's numbers, which may be
--   negative). Request: the checks of identifiers and grants. Grants: the order on limits and grants.
--   Lineage: `validateLoadedRecords`. Bounds: the counts and `validateLoadedBounds`. Chain: the walks
--   from a record to its root. Validate: `validateLocked`. Prune: `pruneInactive`. Revoke: the walk
--   of `revokeHash` over the descendants. Persist: `persist`, whose system calls have outcomes that
--   are inputs (`Disk`). Disk: the file format's fields and checks, over a JSON decoder. Open: `load`
--   and `Open`. Store: Mint, Delegate, Validate, Revoke, RevokeTokenID and Close.
--   The state is the record `Store`: the records by hash, the options, and whether it is closed. An
--   operation takes the clock's reading, the entropy and the outcome of the disk as inputs and
--   returns the result with the next store. The mutex makes the operations atomic, so a history of
--   the store is a sequence of them.
--   An instant is a number of nanoseconds since the zero time; a time before it has no counterpart.
--   The size of the encoded file is a function of the records (`World.encode`); the fields and the
--   order that the encoder is given are modelled in Tokens.Disk.
--
-- Policy models internal/policy: canonical.go, evaluate.go and the query matchers of compile.go.
--   Glob: `pathGlob.matches`. Path: `canonicalPathParts`, `validMethod`, `compilePathGlob`. Query:
--   `canonicalQuery`, `compileQueryMatcher` and `queryMatcher.matches`. Evaluate: the match of a rule
--   and `Evaluate`. The matchers of the body (json.go, graphql.go, cel.go) are the record
--   `BodyMatchers`: a rule calls them and may get an error from each. A document that the source
--   keeps in the request once it is parsed is parsed anew, which gives the same result.
--
-- Gateway models internal/gateway, without its Git and SSH handlers.
--   Limit: limit.go. The state is the map of `limitState`s; a scope is a token of the delegation
--   chain that `Claims.limit_chain` lists. `float64` and `Duration.Seconds` are a record of functions.
--   The states that a call makes and refills stay when the call fails, as in the source. A pointer to
--   a state is its key: the keys of a call are distinct.
--   Sessions: ssh_concurrency.go. A closure that releases a session is the pair of its keys, and
--   `sync.Once` is that a session is released once.
--   Header: the headers of net/http as a map with canonical keys, the tables of adapter.go and
--   internal/headersafety. Adapter: adapter.go; what is written before an error is dropped, as its
--   caller drops it.
--   Filter: the body of response.go that looks for the secret. The source of the body is the list of
--   what its reads give, the caller a list of buffer sizes; `drain` is a caller that stops at the first
--   error. The loop of `Read` is recursive on the reads that are left, behind which the source is at
--   its end; the fuel of a fallback is the length of the match, which every step shortens.
--   Grants, Target, Exchange: the helpers of gateway.go and canonical.go on claims, on the request
--   target, its headers and body, and on the request for the upstream.
--   Handler: a handler is a tree of the calls that it makes of the rest of the system (the resolver of
--   workloads, the validator, the limits, the audit log, the secret store, the transport, the client).
--   A run is settled by a function that answers each call, from all that happened before. Serve:
--   `ServeHTTP`; Serve.Admit is its part up to the limits and Serve.Flow the rest. The other adapters'
--   handlers are one call, and so is what `forward` does from `RoundTrip` on. Times, the deadline of the
--   request's context and the clearing of the secret's bytes are left out; the trailers that
--   appear when the body is read are a field of the request. The tables of the configuration that
--   `ResolveGrant` reads are a record (`Compiled`), and so is what is written to the audit log.
--   Serve.Routed, Serve.Carried, Serve.InForce, Grants.Meaning and Grants.Charged say in relations of
--   their own, and not by the code's functions, where a request goes, which token it carries, what the
--   configuration has for a grant, and what the scopes of a chain are; Serve.Order is stated in them.
--
-- Secrets models internal/secrets/cache.go. `Get` locks the cache twice, around the call of the backend,
--   and each part is an operation, so that a history may have other calls in between. `Reaches` relates
--   a cache to the history of what was stored and dropped.
--
-- Loops are structural, or recursive on fuel that is proved to be enough: a walk to the root has the
-- depth of the record and one, the rounds of the pruning have the number of records and one, and the
-- walk over the descendants of a token has `cost`, the visits below a record if every record had all
-- the others as children. What a loop does when its fuel is out is `none` or the error `diverges`,
-- and the theorems on the store show that this does not happen.
--
-- Not modelled: file locks, owners and the directory's permissions (their outcomes are inputs), the
-- copies that keep callers from sharing memory (values do not change here), Compile's loop over a
-- specification, the rest of the response guard, the capabilities endpoint, the Git and SSH adapters,
-- the back ends of the secrets, the audit log's file, the validation of the configuration, the sandbox runner and
-- the command line.
pub mod Base
pub mod Gateway
pub mod Library
pub mod Policy
pub mod Secrets
pub mod Tokens
