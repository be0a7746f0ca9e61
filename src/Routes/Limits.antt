-- ===== src/Routes/Limits.antt =====
-- The rate limit of K-webserver/src/web_server.rs in front of all routes.
use k_indexer.Prelude.{
  ℕ, zero, suc, ◌+◌, ◌^◌, ◌<◌, ◌≡◌, refl, ap, ◌∙◌, Bool, true, false, not, none, some, List, [],
  ◌∷◌, ltb, if◌then◌else◌, length, get_elem?, All, map, arith, Bool-cases, inl, inr,
}
use k_indexer.Text.{Text, codes}
use k_indexer.Models.{ApiError}
use k_indexer.Api.{ok, err, DatabaseInterface}
use k_indexer.RateLimit.{SocketAddr, same_addr, RateLimitMap, get, check_rate_limit}
use k_indexer.RateLimit.Laws.{Trace, answers, times, answers-window}
use k_indexer.Routes.{StatusCode, too_many_requests, Response, AppState, rate_limited}
use k_indexer.Routes.Calls.{Call, answer, serve}
use k_indexer.Routes.Status.{IsReported, answered, reported, IsFaithful, expected}
use k_indexer.Routes.Status.All.{answer-IsReported}

-- The requests that arrive, in order: from where and when, what the database then holds, and the call.
abbrev pub Requests : Type 0
Requests = List (SocketAddr × ℕ × DatabaseInterface × Call)

abbrev pub throttles : StatusCode → Bool
throttles too_many_requests = true
throttles _ = false

-- Whether a response is a 429.
abbrev pub is_throttled {ℓ} : {A : Type ℓ} → Response A → Bool
is_throttled (ok _) = false
is_throttled (err (status, e)) = throttles status

-- For each request of an address, whether it gets a 429.
unfoldable pub throttled : AppState → SocketAddr → Requests → RateLimitMap → List Bool
unfolding serve
throttled app a [] m = []
throttled app a ((b, instant, db, c) ∷ t) m =
    let r = serve (record app { db = db }) instant b m c in
    let rest = throttled app a t r.1 in if same_addr b a then is_throttled r.0 ∷ rest else rest

-- The addresses and the times.
unfoldable pub arrivals : Requests → Trace
arrivals [] = []
arrivals ((b, instant, db, c) ∷ t) = (b, instant) ∷ arrivals t

-- No route gives a 429 itself.
throttles-expected : (lenient : Bool) (code : Text) → throttles (expected lenient code) ≡ false
unfolding expected
throttles-expected lenient code = ground arith

is_throttled-answer {ℓ} :
    {A : Type ℓ} {lenient : Bool} {r : Response A} → IsReported lenient r → is_throttled r ≡ false
is_throttled-answer (answered a) = refl
is_throttled-answer {lenient} (reported status e h) =
    ap throttles h ∙ throttles-expected lenient e.code

-- The error of the rate limit.
abbrev too_many : ApiError
too_many = record {
  error = codes "Rate limit exceeded. Too many requests per minute.";
  code = codes "RATE_LIMIT_EXCEEDED";
}

-- What is left is the rate limit.
is_throttled-if {ℓ} :
    {A : Type ℓ} (b : Bool) (r : Response A) (e : ApiError)
    → is_throttled r ≡ false
    → is_throttled (if b then r else err (too_many_requests, e)) ≡ not b
is_throttled-if true r e h = h
is_throttled-if false r e h = refl

throttled-answers :
    (app : AppState) (a : SocketAddr)
    → IsFaithful app.serde.api_error
    → (t : Requests) (m : RateLimitMap)
    → throttled app a t m ≡ map not (answers app.rate_limit a (arrivals t) m)
unfolding throttled answers arrivals serve rate_limited
throttled-answers app a h [] m = refl
throttled-answers app a h ((b, instant, db, c) ∷ t) m =
    let r = check_rate_limit app.rate_limit instant b m in
    let here =
      is_throttled-if r.0 (answer (record app { db = db }) c) too_many
        (is_throttled-answer (answer-IsReported (record app { db = db }) h c)) in
    let later = throttled-answers app a h t r.1 in
    elim (Bool-cases (same_addr b a)) [ inl e ↦ rw (e, here, later) | inr e ↦ rw (e, later) ]

get_elem?-map :
    (l : List Bool) (k : ℕ) (b : Bool)
    → get_elem? l k ≡ some b
    → get_elem? (map not l) k ≡ some (not b)
get_elem?-map [] k b h = ground arith
get_elem?-map (x ∷ l) zero b h = ground arith
get_elem?-map (x ∷ l) (suc k) b h = get_elem?-map l k b h

-- Whatever the calls and whatever the database holds at each: of the requests of an address that the map does
-- not hold, fewer than 2 ^ 32 and all within a minute of its first, the first `limit` get no 429 and all
-- others do, where the JSON library reads back what it writes.
pub throttled-window :
    (app : AppState) (a : SocketAddr) (t : Requests) (m : RateLimitMap) (first : ℕ) (rest : List ℕ)
    (k : ℕ)
    → IsFaithful app.serde.api_error
    → get a m ≡ none
    → times a (arrivals t) ≡ first ∷ rest
    → All (λ now. now < first + 60000) rest
    → length rest + 1 < 2 ^ 32
    → k < length rest + 1
    → get_elem? (throttled app a t m) k ≡ some (not (ltb k app.rate_limit))
throttled-window app a t m first rest k faithful new ht hw hn hk =
    ap (λ l. get_elem? l k) (throttled-answers app a faithful t m)
    ∙ get_elem?-map (answers app.rate_limit a (arrivals t) m) k (ltb k app.rate_limit)
        (answers-window app.rate_limit a (arrivals t) m first rest k new ht hw hn hk)
