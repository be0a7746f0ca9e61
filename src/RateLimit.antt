-- ===== src/RateLimit.antt =====
-- `check_rate_limit` of K-webserver/src/web_server.rs. An `Instant` is a number of milliseconds on a
-- monotonic clock, and `duration_since` stops at zero. The map is an association list; an address has
-- one entry at most.
pub mod Laws
pub mod Refines
pub mod Tests
use k_indexer.Prelude.{
  ℕ, ◌+◌, ◌-◌, ◌%◌, ◌^◌, Bool, true, false, not, ◌&&◌, Option, none, some, List, [], ◌∷◌, ltb, leb,
  ◌==◌, if◌then◌else◌,
}
use k_indexer.Text.{Text, text_eq}

pub record SocketAddr : Type 0 where
  pub ip : Text
  pub port : ℕ

unfoldable pub same_addr : SocketAddr → SocketAddr → Bool
same_addr a b = text_eq a.ip b.ip && a.port == b.port

pub record RateLimitEntry : Type 0 where
  pub count : ℕ
  pub window_start : ℕ

abbrev pub RateLimitMap : Type 0
RateLimitMap = List (SocketAddr × RateLimitEntry)

unfoldable pub get : SocketAddr → RateLimitMap → Option RateLimitEntry
get a [] = none
get a ((b, e) ∷ m) = let rest = get a m in if same_addr a b then some e else rest

unfoldable pub put : SocketAddr → RateLimitEntry → RateLimitMap → RateLimitMap
put a e [] = (a, e) ∷ []
put a e ((b, f) ∷ m) = let rest = put a e m in if same_addr a b then (b, e) ∷ m else (b, f) ∷ rest

-- `entry(client_addr).or_insert(…)`.
unfoldable pub or_insert : ℕ → Option RateLimitEntry → RateLimitEntry
or_insert now none = record { count = 0; window_start = now }
or_insert now (some e) = e

-- A window lasts a minute.
unfoldable pub reset_window : ℕ → RateLimitEntry → RateLimitEntry
reset_window now e =
    if leb 60000 (now - e.window_start) then record { count = 0; window_start = now } else e

-- The counter is a `u32`, which wraps around in a release build.
unfoldable pub count_request : RateLimitEntry → RateLimitEntry
count_request e = record e { count = (e.count + 1) % 2 ^ 32 }

-- The entry after a request.
unfoldable pub next_entry : ℕ → Option RateLimitEntry → RateLimitEntry
unfolding or_insert reset_window count_request
next_entry now e = count_request (reset_window now (or_insert now e))

-- Whether the request is admitted, and the map after it.
unfoldable pub check_rate_limit :
    (rate_limit now : ℕ) → SocketAddr → RateLimitMap → Bool × RateLimitMap
unfolding next_entry get put
check_rate_limit rate_limit now client_addr m =
    let e = next_entry now (get client_addr m) in
    (not (ltb rate_limit e.count), put client_addr e m)
