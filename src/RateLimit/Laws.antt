-- ===== src/RateLimit/Laws.antt =====
-- How many requests of an address a window admits, whatever the other addresses send.
use k_indexer.Prelude.{
  ℕ, Bool-cases, inl, inr, zero, suc, ◌+◌, ◌^◌, ◌<◌, ◌≡◌, refl, ap, sym, ◌∙◌, Bool, true, false,
  not, Option, none, some, List, [], ◌∷◌, ltb, leb, if◌then◌else◌, length, get_elem?, All, arith,
}
use k_indexer.Text.{text_eq_refl, text_eq_comm, eq_of_text_eq}
use k_indexer.RateLimit.{
  SocketAddr, same_addr, RateLimitEntry, RateLimitMap, get, put, or_insert, reset_window,
  count_request, next_entry, check_rate_limit,
}

pub same_addr_refl : (a : SocketAddr) → same_addr a a ≡ true
unfolding same_addr
same_addr_refl a = ground (arith, text_eq_refl a.ip)

pub eq_of_same_addr : (a b : SocketAddr) → same_addr a b ≡ true → a ≡ b
unfolding same_addr
eq_of_same_addr a b h = ground (arith, eq_of_text_eq a.ip b.ip)

same_addr_comm : (a b : SocketAddr) → same_addr a b ≡ same_addr b a
unfolding same_addr
same_addr_comm a b = ground (arith, text_eq_comm a.ip b.ip)

-- What is equal to one address is equal to another or not as that one is.
same_addr-other :
    (a b c : SocketAddr) → same_addr a b ≡ false → same_addr a c ≡ true → same_addr b c ≡ false
same_addr-other a b c h k =
    let same : a ≡ c = eq_of_same_addr a c k in ap (same_addr b) (sym same) ∙ same_addr_comm b a ∙ h

pub get-put_self :
    (a : SocketAddr) (e : RateLimitEntry) (m : RateLimitMap) → get a (put a e m) ≡ some e
unfolding get put
get-put_self a e [] = ground (arith, same_addr_refl a)
get-put_self a e ((b, f) ∷ m) = ground (arith, get-put_self a e m)

pub get-put_ne :
    (a b : SocketAddr) (e : RateLimitEntry) (m : RateLimitMap)
    → same_addr a b ≡ false
    → get b (put a e m) ≡ get b m
unfolding get put
get-put_ne a b e [] h = ground (arith, same_addr-other a b a h (same_addr_refl a))
get-put_ne a b e ((c, f) ∷ m) h = ground (arith, get-put_ne a b e m h, same_addr-other a b c h)

-- The requests that arrive, in order, with the times of their checks.
abbrev pub Trace : Type 0
Trace = List (SocketAddr × ℕ)

-- The answers to the requests of one address.
unfoldable pub answers : ℕ → SocketAddr → Trace → RateLimitMap → List Bool
answers limit a [] m = []
answers limit a ((b, now) ∷ t) m =
    let r = check_rate_limit limit now b m in
    let rest = answers limit a t r.1 in if same_addr b a then r.0 ∷ rest else rest

-- The times of its requests.
unfoldable pub times : SocketAddr → Trace → List ℕ
times a [] = []
times a ((b, now) ∷ t) = if same_addr b a then now ∷ times a t else times a t

-- The answers to an address that is alone.
alone : ℕ → Option RateLimitEntry → List ℕ → List Bool
alone limit e [] = []
alone limit e (now ∷ ts) =
    not (ltb limit (next_entry now e).count) ∷ alone limit (some (next_entry now e)) ts

-- The first request is of this address, or of another.
answers-same :
    (limit : ℕ) (a b : SocketAddr) (now : ℕ) (t : Trace) (m : RateLimitMap)
    → same_addr b a ≡ true
    → answers limit a ((b, now) ∷ t) m
      ≡ not (ltb limit (next_entry now (get a m)).count)
        ∷ answers limit a t (put a (next_entry now (get a m)) m)
unfolding answers check_rate_limit
answers-same limit a b now t m h = let same : b ≡ a = eq_of_same_addr b a h in rw (h, same) refl

answers-ne :
    (limit : ℕ) (a b : SocketAddr) (now : ℕ) (t : Trace) (m : RateLimitMap)
    → same_addr b a ≡ false
    → answers limit a ((b, now) ∷ t) m ≡ answers limit a t (put b (next_entry now (get b m)) m)
unfolding answers check_rate_limit
answers-ne limit a b now t m h = rw h

times-same :
    (a b : SocketAddr) (now : ℕ) (t : Trace)
    → same_addr b a ≡ true
    → times a ((b, now) ∷ t) ≡ now ∷ times a t
unfolding times
times-same a b now t h = rw h

times-ne :
    (a b : SocketAddr) (now : ℕ) (t : Trace)
    → same_addr b a ≡ false
    → times a ((b, now) ∷ t) ≡ times a t
unfolding times
times-ne a b now t h = rw h

answers-alone :
    (limit : ℕ) (a : SocketAddr) (t : Trace) (m : RateLimitMap)
    → answers limit a t m ≡ alone limit (get a m) (times a t)
unfolding answers times alone
answers-alone limit a [] m = refl
answers-alone limit a ((b, now) ∷ t) m = elim (Bool-cases (same_addr b a)) [
  | inl e ↦
      let entry = next_entry now (get a m) in
      answers-same limit a b now t m e
      ∙ ap (λ r. not (ltb limit entry.count) ∷ r)
          (answers-alone limit a t (put a entry m)
            ∙ ap (λ o. alone limit o (times a t)) (get-put_self a entry m))
      ∙ sym (ap (alone limit (get a m)) (times-same a b now t e))
  | inr e ↦
      let entry = next_entry now (get b m) in
      answers-ne limit a b now t m e
      ∙ answers-alone limit a t (put b entry m)
      ∙ ap (λ o. alone limit o (times a t)) (get-put_ne b a entry m e)
      ∙ sym (ap (alone limit (get a m)) (times-ne a b now t e))
]

next_entry-in_window :
    (c start now : ℕ)
    → now < start + 60000
    → c + 1 < 2 ^ 32
    → next_entry now (some (record { count = c; window_start = start }))
      ≡ record { count = c + 1; window_start = start }
unfolding next_entry or_insert reset_window count_request
next_entry-in_window c start now h n = ground arith

-- Within a window that has counted `c` requests, the next ones are counted on.
alone-counts :
    (limit c start : ℕ) (ts : List ℕ) (k : ℕ)
    → All (λ now. now < start + 60000) ts
    → c + length ts < 2 ^ 32
    → k < length ts
    → get_elem? (alone limit (some (record { count = c; window_start = start })) ts) k
      ≡ some (leb (c + k + 1) limit)
unfolding alone
alone-counts limit c start [] k h n hk = absurd (omega arith)
alone-counts limit c start (now ∷ ts) zero h n hk =
    rw (next_entry-in_window c start now h.0 (omega arith)) (ground arith)
alone-counts limit c start (now ∷ ts) (suc k) h n hk =
    rw (next_entry-in_window c start now h.0 (omega arith)) (
      alone-counts limit (c + 1) start ts k h.1 (omega arith) (omega arith)
      ∙ ap (λ x. some (leb x limit)) (omega arith))

next_entry-first : (now : ℕ) → next_entry now none ≡ record { count = 1; window_start = now }
unfolding next_entry or_insert reset_window count_request
next_entry-first now = ground arith

alone-first :
    (limit first : ℕ) (rest : List ℕ) (k : ℕ)
    → All (λ now. now < first + 60000) rest
    → length rest + 1 < 2 ^ 32
    → k < length rest + 1
    → get_elem? (alone limit none (first ∷ rest)) k ≡ some (ltb k limit)
unfolding alone
alone-first limit first rest zero hw hn hk = rw (next_entry-first first) (ground arith)
alone-first limit first rest (suc k) hw hn hk =
    rw (next_entry-first first)
      (alone-counts limit 1 first rest k hw (omega arith) (omega arith) ∙ ground arith)

-- In a trace of requests of any addresses, an address that the map does not hold, and whose requests all
-- come within a minute of its first and are fewer than 2 ^ 32, has its first `limit` requests admitted and
-- the others refused.
pub answers-window :
    (limit : ℕ) (a : SocketAddr) (t : Trace) (m : RateLimitMap) (first : ℕ) (rest : List ℕ) (k : ℕ)
    → get a m ≡ none
    → times a t ≡ first ∷ rest
    → All (λ now. now < first + 60000) rest
    → length rest + 1 < 2 ^ 32
    → k < length rest + 1
    → get_elem? (answers limit a t m) k ≡ some (ltb k limit)
answers-window limit a t m first rest k new ht hw hn hk =
    ap (λ l. get_elem? l k) (answers-alone limit a t m)
    ∙ ap (λ o. get_elem? (alone limit o (times a t)) k) new
    ∙ ap (λ l. get_elem? (alone limit none l) k) ht
    ∙ alone-first limit first rest k hw hn hk
