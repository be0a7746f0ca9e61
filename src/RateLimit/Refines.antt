-- ===== src/RateLimit/Refines.antt =====
-- The rate limit of K-webserver/src/web_server.rs against its contract, which knows no map and no counter:
-- an address has a window, the times of its requests since the window was opened.
use k_indexer.Prelude.{
  ℕ, ◌+◌, ◌-◌, ◌^◌, ◌<◌, ◌≤◌, ◌≡◌, ◌≢◌, refl, sym, subst, ap, ◌∙◌, Bool, true, false, not, Option,
  none, some, List, [], ◌∷◌, ltb, leb, if◌then◌else◌, Bool-cases, inl, inr, length, arith,
}
use k_indexer.RateLimit.{
  SocketAddr, same_addr, RateLimitEntry, RateLimitMap, get, put, or_insert, reset_window,
  count_request, next_entry, check_rate_limit,
}
use k_indexer.RateLimit.Laws.{Trace, eq_of_same_addr, get-put_self, get-put_ne}

-- The time of the first request of a window, whose last is given first.
unfoldable pub opened : ℕ → List ℕ → ℕ
opened now [] = now
opened now (t ∷ w) = opened t w

-- A window takes the requests of less than a minute; the next request opens a new one.
unfoldable pub extend : ℕ → List ℕ → List ℕ
unfolding opened
extend now w = if leb 60000 (now - opened now w) then now ∷ [] else now ∷ w

-- The requests of one address at some times: each is admitted if its window holds no more than the limit.
unfoldable pub admitted : (rate_limit : ℕ) (window times : List ℕ) → List Bool
unfolding extend
admitted rate_limit w [] = []
admitted rate_limit w (now ∷ ts) =
    leb (length (extend now w)) rate_limit ∷ admitted rate_limit (extend now w) ts

-- What the code answers to the requests of a trace.
unfoldable pub serve_trace : (rate_limit : ℕ) → Trace → RateLimitMap → List Bool
unfolding check_rate_limit
serve_trace rate_limit [] m = []
serve_trace rate_limit ((a, now) ∷ t) m =
    let r = check_rate_limit rate_limit now a m in r.0 ∷ serve_trace rate_limit t r.1

-- The times of an address's requests in a trace with their answers, and the answers.
pub data AreOf (a : SocketAddr) : Trace → List Bool → List ℕ → List Bool → Type 0 where
  nothing : AreOf a [] [] [] []
  own :
      (now : ℕ) (b : Bool) {t : Trace} {bs : List Bool} {ts : List ℕ} {own_bs : List Bool}
      → AreOf a t bs ts own_bs
      → AreOf a ((a, now) ∷ t) (b ∷ bs) (now ∷ ts) (b ∷ own_bs)
  other :
      (c : SocketAddr) (now : ℕ) (b : Bool) {t : Trace} {bs : List Bool} {ts : List ℕ}
      {own_bs : List Bool}
      → c ≢ a
      → AreOf a t bs ts own_bs
      → AreOf a ((c, now) ∷ t) (b ∷ bs) ts own_bs

-- An entry stands for a window.
unfoldable StandsFor : Option RateLimitEntry → List ℕ → Type 0
StandsFor none w = w ≡ []
StandsFor (some e) w =
    (1 ≤ length w) × (e.count ≡ length w) × ((now : ℕ) → e.window_start ≡ opened now w)

-- The entry and the window behind a request, by whether the window is over.
step :
    (now : ℕ) (e : RateLimitEntry) (w : List ℕ) (b : Bool)
    → StandsFor (some e) w
    → length w + 1 < 2 ^ 32
    → StandsFor
        (some (count_request (if b then record { count = 0; window_start = now } else e)))
        (if b then now ∷ [] else now ∷ w)
unfolding StandsFor count_request opened
step now e w true h n = (omega arith, refl, λ _. refl)
step now e [] false h n = absurd (omega (arith, h.0))
step now e (t ∷ w) false h n = (omega arith, omega (arith, h.1), λ _. h.2 now)

next_entry-StandsFor :
    (now : ℕ) (o : Option RateLimitEntry) (w : List ℕ)
    → StandsFor o w
    → length w + 1 < 2 ^ 32
    → StandsFor (some (next_entry now o)) (extend now w)
unfolding StandsFor next_entry or_insert reset_window count_request extend opened
next_entry-StandsFor now none [] h n =
    elim (leb 60000 (now - now))
      as (λ b.
        StandsFor
          (some (
            count_request (
              if b
              then record { count = 0; window_start = now }
              else record { count = 0; window_start = now })))
          (if b then now ∷ [] else now ∷ [])) [
            | true ↦ (omega arith, refl, λ _. refl)
            | false ↦ (omega arith, refl, λ _. refl)
          ]
next_entry-StandsFor now none (t ∷ w) h n = absurd (cc)
next_entry-StandsFor now (some e) w h n =
    let b : ℕ → Bool = λ start. leb 60000 (now - start) in
    subst
      (λ start.
        StandsFor
          (some (count_request (if b start then record { count = 0; window_start = now } else e)))
          (extend now w))
      (sym (h.2 now)) (step now e w (b (opened now w)) h n)

length-extend : (now : ℕ) (w : List ℕ) → length (extend now w) ≤ length w + 1
unfolding extend
length-extend now w = ground arith

same_addr-ne : (c a : SocketAddr) → c ≢ a → same_addr c a ≡ false
same_addr-ne c a d = elim (Bool-cases (same_addr c a)) [
  | inl e ↦ absurd (d (eq_of_same_addr c a e))
  | inr e ↦ e
]

verdict : (rate_limit n : ℕ) → not (ltb rate_limit n) ≡ leb n rate_limit
verdict rate_limit n = ground arith

head_injective : {x y : Bool} {xs ys : List Bool} → x ∷ xs ≡ y ∷ ys → x ≡ y
head_injective e = cc

tail_injective : {x y : Bool} {xs ys : List Bool} → x ∷ xs ≡ y ∷ ys → xs ≡ ys
tail_injective e = cc

count-StandsFor : (e : RateLimitEntry) (w : List ℕ) → StandsFor (some e) w → e.count ≡ length w
unfolding StandsFor
count-StandsFor e w h = h.1

-- The answers to an address whose entry stands for a window.
serve_trace-window :
    (rate_limit : ℕ) (a : SocketAddr) (t : Trace) (m : RateLimitMap) (w : List ℕ) {bs : List Bool}
    {ts : List ℕ} {own_bs : List Bool}
    → AreOf a t bs ts own_bs
    → serve_trace rate_limit t m ≡ bs
    → StandsFor (get a m) w
    → length w + length ts < 2 ^ 32
    → own_bs ≡ admitted rate_limit w ts
unfolding serve_trace check_rate_limit admitted
serve_trace-window rate_limit a _ m w nothing e h n = refl
serve_trace-window rate_limit a _ m w (own now b {t} {bs} {ts} {own_bs} s) e h n =
    let f = next_entry now (get a m) in
    let w' = extend now w in
    let both : not (ltb rate_limit f.count) ∷ serve_trace rate_limit t (put a f m) ≡ b ∷ bs = e in
    let stands : StandsFor (some f) w' = next_entry-StandsFor now (get a m) w h (omega arith) in
    let here : b ≡ leb (length w') rate_limit =
      sym (head_injective both)
      ∙ verdict rate_limit f.count
      ∙ ap (λ n. leb n rate_limit) (count-StandsFor f w' stands) in
    let later : own_bs ≡ admitted rate_limit w' ts =
      serve_trace-window rate_limit a t (put a f m) w' s (tail_injective both)
        (rw (get-put_self a f m) stands) (omega (arith, length-extend now w)) in
    rw (here, later) refl
serve_trace-window rate_limit a _ m w (other c now b {t} {bs} {ts} {own_bs} d s) e h n =
    let f = next_entry now (get c m) in
    let both : not (ltb rate_limit f.count) ∷ serve_trace rate_limit t (put c f m) ≡ b ∷ bs = e in
    serve_trace-window rate_limit a t (put c f m) w s (tail_injective both)
      (rw (get-put_ne c a f m (same_addr-ne c a d)) h) n

-- The answers that an address without an entry gets in any trace, fewer than 2 ^ 32 requests of its own and
-- any number of others', are those of its window alone: a request is admitted if its window, which opens
-- with a first request and takes those of less than a minute from there, holds no more than the limit.
pub serve_trace_refines :
    (rate_limit : ℕ) (a : SocketAddr) (t : Trace) (m : RateLimitMap) {ts : List ℕ}
    {own_bs : List Bool}
    → AreOf a t (serve_trace rate_limit t m) ts own_bs
    → get a m ≡ none
    → length ts < 2 ^ 32
    → own_bs ≡ admitted rate_limit [] ts
unfolding StandsFor
serve_trace_refines rate_limit a t m s h n =
    serve_trace-window rate_limit a t m [] s refl (rw h refl) (omega arith)
