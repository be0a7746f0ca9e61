-- ===== src/RateLimit/Tests.antt =====
-- One host that sends from two ports.
use k_indexer.Prelude.{◌≡◌, ◌≢◌, ap, refl, true, false, some, [], ◌∷◌, get_elem?, arith}
use k_indexer.Text.{codes, text_eq}
use k_indexer.RateLimit.{
  SocketAddr, same_addr, get, put, check_rate_limit, next_entry, or_insert, reset_window,
  count_request,
}
use k_indexer.RateLimit.Refines.{AreOf, admitted, serve_trace, serve_trace_refines}
use k_indexer.RateLimit.Laws.{Trace, answers, times, answers-window}

abbrev first_port : SocketAddr
first_port = record { ip = codes "10.0.0.1"; port = 5001 }

abbrev second_port : SocketAddr
second_port = record { ip = codes "10.0.0.1"; port = 5002 }

abbrev trace : Trace
trace = (first_port, 100) ∷ (second_port, 150) ∷ (first_port, 200) ∷ []

-- With a limit of one, the second request of the first port is refused, and the other port is not counted.
one_port : answers 1 first_port trace [] ≡ true ∷ false ∷ []
unfolding answers check_rate_limit next_entry or_insert reset_window count_request get put same_addr
    text_eq
one_port = refl

other_port : answers 1 second_port trace [] ≡ true ∷ []
unfolding answers check_rate_limit next_entry or_insert reset_window count_request get put same_addr
    text_eq
other_port = refl

answers-window_example : get_elem? (answers 1 first_port trace []) 1 ≡ some false
unfolding times get same_addr text_eq
answers-window_example =
    answers-window 1 first_port trace [] 100 (200 ∷ []) 1 refl refl (omega arith, tt) (omega arith)
      (omega arith)

other_first : second_port ≢ first_port
other_first e = absurd (omega (arith, ap (λ a. a.port) e))

serve_trace_refines_example : true ∷ false ∷ [] ≡ admitted 1 [] (100 ∷ 200 ∷ [])
unfolding serve_trace check_rate_limit next_entry or_insert reset_window count_request get put
    same_addr text_eq
serve_trace_refines_example =
    serve_trace_refines 1 first_port trace []
      (AreOf.own 100 true
        (AreOf.other second_port 150 true other_first (AreOf.own 200 false AreOf.nothing)))
      refl (omega arith)
