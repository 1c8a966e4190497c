-- ===== src/Examples/Sinks.antt =====
-- A connection point with a few sinks (src/library/tLuaCOMConnPoints.cpp).
use luacom.Prelude.{◌+◌, ◌≡◌, ◌≢◌, refl, false, none, some, List, [], ◌∷◌, arith, length, ◌↔◌}
use luacom.Com.{s_ok, e_unexpected}
use luacom.ConnPoint.{ConnPoint, new_conn_point, destroy, AdviseCall, accepted, advise, unadvise}
use luacom.ConnPoint.Slots.{has}
use luacom.ConnPoint.Table.{
  IsValid, connection, new_conn_point-IsValid, advise-connection, unadvise-connection,
}
use luacom.Container.{Container}
use luacom.ConnPoint.Owned.{
  advise_calls, count, Call, advises, unadvises, run, total_created, accounted, destroy-run,
}
use luacom.ConnPoint.Events.{call_sinks, call_sinks-active, advise_wraps}
use luacom.ConnPoint.Snapshot.{used_connections, paired, connected, used_connections-connection}

-- Two sinks, the first of which has gone again.
abbrev calls : List Call
calls = advises (accepted 7 70) ∷ advises (accepted 8 80) ∷ unadvises 400 ∷ []

abbrev two_sinks : ConnPoint
two_sinks = record {
  iid = 1;
  connections = some 7 ∷ none ∷ some 8 ∷ [];
  cookies = 400 ∷ 0 ∷ 402 ∷ [];
  sinks = some 70 ∷ none ∷ some 80 ∷ [];
  next_cookie = 403;
  unlocked = [];
}

abbrev worn_out : ConnPoint
worn_out = record two_sinks { next_cookie = 4294967295 }

two_sinks-IsValid : IsValid two_sinks
unfolding has
two_sinks-IsValid = record {
  parallel = tt;
  distinct = (λ n. refl, (λ n. refl, (λ n. refl, tt)));
  fresh = (omega arith, (omega arith, (omega arith, tt)));
  started = omega arith;
}

worn_out-IsValid : IsValid worn_out
unfolding has
worn_out-IsValid = record {
  parallel = tt;
  distinct = (λ n. refl, (λ n. refl, (λ n. refl, tt)));
  fresh = (omega arith, (omega arith, (omega arith, tt)));
  started = omega arith;
}

-- No interface to write to.
abbrev no_cookie : AdviseCall
no_cookie = record (accepted 9 90) { cookie_given = false }

no_cookie-refused : (advise two_sinks no_cookie).result ≢ s_ok
unfolding advise
no_cookie-refused = λ e. cc

destroy-run_example :
    count 70 (destroy (run new_conn_point calls))
    ≡ total_created 70 new_conn_point calls + accounted 70 new_conn_point
unfolding new_conn_point advise_calls
destroy-run_example = destroy-run 70 new_conn_point calls new_conn_point-IsValid (omega arith)

advise-connection_example :
    let r = advise two_sinks (accepted 9 90) in
    (r.result ≡ s_ok)
    × (r.cookie_out ≡ some 403)
    × (connection two_sinks 403 ≡ none)
    × (connection r.point 403 ≡ some (some 9, some 90))
advise-connection_example = advise-connection two_sinks 9 90 403 two_sinks-IsValid

unadvise-connection_example :
    (((unadvise two_sinks 402).0 ≡ s_ok) ↔ (connection two_sinks 402 ≢ none))
    × (connection (unadvise two_sinks 402).1 400 ≡ connection two_sinks 400)
unadvise-connection_example = unadvise-connection two_sinks 402 400 two_sinks-IsValid

call_sinks-active_example : call_sinks (λ c s. c) 4 two_sinks 0 ≡ some (70 ∷ 80 ∷ [], two_sinks)
call_sinks-active_example = call_sinks-active 4 two_sinks tt (omega arith)

advise_wraps_example :
    let first = (advise worn_out (accepted 9 90)).point in
    let second = advise first (accepted 10 100) in
    (second.result ≡ s_ok)
    × (second.cookie_out ≡ some 0)
    × (unadvise second.point 0 ≡ (e_unexpected, second.point))
advise_wraps_example = advise_wraps worn_out 9 90 10 100 (omega arith)

used_connections-connection_example :
    let copy = used_connections two_sinks.cookies two_sinks.connections in
    (length copy.0 ≡ length copy.1)
    × (has 0 copy.1 ≡ false)
    × (paired 402 copy.0 copy.1 ≡ connected (connection two_sinks 402))
used_connections-connection_example =
    used_connections-connection two_sinks 402 two_sinks-IsValid (omega arith)

abbrev one_point : Container
one_point = record { default_point = some two_sinks; points = 5 ∷ []; outer_refs = 1 }
