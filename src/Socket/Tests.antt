-- ===== src/Socket/Tests.antt =====
-- Accepting on a listening socket.
use musketeer.Prelude.{◌≡◌, ◌≢◌, refl, ◌⊎◌, true, false, none, some, Returns, ok, fault, aborted}
use musketeer.Errors.{no_error, emfile, eaddrinuse, econnrefused, failed, done}
use musketeer.Socket.{
  Socket, valid, close, destroy, move_from, new_socket, listen, call_succeeds, accept, connect,
  saved_errno,
}
use musketeer.Socket.Outcomes.{accept_lem, Connects, connect-Connects, move_from-destroy}

abbrev listening : Socket
listening = record { fd = some 3 }

accept_lem_example :
    Returns
      (λ r.
        ((valid r.0 ≡ true) × (r.1.first ≡ no_error))
        ⊎ ((valid r.0 ≡ false) × (r.1.first ≢ no_error)))
      (accept listening (failed emfile))
unfolding valid
accept_lem_example = accept_lem listening (failed emfile) refl

connect-Connects_example :
    Connects (connect (failed econnrefused))
    × ((connect (failed econnrefused)).1.second ≡ saved_errno (failed econnrefused))
connect-Connects_example = connect-Connects (failed econnrefused)

move_from-destroy_example :
    (destroy (move_from listening).0 ≡ some 3)
    × (destroy (move_from listening).1 ≡ none)
    × Returns (λ r. destroy r.1 ≡ none) (close listening)
unfolding valid
move_from-destroy_example = move_from-destroy listening refl

-- A new socket listens, or the program stops.
listens : listen (new_socket (done 3)) (done 0) ≡ ok listening
unfolding listen new_socket valid
listens = refl

listen_stops : listen (new_socket (done 3)) (failed eaddrinuse) ≡ fault aborted
unfolding listen new_socket valid
listen_stops = refl

bind_refused : call_succeeds listening (failed eaddrinuse) ≡ ok false
unfolding call_succeeds valid
bind_refused = refl
