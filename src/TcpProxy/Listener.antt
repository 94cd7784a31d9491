-- ===== src/TcpProxy/Listener.antt =====
-- src/tcp_proxy.rs: `run_listener`. What the socket answers is a list of turns of the loop: whether
-- the flag of the listener is set when the turn begins, and how the accept ends. Each accepted
-- client is handed to a thread of its own, which the result lists.
use konnector.Prelude.{
  ℕ, ◌≡◌, refl, ap, Bool, true, false, List, [], ◌∷◌, ◌++◌, arith, if◌then◌else◌, Option, none,
  some, all, not, Text,
}

pub data Accepted : Type 0 where
  client : Text → Accepted
  would_block accept_failed : Accepted

-- How the thread ends: it could not listen, or it was stopped. A loop that still runs has no end.
pub data Ended : Type 0 where
  cannot_bind cannot_configure stopped : Ended

pub record Turn : Type 0 where
  pub shutdown : Bool
  pub accepted : Accepted

-- The milliseconds that a turn sleeps.
unfoldable pub pause : Accepted → ℕ
pause (client address) = 0
pause would_block = 50
pause accept_failed = 100

abbrev pub relayed : Accepted → List Text
relayed (client address) = address ∷ []
relayed would_block = []
relayed accept_failed = []

abbrev add_relay : Accepted → List Text × Option Ended → List Text × Option Ended
add_relay accepted (clients, ended) = (relayed accepted ++ clients, ended)

unfoldable pub accept_loop : List Turn → List Text × Option Ended
accept_loop [] = ([], none)
accept_loop (turn ∷ turns) =
    let rest = accept_loop turns in
    if turn.shutdown then ([], some stopped) else add_relay turn.accepted rest

-- The flags say whether the bind and the change to a nonblocking socket succeed.
unfoldable pub run_listener : Bool → Bool → List Turn → List Text × Option Ended
unfolding accept_loop
run_listener bound nonblocking turns =
    if not bound
    then ([], some cannot_bind)
    else if not nonblocking
    then ([], some cannot_configure)
    else accept_loop turns

abbrev pub clients_of : List Turn → List Text
clients_of [] = []
clients_of (turn ∷ turns) = relayed turn.accepted ++ clients_of turns

-- While the flag is not set every accepted client is relayed, once and in order, whatever accepts
-- fail between; from the turn on in which it is set none is, and the thread ends.
pub run_listener-relays :
    (before after : List Turn) (last : Accepted)
    → all (λ turn. not turn.shutdown) before ≡ true
    → run_listener true true (before ++ record { shutdown = true; accepted = last } ∷ after)
      ≡ (clients_of before, some stopped)
unfolding run_listener accept_loop
run_listener-relays [] after last h = refl
run_listener-relays (turn ∷ before) after last h =
    let rest = run_listener-relays before after last (ground arith) in
    let going : turn.shutdown ≡ false = ground arith in rw going (ap (add_relay turn.accepted) rest)
