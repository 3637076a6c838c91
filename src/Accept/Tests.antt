-- ===== src/Accept/Tests.antt =====
-- A run of the accepting thread of source/recv_thread.cpp: one connection comes in and goes to the
-- pipe, a second one does not fit into it, and then the server stops.
use aim_to_v.Base.{ℕ, ◌≡◌, refl, true, false, List, [], ◌∷◌, some, ◌<◌, arith}
use aim_to_v.Sys.{Answer, Event, World, nothing, returned}
use aim_to_v.Sys.Hoare.{Runs}
use aim_to_v.Accept.{accept_thread}
use aim_to_v.Accept.Descriptors.{held, AnswerFits, AllFit}
use aim_to_v.Accept.Thread.{accept_thread_closes_all}

abbrev gives : ℕ → Answer
gives n = record nothing { value = n }

abbrev comes : ℕ → Answer
comes fd = record nothing { value = fd; ip = 16777343; port = 5000 }

abbrev arrival : Event
arrival = record { fd = 4; epollin = true; epollout = false; epollerr = false; epollhup = false }

abbrev session : List Answer
session =
    gives 3
    ∷ gives 4
    ∷ gives 2
    ∷ gives 0
    ∷ gives 0
    ∷ gives 0
    ∷ gives 0
    ∷ gives 1
    ∷ record nothing { value = 1; events = arrival ∷ [] }
    ∷ gives 1
    ∷ comes 5
    ∷ gives 14
    ∷ gives 1
    ∷ comes 6
    ∷ record nothing { failed = true; errno = 11 }
    ∷ gives 1
    ∷ record nothing { failed = true; errno = 11 }
    ∷ gives 0
    ∷ []

abbrev before : World
before = record { answers = session; trace = [] }

small : (n : ℕ) → n < 256 → AnswerFits (gives n)
small n h = record { value = omega (arith, h); ip = omega arith; port = omega arith }

from_peer : (fd : ℕ) → fd < 256 → AnswerFits (comes fd)
from_peer fd h = record { value = omega (arith, h); ip = omega arith; port = omega arith }

refused : AnswerFits (record nothing { failed = true; errno = 11 })
refused = record { value = omega arith; ip = omega arith; port = omega arith }

session-AllFit : AllFit session
session-AllFit = (
  small 3 (omega arith),
  (
    small 4 (omega arith),
    (
      small 2 (omega arith),
      (
        small 0 (omega arith),
        (
          small 0 (omega arith),
          (
            small 0 (omega arith),
            (
              small 0 (omega arith),
              (
                small 1 (omega arith),
                (
                  record { value = omega arith; ip = omega arith; port = omega arith },
                  (
                    small 1 (omega arith),
                    (
                      from_peer 5 (omega arith),
                      (
                        small 14 (omega arith),
                        (
                          small 1 (omega arith),
                          (
                            from_peer 6 (omega arith),
                            (
                              refused,
                              (small 1 (omega arith), (refused, (small 0 (omega arith), tt))),
                            ),
                          ),
                        ),
                      ),
                    ),
                  ),
                ),
              ),
            ),
          ),
        ),
      ),
    ),
  ),
)

session_returns : (accept_thread 30 (some 9) before).0 ≡ returned tt
unfolding accept_thread aim_to_v.Sys.◌>>=◌ aim_to_v.Sys.call aim_to_v.Accept.open_listener
    aim_to_v.Sys.setnonblocking aim_to_v.Sys.pure aim_to_v.Sys.setreuseaddr aim_to_v.Sys.emit
    aim_to_v.Accept.serve aim_to_v.Sys.running aim_to_v.Accept.handle_events
    aim_to_v.Accept.handle_event aim_to_v.Accept.accept_all aim_to_v.Accept.accept_one
    aim_to_v.Accept.announce aim_to_v.Accept.leave aim_to_v.Accept.close_positive
    aim_to_v.Accept.reopen_listener aim_to_v.Pipe.to_pipe aim_to_v.Sys.exhausted aim_to_v.Sys.exit
    aim_to_v.Wire.Bytes.le_bytes
session_returns = refl

accept_thread_closes_all_example :
    Runs (accept_thread 30 (some 9)) before (λ u w'. held w'.trace ≡ [])
accept_thread_closes_all_example =
    accept_thread_closes_all 30 (some 9) before session-AllFit (omega arith)
