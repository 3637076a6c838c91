-- ===== src/Accept/Closes.antt =====
-- The accepting thread of source/recv_thread.cpp closes what it opens, or hands it to the pipe.
use aim_to_v.Base.{ℕ, suc, ◌≡◌, refl, false, not, ◌&&◌, ◌==◌, List, Option, none, some, arith}
use aim_to_v.Pipe.{PipeFits, from_pipe-to_pipe}
use aim_to_v.Sys.{World, Sys, pure, ◌>>◌, emit, nonzero, socket, accept, close}
use aim_to_v.Sys.Hoare.{Runs, Runs-bind, Runs-if, Runs-pure}
use aim_to_v.Accept.{
  eagain, eintr, message, open_listener, reopen_listener, Next, stopped, drained, again, next_of,
  announce, accept_one,
}
use aim_to_v.Accept.Descriptors.{
  Runs-call-AnswerFits, own, Holding, disown-own, later-Holding, Runs-call-Holding,
  Runs-emit-Holding, Runs-setnonblocking-Holding, Runs-setreuseaddr-Holding, as-Holding,
  Runs-close-Holding,
}

module _ (epfd : ℕ) (fds : List ℕ) (n : ℕ) where
  -- Both descriptors are in hand, or the thread has closed them and returned.
  unfoldable pub Listening : Option ℕ → World → Type 0
  Listening none = Holding fds n
  Listening (some l) = Holding (own l (own epfd fds)) n

  unfoldable pub Continuing : Next → World → Type 0
  Continuing stopped = Holding fds n
  Continuing (drained l) = Holding (own l (own epfd fds)) n
  Continuing (again l) = Holding (own l (own epfd fds)) n

module _ (epfd : ℕ) (fds : List ℕ) {n : ℕ} {w : World} where
  give_up_lem :
      (l : ℕ)
      → Holding (own l (own epfd fds)) n w
      → Runs (emit (close l) >> emit (close epfd) >> pure none) w (Listening epfd fds n)
  unfolding Listening
  give_up_lem l h =
      Runs-bind (Runs-bind (Runs-close-Holding l h) (λ u w1 h1. Runs-close-Holding epfd h1))
        (λ u w2 h2. Runs-pure none h2)

module _ (epfd : ℕ) (fds : List ℕ) {n : ℕ} {w : World} where
  pub open_listener_lem :
      Holding (own epfd fds) n w → Runs (open_listener epfd) w (Listening epfd fds n)
  unfolding open_listener Listening
  open_listener_lem h = Runs-bind (Runs-call-Holding socket (later-Holding h)) (λ s w1 h1.
      Runs-if s.failed
        (λ e.
          Runs-bind (Runs-close-Holding epfd (as-Holding (rw e refl) h1))
            (λ u w2 h2. Runs-pure none h2))
        (λ e.
          Runs-bind (Runs-setnonblocking-Holding s.value (as-Holding (rw e refl) h1)) (λ u w2 h2.
            Runs-bind (Runs-setreuseaddr-Holding s.value h2) (λ u w3 h3.
              Runs-bind (Runs-call-Holding _ (later-Holding h3)) (λ added w4 h4.
                Runs-if (nonzero added) (λ e. give_up_lem epfd fds s.value h4)
                  (λ e. Runs-bind (Runs-emit-Holding _ h4) (λ u w5 h5.
                    Runs-bind (Runs-call-Holding _ (later-Holding h5)) (λ listening w6 h6.
                      Runs-if (nonzero listening) (λ e. give_up_lem epfd fds s.value h6)
                        (λ e. Runs-pure (some s.value) h6)))))))))

module _ (epfd : ℕ) (fds : List ℕ) {n : ℕ} {w : World} where
  pub reopen_listener_lem :
      (l : ℕ)
      → Holding (own l (own epfd fds)) n w
      → Runs (reopen_listener epfd l) w (Listening epfd fds n)
  unfolding reopen_listener
  reopen_listener_lem l h =
      Runs-bind (Runs-close-Holding l h)
        (λ u w1 h1. Runs-bind (Runs-emit-Holding _ h1) (λ u w2 h2. open_listener_lem epfd fds h2))

module _ {fds : List ℕ} {n : ℕ} {w : World} where
  -- The connection goes to the reading thread or is closed.
  announce_lem :
      (wfd connfd ip port : ℕ)
      → PipeFits (message connfd ip port)
      → Holding (own connfd fds) n w
      → Runs (announce wfd connfd ip port) w (λ u. Holding fds n)
  unfolding announce
  announce_lem wfd connfd ip port f h =
      Runs-bind (Runs-call-Holding _ (later-Holding h)) (λ ret w1 h1.
        Runs-if (not ret.failed && ret.value == 14)
          (λ e. Runs-pure tt (
            as-Holding
              (rw (e, from_pipe-to_pipe (message connfd ip port) f) (disown-own connfd fds)) h1))
          (λ e. Runs-close-Holding connfd (as-Holding (rw e refl) h1)))

module _ (epfd : ℕ) (fds : List ℕ) (n : ℕ) (w : World) where
  next_of_lem :
      (opened : Option ℕ) → Listening epfd fds n opened w → Continuing epfd fds n (next_of opened) w
  unfolding Listening Continuing
  next_of_lem none h = h
  next_of_lem (some l) h = h

  pub later-Listening :
      (opened : Option ℕ) → Listening epfd fds n opened w → Listening epfd fds (suc n) opened w
  unfolding Listening
  later-Listening none h = later-Holding h
  later-Listening (some l) h = later-Holding h

module _ (epfd : ℕ) (fds : List ℕ) {n : ℕ} {w : World} where
  pub Runs-Listening :
      {B : Type 0} {stop : Sys B} {go_on : ℕ → Sys B} {R : B → World → Type 0} (opened : Option ℕ)
      → Listening epfd fds n opened w
      → (Holding fds n w → Runs stop w R)
      → ((l : ℕ) → Holding (own l (own epfd fds)) n w → Runs (go_on l) w R)
      → Runs (elim opened [ none ↦ stop | some l ↦ go_on l ]) w R
  unfolding Listening
  Runs-Listening none h s g = s h
  Runs-Listening (some l) h s g = g l h

  pub Runs-Continuing :
      {B : Type 0} {stop : Sys B} {leave go_on : ℕ → Sys B} {R : B → World → Type 0} (next : Next)
      → Continuing epfd fds n next w
      → (Holding fds n w → Runs stop w R)
      → ((l : ℕ) → Holding (own l (own epfd fds)) n w → Runs (leave l) w R)
      → ((l : ℕ) → Holding (own l (own epfd fds)) n w → Runs (go_on l) w R)
      → Runs (elim next [ stopped ↦ stop | drained l ↦ leave l | again l ↦ go_on l ]) w R
  unfolding Continuing
  Runs-Continuing stopped h s v g = s h
  Runs-Continuing (drained l) h s v g = v l h
  Runs-Continuing (again l) h s v g = g l h

module _ (epfd : ℕ) (fds : List ℕ) {n : ℕ} {w : World} where
  pub accept_one_lem :
      (wfd l : ℕ)
      → Holding (own l (own epfd fds)) (suc n) w
      → Runs (accept_one wfd epfd l) w (Continuing epfd fds n)
  unfolding accept_one Continuing
  accept_one_lem wfd l h = Runs-bind (Runs-call-AnswerFits (accept l) h) (λ conn w1 (h1, f).
      let same : (not conn.failed && not (conn.value == 0)) ≡ false
          → Holding (own l (own epfd fds)) n w1 =
        λ e. as-Holding (ground (arith, e)) h1 in
      Runs-if (not conn.failed && not (conn.value == 0))
        (λ e.
          Runs-bind
            (announce_lem wfd conn.value conn.ip conn.port
              (record { op = omega arith; fd = f.value; ip = f.ip; port = f.port })
              (as-Holding (ground (arith, e)) h1))
            (λ u w2 h2. Runs-pure (again l) h2))
        (λ e.
          Runs-if (conn.errno == eagain) (λ e1. Runs-pure (drained l) (same e))
            (λ e1.
              Runs-if (conn.errno == eintr) (λ e2. Runs-pure (again l) (same e))
                (λ e2.
                  Runs-bind (reopen_listener_lem epfd fds l (same e))
                    (λ opened w2 h2. Runs-pure _ (next_of_lem epfd fds _ _ opened h2))))))
