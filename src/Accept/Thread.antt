-- ===== src/Accept/Thread.antt =====
-- The loops of the accepting thread of source/recv_thread.cpp, and the whole thread: what it opens
-- it closes or hands to the pipe.
use aim_to_v.Base.{
  ℕ, zero, suc, ◌<◌, ◌≡◌, refl, ◌||◌, ◌==◌, List, [], ◌∷◌, length, Option, none, some, arith,
}
use aim_to_v.Sys.{World, Event, epoll_create}
use aim_to_v.Sys.Hoare.{Runs, Runs-bind, Runs-if, Runs-weaken, Runs-pure}
use aim_to_v.Accept.{
  leave, accept_all, handle_event, handle_events, serve, close_positive, accept_thread,
}
use aim_to_v.Accept.Closes.{
  Listening, later-Listening, Runs-Listening, Runs-Continuing, accept_one_lem, reopen_listener_lem,
  open_listener_lem,
}
use aim_to_v.Accept.Descriptors.{
  AllFit, own, held, Holding, later-Holding, Runs-call-Holding, Runs-running-Holding, as-Holding,
  Runs-close-Holding,
}

module _ (epfd : ℕ) (fds : List ℕ) where
  accept_all_lem :
      (wfd fuel l : ℕ) {w : World}
      → Holding (own l (own epfd fds)) fuel w
      → Runs (accept_all wfd epfd fuel l) w (Listening epfd fds fuel)
  unfolding accept_all Listening
  accept_all_lem wfd zero l h = absurd (omega (arith, h.left))
  accept_all_lem wfd (suc fuel) l h = Runs-bind (accept_one_lem epfd fds wfd l h) (λ next w1 h1.
      Runs-Continuing epfd fds next h1 (λ h2. Runs-pure none (later-Holding h2))
        (λ l' h2. Runs-pure (some l') (later-Holding h2))
        (λ l' h2. Runs-bind (Runs-running-Holding (later-Holding h2)) (λ go w2 h3.
          Runs-if go
            (λ e.
              Runs-weaken (accept_all_lem wfd fuel l' h3)
                (λ left w3 h4. later-Listening epfd fds _ _ left h4))
            (λ e. Runs-pure (some l') (later-Holding h3)))))

  handle_event_lem :
      (wfd fuel : ℕ) (e : Event) (l : ℕ) {w : World}
      → Holding (own l (own epfd fds)) fuel w
      → Runs (handle_event wfd epfd fuel e l) w (Listening epfd fds fuel)
  unfolding handle_event Listening
  handle_event_lem wfd fuel e l h =
      Runs-if (e.fd == l)
        (λ e1.
          Runs-if e.epollin (λ e2. accept_all_lem wfd fuel l h)
            (λ e2.
              Runs-if (e.epollerr || e.epollhup) (λ e3. reopen_listener_lem epfd fds l h)
                (λ e3. Runs-pure (some l) h)))
        (λ e1. Runs-pure (some l) h)

  handle_events_lem :
      (wfd fuel : ℕ) (es : List Event) (l : ℕ) {w : World}
      → Holding (own l (own epfd fds)) fuel w
      → Runs (handle_events wfd epfd fuel es l) w (Listening epfd fds fuel)
  unfolding handle_events Listening
  handle_events_lem wfd fuel [] l h = Runs-pure (some l) h
  handle_events_lem wfd fuel (e ∷ es) l h =
      Runs-bind (Runs-running-Holding (later-Holding h)) (λ go w1 h1.
        Runs-if go
          (λ e1. Runs-bind (handle_event_lem wfd fuel e l h1) (λ next w2 h2.
            Runs-Listening epfd fds next h2 (λ h3. Runs-pure none h3)
              (λ l' h3. handle_events_lem wfd fuel es l' h3)))
          (λ e1. Runs-pure (some l) h1))

  serve_lem :
      (wfd fuel l : ℕ) {w : World}
      → Holding (own l (own epfd fds)) fuel w
      → Runs (serve wfd epfd fuel l) w (Listening epfd fds fuel)
  unfolding serve Listening
  serve_lem wfd zero l h = absurd (omega (arith, h.left))
  serve_lem wfd (suc fuel) l h = Runs-bind (Runs-running-Holding h) (λ go w1 h1.
      Runs-if go
        (λ e. Runs-bind (Runs-call-Holding _ (later-Holding h1)) (λ nfds w2 h2.
          Runs-bind (handle_events_lem wfd fuel _ l h2) (λ next w3 h3.
            Runs-Listening epfd fds next h3 (λ h4. Runs-pure none (later-Holding h4))
              (λ l' h4.
                Runs-weaken (serve_lem wfd fuel l' h4)
                  (λ left w4 h5. later-Listening epfd fds _ _ left h5)))))
        (λ e. Runs-pure (some l) (later-Holding h1)))

close_positive_lem :
    (fd : ℕ) {fds : List ℕ} {n : ℕ} {w : World}
    → Holding (own fd fds) n w
    → Runs (close_positive fd) w (λ u. Holding fds n)
unfolding close_positive
close_positive_lem fd h =
    Runs-if (fd == 0) (λ e. Runs-pure tt (as-Holding (ground (arith, e)) h))
      (λ e. Runs-close-Holding fd h)

after_serve_lem :
    (epfd : ℕ) (fds : List ℕ) (n : ℕ) (left : Option ℕ) {w : World}
    → Listening epfd fds n left w
    → Runs (leave epfd left) w (λ u. Holding fds n)
unfolding leave Listening
after_serve_lem epfd fds n none h = Runs-pure tt h
after_serve_lem epfd fds n (some l) h =
    Runs-bind (close_positive_lem l h) (λ u w1 h1. close_positive_lem epfd h1)

-- With answers of the system that fit their C types and a bound above their number, the
-- accepting thread does not use up its bound, and where it returns it has closed every
-- descriptor but 0 that it has opened, or has handed it to the pipe in a whole message that
-- names it.
pub accept_thread_closes_all :
    (fuel : ℕ) (arg : Option ℕ) (w : World)
    → AllFit w.answers
    → length w.answers < fuel
    → Runs (accept_thread fuel arg) w (λ u w'. held w'.trace ≡ held w.trace)
unfolding accept_thread
accept_thread_closes_all fuel none w f h = Runs-pure tt refl
accept_thread_closes_all fuel (some wfd) w f h =
    let fds = held w.trace in
    let start : Holding fds (suc fuel) w = record {
      hands = refl;
      left = omega (arith, h);
      fit = f;
    } in
    Runs-weaken
      (Runs-bind (Runs-call-Holding epoll_create start) (λ ep w1 h1.
        Runs-if ep.failed (λ e. Runs-pure tt (as-Holding (rw e refl) h1))
          (λ e.
            Runs-bind (open_listener_lem ep.value fds (as-Holding (rw e refl) h1)) (λ opened w2 h2.
              Runs-Listening ep.value fds opened h2 (λ h3. Runs-pure tt h3)
                (λ l h3.
                  Runs-bind (serve_lem ep.value fds wfd fuel l h3)
                    (λ left w4 h4. after_serve_lem ep.value fds fuel left h4))))))
      (λ u w' (h' : Holding fds fuel w'). h'.hands)
