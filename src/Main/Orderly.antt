-- ===== src/Main/Orderly.antt =====
-- The order in which `main` of source/main.cpp stops the threads, waits for them and closes the pipe.
use aim_to_v.Base.{ℕ, zero, suc, ◌<◌, ◌≡◌, refl, Bool, true, false, List, [], ◌∷◌, length, arith}
use aim_to_v.Sys.{World, running, nonzero, pipe, create_thread, join_thread, set_running, sleep}
use aim_to_v.Sys.Hoare.{Runs, Runs-bind, Runs-if, Runs-weaken, Runs-pure}
use aim_to_v.Accept.Descriptors.{own, held}
use aim_to_v.Main.{main, main_loop, run_threads, accept_thread_id, read_thread_id}
use aim_to_v.Main.Steady.{
  threads, is_off, Orderly, Steady, Runs-call-Steady, Runs-emit-Steady, later-Steady, as-Steady,
  Runs-setnonblocking-Steady, Runs-running-Steady, close_pipe_lem,
}

-- The main loop ends when the flag is off.
main_loop_lem :
    (fuel : ℕ) {fds ids : List ℕ} {off : Bool} {w : World}
    → Steady fds ids off fuel w
    → Runs (main_loop fuel) w (λ u. Steady fds ids true fuel)
unfolding main_loop running
main_loop_lem zero s = absurd (omega (arith, s.left))
main_loop_lem (suc fuel) s = Runs-bind (Runs-running-Steady s) (λ go w1 s1.
    Runs-if go
      (λ e.
        Runs-bind (Runs-emit-Steady sleep tt s1)
          (λ u w2 s2. Runs-weaken (main_loop_lem fuel s2) (λ u2 w3 s3. later-Steady s3)))
      (λ e. Runs-pure tt (as-Steady refl refl (rw e refl) (later-Steady s1))))

module _ (fuel rfd wfd : ℕ) {fds : List ℕ} {w : World} where
  run_threads_lem :
      Steady (own rfd (own wfd fds)) [] false fuel w
      → Runs (run_threads fuel rfd wfd) w (λ u. Steady fds [] true fuel)
  unfolding run_threads
  run_threads_lem s =
      Runs-bind (Runs-call-Steady (create_thread accept_thread_id) tt (later-Steady s))
        (λ accepting w1 s1.
          Runs-if (nonzero accepting)
            (λ e.
              let s1' : Steady (own rfd (own wfd fds)) [] false fuel w1 =
                as-Steady refl (rw e refl) refl s1 in
              Runs-bind (Runs-emit-Steady (set_running false) tt s1')
                (λ u w2 s2. close_pipe_lem rfd wfd s2))
            (λ e.
              let s1' : Steady (own rfd (own wfd fds)) (accept_thread_id ∷ []) false fuel w1 =
                as-Steady refl (rw e refl) refl s1 in
              Runs-bind (Runs-call-Steady (create_thread read_thread_id) tt (later-Steady s1'))
                (λ reading w2 s2.
                  Runs-if (nonzero reading)
                    (λ e1.
                      let s2' : Steady (own rfd (own wfd fds)) (accept_thread_id ∷ []) false fuel
                          w2 =
                        as-Steady refl (rw e1 refl) refl s2 in
                      Runs-bind (Runs-emit-Steady (set_running false) tt s2') (λ u w3 s3.
                        Runs-bind (Runs-emit-Steady (join_thread accept_thread_id) refl s3)
                          (λ u2 w4 s4. close_pipe_lem rfd wfd s4)))
                    (λ e1.
                      let s2' : Steady (own rfd (own wfd fds))
                          (read_thread_id ∷ accept_thread_id ∷ []) false fuel w2 =
                        as-Steady refl (rw e1 refl) refl s2 in
                      Runs-bind (main_loop_lem fuel s2') (λ u w3 s3.
                        Runs-bind (Runs-emit-Steady (join_thread accept_thread_id) refl s3)
                          (λ u2 w4 s4.
                            Runs-bind (Runs-emit-Steady (join_thread read_thread_id) refl s4)
                              (λ u3 w5 s5. close_pipe_lem rfd wfd s5)))))))

-- How `main` leaves the process when it returns.
pub record LeftOrderly (w w' : World) : Type 0 where
  pub descriptors : held w'.trace ≡ held w.trace
  pub threads_gone : threads w'.trace ≡ []
  pub flag_off : is_off w'.trace ≡ true
  pub order : Orderly w'.trace

-- Started with no thread running and a bound above the number of answers, main does not use up
-- its bound, and where it returns the pipe is closed, the threads it has created have been
-- waited for, the flag is off, no descriptor was closed while a thread ran, and no thread was
-- waited for before the flag was off.
pub main-LeftOrderly :
    (fuel : ℕ) (w : World)
    → threads w.trace ≡ []
    → Orderly w.trace
    → length w.answers < fuel
    → Runs (main fuel) w (λ u. LeftOrderly w)
unfolding main
main-LeftOrderly fuel w none_runs order h =
    let fds = held w.trace in
    let s : Steady fds [] (is_off w.trace) fuel w = record {
      hands = refl;
      running_threads = none_runs;
      flag = refl;
      order = order;
      left = omega (arith, h);
    } in
    Runs-weaken
      (Runs-bind (Runs-emit-Steady (set_running true) tt s) (λ u w1 s1.
        Runs-bind (Runs-call-Steady pipe tt (later-Steady s1)) (λ fd w2 s2.
          Runs-if fd.failed
            (λ e.
              let s2' : Steady fds [] false fuel w2 = as-Steady (rw e refl) refl refl s2 in
              Runs-emit-Steady (set_running false) tt s2')
            (λ e.
              let s2' : Steady (own fd.value (own fd.value2 fds)) [] false fuel w2 =
                as-Steady (rw e refl) refl refl s2 in
              Runs-bind (Runs-setnonblocking-Steady fd.value s2')
                (λ u2 w3 s3. run_threads_lem fuel fd.value fd.value2 s3)))))
      (λ u w' (s' : Steady fds [] true fuel w'). record {
        descriptors = s'.hands;
        threads_gone = s'.running_threads;
        flag_off = s'.flag;
        order = s'.order;
      })
