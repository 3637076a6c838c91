-- ===== src/Main/Steady.antt =====
-- What `main` of source/main.cpp knows between two calls: descriptors, threads and the flag.
use aim_to_v.Base.{
  ℕ, suc, ◌<◌, ◌≡◌, refl, ap, ◌∙◌, Bool, true, false, not, ◌||◌, ◌==◌, if◌then◌else◌, List, [], ◌∷◌,
  length, arith,
}
use aim_to_v.Sys.{
  Answer, Call, World, call, emit, running, nonzero, nothing, setnonblocking, close, create_thread,
  join_thread, set_running, is_running,
}
use aim_to_v.Sys.Hoare.{
  Runs, Runs-bind, Runs-if, Runs-weaken, Runs-pure, Runs-exit, Runs-call, Runs-emit,
}
use aim_to_v.Accept.Descriptors.{without, own, after, held, disown-own}
use aim_to_v.Main.{close_pipe}

-- The threads that run after a call.
abbrev pub threads_after : Call → Answer → List ℕ → List ℕ
threads_after (create_thread id) a ids = if nonzero a then ids else id ∷ ids
threads_after (join_thread id) a ids = without id ids
threads_after c a ids = ids

abbrev pub threads : List (Call × Answer) → List ℕ
threads [] = []
threads ((c, a) ∷ earlier) = threads_after c a (threads earlier)

-- Whether `comm.running` is known to be off: no code but `main` sets it on again.
abbrev pub off_after : Call → Answer → Bool → Bool
off_after (set_running on) a off = not on
off_after is_running a off = a.value == 0 || off
off_after c a off = off

abbrev pub is_off : List (Call × Answer) → Bool
is_off [] = false
is_off ((c, a) ∷ earlier) = off_after c a (is_off earlier)

-- A descriptor is closed when no thread runs that could use it, and a thread is waited for when the
-- flag that stops it is off.
abbrev pub Allowed : Call → List ℕ → Bool → Type 0
Allowed (close fd) ids off = ids ≡ []
Allowed (join_thread id) ids off = off ≡ true
Allowed c ids off = Unit

abbrev pub Orderly : List (Call × Answer) → Type 0
Orderly [] = Unit
Orderly ((c, a) ∷ earlier) = Allowed c (threads earlier) (is_off earlier) × Orderly earlier

-- What `main` knows between two calls.
pub record Steady (fds ids : List ℕ) (off : Bool) (n : ℕ) (w : World) : Type 0 where
  pub hands : held w.trace ≡ fds
  pub running_threads : threads w.trace ≡ ids
  pub flag : is_off w.trace ≡ off
  pub order : Orderly w.trace
  pub left : length w.answers < n

module _ {fds ids : List ℕ} {off : Bool} {n : ℕ} {w : World} where
  pub Runs-call-Steady :
      (c : Call)
      → Allowed c ids off
      → Steady fds ids off (suc n) w
      → Runs (call c) w (λ a. Steady (after c a fds) (threads_after c a ids) (off_after c a off) n)
  Runs-call-Steady c ok s = Runs-call c (λ a rest e. record {
    hands = ap (after c a) s.hands;
    running_threads = ap (threads_after c a) s.running_threads;
    flag = ap (off_after c a) s.flag;
    order = (rw (s.running_threads, s.flag) ok, s.order);
    left = omega (arith, s.left, ap length e);
  })

  pub Runs-emit-Steady :
      (c : Call)
      → Allowed c ids off
      → Steady fds ids off n w
      → Runs (emit c) w (λ u.
        Steady (after c nothing fds) (threads_after c nothing ids) (off_after c nothing off) n)
  Runs-emit-Steady c ok s = Runs-emit c (record {
    hands = ap (after c nothing) s.hands;
    running_threads = ap (threads_after c nothing) s.running_threads;
    flag = ap (off_after c nothing) s.flag;
    order = (rw (s.running_threads, s.flag) ok, s.order);
    left = s.left;
  })

  pub later-Steady : Steady fds ids off n w → Steady fds ids off (suc n) w
  later-Steady s = record {
    hands = s.hands;
    running_threads = s.running_threads;
    flag = s.flag;
    order = s.order;
    left = omega (arith, s.left);
  }

pub as-Steady :
    {fds fds' ids ids' : List ℕ} {off off' : Bool} {n : ℕ} {w : World}
    → fds ≡ fds'
    → ids ≡ ids'
    → off ≡ off'
    → Steady fds ids off n w
    → Steady fds' ids' off' n w
as-Steady e e1 e2 s = record {
  hands = s.hands ∙ e;
  running_threads = s.running_threads ∙ e1;
  flag = s.flag ∙ e2;
  order = s.order;
  left = s.left;
}

module _ {fds ids : List ℕ} {off : Bool} {n : ℕ} {w : World} where
  pub Runs-setnonblocking-Steady :
      (sock : ℕ) → Steady fds ids off n w → Runs (setnonblocking sock) w (λ u. Steady fds ids off n)
  unfolding setnonblocking
  Runs-setnonblocking-Steady sock s =
      Runs-bind (Runs-call-Steady _ tt (later-Steady s)) (λ opts w1 s1.
        Runs-if opts.failed (λ e. Runs-exit)
          (λ e.
            Runs-bind (Runs-call-Steady _ tt (later-Steady s1))
              (λ set w2 s2. Runs-if set.failed (λ e. Runs-exit) (λ e. Runs-pure _ s2))))

  pub Runs-running-Steady :
      Steady fds ids off (suc n) w → Runs running w (λ go. Steady fds ids (not go || off) n)
  unfolding running
  Runs-running-Steady s =
      Runs-bind (Runs-call-Steady is_running tt s)
        (λ a w1 s1. Runs-pure (not (a.value == 0)) (as-Steady refl refl (ground arith) s1))

module _ {fds : List ℕ} {off : Bool} {n : ℕ} {w : World} where
  pub close_pipe_lem :
      (rfd wfd : ℕ)
      → Steady (own rfd (own wfd fds)) [] off n w
      → Runs (close_pipe rfd wfd) w (λ u. Steady fds [] off n)
  unfolding close_pipe
  close_pipe_lem rfd wfd s = Runs-bind (Runs-emit-Steady (close rfd) refl s) (λ u w1 s1.
      Runs-weaken
        (Runs-emit-Steady (close wfd) refl (as-Steady (disown-own rfd (own wfd fds)) refl refl s1))
        (λ u2 w2 s2. as-Steady (disown-own wfd fds) refl refl s2))
