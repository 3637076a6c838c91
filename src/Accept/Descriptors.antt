-- ===== src/Accept/Descriptors.antt =====
-- The descriptors that the accepting thread of source/recv_thread.cpp owns, read off its calls.
use aim_to_v.Base.{
  ℕ, suc, ◌^◌, ◌<◌, ◌≡◌, ap, ◌∙◌, not, ◌&&◌, ◌==◌, if◌then◌else◌, List, [], ◌∷◌, length, arith,
}
use mathlib.Core.Path.{subst}
use aim_to_v.Pipe.{from_pipe}
use aim_to_v.Sys.{
  Answer, Call, World, call, emit, running, setnonblocking, setreuseaddr, nothing, epoll_create,
  socket, pipe, accept, write_pipe, close,
}
use aim_to_v.Sys.Hoare.{
  Runs, Runs-bind, Runs-if, Runs-weaken, Runs-pure, Runs-exit, Runs-call, Runs-emit,
}

-- A descriptor more; 0 is the standard input.
abbrev pub own : ℕ → List ℕ → List ℕ
own fd fds = if fd == 0 then fds else fd ∷ fds

-- The first occurrence is taken out.
abbrev pub without : ℕ → List ℕ → List ℕ
without fd [] = []
without fd (x ∷ fds) = let rest = without fd fds in if x == fd then fds else x ∷ rest

abbrev pub disown : ℕ → List ℕ → List ℕ
disown fd fds = if fd == 0 then fds else without fd fds

-- What a call with its answer does to the descriptors in hand: a descriptor that the pipe has taken in
-- a whole message belongs to the thread at the other end.
abbrev pub after : Call → Answer → List ℕ → List ℕ
after epoll_create a fds = if a.failed then fds else own a.value fds
after socket a fds = if a.failed then fds else own a.value fds
after pipe a fds = if a.failed then fds else own a.value (own a.value2 fds)
after (accept l) a fds = if a.failed then fds else own a.value fds
after (write_pipe p bytes) a fds =
    if not a.failed && a.value == 14 then disown (from_pipe bytes).fd fds else fds
after (close fd) a fds = disown fd fds
after c a fds = fds

abbrev pub held : List (Call × Answer) → List ℕ
held [] = []
held ((c, a) ∷ earlier) = after c a (held earlier)

-- What the system answers has the width of its C types.
pub record AnswerFits (a : Answer) : Type 0 where
  pub value : a.value < 256 ^ 4
  pub ip : a.ip < 256 ^ 4
  pub port : a.port < 256 ^ 2

abbrev pub AllFit : List Answer → Type 0
AllFit [] = Unit
AllFit (a ∷ rest) = AnswerFits a × AllFit rest

-- These descriptors are in hand, and fewer than `n` answers are to come.
pub record Holding (fds : List ℕ) (n : ℕ) (w : World) : Type 0 where
  pub hands : held w.trace ≡ fds
  pub left : length w.answers < n
  pub fit : AllFit w.answers

pub disown-own : (fd : ℕ) (fds : List ℕ) → disown fd (own fd fds) ≡ fds
disown-own fd fds = ground arith

module _ {fds : List ℕ} {n : ℕ} {w : World} where
  pub later-Holding : Holding fds n w → Holding fds (suc n) w
  later-Holding h = record { hands = h.hands; left = omega (arith, h.left); fit = h.fit }

  pub Runs-call-AnswerFits :
      (c : Call)
      → Holding fds (suc n) w
      → Runs (call c) w (λ a w'. Holding (after c a fds) n w' × AnswerFits a)
  Runs-call-AnswerFits c h = Runs-call c (λ a rest e.
      let fit : AllFit (a ∷ rest) = subst (λ (answers : List Answer). AllFit answers) e h.fit in
      (
        record {
          hands = ap (after c a) h.hands;
          left = omega (arith, h.left, ap length e);
          fit = fit.1;
        },
        fit.0,
      ))

  pub Runs-call-Holding :
      (c : Call) → Holding fds (suc n) w → Runs (call c) w (λ a. Holding (after c a fds) n)
  Runs-call-Holding c h = Runs-weaken (Runs-call-AnswerFits c h) (λ a w1 h1. h1.0)

  pub Runs-emit-Holding :
      (c : Call) → Holding fds n w → Runs (emit c) w (λ u. Holding (after c nothing fds) n)
  Runs-emit-Holding c h =
      Runs-emit c (record { hands = ap (after c nothing) h.hands; left = h.left; fit = h.fit })

-- The calls that neither open nor close.
module _ {fds : List ℕ} {n : ℕ} {w : World} where
  pub Runs-setnonblocking-Holding :
      (sock : ℕ) → Holding fds n w → Runs (setnonblocking sock) w (λ u. Holding fds n)
  unfolding setnonblocking
  Runs-setnonblocking-Holding sock h =
      Runs-bind (Runs-call-Holding _ (later-Holding h)) (λ opts w1 h1.
        Runs-if opts.failed (λ e. Runs-exit)
          (λ e.
            Runs-bind (Runs-call-Holding _ (later-Holding h1))
              (λ set w2 h2. Runs-if set.failed (λ e. Runs-exit) (λ e. Runs-pure _ h2))))

  pub Runs-setreuseaddr-Holding :
      (sock : ℕ) → Holding fds n w → Runs (setreuseaddr sock) w (λ u. Holding fds n)
  unfolding setreuseaddr
  Runs-setreuseaddr-Holding sock h =
      Runs-bind (Runs-call-Holding _ (later-Holding h))
        (λ set w1 h1. Runs-if set.failed (λ e. Runs-exit) (λ e. Runs-pure _ h1))

  pub Runs-running-Holding : Holding fds (suc n) w → Runs running w (λ u. Holding fds n)
  unfolding running
  Runs-running-Holding h = Runs-bind (Runs-call-Holding _ h) (λ a w1 h1. Runs-pure _ h1)

pub as-Holding :
    {fds fds' : List ℕ} {n : ℕ} {w : World} → fds ≡ fds' → Holding fds n w → Holding fds' n w
as-Holding e h = record { hands = h.hands ∙ e; left = h.left; fit = h.fit }

pub Runs-close-Holding :
    (fd : ℕ) {fds : List ℕ} {n : ℕ} {w : World}
    → Holding (own fd fds) n w
    → Runs (emit (close fd)) w (λ u. Holding fds n)
Runs-close-Holding fd h =
    Runs-weaken (Runs-emit-Holding (close fd) h) (λ u w1 h1. as-Holding (disown-own fd _) h1)
