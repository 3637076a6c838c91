-- ===== src/Sys.antt =====
-- System calls as source/recv_thread.cpp and source/main.cpp make them. What the system answers is
-- given from outside, one answer after the other, and each call is recorded in a trace.
pub mod Hoare
use aim_to_v.Base.{ℕ, Bool, true, false, not, ◌||◌, ◌==◌, if◌then◌else◌, List, [], ◌∷◌}
use aim_to_v.Wire.Bytes.{Bytes}

-- An event of `epoll_wait`.
pub record Event : Type 0 where
  pub fd : ℕ
  pub epollin : Bool
  pub epollout : Bool
  pub epollerr : Bool
  pub epollhup : Bool

-- The result of a call, negative or not, `errno`, and what the call filled in: an address, the two
-- ends of a pipe behind `value` and `value2`, the events.
pub record Answer : Type 0 where
  pub failed : Bool
  pub value : ℕ
  pub value2 : ℕ
  pub errno : ℕ
  pub ip : ℕ
  pub port : ℕ
  pub events : List Event

pub data Call : Type 0 where
  epoll_create socket pipe : Call
  fcntl_get fcntl_set set_reuse : ℕ → Call
  epoll_add epoll_del epoll_mod : ℕ → ℕ → Call
  bind listen : ℕ → ℕ → Call
  epoll_wait : ℕ → Call
  accept : ℕ → Call
  write_pipe write_to : ℕ → Bytes → Call
  read_from : ℕ → ℕ → Call
  is_running sleep : Call
  set_running : Bool → Call
  close : ℕ → Call
  create_thread join_thread : ℕ → Call

pub record World : Type 0 where
  pub answers : List Answer
  pub trace : List (Call × Answer)

-- How a piece of code ends: it returns, it ends the process, it waits for the system, the bound on its
-- loops is used up, or its behaviour is undefined.
pub data End {ℓ} (A : Type ℓ) : Type ℓ where
  returned : A → End A
  exited : End A
  waiting : End A
  out_of_fuel : End A
  undefined : End A

abbrev pub Sys {ℓ} : Type ℓ → Type ℓ
Sys A = World → End A × World

unfoldable pub pure {ℓ} : {A : Type ℓ} → A → Sys A
pure a w = (returned a, w)

infixl 5 ◌>>=◌ ◌>>◌
unfoldable pub ◌>>=◌ {ℓ κ} : {A : Type ℓ} {B : Type κ} → Sys A → (A → Sys B) → Sys B
◌>>=◌ m f w =
    let (r, w') = m w in
    elim r [
      | returned a ↦ f a w'
      | exited ↦ (exited, w')
      | waiting ↦ (waiting, w')
      | out_of_fuel ↦ (out_of_fuel, w')
      | undefined ↦ (undefined, w')
    ]

abbrev pub ◌>>◌ {ℓ} : {B : Type ℓ} → Sys (Unit {0}) → Sys B → Sys B
m >> k = m >>= λ _. k

-- A call whose answer the code looks at.
unfoldable pub call : Call → Sys Answer
call c w = elim w.answers [
  | [] ↦ (waiting, w)
  | a ∷ rest ↦ (returned a, record { answers = rest; trace = (c, a) ∷ w.trace })
]

abbrev pub nothing : Answer
nothing = record { failed = false; value = 0; value2 = 0; errno = 0; ip = 0; port = 0; events = [] }

-- A call whose result the code ignores.
unfoldable pub emit : Call → Sys (Unit {0})
emit c w = (returned tt, record w { trace = (c, nothing) ∷ w.trace })

unfoldable pub exit : Sys (Unit {0})
exit w = (exited, w)

-- `comm->running`
unfoldable pub running : Sys Bool
running = do a ← call is_running; pure (not (a.value == 0))

-- The bound on a loop is used up.
unfoldable pub exhausted {ℓ} : {A : Type ℓ} → Sys A
exhausted w = (out_of_fuel, w)

unfoldable pub undefined_here {ℓ} : {A : Type ℓ} → Sys A
undefined_here w = (undefined, w)

-- `ret != 0`
abbrev pub nonzero : Answer → Bool
nonzero a = a.failed || not (a.value == 0)

-- `common::setnonblocking`
unfoldable pub setnonblocking : ℕ → Sys (Unit {0})
setnonblocking sock = do
  opts ← call (fcntl_get sock)
  if opts.failed
      then exit
      else (do set ← call (fcntl_set sock); if set.failed then exit else pure tt)

-- `common::setreuseaddr`
unfoldable pub setreuseaddr : ℕ → Sys (Unit {0})
setreuseaddr sock = do set ← call (set_reuse sock); if set.failed then exit else pure tt
