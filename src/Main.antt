-- ===== src/Main.antt =====
-- `main` of source/main.cpp from the pipe on: two threads that share a pipe and the flag
-- `comm.running`.
pub mod Steady
pub mod Orderly
pub mod Init
mod Tests
use aim_to_v.Base.{ℕ, zero, suc, Bool, true, false, if◌then◌else◌, ◌==◌}
use aim_to_v.Sys.{
  Sys, pure, ◌>>=◌, ◌>>◌, call, emit, running, nonzero, setnonblocking, exhausted, pipe, close,
  create_thread, join_thread, set_running, sleep,
}

abbrev pub accept_thread_id : ℕ
accept_thread_id = 0

abbrev pub read_thread_id : ℕ
read_thread_id = 1

abbrev pub sigquit : ℕ
sigquit = 3

-- `sig_pro`
unfoldable pub sig_pro : ℕ → Sys (Unit {0})
sig_pro signum = if signum == sigquit then emit (set_running false) else pure tt

-- `while (comm.running) { sleep(1); }`
unfoldable pub main_loop : ℕ → Sys (Unit {0})
main_loop zero = exhausted
main_loop (suc fuel) = do go ← running; if go then emit sleep >> main_loop fuel else pure tt

unfoldable pub close_pipe : ℕ → ℕ → Sys (Unit {0})
close_pipe rfd wfd = emit (close rfd) >> emit (close wfd)

-- With the pipe made, from the first thread on.
unfoldable pub run_threads : ℕ → ℕ → ℕ → Sys (Unit {0})
run_threads fuel rfd wfd = do
  accepting ← call (create_thread accept_thread_id)
  if nonzero accepting then emit (set_running false) >> close_pipe rfd wfd else (do
    reading ← call (create_thread read_thread_id)
    if nonzero reading
        then (do emit (set_running false); emit (join_thread accept_thread_id); close_pipe rfd wfd)
        else (do
          main_loop fuel
          emit (join_thread accept_thread_id)
          emit (join_thread read_thread_id)
          close_pipe rfd wfd))

unfoldable pub main : ℕ → Sys (Unit {0})
main fuel = do
  emit (set_running true)
  fd ← call pipe
  if fd.failed
      then emit (set_running false)
      else (do setnonblocking fd.value; run_threads fuel fd.value fd.value2)
