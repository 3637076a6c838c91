-- ===== src/Accept.antt =====
-- The accepting thread of source/recv_thread.cpp, call by call.
pub mod Descriptors
pub mod Closes
pub mod Thread
mod Tests
use aim_to_v.Base.{
  ℕ, zero, suc, Bool, true, false, not, ◌&&◌, ◌||◌, ◌==◌, if◌then◌else◌, List, [], ◌∷◌, Option,
  none, some,
}
use aim_to_v.Pipe.{PipeMsg, to_pipe}
use aim_to_v.Sys.{
  Event, Sys, pure, ◌>>=◌, ◌>>◌, call, emit, exit, running, nonzero, setnonblocking, setreuseaddr,
  exhausted, epoll_create, socket, epoll_add, epoll_del, bind, listen, epoll_wait, accept,
  write_pipe, close,
}

abbrev pub listen_port : ℕ
listen_port = 12309

abbrev pub backlog_size : ℕ
backlog_size = 5

abbrev pub eagain : ℕ
eagain = 11

abbrev pub eintr : ℕ
eintr = 4

-- The part from `socket` to `listen`: the descriptor that listens, or nothing when the thread has
-- returned.
unfoldable pub open_listener : ℕ → Sys (Option ℕ)
open_listener epfd = do
  s ← call socket
  let listenfd = s.value in
      if s.failed then emit (close epfd) >> pure none else (do
        setnonblocking listenfd
        setreuseaddr listenfd
        added ← call (epoll_add epfd listenfd)
        if nonzero added then emit (close listenfd) >> emit (close epfd) >> pure none else (do
          emit (bind listenfd listen_port)
          listening ← call (listen listenfd backlog_size)
          if nonzero listening
              then emit (close listenfd) >> emit (close epfd) >> pure none
              else pure (some listenfd)))

-- The same again after the descriptor has failed.
unfoldable pub reopen_listener : ℕ → ℕ → Sys (Option ℕ)
reopen_listener epfd listenfd = do
  emit (close listenfd)
  emit (epoll_del epfd listenfd)
  open_listener epfd

-- How one pass of the accepting loop ends.
pub data Next : Type 0 where
  again : ℕ → Next
  drained : ℕ → Next
  stopped : Next

abbrev pub next_of : Option ℕ → Next
next_of none = stopped
next_of (some listenfd) = again listenfd

abbrev pub message : ℕ → ℕ → ℕ → PipeMsg
message connfd ip port = record { op = 1; fd = connfd; ip = ip; port = port }

-- The write to the pipe; a connection that does not get into it is closed.
unfoldable pub announce : ℕ → ℕ → ℕ → ℕ → Sys (Unit {0})
announce wfd connfd ip port = do
  ret ← call (write_pipe wfd (to_pipe (message connfd ip port)))
  if not ret.failed && ret.value == 14 then pure tt else emit (close connfd)

unfoldable pub accept_one : ℕ → ℕ → ℕ → Sys Next
accept_one wfd epfd listenfd = do
  conn ← call (accept listenfd)
  if not conn.failed && not (conn.value == 0)
      then announce wfd conn.value conn.ip conn.port >> pure (again listenfd)
      else if conn.errno == eagain
      then pure (drained listenfd)
      else if conn.errno == eintr
      then pure (again listenfd)
      else (do opened ← reopen_listener epfd listenfd; pure (next_of opened))

module _ (wfd epfd : ℕ) where
  -- `do { ... } while (comm->running)`
  unfoldable pub accept_all : ℕ → ℕ → Sys (Option ℕ)
  accept_all zero listenfd = exhausted
  accept_all (suc fuel) listenfd = do
    next ← accept_one wfd epfd listenfd
    elim next [
      | stopped ↦ pure none
      | drained l ↦ pure (some l)
      | again l ↦ (do go ← running; if go then accept_all fuel l else pure (some l))
    ]

  unfoldable pub handle_event : ℕ → Event → ℕ → Sys (Option ℕ)
  handle_event fuel e listenfd =
      if e.fd == listenfd
      then (if e.epollin
          then accept_all fuel listenfd
          else if e.epollerr || e.epollhup
          then reopen_listener epfd listenfd
          else pure (some listenfd))
      else pure (some listenfd)

  -- `for (i = 0; i < nfds && comm->running; ++i)`
  unfoldable pub handle_events : ℕ → List Event → ℕ → Sys (Option ℕ)
  handle_events fuel [] listenfd = pure (some listenfd)
  handle_events fuel (e ∷ es) listenfd = do
    go ← running
    if go
        then (do
          next ← handle_event fuel e listenfd
          elim next [ none ↦ pure none | some l ↦ handle_events fuel es l ])
        else pure (some listenfd)

  -- `while (comm->running)`
  unfoldable pub serve : ℕ → ℕ → Sys (Option ℕ)
  serve zero listenfd = exhausted
  serve (suc fuel) listenfd = do
    go ← running
    if go
        then (do
          nfds ← call (epoll_wait epfd)
          next ← handle_events fuel (if nfds.failed then [] else nfds.events) listenfd
          elim next [ none ↦ pure none | some l ↦ serve fuel l ])
        else pure (some listenfd)

-- `if (fd > 0) { close(fd); }`
unfoldable pub close_positive : ℕ → Sys (Unit {0})
close_positive fd = if fd == 0 then pure tt else emit (close fd)

-- What follows the loop; without a descriptor the thread has returned before.
unfoldable pub leave : ℕ → Option ℕ → Sys (Unit {0})
leave epfd none = pure tt
leave epfd (some listenfd) = close_positive listenfd >> close_positive epfd

-- `arg` is the write end of the pipe in `comm->conn_info`, or null.
unfoldable pub accept_thread : ℕ → Option ℕ → Sys (Unit {0})
accept_thread fuel none = pure tt
accept_thread fuel (some wfd) = do
  ep ← call epoll_create
  if ep.failed then pure tt else (do
    opened ← open_listener ep.value
    elim opened [
      | none ↦ pure tt
      | some listenfd ↦ (do left ← serve wfd ep.value fuel listenfd; leave ep.value left)
    ])
