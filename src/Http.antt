-- ===== src/Http.antt =====
-- `main` of source/http_server.cpp, call by call: a server that answers every request in the same
-- way.
pub mod Reading
mod Tests
use aim_to_v.Base.{
  ℕ, zero, suc, ◌+◌, ◌-◌, Bool, true, false, not, ◌&&◌, ◌||◌, ltb, ◌==◌, if◌then◌else◌, List, [],
  ◌∷◌, length, drop,
}
use aim_to_v.Wire.Bytes.{Bytes}
use aim_to_v.Sys.{
  Event, Sys, pure, ◌>>=◌, ◌>>◌, call, emit, exit, exhausted, undefined_here, nonzero,
  setnonblocking, socket, bind, listen, epoll_create, epoll_add, epoll_mod, epoll_wait, accept,
  read_from, write_to, close,
}

abbrev pub bufsiz : ℕ
bufsiz = 8192

-- What `sprintf` puts into `buf`.
abbrev pub response : Bytes
response =
    72 ∷ 84 ∷ 84 ∷ 80 ∷ 47 ∷ 49 ∷ 46 ∷ 49 ∷ 32 ∷ 50 ∷ 48 ∷ 48 ∷ 32 ∷ 79 ∷ 75 ∷ 13 ∷ 10 ∷ 67 ∷ 111
    ∷ 110 ∷ 116 ∷ 101 ∷ 110 ∷ 116 ∷ 45 ∷ 76 ∷ 101 ∷ 110 ∷ 103 ∷ 116 ∷ 104 ∷ 58 ∷ 32 ∷ 49 ∷ 49 ∷ 13
    ∷ 10 ∷ 13 ∷ 10 ∷ 72 ∷ 101 ∷ 108 ∷ 108 ∷ 111 ∷ 32 ∷ 87 ∷ 111 ∷ 114 ∷ 108 ∷ 100 ∷ []

-- `while ((conn_sock = accept(...)) > 0)`
unfoldable pub accept_all : ℕ → ℕ → ℕ → Sys (Unit {0})
accept_all zero epfd listenfd = exhausted
accept_all (suc fuel) epfd listenfd = do
  conn ← call (accept listenfd)
  if conn.failed || conn.value == 0 then pure tt else (do
    setnonblocking conn.value
    added ← call (epoll_add epfd conn.value)
    if added.failed then exit else accept_all fuel epfd listenfd)

-- `while ((nread = read(fd, buf + n, BUFSIZ - 1)) > 0)`: each read may bring as much as the first,
-- wherever in the buffer it starts.
unfoldable pub read_all : ℕ → ℕ → ℕ → Sys (Unit {0})
read_all zero fd n = exhausted
read_all (suc fuel) fd n = do
  nread ← call (read_from fd (bufsiz - 1))
  if nread.failed || nread.value == 0
      then pure tt
      else (if ltb bufsiz (n + nread.value)
          then undefined_here
          else read_all fuel fd (n + nread.value))

-- `while (n > 0)`, with `n` bytes of the response left.
unfoldable pub write_all : ℕ → ℕ → ℕ → Sys (Unit {0})
write_all zero fd n = exhausted
write_all (suc fuel) fd n = if n == 0 then pure tt else (do
  nwrite ← call (write_to fd (drop (length response - n) response))
  if nwrite.failed || ltb nwrite.value n then pure tt else write_all fuel fd (n - nwrite.value))

unfoldable pub respond : ℕ → ℕ → Sys (Unit {0})
respond fuel fd = do write_all fuel fd (length response); emit (close fd)

-- `if (events[i].events & EPOLLIN)`
unfoldable pub take_request : ℕ → ℕ → ℕ → Sys (Unit {0})
take_request fuel epfd fd = do read_all fuel fd 0; emit (epoll_mod epfd fd)

unfoldable pub http_event : ℕ → ℕ → ℕ → Event → Sys (Unit {0})
http_event fuel epfd listenfd e = if e.fd == listenfd then accept_all fuel epfd listenfd else (do
  if e.epollin then take_request fuel epfd e.fd else pure tt
  if e.epollout then respond fuel e.fd else pure tt)

unfoldable pub http_events : ℕ → ℕ → ℕ → List Event → Sys (Unit {0})
http_events fuel epfd listenfd [] = pure tt
http_events fuel epfd listenfd (e ∷ es) =
    http_event fuel epfd listenfd e >> http_events fuel epfd listenfd es

-- `for (;;)`
unfoldable pub http_loop : ℕ → ℕ → ℕ → Sys (Unit {0})
http_loop zero epfd listenfd = exhausted
http_loop (suc fuel) epfd listenfd = do
  nfds ← call (epoll_wait epfd)
  if nfds.failed
      then exit
      else (do http_events fuel epfd listenfd nfds.events; http_loop fuel epfd listenfd)

abbrev pub http_port : ℕ
http_port = 8080

unfoldable pub http_main : ℕ → Sys (Unit {0})
http_main fuel = do
  s ← call socket
  if s.failed then exit else (do
    setnonblocking s.value
    bound ← call (bind s.value http_port)
    if bound.failed then exit else (do
      emit (listen s.value 20)
      ep ← call epoll_create
      if ep.failed then exit else (do
        added ← call (epoll_add ep.value s.value)
        if added.failed then exit else http_loop fuel ep.value s.value)))
