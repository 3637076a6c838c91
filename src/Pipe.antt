-- ===== src/Pipe.antt =====
-- The messages on the pipe between the accepting and the reading thread: `pipemsg` of
-- include/struct_def.h, 14 bytes of which source/recv_thread.cpp writes and source/read_thread.cpp
-- reads.
use aim_to_v.Base.{ℕ, ◌^◌, ◌<◌, ◌≡◌, refl, [], ◌∷◌, length, length-append}
use aim_to_v.Wire.Bytes.{
  Bytes, Reader, at, ◌>>=◌, pure, get_num, le_bytes, written, get_num-le_bytes, length-le_bytes,
}

pub record PipeMsg : Type 0 where
  pub op : ℕ
  pub fd : ℕ
  pub ip : ℕ
  pub port : ℕ

-- `write(wfd, &msg, 14)`
unfoldable pub to_pipe : PipeMsg → Bytes
to_pipe m =
    written (le_bytes 4 m.op ∷ le_bytes 4 m.fd ∷ le_bytes 4 m.ip ∷ le_bytes 2 m.port ∷ []) []

-- `read(rfd, &msg, 14)`, where all of it has come.
unfoldable pub pipe_read : Reader PipeMsg
pipe_read = do
  op ← get_num 4
  fd ← get_num 4
  ip ← get_num 4
  port ← get_num 2
  pure (record { op = op; fd = fd; ip = ip; port = port })

unfoldable pub from_pipe : Bytes → PipeMsg
from_pipe bs = (pipe_read (at 0 bs)).0

-- The fields hold what their C++ types can.
pub record PipeFits (m : PipeMsg) : Type 0 where
  pub op : m.op < 256 ^ 4
  pub fd : m.fd < 256 ^ 4
  pub ip : m.ip < 256 ^ 4
  pub port : m.port < 256 ^ 2

pub from_pipe-to_pipe : (m : PipeMsg) → PipeFits m → from_pipe (to_pipe m) ≡ m
unfolding from_pipe to_pipe pipe_read
from_pipe-to_pipe m f =
    rw
      (
        get_num-le_bytes 4 m.op 0 _ f.op,
        get_num-le_bytes 4 m.fd 4 _ f.fd,
        get_num-le_bytes 4 m.ip 8 _ f.ip,
        get_num-le_bytes 2 m.port 12 _ f.port,
      )
      refl

pub length-to_pipe : (m : PipeMsg) → length (to_pipe m) ≡ 14
unfolding to_pipe
length-to_pipe m = simp (length-append, length-le_bytes)
