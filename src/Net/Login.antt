-- ===== src/Net/Login.antt =====
-- A login from the bytes of one read to the bindings of its connection.
use aim_to_v.Base.{
  ℕ, ◌+◌, ◌^◌, ◌<◌, ◌≡◌, refl, sym, ap, ◌∙◌, true, some, ◌++◌, length, append_assoc, drop,
  drop-append, arith,
}
use aim_to_v.Base.Map.{find, insert, find-insert}
use aim_to_v.Base.Outcome.{done}
use aim_to_v.Wire.Bytes.{Bytes}
use aim_to_v.Wire.Codec
use aim_to_v.Wire.Account.{AcountLogin, AcountLoginFits, acount_login, acount_login_init}
use aim_to_v.Wire.Package.{RecvMsgPkg, head_length, to_head, length-to_head}
use aim_to_v.User.{UserInfo}
use aim_to_v.Net.{NetInfo, max_buf_size, error_ok}
use aim_to_v.Net.Logins.{logged_in, bind_conn, on_acount_login}
use aim_to_v.Net.Sessions.{granted, bind_conn-maps}
use aim_to_v.Net.Accounts.{Host}
use aim_to_v.Net.Dispatch.{handle, parsed, parse_msg}
use aim_to_v.Net.Receive.{Input, filled, receive}
use aim_to_v.Net.Packets.{whole, receive_one, filled_at_start, length-whole}

abbrev pub login_head : ℕ → RecvMsgPkg
login_head sender = record { pkg_sender_guid = sender; pkg_type = 3; sub_pkg_data_length = 80 }

abbrev pub login_body : AcountLogin → Bytes
login_body login = Codec.to_data acount_login true 80 login

module _ (host : Host) (sender fd key : ℕ) (login : AcountLogin) (user : UserInfo) (n : NetInfo)
    (fits : AcountLoginFits login)
    (phone : find (host.hash login.phone) n.phone_hash_map ≡ some key)
    (known : find key n.users_map ≡ some user) (password : host.hash login.sha256 ≡ user.passwd)
    (own : user.user_guid ≡ key) where
  bound : NetInfo
  bound =
      bind_conn user.user_guid error_ok fd
        (record n { users_map = insert key (logged_in host.now user) n.users_map })

  login_handled :
      (rest : Bytes)
      → on_acount_login host.hash host.now (login_body login ++ rest) 80 fd n ≡ (bound, 80)
  unfolding bound
  login_handled rest =
      let read =
        Codec.from_data-to_data acount_login login acount_login_init 80 80 rest fits (omega arith)
          (omega arith) in
      granted host.hash host.now (login_body login ++ rest) 80 fd key user n
        (λ z. ground (arith, read, z)) (rw read phone) known (rw read password)
      ∙ ap (λ (r : AcountLogin × ℕ). (bound, r.1)) read

  login_parsed :
      (rest : Bytes)
      → parse_msg host
          (whole (login_head sender) (login_body login) ++ rest)
          fd
          (login_head sender)
          n
        ≡ some (bound, 90)
  unfolding parse_msg handle parsed find
  login_parsed rest =
      let body = login_body login in
      let behind : drop head_length (whole (login_head sender) body ++ rest) ≡ body ++ rest =
        ap (drop head_length)
          (append_assoc (to_head true max_buf_size (login_head sender)) body rest)
        ∙ drop-append head_length (to_head true max_buf_size (login_head sender)) (body ++ rest)
            (length-to_head (login_head sender) max_buf_size (omega arith)) in
      rw (behind, login_handled rest) refl

  -- A login with a phone of 16 and a password of 64 bytes, for a phone that leads to a user who
  -- is stored under the user's own guid and whose password is the hash of the text, framed and
  -- brought in whole by one read at the start of the buffer, ends with the connection and the
  -- user leading to each other, the user online with the time of the login, and the buffer
  -- empty.
  pub received_login :
      (input : Input)
      → sender < 2 ^ 32
      → input.buf_index ≡ 0
      → input.net ≡ n
      → (input' : Input) × (receive host fd (whole (login_head sender) (login_body login)) input
          ≡ done input')
        × (find fd input'.net.conn_user_map ≡ some key)
        × (find key input'.net.user_conn_map ≡ some fd)
        × (find key input'.net.users_map ≡ some (logged_in host.now user))
        × (input'.buf_index ≡ 0)
  unfolding bound
  received_login input small start here =
      let body = login_body login in
      let packet = whole (login_head sender) body in
      let size : length body ≡ 80 = Codec.length-to_data acount_login login 80 fits (omega arith) in
      let total : length packet ≡ 90 = omega (arith, length-whole (login_head sender) body, size) in
      let rest = drop (0 + length packet) input.buf in
      let parse : parse_msg host (filled packet input) fd (login_head sender) input.net
          ≡ some (bound, length packet) =
        ap (λ (m : NetInfo). parse_msg host (filled packet input) fd (login_head sender) m) here
        ∙ ap (λ (b : Bytes). parse_msg host b fd (login_head sender) n)
            (filled_at_start packet input start)
        ∙ login_parsed rest
        ∙ ap (λ (k : ℕ). some (bound, k)) (sym total) in
      let one =
        receive_one host fd (login_head sender) body input bound
          (record {
            pkg_sender_guid = omega arith;
            pkg_type = omega arith;
            sub_pkg_data_length = omega arith;
          })
          (sym size) (omega arith) (omega arith) start parse in
      let online : NetInfo = record n {
        users_map = insert key (logged_in host.now user) n.users_map;
      } in
      let maps = bind_conn-maps user.user_guid error_ok fd online in
      (
        one.0,
        one.1,
        rw (one.2, maps.0) (ground (arith, own, find-insert fd fd user.user_guid n.conn_user_map)),
        rw (one.2, maps.1) (ground (arith, own, find-insert key user.user_guid fd n.user_conn_map)),
        rw (one.2, maps.2)
            (ground (arith, find-insert key key (logged_in host.now user) n.users_map)),
        one.4,
      )
