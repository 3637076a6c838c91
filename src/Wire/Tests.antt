-- ===== src/Wire/Tests.antt =====
-- Each theorem about messages at a concrete one.
use aim_to_v.Base.{length, ◌+◌, ◌≡◌, refl, true, some, [], ◌∷◌, ◌++◌, drop, arith}
use aim_to_v.Wire.Bytes.{Bytes}
use aim_to_v.Wire.MsgList.{
  ClientMsgListAck, client_msg_list_ack_init, client_msg_list_ack_to_data,
  client_msg_list_ack_from_data, listed,
}
use aim_to_v.Wire.MsgListRestore.{listed_total, msg_list_restored}
use aim_to_v.Wire.MsgInfo.{MsgInfo, MsgInfoFits, msg_info_init, msg_info}
use aim_to_v.Wire.Package.{
  RecvMsgPkg, HeadFits, new_pkg, head_length, fill_head, make_pkg, make_pkg_received,
}

abbrev hello : MsgInfo
hello = record {
  send_guid = 9;
  recv_guid = 70;
  time_sec = 5;
  msg_length = 2;
  msg_num = 0;
  msg_type = 1;
  msg = b'h' ∷ b'i' ∷ [];
}

hello-Fits : MsgInfoFits hello
hello-Fits = record {
  send_guid = omega arith;
  recv_guid = omega arith;
  time_sec = omega arith;
  msg_length = omega arith;
  msg_num = omega arith;
  msg_type = omega arith;
  msg = refl;
}

abbrev head : RecvMsgPkg
head = record { pkg_sender_guid = 9; pkg_type = 90; sub_pkg_data_length = 21 }

head-Fits : HeadFits head
head-Fits = record {
  pkg_sender_guid = omega arith;
  pkg_type = omega arith;
  sub_pkg_data_length = omega arith;
}

make_pkg_received_example :
    let (h', n, bytes) = make_pkg msg_info 100 head hello in
    (n ≡ head_length + msg_info.total hello)
    × (h' ≡ record head { sub_pkg_data_length = msg_info.total hello })
    × (fill_head (some (bytes ++ 1 ∷ [])) n (new_pkg 0 0) ≡ (h', n))
    × (msg_info.from_data
          (some (drop head_length (bytes ++ 1 ∷ [])))
          h'.sub_pkg_data_length
          msg_info_init
        ≡ (hello, msg_info.total hello))
unfolding msg_info
make_pkg_received_example =
    make_pkg_received msg_info head (new_pkg 0 0) hello msg_info_init 100 (1 ∷ []) head-Fits
      hello-Fits (omega arith) (omega arith) (omega arith)

msg_list_restored_example :
    (a : ClientMsgListAck) × (bytes : Bytes) × (client_msg_list_ack_to_data true 100
        (listed (hello ∷ hello ∷ []))
      ≡ some (a, bytes))
    × (length bytes ≡ listed_total (hello ∷ hello ∷ []))
    × (let (b, index) =
          client_msg_list_ack_from_data (some (bytes ++ [])) 100 client_msg_list_ack_init in
        (b.msg_list ≡ hello ∷ hello ∷ []) × (index ≡ listed_total (hello ∷ hello ∷ [])))
msg_list_restored_example =
    msg_list_restored (hello ∷ hello ∷ []) 100 100 [] (hello-Fits, (hello-Fits, tt)) (omega arith)
      (omega arith) (omega arith)
