-- ===== src/Tests/Traffic.antt =====
-- Packets through the whole server at concrete inputs.
use app_server.Base.{
  ℕ, ◌≡◌, ◌∙◌, refl, ap, some, done, [], ◌∷◌, ◌++◌, Bytes, length, take, drop, take_all,
  take-append, arith,
}
use app_server.Packet.{header, cleared}
use app_server.Packet.RoundTrip.{IsPacket, received}
use app_server.Message.{Message, created_base, status_code, message_code, log_request}
use app_server.Message.Chat
use app_server.Message.LoginRequest
use app_server.Decimal.{to_string}
use app_server.UserConnectionManager.{find, select_user}
use app_server.UserConnectionManager.Routing.{routes}
use app_server.DataHandle.{watch_read, handle_data, schedule}
use app_server.DataHandle.Delivery.{Delivers}
use app_server.DataHandle.Dispatch.{handler, handle_data-message_code}
use app_server.DataHandle.Login.Accounts.{login_accepted}
use app_server.Server.{make, reset_timer}
use app_server.Server.Packets.{handle_client_first}
use app_server.Server.Reader.{Loop, Fires, here, next, expires, start}
use app_server.Server.Validity.{Reach-routes}
use app_server.Server.Delivery.{Answers, chat_is_written}
use app_server.Server.Sessions.{IsLogin, IsChat, chat_after_login}
use app_server.Tests.Streams.{sample_bytes, sample_bytes-IsByteArray}
use app_server.Tests.Values.{sample_json, sample_json-IsJsonLibrary, Tokens, shifted}
use app_server.Tests.Setting.{
  sample_env, sample_moment, sample_world, packet_of, packet_of-IsPacket, length-array,
}
use app_server.Tests.Logins.{
  right, right_packet, right-Carries, quiet, read_ann, after_login, ann_logs_in, ann_found,
}
use app_server.Tests.Chats.{hello, hello-IsInfo, hello_body, hello_packet, hello-Carries}
use app_server.Tests.Connections.{
  expired_loop, closed_loop, closed-Reach, delivers, delivers-IsRead, delivers-packet,
}

Reach-routes_example : routes expired_loop.server.world.manager 7 ≡ some (some 70)
unfolding routes find
Reach-routes_example =
    Reach-routes sample_env sample_bytes 7 (some 70) (next closed-Reach (expires closed_loop 70))
      refl

-- A packet that was read is the packet that was sent.
received-packet_of :
    (f : ℕ) (j : Tokens) → let p = packet_of f j in received p (take p.length p.body) ≡ p
received-packet_of f j =
    let n = length (shifted j) in
    let value : take n (take n (shifted j) ++ drop n cleared) ≡ shifted j =
      rw (take_all (shifted j)) (take-append (shifted j) (drop n cleared)) in
    ap (received (packet_of f j)) value

-- Bob's socket is watched.
abbrev watched : Loop sample_env
watched = record (start sample_env sample_bytes sample_world) {
  server = record (start sample_env sample_bytes sample_world).server { events = 80 ∷ [] };
}

-- The message, and the beginning of the next packet.
abbrev hello_bytes : Bytes
hello_bytes = header hello_packet ++ take hello_packet.length hello_packet.body ++ 7 ∷ 0 ∷ []

chat_is_written_example :
    (bytes : Bytes) × Answers sample_env sample_bytes sample_moment 80
      (delivers hello_bytes)
      70
      bytes
      watched
    × Delivers sample_bytes bytes 0x01 (λ text.
      (o : Message Chat.Info)
      → Chat.cast_from_string sample_json text o ≡ record o { info = hello })
unfolding select_user find Chat.to_json Chat.new_message created_base status_code to_string
    message_code Chat.info_to_json
chat_is_written_example =
    chat_is_written sample_env sample_bytes watched sample_moment [] [] 80 70 hello_packet
      (7 ∷ 0 ∷ []) (delivers hello_bytes) hello hello_body sample_json-IsJsonLibrary
      sample_bytes-IsByteArray length-array refl (delivers-IsRead hello_bytes)
      (delivers-packet hello_packet (7 ∷ 0 ∷ []) (omega arith))
      (packet_of-IsPacket 0x01 (Chat.info_to_json sample_json hello) (omega arith) (omega arith))
      refl (rw (received-packet_of 0x01 (Chat.info_to_json sample_json hello)) hello-Carries)
      hello-IsInfo refl refl (omega arith)

-- Ann logs in by the socket 90, and Bob, who is not registered, writes to her by 80.
abbrev both_watched : Loop sample_env
both_watched = record (start sample_env sample_bytes quiet) {
  server = record (start sample_env sample_bytes quiet).server { events = 90 ∷ 80 ∷ [] };
}

right_packet-IsPacket : IsPacket right_packet
unfolding LoginRequest.info_to_json
right_packet-IsPacket =
    packet_of-IsPacket 0x02 (LoginRequest.info_to_json sample_json right) (omega arith)
      (omega arith)

ann_comes : IsLogin sample_env sample_moment right_packet read_ann quiet
unfolding message_code
ann_comes = record {
  packet = right_packet-IsPacket;
  func_id = refl;
  info = right;
  says = rw (received-packet_of 0x02 (LoginRequest.info_to_json sample_json right)) right-Carries;
  found = ann_found;
  password = refl;
}

hello_comes : IsChat sample_env sample_moment hello_packet hello hello_body
unfolding message_code Chat.to_json Chat.new_message created_base status_code to_string
    Chat.info_to_json
hello_comes = record {
  packet =
      packet_of-IsPacket 0x01 (Chat.info_to_json sample_json hello) (omega arith) (omega arith);
  func_id = refl;
  says = rw (received-packet_of 0x01 (Chat.info_to_json sample_json hello)) hello-Carries;
  fits = hello-IsInfo;
  array = length-array;
  dumps = refl;
  short = omega arith;
}

abbrev login_bytes : Bytes
login_bytes = header right_packet ++ take right_packet.length right_packet.body ++ []

-- The server when Ann's login was handled.
abbrev served : Loop sample_env
served = record both_watched {
  server = record (make (reset_timer 90) both_watched.server) {
    world = schedule (watch_read (some 90)) after_login;
    events = 80 ∷ [];
  };
}

ann_is_handled : handle_data sample_env right_packet 90 quiet ≡ done after_login
unfolding handler message_code
ann_is_handled =
    handle_data-message_code sample_env log_request right_packet 90 quiet refl
    ∙ login_accepted sample_env right_packet right right-Carries 90 quiet read_ann ann_found refl
    ∙ ann_logs_in

ann_is_served :
    Fires sample_env sample_bytes sample_moment 90 (delivers login_bytes) both_watched served
unfolding LoginRequest.info_to_json
ann_is_served = record {
  before = [];
  after = 80 ∷ [];
  reads = delivers-IsRead login_bytes;
  event = refl;
  handles =
      handle_client_first sample_env sample_bytes-IsByteArray 90
        (record both_watched.server { events = 80 ∷ [] }) (delivers login_bytes) right_packet []
        right_packet-IsPacket (delivers-packet right_packet [] (omega arith))
      ∙ rw (received-packet_of 0x02 (LoginRequest.info_to_json sample_json right), ann_is_handled)
          refl;
  others = refl;
}

chat_after_login_example :
    (bytes : Bytes) × Answers sample_env sample_bytes sample_moment 80
      (delivers hello_bytes)
      90
      bytes
      served
    × Delivers sample_bytes bytes 0x01 (λ text.
      (x : Message Chat.Info)
      → Chat.cast_from_string sample_json text x ≡ record x { info = hello })
unfolding routes find LoginRequest.info_to_json Chat.info_to_json
chat_after_login_example =
    chat_after_login sample_env sample_bytes-IsByteArray both_watched served served sample_moment
      sample_moment [] [] 90 80 right_packet hello_packet [] (7 ∷ 0 ∷ []) (delivers login_bytes)
      (delivers hello_bytes) read_ann hello hello_body sample_json-IsJsonLibrary ann_comes
      (delivers-packet right_packet [] (omega arith)) refl ann_is_served here refl
      (delivers-IsRead hello_bytes) (delivers-packet hello_packet (7 ∷ 0 ∷ []) (omega arith))
      hello_comes refl
