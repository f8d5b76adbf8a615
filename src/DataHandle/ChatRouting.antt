-- ===== src/DataHandle/ChatRouting.antt =====
-- What becomes of a chat message.
use app_server.Base.{ℕ, [], ◌≡◌, ◌<◌, ◌++◌, some, none, done, Bytes, Text, length, take, arith}
use app_server.Packet.{
  TcpPacket, ByteArray, IsByteArray, body_capacity, decode, serialize, reply, header,
}
use app_server.Packet.RoundTrip.{IsPacket, received, decode-serialize, serialize_lem}
use app_server.Json.{IsJsonLibrary}
use app_server.Message.{Message}
use app_server.Message.Chat
use app_server.Message.Chat.{Info, IsInfo}
use app_server.UserConnectionManager.{select_user}
use app_server.DataHandle.{Env, World, schedule, send, handle_chat_message}
use app_server.DataHandle.Delivery.{Delivers, Delivers-reply}
use app_server.DataHandle.Incoming.{Carries, cast_info-some}

-- The message object that the handler fills.
abbrev pub incoming : Env → Info → Message Info
incoming E i = record (Chat.new_message E.memory (E.stamp 0) [] [] []) { info = i }

module _ (E : Env) (packet : TcpPacket) (i : Info) where
  abbrev HasChat : Type 0
  HasChat = Carries E.json (Chat.info_from_json E.json) packet i

  pub cast-incoming :
      (h : HasChat)
      → Chat.cast_from_string E.json h.source (Chat.new_message E.memory (E.stamp 0) [] [] [])
        ≡ incoming E i
  unfolding Chat.cast_from_string
  cast-incoming h = cast_info-some E.json (Chat.info_from_json E.json) h.source _ i h.casts

  handle_online :
      (client receiver : ℕ) (w : World E.connector) (body : Text) (bytes : Bytes)
      → HasChat
      → select_user i.uid_receiver w.manager ≡ some receiver
      → E.json.dump (Chat.to_json E.json (incoming E i)) ≡ some body
      → reply E.memory.array 0x01 body ≡ done bytes
      → handle_chat_message E packet client w ≡ done (schedule (send (some receiver) bytes) w)
  unfolding handle_chat_message
  handle_online client receiver w body bytes h online dumps replies =
      ground (arith, h.reads, cast-incoming h)

  handle_offline :
      (client : ℕ) (w : World E.connector) (bytes : Bytes)
      → HasChat
      → select_user i.uid_receiver w.manager ≡ none
      → serialize packet ≡ done bytes
      → handle_chat_message E packet client w ≡ done (schedule (send (some client) bytes) w)
  unfolding handle_chat_message
  handle_offline client w bytes h offline serializes = ground (arith, h.reads, cast-incoming h)

-- A chat packet whose body carries a message, for a receiver with a registered socket, where the
-- text of the answer exists and is shorter than the array of a packet, schedules one message to
-- that socket and nothing else. A reader of its bytes, whatever follows them, finds a chat packet
-- from which any message object takes the content, names and ids that the sender gave.
pub chat_reaches_receiver :
    (E : Env) (ba : ByteArray) (packet : TcpPacket) (i : Info) (client receiver : ℕ)
    (w : World E.connector) (body : Text)
    → IsJsonLibrary E.json
    → IsByteArray ba
    → length E.memory.array ≡ body_capacity
    → Carries E.json (Chat.info_from_json E.json) packet i
    → IsInfo i
    → select_user i.uid_receiver w.manager ≡ some receiver
    → E.json.dump (Chat.to_json E.json (incoming E i)) ≡ some body
    → length body < body_capacity
    → (bytes : Bytes) × (handle_chat_message E packet client w
        ≡ done (schedule (send (some receiver) bytes) w))
      × Delivers ba bytes 0x01
          (λ text. (n : Message Info) → Chat.cast_from_string E.json text n ≡ record n { info = i })
chat_reaches_receiver E ba packet i client receiver w body json bytes hm h fits online dumps lt =
    let (out, replies, delivers) =
      Delivers-reply bytes
        (λ text. (n : Message Info) → Chat.cast_from_string E.json text n ≡ record n { info = i })
        E.memory.array 0x01 body (omega arith) hm (json.dump-pos _ body dumps) lt
        (λ n. Chat.cast_from_string-dump json (incoming E i) n body fits dumps) in
    (out, handle_online E packet i client receiver w body out h online dumps replies, delivers)

-- For a receiver without a registered socket, a chat packet that fits its C++ types goes back to
-- the socket that it came from: whoever reads it finds the fields and the body of the packet that
-- was sent.
pub chat_returns_to_sender :
    (E : Env) (ba : ByteArray) (packet : TcpPacket) (i : Info) (client : ℕ) (w : World E.connector)
    → IsByteArray ba
    → IsPacket packet
    → Carries E.json (Chat.info_from_json E.json) packet i
    → select_user i.uid_receiver w.manager ≡ none
    → (bytes : Bytes) × (handle_chat_message E packet client w
        ≡ done (schedule (send (some client) bytes) w))
      × ((rest : Bytes)
          → decode ba (bytes ++ rest) ≡ done (received packet (take packet.length packet.body)))
chat_returns_to_sender E ba packet i client w laws v h offline =
    let bytes = header packet ++ take packet.length packet.body in
    (
      bytes,
      handle_offline E packet i client w bytes h offline (serialize_lem packet v.fits),
      λ rest. decode-serialize laws packet rest v,
    )
