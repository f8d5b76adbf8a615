-- ===== src/Server/Delivery.antt =====
-- From the bytes of a chat packet on one socket to the bytes of the answer on another.
use mathlib.Core.List.{append_assoc}
use app_server.Base.{
  ℕ, ◌≡◌, ◌<◌, refl, ◌∙◌, some, List, [], ◌∷◌, ◌++◌, done, Bytes, Text, length, take,
}
use app_server.Packet.{TcpPacket, ByteArray, IsByteArray, body_capacity, header}
use app_server.Packet.RoundTrip.{IsPacket, received}
use app_server.Json.{IsJsonLibrary}
use app_server.Message.{Message, message_code, chat}
use app_server.Message.Chat
use app_server.UserConnectionManager.{select_user}
use app_server.DataHandle.{Env, Moment, met, schedule, send, watch_read}
use app_server.DataHandle.Delivery.{Delivers}
use app_server.DataHandle.Incoming.{Carries}
use app_server.DataHandle.Dispatch.{handler, handle_data-message_code}
use app_server.DataHandle.ChatRouting.{incoming, chat_reaches_receiver}
use app_server.Server.{
  Server, make, reset_timer, write, Read, IsRead, got, handle_client, send_message_to_client,
}
use app_server.Server.Packets.{handle_client_first}
use app_server.Server.Reader.{Loop, Fires, Sends, with_tasks, with_events}

module _ (E : Env) (ba : ByteArray) where
  -- Two steps of the server: what this read of the socket gives is handled, and then the bytes are written to
  -- the other socket. The task to watch the first socket again waits, and the connections stay.
  abbrev pub Answers : Moment → (c : ℕ) → Read → (r : ℕ) → Bytes → Loop E → Type 0
  Answers k c read r bytes l =
      (h : Loop E) × (m : Loop E) × Fires E ba k c read l h
      × Sends E ba r bytes h m
      × (m.server.calls ≡ l.server.calls ++ reset_timer c ∷ write r bytes ∷ [])
      × (m.server.world.scheduled ≡ l.server.world.scheduled ++ watch_read (some c) ∷ [])
      × (m.server.world.manager ≡ l.server.world.manager)

  answered :
      (l : Loop E) (k : Moment) (before after : List ℕ) (c r : ℕ) (read : Read) (out : Bytes)
      → IsRead read
      → l.server.events ≡ before ++ c ∷ after
      → (let s = with_events E ba (before ++ after) l.server in
          handle_client (met E k) ba c read s
          ≡ done (record (make (reset_timer c) s) {
            world = schedule (watch_read (some c)) (schedule (send (some r) out) s.world);
          }))
      → Answers k c read r out l
  unfolding send_message_to_client
  answered l k before after c r read out reads e handles =
      let tasks = l.server.world.scheduled in
      let s : Server E.connector =
        record (make (reset_timer c) (with_events E ba (before ++ after) l.server)) {
          world = schedule (watch_read (some c)) (schedule (send (some r) out) l.server.world);
        } in
      let rest = watch_read (some c) ∷ [] in
      (
        record l { server = s },
        record l { server = send_message_to_client r out (with_tasks E ba (tasks ++ rest) s) },
        record {
          before = before;
          after = after;
          reads = reads;
          event = e;
          handles = handles;
          others = refl;
        },
        record {
          before = tasks;
          after = rest;
          waits = append_assoc tasks (send (some r) out ∷ []) rest;
          becomes = refl;
        },
        append_assoc l.server.calls (reset_timer c ∷ []) (write r out ∷ []),
        refl,
        refl,
      )

  -- When a read of a socket that is watched gives a whole chat packet that fits its C++ types, and
  -- any bytes behind it, for a user with a registered socket, where the text of the answer exists
  -- and is shorter than the array of a packet: the event of the socket with this read is handled to
  -- its end, and the task that it schedules writes bytes to the registered socket, from which a
  -- reader, whatever follows them, takes the content, names and ids that the sender gave. The task
  -- to watch the sender's socket again waits, and the connections stay.
  pub chat_is_written :
      (l : Loop E) (k : Moment) (before after : List ℕ) (c r : ℕ) (p : TcpPacket) (rest : Bytes)
      (read : Read) (i : Chat.Info) (body : Text)
      → IsJsonLibrary E.json
      → IsByteArray ba
      → length k.memory.array ≡ body_capacity
      → l.server.events ≡ before ++ c ∷ after
      → IsRead read
      → read 4096 ≡ got (header p ++ take p.length p.body ++ rest)
      → IsPacket p
      → p.func_id ≡ message_code chat
      → Carries E.json (Chat.info_from_json E.json) (received p (take p.length p.body)) i
      → Chat.IsInfo i
      → select_user i.uid_receiver l.server.world.manager ≡ some r
      → E.json.dump (Chat.to_json E.json (incoming (met E k) i)) ≡ some body
      → length body < body_capacity
      → (bytes : Bytes) × Answers k c read r bytes l
        × Delivers ba bytes 0x01 (λ text.
          (o : Message Chat.Info) → Chat.cast_from_string E.json text o ≡ record o { info = i })
  unfolding handler
  chat_is_written l k before after c r p rest read i body json laws hm e reads h v f says fits
        online dumps lt =
      let q = received p (take p.length p.body) in
      let (out, handles, delivers) =
        chat_reaches_receiver (met E k) ba q i c r l.server.world body json laws hm says fits online
          dumps lt in
      let all = handle_data-message_code (met E k) chat q c l.server.world f ∙ handles in
      let s = with_events E ba (before ++ after) l.server in
      let first = handle_client_first (met E k) laws c s read p rest v h ∙ rw all refl in
      (out, answered l k before after c r read out reads e first, delivers)
