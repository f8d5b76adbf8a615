-- ===== src/Server.antt =====
-- class MyTcpServer: src/MyTcpServer/include/MyTcpServer.h and src/MyTcpServer/src/MyTcpServer.cpp. The
-- calls of the framework are recorded in the order in which they are made; the body of the loop of
-- handleClient always leaves it, and the loop of startAccpet is one call for each accepted socket.
pub mod Reader
pub mod Packets
pub mod Sessions
pub mod Delivery
pub mod Managers
pub mod Validity
use app_server.Base.{
  ℕ, zero, suc, ◌+◌, Bool, true, false, not, Option, none, some, List, [], ◌∷◌, ◌++◌, Bytes, ℤ, pos,
  negsuc, null, length, ◌≤◌, ◌≡◌, ◌==◌, if◌then◌else◌, Outcome, done, fault, ◌>>=◌,
}
use app_server.Packet.{ByteArray, decode}
use app_server.MysqlInteractor.{Connector}
use app_server.UserConnectionManager.{change_online}
use app_server.DataHandle.{Env, World, Task, send, watch_read, handle_data, schedule}

-- Calls of the framework: of a socket, of a stream over it, of SocketManager and of IoManager. `add_read`
-- and `add_write` are addEvent, with handleClient and with sendMessageToClient; `add_timer` is the
-- timer that runs `timer_expires`.
pub data Call : Type 0 where
  reset_timer close add_socket delete_socket add_timer add_read : ℕ → Call
  set_receive_timeout : ℕ → ℕ → Call
  write add_write : ℕ → Bytes → Call

-- `events`: the sockets with a READ event, which addEvent sets and which fires once.
pub record Server (C : Connector) : Type 0 where
  pub world : World C
  pub calls : List Call
  pub events : List ℕ

abbrev pub make : {C : Connector} → Call → Server C → Server C
make c s = record s { calls = s.calls ++ c ∷ [] }

-- addEvent for READ.
abbrev pub add_event : {C : Connector} → ℕ → Server C → Server C
add_event client s = record (make (add_read client) s) { events = client ∷ s.events }

-- `read` of SocketStream, for the largest number of bytes that is asked for: what it returns, and the
-- bytes that it puts into the array.
abbrev pub Read : Type 0
Read = ℕ → ℤ × Bytes

-- What the reader relies on: no more bytes than were asked for, and as many as the result says.
pub record IsRead (read : Read) : Type 0 where
  pub bounded : (capacity : ℕ) → length (read capacity).1 ≤ capacity
  pub counted :
      (capacity n : ℕ) → (read capacity).0 ≡ pos (suc n) → length (read capacity).1 ≡ suc n

-- A read of these bytes.
abbrev pub got : Bytes → ℤ × Bytes
got bytes = (pos (length bytes), bytes)

-- What handleClient does with the result of read and the bytes.
unfoldable pub handle_read :
    (E : Env) → ByteArray → ℕ → ℤ × Bytes → Server E.connector → Outcome (Server E.connector)
handle_read E ba client (pos zero, bytes) s = done (make (close client) s)
handle_read E ba client (negsuc n, bytes) s = done (make (close client) s)
handle_read E ba client (pos (suc n), bytes) s = do
  packet ← decode ba bytes
  w ← handle_data E packet client s.world
  done (record s { world = schedule (watch_read (some client)) w })

unfoldable pub handle_client :
    (E : Env) → ByteArray → ℕ → Read → Server E.connector → Outcome (Server E.connector)
unfolding handle_read
handle_client E ba client read s = handle_read E ba client (read 4096) (make (reset_timer client) s)

module _ {C : Connector} (get_socket : ℕ → ℕ) where
  -- `get_socket` is the descriptor that getSocket returns.
  unfoldable pub wathc_io_read : ℕ → Server C → Server C
  wathc_io_read client s = if get_socket client == 0 then s else add_event client s

  unfoldable pub watch_io_write : ℕ → Bytes → Server C → Server C
  watch_io_write client message s =
      if get_socket client == 0 then s else make (add_write client message) s

unfoldable pub send_message_to_client : {C : Connector} → ℕ → Bytes → Server C → Server C
send_message_to_client client message s = make (write client message) s

-- The body of the loop of startAccpet: what accept returned, and whether it is connected. A null pointer
-- is dereferenced.
unfoldable pub start_accpet : {C : Connector} → Option ℕ → Bool → Server C → Outcome (Server C)
start_accpet none connected s = fault null
start_accpet (some client) connected s =
    if connected
    then done (
        add_event client (
          make (set_receive_timeout client 120000)
            (make (add_timer client) (make (add_socket client) s))))
    else done s

-- The function that the timer of a socket runs.
unfoldable pub timer_expires : {C : Connector} → ℕ → Server C → Server C
unfolding change_online
timer_expires client s =
    let s' = make (delete_socket client) s in
    record s' { world = record s'.world { manager = change_online (some client) s.world.manager } }
