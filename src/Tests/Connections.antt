-- ===== src/Tests/Connections.antt =====
-- The server of sockets at concrete inputs.
use app_server.UserConnectionManager.Invariant.{IsValid}
use app_server.Base.{
  ℕ, ◌+◌, ◌≡◌, ◌⊎◌, refl, true, some, [], ◌∷◌, ◌++◌, Bytes, replicate, arith, done, fault, overflow,
  thrown, pos, length, take, length-take, length-append, take_of_le, ◌≤◌, length-replicate,
}
use app_server.Packet.{TcpPacket, le_bytes, header, decode}
use app_server.Packet.RoundTrip.{IsPacket, length-le_bytes, length-header}
use app_server.DataHandle.{handle_data}
use app_server.Server.{
  Server, make, reset_timer, close, add_socket, add_timer, add_read, set_receive_timeout, Read,
  IsRead, got, handle_read, start_accpet, handle_client, timer_expires,
}
use app_server.Server.Packets.{handle_client_short, handle_client_in_bounds}
use app_server.Server.Reader.{
  Loop, Reach, Step, accepts, fires, expires, here, next, readers, ended, accepted, start,
  Reach-accepted,
}
use app_server.Server.Validity.{Reach-IsValid}
use app_server.Tests.Streams.{sample_bytes, sample_bytes-IsByteArray}
use app_server.Tests.Tables.{sample_connector}
use app_server.Tests.Setting.{sample_env, sample_moment, sample_world}

abbrev pub fresh : Server sample_connector
fresh = record { world = sample_world; calls = []; events = [] }

-- A packet with a number that has no handler.
abbrev pub small : TcpPacket
small = record {
  length = 2;
  func_id = 0;
  version = 55;
  reserved = 66;
  body = 104 ∷ 105 ∷ replicate 4094 0;
}

pub small-IsPacket : IsPacket small
small-IsPacket = record {
  func_id = omega arith;
  version = omega arith;
  reserved = omega arith;
  body = omega (arith, length-replicate {A = ℕ} 4094 0);
  fits = omega arith;
}

pos_inj : {m n : ℕ} → pos m ≡ pos n → m ≡ n
pos_inj h = cc

-- A socket that has these bytes, and one whose other end was closed.
abbrev pub delivers : Bytes → Read
delivers bytes n = (pos (length (take n bytes)), take n bytes)

pub delivers-IsRead : (bytes : Bytes) → IsRead (delivers bytes)
delivers-IsRead bytes = record {
  bounded = λ n. omega (arith, length-take n bytes);
  counted = λ n m e. pos_inj e;
}

pub delivers-got : (bytes : Bytes) → length bytes ≤ 4096 → delivers bytes 4096 ≡ got bytes
delivers-got bytes le = rw (take_of_le 4096 bytes le) refl

abbrev at_end : Read
at_end n = (pos 0, [])

at_end-IsRead : IsRead at_end
at_end-IsRead = record { bounded = λ n. omega arith; counted = λ n m e. pos_inj e }

handle_client_short_example :
    handle_client sample_env sample_bytes 70 (delivers (le_bytes 4 100 ++ 1 ∷ 0 ∷ [])) fresh
    ≡ fault thrown
handle_client_short_example =
    handle_client_short sample_env sample_bytes-IsByteArray 70 fresh
      (delivers (le_bytes 4 100 ++ 1 ∷ 0 ∷ [])) 100 (1 ∷ 0 ∷ []) (omega arith) (omega arith)
      (delivers-got (le_bytes 4 100 ++ 1 ∷ 0 ∷ [])
        (omega (arith, length-append (le_bytes 4 100) (1 ∷ 0 ∷ []), length-le_bytes 4 100)))

-- A whole packet and what is behind it, where both fit the largest read.
pub delivers-packet :
    (p : TcpPacket) (rest : Bytes)
    → p.length + length rest ≤ 4088
    → (let bytes = header p ++ take p.length p.body ++ rest in delivers bytes 4096 ≡ got bytes)
delivers-packet p rest le =
    let value = take p.length p.body in
    delivers-got (header p ++ value ++ rest) (
      omega (
        arith,
        length-append (header p ++ value) rest,
        length-append (header p) value,
        length-header p,
        length-take p.length p.body,
      ))

-- A header alone, with a size that is larger than the array.
abbrev oversized : TcpPacket
oversized = record { length = 4097; func_id = 1; version = 55; reserved = 66; body = [] }

handle_client_in_bounds_example :
    ¬ (
      handle_client sample_env sample_bytes 70 (delivers (header oversized)) fresh ≡ fault overflow)
    ⊎ ((packet : TcpPacket) × (decode sample_bytes (delivers (header oversized) 4096).1
          ≡ done packet)
        × (handle_data sample_env packet 70 fresh.world ≡ fault overflow))
handle_client_in_bounds_example =
    handle_client_in_bounds sample_env sample_bytes-IsByteArray 70 fresh
      (delivers (header oversized)) (delivers-IsRead (header oversized))

-- The socket 90 connects, and disconnects.
abbrev pub connected_loop : Loop sample_env
connected_loop = record (start sample_env sample_bytes sample_world) {
  server = record (start sample_env sample_bytes sample_world).server {
    calls = add_socket 90 ∷ add_timer 90 ∷ set_receive_timeout 90 120000 ∷ add_read 90 ∷ [];
    events = 90 ∷ [];
  };
}

connects : Step sample_env sample_bytes (start sample_env sample_bytes sample_world) connected_loop
unfolding start_accpet
connects =
    accepts (start sample_env sample_bytes sample_world) (some 90) true connected_loop.server refl

abbrev pub closed_loop : Loop sample_env
closed_loop = record connected_loop {
  server = record (make (close 90) (make (reset_timer 90) connected_loop.server)) { events = [] };
}

pub disconnects : Step sample_env sample_bytes connected_loop closed_loop
unfolding handle_client handle_read
disconnects = fires sample_moment 90 at_end (record {
  before = [];
  after = [];
  reads = at_end-IsRead;
  event = refl;
  handles = refl;
  others = refl;
})

pub closed-Reach :
    Reach sample_env sample_bytes (start sample_env sample_bytes sample_world) closed_loop
closed-Reach = next (next here connects) disconnects

Reach-accepted_example :
    readers sample_env sample_bytes 90 closed_loop + ended sample_env sample_bytes 90 closed_loop
    ≡ accepted sample_env sample_bytes 90 closed_loop
Reach-accepted_example = Reach-accepted sample_env sample_bytes 90 sample_world closed-Reach

sample_world-IsValid : IsValid sample_world.manager
sample_world-IsValid = record {
  distinct = ((omega arith, tt), (tt, tt));
  online = (refl, (refl, tt));
}

-- The timer of the socket 70 expires after that.
abbrev pub expired_loop : Loop sample_env
expired_loop = record closed_loop { server = timer_expires 70 closed_loop.server }

Reach-IsValid_example : IsValid expired_loop.server.world.manager
Reach-IsValid_example =
    Reach-IsValid sample_env sample_bytes (next closed-Reach (expires closed_loop 70))
      sample_world-IsValid
