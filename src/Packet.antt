-- ===== src/Packet.antt =====
-- struct TcpPacket and the reader of a packet: src/Message/include/MessageBase.h
-- and the decoding part of MyTcpServer::handleClient (src/MyTcpServer/src/MyTcpServer.cpp).
pub mod RoundTrip
pub mod Replies
use app_server.Base.{
  ℕ, zero, suc, ◌+◌, ◌*◌, ◌/◌, ◌%◌, ◌^◌, ◌≤◌, ◌<◌, ◌≡◌, List, [], ◌∷◌, ◌++◌, Option, none, some,
  Bytes, Text, length, take, drop, replicate, ltb, if◌then◌else◌, Outcome, done, fault, Fault,
  overflow, thrown, or_fault, ◌>>=◌, ◌>>◌,
}

-- `char body[4096]`
abbrev pub body_capacity : ℕ
body_capacity = 4096

pub record TcpPacket : Type 0 where
  pub length : ℕ
  pub func_id : ℕ
  pub version : ℕ
  pub reserved : ℕ
  pub body : Bytes

-- memcpy(dst, src, n) inside an array: the first n bytes are replaced.
abbrev pub memcpy : Bytes → Bytes → ℕ → Bytes
memcpy dst src n = take n src ++ drop n dst

-- The constructor with arguments; `memory` is what the array `body` held before. The copy reads
-- the text and its terminating NUL byte, and writes into 4096 bytes.
unfoldable pub new_packet : Bytes → ℕ → ℕ → ℕ → ℕ → Text → Outcome TcpPacket
new_packet memory n func_id version reserved value =
    if ltb body_capacity n
    then fault overflow
    else if ltb (length value + 1) n
    then fault overflow
    else done (record {
      length = n;
      func_id = func_id;
      version = version;
      reserved = reserved;
      body = memcpy memory (value ++ 0 ∷ []) n;
    })

-- The default constructor leaves `body` as it is in memory.
unfoldable pub empty_packet : Bytes → TcpPacket
empty_packet memory = record { length = 0; func_id = 0; version = 0; reserved = 0; body = memory }

-- An unsigned integer of w bytes as it lies in memory, least significant byte first.
pub le_bytes : ℕ → ℕ → Bytes
le_bytes zero n = []
le_bytes (suc w) n = (n % 256) ∷ le_bytes w (n / 256)

pub of_le_bytes : Bytes → ℕ
of_le_bytes [] = 0
of_le_bytes (b ∷ bs) = b + 256 * of_le_bytes bs

-- The eight bytes before the body.
pub header : TcpPacket → Bytes
unfolding le_bytes
header p =
    le_bytes 4 p.length ++ le_bytes 2 p.func_id ++ le_bytes 1 p.version ++ le_bytes 1 p.reserved

-- serializeconstPacket and serializeconstPacketToString: the buffer has 8 + length bytes, counted
-- in uint32_t; the last copy reads `length` bytes of the array `body`.
unfoldable pub serialize : TcpPacket → Outcome Bytes
serialize p =
    let total = (8 + p.length) % 2 ^ 32 in
    if ltb total (8 + p.length)
    then fault overflow
    else if ltb body_capacity p.length
    then fault overflow
    else done (header p ++ take p.length p.body)

-- How the handlers answer: `TcpPacket packet_res(body.size(), f, 55, 66, body)`, whose size is
-- converted to uint32_t, and its bytes.
unfoldable pub answer : Bytes → ℕ → Text → Outcome TcpPacket
unfolding new_packet
answer memory f body = new_packet memory (length body % 2 ^ 32) f 55 66 body

unfoldable pub reply : Bytes → ℕ → Text → Outcome Bytes
unfolding answer
reply memory f body = do p ← answer memory f body; serialize p

-- The packet that `reply` builds for a body that fits.
pub reply_packet : Bytes → ℕ → Text → TcpPacket
reply_packet memory f body = record {
  length = length body;
  func_id = f;
  version = 55;
  reserved = 66;
  body = body ++ drop (length body) memory;
}

-- Zues::ByteArray, of the framework: reads at a position of the bytes that a stream delivered. `none`
-- is an exception.
pub record ByteArray : Type 0 where
  pub read_unsigned : ℕ → Bytes → ℕ → Option ℕ
  pub read : Bytes → ℕ → ℕ → Option Bytes

-- What the reader relies on: fixed integers in the order of memory, and a slice of the bytes.
pub record IsByteArray (ba : ByteArray) : Type 0 where
  pub read_unsigned-append :
      (front back : Bytes) (w n : ℕ)
      → n < 256 ^ w
      → ba.read_unsigned w (front ++ le_bytes w n ++ back) (length front) ≡ some n
  pub read-append :
      (front middle back : Bytes)
      → ba.read (front ++ middle ++ back) (length front) (length middle) ≡ some middle
  -- Reading past the end throws.
  pub read_past :
      (data' : Bytes) (position n : ℕ)
      → length data' < position + n
      → ba.read data' position n ≡ none

-- memset(&tcp_packet.body[0], 0, sizeof(tcp_packet.body))
unfoldable pub cleared : Bytes
cleared = replicate body_capacity 0

-- The fields of `tcp_packet`, read from the bytes of one read of the socket. The body was cleared
-- by memset before.
unfoldable pub decode : ByteArray → Bytes → Outcome TcpPacket
decode ba received = do
  size ← or_fault thrown (ba.read_unsigned 4 received 0)
  func_id ← or_fault thrown (ba.read_unsigned 2 received 4)
  version ← or_fault thrown (ba.read_unsigned 1 received 6)
  reserved ← or_fault thrown (ba.read_unsigned 1 received 7)
  value ← or_fault thrown (ba.read received 8 size)
  if ltb body_capacity size
      then fault overflow
      else done (record {
        length = size;
        func_id = func_id;
        version = version;
        reserved = reserved;
        body = memcpy cleared value size;
      })

-- `std::string(packet.body)`: the bytes before the first NUL. Without one, the array is overrun.
unfoldable pub c_string : Bytes → Outcome Text
c_string [] = fault overflow
c_string (zero ∷ bs) = done []
c_string (suc c ∷ bs) = do s ← c_string bs; done (suc c ∷ s)
