-- ===== src/Server/Packets.antt =====
-- What one read of a socket makes of the packets in it.
use app_server.Base.{
  ℕ, suc, ◌+◌, ◌≡◌, ◌<◌, ◌≤◌, ◌^◌, refl, ◌∙◌, Option, none, some, overflow, [], ◌++◌, Bytes, ℤ, pos,
  negsuc, zero, Outcome, Fault, done, fault, null, thrown, ◌⊎◌, arith, length, length-append, take,
  or_fault, Bool, false, ltb, if◌then◌else◌, inl, inr, Bool-cases, ◌>>=◌,
}
use app_server.Packet.{TcpPacket, ByteArray, IsByteArray, body_capacity, decode, header, le_bytes}
use app_server.Packet.RoundTrip.{
  IsPacket, decode-serialize, received, length-le_bytes, length-header,
}
use app_server.DataHandle.{Env, schedule, watch_read, handle_data}
use app_server.Server.{Server, make, reset_timer, Read, IsRead, got, handle_read, handle_client}

-- A chain that overflows does so at a later step, where the library threw nothing.
or_fault-overflow :
    {A B : Type 0} (o : Option A) (f : A → Outcome B)
    → (or_fault thrown o >>= f) ≡ fault overflow
    → (a : A) × (o ≡ some a) × (f a ≡ fault overflow)
or_fault-overflow none f h = cc
or_fault-overflow (some a) f h = (a, refl, h)

>>=-eq-fault :
    {A B : Type 0} (e : Fault) (o : Outcome A) (f : A → Outcome B)
    → ¬ (o ≡ fault e)
    → (o >>= f) ≡ fault e
    → (a : A) × (o ≡ done a) × (f a ≡ fault e)
>>=-eq-fault e (done a) f ne h = (a, refl, h)
>>=-eq-fault e (fault d) f ne h = absurd (ne (cc h))

not-tested_overflow :
    {A : Type 0} (test : Bool) (a : A)
    → test ≡ false
    → ¬ ((if test then fault overflow else done a) ≡ fault overflow)
not-tested_overflow test a e h = ground arith

got_some : (bytes : Bytes) (n : ℕ) → length bytes ≡ suc n → got bytes ≡ (pos (suc n), bytes)
got_some bytes n h = rw h refl

length-le_bytes_append :
    (n : ℕ) (rest : Bytes) → length (le_bytes 4 n ++ rest) ≡ suc (3 + length rest)
length-le_bytes_append n rest =
    omega (arith, length-append (le_bytes 4 n) rest, length-le_bytes 4 n)

length-header_append :
    (p : TcpPacket) (value rest : Bytes)
    → length (header p ++ value ++ rest) ≡ suc (7 + length value + length rest)
length-header_append p value rest =
    omega (
      arith,
      length-append (header p ++ value) rest,
      length-append (header p) value,
      length-header p,
    )

overflow-cases : {A : Type 0} (o : Outcome A) → (o ≡ fault overflow) ⊎ ¬ (o ≡ fault overflow)
overflow-cases (done a) = inr (λ h. cc)
overflow-cases (fault overflow) = inl refl
overflow-cases (fault null) = inr (λ h. cc)
overflow-cases (fault thrown) = inr (λ h. cc)

overflow_of :
    {A B : Type 0} (o : Outcome A) (f : A → B)
    → (o >>= λ a. done (f a)) ≡ fault overflow
    → o ≡ fault overflow
overflow_of (done a) f h = cc
overflow_of (fault e) f h = cc

module _ (E : Env) {ba : ByteArray} (laws : IsByteArray ba) (client : ℕ) (s : Server E.connector)
    (read : Read) where
  -- Of a read that delivered a whole packet that fits its C++ types, and any bytes behind it, that
  -- packet is handled and the socket is watched again, whatever the bytes behind it are.
  pub handle_client_first :
      (p : TcpPacket) (rest : Bytes)
      → IsPacket p
      → read 4096 ≡ got (header p ++ take p.length p.body ++ rest)
      → handle_client E ba client read s ≡ (
          handle_data E (received p (take p.length p.body)) client s.world >>= λ w.
          done (record (make (reset_timer client) s) {
            world = schedule (watch_read (some client)) w;
          }))
  unfolding handle_client handle_read
  handle_client_first p rest v h =
      let bytes = header p ++ take p.length p.body ++ rest in
      let h' = h ∙ got_some bytes _ (length-header_append p (take p.length p.body) rest) in
      rw (h', decode-serialize laws p rest v) refl

  decode_short :
      (size : ℕ) (rest : Bytes)
      → size < 2 ^ 32
      → length rest < 4 + size
      → decode ba (le_bytes 4 size ++ rest) ≡ fault thrown
  unfolding decode
  decode_short size rest h lt =
      let found = laws.read_unsigned-append [] rest 4 size (omega arith) in
      let past =
        laws.read_past (le_bytes 4 size ++ rest) 8 size
          (omega (arith, length-append (le_bytes 4 size) rest, length-le_bytes 4 size)) in
      ground arith

  -- A read that delivered the size of a packet, but less than the header and that many bytes, makes
  -- handleClient end with an exception.
  pub handle_client_short :
      (size : ℕ) (rest : Bytes)
      → size < 2 ^ 32
      → length rest < 4 + size
      → read 4096 ≡ got (le_bytes 4 size ++ rest)
      → handle_client E ba client read s ≡ fault thrown
  unfolding handle_client handle_read
  handle_client_short size rest h lt e =
      let e' = e ∙ got_some (le_bytes 4 size ++ rest) _ (length-le_bytes_append size rest) in
      rw (e', decode_short size rest h lt) refl

  read_fits :
      (bytes value : Bytes) (size : ℕ)
      → length bytes ≤ 4096
      → ba.read bytes 8 size ≡ some value
      → ltb body_capacity size ≡ false
  read_fits bytes value size le found = elim (Bool-cases (ltb body_capacity size)) [
    | inr fits ↦ fits
    | inl big ↦
        let over : 4096 < size = ground arith in
        let past = laws.read_past bytes 8 size (omega arith) in cc
  ]

  -- The body is read only where so many bytes were delivered, and then it fits its array.
  not-decode-overflow : (bytes : Bytes) → length bytes ≤ 4096 → ¬ (decode ba bytes ≡ fault overflow)
  unfolding decode
  not-decode-overflow bytes le h =
      let (size, _, h₁) = or_fault-overflow (ba.read_unsigned 4 bytes 0) _ h in
      let (f, _, h₂) = or_fault-overflow (ba.read_unsigned 2 bytes 4) _ h₁ in
      let (v, _, h₃) = or_fault-overflow (ba.read_unsigned 1 bytes 6) _ h₂ in
      let (r, _, h₄) = or_fault-overflow (ba.read_unsigned 1 bytes 7) _ h₃ in
      let (value, found, h₅) = or_fault-overflow (ba.read bytes 8 size) _ h₄ in
      not-tested_overflow (ltb body_capacity size) _ (read_fits bytes value size le found) h₅

  overflow-handle_read :
      (r : ℤ × Bytes) (s : Server E.connector)
      → length r.1 ≤ 4096
      → handle_read E ba client r s ≡ fault overflow
      → (packet : TcpPacket) × (decode ba r.1 ≡ done packet)
        × (handle_data E packet client s.world ≡ fault overflow)
  unfolding handle_read
  overflow-handle_read (pos zero, bytes) s le h = cc
  overflow-handle_read (negsuc n, bytes) s le h = cc
  overflow-handle_read (pos (suc n), bytes) s le h =
      let (p, decodes, h₁) =
        >>=-eq-fault overflow (decode ba bytes) _ (not-decode-overflow bytes le) h in
      (p, decodes, overflow_of (handle_data E p client s.world) _ h₁)

  -- Whatever a read of a socket gives, within the number of bytes that the code asks for:
  -- handleClient goes outside no array, or it had decoded a packet before and the handler of that
  -- packet does. So the reader stays inside the array of the packet, whatever size the bytes say.
  pub handle_client_in_bounds :
      IsRead read
      → ¬ (handle_client E ba client read s ≡ fault overflow)
        ⊎ ((packet : TcpPacket) × (decode ba (read 4096).1 ≡ done packet)
            × (handle_data E packet client s.world ≡ fault overflow))
  unfolding handle_client
  handle_client_in_bounds reads = elim (overflow-cases (handle_client E ba client read s)) [
    | inl fails ↦
        inr (
          overflow-handle_read (read 4096) (make (reset_timer client) s) (reads.bounded 4096) fails)
    | inr fine ↦ inl fine
  ]
