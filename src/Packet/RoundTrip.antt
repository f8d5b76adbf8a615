-- ===== src/Packet/RoundTrip.antt =====
-- What is read of a packet that the server serialised.
use native.Mathlib.Nat.{pow-suc, div-lt_iff_lt-mul}
use app_server.Base.{
  ltb, if◌then◌else◌, ◌∙◌, ℕ, zero, suc, ◌/◌, ◌%◌, ◌^◌, ◌≤◌, ◌<◌, ◌≡◌, refl, ap, [], ◌∷◌, ◌++◌,
  Bytes, length, take, drop, ltb_of_le, length-take, done, fault, overflow, arith, ◌>>=◌,
}
use app_server.Packet.{
  TcpPacket, ByteArray, IsByteArray, body_capacity, memcpy, le_bytes, of_le_bytes, header,
  serialize, cleared, decode,
}

-- The byte order is the usual one: the bytes stand for the number.
pub of_le_bytes-le_bytes : (w n : ℕ) → n < 256 ^ w → of_le_bytes (le_bytes w n) ≡ n
unfolding of_le_bytes le_bytes
of_le_bytes-le_bytes zero n h = omega arith
of_le_bytes-le_bytes (suc w) n h = omega (
  arith,
  of_le_bytes-le_bytes w (n / 256) ((div-lt_iff_lt-mul (omega arith)).1 (rw pow-suc at h)),
)

pub length-le_bytes : (w n : ℕ) → length (le_bytes w n) ≡ w
unfolding le_bytes
length-le_bytes zero n = refl
length-le_bytes (suc w) n = ap suc (length-le_bytes w (n / 256))

-- What the fields of a packet hold in C++.
pub record IsPacket (p : TcpPacket) : Type 0 where
  pub func_id : p.func_id < 2 ^ 16
  pub version : p.version < 2 ^ 8
  pub reserved : p.reserved < 2 ^ 8
  pub body : length p.body ≡ body_capacity
  pub fits : p.length ≤ body_capacity

pub serialize_lem :
    (p : TcpPacket)
    → p.length ≤ body_capacity
    → serialize p ≡ done (header p ++ take p.length p.body)
unfolding serialize
serialize_lem p h = ground arith

pub length-header : (p : TcpPacket) → length (header p) ≡ 8
unfolding header le_bytes
length-header p = refl

-- The length of a packet that fits lies in its first two bytes, and the next two are zero.
pub header_start :
    (p : TcpPacket)
    → p.length ≤ body_capacity
    → (back : Bytes) × (header p ≡ (p.length % 256) ∷ (p.length / 256) ∷ 0 ∷ 0 ∷ back)
unfolding header le_bytes
header_start p h =
    let second : p.length / 256 % 256 ≡ p.length / 256 = omega arith in
    let third : p.length / 256 / 256 % 256 ≡ 0 = omega arith in
    let fourth : p.length / 256 / 256 / 256 % 256 ≡ 0 = omega arith in
    (
      le_bytes 2 p.func_id ++ le_bytes 1 p.version ++ le_bytes 1 p.reserved,
      rw (second, third, fourth) refl,
    )

-- The packet that stands for `value` alone.
abbrev pub received : TcpPacket → Bytes → TcpPacket
received p value = record p { body = memcpy cleared value p.length }

module _ {ba : ByteArray} (laws : IsByteArray ba) where
  -- The five reads, and then the test of the size that stands for the bound of the array.
  decode_reads :
      (p : TcpPacket) (value rest : Bytes)
      → p.length < 2 ^ 32
      → p.func_id < 2 ^ 16
      → p.version < 2 ^ 8
      → p.reserved < 2 ^ 8
      → length value ≡ p.length
      → decode ba (header p ++ value ++ rest)
        ≡ (if ltb body_capacity p.length then fault overflow else done (received p value))
  unfolding decode header le_bytes
  decode_reads p value rest hn hf hv hr e =
      let h = header p in
      let back = value ++ rest in
      let w = le_bytes 4 p.length in
      let f = le_bytes 2 p.func_id in
      let e₁ = laws.read_unsigned-append [] (drop 4 h ++ back) 4 p.length (omega arith) in
      let e₂ = laws.read_unsigned-append w (drop 6 h ++ back) 2 p.func_id (omega arith) in
      let e₃ = laws.read_unsigned-append (w ++ f) (drop 7 h ++ back) 1 p.version (omega arith) in
      let e₄ =
        laws.read_unsigned-append (w ++ f ++ le_bytes 1 p.version) back 1 p.reserved
          (omega arith) in
      let e₅ = rw e at (laws.read-append h value rest) in rw (e₁, e₂, e₃, e₄, e₅) refl

  pub decode-header :
      (p : TcpPacket) (value rest : Bytes)
      → IsPacket p
      → length value ≡ p.length
      → decode ba (header p ++ value ++ rest) ≡ done (received p value)
  decode-header p value rest v e =
      decode_reads p value rest (omega (arith, v.fits)) v.func_id v.version v.reserved e
      ∙ rw (ltb_of_le body_capacity p.length v.fits) refl

  -- Reading what `serialize` wrote, at the front of whatever else the read delivered, gives the
  -- packet back: the header fields, the first `length` bytes of the body, and NUL bytes behind.
  pub decode-serialize :
      (p : TcpPacket) (rest : Bytes)
      → IsPacket p
      → decode ba (header p ++ take p.length p.body ++ rest)
        ≡ done (received p (take p.length p.body))
  decode-serialize p rest v =
      decode-header p (take p.length p.body) rest v
        (omega (arith, length-take p.length p.body, v.body, v.fits))

-- Every packet that fits its C++ types is serialised, and reading the bytes back, whatever follows
-- them in the same read, gives the same length, function number, version and reserved byte, and the
-- first `length` bytes of the body with NUL bytes behind them.
pub serialize-decode :
    {ba : ByteArray}
    → IsByteArray ba
    → (p : TcpPacket) (rest : Bytes) → IsPacket p
    → (serialize p >>= λ bytes. decode ba (bytes ++ rest))
      ≡ done (received p (take p.length p.body))
serialize-decode laws p rest v = rw (serialize_lem p v.fits) (decode-serialize laws p rest v)
