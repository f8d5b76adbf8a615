-- ===== src/Packet/Replies.antt =====
-- What a client reads of the answers of the handlers, and of the body as a C string.
use app_server.Base.{
  ℕ, zero, suc, ◌+◌, ◌%◌, ◌^◌, ◌≤◌, ◌<◌, ◌≡◌, refl, [], ◌∷◌, ◌++◌, Bytes, Text, length, drop,
  replicate, take-append, ltb_of_le, length-append, All, done, fault, overflow, arith, length-drop,
  take_all,
}
use app_server.Packet.{
  TcpPacket, ByteArray, IsByteArray, body_capacity, memcpy, new_packet, header, serialize, cleared,
  decode, c_string, answer, reply, reply_packet,
}
use app_server.Packet.RoundTrip.{IsPacket, received, decode-header, serialize_lem}

-- A text with no NUL byte that leaves room for one is what the C string of the body reads.
c_string-append :
    (value rest : Bytes) → All (λ b. 0 < b) value → c_string (value ++ 0 ∷ rest) ≡ done value
unfolding c_string
c_string-append [] rest h = refl
c_string-append (zero ∷ bs) rest h = absurd (omega arith)
c_string-append (suc b ∷ bs) rest h = rw (c_string-append bs rest h.1)

drop-replicate_cons :
    (n m : ℕ) → n < m → drop {A = ℕ} n (replicate m 0) ≡ 0 ∷ drop (suc n) (replicate m 0)
drop-replicate_cons n zero h = absurd (omega arith)
drop-replicate_cons zero (suc m) h = refl
drop-replicate_cons (suc n) (suc m) h = drop-replicate_cons n m (omega arith)

drop-cleared : (n : ℕ) → n < body_capacity → drop n cleared ≡ 0 ∷ drop (suc n) cleared
unfolding cleared
drop-cleared n h = drop-replicate_cons n body_capacity h

pub c_string-received :
    (value : Bytes)
    → All (λ b. 0 < b) value
    → length value < body_capacity
    → c_string (memcpy cleared value (length value)) ≡ done value
c_string-received value h lt =
    rw (take_all value, drop-cleared (length value) lt)
      (c_string-append value (drop (suc (length value)) cleared) h)

new_packet_lem :
    (memory : Bytes) (f v r : ℕ) (value : Text)
    → length value ≤ body_capacity
    → new_packet memory (length value) f v r value
      ≡ done (record {
        length = length value;
        func_id = f;
        version = v;
        reserved = r;
        body = value ++ drop (length value) memory;
      })
unfolding new_packet
new_packet_lem memory f v r value h = rw (
  ltb_of_le body_capacity (length value) h,
  ltb_of_le (length value + 1) (length value) (omega arith),
  take-append value (0 ∷ []),
)

pub answer_lem :
    (memory : Bytes) (f : ℕ) (body : Text)
    → length body ≤ body_capacity
    → answer memory f body ≡ done (reply_packet memory f body)
unfolding answer reply_packet
answer_lem memory f body h =
    let m : length body % 2 ^ 32 ≡ length body = omega arith in
    rw (m, new_packet_lem memory f 55 66 body h)

pub serialize-reply_packet :
    (memory : Bytes) (f : ℕ) (body : Text)
    → length body ≤ body_capacity
    → serialize (reply_packet memory f body) ≡ done (header (reply_packet memory f body) ++ body)
unfolding reply_packet
serialize-reply_packet memory f body h =
    rw (serialize_lem (reply_packet memory f body) h, take-append body (drop (length body) memory))

-- A reply of at most 4096 bytes is written whole behind its header.
pub reply_lem :
    (memory : Bytes) (f : ℕ) (body : Text)
    → length body ≤ body_capacity
    → reply memory f body ≡ done (header (reply_packet memory f body) ++ body)
unfolding reply
reply_lem memory f body h = rw (answer_lem memory f body h) (serialize-reply_packet memory f body h)

pub answer_overflow :
    (memory : Bytes) (f : ℕ) (body : Text)
    → body_capacity < length body
    → length body < 2 ^ 32
    → answer memory f body ≡ fault overflow
unfolding answer
answer_overflow memory f body h k =
    let m : length body % 2 ^ 32 ≡ length body = omega arith in rw m (ground arith)

reply_packet-IsPacket :
    (memory : Bytes) (f : ℕ) (body : Text)
    → f < 2 ^ 16
    → length memory ≡ body_capacity
    → length body ≤ body_capacity
    → IsPacket (reply_packet memory f body)
unfolding reply_packet
reply_packet-IsPacket memory f body hf hm h = record {
  func_id = hf;
  version = omega arith;
  reserved = omega arith;
  body =
      omega
        (arith, length-append body (drop (length body) memory), length-drop (length body) memory);
  fits = h;
}

-- What a client of the same format reads from a reply whose body is a text without NUL bytes that
-- is shorter than the array: the size, the function number, the two constants, and the body as a C
-- string.
pub decode-reply_packet :
    {ba : ByteArray}
    → IsByteArray ba
    → (memory : Bytes) (f : ℕ) (body rest : Bytes) → f < 2 ^ 16
    → length memory ≡ body_capacity
    → All (λ b. 0 < b) body
    → length body < body_capacity
    → (p : TcpPacket) × (decode ba (header (reply_packet memory f body) ++ body ++ rest) ≡ done p)
      × (p.length ≡ length body)
      × (p.func_id ≡ f)
      × (p.version ≡ 55)
      × (p.reserved ≡ 66)
      × (c_string p.body ≡ done body)
unfolding reply_packet
decode-reply_packet laws memory f body rest hf hm hb lt =
    let q = reply_packet memory f body in
    (
      received q body,
      decode-header laws q body rest (reply_packet-IsPacket memory f body hf hm (omega arith)) refl,
      refl,
      refl,
      refl,
      refl,
      c_string-received body hb lt,
    )

-- A full array without a NUL byte: the end of the string is looked for behind it.
pub c_string_unterminated : (bs : Bytes) → All (λ b. 0 < b) bs → c_string bs ≡ fault overflow
unfolding c_string
c_string_unterminated [] h = refl
c_string_unterminated (zero ∷ bs) h = absurd (omega arith)
c_string_unterminated (suc b ∷ bs) h = rw (c_string_unterminated bs h.1) refl
