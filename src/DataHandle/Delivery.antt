-- ===== src/DataHandle/Delivery.antt =====
-- What a client finds in the bytes of a reply.
use app_server.Base.{ℕ, ◌≡◌, ◌<◌, ◌^◌, ◌++◌, done, Bytes, Text, length, arith, All}
use app_server.Packet.{
  TcpPacket, ByteArray, IsByteArray, body_capacity, c_string, decode, reply, reply_packet, header,
}
use app_server.Packet.Replies.{reply_lem, decode-reply_packet}

-- A packet on its way to a client: a reader of the same format finds the function number and a
-- text in it that satisfies P, whatever follows it in the same read.
abbrev pub Delivers : ByteArray → Bytes → ℕ → (Text → Type 0) → Type 0
Delivers ba bytes f P =
    (rest : Bytes)
    → (p : TcpPacket) × (body : Text) × (decode ba (bytes ++ rest) ≡ done p)
      × (p.func_id ≡ f)
      × (c_string p.body ≡ done body)
      × P body

pub Delivers-reply :
    {ba : ByteArray}
    → IsByteArray ba
    → (P : Text → Type 0) (memory : Bytes) (f : ℕ) (body : Text) → f < 2 ^ 16
    → length memory ≡ body_capacity
    → All (λ b. 0 < b) body
    → length body < body_capacity
    → P body
    → (bytes : Bytes) × (reply memory f body ≡ done bytes) × Delivers ba bytes f P
Delivers-reply laws P memory f body hf hm hb lt h =
    let bytes = header (reply_packet memory f body) ++ body in
    (
      bytes,
      reply_lem memory f body (omega arith),
      λ rest.
          let (p, e, _, hf', _, _, hc) = decode-reply_packet laws memory f body rest hf hm hb lt in
          (p, body, e, hf', hc, h),
    )
