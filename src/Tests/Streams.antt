-- ===== src/Tests/Streams.antt =====
-- A reader of bytes over lists.
use mathlib.Core.List.{append_assoc}
use app_server.Base.{
  ℕ, ◌+◌, ◌<◌, ◌^◌, ◌≡◌, false, Option, none, some, ◌++◌, Bytes, length, take, drop, take-append,
  drop-append, length-append, ltb, ◌∙◌, ltb_of_le, arith, ap, if◌then◌else◌,
}
use app_server.Packet.{ByteArray, IsByteArray, le_bytes, of_le_bytes}
use app_server.Packet.RoundTrip.{of_le_bytes-le_bytes, length-le_bytes}

abbrev slice : Bytes → ℕ → ℕ → Option Bytes
slice s position n = if ltb (length s) (position + n) then none else some (take n (drop position s))

abbrev number_at : ℕ → Bytes → ℕ → Option ℕ
number_at w s position =
    if ltb (length s) (position + w) then none else some (of_le_bytes (take w (drop position s)))

abbrev pub sample_bytes : ByteArray
sample_bytes = record { read_unsigned = number_at; read = slice }

inside :
    (front middle back : Bytes)
    → ltb (length (front ++ (middle ++ back))) (length front + length middle) ≡ false
inside front middle back =
    ltb_of_le _ _ (omega (arith, length-append front (middle ++ back), length-append middle back))

slice-append :
    (front middle back : Bytes)
    → slice (front ++ middle ++ back) (length front) (length middle) ≡ some middle
slice-append front middle back = rw (
  append_assoc front middle back,
  inside front middle back,
  drop-append front (middle ++ back),
  take-append middle back,
)

number_at-slice :
    (w : ℕ) (s middle : Bytes) (position : ℕ)
    → slice s position w ≡ some middle
    → number_at w s position ≡ some (of_le_bytes middle)
number_at-slice w s middle position h = ground arith

number_at-append :
    (front back : Bytes) (w n : ℕ)
    → n < 256 ^ w
    → number_at w (front ++ le_bytes w n ++ back) (length front) ≡ some n
number_at-append front back w n h =
    let found = slice-append front (le_bytes w n) back in
    number_at-slice w (front ++ le_bytes w n ++ back) (le_bytes w n) (length front)
      (rw (length-le_bytes w n) at found)
    ∙ ap some (of_le_bytes-le_bytes w n h)

pub sample_bytes-IsByteArray : IsByteArray sample_bytes
sample_bytes-IsByteArray = record {
  read_unsigned-append = number_at-append;
  read-append = slice-append;
  read_past = λ s position n h. ground arith;
}
