-- ===== src/Tests/Frames.antt =====
-- Frames of the socket handler at concrete inputs, with a reader of streams over lists.
use app_server.Base.{
  ℕ, ◌+◌, ◌-◌, ◌*◌, ◌/◌, ◌%◌, ◌^◌, ◌<◌, ◌≡◌, refl, ap, ◌∙◌, Option, none, some, [], ◌∷◌, ◌++◌,
  Bytes, length, take, drop, take-append, drop-append, length-append, ltb, ltb_of_le, ◌==◌,
  if◌then◌else◌, arith, any, false,
}
use app_server.ClientHandler.{
  DataStream, IsDataStream, received_data, chat_message, be_bytes, handle_client_data,
}
use app_server.Packet.{TcpPacket, header}
use app_server.Packet.RoundTrip.{IsPacket, serialize_lem}
use app_server.Message.{created_base, status_code}
use app_server.Message.Chat.{to_json, new_message, print_message}
use app_server.Decimal.{to_string}
use app_server.DataHandle.ChatRouting.{incoming}
use app_server.ClientHandler.Frames.{frame, is_chat, handle_client_data-frame, serialize_unchatted}
use app_server.Tests.Values.{sample_json, sample_json-IsJsonLibrary}
use app_server.Tests.Setting.{sample_memory, sample_stamp, sample_env}
use app_server.Tests.Chats.{hello, hello-IsInfo, hello_body}
use app_server.Tests.Connections.{small, small-IsPacket}

-- `none` is a stream whose end was passed.
abbrev sample_quint16 : Option Bytes → ℕ × Option Bytes
sample_quint16 (some (a ∷ b ∷ rest)) = (a * 256 + b, some rest)
sample_quint16 _ = (0, none)

abbrev array_of : ℕ → Bytes → Bytes × Option Bytes
array_of n rest = if ltb (length rest) n then ([], none) else (take n rest, some (drop n rest))

abbrev sample_array : Option Bytes → Bytes × Option Bytes
sample_array (some (a ∷ b ∷ c ∷ d ∷ rest)) =
    let n = ((a * 256 + b) * 256 + c) * 256 + d in
    let found = array_of n rest in if n == 2 ^ 32 - 1 then ([], some rest) else found
sample_array _ = ([], none)

abbrev sample_stream : DataStream
sample_stream = record {
  Stream = Option Bytes;
  open_array = λ bs. some bs;
  read_quint16 = sample_quint16;
  read_array = sample_array;
}

quint16_short : (bs : Bytes) → length bs < 2 → sample_quint16 (some bs) ≡ (0, none)
quint16_short [] h = refl
quint16_short (a ∷ []) h = refl
quint16_short (a ∷ b ∷ rest) h = ground arith

quint16_found :
    (n : ℕ) (rest : Bytes)
    → n < 2 ^ 16
    → sample_quint16 (some (be_bytes 2 n ++ rest)) ≡ (n, some rest)
quint16_found n rest h =
    let number : (n / 256 % 256) * 256 + n % 256 ≡ n = omega arith in rw number refl

array_found :
    (a rest : Bytes)
    → length a < 2 ^ 32 - 1
    → sample_array (some (be_bytes 4 (length a) ++ a ++ rest)) ≡ (a, some rest)
array_found a rest h =
    let n = length a in
    let number : (((n / 256 / 256 / 256 % 256) * 256 + n / 256 / 256 % 256) * 256 + n / 256 % 256)
            * 256
          + n % 256
        ≡ n =
      omega arith in
    let whole : (n == 2 ^ 32 - 1) ≡ false = ground arith in
    let inside : ltb (length (a ++ rest)) n ≡ false =
      ltb_of_le _ _ (omega (arith, length-append a rest)) in
    rw (number, whole, inside, take-append a rest, drop-append a rest) refl

halves {ℓ} : {A B : Type ℓ} {p : A × B} {a : A} {b : B} → p ≡ (a, b) → (p.0 ≡ a) × (p.1 ≡ b)
halves e = (ap (λ q. q.0) e, ap (λ q. q.1) e)

sample_stream-IsDataStream : IsDataStream sample_stream
sample_stream-IsDataStream = record {
  Left = λ s bs. s ≡ some bs;
  IsPastEnd = λ s. s ≡ none;
  open_array-Left = λ bs. refl;
  read_quint16-Left = λ s n rest h e. halves (ap sample_quint16 e ∙ quint16_found n rest h);
  read_quint16_short = λ s bs h e. halves (ap sample_quint16 e ∙ quint16_short bs h);
  read_quint16-IsPastEnd = λ s e. rw e (refl, refl);
  read_array-Left = λ s a rest h e. halves (ap sample_array e ∙ array_found a rest h);
  read_array-IsPastEnd = λ s e. rw e refl;
}

handle_client_data-frame_example :
    handle_client_data sample_json sample_memory sample_stamp sample_stream
      (frame 10 0x1a hello_body ++ [])
    ≡ received_data hello_body 10 0x1a
      ∷ chat_message (
          print_message (record (new_message sample_memory sample_stamp [] [] []) { info = hello }))
      ∷ []
unfolding to_json new_message created_base status_code to_string
handle_client_data-frame_example =
    handle_client_data-frame sample_json sample_memory sample_stamp sample_stream-IsDataStream
      (incoming sample_env hello) 10 hello_body [] sample_json-IsJsonLibrary hello-IsInfo refl
      (omega arith) (omega arith) (omega arith) (omega arith)

-- A packet of the server with the number that the handler looks for.
abbrev looked_for : TcpPacket
looked_for = record small { func_id = 0x1a }

looked_for-IsPacket : IsPacket looked_for
looked_for-IsPacket = record {
  func_id = omega arith;
  version = omega arith;
  reserved = omega arith;
  body = small-IsPacket.body;
  fits = omega arith;
}

serialize_unchatted_example :
    any is_chat (
      handle_client_data sample_json sample_memory sample_stamp sample_stream
        ((header looked_for ++ take 2 looked_for.body) ++ []))
    ≡ false
serialize_unchatted_example =
    serialize_unchatted sample_json sample_memory sample_stamp sample_stream-IsDataStream looked_for
      (header looked_for ++ take 2 looked_for.body) [] looked_for-IsPacket
      (serialize_lem looked_for (omega arith))
