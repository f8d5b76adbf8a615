-- ===== src/ClientHandler/Frames.antt =====
-- What handleClientData makes of the bytes of one read.
use app_server.Base.{
  All, done, take, sym, ℕ, ◌+◌, ◌-◌, ◌*◌, ◌/◌, ◌%◌, ◌^◌, ◌<◌, ◌≤◌, ◌≡◌, refl, Bool, true, false,
  List, [], ◌∷◌, ◌++◌, any, Bytes, some, length, ltb, if◌then◌else◌, arith, length-append,
  ltb_of_le,
}
use app_server.Packet.{TcpPacket, header, serialize}
use app_server.Packet.RoundTrip.{IsPacket, serialize_lem, header_start}
use app_server.Json.{JsonLibrary, IsJsonLibrary}
use app_server.Message.{Memory, Stamp, Message}
use app_server.Message.Chat
use app_server.ClientHandler.{
  DataStream, IsDataStream, Line, data_too_short, data_error, received_data, chat_message, be_bytes,
  handle_client_data,
}

-- A frame: its length, function number, and the text as QDataStream writes an array.
abbrev pub frame : ℕ → ℕ → Bytes → Bytes
frame n f text = be_bytes 2 n ++ be_bytes 2 f ++ be_bytes 4 (length text) ++ text

abbrev pub is_chat : Line → Bool
is_chat (chat_message text) = true
is_chat _ = false

module _ (J : JsonLibrary) (memory : Memory) (stamp : Stamp) {ds : DataStream}
    (laws : IsDataStream ds) where
  -- What the three reads give, in terms of the streams between them.
  frame_read :
      (n f : ℕ) (text rest : Bytes)
      → n < 2 ^ 16
      → f < 2 ^ 16
      → length text < 2 ^ 32 - 1
      → let (n', in₁) = ds.read_quint16 (ds.open_array (frame n f text ++ rest)) in
        let (f', in₂) = ds.read_quint16 in₁ in (n' ≡ n) × (f' ≡ f) × ((ds.read_array in₂).0 ≡ text)
  frame_read n f text rest hn hf ht =
      let (a, l) =
        laws.read_quint16-Left _ n (be_bytes 2 f ++ be_bytes 4 (length text) ++ text ++ rest) hn
          (laws.open_array-Left (frame n f text ++ rest)) in
      let (b, m) = laws.read_quint16-Left _ f (be_bytes 4 (length text) ++ text ++ rest) hf l in
      let (c, _) = laws.read_array-Left _ text rest ht m in (a, b, c)

  length-frame :
      (n f : ℕ) (text rest : Bytes)
      → length (frame n f text ++ rest) ≡ 8 + length text + length rest
  length-frame n f text rest = omega (arith, length-append text rest)

  handle_frame :
      (n : ℕ) (text rest : Bytes)
      → n < 2 ^ 16
      → n ≤ 6 + length text + length rest
      → length text < 2 ^ 32 - 1
      → length rest < 2 ^ 32
      → handle_client_data J memory stamp ds (frame n 0x1a text ++ rest) ≡ (
          received_data text n 0x1a
          ∷ chat_message (
              Chat.print_message
                (Chat.cast_from_string J text (Chat.new_message memory stamp [] [] [])))
          ∷ [])
  unfolding handle_client_data
  handle_frame n text rest hn fits ht hr =
      let (a, b, c) = frame_read n 0x1a text rest hn (omega arith) ht in
      let long : ltb (length (frame n 0x1a text ++ rest)) 4 ≡ false = ltb_of_le _ _ (omega arith) in
      let whole : ltb ((length (frame n 0x1a text ++ rest) + (2 ^ 64 - 2)) % 2 ^ 64) n ≡ false =
        ltb_of_le _ _ (omega (arith, length-append text rest)) in
      rw (a, b, c, long, whole) refl

  -- Of a frame with the number 0x1a and the text of a chat message whose ids fit 64 bits, with a
  -- length that counts no more than what follows it, and any bytes behind the frame: the text is
  -- shown, and one chat message is logged, with the content and names of the sender and the time of
  -- the reader.
  pub handle_client_data-frame :
      (m : Message Chat.Info) (n : ℕ) (text rest : Bytes)
      → IsJsonLibrary J
      → Chat.IsInfo m.info
      → J.dump (Chat.to_json J m) ≡ some text
      → n < 2 ^ 16
      → n ≤ 6 + length text + length rest
      → length text < 2 ^ 32 - 1
      → length rest < 2 ^ 32
      → handle_client_data J memory stamp ds (frame n 0x1a text ++ rest) ≡ (
          received_data text n 0x1a
          ∷ chat_message (
              Chat.print_message
                (record (Chat.new_message memory stamp [] [] []) { info = m.info }))
          ∷ [])
  handle_client_data-frame m n text rest json h dumps hn fits ht hr =
      let new = Chat.new_message memory stamp [] [] [] in
      rw (sym (Chat.cast_from_string-dump json m new text h dumps))
        (handle_frame n text rest hn fits ht hr)

  unchatted :
      (bytes : Bytes)
      → (ds.read_quint16 (ds.read_quint16 (ds.open_array bytes)).1).0 ≡ 0
      → any is_chat (handle_client_data J memory stamp ds bytes) ≡ false
  unfolding handle_client_data
  unchatted bytes e = ground arith

  -- Two bytes are a number.
  pair_of :
      (a b : ℕ) (rest : Bytes) → a < 256 → b < 256 → be_bytes 2 (a * 256 + b) ++ rest ≡ a ∷ b ∷ rest
  pair_of a b rest ha hb =
      let high : (a * 256 + b) / 256 % 256 ≡ a = omega arith in
      let low : (a * 256 + b) % 256 ≡ b = omega arith in rw (high, low) refl

  read_pair :
      (s : ds.Stream) (a b : ℕ) (rest : Bytes)
      → a < 256
      → b < 256
      → laws.Left s (a ∷ b ∷ rest)
      → ((ds.read_quint16 s).0 ≡ a * 256 + b) × laws.Left (ds.read_quint16 s).1 rest
  read_pair s a b rest ha hb l =
      laws.read_quint16-Left s (a * 256 + b) rest (omega arith) (rw (pair_of a b rest ha hb) l)

  -- A second number that is not there.
  abbrev IsCut : Bytes → Type 0
  IsCut bytes =
      let in₁ = (ds.read_quint16 (ds.open_array bytes)).1 in
      let (f, in₂) = ds.read_quint16 in₁ in (f ≡ 0) × ((ds.read_array in₂).0 ≡ [])

  ended-IsCut :
      (s : ds.Stream)
      → laws.IsPastEnd s
      → ((ds.read_quint16 s).0 ≡ 0) × ((ds.read_array (ds.read_quint16 s).1).0 ≡ [])
  ended-IsCut s e =
      let (zero', past) = laws.read_quint16-IsPastEnd s e in
      (zero', laws.read_array-IsPastEnd _ past)

  short-IsCut : (bytes : Bytes) → length bytes < 4 → All (λ b. b < 256) bytes → IsCut bytes
  short-IsCut [] h k =
      ended-IsCut _ (laws.read_quint16_short _ [] (omega arith) (laws.open_array-Left [])).1
  short-IsCut (a ∷ []) h k =
      ended-IsCut _
        (laws.read_quint16_short _ (a ∷ []) (omega arith) (laws.open_array-Left (a ∷ []))).1
  short-IsCut (a ∷ b ∷ rest) h k =
      let (_, l) = read_pair _ a b rest k.0 k.1.0 (laws.open_array-Left (a ∷ b ∷ rest)) in
      let (zero', past) = laws.read_quint16_short _ rest (omega arith) l in
      (zero', laws.read_array-IsPastEnd _ past)

  -- Data of less than four bytes is called too short, and all the same taken for a message: an
  -- empty array with the number 0 is shown behind that, and no chat message.
  handle_client_data_short :
      (bytes : Bytes)
      → length bytes < 4
      → All (λ b. b < 256) bytes
      → (errors : List Line) × (n : ℕ) × (handle_client_data J memory stamp ds bytes
          ≡ data_too_short ∷ errors ++ received_data [] n 0 ∷ [])
        × (any is_chat errors ≡ false)
  unfolding handle_client_data
  handle_client_data_short bytes h k =
      let n = (ds.read_quint16 (ds.open_array bytes)).0 in
      let (cut, empty) = short-IsCut bytes h k in
      let short : ltb (length bytes) 4 ≡ true = ground arith in
      (
        if ltb ((length bytes + (2 ^ 64 - 2)) % 2 ^ 64) n then data_error ∷ [] else [],
        n,
        rw (cut, empty, short) refl,
        ground arith,
      )

  zeros_unchatted :
      (a b : ℕ) (rest : Bytes)
      → a < 256
      → b < 256
      → any is_chat (handle_client_data J memory stamp ds (a ∷ b ∷ 0 ∷ 0 ∷ rest)) ≡ false
  zeros_unchatted a b rest ha hb =
      let (_, l) = read_pair _ a b (0 ∷ 0 ∷ rest) ha hb (laws.open_array-Left _) in
      unchatted _ (read_pair _ 0 0 rest (omega arith) (omega arith) l).0

  -- The bytes of a packet that fits its C++ types, in the format of MyTcpServer, are never taken
  -- for a chat message, whatever its function number is and whatever follows them.
  pub serialize_unchatted :
      (p : TcpPacket) (bytes rest : Bytes)
      → IsPacket p
      → serialize p ≡ done bytes
      → any is_chat (handle_client_data J memory stamp ds (bytes ++ rest)) ≡ false
  serialize_unchatted p bytes rest v e =
      let value = take p.length p.body in
      let (back, starts) = header_start p v.fits in
      let same : bytes ≡ header p ++ value = cc (serialize_lem p v.fits) in
      rw same (
        rw starts (
          zeros_unchatted (p.length % 256) (p.length / 256) ((back ++ value) ++ rest) (omega arith)
            (omega (arith, v.fits))))
