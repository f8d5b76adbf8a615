-- ===== src/ClientHandler.antt =====
-- class ClientHandler: src/ClientHandler/include/ClientHandler.h and src/ClientHandler/src/ClientHandler.cpp.
-- The calls of Qt are recorded in the order in which they are made.
pub mod Frames
use app_server.Base.{
  ℕ, zero, suc, ◌+◌, ◌-◌, ◌*◌, ◌/◌, ◌%◌, ◌^◌, ◌<◌, ◌≡◌, Bool, Option, none, some, List, [], ◌∷◌,
  ◌++◌, Bytes, Text, length, ltb, ◌==◌, if◌then◌else◌, Outcome, done, fault, null, or_fault, ◌>>=◌,
}
use app_server.Json.{JsonLibrary}
use app_server.Message.{Memory, Stamp}
use app_server.Message.Chat

-- An unsigned integer of w bytes, most significant byte first.
abbrev pub be_bytes : ℕ → ℕ → Bytes
be_bytes zero n = []
be_bytes (suc w) n = be_bytes w (n / 256) ++ (n % 256) ∷ []

-- QDataStream, of Qt: a stream over an array of bytes, and the reads of a quint16 and of a QByteArray.
pub record DataStream : Type 1 where
  pub Stream : Type 0
  pub open_array : Bytes → Stream
  pub read_quint16 : Stream → ℕ × Stream
  pub read_array : Stream → Bytes × Stream

-- What the handler relies on: numbers come with the most significant byte first, an array with its
-- size of four bytes before it; a read past the end gives zero, or an empty array, and so do all
-- reads after it.
pub record IsDataStream (ds : DataStream) : Type 1 where
  pub Left : ds.Stream → Bytes → Type 0
  pub IsPastEnd : ds.Stream → Type 0
  pub open_array-Left : (bs : Bytes) → Left (ds.open_array bs) bs
  pub read_quint16-Left :
      (s : ds.Stream) (n : ℕ) (rest : Bytes)
      → n < 2 ^ 16
      → Left s (be_bytes 2 n ++ rest)
      → ((ds.read_quint16 s).0 ≡ n) × Left (ds.read_quint16 s).1 rest
  pub read_quint16_short :
      (s : ds.Stream) (bs : Bytes)
      → length bs < 2
      → Left s bs
      → ((ds.read_quint16 s).0 ≡ 0) × IsPastEnd (ds.read_quint16 s).1
  pub read_quint16-IsPastEnd :
      (s : ds.Stream) → IsPastEnd s → ((ds.read_quint16 s).0 ≡ 0) × IsPastEnd (ds.read_quint16 s).1
  pub read_array-Left :
      (s : ds.Stream) (a rest : Bytes)
      → length a < 2 ^ 32 - 1
      → Left s (be_bytes 4 (length a) ++ a ++ rest)
      → ((ds.read_array s).0 ≡ a) × Left (ds.read_array s).1 rest
  pub read_array-IsPastEnd : (s : ds.Stream) → IsPastEnd s → (ds.read_array s).0 ≡ []

-- What is written to std::cout, and to the log. `received_data` has the array, the length and the
-- function number that were read.
pub data Line : Type 0 where
  nothing_read data_read data_too_short data_error : Line
  received_data : Bytes → ℕ → ℕ → Line
  chat_message : Text → Line

module _ (J : JsonLibrary) (memory : Memory) (stamp : Stamp) (ds : DataStream) where
  -- Neither test of the size leaves the function. The difference of the second is a size_t.
  unfoldable pub handle_client_data : Bytes → List Line
  handle_client_data bytes =
      let (message_length, in₁) = ds.read_quint16 (ds.open_array bytes) in
      let (func_id, in₂) = ds.read_quint16 in₁ in
      let receive_data = (ds.read_array in₂).0 in
      let rec_msg = Chat.cast_from_string J receive_data (Chat.new_message memory stamp [] [] []) in
      (if ltb (length bytes) 4 then data_too_short ∷ [] else [])
      ++ (if ltb ((length bytes + (2 ^ 64 - 2)) % 2 ^ 64) message_length
          then data_error ∷ []
          else [])
      ++ received_data receive_data message_length func_id
        ∷ (if func_id == 0x1a then chat_message (Chat.print_message rec_msg) ∷ [] else [])

-- Calls of the socket and of the thread.
pub data Call : Type 0 where
  new_socket set_socket_descriptor delete_socket move_to_thread connect_ready_read read_all : Call
  delete_socket_later close_socket : Call
  new_thread connect_started start_thread quit_thread wait_thread delete_thread_later : Call

-- `socket` is nullptr, or the descriptor of the socket.
pub record Handler : Type 0 where
  pub socket : Option ℕ
  pub calls : List Call
  pub lines : List Line

abbrev make : List Call → Handler → Handler
make cs h = record h { calls = h.calls ++ cs }

-- `accepted` is what setSocketDescriptor returns.
unfoldable pub new_handler : Bool → ℕ → Handler
new_handler accepted descriptor =
    if accepted
    then record {
      socket = some descriptor;
      calls =
          new_socket ∷ new_thread ∷ set_socket_descriptor ∷ move_to_thread ∷ connect_started
          ∷ start_thread ∷ [];
      lines = [];
    }
    else record {
      socket = none;
      calls = new_socket ∷ new_thread ∷ set_socket_descriptor ∷ delete_socket ∷ [];
      lines = [];
    }

-- The slot of the signal `started` of the thread.
unfoldable pub run : Handler → Handler
run h = make (connect_ready_read ∷ []) h

abbrev ready : JsonLibrary → Memory → Stamp → DataStream → Bytes → List Line
ready J memory stamp ds [] = nothing_read ∷ []
ready J memory stamp ds (b ∷ bs) = data_read ∷ handle_client_data J memory stamp ds (b ∷ bs)

-- `bytes` is what readAll returns.
unfoldable pub on_ready_read :
    JsonLibrary → Memory → Stamp → DataStream → Bytes → Handler → Outcome Handler
unfolding handle_client_data
on_ready_read J memory stamp ds bytes h = do
  socket ← or_fault null h.socket
  done (record h {
    calls = h.calls ++ read_all ∷ [];
    lines = h.lines ++ ready J memory stamp ds bytes;
  })

unfoldable pub on_client_disconnected : Handler → Outcome Handler
on_client_disconnected h = do
  socket ← or_fault null h.socket
  done (make (delete_socket_later ∷ quit_thread ∷ wait_thread ∷ delete_thread_later ∷ []) h)

-- The destructor; `is_open` is what isOpen returns.
unfoldable pub destroy : Bool → Handler → Outcome Handler
destroy is_open h = do
  socket ← or_fault null h.socket
  done (if is_open then make (close_socket ∷ []) h else h)
