-- ===== src/CommunicatorServer/Descriptors.antt =====
-- Which of the handlers have a socket.
use mathlib.Core.List.{append_assoc, append-nil, map-append}
use app_server.Base.{
  ℕ, ◌≡◌, refl, Bool, true, false, Option, none, some, List, [], ◌∷◌, ◌++◌, map, done, fault, null,
  Bytes, if◌then◌else◌,
}
use app_server.Json.{JsonLibrary}
use app_server.Message.{Memory, Stamp}
use app_server.ClientHandler.{
  DataStream, Handler, new_handler, run, on_ready_read, on_client_disconnected, destroy,
}
use app_server.CommunicatorServer.{CommunicatorServer, incoming_connection}

-- Connections in the order in which they come in.
abbrev incoming : List (Bool × ℕ) → CommunicatorServer → CommunicatorServer
incoming [] s = s
incoming ((accepted, descriptor) ∷ rest) s =
    incoming rest (incoming_connection accepted descriptor s)

abbrev socket_of : Bool × ℕ → Option ℕ
socket_of (accepted, descriptor) = if accepted then some descriptor else none

socket-new_handler :
    (accepted : Bool) (descriptor : ℕ)
    → (new_handler accepted descriptor).socket ≡ socket_of (accepted, descriptor)
unfolding new_handler
socket-new_handler true descriptor = refl
socket-new_handler false descriptor = refl

-- Every connection that comes in gets a handler, in order, also those whose descriptor the socket refuses:
-- the handlers of these have no socket.
handlers-incoming :
    (connections : List (Bool × ℕ)) (s : CommunicatorServer)
    → map (λ h. h.socket) (incoming connections s).handlers
      ≡ map (λ h. h.socket) s.handlers ++ map socket_of connections
unfolding incoming_connection
handlers-incoming [] s = rw (append-nil (map (λ h. h.socket) s.handlers)) refl
handlers-incoming ((accepted, descriptor) ∷ rest) s =
    rw
      (
        handlers-incoming rest (incoming_connection accepted descriptor s),
        map-append (λ h. h.socket) s.handlers (new_handler accepted descriptor ∷ []),
        append_assoc (map (λ h. h.socket) s.handlers)
            ((new_handler accepted descriptor).socket ∷ []) (map socket_of rest),
        socket-new_handler accepted descriptor,
      )
      refl

-- A handler whose descriptor the socket refused dereferences a null pointer in each of its slots
-- and in its destructor; with an accepted descriptor each of them returns.
new_handler_usable :
    (J : JsonLibrary) (memory : Memory) (stamp : Stamp) (ds : DataStream) (accepted : Bool)
    (descriptor : ℕ) (bytes : Bytes) (is_open : Bool)
    → let h = new_handler accepted descriptor in
      if accepted
      then ((a b c : Handler) × (on_ready_read J memory stamp ds bytes (run h) ≡ done a)
          × (on_client_disconnected (run h) ≡ done b)
          × (destroy is_open (run h) ≡ done c))
      else (on_ready_read J memory stamp ds bytes h ≡ fault null)
        × (on_client_disconnected h ≡ fault null)
        × (destroy is_open h ≡ fault null)
unfolding new_handler run on_ready_read on_client_disconnected destroy
new_handler_usable J memory stamp ds true descriptor bytes is_open = (_, _, _, refl, refl, refl)
new_handler_usable J memory stamp ds false descriptor bytes is_open = (refl, refl, refl)
