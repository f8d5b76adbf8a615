-- ===== src/CommunicatorServer.antt =====
-- class CommunicatorServer: src/CommunicatorServer/include/CommunicatorServer.h and
-- src/CommunicatorServer/src/CommunicatorServer.cpp.
pub mod Descriptors
use app_server.Base.{ℕ, Bool, List, [], ◌∷◌, ◌++◌, Text, literal, ℤ, if◌then◌else◌}
use app_server.Decimal.{int_to_string}
use app_server.ClientHandler.{Handler, new_handler}

-- Lines of the log `system`, of the log `normal` and of std::cout, and the wait for the pool of threads.
pub data Call : Type 0 where
  log_fatal log_info print_line : Text → Call
  wait_for_done : Call

-- Nothing keeps the handlers that were made; they are listed in the order in which they were made.
pub record CommunicatorServer : Type 0 where
  pub listening : Bool
  pub handlers : List Handler
  pub calls : List Call

-- `listens` is what `listen` returns.
unfoldable pub new_server : Bool → ℤ → CommunicatorServer
new_server listens port = record {
  listening = listens;
  handlers = [];
  calls =
      (if listens
        then log_info (literal "Server started on " ++ int_to_string port)
        else log_fatal (literal "Server could not start on " ++ int_to_string port))
      ∷ [];
}

-- `accepted` is what setSocketDescriptor of the new socket returns.
unfoldable pub incoming_connection : Bool → ℕ → CommunicatorServer → CommunicatorServer
unfolding new_handler
incoming_connection accepted descriptor s = record s {
  handlers = s.handlers ++ new_handler accepted descriptor ∷ [];
  calls = s.calls ++ print_line (literal "new connect ") ∷ [];
}

unfoldable pub destroy : CommunicatorServer → CommunicatorServer
destroy s = record s { calls = s.calls ++ wait_for_done ∷ [] }
