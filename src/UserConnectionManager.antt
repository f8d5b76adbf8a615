-- ===== src/UserConnectionManager.antt =====
-- class UserConnectionManager: src/MyTcpServer/include/UserConnectionManager.h and
-- src/MyTcpServer/src/UserConnectionManager.cpp. The lock makes each method one step.
pub mod Invariant
pub mod Routing
use app_server.Base.{
  ℕ, zero, suc, Bool, true, false, not, Option, none, some, List, [], ◌∷◌, ◌==◌, if◌then◌else◌,
}

-- Zues::Socket::ptr: a socket of the framework by its number, or nullptr.
abbrev pub SocketPtr : Type 0
SocketPtr = Option ℕ

unfoldable pub same_socket : SocketPtr → SocketPtr → Bool
same_socket none none = true
same_socket (some a) (some b) = a == b
same_socket _ _ = false

pub record UserConnectInfo : Type 0 where
  pub is_online : Bool
  pub client : SocketPtr

-- The entries of the unordered_map in the order in which it is walked.
pub record Manager : Type 0 where
  pub connect_info : List (ℕ × UserConnectInfo)

unfoldable pub init : Manager
init = record { connect_info = [] }

unfoldable pub find : ℕ → List (ℕ × UserConnectInfo) → Option UserConnectInfo
find uid [] = none
find uid ((u, i) ∷ rest) = if u == uid then some i else find uid rest

abbrev pub is_some {ℓ} : {A : Type ℓ} → Option A → Bool
is_some none = false
is_some (some a) = true

-- A new entry goes to any place of the order.
unfoldable pub insert_at :
    ℕ → ℕ × UserConnectInfo → List (ℕ × UserConnectInfo) → List (ℕ × UserConnectInfo)
insert_at zero e es = e ∷ es
insert_at (suc k) e [] = e ∷ []
insert_at (suc k) e (x ∷ es) = x ∷ insert_at k e es

-- `place` stands for the hash of the map.
unfoldable pub add_user : ℕ → ℕ → SocketPtr → Manager → Manager × Bool
add_user place uid client m = if is_some (find uid m.connect_info) then (m, false) else (
  record m {
    connect_info =
        insert_at place (uid, record { is_online = true; client = client }) m.connect_info;
  },
  true,
)

unfoldable pub erase : ℕ → List (ℕ × UserConnectInfo) → List (ℕ × UserConnectInfo)
erase uid [] = []
erase uid ((u, i) ∷ rest) = if u == uid then rest else (u, i) ∷ erase uid rest

unfoldable pub delete_user : ℕ → Manager → Manager × Bool
delete_user uid m =
    (record m { connect_info = erase uid m.connect_info }, is_some (find uid m.connect_info))

abbrev pub client_of : Option UserConnectInfo → SocketPtr
client_of none = none
client_of (some i) = i.client

unfoldable pub select_user : ℕ → Manager → SocketPtr
select_user uid m = client_of (find uid m.connect_info)

-- The loop stops at the first entry that has the socket.
unfoldable pub mark_online : SocketPtr → List (ℕ × UserConnectInfo) → List (ℕ × UserConnectInfo)
mark_online client [] = []
mark_online client ((u, i) ∷ rest) =
    if same_socket i.client client
    then (u, record i { is_online = true }) ∷ rest
    else (u, i) ∷ mark_online client rest

unfoldable pub change_online : SocketPtr → Manager → Manager
change_online client m = record m { connect_info = mark_online client m.connect_info }

-- The calls that change a manager.
pub data Call : Type 0 where
  clear : Call
  add : ℕ → ℕ → SocketPtr → Call
  delete : ℕ → Call
  change : SocketPtr → Call

unfoldable pub call : Call → Manager → Manager
call clear m = init
call (add place uid client) m = (add_user place uid client m).0
call (delete uid) m = (delete_user uid m).0
call (change client) m = change_online client m

unfoldable pub run : List Call → Manager → Manager
run [] m = m
run (c ∷ cs) m = run cs (call c m)
