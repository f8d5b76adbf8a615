-- ===== src/Server/Validity.antt =====
-- The connection manager over every step of the server.
use app_server.Base.{◌≡◌, some, ℕ}
use app_server.Packet.{ByteArray}
use app_server.UserConnectionManager.{Manager, SocketPtr}
use app_server.UserConnectionManager.Invariant.{IsValid, add_user-IsValid, change_online-IsValid}
use app_server.UserConnectionManager.Routing.{routes, routes-change_online, add_user-routes_kept}
use app_server.DataHandle.{Env}
use app_server.Server.Reader.{Loop, Reach, here, next}
use app_server.Server.Managers.{Changes, keeps, adds, marks, Step-Changes}

pub Changes-IsValid : {m m' : Manager} → Changes m m' → IsValid m → IsValid m'
Changes-IsValid keeps v = v
Changes-IsValid {m} (adds place uid client) v = add_user-IsValid place uid client m v
Changes-IsValid {m} (marks client) v = change_online-IsValid client m v

pub Changes-routes :
    {m m' : Manager} (uid : ℕ) (c : SocketPtr)
    → Changes m m'
    → routes m uid ≡ some c
    → routes m' uid ≡ some c
Changes-routes uid c keeps set = set
Changes-routes {m} uid c (adds place u client) set = add_user-routes_kept place u uid client c m set
Changes-routes {m} uid c (marks client) set = rw (routes-change_online client m uid) set

module _ (E : Env) (ba : ByteArray) where
  -- After any accepts, events, tasks and timers in any order, connections that were valid are
  -- valid: one entry for a user at most, and every entry online.
  pub Reach-IsValid :
      {l m : Loop E}
      → Reach E ba l m
      → IsValid l.server.world.manager
      → IsValid m.server.world.manager
  Reach-IsValid here v = v
  Reach-IsValid (next r st) v = Changes-IsValid (Step-Changes E ba st) (Reach-IsValid r v)

  -- Once a user has a socket, no accept, event, task or timer, in any order, changes or removes it:
  -- not the close of that socket, and not another login.
  pub Reach-routes :
      {l m : Loop E} (uid : ℕ) (c : SocketPtr)
      → Reach E ba l m
      → routes l.server.world.manager uid ≡ some c
      → routes m.server.world.manager uid ≡ some c
  Reach-routes uid c here set = set
  Reach-routes uid c (next r st) set =
      Changes-routes uid c (Step-Changes E ba st) (Reach-routes uid c r set)
