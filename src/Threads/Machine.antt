-- ===== src/Threads/Machine.antt =====
-- Handlers of several packets at once, in every order of their steps (src/main.cpp makes an IoManager
-- with twenty threads; src/MyTcpServer/src/MyTcpServer.cpp calls handleData in a task).
use app_server.Base.{◌≡◌, Bool, true, false, any, some, List, [], ◌∷◌, ◌++◌}
use app_server.Environment.{Env, met, World}
use app_server.DataHandle.Conversation.{Arrival}
use app_server.MysqlInteractor.{Connector}
use app_server.Threads.{Program, faults, advance}
use app_server.Threads.Handlers.{handle_data_steps}

-- The handler dereferenced a null pointer, left an array, or threw.
abbrev pub is_fault : {C : Connector} {A : Type 0} → Program C A → Bool
is_fault (faults e) = true
is_fault _ = false

-- The process has ended, by a fault of one of its handlers.
abbrev pub has_crashed : {C : Connector} → List (Program C (Unit {0})) → Bool
has_crashed ts = any is_fault ts

-- What the threads share, and what each handler has left to do.
pub record Machine (C : Connector) : Type 0 where
  pub world : World C
  pub threads : List (Program C (Unit {0}))

-- A packet arrives, and its handler starts.
abbrev pub arrived : (E : Env) → Arrival → Machine E.connector → Machine E.connector
arrived E a s = record s {
  threads = handle_data_steps (met E a.moment) a.packet a.client ∷ s.threads;
}

-- No handler runs.
abbrev pub at_rest : {C : Connector} → World C → Machine C
at_rest w = record { world = w; threads = [] }

-- What can come of a state, with the packets that arrived since, the latest first. A fault of one
-- handler ends the process: nothing comes after it.
pub data Reach (E : Env) (m : Machine E.connector)
    : List Arrival → Machine E.connector → Type 0 where
  begins : Reach E m [] m
  arrives :
      {arrivals : List Arrival} {s : Machine E.connector}
      → Reach E m arrivals s
      → (a : Arrival) → has_crashed s.threads ≡ false
      → Reach E m (a ∷ arrivals) (arrived E a s)
  acts :
      {arrivals : List Arrival} {s : Machine E.connector}
      → Reach E m arrivals s
      → (before after : List (Program E.connector (Unit {0}))) (t : Program E.connector (Unit {0}))
        (r : Program E.connector (Unit {0}) × World E.connector)
      → s.threads ≡ before ++ t ∷ after
      → advance t s.world ≡ some r
      → has_crashed s.threads ≡ false
      → Reach E m arrivals (record { world = r.1; threads = before ++ r.0 ∷ after })
