-- ===== src/Threads.antt =====
-- The handlers of src/MyTcpServer/src/DataHandle.cpp between their accesses to what they share: main
-- runs them on twenty threads. One step is one call of UserConnectionManager, EmailSender or the
-- scheduler, which lock, or one call of the MySQL connector.
pub mod Statements
pub mod Undisturbed
pub mod Ends
pub mod Delivery
pub mod Routes
pub mod Serial
pub mod Wishes
pub mod Quiet
pub mod Machine
pub mod Updates
pub mod Sequential
pub mod Alone
pub mod Handlers
use app_server.Base.{
  ℕ, suc, Bool, true, false, Option, none, some, List, [], ◌∷◌, Text, Outcome, done, fault, Fault,
}
use app_server.Environment.{Task, World, schedule}
use app_server.UserConnectionManager.{SocketPtr, add_user, select_user}
use app_server.MysqlInteractor.{Connector, Bindings}

-- What a handler has left to do: its next access, and what it does with the answer.
pub data Program (C : Connector) (A : Type 0) : Type 0 where
  returns : A → Program C A
  faults : Fault → Program C A
  selects : ℕ → (SocketPtr → Program C A) → Program C A
  adds : ℕ → ℕ → SocketPtr → Program C A → Program C A
  generates : (ℕ → Program C A) → Program C A
  prepares : Text → (Bool → Program C A) → Program C A
  updates : Text → Bindings → (Bool → Program C A) → Program C A
  queries : Text → Bindings → (Option (List C.Row) → Program C A) → Program C A
  schedules : Task → Program C A → Program C A

-- executeUpdate inside the `try`: whether it threw, and the database afterwards.
abbrev pub success_of {ℓ} : {D : Type ℓ} → Option D → Bool
success_of none = false
success_of (some db) = true

abbrev pub db_of {ℓ} : {D : Type ℓ} → Option D → D → D
db_of none db = db
db_of (some db') db = db'

module _ {C : Connector} where
  infixl 5 ◌>>=◌
  unfoldable pub ◌>>=◌ : {A B : Type 0} → Program C A → (A → Program C B) → Program C B
  returns a >>= f = f a
  faults e >>= f = faults e
  selects uid k >>= f = selects uid (λ r. k r >>= f)
  adds place uid c m >>= f = adds place uid c (m >>= f)
  generates k >>= f = generates (λ n. k n >>= f)
  prepares query k >>= f = prepares query (λ b. k b >>= f)
  updates query bs k >>= f = updates query bs (λ b. k b >>= f)
  queries query bs k >>= f = queries query bs (λ r. k r >>= f)
  schedules t m >>= f = schedules t (m >>= f)

  -- What uses nothing that is shared.
  unfoldable pub lift : {A : Type 0} → Outcome A → Program C A
  lift (done a) = returns a
  lift (fault e) = faults e

  -- One access of a thread; a thread that has returned or crashed makes none.
  unfoldable pub advance : {A : Type 0} → Program C A → World C → Option (Program C A × World C)
  advance (returns a) w = none
  advance (faults e) w = none
  advance (selects uid k) w = some (k (select_user uid w.manager), w)
  advance (adds place uid c m) w =
      some (m, record w { manager = (add_user place uid c w.manager).0 })
  advance (generates k) w = some (k w.codes, record w { codes = suc w.codes })
  advance (prepares query k) w = some (k (C.prepares w.db query), w)
  advance (updates query bs k) w =
      let r = C.execute_update w.db query bs in
      some (k (success_of r), record w { db = db_of r w.db })
  advance (queries query bs k) w = some (k (C.execute_query w.db query bs), w)
  advance (schedules t m) w = some (m, schedule t w)

  -- The thread runs to its end, and no other in between.
  unfoldable pub run_alone : {A : Type 0} → Program C A → World C → Outcome (A × World C)
  run_alone (returns a) w = done (a, w)
  run_alone (faults e) w = fault e
  run_alone (selects uid k) w = run_alone (k (select_user uid w.manager)) w
  run_alone (adds place uid c m) w =
      run_alone m (record w { manager = (add_user place uid c w.manager).0 })
  run_alone (generates k) w = run_alone (k w.codes) (record w { codes = suc w.codes })
  run_alone (prepares query k) w = run_alone (k (C.prepares w.db query)) w
  run_alone (updates query bs k) w =
      let r = C.execute_update w.db query bs in
      run_alone (k (success_of r)) (record w { db = db_of r w.db })
  run_alone (queries query bs k) w = run_alone (k (C.execute_query w.db query bs)) w
  run_alone (schedules t m) w = run_alone m (schedule t w)
