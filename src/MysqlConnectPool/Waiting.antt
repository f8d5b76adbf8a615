-- ===== src/MysqlConnectPool/Waiting.antt =====
-- The threads that wait in getConnection (src/MysqlInteractor/src/MysqlConnectPool.cpp), between the
-- sections that the lock makes one step.
pub mod Wakeups
pub mod Served
pub mod Exclusive
use app_server.Base.{ℕ, ◌≡◌, List, [], ◌∷◌, ◌++◌}
use app_server.MysqlConnectPool.{ConnectionPtr, Pool, get_connection, release_connection}

-- `blocked`: the threads that wait on the condition variable; `woken`: those that were notified, or
-- woke for no reason, and have not tested the queue since; `held`: what calls returned and was not
-- released, with the thread, the latest first.
pub record Waiting : Type 0 where
  pub pool : Pool
  pub blocked : List ℕ
  pub woken : List ℕ
  pub held : List (ℕ × ConnectionPtr)

-- The call of a thread returns.
unfoldable pub answer : ℕ → Waiting → Waiting
unfolding get_connection
answer t s = record s {
  pool = (get_connection s.pool).1;
  held = (t, (get_connection s.pool).0) ∷ s.held;
}

-- The predicate of wait_for is tested: on an empty queue the thread waits.
unfoldable pub test_queue : List ConnectionPtr → ℕ → Waiting → Waiting
test_queue [] t s = record s { blocked = t ∷ s.blocked }
test_queue (c ∷ cs) t s = answer t s

unfoldable pub test : ℕ → Waiting → Waiting
unfolding test_queue
test t s = test_queue s.pool.connections t s

-- A thread calls getConnection, wakes up with the lock or by itself, or finds its time up, while it
-- waits or after it was notified; or a thread releases a connection that it holds, and one waiting
-- thread, if any, is notified.
pub data Step : Waiting → Waiting → Type 0 where
  calls : (s : Waiting) (t : ℕ) → Step s (test t s)
  wakes :
      (s : Waiting) (before after : List ℕ) (t : ℕ)
      → s.woken ≡ before ++ t ∷ after
      → Step s (test t (record s { woken = before ++ after }))
  wakes_spuriously :
      (s : Waiting) (before after : List ℕ) (t : ℕ)
      → s.blocked ≡ before ++ t ∷ after
      → Step s (record s { blocked = before ++ after; woken = t ∷ s.woken })
  times_out :
      (s : Waiting) (before after : List ℕ) (t : ℕ)
      → s.blocked ≡ before ++ t ∷ after
      → Step s (answer t (record s { blocked = before ++ after }))
  times_out_woken :
      (s : Waiting) (before after : List ℕ) (t : ℕ)
      → s.woken ≡ before ++ t ∷ after
      → Step s (answer t (record s { woken = before ++ after }))
  releases :
      (s : Waiting) (before after : List (ℕ × ConnectionPtr)) (t : ℕ) (c : ConnectionPtr)
      → s.held ≡ before ++ (t, c) ∷ after
      → s.blocked ≡ []
      → Step s (record s { pool = release_connection c s.pool; held = before ++ after })
  releases_notifying :
      (s : Waiting) (before after : List (ℕ × ConnectionPtr)) (t : ℕ) (c : ConnectionPtr)
      (first last : List ℕ) (u : ℕ)
      → s.held ≡ before ++ (t, c) ∷ after
      → s.blocked ≡ first ++ u ∷ last
      → Step s (record s {
        pool = release_connection c s.pool;
        held = before ++ after;
        blocked = first ++ last;
        woken = u ∷ s.woken;
      })

pub data Reach (s : Waiting) : Waiting → Type 0 where
  here : Reach s s
  next : {t u : Waiting} → Reach s t → Step t u → Reach s u

-- Before the first call nobody waits.
abbrev pub start : Pool → Waiting
start p = record { pool = p; blocked = []; woken = []; held = [] }
