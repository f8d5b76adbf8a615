-- ===== src/MysqlConnectPool/Waiting/Exclusive.antt =====
-- Whom the connections belong to, whatever the threads do.
use mathlib.Core.List.{Nodup, map-append, append-nil}
use mathlib.Core.List.Perm
use app_server.Base.{ℕ, ◌≡◌, ap, ◌∙◌, List, [], ◌∷◌, ◌++◌, map}
use app_server.MysqlConnectPool.{ConnectionPtr, Pool, release_connection}
use app_server.MysqlConnectPool.Conservation
use app_server.MysqlConnectPool.Conservation.{System, take_connection, live, owned, Reach-perm}
use app_server.MysqlConnectPool.Waiting.{
  Waiting, answer, test_queue, test, Step, calls, wakes, wakes_spuriously, times_out,
  times_out_woken, releases, releases_notifying, Reach, here, next, start,
}

-- The pool and what is held, without the threads.
abbrev pub without_threads : Waiting → System
without_threads s = record { pool = s.pool; held = map (λ h. h.1) s.held }

-- One step of the threads is one step of the objects that hold connections, or none.
abbrev Follows : Waiting → Waiting → Type 0
Follows s u = Conservation.Reach (without_threads s) (without_threads u)

answer-Follows : (t : ℕ) (s : Waiting) → Follows s (answer t s)
unfolding answer
answer-Follows t s =
    Conservation.next Conservation.here (Conservation.construct (without_threads s))

test_queue-Follows : (cs : List ConnectionPtr) (t : ℕ) (s : Waiting) → Follows s (test_queue cs t s)
unfolding test_queue
test_queue-Follows [] t s = Conservation.here
test_queue-Follows (c ∷ cs) t s = answer-Follows t s

release-Follows :
    (s : Waiting) (before after : List (ℕ × ConnectionPtr)) (t : ℕ) (c : ConnectionPtr)
    → s.held ≡ before ++ (t, c) ∷ after
    → Conservation.Reach
        (without_threads s)
        (record { pool = release_connection c s.pool; held = map (λ h. h.1) (before ++ after) })
release-Follows s before after t c e =
    let split = ap (map (λ h. h.1)) e ∙ map-append (λ h. h.1) before ((t, c) ∷ after) in
    rw (map-append (λ h. h.1) before after) (
      Conservation.next Conservation.here (
        Conservation.destroy (without_threads s) (map (λ h. h.1) before) (map (λ h. h.1) after) c
          split))

Step-Follows : {s u : Waiting} → Step s u → Follows s u
unfolding test
Step-Follows (calls s t) = test_queue-Follows s.pool.connections t s
Step-Follows (wakes s before after t e) =
    test_queue-Follows s.pool.connections t (record s { woken = before ++ after })
Step-Follows (wakes_spuriously s before after t e) = Conservation.here
Step-Follows (times_out s before after t e) =
    answer-Follows t (record s { blocked = before ++ after })
Step-Follows (times_out_woken s before after t e) =
    answer-Follows t (record s { woken = before ++ after })
Step-Follows (releases s before after t c e b) = release-Follows s before after t c e
Step-Follows (releases_notifying s before after t c first last u e b) =
    release-Follows s before after t c e

chain : {s t u : System} → Conservation.Reach s t → Conservation.Reach t u → Conservation.Reach s u
chain r Conservation.here = r
chain r (Conservation.next q st) = Conservation.next (chain r q) st

-- Whatever the threads that share the pool do, in any order of calls, releases, wake-ups and
-- time-outs, data access objects that get and release connections one at a time could have done too.
pub Reach-without_threads :
    {s u : Waiting} → Reach s u → Conservation.Reach (without_threads s) (without_threads u)
Reach-without_threads here = Conservation.here
Reach-without_threads (next r st) = chain (Reach-without_threads r) (Step-Follows st)

-- From a start where the pool has every connection once and nobody waits, after any calls of
-- getConnection, releases, wake-ups and time-outs in any order: no connection is held by two
-- threads, or is held and in the queue.
pub Reach-Nodup :
    (p : Pool) {s : Waiting}
    → Nodup (live p.connections)
    → Reach (start p) s
    → Nodup (live (owned (without_threads s)))
Reach-Nodup p once r =
    Perm.nodup (Perm.symm (Reach-perm (Reach-without_threads r)))
      (rw (append-nil p.connections) once)
