-- ===== src/MysqlConnectPool/Waiting/Wakeups.antt =====
-- No wake-up of a thread that waits for a connection is lost.
use app_server.Base.{
  ℕ, suc, ◌-◌, ◌<◌, ◌≤◌, ◌≡◌, refl, ap, List, [], ◌∷◌, ◌++◌, length, length-append, arith,
}
use app_server.MysqlConnectPool.{ConnectionPtr, Pool, get_connection, release_connection}
use app_server.MysqlConnectPool.Waiting.{
  Waiting, answer, test_queue, test, Step, calls, wakes, wakes_spuriously, times_out,
  times_out_woken, releases, releases_notifying, Reach, here, next, start,
}

-- While some thread waits, there are as many woken threads as connections to take, or more.
abbrev pub IsServing : Waiting → Type 0
IsServing s = 0 < length s.blocked → length s.pool.connections ≤ length s.woken

length-middle {ℓ} :
    {A : Type ℓ} (before after : List A) (a : A)
    → length (before ++ a ∷ after) ≡ suc (length (before ++ after))
length-middle before after a =
    omega (arith, length-append before (a ∷ after), length-append before after)

-- Taking from the queue shortens it, unless it is empty.
length-get_connection :
    (cs : List ConnectionPtr) (p : Pool)
    → p.connections ≡ cs
    → length (get_connection p).1.connections ≡ length cs - 1
unfolding get_connection
length-get_connection [] p e = rw (e, get_connection) (omega (arith, ap length e))
length-get_connection (c ∷ cs) p e = rw (e, get_connection) (omega arith)

pub length-answer :
    (t : ℕ) (s : Waiting) → length (answer t s).pool.connections ≡ length s.pool.connections - 1
unfolding answer
length-answer t s = length-get_connection s.pool.connections s.pool refl

test_queue-IsServing :
    (cs : List ConnectionPtr) (t : ℕ) (s : Waiting)
    → s.pool.connections ≡ cs
    → (0 < length s.blocked → length s.pool.connections ≤ suc (length s.woken))
    → IsServing (test_queue cs t s)
unfolding test_queue answer
test_queue-IsServing [] t s e h = λ k. omega (arith, ap length e)
test_queue-IsServing (c ∷ cs) t s e h = λ k. omega (arith, length-answer t s, h k)

test-IsServing :
    (t : ℕ) (s : Waiting)
    → (0 < length s.blocked → length s.pool.connections ≤ suc (length s.woken))
    → IsServing (test t s)
unfolding test
test-IsServing t s h = test_queue-IsServing s.pool.connections t s refl h

pub Step-IsServing : {s u : Waiting} → Step s u → IsServing s → IsServing u
unfolding answer release_connection
Step-IsServing (calls s t) h = test-IsServing t s λ k. omega (arith, h k)
Step-IsServing (wakes s before after t e) h =
    test-IsServing t (record s { woken = before ++ after })
      λ k. omega (arith, h k, ap length e, length-middle before after t)
Step-IsServing (wakes_spuriously s before after t e) h =
    λ k. omega (arith, h (omega (arith, ap length e, length-middle before after t)))
Step-IsServing (times_out s before after t e) h = λ k. omega (
  arith,
  length-answer t (record s { blocked = before ++ after }),
  h (omega (arith, ap length e, length-middle before after t)),
)
Step-IsServing (times_out_woken s before after t e) h = λ k. omega (
  arith,
  length-answer t (record s { woken = before ++ after }),
  h k,
  ap length e,
  length-middle before after t,
)
Step-IsServing (releases s before after t c e b) h = λ k. omega (arith, ap length b)
Step-IsServing (releases_notifying s before after t c first last u e b) h =
    let waited = length-middle first last u in
    λ k.
      omega
        (arith, length-append s.pool.connections (c ∷ []), h (omega (arith, ap length b, waited)))

-- From a start where nobody waits, after any calls of getConnection, releases, wake-ups and
-- time-outs in any order: as long as a thread waits, at least as many threads are woken and will
-- test the queue as it has connections.
pub Reach-woken :
    (p : Pool) {s : Waiting}
    → Reach (start p) s
    → 0 < length s.blocked
    → length s.pool.connections ≤ length s.woken
Reach-woken p here k = omega arith
Reach-woken p (next r st) k = Step-IsServing st (Reach-woken p r) k
