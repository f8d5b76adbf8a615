-- ===== src/MysqlConnectPool/Waiting/Served.antt =====
-- The threads that wait for a connection get one.
use app_server.Base.{ℕ, ◌+◌, ◌≡◌, refl, ap, ◌∙◌, List, [], ◌∷◌, length, arith, ◌⊎◌, inl, inr}
use app_server.MysqlConnectPool.{ConnectionPtr, Pool, get_connection}
use app_server.MysqlConnectPool.Waiting.{Waiting, answer, test_queue, test, wakes, Reach, start}
use app_server.MysqlConnectPool.Waiting.Wakeups.{
  IsServing, length-answer, Step-IsServing, Reach-woken,
}

-- The woken threads test the queue, one after the other, and nothing else happens.
pub data Runs : Waiting → Waiting → Type 0 where
  stop : {s : Waiting} → Runs s s
  resume :
      {s u : Waiting} (t : ℕ) (rest : List ℕ)
      → s.woken ≡ t ∷ rest
      → Runs (test t (record s { woken = rest })) u
      → Runs s u

-- No connection is left, or no thread waits.
abbrev pub IsServed : Waiting → Type 0
IsServed s = (s.pool.connections ≡ []) ⊎ ((s.blocked ≡ []) × (s.woken ≡ []))

-- What the threads hold and what is still in the queue.
abbrev pub total : Waiting → ℕ
total s = length s.held + length s.pool.connections

-- A thread that finds a connection takes it.
test_some :
    (t : ℕ) (s : Waiting) (c : ConnectionPtr) (cs : List ConnectionPtr)
    → s.pool.connections ≡ c ∷ cs
    → test t s ≡ answer t s
unfolding test test_queue
test_some t s c cs e = rw (e, test_queue) refl

total-answer :
    (t : ℕ) (s : Waiting) (c : ConnectionPtr) (cs : List ConnectionPtr)
    → s.pool.connections ≡ c ∷ cs
    → total (answer t s) ≡ total s
unfolding answer
total-answer t s c cs e = omega (arith, length-answer t s, ap length e)

connections-answer :
    (t : ℕ) (s : Waiting) (c : ConnectionPtr) (cs : List ConnectionPtr)
    → s.pool.connections ≡ c ∷ cs
    → (answer t s).pool.connections ≡ cs
unfolding answer get_connection
connections-answer t s c cs e = rw (e, get_connection) refl

-- Nobody is blocked while a connection is there and nobody is woken.
unblocked :
    (bs : List ℕ) (c : ConnectionPtr) (cs : List ConnectionPtr) (s : Waiting)
    → s.blocked ≡ bs
    → s.woken ≡ []
    → s.pool.connections ≡ c ∷ cs
    → IsServing s
    → s.blocked ≡ []
unblocked [] c cs s b e f h = b
unblocked (t ∷ ts) c cs s b e f h =
    absurd (omega (arith, h (omega (arith, ap length b)), ap length e, ap length f))

abbrev Serves : Waiting → Type 0
Serves s = (u : Waiting) × Runs s u × IsServed u × (total u ≡ total s)

serves :
    (ts : List ℕ) (cs : List ConnectionPtr) (s : Waiting)
    → s.woken ≡ ts
    → s.pool.connections ≡ cs
    → IsServing s
    → Serves s
unfolding answer
serves ts [] s e f h = (s, stop, inl f, refl)
serves [] (c ∷ cs) s e f h = (s, stop, inr (unblocked s.blocked c cs s refl e f h, e), refl)
serves (t ∷ ts) (c ∷ cs) s e f h =
    let s' : Waiting = record s { woken = ts } in
    let taken = test_some t s' c cs f in
    let (u, runs, end, kept) =
      serves ts cs (test t s') (ap (λ x. x.woken) taken)
        (ap (λ x. x.pool.connections) taken ∙ connections-answer t s' c cs f)
        (Step-IsServing (wakes s [] ts t e) h) in
    (u, resume t ts e runs, end, kept ∙ ap total taken ∙ total-answer t s' c cs f)

-- In every state that calls of getConnection, releases, wake-ups and time-outs lead to from a start
-- where nobody waits: when the woken threads test the queue one after the other, and nothing else
-- happens, that ends with an empty queue or with no thread that waits, and every connection that
-- left the queue was returned to a thread.
pub Reach-IsServed :
    (p : Pool) {s : Waiting}
    → Reach (start p) s
    → (u : Waiting) × Runs s u × IsServed u × (total u ≡ total s)
Reach-IsServed p {s} r = serves s.woken s.pool.connections s refl refl (Reach-woken p r)
