-- ===== src/Tests/Threads.antt =====
-- The pool of connections at concrete inputs: threads that wait, a database that refuses, and the start of the
-- program.
use mathlib.Core.List.{Nodup, filter_map, not-mem-nil}
use mathlib.Core.List.Pairwise
use app_server.MysqlConnectPool.{get_connection}
use app_server.MysqlConnectPool.Conservation.{live, owned}
use app_server.MysqlConnectPool.Waiting.{answer}
use app_server.MysqlConnectPool.Waiting.Exclusive.{without_threads, Reach-Nodup}
use app_server.Base.{
  ℕ, ◌<◌, ◌≤◌, ◌≡◌, refl, Bool, true, false, none, some, [], ◌∷◌, literal, length, arith, ltb, not,
}
use app_server.MysqlConnectPool.{Driver, Pool, new_config, release_connection}
use app_server.MysqlConnectPool.Waiting.{
  Waiting, test, test_queue, Reach, here, next, calls, releases_notifying,
}
use app_server.MysqlConnectPool.Waiting
use app_server.MysqlConnectPool.Waiting.Wakeups.{Reach-woken}
use app_server.MysqlConnectPool.Waiting.Served.{Runs, IsServed, total, Reach-IsServed}
use app_server.Main.{new_server, look_up_any, bind, sleep, start, run}
use app_server.Main.Startup.{run_starts}
use app_server.MysqlInteractor.Lifetime.{construct, destroy, Crashes, construct_timed_out}
use app_server.Tests.Tables.{sample_connector}

abbrev empty_pool : Pool
empty_pool = record { connections = []; info = new_config; max_connect = 0 }

-- The thread 3 gets the one connection, the threads 1 and 2 wait, and the connection is released.
abbrev one_pool : Pool
one_pool = record empty_pool { connections = some 5 ∷ []; max_connect = 1 }

abbrev both_wait : Waiting
both_wait = record (Waiting.start empty_pool) {
  pool = record one_pool { connections = [] };
  held = (3, some 5) ∷ [];
  blocked = 2 ∷ 1 ∷ [];
}

abbrev one_woken : Waiting
one_woken = record both_wait {
  pool = release_connection (some 5) (record one_pool { connections = [] });
  held = [];
  blocked = 1 ∷ [];
  woken = 2 ∷ [];
}

one_woken-Reach : Reach (Waiting.start one_pool) one_woken
unfolding test test_queue answer get_connection
one_woken-Reach =
    let s₁ = test 3 (Waiting.start one_pool) in
    let s₂ = test 1 s₁ in
    let first = next here (calls (Waiting.start one_pool) 3) in
    let second = next first (calls s₁ 1) in
    let third = next second (calls s₂ 2) in
    next third (releases_notifying both_wait [] [] 3 (some 5) [] (1 ∷ []) 2 refl refl)

Reach-woken_example : length one_woken.pool.connections ≤ length one_woken.woken
Reach-woken_example = Reach-woken one_pool one_woken-Reach (omega arith)

Reach-IsServed_example : (u : Waiting) × Runs one_woken u × IsServed u × (total u ≡ total one_woken)
Reach-IsServed_example = Reach-IsServed one_pool one_woken-Reach

five_once : Nodup (live (some 5 ∷ []))
unfolding filter_map
five_once = Pairwise.cons (λ a m. absurd (not-mem-nil m)) Pairwise.nil

Reach-Nodup_example : Nodup (live (owned (without_threads one_woken)))
Reach-Nodup_example = Reach-Nodup one_pool five_once one_woken-Reach

-- `bind` fails twice.
abbrev third : ℕ → Bool
third n = not (ltb n 2)

third_fails : (j : ℕ) → j < 2 → third j ≡ false
third_fails j h = ground arith

run_starts_example :
    run third 9
    ≡ some (
        new_server
        ∷ look_up_any (literal "0.0.0.0:12345")
        ∷ bind
        ∷ sleep 2
        ∷ bind
        ∷ sleep 2
        ∷ bind
        ∷ start
        ∷ [])
run_starts_example = run_starts third 9 2 (omega arith) third_fails refl

-- A driver that opens no connection.
abbrev refusing : Driver
refusing = record { connect = λ n host user password. none; set_schema = λ c database. true }

construct_timed_out_example :
    let (dao, p) = construct refusing (some new_config) (literal "users") (some empty_pool) in
    let p' = destroy refusing (some new_config) dao (some p) in
    Crashes sample_connector dao
    × (p'.connections ≡ none ∷ [])
    × Crashes sample_connector
        (construct refusing (some new_config) (literal "friendships") (some p')).0
construct_timed_out_example =
    construct_timed_out refusing (some new_config) sample_connector (literal "users")
      (literal "friendships") empty_pool refl
