-- ===== src/Main/Startup.antt =====
-- How the server comes up, and which pool the program has.
use mathlib.Core.List.{append_assoc}
use app_server.Base.{
  ℕ, zero, suc, ◌+◌, ◌<◌, ◌≤◌, ◌≡◌, refl, Bool, true, false, Option, none, some, List, [], ◌∷◌,
  ◌++◌, literal, arith,
}
use app_server.MysqlConnectPool.{
  MySqlInfo, Driver, Pool, get_instance, new_pool, new_config, get_config, set_ip, set_user_name,
  set_password, set_database, sql_set_ip, sql_set_name, sql_set_password, sql_set_database,
  sql_get_sql_info,
}
use app_server.Main.{Call, new_server, look_up_any, bind, start, sleep, bind_loop, run, main_config}

-- k attempts that failed.
abbrev pub failures : ℕ → List Call
failures zero = []
failures (suc k) = bind ∷ sleep 2 ∷ failures k

bind_loop_lem :
    (binds : ℕ → Bool) (fuel k n m : ℕ) (calls : List Call)
    → m ≡ n + k
    → k < fuel
    → ((j : ℕ) → n ≤ j → j < m → binds j ≡ false)
    → binds m ≡ true
    → bind_loop binds fuel n calls ≡ some (calls ++ (failures k ++ bind ∷ []))
unfolding bind_loop
bind_loop_lem binds zero k n m calls e h fails works = elim h [ ]
bind_loop_lem binds (suc fuel) zero n m calls e h fails works =
    let same : n ≡ m = omega arith in rw (same, works) refl
bind_loop_lem binds (suc fuel) (suc k) n m calls e h fails works =
    let waits = fails n (omega arith) (omega arith) in
    rw (
      waits,
      bind_loop_lem binds fuel k (suc n) m (calls ++ bind ∷ sleep 2 ∷ []) (omega arith)
          (omega arith) (λ j i. fails j (omega arith)) works,
      append_assoc calls (bind ∷ sleep 2 ∷ []) (failures k ++ bind ∷ []),
    )

bind_loop_fails :
    (binds : ℕ → Bool) (fuel n : ℕ) (calls : List Call)
    → ((j : ℕ) → j < n + fuel → binds j ≡ false)
    → bind_loop binds fuel n calls ≡ none
unfolding bind_loop
bind_loop_fails binds zero n calls fails = refl
bind_loop_fails binds (suc fuel) n calls fails = rw (
  fails n (omega arith),
  bind_loop_fails binds fuel (suc n) (calls ++ bind ∷ sleep 2 ∷ []) λ j h. fails j (omega arith),
)

-- When `bind` fails k times and then succeeds, the loop of `run` ends after k rounds of two
-- seconds, and then the server is started; the bound on the rounds only has to be greater than k.
pub run_starts :
    (binds : ℕ → Bool) (fuel k : ℕ)
    → k < fuel
    → ((j : ℕ) → j < k → binds j ≡ false)
    → binds k ≡ true
    → run binds fuel
      ≡ some
          (new_server ∷ look_up_any (literal "0.0.0.0:12345") ∷ (failures k ++ bind ∷ start ∷ []))
unfolding run
run_starts binds fuel k h fails works = rw (
  bind_loop_lem binds fuel k 0 k _ (omega arith) h (λ j _. fails j) works,
  append_assoc (failures k) (bind ∷ []) (start ∷ []),
)

-- As long as `bind` fails it is called again: no bound on the rounds ends the loop.
run_waits :
    (binds : ℕ → Bool) (fuel : ℕ) → ((j : ℕ) → j < fuel → binds j ≡ false) → run binds fuel ≡ none
unfolding run
run_waits binds fuel fails = rw (bind_loop_fails binds fuel 0 _ (λ j h. fails j (omega arith)))

-- The pool after calls of getInstance, each with the configuration at that time and its arguments.
abbrev instances : Driver → List (Option MySqlInfo × MySqlInfo × ℕ) → Option Pool → Option Pool
instances driver [] p = p
instances driver ((config, info, n) ∷ rest) p =
    instances driver rest (some (get_instance driver config info n p))

instances_kept :
    (driver : Driver) (calls : List (Option MySqlInfo × MySqlInfo × ℕ)) (p : Pool)
    → instances driver calls (some p) ≡ some p
unfolding get_instance
instances_kept driver [] p = refl
instances_kept driver (c ∷ rest) p = instances_kept driver rest p

-- Whatever calls of getInstance follow the first, with whatever arguments and configuration, the
-- pool is the one of the first call, opened with the settings of main and not with the argument.
instances-main_config :
    (driver : Driver) (info : MySqlInfo) (n : ℕ) (calls : List (Option MySqlInfo × MySqlInfo × ℕ))
    → instances driver ((main_config, info, n) ∷ calls) none
      ≡ some (
          new_pool driver
            (record {
              host = literal "tcp://127.0.0.1:3306";
              user = literal "root";
              password = literal "myq";
              database = literal "app_info";
            })
            n)
unfolding get_instance main_config new_config get_config sql_set_ip sql_set_name sql_set_password
    sql_set_database set_ip set_user_name set_password set_database
instances-main_config driver info n calls =
    instances_kept driver calls (new_pool driver (sql_get_sql_info main_config) n)
