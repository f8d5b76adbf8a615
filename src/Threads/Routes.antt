-- ===== src/Threads/Routes.antt =====
-- The connection manager while handlers run at once.
use app_server.Base.{ℕ, ◌≡◌, some, List, inl, inr, Option-cases, arith}
use app_server.Environment.{Env, World}
use app_server.MysqlInteractor.{Connector}
use app_server.DataHandle.Conversation.{Arrival}
use app_server.UserConnectionManager.{Manager, select_user, find}
use app_server.UserConnectionManager.Invariant.{IsValid}
use app_server.UserConnectionManager.Routing.{routes}
use app_server.Server.Managers.{Changes, keeps, adds}
use app_server.Server.Validity.{Changes-IsValid, Changes-routes}
use app_server.Threads.{
  Program, returns, faults, selects, generates, prepares, updates, queries, schedules, advance,
}
use app_server.Threads
use app_server.Threads.Updates.{by_answer}
use app_server.Threads.Machine.{Machine, Reach, begins, arrives, acts}

module _ {C : Connector} {A : Type 0} where
  -- One access adds a user, or leaves the manager alone.
  pub advance-Changes :
      (t : Program C A) (w : World C) (r : Program C A × World C)
      → advance t w ≡ some r
      → Changes w.manager r.1.manager
  unfolding advance
  advance-Changes (returns a) w r h = cc
  advance-Changes (faults e) w r h = cc
  advance-Changes (selects uid k) w r h = by_answer (λ r. Changes w.manager r.1.manager) h keeps
  advance-Changes (Threads.adds place uid c m) w r h =
      by_answer (λ r. Changes w.manager r.1.manager) h (adds place uid c)
  advance-Changes (generates k) w r h = by_answer (λ r. Changes w.manager r.1.manager) h keeps
  advance-Changes (prepares query k) w r h = by_answer (λ r. Changes w.manager r.1.manager) h keeps
  advance-Changes (updates query bs k) w r h =
      by_answer (λ r. Changes w.manager r.1.manager) h keeps
  advance-Changes (queries query bs k) w r h =
      by_answer (λ r. Changes w.manager r.1.manager) h keeps
  advance-Changes (schedules t m) w r h = by_answer (λ r. Changes w.manager r.1.manager) h keeps

-- A user's socket, by what selectUser returns.
routes_of_select :
    (uid c : ℕ) (m : Manager) → select_user uid m ≡ some c → routes m uid ≡ some (some c)
unfolding select_user routes
routes_of_select uid c m h = elim (Option-cases (find uid m.connect_info)) [
  | inl missing ↦ ground arith
  | inr (i, e) ↦ ground arith
]

select_of_routes :
    (uid c : ℕ) (m : Manager) → routes m uid ≡ some (some c) → select_user uid m ≡ some c
unfolding select_user routes
select_of_routes uid c m h = elim (Option-cases (find uid m.connect_info)) [
  | inl missing ↦ ground arith
  | inr (i, e) ↦ ground arith
]

pub Changes-select_user :
    (uid c : ℕ) {m m' : Manager}
    → Changes m m'
    → select_user uid m ≡ some c
    → select_user uid m' ≡ some c
Changes-select_user uid c {m} {m'} ch h =
    select_of_routes uid c m' (Changes-routes uid (some c) ch (routes_of_select uid c m h))

module _ (E : Env) (m : Machine E.connector) where
  -- However the steps of handlers interleave, with any packets that arrive: connections that were
  -- valid are valid.
  pub Reach-IsValid :
      {arrivals : List Arrival} {s : Machine E.connector}
      → Reach E m arrivals s
      → IsValid m.world.manager
      → IsValid s.world.manager
  Reach-IsValid begins v = v
  Reach-IsValid (arrives r a alive) v = Reach-IsValid r v
  Reach-IsValid (acts {s} r before after t n e steps alive) v =
      Changes-IsValid (advance-Changes t s.world n steps) (Reach-IsValid r v)

  pub Reach-select_user :
      {arrivals : List Arrival} {s : Machine E.connector} (uid c : ℕ)
      → Reach E m arrivals s
      → select_user uid m.world.manager ≡ some c
      → select_user uid s.world.manager ≡ some c
  Reach-select_user uid c begins h = h
  Reach-select_user uid c (arrives r a alive) h = Reach-select_user uid c r h
  Reach-select_user uid c (acts {s} r before after t n e steps alive) h =
      Changes-select_user uid c (advance-Changes t s.world n steps) (Reach-select_user uid c r h)
