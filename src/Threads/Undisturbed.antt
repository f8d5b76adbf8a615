-- ===== src/Threads/Undisturbed.antt =====
-- A handler that runs to its end while the others wait.
use mathlib.Core.Path.{subst}
use app_server.Base.{◌≡◌, refl, false, arith, List, [], ◌∷◌, ◌++◌, done, ◌>>=◌, ap, ◌∙◌, Outcome}
use app_server.Environment.{Env, met, World}
use app_server.MysqlInteractor.{Connector}
use app_server.DataHandle.{handle_data}
use app_server.DataHandle.Conversation.{Arrival}
use app_server.Threads.{
  Program, returns, faults, selects, adds, generates, prepares, updates, queries, schedules,
  advance, run_alone,
}
use app_server.Threads.Handlers.{handle_data_steps}
use app_server.Threads.Sequential.{ended, run_alone-handle_data_steps}
use app_server.Threads.Machine.{Machine, Reach, acts, is_fault, has_crashed}

-- The thread in this place, with the others where they are.
abbrev pub at_work :
    {C : Connector}
    → (before after : List (Program C (Unit {0}))) → Program C (Unit {0})
    → World C
    → Machine C
at_work before after t w = record { world = w; threads = before ++ t ∷ after }

runs :
    {C : Connector} (before after : List (Program C (Unit {0}))) (t : Program C (Unit {0}))
    → is_fault t ≡ false
    → has_crashed (before ++ after) ≡ false
    → has_crashed (before ++ t ∷ after) ≡ false
runs [] after t h alive = rw (h, alive) refl
runs (b ∷ before) after t h alive = ground (arith, runs before after t h)

module _ (E : Env) (m : Machine E.connector) {arrivals : List Arrival}
    (before after : List (Program E.connector (Unit {0})))
    (alive : has_crashed (before ++ after) ≡ false) where
  pub run_alone-Reach :
      (t : Program E.connector (Unit {0})) (w w' : World E.connector)
      → run_alone t w ≡ done (tt, w')
      → Reach E m arrivals (at_work before after t w)
      → Reach E m arrivals (at_work before after (returns tt) w')
  unfolding run_alone advance
  run_alone-Reach (returns a) w w' h r =
      subst (λ u. Reach E m arrivals (at_work before after (returns tt) u)) (cc h) r
  run_alone-Reach (faults e) w w' h r = cc
  run_alone-Reach (selects uid k) w w' h r =
      run_alone-Reach (k _) w w' h
        (acts r before after (selects uid k) _ refl refl (runs before after _ refl alive))
  run_alone-Reach (adds place uid c t) w w' h r =
      run_alone-Reach t _ w' h
        (acts r before after (adds place uid c t) _ refl refl (runs before after _ refl alive))
  run_alone-Reach (generates k) w w' h r =
      run_alone-Reach (k _) _ w' h
        (acts r before after (generates k) _ refl refl (runs before after _ refl alive))
  run_alone-Reach (prepares query k) w w' h r =
      run_alone-Reach (k _) w w' h
        (acts r before after (prepares query k) _ refl refl (runs before after _ refl alive))
  run_alone-Reach (updates query bs k) w w' h r =
      run_alone-Reach (k _) _ w' h
        (acts r before after (updates query bs k) _ refl refl (runs before after _ refl alive))
  run_alone-Reach (queries query bs k) w w' h r =
      run_alone-Reach (k _) w w' h
        (acts r before after (queries query bs k) _ refl refl (runs before after _ refl alive))
  run_alone-Reach (schedules t u) w w' h r =
      run_alone-Reach u _ w' h
        (acts r before after (schedules t u) _ refl refl (runs before after _ refl alive))

  -- What the handler of the model does, its steps can do.
  pub handle_data-Reach :
      (a : Arrival) (w w' : World E.connector)
      → handle_data (met E a.moment) a.packet a.client w ≡ done w'
      → Reach E m arrivals
          (at_work before after (handle_data_steps (met E a.moment) a.packet a.client) w)
      → Reach E m arrivals (at_work before after (returns tt) w')
  handle_data-Reach a w w' h r =
      run_alone-Reach (handle_data_steps (met E a.moment) a.packet a.client) w w'
        (run_alone-handle_data_steps (met E a.moment) a.packet a.client w
          ∙ ap (λ (o : Outcome (World E.connector)). o >>= ended) h)
        r
