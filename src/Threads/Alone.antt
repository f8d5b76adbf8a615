-- ===== src/Threads/Alone.antt =====
-- A handler that no other interrupts.
use app_server.Base.{ℕ, ◌≡◌, refl, ap, ◌∙◌, Option, List, Text, arith, Outcome, done, fault, ◌>>=◌}
use app_server.Environment.{World}
use app_server.Message.{Memory}
use app_server.MysqlInteractor.{
  Connector, Dao, Columns, Bindings, run_update, run_query, prepare_statement, insert, update,
  remove, select, select_all,
}
use app_server.MysqlInteractor.UsersDao.{
  select_info_due_user_name, select_info_due_id, get_all_user_public_info,
}
use app_server.MysqlInteractor.FriendShipDao.{
  select2, select_all_friend_ship, select_all_friend_apply, change_friend_ship_status,
  remove_friendship,
}
use app_server.Threads
use app_server.Threads.{
  Program, returns, faults, selects, adds, generates, prepares, updates, queries, schedules, lift,
  run_alone,
}
use app_server.Threads.Statements.{
  prepare_statement_steps, run_update_steps, run_query_steps, insert_steps,
  select_info_due_user_name_steps, select_info_due_id_steps, get_all_user_public_info_steps,
  select_all_friend_ship_steps, select_all_friend_apply_steps, change_friend_ship_status_steps,
  remove_friendship_steps,
}

module _ {C : Connector} where
  run_alone->>= :
      {A B : Type 0} (m : Program C A) (f : A → Program C B) (w : World C)
      → run_alone (Threads.◌>>=◌ m f) w ≡ (run_alone m w >>= λ r. run_alone (f r.0) r.1)
  unfolding run_alone Threads.◌>>=◌
  run_alone->>= (returns a) f w = refl
  run_alone->>= (faults e) f w = refl
  run_alone->>= (selects uid k) f w = run_alone->>= (k _) f w
  run_alone->>= (adds place uid c m) f w = run_alone->>= m f _
  run_alone->>= (generates k) f w = run_alone->>= (k _) f _
  run_alone->>= (prepares query k) f w = run_alone->>= (k _) f w
  run_alone->>= (updates query bs k) f w = run_alone->>= (k _) f _
  run_alone->>= (queries query bs k) f w = run_alone->>= (k _) f w
  run_alone->>= (schedules t m) f w = run_alone->>= m f _

  -- The answer and the state after a function of the model.
  abbrev pub ends : {X A : Type 0} → (X → A) → (X → World C) → Outcome X → Outcome (A × World C)
  ends v u o = o >>= λ x. done (v x, u x)

  bind_done :
      {X Y A B : Type 0} (o : Outcome X) (v : X → A) (u : X → World C) (f : A → Program C B)
      (k : X → Outcome Y) (h : Y → Outcome (B × World C))
      → ((x : X) → run_alone (f (v x)) (u x) ≡ (k x >>= h))
      → (ends v u o >>= λ r. run_alone (f r.0) r.1) ≡ ((o >>= k) >>= h)
  bind_done (done x) v u f k h e = e x
  bind_done (fault e') v u f k h e = refl

  -- A part that runs like a function of the model, and what follows it.
  pub then_alone :
      {X Y A B : Type 0} (m : Program C A) (o : Outcome X) (v : X → A) (u : X → World C)
      (f : A → Program C B) (k : X → Outcome Y) (h : Y → Outcome (B × World C)) (w : World C)
      → run_alone m w ≡ ends v u o
      → ((x : X) → run_alone (f (v x)) (u x) ≡ (k x >>= h))
      → run_alone (Threads.◌>>=◌ m f) w ≡ ((o >>= k) >>= h)
  then_alone m o v u f k h w first rest =
      run_alone->>= m f w
      ∙ ap (λ o. o >>= λ r. run_alone (f r.0) r.1) first
      ∙ bind_done o v u f k h rest

  pub lift_alone :
      {Y A B : Type 0} (o : Outcome A) (f : A → Program C B) (k : A → Outcome Y)
      (h : Y → Outcome (B × World C)) (w : World C)
      → ((a : A) → run_alone (f a) w ≡ (k a >>= h))
      → run_alone (Threads.◌>>=◌ (lift o) f) w ≡ ((o >>= k) >>= h)
  unfolding lift run_alone Threads.◌>>=◌
  lift_alone (done a) f k h w e = e a
  lift_alone (fault e') f k h w e = refl

module _ (C : Connector) (dao : Dao) (w : World C) where
  pub run_query_alone :
      (query : Text) (bs : Bindings)
      → run_alone (run_query_steps C dao query bs) w
        ≡ ends (λ r. r) (λ r. w) (run_query C dao query bs w.db)
  unfolding run_query_steps run_query prepare_statement prepare_statement_steps run_alone
      Threads.◌>>=◌
  run_query_alone query bs = ground arith

  pub run_update_alone :
      (query : Text) (bs : Outcome Bindings)
      → run_alone (run_update_steps C dao query bs) w
        ≡ ends (λ r. r.0) (λ r. record w { db = r.1 }) (run_update C dao query bs w.db)
  unfolding run_update_steps run_update prepare_statement prepare_statement_steps run_alone
      Threads.◌>>=◌ lift
  run_update_alone query bs = ground arith

-- What a reading function of the model does, with the state kept.
abbrev pub Reads : {A : Type 0} (C : Connector) → Program C A → (C.Db → Outcome A) → Type 0
Reads {A} C m f = (w : World C) → run_alone m w ≡ ends (λ r. r) (λ r. w) (f w.db)

-- A query whose result is only converted.
converted_alone :
    {A : Type 0} (C : Connector) (dao : Dao) (query : Text) (bs : Bindings)
    (g : Option (List C.Row) → A)
    → Reads C
        (Threads.◌>>=◌ (run_query_steps C dao query bs) (λ r. returns (g r)))
        (λ db. run_query C dao query bs db >>= λ r. done (g r))
unfolding run_alone
converted_alone C dao query bs g w =
    then_alone (run_query_steps C dao query bs) (run_query C dao query bs w.db) (λ r. r) (λ r. w)
      (λ r. returns (g r)) (λ r. done (g r)) (λ x. done (x, w)) w (run_query_alone C dao w query bs)
      (λ r. refl)

module _ (C : Connector) (dao : Dao) where
  pub insert_alone :
      (columns : Columns) (w : World C)
      → run_alone (insert_steps C dao columns) w
        ≡ ends (λ r. r.0) (λ r. record w { db = r.1 }) (insert C dao columns w.db)
  unfolding insert insert_steps
  insert_alone columns w = run_update_alone C dao w _ _

  pub change_status_alone :
      (friend_id own_id : ℕ) (status : Text) (w : World C)
      → run_alone (change_friend_ship_status_steps C dao friend_id own_id status) w
        ≡ ends
            (λ r. r.0)
            (λ r. record w { db = r.1 })
            (change_friend_ship_status C dao friend_id own_id status w.db)
  unfolding change_friend_ship_status change_friend_ship_status_steps update
  change_status_alone friend_id own_id status w = run_update_alone C dao w _ _

  pub remove_alone :
      (friend_id own_id : ℕ) (w : World C)
      → run_alone (remove_friendship_steps C dao friend_id own_id) w
        ≡ ends
            (λ r. r.0)
            (λ r. record w { db = r.1 })
            (remove_friendship C dao friend_id own_id w.db)
  unfolding remove_friendship remove_friendship_steps remove
  remove_alone friend_id own_id w = run_update_alone C dao w _ _

  pub select_name_alone :
      (memory : Memory) (name : Text)
      → Reads C
          (select_info_due_user_name_steps C memory dao name)
          (select_info_due_user_name C memory dao name)
  unfolding select_info_due_user_name select_info_due_user_name_steps select
  select_name_alone memory name = converted_alone C dao _ _ _

  pub select_id_alone :
      (memory : Memory) (id : ℕ)
      → Reads C (select_info_due_id_steps C memory dao id) (select_info_due_id C memory dao id)
  unfolding select_info_due_id select_info_due_id_steps select
  select_id_alone memory id = converted_alone C dao _ _ _

  pub all_users_alone :
      Reads C (get_all_user_public_info_steps C dao) (get_all_user_public_info C dao)
  unfolding get_all_user_public_info get_all_user_public_info_steps select_all
  all_users_alone = converted_alone C dao _ _ _

  pub friends_alone :
      (id : ℕ) → Reads C (select_all_friend_ship_steps C dao id) (select_all_friend_ship C dao id)
  unfolding select_all_friend_ship select_all_friend_ship_steps select2
  friends_alone id = converted_alone C dao _ _ _

  pub applications_alone :
      (id : ℕ) → Reads C (select_all_friend_apply_steps C dao id) (select_all_friend_apply C dao id)
  unfolding select_all_friend_apply select_all_friend_apply_steps select2
  applications_alone id = converted_alone C dao _ _ _
