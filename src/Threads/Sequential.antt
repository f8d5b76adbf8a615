-- ===== src/Threads/Sequential.antt =====
-- A handler that no other interrupts does what the handler of the model does.
use app_server.Base.{
  ℕ, suc, ◌≡◌, refl, Bool, true, false, Option, none, some, List, [], ◌∷◌, Bytes, Outcome, done,
  ◌>>=◌, if◌then◌else◌, or_fault, thrown,
}
use app_server.Packet.{TcpPacket, c_string, serialize, reply}
use app_server.UserConnectionManager.{SocketPtr, add_user, select_user}
use app_server.MysqlInteractor.{Connector}
use app_server.MysqlInteractor.UsersDao.{UsersTableData}
use app_server.DataHandle.{
  Env, World, handle_data, handle_chat_message, handle_login_message, handle_reg_message,
  respond_reg, handle_verify_code, handle_add_friend_req, inform, handle_delete_friend,
  handle_friend_confirm, log_in, private_info_of, public_infos_of, schedule, send, Task,
}
use app_server.Threads
use app_server.Threads.{Program, returns, selects, generates, adds, schedules, run_alone, lift}
use app_server.Threads.Alone.{
  Reads, then_alone, lift_alone, insert_alone, change_status_alone, remove_alone, select_name_alone,
  select_id_alone, all_users_alone, friends_alone, applications_alone,
}
use app_server.Threads.Handlers.{
  sends, handle_data_steps, handle_chat_message_steps, handle_login_message_steps,
  handle_reg_message_steps, respond_reg_steps, handle_verify_code_steps,
  handle_add_friend_req_steps, inform_steps, handle_delete_friend_steps,
  handle_friend_confirm_steps, log_in_steps, private_info_of_steps, public_infos_of_steps,
}

module _ {C : Connector} where
  -- The end of a handler, which returns nothing.
  abbrev pub ended : World C → Outcome (Unit {0} × World C)
  ended w = done (tt, w)

  abbrev RunsAs : Program C (Unit {0}) → World C → Outcome (World C) → Type 0
  RunsAs m w o = run_alone m w ≡ (o >>= ended)

  if_alone :
      (b : Bool) (m n : Program C (Unit {0})) (m' n' : Outcome (World C)) (w : World C)
      → RunsAs m w m'
      → RunsAs n w n'
      → RunsAs (if b then m else n) w (if b then m' else n')
  if_alone true m n m' n' w first second = first
  if_alone false m n m' n' w first second = second

  found_alone :
      {A : Type 0} (o : Option A) (m : Program C (Unit {0})) (f : A → Program C (Unit {0}))
      (m' : Outcome (World C)) (f' : A → Outcome (World C)) (w : World C)
      → RunsAs m w m'
      → ((a : A) → RunsAs (f a) w (f' a))
      → RunsAs
          (elim o as (λ _. Program C (Unit {0})) [ none ↦ m | some a ↦ f a ])
          w
          (elim o as (λ _. Outcome (World C)) [ none ↦ m' | some a ↦ f' a ])
  found_alone none m f m' f' w first rest = first
  found_alone (some a) m f m' f' w first rest = rest a

returns-Reads : {C : Connector} {A : Type 0} (a : A) → Reads C (returns a) (λ db. done a)
unfolding run_alone
returns-Reads a w = refl

-- One reading part after another.
then-Reads :
    {C : Connector} {A B : Type 0} (m : Program C A) (f : C.Db → Outcome A) (k : A → Program C B)
    (g : A → C.Db → Outcome B)
    → Reads C m f
    → ((a : A) → Reads C (k a) (g a))
    → Reads C (Threads.◌>>=◌ m k) (λ db. f db >>= λ a. g a db)
then-Reads m f k g first rest w =
    then_alone m (f w.db) (λ r. r) (λ r. w) k (λ a. g a w.db) (λ b. done (b, w)) w (first w)
      (λ a. rest a w)

module _ {C : Connector} {B : Type 0} (w : World C) {o : Outcome (B × World C)} where
  selects_alone :
      (uid : ℕ) (f : SocketPtr → Program C B)
      → run_alone (f (select_user uid w.manager)) w ≡ o
      → run_alone (Threads.◌>>=◌ (selects uid returns) f) w ≡ o
  unfolding run_alone Threads.◌>>=◌
  selects_alone uid f h = h

  generates_alone :
      (f : ℕ → Program C B)
      → run_alone (f w.codes) (record w { codes = suc w.codes }) ≡ o
      → run_alone (Threads.◌>>=◌ (generates returns) f) w ≡ o
  unfolding run_alone Threads.◌>>=◌
  generates_alone f h = h

  adds_alone :
      (place uid : ℕ) (c : SocketPtr) (f : Unit {0} → Program C B)
      → run_alone (f tt) (record w { manager = (add_user place uid c w.manager).0 }) ≡ o
      → run_alone (Threads.◌>>=◌ (adds place uid c (returns tt)) f) w ≡ o
  unfolding run_alone Threads.◌>>=◌
  adds_alone place uid c f h = h

  schedules_alone :
      (t : Task) (f : Unit {0} → Program C B)
      → run_alone (f tt) (schedule t w) ≡ o
      → run_alone (Threads.◌>>=◌ (schedules t (returns tt)) f) w ≡ o
  unfolding run_alone Threads.◌>>=◌
  schedules_alone t f h = h

module _ (E : Env) where
  sends_alone :
      (c : ℕ) (bytes : Bytes) (w : World E.connector)
      → RunsAs (sends E c bytes) w (done (schedule (send (some c) bytes) w))
  unfolding run_alone
  sends_alone c bytes w = refl

  returns_alone : (w : World E.connector) → RunsAs (returns tt) w (done w)
  unfolding run_alone
  returns_alone w = refl

  -- What each handler does to answer: the text, the packet, and the task.
  answers_alone :
      (f c : ℕ) (j : E.json.Json) (w : World E.connector)
      → RunsAs
          (Threads.◌>>=◌
            (lift (or_fault thrown (E.json.dump j)))
            (λ body. Threads.◌>>=◌ (lift (reply E.memory.array f body)) (sends E c)))
          w
          (or_fault thrown (E.json.dump j) >>= λ body.
            reply E.memory.array f body >>= λ bytes. done (schedule (send (some c) bytes) w))
  answers_alone f c j w =
      lift_alone _ _ _ ended w (λ body. lift_alone _ _ _ ended w (λ bytes. sends_alone c bytes w))

  module _ (p : TcpPacket) (c : ℕ) (w : World E.connector) where
    chat_alone : RunsAs (handle_chat_message_steps E p c) w (handle_chat_message E p c w)
    unfolding handle_chat_message_steps handle_chat_message
    chat_alone = lift_alone (c_string p.body) _ _ ended w (λ source. selects_alone w _ _ (
        found_alone _ _ _ _ _ w
          (lift_alone (serialize p) _ _ ended w (λ bytes. sends_alone c bytes w))
          (λ receiver. answers_alone 0x01 receiver _ w)))

    verify_alone : RunsAs (handle_verify_code_steps E p c) w (handle_verify_code E p c w)
    unfolding handle_verify_code_steps handle_verify_code
    verify_alone = lift_alone (c_string p.body) _ _ ended w (λ source.
        generates_alone w _ (if_alone _ _ _ _ _ _ (answers_alone 0x07 c _ _) (sends_alone c _ _)))

    delete_alone : RunsAs (handle_delete_friend_steps E p c) w (handle_delete_friend E p c w)
    unfolding handle_delete_friend_steps handle_delete_friend
    delete_alone = lift_alone (c_string p.body) _ _ ended w (λ source.
        then_alone _ _ _ _ _ _ ended w (remove_alone E.connector E.friend_ship_dao _ _ w)
          (λ r. returns_alone _))

    confirm_alone : RunsAs (handle_friend_confirm_steps E p c) w (handle_friend_confirm E p c w)
    unfolding handle_friend_confirm_steps handle_friend_confirm
    confirm_alone = lift_alone (c_string p.body) _ _ ended w (λ source.
        if_alone _ _ _ _ _ w
          (then_alone _ _ _ _ _ _ ended w
            (change_status_alone E.connector E.friend_ship_dao _ _ _ w) (λ r. returns_alone _))
          (then_alone _ _ _ _ _ _ ended w (remove_alone E.connector E.friend_ship_dao _ _ w)
            (λ r. returns_alone _)))

    reg_alone : RunsAs (handle_reg_message_steps E p c) w (handle_reg_message E p c w)
    unfolding handle_reg_message_steps handle_reg_message respond_reg_steps respond_reg
    reg_alone = lift_alone (c_string p.body) _ _ ended w (λ source.
        then_alone _ _ _ _ _ _ ended w (insert_alone E.connector E.users_dao _ w)
          (λ r. if_alone _ _ _ _ _ _ (answers_alone 0x05 c _ _) (answers_alone 0x05 c _ _)))

  inform_alone :
      (own friend : ℕ) (w : World E.connector)
      → RunsAs (inform_steps E own friend) w (inform E own friend w)
  unfolding inform_steps inform
  inform_alone own friend w =
      then_alone _ _ _ _ _ _ ended w (select_id_alone E.connector E.users_dao E.memory own w)
        (λ user. answers_alone 0xc friend _ w)

  add_friend_alone :
      (p : TcpPacket) (c : ℕ) (w : World E.connector)
      → RunsAs (handle_add_friend_req_steps E p c) w (handle_add_friend_req E p c w)
  unfolding handle_add_friend_req_steps handle_add_friend_req
  add_friend_alone p c w = lift_alone (c_string p.body) _ _ ended w (λ source.
      then_alone _ _ _ _ _ _ ended w (insert_alone E.connector E.friend_ship_dao _ w) (λ r.
        selects_alone _ _ _ (
          lift_alone _ _ _ ended _
            (λ friend. if_alone _ _ _ _ _ _ (inform_alone _ friend _) (returns_alone _)))))

  public_infos_alone :
      (ids : List ℕ) → Reads E.connector (public_infos_of_steps E ids) (public_infos_of E ids)
  unfolding public_infos_of_steps public_infos_of
  public_infos_alone [] = returns-Reads []
  public_infos_alone (id ∷ ids) =
      then-Reads _ _ _ _ (select_id_alone E.connector E.users_dao E.memory id)
        (λ user. then-Reads _ _ _ _ (public_infos_alone ids) (λ rest. returns-Reads _))

  private_info_alone :
      (user : UsersTableData)
      → Reads E.connector (private_info_of_steps E user) (private_info_of E user)
  unfolding private_info_of_steps private_info_of
  private_info_alone user =
      then-Reads _ _ _ _ (friends_alone E.connector E.friend_ship_dao user.id) (λ friends.
        then-Reads _ _ _ _ (public_infos_alone friends) (λ friend_list.
          then-Reads _ _ _ _ (applications_alone E.connector E.friend_ship_dao user.id)
            (λ applications.
              then-Reads _ _ _ _ (public_infos_alone applications)
                (λ friend_apply. returns-Reads _))))

  log_in_alone :
      (user : UsersTableData) (c : ℕ) (w : World E.connector)
      → RunsAs (log_in_steps E user c) w (log_in E user c w)
  unfolding log_in_steps log_in
  log_in_alone user c w =
      then_alone _ _ _ _ _ _ ended w (private_info_alone user w) (λ private_info.
        then_alone _ _ _ _ _ _ ended w (all_users_alone E.connector E.users_dao w) (λ cache.
          lift_alone _ _ _ ended w (λ body. lift_alone _ _ _ ended w (λ body_cache.
            lift_alone _ _ _ ended w (λ res. lift_alone _ _ _ ended w (λ packet_cache.
              adds_alone _ _ _ _ _ (
                lift_alone _ _ _ ended _ (λ bytes.
                  schedules_alone _ _ _
                    (lift_alone _ _ _ ended _ (λ bytes_cache. sends_alone c _ _))))))))))

  login_alone :
      (p : TcpPacket) (c : ℕ) (w : World E.connector)
      → RunsAs (handle_login_message_steps E p c) w (handle_login_message E p c w)
  unfolding handle_login_message_steps handle_login_message
  login_alone p c w = lift_alone (c_string p.body) _ _ ended w (λ source.
      then_alone _ _ _ _ _ _ ended w (select_name_alone E.connector E.users_dao E.memory _ w)
        (λ user. if_alone _ _ _ _ _ w (log_in_alone user c w) (returns_alone w)))

  -- For every packet and state: the steps of its handler, one after the other with no other thread
  -- in between, end as the handler of the sequential model does, with the same state or the same
  -- fault.
  pub run_alone-handle_data_steps :
      (p : TcpPacket) (c : ℕ) (w : World E.connector)
      → run_alone (handle_data_steps E p c) w ≡ (handle_data E p c w >>= ended)
  unfolding handle_data_steps handle_data
  run_alone-handle_data_steps p c w = if_alone _ _ _ _ _ w (chat_alone p c w) (
      if_alone _ _ _ _ _ w (login_alone p c w) (
        if_alone _ _ _ _ _ w (reg_alone p c w) (
          if_alone _ _ _ _ _ w (verify_alone p c w) (
            if_alone _ _ _ _ _ w (add_friend_alone p c w) (
              if_alone _ _ _ _ _ w (delete_alone p c w)
                (if_alone _ _ _ _ _ w (confirm_alone p c w) (returns_alone w)))))))
