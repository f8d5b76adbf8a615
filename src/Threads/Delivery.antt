-- ===== src/Threads/Delivery.antt =====
-- A chat message while other handlers run.
use mathlib.Core.List.{Mem, mem-append_left, mem-append_right, mem-cons_self}
use mathlib.Core.Path.{subst}
use app_server.Base.{
  ℕ, ◌≡◌, ◌<◌, refl, Bool, true, Option, some, List, [], ◌∷◌, ◌++◌, Text, Bytes, done, length, inl,
  inr, ◌⊎◌, arith,
}
use app_server.Packet.{TcpPacket, ByteArray, IsByteArray, body_capacity, reply}
use app_server.Json.{IsJsonLibrary}
use app_server.Environment.{Env, Task, send, met, World}
use app_server.Message.{Message, chat, message_code}
use app_server.Message.Chat
use app_server.Message.Chat.{Info, IsInfo}
use app_server.UserConnectionManager.{SocketPtr, select_user}
use app_server.MysqlInteractor.{Connector}
use app_server.DataHandle.ChatRouting.{incoming, cast-incoming}
use app_server.DataHandle.Delivery.{Delivers, Delivers-reply}
use app_server.DataHandle.Incoming.{Carries}
use app_server.DataHandle.Conversation.{Arrival}
use app_server.Threads
use app_server.Threads.{
  Program, returns, faults, selects, adds, generates, prepares, updates, queries, schedules, lift,
  advance,
}
use app_server.Threads.Updates.{by_answer}
use app_server.Threads.Handlers.{handle_data_steps, handle_chat_message_steps}
use app_server.Threads.Machine.{Machine, Reach, begins, arrives, acts, arrived, has_crashed}
use app_server.Threads.Routes.{Reach-select_user}
use app_server.Threads.Ends.{HasEnded, AllEnded, Inevitable, Reach-Inevitable}

module _ {C : Connector} {A : Type 0} where
  -- Where this user has this socket, the thread does not end before it has scheduled the task.
  unfoldable pub WillSchedule : (uid c : ℕ) → Task → Program C A → Type 0
  WillSchedule uid c goal (returns a) = ⊥
  WillSchedule uid c goal (faults e) = ⊥
  WillSchedule uid c goal (selects u k) =
      (r : SocketPtr) → (u ≡ uid → r ≡ some c) → WillSchedule uid c goal (k r)
  WillSchedule uid c goal (adds place u d m) = WillSchedule uid c goal m
  WillSchedule uid c goal (generates k) = (n : ℕ) → WillSchedule uid c goal (k n)
  WillSchedule uid c goal (prepares query k) = (b : Bool) → WillSchedule uid c goal (k b)
  WillSchedule uid c goal (updates query bs k) = (b : Bool) → WillSchedule uid c goal (k b)
  WillSchedule uid c goal (queries query bs k) =
      (r : Option (List C.Row)) → WillSchedule uid c goal (k r)
  WillSchedule uid c goal (schedules t m) = (t ≡ goal) ⊎ WillSchedule uid c goal m

  not-WillSchedule :
      (uid c : ℕ) (goal : Task) (t : Program C A) → HasEnded t → WillSchedule uid c goal t → ⊥
  unfolding HasEnded WillSchedule
  not-WillSchedule uid c goal (returns a) e h = h
  not-WillSchedule uid c goal (faults f) e h = h
  not-WillSchedule uid c goal _ e h = absurd e

  -- The task is scheduled, or will be.
  abbrev Goes : ℕ → ℕ → Task → Program C A × World C → Type 0
  Goes uid c goal r = WillSchedule uid c goal r.0 ⊎ Mem goal r.1.scheduled

  advance-Goes :
      (uid c : ℕ) (goal : Task) (t : Program C A) (w : World C) (r : Program C A × World C)
      → select_user uid w.manager ≡ some c
      → WillSchedule uid c goal t
      → advance t w ≡ some r
      → Goes uid c goal r
  unfolding WillSchedule advance
  advance-Goes uid c goal (returns a) w r s q h = absurd q
  advance-Goes uid c goal (faults e) w r s q h = absurd q
  advance-Goes uid c goal (selects u k) w r s q h =
      by_answer (Goes uid c goal) h (inl (q _ (λ e. rw e s)))
  advance-Goes uid c goal (adds place u d m) w r s q h = by_answer (Goes uid c goal) h (inl q)
  advance-Goes uid c goal (generates k) w r s q h = by_answer (Goes uid c goal) h (inl (q _))
  advance-Goes uid c goal (prepares query k) w r s q h = by_answer (Goes uid c goal) h (inl (q _))
  advance-Goes uid c goal (updates query bs k) w r s q h = by_answer (Goes uid c goal) h (inl (q _))
  advance-Goes uid c goal (queries query bs k) w r s q h = by_answer (Goes uid c goal) h (inl (q _))
  advance-Goes uid c goal (schedules t m) w r s q h = by_answer (Goes uid c goal) h (elim q [
    | inl same ↦ inr (rw same (mem-append_right w.scheduled mem-cons_self))
    | inr later ↦ inl later
  ])

  advance-scheduled :
      (goal : Task) (t : Program C A) (w : World C) (r : Program C A × World C)
      → Mem goal w.scheduled
      → advance t w ≡ some r
      → Mem goal r.1.scheduled
  unfolding advance
  advance-scheduled goal (returns a) w r m h = cc
  advance-scheduled goal (faults e) w r m h = cc
  advance-scheduled goal (selects u k) w r m h = by_answer (λ r. Mem goal r.1.scheduled) h m
  advance-scheduled goal (adds place u d t) w r m h = by_answer (λ r. Mem goal r.1.scheduled) h m
  advance-scheduled goal (generates k) w r m h = by_answer (λ r. Mem goal r.1.scheduled) h m
  advance-scheduled goal (prepares query k) w r m h = by_answer (λ r. Mem goal r.1.scheduled) h m
  advance-scheduled goal (updates query bs k) w r m h = by_answer (λ r. Mem goal r.1.scheduled) h m
  advance-scheduled goal (queries query bs k) w r m h = by_answer (λ r. Mem goal r.1.scheduled) h m
  advance-scheduled goal (schedules t k) w r m h =
      by_answer (λ r. Mem goal r.1.scheduled) h (mem-append_left (t ∷ []) m)

-- One of the threads will.
abbrev SomeSchedules : {C : Connector} → ℕ → ℕ → Task → List (Program C (Unit {0})) → Type 0
SomeSchedules uid c goal [] = ⊥
SomeSchedules uid c goal (t ∷ ts) = WillSchedule uid c goal t ⊎ SomeSchedules uid c goal ts

not-SomeSchedules :
    {C : Connector} (uid c : ℕ) (goal : Task) (ts : List (Program C (Unit {0})))
    → AllEnded ts
    → SomeSchedules uid c goal ts
    → ⊥
not-SomeSchedules uid c goal [] e h = h
not-SomeSchedules uid c goal (t ∷ ts) e (inl h) = not-WillSchedule uid c goal t e.0 h
not-SomeSchedules uid c goal (t ∷ ts) e (inr h) = not-SomeSchedules uid c goal ts e.1 h

acts-SomeSchedules :
    {C : Connector} (uid c : ℕ) (goal : Task) (before after : List (Program C (Unit {0})))
    (t : Program C (Unit {0})) (w : World C) (r : Program C (Unit {0}) × World C)
    → select_user uid w.manager ≡ some c
    → advance t w ≡ some r
    → SomeSchedules uid c goal (before ++ t ∷ after)
    → SomeSchedules uid c goal (before ++ r.0 ∷ after) ⊎ Mem goal r.1.scheduled
acts-SomeSchedules uid c goal [] after t w r s e (inl q) =
    elim (advance-Goes uid c goal t w r s q e) [ inl later ↦ inl (inl later) | inr m ↦ inr m ]
acts-SomeSchedules uid c goal [] after t w r s e (inr other) = inl (inr other)
acts-SomeSchedules uid c goal (b ∷ before) after t w r s e (inl q) = inl (inl q)
acts-SomeSchedules uid c goal (b ∷ before) after t w r s e (inr q) =
    elim (acts-SomeSchedules uid c goal before after t w r s e q) [
      | inl later ↦ inl (inr later)
      | inr m ↦ inr m
    ]

module _ (E : Env) (m : Machine E.connector) (uid c : ℕ) (goal : Task)
    (set : select_user uid m.world.manager ≡ some c) where
  Reach-SomeSchedules :
      {arrivals : List Arrival} {s : Machine E.connector}
      → Reach E m arrivals s
      → SomeSchedules uid c goal m.threads
      → SomeSchedules uid c goal s.threads ⊎ Mem goal s.world.scheduled
  Reach-SomeSchedules begins h = inl h
  Reach-SomeSchedules (arrives r a alive) h = elim (Reach-SomeSchedules r h) [
    | inl later ↦ inl (inr later)
    | inr done' ↦ inr done'
  ]
  Reach-SomeSchedules (acts {s} r before after t n e steps alive) h =
      elim (Reach-SomeSchedules r h) [
        | inr done' ↦ inr (advance-scheduled goal t s.world n done' steps)
        | inl later ↦
            acts-SomeSchedules uid c goal before after t s.world n
              (Reach-select_user E m uid c r set) steps (subst (SomeSchedules uid c goal) e later)
      ]

  Reach-scheduled :
      {arrivals : List Arrival} {s : Machine E.connector}
      → Reach E m arrivals s
      → AllEnded s.threads
      → SomeSchedules uid c goal m.threads
      → Mem goal s.world.scheduled
  Reach-scheduled {s} r ended h = elim (Reach-SomeSchedules r h) [
    | inl later ↦ absurd (not-SomeSchedules uid c goal s.threads ended later)
    | inr m ↦ m
  ]

module _ (E : Env) (p : TcpPacket) (client : ℕ) (i : Info) where
  chat_steps :
      p.func_id ≡ 0x01 → handle_data_steps E p client ≡ handle_chat_message_steps E p client
  unfolding handle_data_steps
  chat_steps f = rw f

  chat-WillSchedule :
      (c : ℕ) (body : Text) (bytes : Bytes)
      → Carries E.json (Chat.info_from_json E.json) p i
      → E.json.dump (Chat.to_json E.json (incoming E i)) ≡ some body
      → reply E.memory.array 0x01 body ≡ done bytes
      → WillSchedule i.uid_receiver c (send (some c) bytes) (handle_chat_message_steps E p client)
  unfolding handle_chat_message_steps lift WillSchedule Threads.◌>>=◌
  chat-WillSchedule c body bytes h dumps replies =
      rw (h.reads, cast-incoming E p i h)
        (λ r e. rw (e refl, cast-incoming E p i h, dumps, replies) (inl refl))

-- The process has ended by a fault of a handler, or the task is scheduled.
abbrev pub Answered : {C : Connector} → Task → Machine C → Type 0
Answered goal s = (has_crashed s.threads ≡ true) ⊎ Mem goal s.world.scheduled

-- A chat packet arrives whose body carries a message for a user with a registered socket, where the
-- text of the answer exists and is shorter than the array of a packet. From every state that the
-- steps of all handlers lead to in any order, with any packets that arrive meanwhile, and whichever
-- handler makes each of the next steps: before the handlers come to an end, a fault of one of them
-- has ended the process, or bytes are scheduled for that socket from which a reader, whatever
-- follows them, takes the content, names and ids that the sender gave.
pub chat_is_scheduled :
    (E : Env) (ba : ByteArray) (m : Machine E.connector) (a : Arrival) (i : Info) (receiver : ℕ)
    (body : Text) {arrivals : List Arrival} {s : Machine E.connector}
    → IsJsonLibrary E.json
    → IsByteArray ba
    → length a.moment.memory.array ≡ body_capacity
    → a.packet.func_id ≡ message_code chat
    → Carries E.json (Chat.info_from_json E.json) a.packet i
    → IsInfo i
    → select_user i.uid_receiver m.world.manager ≡ some receiver
    → E.json.dump (Chat.to_json E.json (incoming (met E a.moment) i)) ≡ some body
    → length body < body_capacity
    → Reach E (arrived E a m) arrivals s
    → (bytes : Bytes) × Delivers ba bytes 0x01
        (λ text. (n : Message Info) → Chat.cast_from_string E.json text n ≡ record n { info = i })
      × Inevitable (Answered (send (some receiver) bytes)) s
unfolding message_code
chat_is_scheduled E ba m a i receiver body {arrivals} {s} json ba_laws hm f h fits set dumps lt r =
    let E' = met E a.moment in
    let (bytes, replies, delivers) =
      Delivers-reply ba_laws
        (λ text. (n : Message Info) → Chat.cast_from_string E.json text n ≡ record n { info = i })
        a.moment.memory.array 0x01 body (omega arith) hm (json.dump-pos _ body dumps) lt
        (λ n. Chat.cast_from_string-dump json (incoming E' i) n body fits dumps) in
    let will : WillSchedule i.uid_receiver receiver (send (some receiver) bytes)
        (handle_data_steps E' a.packet a.client) =
      rw (chat_steps E' a.packet a.client i f)
        (chat-WillSchedule E' a.packet a.client i receiver body bytes h dumps replies) in
    (
      bytes,
      delivers,
      Reach-Inevitable E (arrived E a m) arrivals (Answered (send (some receiver) bytes))
          (λ s' r' ended. inr (
            Reach-scheduled E (arrived E a m) i.uid_receiver receiver (send (some receiver) bytes)
              set r' ended (inl will)))
          (λ s' crash. inl crash) s r,
    )
