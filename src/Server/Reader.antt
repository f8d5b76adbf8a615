-- ===== src/Server/Reader.antt =====
-- Who reads a socket next: every step of the server, in any order of its tasks and events.
use mathlib.Core.Path.{subst}
use app_server.Base.{
  ℕ, zero, suc, ◌+◌, ◌≡◌, ◌≢◌, refl, sym, Bool, true, false, Option, none, some, List, [], ◌∷◌,
  ◌++◌, Bytes, ℤ, pos, negsuc, done, arith, ◌==◌, if◌then◌else◌, >>=-eq-done,
}
use app_server.Packet.{ByteArray, decode}
use app_server.DataHandle.{Env, Moment, met, World, Task, send, watch_read, schedule, handle_data}
use app_server.DataHandle.Sends.{
  count_if, count_if-middle, count_if-last, is_reader, handle_data-readers,
}
use app_server.Server.{
  Call, reset_timer, close, add_socket, add_read, write, delete_socket, Server, make, Read, IsRead,
  handle_read, handle_client, wathc_io_read, send_message_to_client, start_accpet, timer_expires,
}

abbrev is_close : ℕ → Call → Bool
is_close c (close d) = c == d
is_close c _ = false

abbrev is_accept : ℕ → Call → Bool
is_accept c (add_socket d) = c == d
is_accept c _ = false

done-inj {ℓ} : {A : Type ℓ} {a b : A} → done a ≡ done b → a ≡ b
done-inj h = cc

module _ (E : Env) (ba : ByteArray) where
  -- What a fired event leaves behind: one task, or a closed socket.
  abbrev Fired : ℕ → ℕ → Server E.connector → Server E.connector → Type 0
  Fired c d s s' =
      (count_if (is_reader d) s'.world.scheduled + count_if (is_close d) s'.calls
        ≡ count_if (is_reader d) s.world.scheduled
          + count_if (is_close d) s.calls
          + (if d == c then 1 else 0))
      × (count_if (is_accept d) s'.calls ≡ count_if (is_accept d) s.calls)
      × (s'.events ≡ s.events)

  closed : (c d : ℕ) (s : Server E.connector) → Fired c d s (make (close c) s)
  closed c d s =
      let last = count_if-last (is_close d) (close c) s.calls in
      let last' = count_if-last (is_accept d) (close c) s.calls in
      (omega (arith, last), omega (arith, last'), refl)

  handled :
      (c d : ℕ) (s : Server E.connector) (w : World E.connector)
      → count_if (is_reader d) w.scheduled ≡ count_if (is_reader d) s.world.scheduled
      → Fired c d s (record s { world = schedule (watch_read (some c)) w })
  handled c d s w h =
      let task = count_if-last (is_reader d) (watch_read (some c)) w.scheduled in
      (omega (arith, task), refl, refl)

  handle_read-Fired :
      (c d : ℕ) (r : ℤ × Bytes) (s s' : Server E.connector)
      → handle_read E ba c r s ≡ done s'
      → Fired c d s s'
  unfolding handle_read
  handle_read-Fired c d (pos zero, bytes) s s' h = subst (Fired c d s) (done-inj h) (closed c d s)
  handle_read-Fired c d (negsuc n, bytes) s s' h = subst (Fired c d s) (done-inj h) (closed c d s)
  handle_read-Fired c d (pos (suc n), bytes) s s' h =
      let (p, _, h₁) = >>=-eq-done (decode ba bytes) _ h in
      let (w, handles, h₂) = >>=-eq-done (handle_data E p c s.world) _ h₁ in
      subst (Fired c d s) (done-inj h₂)
        (handled c d s w (handle_data-readers E p c d s.world w handles))

  fired :
      (c d : ℕ) (read : Read) (s s' : Server E.connector)
      → handle_client E ba c read s ≡ done s'
      → Fired c d s s'
  unfolding handle_client
  fired c d read s s' h =
      let (step, accepts', same) =
        handle_read-Fired c d (read 4096) (make (reset_timer c) s) s' h in
      let first = count_if-last (is_close d) (reset_timer c) s.calls in
      let first' = count_if-last (is_accept d) (reset_timer c) s.calls in
      (omega (arith, step, first), omega (arith, accepts', first'), same)

-- `dropped`: the sockets that wathcIoRead found without a descriptor. The tasks that wait are `scheduled`
-- of the world.
pub record Loop (E : Env) : Type 0 where
  pub server : Server E.connector
  pub dropped : List ℕ

module _ (E : Env) (ba : ByteArray) where
  abbrev pub with_tasks : List Task → Server E.connector → Server E.connector
  with_tasks ts s = record s { world = record s.world { scheduled = ts } }

  abbrev pub with_events : List ℕ → Server E.connector → Server E.connector
  with_events es s = record s { events = es }

  -- The READ event of this socket fires at this moment, and handleClient gets this from the socket.
  pub record Fires (k : Moment) (c : ℕ) (read : Read) (l m : Loop E) : Type 0 where
    pub before : List ℕ
    pub after : List ℕ
    pub reads : IsRead read
    pub event : l.server.events ≡ before ++ c ∷ after
    pub handles :
        handle_client (met E k) ba c read (with_events (before ++ after) l.server) ≡ done m.server
    pub others : m.dropped ≡ l.dropped

  -- The task that writes these bytes to this socket runs.
  pub record Sends (c : ℕ) (bytes : Bytes) (l m : Loop E) : Type 0 where
    pub before : List Task
    pub after : List Task
    pub waits : l.server.world.scheduled ≡ before ++ send (some c) bytes ∷ after
    pub becomes : m ≡ record l {
      server = send_message_to_client c bytes (with_tasks (before ++ after) l.server);
    }

  -- A connection is accepted, the event of a socket fires, any one of the waiting tasks runs, or a timer expires.
  pub data Step : Loop E → Loop E → Type 0 where
    accepts :
        (l : Loop E) (client : Option ℕ) (connected : Bool) (s : Server E.connector)
        → start_accpet client connected l.server ≡ done s
        → Step l (record l { server = s })
    fires : {l m : Loop E} (k : Moment) (c : ℕ) (read : Read) → Fires k c read l m → Step l m
    watches :
        (l : Loop E) (before after : List Task) (c : ℕ) (get_socket : ℕ → ℕ)
        → l.server.world.scheduled ≡ before ++ watch_read (some c) ∷ after
        → get_socket c ≢ 0
        → Step l (record l {
          server = wathc_io_read get_socket c (with_tasks (before ++ after) l.server);
        })
    drops :
        (l : Loop E) (before after : List Task) (c : ℕ) (get_socket : ℕ → ℕ)
        → l.server.world.scheduled ≡ before ++ watch_read (some c) ∷ after
        → get_socket c ≡ 0
        → Step l (record l {
          server = wathc_io_read get_socket c (with_tasks (before ++ after) l.server);
          dropped = c ∷ l.dropped;
        })
    sends : {l m : Loop E} (c : ℕ) (bytes : Bytes) → Sends c bytes l m → Step l m
    expires : (l : Loop E) (c : ℕ) → Step l (record l { server = timer_expires c l.server })

  pub data Reach (l : Loop E) : Loop E → Type 0 where
    here : Reach l l
    next : {m n : Loop E} → Reach l m → Step m n → Reach l n

  -- The events and tasks that will read the socket, and the ways in which it stopped being read.
  abbrev pub readers : ℕ → Loop E → ℕ
  readers c l = count_if (◌==◌ c) l.server.events + count_if (is_reader c) l.server.world.scheduled

  abbrev pub ended : ℕ → Loop E → ℕ
  ended c l = count_if (is_close c) l.server.calls + count_if (◌==◌ c) l.dropped

  abbrev pub accepted : ℕ → Loop E → ℕ
  accepted c l = count_if (is_accept c) l.server.calls

  -- Each accepted connection has exactly one of these: an event or a task that will read it, a close,
  -- or a wathcIoRead that found no descriptor.
  abbrev IsBalanced : ℕ → Loop E → Type 0
  IsBalanced c l = readers c l + ended c l ≡ accepted c l

  accepted-IsBalanced :
      (c : ℕ) (l : Loop E) (client : Option ℕ) (connected : Bool) (s : Server E.connector)
      → start_accpet client connected l.server ≡ done s
      → IsBalanced c l
      → IsBalanced c (record l { server = s })
  unfolding count_if start_accpet
  accepted-IsBalanced c l none connected s e h = cc
  accepted-IsBalanced c l (some d) false s e h =
      subst (λ s. IsBalanced c (record l { server = s })) (done-inj e) h
  accepted-IsBalanced c l (some d) true s e h =
      subst (λ s. IsBalanced c (record l { server = s })) (done-inj e)
        (grind (arith, count_if-last (is_close c), count_if-last (is_accept c)))

  sent-IsBalanced :
      (c d : ℕ) (bytes : Bytes) (l m : Loop E) → Sends d bytes l m → IsBalanced c l → IsBalanced c m
  unfolding count_if send_message_to_client
  sent-IsBalanced c d bytes l m st h =
      let middle = count_if-middle (is_reader c) (send (some d) bytes) st.before st.after in
      let waiting = rw (st.waits, middle) at h in
      subst (IsBalanced c) (sym st.becomes) (
        omega (
          arith,
          count_if-last (is_close c) (write d bytes) l.server.calls,
          count_if-last (is_accept c) (write d bytes) l.server.calls,
        ))

  Step-accepted : (c : ℕ) {l m : Loop E} → Step l m → IsBalanced c l → IsBalanced c m
  unfolding count_if wathc_io_read timer_expires
  Step-accepted c (accepts l client connected s e) h =
      accepted-IsBalanced c l client connected s e h
  Step-accepted c (fires {l} {m} k d read f) h =
      let (step, same, kept) =
        fired (met E k) ba d c read (with_events (f.before ++ f.after) l.server) m.server
          f.handles in
      let middle = count_if-middle (◌==◌ c) d f.before f.after in
      let armed = rw (f.event, middle) at h in rw (kept, f.others) (omega arith)
  Step-accepted c (watches l before after d get_socket e open') h =
      let middle = count_if-middle (is_reader c) (watch_read (some d)) before after in
      let waiting = rw (e, middle) at h in
      let found : (get_socket d == 0) ≡ false = ground arith in
      rw found (
        omega (
          arith,
          count_if-last (is_close c) (add_read d) l.server.calls,
          count_if-last (is_accept c) (add_read d) l.server.calls,
        ))
  Step-accepted c (drops l before after d get_socket e shut) h =
      let middle = count_if-middle (is_reader c) (watch_read (some d)) before after in
      let waiting = rw (e, middle) at h in
      let found : (get_socket d == 0) ≡ true = ground arith in rw found (omega arith)
  Step-accepted c (sends {l} {m} d bytes st) h = sent-IsBalanced c d bytes l m st h
  Step-accepted c (expires l d) h = omega (
    arith,
    count_if-last (is_close c) (delete_socket d) l.server.calls,
    count_if-last (is_accept c) (delete_socket d) l.server.calls,
  )

  -- The server before the first connection, with any database and any manager.
  abbrev pub start : World E.connector → Loop E
  start w = record {
    server = record { world = record w { scheduled = [] }; calls = []; events = [] };
    dropped = [];
  }

  Reach-accepted_from : (c : ℕ) {l m : Loop E} → IsBalanced c l → Reach l m → IsBalanced c m
  Reach-accepted_from c h here = h
  Reach-accepted_from c h (next r st) = Step-accepted c st (Reach-accepted_from c h r)

  -- From the start, after any accepts, events, tasks and timers in any order: for each socket, the
  -- READ events that addEvent set and that did not fire yet and the waiting tasks that will read
  -- it, together with the closes and with the calls of wathcIoRead that found no descriptor, are as
  -- many as the times that it was accepted.
  pub Reach-accepted :
      (c : ℕ) (w : World E.connector) {m : Loop E}
      → Reach (start w) m
      → readers c m + ended c m ≡ accepted c m
  unfolding count_if
  Reach-accepted c w r = Reach-accepted_from c (omega arith) r
