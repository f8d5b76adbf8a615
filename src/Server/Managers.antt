-- ===== src/Server/Managers.antt =====
-- What one step of the server does to the connection manager.
use mathlib.Core.Path.{subst}
use app_server.Base.{
  ℕ, suc, zero, ◌≡◌, sym, ap, ◌∙◌, inl, inr, Bool, true, false, ℤ, pos, negsuc, Option, none, some,
  ◌++◌, Bytes, done, arith, >>=-eq-done,
}
use app_server.Packet.{ByteArray, decode}
use app_server.UserConnectionManager.{SocketPtr, Manager, add_user, change_online}
use app_server.DataHandle.{Env, met, handle_data}
use app_server.DataHandle.Frame.{handle_data_manager}
use app_server.Server.{
  Server, make, reset_timer, Read, handle_read, handle_client, wathc_io_read,
  send_message_to_client, start_accpet, timer_expires,
}
use app_server.Server.Reader.{
  Loop, Step, accepts, fires, watches, drops, sends, expires, with_events,
}

-- Nothing, an addition, or a mark of a socket as online.
pub data Changes (m : Manager) : Manager → Type 0 where
  keeps : Changes m m
  adds : (place uid : ℕ) (client : SocketPtr) → Changes m (add_user place uid client m).0
  marks : (client : SocketPtr) → Changes m (change_online client m)

keeps_of : {m m' : Manager} → m' ≡ m → Changes m m'
keeps_of {m} e = subst (Changes m) (sym e) keeps

module _ (E : Env) (ba : ByteArray) where
  handled-Changes :
      (c : ℕ) (r : ℤ × Bytes) (s s' : Server E.connector)
      → handle_read E ba c r s ≡ done s'
      → Changes s.world.manager s'.world.manager
  unfolding handle_read
  handled-Changes c (pos zero, bytes) s s' h = keeps_of (ground arith)
  handled-Changes c (negsuc n, bytes) s s' h = keeps_of (ground arith)
  handled-Changes c (pos (suc n), bytes) s s' h =
      let (p, _, h₁) = >>=-eq-done (decode ba bytes) _ h in
      let (w, handles, h₂) = >>=-eq-done (handle_data E p c s.world) _ h₁ in
      let same : s'.world.manager ≡ w.manager = ground arith in
      elim (handle_data_manager E p c s.world w handles) [
        | inl kept ↦ keeps_of (same ∙ kept)
        | inr (uid, added) ↦
            subst (Changes s.world.manager) (sym (same ∙ added)) (adds E.place uid (some c))
      ]

  fired-Changes :
      (c : ℕ) (read : Read) (s s' : Server E.connector)
      → handle_client E ba c read s ≡ done s'
      → Changes s.world.manager s'.world.manager
  unfolding handle_client
  fired-Changes c read s s' h = handled-Changes c (read 4096) (make (reset_timer c) s) s' h

module _ (E : Env) (ba : ByteArray) where
  watched_manager :
      (c : ℕ) (get_socket : ℕ → ℕ) (s : Server E.connector)
      → (wathc_io_read get_socket c s).world.manager ≡ s.world.manager
  unfolding wathc_io_read
  watched_manager c get_socket s = ground arith

  accepted_manager :
      (client : Option ℕ) (connected : Bool) (s s' : Server E.connector)
      → start_accpet client connected s ≡ done s'
      → s'.world.manager ≡ s.world.manager
  unfolding start_accpet
  accepted_manager none connected s s' h = cc
  accepted_manager (some c) false s s' h = ground arith
  accepted_manager (some c) true s s' h = ground arith

  pub Step-Changes :
      {l m : Loop E} → Step E ba l m → Changes l.server.world.manager m.server.world.manager
  unfolding send_message_to_client timer_expires
  Step-Changes (accepts l client connected s e) =
      keeps_of (accepted_manager client connected l.server s e)
  Step-Changes (fires {l} {m} k c read f) =
      fired-Changes (met E k) ba c read (with_events E ba (f.before ++ f.after) l.server) m.server
        f.handles
  Step-Changes (watches l before after c get_socket e open') =
      keeps_of (watched_manager c get_socket _)
  Step-Changes (drops l before after c get_socket e shut) =
      keeps_of (watched_manager c get_socket _)
  Step-Changes (sends c bytes st) = keeps_of (ap (λ l. l.server.world.manager) st.becomes)
  Step-Changes (expires l c) = marks (some c)
