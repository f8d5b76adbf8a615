-- ===== src/DataHandle/Login/Reachable.antt =====
-- Where messages for a user go after a login.
use mathlib.Core.Option
use app_server.Base.{
  ℕ, ◌≡◌, some, done, arith, ◌∙◌, sym, ◌==◌, ==_iff, if◌then◌else◌, Option-cases, Bool-cases, inl,
  inr,
}
use app_server.Packet.{TcpPacket}
use app_server.Message.LoginRequest
use app_server.UserConnectionManager.{SocketPtr, Manager, add_user, select_user}
use app_server.UserConnectionManager.Routing.{
  routes, spec_call, routes-add_user, select_user-routes,
}
use app_server.MysqlInteractor.UsersDao.{UsersTableData, select_info_due_user_name}
use app_server.DataHandle.{Env, World, handle_login_message}
use app_server.DataHandle.Incoming.{Carries}
use app_server.DataHandle.Frame.{log_in_manager}
use app_server.DataHandle.Login.Accounts.{login_accepted}

pub select_user-add_user :
    (place uid j : ℕ) (client : SocketPtr) (m : Manager)
    → select_user j (add_user place uid client m).0
      ≡ (if uid == j then Option.get_or (routes m j) client else select_user j m)
unfolding spec_call
select_user-add_user place uid j client m =
    let now = routes-add_user place uid j client m in
    rw (select_user-routes (add_user place uid client m).0 j, now, select_user-routes m j)
      (elim (Bool-cases (uid == j)) [
        | inl same ↦ rw ((==_iff uid j).0 same) (elim (Option-cases (routes m j)) [
          | inl free ↦ ground arith
          | inr (c, taken) ↦ ground arith
        ])
        | inr other ↦ ground arith
      ])

-- A login with the password of the user that the database gives for the name, if it is handled to
-- its end, leaves the socket of every other user alone; the user's own socket is the one that
-- logged in if there was none, and otherwise stays the old one.
login_routes :
    (E : Env) (packet : TcpPacket) (i : LoginRequest.Info) (client j : ℕ) (w w' : World E.connector)
    (user : UsersTableData)
    → Carries E.json (LoginRequest.info_from_json E.json) packet i
    → select_info_due_user_name E.connector E.memory E.users_dao i.username w.db ≡ done user
    → user.password ≡ i.password
    → handle_login_message E packet client w ≡ done w'
    → select_user j w'.manager ≡ (
        if user.id == j
        then Option.get_or (routes w.manager j) (some client)
        else select_user j w.manager)
login_routes E packet i client j w w' user h found password handled =
    let logs = sym (login_accepted E packet i h client w user found password) ∙ handled in
    rw (log_in_manager E user client w w' logs)
      (select_user-add_user E.place user.id j (some client) w.manager)
