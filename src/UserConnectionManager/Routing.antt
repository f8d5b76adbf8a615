-- ===== src/UserConnectionManager/Routing.antt =====
-- Which socket a user is reached by: the manager as a function from users to sockets.
use mathlib.Core.Option
use mathlib.Core.Path.{fun_ext}
use app_server.Base.{==_refl, false, Bool-cases, ==_iff}
use app_server.Base.{
  ℕ, zero, suc, ◌≡◌, refl, ap, ◌∙◌, true, Option, none, some, List, [], ◌∷◌, ◌==◌, Option-cases,
  inl, inr, arith, if◌then◌else◌,
}
use app_server.UserConnectionManager.{
  SocketPtr, UserConnectInfo, Manager, Call, clear, add, delete, change, init, find, is_some,
  insert_at, add_user, erase, delete_user, client_of, select_user, mark_online, change_online, call,
  run,
}
use app_server.UserConnectionManager.Invariant.{
  Entries, Misses, Distinct, IsValid, find-Misses, find_of_Misses, call-IsValid,
}

abbrev route : Option UserConnectInfo → Option SocketPtr
route none = none
route (some i) = some i.client

-- The socket that was registered for a user; `none` for a user without an entry.
unfoldable pub routes : Manager → ℕ → Option SocketPtr
routes m uid = route (find uid m.connect_info)

-- What each call promises, on such functions.
unfoldable pub spec_call : Call → (ℕ → Option SocketPtr) → ℕ → Option SocketPtr
spec_call clear r j = none
spec_call (add place uid client) r j =
    if is_some (r uid) then r j else if uid == j then some client else r j
spec_call (delete uid) r j = if uid == j then none else r j
spec_call (change client) r j = r j

unfoldable pub spec_run : List Call → (ℕ → Option SocketPtr) → ℕ → Option SocketPtr
spec_run [] r = r
spec_run (c ∷ cs) r = spec_run cs (spec_call c r)

find-insert_at :
    (k u j : ℕ) (i : UserConnectInfo) (es : Entries)
    → Misses u es
    → find j (insert_at k (u, i) es) ≡ (if u == j then some i else find j es)
unfolding find insert_at
find-insert_at zero u j i es h = refl
find-insert_at (suc k) u j i [] h = refl
find-insert_at (suc k) u j i ((v, x) ∷ es) h = ground (arith, find-insert_at k u j i es h.1)

find-erase :
    (u j : ℕ) (es : Entries)
    → Distinct es
    → find j (erase u es) ≡ (if u == j then none else find j es)
unfolding find erase
find-erase u j [] h = ground arith
find-erase u j ((v, x) ∷ es) h = ground (arith, find-erase u j es h.1, find_of_Misses v es h.0)

route-mark_online :
    (c : SocketPtr) (j : ℕ) (es : Entries) → route (find j (mark_online c es)) ≡ route (find j es)
unfolding find mark_online
route-mark_online c j [] = refl
route-mark_online c j ((v, x) ∷ es) = ground (arith, route-mark_online c j es)

pub routes-change_online :
    (client : SocketPtr) (m : Manager) (j : ℕ) → routes (change_online client m) j ≡ routes m j
unfolding routes change_online
routes-change_online client m j = route-mark_online client j m.connect_info

pub routes-add_user :
    (place uid j : ℕ) (client : SocketPtr) (m : Manager)
    → routes (add_user place uid client m).0 j ≡ spec_call (add place uid client) (routes m) j
unfolding routes add_user spec_call
routes-add_user place uid j client m = elim (Option-cases (find uid m.connect_info)) [
  | inr (i, e) ↦ ground arith
  | inl e ↦
      let new : UserConnectInfo = record { is_online = true; client = client } in
      let free = find-Misses uid m.connect_info e in
      ground (arith, find-insert_at place uid j new m.connect_info free)
]

-- A socket that is set stays, whoever is added.
pub add_user-routes_kept :
    (place uid j : ℕ) (client c : SocketPtr) (m : Manager)
    → routes m j ≡ some c
    → routes (add_user place uid client m).0 j ≡ some c
unfolding spec_call
add_user-routes_kept place uid j client c m set =
    rw (routes-add_user place uid j client m) (elim (Bool-cases (uid == j)) [
      | inl same ↦ rw ((==_iff uid j).0 same, set) refl
      | inr other ↦ ground arith
    ])

-- A call changes the routes as it promises.
routes-call :
    (c : Call) (m : Manager) (j : ℕ) → IsValid m → routes (call c m) j ≡ spec_call c (routes m) j
unfolding routes call spec_call init delete_user change_online
routes-call clear m j v = unfold find in refl
routes-call (add place uid client) m j v = routes-add_user place uid j client m
routes-call (delete uid) m j v = rw (find-erase uid j m.connect_info v.distinct) (ground arith)
routes-call (change client) m j v = route-mark_online client j m.connect_info

-- Any calls on a valid manager change its map from users to sockets as the calls promise one after
-- the other: clearing and deletion remove, and an addition sets the socket of a user who has none,
-- and only then.
pub routes-run :
    (cs : List Call) (m : Manager) (j : ℕ)
    → IsValid m
    → routes (run cs m) j ≡ spec_run cs (routes m) j
unfolding run spec_run
routes-run [] m j v = refl
routes-run (c ∷ cs) m j v =
    routes-run cs (call c m) j (call-IsValid c m v)
    ∙ ap (λ r. spec_run cs r j) (fun_ext λ k. routes-call c m k v)

client_of-route : (o : Option UserConnectInfo) → client_of o ≡ Option.get_or (route o) none
client_of-route none = refl
client_of-route (some i) = refl

-- selectUser follows the routes, and returns nullptr where there is none.
pub select_user-routes :
    (m : Manager) (uid : ℕ) → select_user uid m ≡ Option.get_or (routes m uid) none
unfolding select_user routes
select_user-routes m uid = client_of-route (find uid m.connect_info)

is_some-find :
    (place uid : ℕ) (client : SocketPtr) (m : Manager)
    → is_some (find uid (add_user place uid client m).0.connect_info) ≡ true
unfolding add_user
is_some-find place uid client m = elim (Option-cases (find uid m.connect_info)) [
  | inr (i, e) ↦ ground arith
  | inl e ↦
      let new : UserConnectInfo = record { is_online = true; client = client } in
      let free = find-Misses uid m.connect_info e in
      ground (arith, find-insert_at place uid uid new m.connect_info free)
]

add_user_refused :
    (place uid : ℕ) (client : SocketPtr) (m : Manager)
    → is_some (find uid m.connect_info) ≡ true
    → add_user place uid client m ≡ (m, false)
unfolding add_user
add_user_refused place uid client m h = rw h

routes-delete_user : (uid : ℕ) (m : Manager) → IsValid m → routes (delete_user uid m).0 uid ≡ none
unfolding routes delete_user
routes-delete_user uid m v = rw (find-erase uid uid m.connect_info v.distinct) (ground arith)

-- A user who is registered keeps the socket: another addition returns false and changes nothing. In
-- a valid manager an addition after a deletion does set the new socket.
add_user_again :
    (place place' uid : ℕ) (client client' : SocketPtr) (m : Manager)
    → IsValid m
    → (add_user place' uid client' (add_user place uid client m).0
        ≡ ((add_user place uid client m).0, false))
      × (select_user uid (add_user place' uid client' (delete_user uid m).0).0 ≡ client')
unfolding spec_call
add_user_again place place' uid client client' m v =
    let m' = (delete_user uid m).0 in
    let set = routes-add_user place' uid uid client' m' in
    let free = routes-delete_user uid m v in
    (
      add_user_refused place' uid client' (add_user place uid client m).0
          (is_some-find place uid client m),
      rw (select_user-routes (add_user place' uid client' m').0 uid, set, free, ==_refl uid) refl,
    )
