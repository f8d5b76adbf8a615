-- ===== src/UserConnectionManager/Invariant.antt =====
-- The connections as they should be: one entry for a user, and every entry marked online.
use app_server.Base.{
  ℕ, zero, suc, ◌≡◌, ◌≢◌, refl, sym, true, none, List, [], ◌∷◌, Option-cases, inl, inr, arith,
}
use app_server.UserConnectionManager.{
  SocketPtr, UserConnectInfo, Manager, Call, clear, add, delete, change, init, find, insert_at,
  add_user, erase, delete_user, mark_online, change_online, call, run,
}

abbrev pub Entries : Type 0
Entries = List (ℕ × UserConnectInfo)

-- No entry of the list is for this user.
abbrev pub Misses : ℕ → Entries → Type 0
Misses uid [] = Unit {0}
Misses uid ((u, i) ∷ es) = (u ≢ uid) × Misses uid es

abbrev pub Distinct : Entries → Type 0
Distinct [] = Unit {0}
Distinct ((u, i) ∷ es) = Misses u es × Distinct es

abbrev pub Online : Entries → Type 0
Online [] = Unit {0}
Online ((u, i) ∷ es) = (i.is_online ≡ true) × Online es

pub record IsValid (m : Manager) : Type 0 where
  pub distinct : Distinct m.connect_info
  pub online : Online m.connect_info

pub find-Misses : (uid : ℕ) (es : Entries) → find uid es ≡ none → Misses uid es
unfolding find
find-Misses uid [] h = tt
find-Misses uid ((u, i) ∷ es) h = ground (arith, find-Misses uid es)

pub find_of_Misses : (uid : ℕ) (es : Entries) → Misses uid es → find uid es ≡ none
unfolding find
find_of_Misses uid [] h = refl
find_of_Misses uid ((u, i) ∷ es) h = ground (arith, find_of_Misses uid es h.1)

insert_at-Misses :
    (k u uid : ℕ) (i : UserConnectInfo) (es : Entries)
    → u ≢ uid
    → Misses uid es
    → Misses uid (insert_at k (u, i) es)
unfolding insert_at
insert_at-Misses zero u uid i es n h = (n, h)
insert_at-Misses (suc k) u uid i [] n h = (n, h)
insert_at-Misses (suc k) u uid i ((v, j) ∷ es) n h = (h.0, insert_at-Misses k u uid i es n h.1)

insert_at-Distinct :
    (k u : ℕ) (i : UserConnectInfo) (es : Entries)
    → Misses u es
    → Distinct es
    → Distinct (insert_at k (u, i) es)
unfolding insert_at
insert_at-Distinct zero u i es n h = (n, h)
insert_at-Distinct (suc k) u i [] n h = (n, h)
insert_at-Distinct (suc k) u i ((v, j) ∷ es) n h =
    (insert_at-Misses k u v i es (λ e. n.0 (sym e)) h.0, insert_at-Distinct k u i es n.1 h.1)

insert_at-Online :
    (k u : ℕ) (i : UserConnectInfo) (es : Entries)
    → i.is_online ≡ true
    → Online es
    → Online (insert_at k (u, i) es)
unfolding insert_at
insert_at-Online zero u i es n h = (n, h)
insert_at-Online (suc k) u i [] n h = (n, h)
insert_at-Online (suc k) u i ((v, j) ∷ es) n h = (h.0, insert_at-Online k u i es n h.1)

erase-Misses : (u uid : ℕ) (es : Entries) → Misses uid es → Misses uid (erase u es)
unfolding erase
erase-Misses u uid [] h = tt
erase-Misses u uid ((v, j) ∷ es) h = ground (arith, erase-Misses u uid es h.1)

erase-Distinct : (u : ℕ) (es : Entries) → Distinct es → Distinct (erase u es)
unfolding erase
erase-Distinct u [] h = tt
erase-Distinct u ((v, j) ∷ es) h = ground (arith, erase-Distinct u es h.1, erase-Misses u v es h.0)

erase-Online : (u : ℕ) (es : Entries) → Online es → Online (erase u es)
unfolding erase
erase-Online u [] h = tt
erase-Online u ((v, j) ∷ es) h = ground (arith, erase-Online u es h.1)

-- Where every entry is online, marking one of them online changes nothing.
pub mark_online_of_Online : (c : SocketPtr) (es : Entries) → Online es → mark_online c es ≡ es
unfolding mark_online
mark_online_of_Online c [] h = refl
mark_online_of_Online c ((u, i) ∷ es) h = ground (arith, mark_online_of_Online c es h.1)

pub add_user-IsValid :
    (place uid : ℕ) (c : SocketPtr) (m : Manager) → IsValid m → IsValid (add_user place uid c m).0
unfolding add_user
add_user-IsValid place uid c m v = elim (Option-cases (find uid m.connect_info)) [
  | inr (i, e) ↦ rw (e, add_user) v
  | inl e ↦
      rw (e, add_user)
        (record {
          distinct =
              insert_at-Distinct place uid _ m.connect_info (find-Misses uid m.connect_info e)
                v.distinct;
          online = insert_at-Online place uid _ m.connect_info refl v.online;
        })
]

pub change_online-IsValid : (c : SocketPtr) (m : Manager) → IsValid m → IsValid (change_online c m)
unfolding change_online
change_online-IsValid c m v = rw (mark_online_of_Online c m.connect_info v.online) v

pub call-IsValid : (c : Call) (m : Manager) → IsValid m → IsValid (call c m)
unfolding call init delete_user change_online
call-IsValid clear m v = record { distinct = tt; online = tt }
call-IsValid (add place uid client) m v = add_user-IsValid place uid client m v
call-IsValid (delete uid) m v = record {
  distinct = erase-Distinct uid m.connect_info v.distinct;
  online = erase-Online uid m.connect_info v.online;
}
call-IsValid (change client) m v = change_online-IsValid client m v

pub run-IsValid : (cs : List Call) (m : Manager) → IsValid m → IsValid (run cs m)
unfolding run
run-IsValid [] m v = v
run-IsValid (c ∷ cs) m v = run-IsValid cs (call c m) (call-IsValid c m v)

init-IsValid : IsValid init
unfolding init
init-IsValid = record { distinct = tt; online = tt }

-- After any calls on a new manager there is one entry for a user at most, and every entry is marked
-- online.
pub run-init-IsValid : (cs : List Call) → IsValid (run cs init)
run-init-IsValid cs = run-IsValid cs init init-IsValid

-- After any calls on a new manager `changeOnline` changes nothing, whatever the socket.
change_online_idle :
    (cs : List Call) (client : SocketPtr) → change_online client (run cs init) ≡ run cs init
unfolding change_online
change_online_idle cs client = rw (mark_online_of_Online client _ (run-init-IsValid cs).online)
