-- ===== src/MysqlConnectPool/Conservation.antt =====
-- The pool and the objects that hold its connections, over any sequence of calls.
use mathlib.Core.List.{Perm, append_assoc, perm_middle, filter_map}
use mathlib.Core.List.Perm
use app_server.Base.{ℕ, ◌≡◌, refl, List, [], ◌∷◌, ◌++◌}
use app_server.MysqlConnectPool.{ConnectionPtr, Pool, get_connection, release_connection}

-- `held`: what each data access object got from getConnection and has not released.
pub record System : Type 0 where
  pub pool : Pool
  pub held : List ConnectionPtr

abbrev pub take_connection : System → System
take_connection s = record {
  pool = (get_connection s.pool).1;
  held = (get_connection s.pool).0 ∷ s.held;
}

-- An object is constructed, or one of them is destroyed.
pub data Step : System → System → Type 0 where
  construct : (s : System) → Step s (take_connection s)
  destroy :
      (s : System) (before after : List ConnectionPtr) (c : ConnectionPtr)
      → s.held ≡ before ++ c ∷ after
      → Step s (record { pool = release_connection c s.pool; held = before ++ after })

pub data Reach (s : System) : System → Type 0 where
  here : Reach s s
  next : {t u : System} → Reach s t → Step t u → Reach s u

-- The connections among pointers that may be null.
abbrev pub live : List ConnectionPtr → List ℕ
live = filter_map (λ c. c)

abbrev pub owned : System → List ConnectionPtr
owned s = s.pool.connections ++ s.held

construct-perm :
    (cs : List ConnectionPtr) (s : System)
    → s.pool.connections ≡ cs
    → Perm (live (owned (take_connection s))) (live (owned s))
unfolding get_connection
construct-perm [] s e = rw (e, get_connection) (unfold filter_map in Perm.refl (live s.held))
construct-perm (c ∷ rest) s e =
    rw (e, get_connection) (Perm.filter_map (λ x. x) (perm_middle rest s.held))

destroy-perm :
    (s : System) (before after : List ConnectionPtr) (c : ConnectionPtr)
    → s.held ≡ before ++ c ∷ after
    → Perm (owned (record { pool = release_connection c s.pool; held = before ++ after })) (owned s)
unfolding release_connection
destroy-perm s before after c e =
    rw (append_assoc s.pool.connections (c ∷ []) (before ++ after), e)
      (Perm.append_left s.pool.connections (Perm.symm (perm_middle before after)))

Step-perm : {s t : System} → Step s t → Perm (live (owned t)) (live (owned s))
Step-perm (construct s) = construct-perm s.pool.connections s refl
Step-perm (destroy s before after c e) = Perm.filter_map (λ x. x) (destroy-perm s before after c e)

-- No sequence of constructions and destructions of data access objects loses a connection or makes
-- one up: those in the queue and those held are the ones that the start had, in some order.
pub Reach-perm : {s t : System} → Reach s t → Perm (live (owned t)) (live (owned s))
Reach-perm here = Perm.rfl
Reach-perm (next r st) = Perm.trans (Step-perm st) (Reach-perm r)
