-- ===== src/Threads/Updates.antt =====
-- Which updates of the database a thread has left to make.
use app_server.Base.{
  ℕ, ◌≡◌, refl, Bool, true, false, Option, none, some, List, Text, Outcome, done, fault,
  if◌then◌else◌, ◌⊎◌, inl, inr,
}
use mathlib.Core.Path.{subst}
use app_server.UserConnectionManager.{SocketPtr}
use app_server.Environment.{World}
use app_server.MysqlInteractor.{Connector, Bindings}
use app_server.Threads
use app_server.Threads.{
  Program, returns, faults, selects, adds, generates, prepares, updates, queries, schedules, lift,
  advance, success_of, db_of,
}

module _ {C : Connector} where
  -- None.
  unfoldable pub IsQuiet : {A : Type 0} → Program C A → Type 0
  IsQuiet (returns a) = Unit {0}
  IsQuiet (faults e) = Unit {0}
  IsQuiet (selects uid k) = (r : SocketPtr) → IsQuiet (k r)
  IsQuiet (adds place uid c m) = IsQuiet m
  IsQuiet (generates k) = (n : ℕ) → IsQuiet (k n)
  IsQuiet (prepares query k) = (b : Bool) → IsQuiet (k b)
  IsQuiet (updates query bs k) = ⊥
  IsQuiet (queries query bs k) = (r : Option (List C.Row)) → IsQuiet (k r)
  IsQuiet (schedules t m) = IsQuiet m

  -- At most one, and that one has this property.
  unfoldable pub UpdatesOnce : {A : Type 0} → (Text → Bindings → Type 0) → Program C A → Type 0
  unfolding IsQuiet
  UpdatesOnce P (returns a) = Unit {0}
  UpdatesOnce P (faults e) = Unit {0}
  UpdatesOnce P (selects uid k) = (r : SocketPtr) → UpdatesOnce P (k r)
  UpdatesOnce P (adds place uid c m) = UpdatesOnce P m
  UpdatesOnce P (generates k) = (n : ℕ) → UpdatesOnce P (k n)
  UpdatesOnce P (prepares query k) = (b : Bool) → UpdatesOnce P (k b)
  UpdatesOnce P (updates query bs k) = P query bs × ((b : Bool) → IsQuiet (k b))
  UpdatesOnce P (queries query bs k) = (r : Option (List C.Row)) → UpdatesOnce P (k r)
  UpdatesOnce P (schedules t m) = UpdatesOnce P m

  module _ {A B : Type 0} where
    pub bind-IsQuiet :
        (m : Program C A) (f : A → Program C B)
        → IsQuiet m
        → ((a : A) → IsQuiet (f a))
        → IsQuiet (Threads.◌>>=◌ m f)
    unfolding IsQuiet Threads.◌>>=◌
    bind-IsQuiet (returns a) f q h = h a
    bind-IsQuiet (faults e) f q h = tt
    bind-IsQuiet (selects uid k) f q h = λ r. bind-IsQuiet (k r) f (q r) h
    bind-IsQuiet (adds place uid c m) f q h = bind-IsQuiet m f q h
    bind-IsQuiet (generates k) f q h = λ n. bind-IsQuiet (k n) f (q n) h
    bind-IsQuiet (prepares query k) f q h = λ b. bind-IsQuiet (k b) f (q b) h
    bind-IsQuiet (updates query bs k) f q h = absurd q
    bind-IsQuiet (queries query bs k) f q h = λ r. bind-IsQuiet (k r) f (q r) h
    bind-IsQuiet (schedules t m) f q h = bind-IsQuiet m f q h

  pub IsQuiet-UpdatesOnce :
      {A : Type 0} (P : Text → Bindings → Type 0) (m : Program C A) → IsQuiet m → UpdatesOnce P m
  unfolding IsQuiet UpdatesOnce
  IsQuiet-UpdatesOnce P (returns a) q = tt
  IsQuiet-UpdatesOnce P (faults e) q = tt
  IsQuiet-UpdatesOnce P (selects uid k) q = λ r. IsQuiet-UpdatesOnce P (k r) (q r)
  IsQuiet-UpdatesOnce P (adds place uid c m) q = IsQuiet-UpdatesOnce P m q
  IsQuiet-UpdatesOnce P (generates k) q = λ n. IsQuiet-UpdatesOnce P (k n) (q n)
  IsQuiet-UpdatesOnce P (prepares query k) q = λ b. IsQuiet-UpdatesOnce P (k b) (q b)
  IsQuiet-UpdatesOnce P (updates query bs k) q = absurd q
  IsQuiet-UpdatesOnce P (queries query bs k) q = λ r. IsQuiet-UpdatesOnce P (k r) (q r)
  IsQuiet-UpdatesOnce P (schedules t m) q = IsQuiet-UpdatesOnce P m q

  module _ {A B : Type 0} where
    -- The update is in the first part.
    pub bind-UpdatesOnce :
        (P : Text → Bindings → Type 0) (m : Program C A) (f : A → Program C B)
        → UpdatesOnce P m
        → ((a : A) → IsQuiet (f a))
        → UpdatesOnce P (Threads.◌>>=◌ m f)
    unfolding UpdatesOnce Threads.◌>>=◌
    bind-UpdatesOnce P (returns a) f q h = IsQuiet-UpdatesOnce P (f a) (h a)
    bind-UpdatesOnce P (faults e) f q h = tt
    bind-UpdatesOnce P (selects uid k) f q h = λ r. bind-UpdatesOnce P (k r) f (q r) h
    bind-UpdatesOnce P (adds place uid c m) f q h = bind-UpdatesOnce P m f q h
    bind-UpdatesOnce P (generates k) f q h = λ n. bind-UpdatesOnce P (k n) f (q n) h
    bind-UpdatesOnce P (prepares query k) f q h = λ b. bind-UpdatesOnce P (k b) f (q b) h
    bind-UpdatesOnce P (updates query bs k) f q h = (q.0, λ b. bind-IsQuiet (k b) f (q.1 b) h)
    bind-UpdatesOnce P (queries query bs k) f q h = λ r. bind-UpdatesOnce P (k r) f (q r) h
    bind-UpdatesOnce P (schedules t m) f q h = bind-UpdatesOnce P m f q h

    -- The update is in the second part.
    pub bind-UpdatesOnce_after :
        (P : Text → Bindings → Type 0) (m : Program C A) (f : A → Program C B)
        → IsQuiet m
        → ((a : A) → UpdatesOnce P (f a))
        → UpdatesOnce P (Threads.◌>>=◌ m f)
    unfolding IsQuiet UpdatesOnce Threads.◌>>=◌
    bind-UpdatesOnce_after P (returns a) f q h = h a
    bind-UpdatesOnce_after P (faults e) f q h = tt
    bind-UpdatesOnce_after P (selects uid k) f q h = λ r. bind-UpdatesOnce_after P (k r) f (q r) h
    bind-UpdatesOnce_after P (adds place uid c m) f q h = bind-UpdatesOnce_after P m f q h
    bind-UpdatesOnce_after P (generates k) f q h = λ n. bind-UpdatesOnce_after P (k n) f (q n) h
    bind-UpdatesOnce_after P (prepares query k) f q h =
        λ b. bind-UpdatesOnce_after P (k b) f (q b) h
    bind-UpdatesOnce_after P (updates query bs k) f q h = absurd q
    bind-UpdatesOnce_after P (queries query bs k) f q h =
        λ r. bind-UpdatesOnce_after P (k r) f (q r) h
    bind-UpdatesOnce_after P (schedules t m) f q h = bind-UpdatesOnce_after P m f q h

  pub if-IsQuiet :
      {A : Type 0} (b : Bool) (m n : Program C A)
      → IsQuiet m
      → IsQuiet n
      → IsQuiet (if b then m else n)
  if-IsQuiet true m n first second = first
  if-IsQuiet false m n first second = second

  pub elim-IsQuiet :
      {X A : Type 0} (o : Option X) (m : Program C A) (f : X → Program C A)
      → IsQuiet m
      → ((x : X) → IsQuiet (f x))
      → IsQuiet (elim o as (λ _. Program C A) [ none ↦ m | some x ↦ f x ])
  elim-IsQuiet none m f first rest = first
  elim-IsQuiet (some x) m f first rest = rest x

  -- What one access does to the database.
  abbrev pub Rests : {A : Type 0} → World C → Program C A × World C → Type 0
  Rests w r = IsQuiet r.0 × (r.1.db ≡ w.db)

  abbrev pub Moves :
      {A : Type 0} → (Text → Bindings → Type 0) → World C → Program C A × World C → Type 0
  Moves P w r =
      (UpdatesOnce P r.0 × (r.1.db ≡ w.db))
      ⊎ (IsQuiet r.0
          × ((r.1.db ≡ w.db)
              ⊎ ((query : Text) × (bs : Bindings) × P query bs
                  × (C.execute_update w.db query bs ≡ some r.1.db))))

pub lift-IsQuiet : {A : Type 0} (C : Connector) (o : Outcome A) → IsQuiet (lift {C = C} o)
unfolding IsQuiet lift
lift-IsQuiet C (done a) = tt
lift-IsQuiet C (fault e) = tt

updated_db {ℓ} : {D : Type ℓ} (o : Option D) (db : D) → (db_of o db ≡ db) ⊎ (o ≡ some (db_of o db))
updated_db none db = inl refl
updated_db (some db') db = inr refl

pub by_answer {ℓ κ} : {X : Type ℓ} (P : X → Type κ) {x y : X} → some x ≡ some y → P x → P y
by_answer P {x} h p = subst P (cc h) p

module _ {C : Connector} {A : Type 0} where
  pub advance-Rests :
      (t : Program C A) (w : World C) (r : Program C A × World C)
      → IsQuiet t
      → advance t w ≡ some r
      → Rests w r
  unfolding IsQuiet advance
  advance-Rests (returns a) w r q h = cc
  advance-Rests (faults e) w r q h = cc
  advance-Rests (selects uid k) w r q h = by_answer (Rests w) h (q _, refl)
  advance-Rests (adds place uid c m) w r q h = by_answer (Rests w) h (q, refl)
  advance-Rests (generates k) w r q h = by_answer (Rests w) h (q _, refl)
  advance-Rests (prepares query k) w r q h = by_answer (Rests w) h (q _, refl)
  advance-Rests (updates query bs k) w r q h = absurd q
  advance-Rests (queries query bs k) w r q h = by_answer (Rests w) h (q _, refl)
  advance-Rests (schedules t m) w r q h = by_answer (Rests w) h (q, refl)

  pub advance-Moves :
      (P : Text → Bindings → Type 0) (t : Program C A) (w : World C) (r : Program C A × World C)
      → UpdatesOnce P t
      → advance t w ≡ some r
      → Moves P w r
  unfolding UpdatesOnce advance
  advance-Moves P (returns a) w r q h = cc
  advance-Moves P (faults e) w r q h = cc
  advance-Moves P (selects uid k) w r q h = by_answer (Moves P w) h (inl (q _, refl))
  advance-Moves P (adds place uid c m) w r q h = by_answer (Moves P w) h (inl (q, refl))
  advance-Moves P (generates k) w r q h = by_answer (Moves P w) h (inl (q _, refl))
  advance-Moves P (prepares query k) w r q h = by_answer (Moves P w) h (inl (q _, refl))
  advance-Moves P (updates query bs k) w r q h = by_answer (Moves P w) h (
      inr (
        q.1 _,
        elim (updated_db (C.execute_update w.db query bs) w.db) [
          | inl kept ↦ inl kept
          | inr executed ↦ inr (query, bs, q.0, executed)
        ],
      ))
  advance-Moves P (queries query bs k) w r q h = by_answer (Moves P w) h (inl (q _, refl))
  advance-Moves P (schedules t m) w r q h = by_answer (Moves P w) h (inl (q, refl))
