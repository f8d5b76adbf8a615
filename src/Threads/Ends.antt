-- ===== src/Threads/Ends.antt =====
-- How handlers that run at once come to an end.
use mathlib.Core.WellFounded.{Acc}
use mathlib.Core.Path.{subst}
use app_server.Base.{
  ◌≡◌, refl, sym, ap, some, List, [], ◌∷◌, ◌++◌, inl, inr, ◌⊎◌, Option, true, false, Bool-cases,
}
use app_server.Environment.{Env, World}
use app_server.MysqlInteractor.{Connector}
use app_server.DataHandle.Conversation.{Arrival}
use app_server.Threads.{
  Program, returns, faults, selects, adds, generates, prepares, updates, queries, schedules,
  advance,
}
use app_server.Threads.Machine.{Machine, Reach, acts, has_crashed}

-- The thread has returned or crashed.
unfoldable pub HasEnded : {C : Connector} {A : Type 0} → Program C A → Type 0
HasEnded (returns a) = Unit {0}
HasEnded (faults e) = Unit {0}
HasEnded _ = ⊥

abbrev pub AllEnded : {C : Connector} → List (Program C (Unit {0})) → Type 0
AllEnded [] = Unit {0}
AllEnded (t ∷ ts) = HasEnded t × AllEnded ts

module _ {C : Connector} where
  -- One access of the first thread, in some state, leaves the second.
  abbrev pub Leaves : {A : Type 0} → Program C A → Program C A → Type 0
  Leaves t' t = (w : World C) × (w' : World C) × (advance t w ≡ some (t', w'))

  leaves_of :
      {A : Type 0} (P : Program C A → Type 0) {t t' : Program C A} {w w' : World C}
      → ◌≡◌ {A = Option (Program C A × World C)} (some (t, w)) (some (t', w'))
      → P t
      → P t'
  leaves_of P h p = subst P (cc h) p

  Program-Acc : {A : Type 0} (t : Program C A) → Acc Leaves t
  unfolding advance
  Program-Acc (returns a) = Acc.intro _ (λ t' h. cc (h.2))
  Program-Acc (faults e) = Acc.intro _ (λ t' h. cc (h.2))
  Program-Acc (selects uid k) = Acc.intro _ (λ t' h. leaves_of (Acc Leaves) h.2 (Program-Acc (k _)))
  Program-Acc (adds place uid c m) =
      Acc.intro _ (λ t' h. leaves_of (Acc Leaves) h.2 (Program-Acc m))
  Program-Acc (generates k) = Acc.intro _ (λ t' h. leaves_of (Acc Leaves) h.2 (Program-Acc (k _)))
  Program-Acc (prepares query k) =
      Acc.intro _ (λ t' h. leaves_of (Acc Leaves) h.2 (Program-Acc (k _)))
  Program-Acc (updates query bs k) =
      Acc.intro _ (λ t' h. leaves_of (Acc Leaves) h.2 (Program-Acc (k _)))
  Program-Acc (queries query bs k) =
      Acc.intro _ (λ t' h. leaves_of (Acc Leaves) h.2 (Program-Acc (k _)))
  Program-Acc (schedules t m) = Acc.intro _ (λ t' h. leaves_of (Acc Leaves) h.2 (Program-Acc m))

  -- One access of one of the threads.
  pub data Acts (ts' ts : List (Program C (Unit {0}))) : Type 0 where
    act :
        (before after : List (Program C (Unit {0}))) (t t' : Program C (Unit {0}))
        → ts ≡ before ++ t ∷ after
        → ts' ≡ before ++ t' ∷ after
        → Leaves t' t
        → Acts ts' ts

  -- The first thread moves, or one of the others.
  Acts-cons :
      (t : Program C (Unit {0})) (ts us : List (Program C (Unit {0})))
      → Acts us (t ∷ ts)
      → ((t' : Program C (Unit {0})) × Leaves t' t × (us ≡ t' ∷ ts))
        ⊎ ((ts' : List (Program C (Unit {0}))) × Acts ts' ts × (us ≡ t ∷ ts'))
  Acts-cons t ts us (act [] after x x' e e' h) = inl (x', subst (Leaves x') (cc e) h, cc (e, e'))
  Acts-cons t ts us (act (b ∷ before) after x x' e e' h) =
      inr (before ++ x' ∷ after, act before after x x' (cc e) refl h, cc (e, e'))

  cons-Acc :
      (t : Program C (Unit {0})) (ts : List (Program C (Unit {0})))
      → Acc Leaves t
      → Acc Acts ts
      → Acc Acts (t ∷ ts)
  cons-Acc t ts (Acc.intro _ f) (Acc.intro _ g) = Acc.intro _ (λ us h. elim (Acts-cons t ts us h) [
    | inl (t', leaves, e) ↦ subst (Acc Acts) (sym e) (cons-Acc t' ts (f t' leaves) (Acc.intro ts g))
    | inr (ts', acts', e) ↦ subst (Acc Acts) (sym e) (cons-Acc t ts' (Acc.intro t f) (g ts' acts'))
  ])

  not-Acts-nil : (us : List (Program C (Unit {0}))) → Acts us [] → ⊥
  not-Acts-nil us (act [] after t t' e e' l) = cc
  not-Acts-nil us (act (b ∷ before) after t t' e e' l) = cc

  Acts-Acc : (ts : List (Program C (Unit {0}))) → Acc Acts ts
  Acts-Acc [] = Acc.intro _ (λ us h. absurd (not-Acts-nil us h))
  Acts-Acc (t ∷ ts) = cons-Acc t ts (Program-Acc t) (Acts-Acc ts)

  -- One access of one thread, without an arrival.
  pub data Next (s' s : Machine C) : Type 0 where
    advances :
        (before after : List (Program C (Unit {0}))) (t : Program C (Unit {0}))
        (r : Program C (Unit {0}) × World C)
        → s.threads ≡ before ++ t ∷ after
        → advance t s.world ≡ some r
        → has_crashed s.threads ≡ false
        → s' ≡ record { world = r.1; threads = before ++ r.0 ∷ after }
        → Next s' s

  Next-Acts : (s' s : Machine C) → Next s' s → Acts s'.threads s.threads
  Next-Acts s' s (advances before after t r e steps alive e') =
      act before after t r.0 e (ap (λ s. s.threads) e') (s.world, r.1, steps)

  Next-Acc_of : (s : Machine C) → Acc Acts s.threads → Acc Next s
  Next-Acc_of s (Acc.intro _ f) =
      Acc.intro s (λ s' h. Next-Acc_of s' (f s'.threads (Next-Acts s' s h)))

  -- However the steps of handlers interleave, and whatever the database answers: from no state is
  -- there an infinite sequence of steps without another packet.
  pub Next-Acc : (s : Machine C) → Acc Next s
  Next-Acc s = Next-Acc_of s (Acts-Acc s.threads)

  -- A thread has ended, or makes its next access in whatever state.
  HasEnded-cases :
      (t : Program C (Unit {0})) (w : World C)
      → HasEnded t ⊎ ((r : Program C (Unit {0}) × World C) × (advance t w ≡ some r))
  unfolding HasEnded advance
  HasEnded-cases (returns a) w = inl tt
  HasEnded-cases (faults e) w = inl tt
  HasEnded-cases (selects uid k) w = inr (_, refl)
  HasEnded-cases (adds place uid c m) w = inr (_, refl)
  HasEnded-cases (generates k) w = inr (_, refl)
  HasEnded-cases (prepares query k) w = inr (_, refl)
  HasEnded-cases (updates query bs k) w = inr (_, refl)
  HasEnded-cases (queries query bs k) w = inr (_, refl)
  HasEnded-cases (schedules t m) w = inr (_, refl)

  -- All have ended, or one of them makes its next access.
  abbrev CanAct : List (Program C (Unit {0})) → World C → Type 0
  CanAct ts w =
      (before : List (Program C (Unit {0}))) × (after : List (Program C (Unit {0}))) × (t : Program
        C (Unit {0}))
      × (r : Program C (Unit {0}) × World C) × (ts ≡ before ++ t ∷ after)
      × (advance t w ≡ some r)

  AllEnded-cases : (ts : List (Program C (Unit {0}))) (w : World C) → AllEnded ts ⊎ CanAct ts w
  AllEnded-cases [] w = inl tt
  AllEnded-cases (t ∷ ts) w = elim (HasEnded-cases t w) [
    | inr (r, steps) ↦ inr ([], ts, t, r, refl, steps)
    | inl first ↦ elim (AllEnded-cases ts w) [
      | inl others ↦ inl (first, others)
      | inr (before, after, u, r, e, steps) ↦
          inr (t ∷ before, after, u, r, ap (λ l. t ∷ l) e, steps)
    ]
  ]

Next-Reach :
    {E : Env} {m s t : Machine E.connector} {arrivals : List Arrival}
    → Reach E m arrivals s
    → Next t s
    → Reach E m arrivals t
Next-Reach {E} {m} {arrivals} r (advances before after t n e steps alive e') =
    subst (Reach E m arrivals) (sym e') (acts r before after t n e steps alive)

-- Whichever thread makes the next access, and the one after that, a state with the property comes
-- before the handlers come to an end.
pub data Inevitable {C : Connector} (P : Machine C → Type 0) : Machine C → Type 0 where
  holds : {s : Machine C} → P s → Inevitable P s
  comes :
      {s : Machine C} (s' : Machine C)
      → Next s' s
      → ((t : Machine C) → Next t s → Inevitable P t)
      → Inevitable P s

module _ (E : Env) (m : Machine E.connector) (arrivals : List Arrival)
    (P : Machine E.connector → Type 0)
    (at_end : (s : Machine E.connector) → Reach E m arrivals s → AllEnded s.threads → P s)
    (at_crash : (s : Machine E.connector) → has_crashed s.threads ≡ true → P s) where
  Next-Inevitable : (s : Machine E.connector) → Acc Next s → Reach E m arrivals s → Inevitable P s
  Next-Inevitable s (Acc.intro _ f) r = elim (Bool-cases (has_crashed s.threads)) [
    | inl crash ↦ holds (at_crash s crash)
    | inr alive ↦ elim (AllEnded-cases s.threads s.world) [
      | inl ends ↦ holds (at_end s r ends)
      | inr (before, after, t, n, e, steps) ↦
          comes (record { world = n.1; threads = before ++ n.0 ∷ after })
            (advances before after t n e steps alive refl)
            (λ u next. Next-Inevitable u (f u next) (Next-Reach r next))
    ]
  ]

  -- What holds when all handlers have ended, or the process has, is inevitable from every state that the arrivals and any
  -- steps lead to.
  pub Reach-Inevitable : (s : Machine E.connector) → Reach E m arrivals s → Inevitable P s
  Reach-Inevitable s r = Next-Inevitable s (Next-Acc s) r
