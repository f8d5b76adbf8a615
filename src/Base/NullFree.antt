-- ===== src/Base/NullFree.antt =====
-- Steps that do not dereference a null pointer.
use mathlib.Core.Path.{◌≡◌, refl}
use mathlib.Core.Logic.{◌≢◌}
use mathlib.Core.Bool.{Bool, true, false}
use mathlib.Core.Option.{Option, none, some}
use app_server.Base.Tests.{if◌then◌else◌}
use app_server.Base.Outcomes.{Outcome, done, fault, overflow, null, thrown, ◌>>=◌}

abbrev pub IsNullFree {ℓ} : {A : Type ℓ} → Outcome A → Type ℓ
IsNullFree m = m ≢ fault null

pub bind-IsNullFree {ℓ κ} :
    {A : Type ℓ} {B : Type κ} (m : Outcome A) (f : A → Outcome B)
    → IsNullFree m
    → ((a : A) → IsNullFree (f a))
    → IsNullFree (m >>= f)
bind-IsNullFree (done a) f first rest h = rest a h
bind-IsNullFree (fault overflow) f first rest h = cc
bind-IsNullFree (fault null) f first rest h = first refl
bind-IsNullFree (fault thrown) f first rest h = cc

-- The step after one that reads no null pointer.
pub bind_null {ℓ κ} :
    {A : Type ℓ} {B : Type κ} (m : Outcome A) (f : A → Outcome B)
    → IsNullFree m
    → (m >>= f) ≡ fault null
    → (a : A) × (m ≡ done a) × (f a ≡ fault null)
bind_null (done a) f first h = (a, refl, h)
bind_null (fault overflow) f first h = cc
bind_null (fault null) f first h = absurd (first refl)
bind_null (fault thrown) f first h = cc

pub done-IsNullFree {ℓ} : {A : Type ℓ} (r : A) → IsNullFree (done r)
done-IsNullFree r h = cc

pub elim-IsNullFree {ℓ κ} :
    {A : Type ℓ} {B : Type κ} (o : Option A) (m : Outcome B) (f : A → Outcome B)
    → IsNullFree m
    → ((r : A) → IsNullFree (f r))
    → IsNullFree (elim o as (λ _. Outcome B) [ none ↦ m | some r ↦ f r ])
elim-IsNullFree none m f first rest = first
elim-IsNullFree (some r) m f first rest = rest r

pub if-IsNullFree {ℓ} :
    {A : Type ℓ} (b : Bool) (m n : Outcome A)
    → IsNullFree m
    → IsNullFree n
    → IsNullFree (if b then m else n)
if-IsNullFree true m n first second = first
if-IsNullFree false m n first second = second

pub else-IsNullFree {ℓ} :
    {A : Type ℓ} (b : Bool) (m n : Outcome A)
    → b ≡ false
    → IsNullFree n
    → IsNullFree (if b then m else n)
else-IsNullFree true m n other second = cc
else-IsNullFree false m n other second = second
