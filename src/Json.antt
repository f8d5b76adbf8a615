-- ===== src/Json.antt =====
-- nlohmann::json, which the messages are written with, as an interface: the values, the
-- constructors and readers that the program calls, and what it relies on. `none` is an exception.
use Prim.Native.String.{String}
use text.Mathlib.Text.{◌==◌}
use app_server.Base.{
  ℕ, ◌<◌, ◌^◌, ◌≡◌, Bool, Option, none, some, List, [], ◌∷◌, Text, ℤ, IsInt, All, if◌then◌else◌,
}

pub record JsonLibrary : Type 1 where
  pub Json : Type 0
  pub parse : Text → Option Json
  pub dump : Json → Option Text
  -- A value from a string, an unsigned or signed integer or a bool.
  pub of_text : Text → Json
  pub of_unsigned : ℕ → Json
  pub of_int : ℤ → Json
  pub of_bool : Bool → Json
  -- An initializer list, read as an array or, where it lists pairs of a key and a value, as an object.
  pub of_list : List Json → Json
  pub of_fields : List (String × Json) → Json
  pub at : Json → String → Option Json
  -- get_to for each type of variable.
  pub get_text : Json → Option Text
  pub get_unsigned : Json → Option ℕ
  pub get_int : Json → Option ℤ
  pub get_bool : Json → Option Bool
  pub get_list : Json → Option (List Json)

-- The value that the first field of this name has.
abbrev pub field {ℓ} : {A : Type ℓ} → List (String × A) → String → Option A
field [] k = none
field ((j, v) ∷ fs) k = if j == k then some v else field fs k

-- What the program relies on: a value that was written is read back, and texts have no NUL byte,
-- since control characters are escaped.
pub record IsJsonLibrary (J : JsonLibrary) : Type 0 where
  pub parse-dump : (j : J.Json) (s : Text) → J.dump j ≡ some s → J.parse s ≡ some j
  pub dump-pos : (j : J.Json) (s : Text) → J.dump j ≡ some s → All (λ b. 0 < b) s
  pub at-of_fields :
      (fs : List (String × J.Json)) (k : String) → J.at (J.of_fields fs) k ≡ field fs k
  pub at-of_list : (js : List J.Json) (k : String) → J.at (J.of_list js) k ≡ none
  pub get_text-of_text : (s : Text) → J.get_text (J.of_text s) ≡ some s
  pub get_unsigned-of_unsigned : (n : ℕ) → n < 2 ^ 64 → J.get_unsigned (J.of_unsigned n) ≡ some n
  pub get_int-of_int : (z : ℤ) → IsInt z → J.get_int (J.of_int z) ≡ some z
  pub get_bool-of_bool : (b : Bool) → J.get_bool (J.of_bool b) ≡ some b
  pub get_list-of_list : (js : List J.Json) → J.get_list (J.of_list js) ≡ some js
