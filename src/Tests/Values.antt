-- ===== src/Tests/Values.antt =====
-- A JSON library: a value is a list of numbers, with the lengths of its parts in front of them, and
-- its text has each number plus one.
use Prim.Native.String.{String}
use mathlib.Core.Path.{subst}
use mathlib.Core.Option.{some-injective}
use text.Mathlib.Text
use text.Mathlib.TextEquality.{Char-path, eq_iff}
use app_server.Base.{
  ℕ, zero, suc, ◌<◌, ◌≡◌, refl, ap, Bool, true, false, Option, none, some, List, [], ◌∷◌, ◌++◌,
  Text, literal, text_eq, text_eq_iff, length, take, drop, take-append, drop-append, ℤ, pos, negsuc,
  All, if◌then◌else◌, and_then, arith, sym, ◌==◌,
}
use app_server.Json.{JsonLibrary, IsJsonLibrary, field}

literal-inj : (s t : String) → literal s ≡ literal t → s ≡ t
literal-inj String.[] String.[] h = refl
literal-inj String.[] (String.◌∷◌ d t) h = cc
literal-inj (String.◌∷◌ c s) String.[] h = cc
literal-inj (String.◌∷◌ c s) (String.◌∷◌ d t) h = rw (Char-path c d cc, literal-inj s t cc)

bool_same : (a b : Bool) → (a ≡ true → b ≡ true) → (b ≡ true → a ≡ true) → a ≡ b
bool_same true b f g = sym (f refl)
bool_same false true f g = g refl
bool_same false false f g = refl

text_eq-literal : (s t : String) → text_eq (literal s) (literal t) ≡ (Text.◌==◌ s t)
text_eq-literal s t =
    bool_same _ _ (λ e. (eq_iff s t).1 (literal-inj s t ((text_eq_iff _ _).0 e)))
      (λ e. (text_eq_iff _ _).1 (ap literal ((eq_iff s t).0 e)))

abbrev pub Tokens : Type 0
Tokens = List ℕ

-- A part with its length in front of it.
abbrev slot : Tokens → Tokens → Tokens
slot s rest = length s ∷ (s ++ rest)

abbrev slots : List Tokens → Tokens
slots [] = []
slots (s ∷ ss) = slot s (slots ss)

abbrev field_slots : List (String × Tokens) → Tokens
field_slots [] = []
field_slots ((k, v) ∷ fs) = slot (literal k) (slot v (field_slots fs))

abbrev split : Tokens → Option (Tokens × Tokens)
split [] = none
split (n ∷ s) = some (take n s, drop n s)

abbrev find_slot : ℕ → Text → Tokens → Option Tokens
find_slot zero k s = none
find_slot (suc n) k s = and_then (split s) λ p.
    and_then (split p.1)
      λ q. let rest = find_slot n k q.1 in if text_eq p.0 k then some q.0 else rest

abbrev items : ℕ → Tokens → Option (List Tokens)
items zero s = some []
items (suc n) s = and_then (split s) λ p. and_then (items n p.1) λ rest. some (p.0 ∷ rest)

find_slot-field_slots :
    (fs : List (String × Tokens)) (k : String)
    → find_slot (length fs) (literal k) (field_slots fs) ≡ field fs k
find_slot-field_slots [] k = refl
find_slot-field_slots ((j, v) ∷ fs) k = rw (
  take-append (literal j) (slot v (field_slots fs)),
  drop-append (literal j) (slot v (field_slots fs)),
  take-append v (field_slots fs),
  drop-append v (field_slots fs),
  text_eq-literal j k,
  find_slot-field_slots fs k,
)

items-slots : (ss : List Tokens) → items (length ss) (slots ss) ≡ some ss
items-slots [] = refl
items-slots (s ∷ ss) = rw (take-append s (slots ss), drop-append s (slots ss), items-slots ss)

abbrev pub shifted : Tokens → Text
shifted [] = []
shifted (n ∷ s) = suc n ∷ shifted s

abbrev pub unshifted : Text → Option Tokens
unshifted [] = some []
unshifted (zero ∷ s) = none
unshifted (suc n ∷ s) = and_then (unshifted s) λ rest. some (n ∷ rest)

pub unshifted-shifted : (s : Tokens) → unshifted (shifted s) ≡ some s
unshifted-shifted [] = refl
unshifted-shifted (n ∷ s) = rw (unshifted-shifted s)

pub shifted_pos : (s : Tokens) → All (λ b. 0 < b) (shifted s)
shifted_pos [] = tt
shifted_pos (n ∷ s) = (omega arith, shifted_pos s)

-- The rest of a value of this kind.
abbrev untag : ℕ → Tokens → Option Tokens
untag tag [] = none
untag tag (n ∷ s) = if n == tag then some s else none

abbrev counted : {A : Type 0} → (ℕ → Tokens → Option A) → Tokens → Option A
counted f [] = none
counted f (n ∷ s) = f n s

abbrev integer_value : ℤ → Tokens
integer_value (pos n) = 4 ∷ n ∷ []
integer_value (negsuc n) = 5 ∷ n ∷ []

abbrev integer_of : Tokens → Option ℤ
integer_of [] = none
integer_of (t ∷ s) =
    let n = counted (λ n rest. some n) s in
    if t == 4 then and_then n (λ n. some (pos n)) else and_then n (λ n. some (negsuc n))

abbrev flag_value : Bool → Tokens
flag_value true = 6 ∷ []
flag_value false = 7 ∷ []

abbrev flag_of : Tokens → Option Bool
flag_of [] = none
flag_of (t ∷ s) = some (t == 6)

abbrev pub sample_json : JsonLibrary
sample_json = record {
  Json = Tokens;
  parse = unshifted;
  dump = λ j. some (shifted j);
  of_text = λ s. 2 ∷ s;
  of_unsigned = λ n. 3 ∷ n ∷ [];
  of_int = integer_value;
  of_bool = flag_value;
  of_list = λ js. 1 ∷ length js ∷ slots js;
  of_fields = λ fs. 0 ∷ length fs ∷ field_slots fs;
  at = λ j k. and_then (untag 0 j) (counted (λ n s. find_slot n (literal k) s));
  get_text = untag 2;
  get_unsigned = λ j. and_then (untag 3 j) (counted (λ n s. some n));
  get_int = integer_of;
  get_bool = flag_of;
  get_list = λ j. and_then (untag 1 j) (counted items);
}

get_int-of_int : (z : ℤ) → integer_of (integer_value z) ≡ some z
get_int-of_int (pos n) = refl
get_int-of_int (negsuc n) = refl

get_bool-of_bool : (b : Bool) → flag_of (flag_value b) ≡ some b
get_bool-of_bool true = refl
get_bool-of_bool false = refl

pub sample_json-IsJsonLibrary : IsJsonLibrary sample_json
sample_json-IsJsonLibrary = record {
  parse-dump =
      λ j s e. subst (λ t. unshifted t ≡ some j) (some-injective _ _ e) (unshifted-shifted j);
  dump-pos = λ j s e. subst (All (λ b. 0 < b)) (some-injective _ _ e) (shifted_pos j);
  at-of_fields = find_slot-field_slots;
  at-of_list = λ js k. refl;
  get_text-of_text = λ s. refl;
  get_unsigned-of_unsigned = λ n h. refl;
  get_int-of_int = λ z h. get_int-of_int z;
  get_bool-of_bool = get_bool-of_bool;
  get_list-of_list = items-slots;
}
