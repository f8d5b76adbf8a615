-- ===== src/Decimal.antt =====
-- std::to_string of an unsigned integer, the stream operator of a signed one, and std::stoull, which src/MysqlInteractor uses to carry ids
-- through texts. Of stoull, the white space and the sign that may stand before the digits are left out.
use mathlib.Core.List.{append_assoc}
use app_server.Base.{
  ℕ, zero, suc, ◌+◌, ◌-◌, ◌*◌, ◌/◌, ◌%◌, ◌^◌, ◌<◌, ◌≡◌, refl, ◌∙◌, Bool, ◌&&◌, not, Option, none,
  some, [], ◌∷◌, Text, Bool-cases, inl, inr, ltb, ◌==◌, if◌then◌else◌, arith, true, false, sym,
  ◌++◌, ℤ, pos, negsuc,
}

-- Digits from the last one on, in front of `out`; the first argument bounds the rounds.
digits : ℕ → ℕ → Text → Text
digits zero n out = out
digits (suc f) n out =
    let longer = (b'0' + n % 10) ∷ out in
    let rest = digits f (n / 10) longer in if n / 10 == 0 then longer else rest

-- Each round divides by ten, so n + 1 rounds are enough.
unfoldable pub to_string : ℕ → Text
unfolding digits
to_string n = digits (suc n) n []

-- The stream operator for a signed number.
unfoldable pub int_to_string : ℤ → Text
int_to_string (pos n) = to_string n
int_to_string (negsuc n) = b'-' ∷ to_string (suc n)

abbrev is_digit : ℕ → Bool
is_digit c = not (ltb c b'0') && not (ltb b'9' c)

-- The digits in front are read; a value past uint64_t throws.
scan : ℕ → Text → Option ℕ
scan n [] = some n
scan n (c ∷ s) =
    let m = n * 10 + (c - b'0') in
    let rest = scan m s in if is_digit c then (if ltb m (2 ^ 64) then rest else none) else some n

unfoldable pub stoull : Text → Option ℕ
unfolding scan
stoull [] = none
stoull (c ∷ s) = if is_digit c then scan 0 (c ∷ s) else none

scan-digits : (f n : ℕ) (out : Text) → n < f → n < 2 ^ 64 → scan 0 (digits f n out) ≡ scan n out
unfolding scan digits
scan-digits zero n out h k = elim h [ ]
scan-digits (suc f) n out h k = elim (Bool-cases (n / 10 == 0)) [
  | inl last ↦ rw last (ground arith)
  | inr more ↦
      rw (more, scan-digits f (n / 10) ((b'0' + n % 10) ∷ out) (ground arith) (omega arith))
        (ground arith)
]

-- The text begins with a digit.
abbrev StartsDigit : Text → Type 0
StartsDigit [] = ⊥
StartsDigit (c ∷ s) = is_digit c ≡ true

digits-StartsDigit : (f n : ℕ) (out : Text) → n < f → StartsDigit (digits f n out)
unfolding digits
digits-StartsDigit zero n out h = elim h [ ]
digits-StartsDigit (suc f) n out h = elim (Bool-cases (n / 10 == 0)) [
  | inl last ↦ rw last (ground arith)
  | inr more ↦ rw more (digits-StartsDigit f (n / 10) ((b'0' + n % 10) ∷ out) (ground arith))
]

stoull_lem : (s : Text) → StartsDigit s → stoull s ≡ scan 0 s
unfolding stoull
stoull_lem [] h = absurd h
stoull_lem (c ∷ s) h = rw h

-- An id of 64 bits that is printed is read back as it was.
pub stoull-to_string : (n : ℕ) → n < 2 ^ 64 → stoull (to_string n) ≡ some n
unfolding to_string scan
stoull-to_string n h =
    stoull_lem (digits (suc n) n []) (digits-StartsDigit (suc n) n [] (omega arith))
    ∙ scan-digits (suc n) n [] (omega arith) h

digits-append : (f n : ℕ) (out : Text) → digits f n out ≡ digits f n [] ++ out
unfolding digits
digits-append zero n out = refl
digits-append (suc f) n out = elim (Bool-cases (n / 10 == 0)) [
  | inl last ↦ rw last refl
  | inr more ↦ rw (
    more,
    digits-append f (n / 10) ((b'0' + n % 10) ∷ out),
    digits-append f (n / 10) ((b'0' + n % 10) ∷ []),
    append_assoc (digits f (n / 10) []) ((b'0' + n % 10) ∷ []) out,
  )
]

-- Reading stops at the first byte that is no digit.
pub stoull-to_string_before :
    (n c : ℕ) (rest : Text)
    → n < 2 ^ 64
    → is_digit c ≡ false
    → stoull (to_string n ++ c ∷ rest) ≡ some n
unfolding to_string scan
stoull-to_string_before n c rest h e = rw (sym (digits-append (suc n) n (c ∷ rest))) (
    stoull_lem (digits (suc n) n (c ∷ rest)) (digits-StartsDigit (suc n) n (c ∷ rest) (omega arith))
    ∙ scan-digits (suc n) n (c ∷ rest) (omega arith) h
    ∙ rw e refl)
