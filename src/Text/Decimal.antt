-- ===== src/Text/Decimal.antt =====
-- `to_string` and `parse` of Rust's integers, and their round trip.
use cncnet_server.Base.{
  ℕ, zero, suc, ◌+◌, ◌-◌, ◌*◌, ◌/◌, ◌%◌, ◌^◌, ◌≤◌, ◌<◌, ◌≡◌, ◌∙◌, Bool, true, false, ◌&&◌, Option,
  none, some, List, [], ◌∷◌, ltb, leb, ◌==◌, if◌then◌else◌, All, arith, Bool-cases, inl, inr,
}

-- The digits of a number in front of a text; twenty are enough for 64 bits.
unfoldable pub digits_onto : ℕ → ℕ → List ℕ → List ℕ
digits_onto zero n s = s
digits_onto (suc f) n s =
    let rest = digits_onto f (n / 10) ((48 + n % 10) ∷ s) in
    if ltb n 10 then (48 + n % 10) ∷ s else rest

-- `to_string` of an unsigned integer.
unfoldable pub to_string : ℕ → List ℕ
unfolding digits_onto
to_string n = digits_onto 20 n []

-- `to_string` of an i16, given as its bit pattern.
unfoldable pub i16_to_string : ℕ → List ℕ
i16_to_string p = if ltb p 32768 then to_string p else b'-' ∷ to_string (65536 - p)

abbrev pub is_digit : ℕ → Bool
is_digit c = leb 48 c && leb c 57

-- The digits of a text after the value `v`, with the overflow check at each.
unfoldable pub parse_digits : ℕ → ℕ → List ℕ → Option ℕ
parse_digits limit v [] = some v
parse_digits limit v (c ∷ s) =
    let w = v * 10 + (c - 48) in
    let rest = parse_digits limit w s in
    if (leb 48 c && leb c 57) && ltb w limit then rest else none

abbrev pub parse_some_digits : ℕ → List ℕ → Option ℕ
parse_some_digits limit [] = none
parse_some_digits limit (c ∷ s) = parse_digits limit 0 (c ∷ s)

-- `parse` to an unsigned integer below the limit.
unfoldable pub parse_unsigned : ℕ → List ℕ → Option ℕ
unfolding parse_digits
parse_unsigned limit [] = none
parse_unsigned limit (c ∷ s) =
    if c == b'+' then parse_some_digits limit s else parse_digits limit 0 (c ∷ s)

abbrev negated : Option ℕ → Option ℕ
negated none = none
negated (some m) = some ((65536 - m) % 65536)

-- `parse::<i16>`, to the bit pattern.
unfoldable pub parse_i16 : List ℕ → Option ℕ
unfolding parse_unsigned
parse_i16 [] = none
parse_i16 (c ∷ s) =
    if c == b'-' then negated (parse_some_digits 32769 s) else parse_unsigned 32768 (c ∷ s)

abbrev pow10 : ℕ → ℕ
pow10 zero = 1
pow10 (suc f) = 10 * pow10 f

-- One digit read.
parse_digits-cons :
    (limit v k n : ℕ) (s : List ℕ)
    → k < 10
    → v * 10 + k ≡ n
    → n < limit
    → parse_digits limit v ((48 + k) ∷ s) ≡ parse_digits limit n s
unfolding parse_digits
parse_digits-cons limit v k n s small e fits = ground arith

-- The inner recursion is kept shut.
digits_onto-step :
    (f n : ℕ) (s : List ℕ)
    → ltb n 10 ≡ false
    → digits_onto (suc f) n s ≡ digits_onto f (n / 10) ((48 + n % 10) ∷ s)
unfolding digits_onto
digits_onto-step f n s more = rw more

digits_onto-last :
    (f n : ℕ) (s : List ℕ) → ltb n 10 ≡ true → digits_onto (suc f) n s ≡ (48 + n % 10) ∷ s
unfolding digits_onto
digits_onto-last f n s last = rw last

parse_digits-digits_onto :
    (limit f n : ℕ) (s : List ℕ)
    → n < pow10 (suc f)
    → n < limit
    → parse_digits limit 0 (digits_onto (suc f) n s) ≡ parse_digits limit n s
parse_digits-digits_onto limit zero n s small fits =
    rw (digits_onto-last zero n s (ground arith))
      (parse_digits-cons limit 0 (n % 10) n s (omega arith) (omega arith) fits)
parse_digits-digits_onto limit (suc f) n s small fits = elim (Bool-cases (ltb n 10)) [
  | inl last ↦
      rw (digits_onto-last (suc f) n s last)
        (parse_digits-cons limit 0 (n % 10) n s (omega arith) (ground arith) fits)
  | inr more ↦ rw (digits_onto-step (suc f) n s more) (
      parse_digits-digits_onto limit f (n / 10) ((48 + n % 10) ∷ s) (omega arith) (omega arith)
      ∙ parse_digits-cons limit (n / 10) (n % 10) n s (omega arith) (omega arith) fits)
]

-- What is printed begins with a digit, if at least one digit is asked for.
digits_onto-head :
    (f n : ℕ) (s : List ℕ)
    → n < pow10 (suc f)
    → (c : ℕ) × (r : List ℕ) × (digits_onto (suc f) n s ≡ c ∷ r) × (48 ≤ c)
digits_onto-head zero n s small =
    (48 + n % 10, s, digits_onto-last zero n s (ground arith), omega arith)
digits_onto-head (suc f) n s small = elim (Bool-cases (ltb n 10)) [
  | inl last ↦ (48 + n % 10, s, digits_onto-last (suc f) n s last, omega arith)
  | inr more ↦
      let (c, r, e, digit) = digits_onto-head f (n / 10) ((48 + n % 10) ∷ s) (omega arith) in
      (c, r, digits_onto-step (suc f) n s more ∙ e, digit)
]

pub parse_digits-to_string :
    (limit n : ℕ) → n < limit → limit ≤ 2 ^ 64 → parse_digits limit 0 (to_string n) ≡ some n
unfolding to_string parse_digits
parse_digits-to_string limit n fits word = parse_digits-digits_onto limit 19 n [] (omega arith) fits

to_string-head : (n : ℕ) → n < 2 ^ 64 → (c : ℕ) × (r : List ℕ) × (to_string n ≡ c ∷ r) × (48 ≤ c)
unfolding to_string
to_string-head n small = digits_onto-head 19 n [] (omega arith)

-- What is printed is digits.
All-digits_onto :
    (f n : ℕ) (s : List ℕ)
    → All (λ c. is_digit c ≡ true) s
    → All (λ c. is_digit c ≡ true) (digits_onto f n s)
unfolding digits_onto
All-digits_onto zero n s h = h
All-digits_onto (suc f) n s h = elim (Bool-cases (ltb n 10)) [
  | inl last ↦ rw last (ground arith, h)
  | inr more ↦ rw more (All-digits_onto f (n / 10) ((48 + n % 10) ∷ s) (ground arith, h))
]

pub All-to_string : (n : ℕ) → All (λ c. is_digit c ≡ true) (to_string n)
unfolding to_string
All-to_string n = All-digits_onto 20 n [] tt

-- A number of 64 bits that is printed is read back.
pub parse_unsigned-to_string : (n : ℕ) → n < 2 ^ 64 → parse_unsigned (2 ^ 64) (to_string n) ≡ some n
unfolding parse_unsigned
parse_unsigned-to_string n small =
    let (c, r, e, digit) = to_string-head n small in
    ground (arith, e, parse_digits-to_string (2 ^ 64) n small)

-- An i16 that is printed is read back, whatever its bit pattern.
pub parse_i16-i16_to_string : (p : ℕ) → p < 65536 → parse_i16 (i16_to_string p) ≡ some p
unfolding parse_i16 i16_to_string
parse_i16-i16_to_string p small = elim (Bool-cases (ltb p 32768)) [
  | inl natural ↦
      let (c, r, e, digit) = to_string-head p (omega arith) in
      ground (arith, e, parse_digits-to_string 32768 p)
  | inr negative ↦
      let (c, r, e, digit) = to_string-head (65536 - p) (omega arith) in
      ground (arith, e, parse_digits-to_string 32769 (65536 - p))
]
