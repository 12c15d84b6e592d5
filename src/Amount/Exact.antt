-- ===== src/Amount/Exact.antt =====
-- packages/domain/src/index.ts: `parseNimToLuna` reads every amount exactly.
use mathlib.Core.List.{reverse, reverse-append, reverse-reverse}
use pods.Base.{
  ℕ, zero, suc, ◌+◌, ◌*◌, ◌-◌, ◌/◌, ◌%◌, ◌≤◌, ◌<◌, ◌≡◌, refl, ap, ◌∙◌, Bool, true, not, ◌&&◌, some,
  [], ◌∷◌, ◌++◌, ok, Text, trim, trim_start, is_space, is_digit, all, length, max_safe_integer, ltb,
  if◌then◌else◌, arith, Bool-cases, inl, inr, leb_iff,
}
use pods.Amount.Parse.{
  parse_nim_to_luna, span_digits, match_fraction, match_amount, read_digits, is_whole, pad_end,
}

-- The decimal digits of a number, on fuel.
digits_of : ℕ → ℕ → Text
digits_of zero n = []
digits_of (suc f) n =
    let rest = digits_of f (n / 10) in
    if ltb n 10 then (b'0' + n) ∷ [] else rest ++ (b'0' + n % 10) ∷ []

five_digits : ℕ → Text
five_digits r =
    (b'0' + r / 10000)
    ∷ (b'0' + r / 1000 % 10)
    ∷ (b'0' + r / 100 % 10)
    ∷ (b'0' + r / 10 % 10)
    ∷ (b'0' + r % 10)
    ∷ []

-- An amount of Luna, as the text of its NIM with five decimals.
pub print_nim : ℕ → Text
unfolding digits_of five_digits
print_nim n = digits_of (suc (n / 100000)) (n / 100000) ++ b'.' ∷ five_digits (n % 100000)

read_digits-append :
    (acc : ℕ) (s : Text) (c : ℕ)
    → read_digits acc (s ++ c ∷ []) ≡ read_digits acc s * 10 + (c - b'0')
unfolding read_digits
read_digits-append acc [] c = refl
read_digits-append acc (d ∷ s) c = read_digits-append (acc * 10 + (d - b'0')) s c

read-digits_of : (f n : ℕ) → n < f → read_digits 0 (digits_of f n) ≡ n
unfolding digits_of
read-digits_of zero n h = elim h [ ]
read-digits_of (suc f) n h = elim (Bool-cases (ltb n 10)) [
  | inl small ↦ rw small (unfold read_digits in omega arith)
  | inr large ↦
      rw
        (
          large,
          read_digits-append 0 (digits_of f (n / 10)) (b'0' + n % 10),
          read-digits_of f (n / 10) (ground arith),
        )
        (omega arith)
]

all-append : (p : ℕ → Bool) (s t : Text) → all p (s ++ t) ≡ (all p s && all p t)
all-append p [] t = refl
all-append p (c ∷ s) t = ground (arith, all-append p s t)

all-reverse : (p : ℕ → Bool) (s : Text) → all p s ≡ true → all p (reverse s) ≡ true
all-reverse p [] h = refl
all-reverse p (c ∷ s) h =
    rw (reverse-append (c ∷ []) s)
      (ground (arith, all-append p (reverse s) (c ∷ []), all-reverse p s))

digits_of-digits : (f n : ℕ) → n < f → (all is_digit (digits_of f n) ≡ true)
unfolding digits_of
digits_of-digits zero n h = elim h [ ]
digits_of-digits (suc f) n h = ground (
  arith,
  all-append is_digit (digits_of f (n / 10)) ((b'0' + n % 10) ∷ []),
  digits_of-digits f (n / 10),
)

-- The first digit of a positive number is not 0.
abbrev HasLead : Text → Type 0
HasLead [] = ⊥
HasLead (c ∷ s) = (b'0' < c) × (c ≤ b'9')

HasLead-append : (s t : Text) → HasLead s → HasLead (s ++ t)
HasLead-append [] t h = elim h [ ]
HasLead-append (c ∷ s) t h = h

digits_of-HasLead : (f n : ℕ) → n < f → 0 < n → HasLead (digits_of f n)
unfolding digits_of
digits_of-HasLead zero n h k = elim h [ ]
digits_of-HasLead (suc f) n h k = elim (Bool-cases (ltb n 10)) [
  | inl small ↦ rw small (ground arith)
  | inr large ↦ rw large (
      HasLead-append (digits_of f (n / 10)) _
        (digits_of-HasLead f (n / 10) (ground arith) (ground arith)))
]

is_whole_lead : (s : Text) → HasLead s → all is_digit s ≡ true → is_whole s ≡ true
is_whole_lead [] h a = elim h [ ]
is_whole_lead (c ∷ s) h a = ground arith

is_whole-digits_of : (n : ℕ) → is_whole (digits_of (suc n) n) ≡ true
is_whole-digits_of zero = unfold digits_of in refl
is_whole-digits_of (suc n) =
    is_whole_lead _ (digits_of-HasLead (suc (suc n)) (suc n) (omega arith) (omega arith))
      (digits_of-digits (suc (suc n)) (suc n) (omega arith))

span_digits_stop :
    (s t : Text) → all is_digit s ≡ true → span_digits (s ++ b'.' ∷ t) ≡ (s, b'.' ∷ t)
unfolding span_digits
span_digits_stop [] t h = refl
span_digits_stop (c ∷ s) t h = ground (arith, span_digits_stop s t)

five_digits_good :
    (r : ℕ)
    → r < 100000
    → (all is_digit (five_digits r) ≡ true) × (read_digits 0 (five_digits r) ≡ r)
unfolding five_digits read_digits
five_digits_good r h = (ground arith, omega arith)

abbrev is_mark : ℕ → Bool
is_mark c = not (is_space c)

trim_start_marks : (s : Text) → all is_mark s ≡ true → trim_start s ≡ s
unfolding trim_start
trim_start_marks [] h = refl
trim_start_marks (c ∷ s) h = ground arith

trim_marks : (s : Text) → all is_mark s ≡ true → trim s ≡ s
unfolding trim
trim_marks s h =
    rw (trim_start_marks s h, trim_start_marks (reverse s) (all-reverse is_mark s h))
      (reverse-reverse s)

mark_of_digit : (c : ℕ) → is_digit c ≡ true → is_mark c ≡ true
unfolding is_space
mark_of_digit c h = ground arith

marks_of_digits : (s : Text) → all is_digit s ≡ true → all is_mark s ≡ true
marks_of_digits [] h = refl
marks_of_digits (c ∷ s) h = ground (arith, mark_of_digit c, marks_of_digits s)

mark_point : is_mark b'.' ≡ true
unfolding is_space
mark_point = refl

five_digits_read :
    (r : ℕ)
    → r < 100000
    → (match_fraction (b'.' ∷ five_digits r) ≡ some (five_digits r))
      × (length (five_digits r) ≡ 5)
      × (pad_end (five_digits r) ≡ five_digits r)
unfolding match_fraction
five_digits_read r h =
    let (good, _) = five_digits_good r h in
    (unfold five_digits in rw good, unfold five_digits in refl, unfold five_digits in refl)

-- Digits, a point, and five digits are read as they are written.
parse_written :
    (w r : ℕ) (whole : Text)
    → all is_digit whole ≡ true
    → is_whole whole ≡ true
    → read_digits 0 whole ≡ w
    → r < 100000
    → 0 < w * 100000 + r
    → w * 100000 + r ≤ max_safe_integer
    → parse_nim_to_luna (whole ++ b'.' ∷ five_digits r) ≡ ok (w * 100000 + r)
unfolding parse_nim_to_luna match_amount
parse_written w r whole digits good value small pos max =
    let (marks, read) = five_digits_good r small in
    let tight : all is_mark (whole ++ b'.' ∷ five_digits r) ≡ true = ground (
      arith,
      all-append is_mark whole (b'.' ∷ five_digits r),
      marks_of_digits whole,
      marks_of_digits (five_digits r),
      mark_point,
    ) in
    let (matched, five, padded) = five_digits_read r small in
    let groups : match_amount (trim (whole ++ b'.' ∷ five_digits r)) ≡ some (whole, five_digits r) =
      ap match_amount (trim_marks _ tight)
      ∙ rw (span_digits_stop whole (five_digits r) digits, match_amount)
          (rw (good, matched, span_digits_stop whole (five_digits r) digits)) in
    rw (groups, parse_nim_to_luna)
      (rw (padded, five, value, read) (ground (arith, leb_iff (w * 100000 + r) max_safe_integer)))

-- Every positive amount of Luna up to the largest safe integer, printed as NIM with five
-- decimals, is read back exactly.
pub parse-print_nim :
    (n : ℕ) → 0 < n → n ≤ max_safe_integer → parse_nim_to_luna (print_nim n) ≡ ok n
unfolding print_nim
parse-print_nim n pos max =
    let w = n / 100000 in
    let e : w * 100000 + n % 100000 ≡ n = omega arith in
    parse_written w (n % 100000) (digits_of (suc w) w) (digits_of-digits (suc w) w (omega arith))
      (is_whole-digits_of w) (read-digits_of (suc w) w (omega arith)) (omega arith)
      (omega (arith, e)) (omega (arith, e))
    ∙ ap ok e
