-- ===== src/Amount/Parse.antt =====
-- packages/domain/src/index.ts: an amount of NIM, as the text that was typed, in Luna.
use pods.Base.{
  ℕ, ◌+◌, ◌*◌, ◌-◌, Bool, false, not, ◌&&◌, Option, none, some, [], ◌∷◌, ◌++◌, Result, ok, err,
  Text, trim, is_digit, is_empty, all, length, replicate, ltb, is_safe, ◌==◌, if◌then◌else◌,
}

pub data AmountError : Type 0 where
  invalid_amount too_many_decimals not_positive too_large : AmountError

-- The longest prefix of digits, and what follows it.
unfoldable pub span_digits : Text → Text × Text
span_digits [] = ([], [])
span_digits (c ∷ s) =
    let (digits, rest) = span_digits s in if is_digit c then (c ∷ digits, rest) else ([], c ∷ s)

-- 0|[1-9]\d*
abbrev pub is_whole : Text → Bool
is_whole [] = false
is_whole (c ∷ s) = if c == b'0' then is_empty s else is_digit c && all is_digit s

-- The rest (?:\.(\d+))?$, as the fraction, which is empty where there is none.
unfoldable pub match_fraction : Text → Option Text
match_fraction [] = some []
match_fraction (c ∷ s) = if c == b'.' && not (is_empty s) && all is_digit s then some s else none

-- /^(0|[1-9]\d*)(?:\.(\d+))?$/, as its two groups.
unfoldable pub match_amount : Text → Option (Text × Text)
unfolding span_digits match_fraction
match_amount s =
    let (whole, rest) = span_digits s in
    if is_whole whole
    then elim (match_fraction rest) [ none ↦ none | some fraction ↦ some (whole, fraction) ]
    else none

-- `BigInt(digits)`.
unfoldable pub read_digits : ℕ → Text → ℕ
read_digits acc [] = acc
read_digits acc (c ∷ s) = read_digits (acc * 10 + (c - b'0')) s

-- `fraction.padEnd(5, "0")`.
abbrev pub pad_end : Text → Text
pad_end s = s ++ replicate (5 - length s) b'0'

unfoldable pub parse_nim_to_luna : Text → Result AmountError ℕ
unfolding match_amount read_digits
parse_nim_to_luna value = elim (match_amount (trim value)) [
  | none ↦ err invalid_amount
  | some (whole, fraction) ↦
      if ltb 5 (length fraction)
      then err too_many_decimals
      else (let total = read_digits 0 whole * 100000 + read_digits 0 (pad_end fraction) in
          if total == 0
          then err not_positive
          else if not (is_safe total)
          then err too_large
          else ok total)
]
