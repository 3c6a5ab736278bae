-- ===== src/Shared/Money.antt =====
-- apps/api/src/shared/money/money.ts: minor units and their decimal texts. A text is the list of its
-- character codes, and the regular expression of the parser is written out from left to right.
use system_delivery.Prelude.{
  ℕ, ◌+◌, ◌/◌, ◌%◌, ◌^◌, ◌==◌, ltb, leb, Bool, true, false, ◌&&◌, ◌||◌, not, Option, none, some, [],
  ◌∷◌, ◌++◌, length, is_empty, if◌then◌else◌,
}
use system_delivery.Prelude.Int.{ℤ, pos, negsuc, pos_part, neg_part, neg_ℤ}
use system_delivery.Prelude.Tx.{Result, ok, err, business_rule, invalid_amount}
use system_delivery.Prelude.Decimal.{Text, digits, read_digits, pad_start, pad_end, is_digit}

abbrev pub is_negative : ℤ → Bool
is_negative (pos n) = false
is_negative (negsuc n) = true

-- `negative ? "-" : ""`
abbrev pub sign_text : Bool → Text
sign_text true = b'-' ∷ []
sign_text false = []

-- `formatMinorUnits`
unfoldable pub format_minor_units : ℤ → ℕ → Text
format_minor_units amount_minor exponent =
    let magnitude = pos_part amount_minor + neg_part amount_minor in
    let sign = sign_text (is_negative amount_minor) in
    let divisor = 10 ^ exponent in
    if exponent == 0
    then sign ++ digits magnitude
    else sign
      ++ (digits (magnitude / divisor) ++ b'.' ∷ pad_start exponent (digits (magnitude % divisor)))

-- `\s`
abbrev pub is_space : ℕ → Bool
is_space c =
    leb 9 c && leb c 13
    || c == 32
    || c == 160
    || c == 5760
    || leb 8192 c && leb c 8202
    || c == 8232
    || c == 8233
    || c == 8239
    || c == 8287
    || c == 12288
    || c == 65279

-- `\s*`
abbrev pub skip_spaces : Text → Text
skip_spaces [] = []
skip_spaces (c ∷ cs) = if is_space c then skip_spaces cs else c ∷ cs

-- `(-)?`
abbrev pub take_sign : Text → Bool × Text
take_sign [] = (false, [])
take_sign (c ∷ cs) = if c == b'-' then (true, cs) else (false, c ∷ cs)

-- `\d*`
abbrev pub take_digits : Text → Text × Text
take_digits [] = ([], [])
take_digits (c ∷ cs) =
    let (ds, rest) = take_digits cs in if is_digit c then (c ∷ ds, rest) else ([], c ∷ cs)

-- `(?:\.(\d+))?`
abbrev pub take_fraction : Text → Text × Text
take_fraction [] = ([], [])
take_fraction (c ∷ cs) =
    let (ds, rest) = take_digits cs in
    if c == b'.' && not (is_empty ds) then (ds, rest) else ([], c ∷ cs)

-- `/^\s*(-)?(\d+)(?:\.(\d+))?\s*$/.exec(value)`: the sign, the whole part and the fraction.
unfoldable pub match_amount : Text → Option (Bool × Text × Text)
match_amount value =
    let (sign, unsigned) = take_sign (skip_spaces value) in
    let (whole, after) = take_digits unsigned in
    let (fraction, end) = take_fraction after in
    if is_empty whole || not (is_empty (skip_spaces end))
    then none
    else some (sign, whole, fraction)

-- `parseMinorUnits`
unfoldable pub parse_minor_units : Text → ℕ → Result ℤ
parse_minor_units value exponent = elim (match_amount value) [
  | none ↦ err (business_rule invalid_amount)
  | some (sign, whole, fraction) ↦
      if ltb exponent (length fraction)
      then err (business_rule invalid_amount)
      else (let magnitude = pos (read_digits (whole ++ pad_end exponent fraction)) in
          ok (if sign then neg_ℤ magnitude else magnitude))
]
