-- ===== src/Shared/MoneyRoundTrip.antt =====
-- apps/api/src/shared/money/money.ts: an amount that was formatted is parsed back.
use native.Mathlib.Nat.{mod-lt, div-add-mod', one-le-pow}
use system_delivery.Prelude.{
  ℕ, zero, suc, ◌+◌, ◌-◌, ◌*◌, ◌/◌, ◌%◌, ◌^◌, ◌<◌, ◌==◌, ◌≡◌, refl, ap, ◌∙◌, ltb, Bool, true, false,
  some, [], ◌∷◌, ◌++◌, length, if◌then◌else◌, arith, is_empty, All-append, append_nil,
}
use system_delivery.Prelude.Int.{ℤ, pos, negsuc, pos_part, neg_part, neg_ℤ}
use system_delivery.Prelude.Tx.{ok}
use system_delivery.Prelude.Decimal.{
  Text, digits, read_digits, zeros, pad_start, pad_end, is_digit, IsDigits, read-digits,
  digits-IsDigits, zeros-IsDigits, length-digits, read-zeros, length-pad_start, read-append,
  read_after_lem, digits-cons,
}
use system_delivery.Shared.Money.{
  is_negative, sign_text, format_minor_units, skip_spaces, take_sign, take_digits, match_amount,
  parse_minor_units,
}

take_digits-all : (ds : Text) → IsDigits ds → take_digits ds ≡ (ds, [])
take_digits-all [] h = refl
take_digits-all (d ∷ ds) h = rw (h.0, take_digits-all ds h.1) refl

take_digits-append :
    (ds : Text) (c : ℕ) (cs : Text)
    → IsDigits ds
    → is_digit c ≡ false
    → take_digits (ds ++ c ∷ cs) ≡ (ds, c ∷ cs)
take_digits-append [] c cs h stop = rw stop refl
take_digits-append (d ∷ ds) c cs h stop = rw (h.0, take_digits-append ds c cs h.1 stop) refl

take_sign-sign_text :
    (b : Bool) (d : ℕ) (ds : Text)
    → is_digit d ≡ true
    → take_sign (skip_spaces (sign_text b ++ d ∷ ds)) ≡ (b, d ∷ ds)
take_sign-sign_text true d ds h = refl
take_sign-sign_text false d ds h = ground (arith, h)

match_whole :
    (b : Bool) (w : Text)
    → IsDigits w
    → is_empty w ≡ false
    → match_amount (sign_text b ++ w) ≡ some (b, w, [])
unfolding match_amount
match_whole b [] h e = cc
match_whole b (d ∷ ds) h e = rw (take_sign-sign_text b d ds h.0, take_digits-all (d ∷ ds) h) refl

match_point :
    (b : Bool) (w f : Text)
    → IsDigits w
    → IsDigits f
    → is_empty w ≡ false
    → is_empty f ≡ false
    → match_amount (sign_text b ++ (w ++ b'.' ∷ f)) ≡ some (b, w, f)
unfolding match_amount
match_point b [] f h hf e ef = cc
match_point b (d ∷ ds) [] h hf e ef = cc
match_point b (d ∷ ds) (f ∷ fs) h hf e ef =
    rw
      (
        take_sign-sign_text b d (ds ++ b'.' ∷ f ∷ fs) h.0,
        take_digits-append (d ∷ ds) b'.' (f ∷ fs) h refl,
        take_digits-all (f ∷ fs) hf,
      )
      refl

-- A sign and a magnitude.
abbrev signed : Bool → ℕ → ℤ
signed b n = if b then neg_ℤ (pos n) else pos n

signed_lem : (a : ℤ) → signed (is_negative a) (pos_part a + neg_part a) ≡ a
unfolding neg_ℤ
signed_lem (pos n) = ap pos (omega arith)
signed_lem (negsuc n) = ground arith

digits_some : (n : ℕ) → is_empty (digits n) ≡ false
digits_some n = let (d, ds, e) = digits-cons n in rw e refl

-- A fraction of `e + 1` digits.
abbrev fraction : ℕ → ℕ → Text
fraction e r = pad_start (suc e) (digits r)

fraction-IsDigits : (e r : ℕ) → IsDigits (fraction e r)
fraction-IsDigits e r =
    All-append (λ c. is_digit c ≡ true) (zeros (suc e - length (digits r))) (digits r)
      (zeros-IsDigits (suc e - length (digits r))) (digits-IsDigits r)

length-fraction : (e r : ℕ) → r < 10 ^ suc e → length (fraction e r) ≡ suc e
length-fraction e r h = length-pad_start (suc e) (digits r) (length-digits e r h)

some_digit : (e : ℕ) (cs : Text) → length cs ≡ suc e → is_empty cs ≡ false
some_digit e [] h = absurd (omega (arith, h))
some_digit e (c ∷ cs) h = refl

zeros_none : (k : ℕ) → k ≡ 0 → zeros k ≡ []
zeros_none zero h = refl
zeros_none (suc k) h = absurd (omega (arith, h))

-- The whole part and a full fraction make up the magnitude.
read_parts :
    (e n : ℕ)
    → let r = n % 10 ^ suc e in
      r < 10 ^ suc e → read_digits (digits (n / 10 ^ suc e) ++ pad_end (suc e) (fraction e r)) ≡ n
read_parts e n h =
    let f = fraction e (n % 10 ^ suc e) in
    let len = length-fraction e (n % 10 ^ suc e) h in
    let tail : read_digits f ≡ n % 10 ^ suc e =
      read-zeros (suc e - length (digits (n % 10 ^ suc e))) (digits (n % 10 ^ suc e))
      ∙ read-digits (n % 10 ^ suc e) in
    let rest : read_digits (digits (n / 10 ^ suc e)) * 10 ^ length f + read_digits f ≡ n =
      rw (len, tail, read-digits (n / 10 ^ suc e)) (div-add-mod' n (10 ^ suc e)) in
    rw (zeros_none (suc e - length f) (omega (arith, len)), append_nil f)
      (read-append 0 (digits (n / 10 ^ suc e)) f
        ∙ read_after_lem (read_digits (digits (n / 10 ^ suc e))) f
        ∙ rest)

parse_whole : (b : Bool) (n : ℕ) → parse_minor_units (sign_text b ++ digits n) 0 ≡ ok (signed b n)
unfolding parse_minor_units
parse_whole b n =
    rw
      (
        match_whole b (digits n) (digits-IsDigits n) (digits_some n),
        append_nil (digits n),
        read-digits n,
        parse_minor_units,
      )
      refl

parse_point :
    (b : Bool) (e n : ℕ)
    → parse_minor_units
        (sign_text b
          ++ (digits (n / 10 ^ suc e) ++ b'.' ∷ pad_start (suc e) (digits (n % 10 ^ suc e))))
        (suc e)
      ≡ ok (signed b n)
unfolding parse_minor_units
parse_point b e n =
    let r = n % 10 ^ suc e in
    let small : r < 10 ^ suc e = mod-lt n (one-le-pow (suc e) 10 (omega arith)) in
    let len = length-fraction e r small in
    let fits : ltb (suc e) (length (fraction e r)) ≡ false = rw len (ground arith) in
    rw
      (
        match_point b (digits (n / 10 ^ suc e)) (fraction e r) (digits-IsDigits (n / 10 ^ suc e))
            (fraction-IsDigits e r) (digits_some (n / 10 ^ suc e))
            (some_digit e (fraction e r) len),
        fits,
        read_parts e n small,
        parse_minor_units,
      )
      refl

-- Whatever the amount and the number of decimals of its currency, the text that formatMinorUnits
-- writes is read back by parseMinorUnits as the same amount.
pub parse_minor_units-format_minor_units :
    (amount : ℤ) (exponent : ℕ)
    → parse_minor_units (format_minor_units amount exponent) exponent ≡ ok amount
unfolding format_minor_units
parse_minor_units-format_minor_units a zero =
    parse_whole (is_negative a) (pos_part a + neg_part a) ∙ ap ok (signed_lem a)
parse_minor_units-format_minor_units a (suc e) =
    let decimals : suc e == 0 ≡ false = ground arith in
    rw (decimals, format_minor_units)
      (parse_point (is_negative a) e (pos_part a + neg_part a) ∙ ap ok (signed_lem a))
