-- ===== src/GoLib/Decimal/RoundTrip.antt =====
-- A printed int64 is read back, and its text is digits behind at most one minus sign.
use Prim.Native.Nat.{◌≤◌, ◌<◌}
use codewave_timer.Base.{
  ℕ, zero, suc, ◌+◌, ◌/◌, ◌%◌, ◌^◌, ◌≡◌, ◌≢◌, refl, ap, ◌∙◌, [], ◌∷◌, none, some, out_of_range,
  arith, Bytes, All, All-mono, ℤ, pos, negsuc, IsInt64, Lacks,
}
use codewave_timer.GoLib.Decimal.{
  max_int64, digits, format_nat, format_int, value, scan, unsigned, positive, signed, parse_int,
}

abbrev pub IsDigit : ℕ → Type 0
IsDigit c = (b'0' ≤ c) × (c ≤ b'9')

digits-All : (f n : ℕ) (out : Bytes) → All IsDigit out → All IsDigit (digits f n out)
unfolding digits
digits-All zero n out h = h
digits-All (suc f) n out h =
    ground (arith, digits-All f (n / 10) ((b'0' + n % 10) ∷ out) (omega arith, h))

pub format_nat-All : (n : ℕ) → All IsDigit (format_nat n)
unfolding format_nat
format_nat-All zero = omega arith
format_nat-All (suc n) = digits-All (suc (suc n)) (suc n) [] tt

scan_last : (n : ℕ) (out : Bytes) → n < 2 ^ 64 → scan ((b'0' + n % 10) ∷ out) (n / 10) ≡ scan out n
unfolding scan
scan_last n out h = ground arith

scan-digits : (f n : ℕ) (out : Bytes) → n < f → n < 2 ^ 64 → scan (digits f n out) 0 ≡ scan out n
unfolding digits
scan-digits zero n out h small = absurd (omega arith)
scan-digits (suc f) n out h small =
    ground (arith, scan_last n out, scan-digits f (n / 10) ((b'0' + n % 10) ∷ out))

digits-ne-nil : (f n : ℕ) (out : Bytes) → out ≢ [] → digits f n out ≢ []
unfolding digits
digits-ne-nil zero n out h = h
digits-ne-nil (suc f) n out h = ground (arith, digits-ne-nil f (n / 10) ((b'0' + n % 10) ∷ out))

format_nat-ne-nil : (n : ℕ) → format_nat n ≢ []
unfolding format_nat digits
format_nat-ne-nil zero = λ e. cc
format_nat-ne-nil (suc n) =
    ground (arith, digits-ne-nil (suc n) (suc n / 10) ((b'0' + suc n % 10) ∷ []))

scan-format_nat : (n : ℕ) → n < 2 ^ 64 → scan (format_nat n) 0 ≡ value n
unfolding format_nat scan
scan-format_nat zero h = refl
scan-format_nat (suc n) h = scan-digits (suc (suc n)) (suc n) [] (omega arith) h

unsigned-scan : (s : Bytes) → s ≢ [] → unsigned s ≡ scan s 0
unfolding unsigned
unsigned-scan [] h = absurd (h refl)
unsigned-scan (c ∷ s) h = refl

unsigned-format_nat : (n : ℕ) → n < 2 ^ 64 → unsigned (format_nat n) ≡ value n
unsigned-format_nat n h = unsigned-scan (format_nat n) (format_nat-ne-nil n) ∙ scan-format_nat n h

signed_digit : (c : ℕ) (s : Bytes) → IsDigit c → signed c s ≡ positive (unsigned (c ∷ s))
unfolding signed
signed_digit c s h = ground arith

-- A text of digits has no sign.
signed_digits :
    (s : Bytes) (n : ℕ) → All IsDigit s → unsigned s ≡ value n → parse_int s ≡ positive (value n)
unfolding parse_int
signed_digits [] n h e = cc
signed_digits (c ∷ s) n h e = signed_digit c s h.0 ∙ ap positive e

-- Every int64 is read back from its decimal print, with no error.
pub parse_int-format_int : (a : ℤ) → IsInt64 a → parse_int (format_int a) ≡ (a, none)
unfolding format_int
parse_int-format_int (pos n) h =
    signed_digits (format_nat n) n (format_nat-All n) (unsigned-format_nat n (omega arith))
    ∙ (unfold positive in ground arith)
parse_int-format_int (negsuc n) h =
    unfold parse_int format_int in rw (unsigned-format_nat (suc n) (omega arith)) (ground arith)

pub parse_int-format_nat : (n : ℕ) → n < 2 ^ 63 → parse_int (format_nat n) ≡ (pos n, none)
parse_int-format_nat n h = unfold format_int in parse_int-format_int (pos n) (omega arith)

pub format_nat-Lacks : (n : ℕ) → Lacks b'_' (format_nat n)
format_nat-Lacks n = All-mono (λ c h. omega arith) (format_nat n) (format_nat-All n)

pub format_int-Lacks : (a : ℤ) → Lacks b'_' (format_int a)
unfolding format_int
format_int-Lacks (pos n) = format_nat-Lacks n
format_int-Lacks (negsuc n) = (omega arith, format_nat-Lacks (suc n))

-- A uint64 beyond int64 is read as the greatest int64, with an error.
pub parse_int-format_nat_big :
    (n : ℕ) → 2 ^ 63 ≤ n → n < 2 ^ 64 → parse_int (format_nat n) ≡ (max_int64, some out_of_range)
parse_int-format_nat_big n low high =
    signed_digits (format_nat n) n (format_nat-All n) (unsigned-format_nat n high)
    ∙ (unfold positive in ground arith)
