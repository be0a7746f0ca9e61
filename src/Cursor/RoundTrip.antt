-- ===== src/Cursor/RoundTrip.antt =====
-- A cursor that the server makes is read back.
use k_indexer.Prelude.{
  ℕ, ℤ, pos, negsuc, zero, suc, ◌+◌, ◌-◌, ◌*◌, ◌/◌, ◌%◌, ◌<◌, ◌≤◌, ◌≡◌, refl, ap, ◌∙◌, true, false,
  some, [], ◌∷◌, ◌++◌, ltb, length, Bool-cases, ltb→lt, inl, inr, All, All-imp, arith,
}
use k_indexer.Text.{Text, contains}
use k_indexer.Text.Split.{Lacks, split, join, split-join}
use k_indexer.Save.{◌>>=◌}
use k_indexer.Cursor.{
  digits, print_ℕ, print_ℤ, is_digit, scan, parse_digits, max_u64, max_i64, parse_u64, neg,
  parse_i64, create_compound_cursor, ok, parse_parts, parse_simple, parse_compound_cursor,
}

abbrev IsDigit : ℕ → Type 0
IsDigit c = is_digit c ≡ true

scan_digit :
    (max d v : ℕ) (s : Text)
    → d ≤ 9
    → v * 10 + d ≤ max
    → scan max ((b'0' + d) ∷ s) v ≡ scan max s (v * 10 + d)
unfolding scan is_digit
scan_digit max d v s hd hm = let e : b'0' + d - b'0' ≡ d = omega arith in ground (arith, e)

digits-last : (fuel n : ℕ) (out : Text) → n < 10 → digits (suc fuel) n out ≡ (b'0' + n) ∷ out
unfolding digits
digits-last fuel n out h = ground arith

digits-more :
    (fuel n : ℕ) (out : Text)
    → 10 ≤ n
    → digits (suc fuel) n out ≡ digits fuel (n / 10) ((b'0' + n % 10) ∷ out)
unfolding digits
digits-more fuel n out h = ground arith

-- Scanning the digits of n from zero leaves n, before what follows them.
scan-digits :
    (max fuel n : ℕ) (out : Text)
    → n < fuel
    → n ≤ max
    → scan max (digits fuel n out) 0 ≡ scan max out n
scan-digits max zero n out h m = absurd (omega arith)
scan-digits max (suc fuel) n out h m = elim (Bool-cases (ltb n 10)) [
  | inl e ↦
      let small : n < 10 = ltb→lt n 10 e in
      rw (digits-last fuel n out small)
        (scan_digit max n 0 out (omega arith) (omega arith) ∙ ap (scan max out) (omega arith))
  | inr e ↦
      let large : 10 ≤ n = ground arith in
      let back : n / 10 * 10 + n % 10 ≡ n = omega arith in
      rw (digits-more fuel n out large) (
        scan-digits max fuel (n / 10) ((b'0' + n % 10) ∷ out) (omega arith) (omega arith)
        ∙ scan_digit max (n % 10) (n / 10) out (omega arith) (omega arith)
        ∙ ap (scan max out) back)
]

digit-IsDigit : (d : ℕ) → d ≤ 9 → is_digit (b'0' + d) ≡ true
unfolding is_digit
digit-IsDigit d h = ground arith

digits-IsDigit : (fuel n : ℕ) (out : Text) → All IsDigit out → All IsDigit (digits fuel n out)
unfolding digits
digits-IsDigit zero n out h = h
digits-IsDigit (suc fuel) n out h = elim (Bool-cases (ltb n 10)) [
  | inl e ↦
      let small : n < 10 = ltb→lt n 10 e in
      rw (digits-last fuel n out small) (digit-IsDigit n (omega arith), h)
  | inr e ↦
      let large : 10 ≤ n = ground arith in
      rw (digits-more fuel n out large) (
        digits-IsDigit fuel (n / 10) ((b'0' + n % 10) ∷ out)
          (digit-IsDigit (n % 10) (omega arith), h))
]

print_ℕ-IsDigit : (n : ℕ) → All IsDigit (print_ℕ n)
unfolding print_ℕ
print_ℕ-IsDigit n = digits-IsDigit (suc n) n [] tt

-- A printed number has a digit.
length-digits_more : (fuel n c : ℕ) (out : Text) → length out < length (digits fuel n (c ∷ out))
unfolding digits
length-digits_more zero n c out = omega arith
length-digits_more (suc fuel) n c out = elim (Bool-cases (ltb n 10)) [
  | inl e ↦ rw (digits-last fuel n (c ∷ out) (ltb→lt n 10 e)) (omega arith)
  | inr e ↦
      rw (digits-more fuel n (c ∷ out) (ground arith))
        (omega (arith, length-digits_more fuel (n / 10) (b'0' + n % 10) (c ∷ out)))
]

length-digits : (fuel n : ℕ) (out : Text) → length out < length (digits (suc fuel) n out)
length-digits fuel n out = elim (Bool-cases (ltb n 10)) [
  | inl e ↦ rw (digits-last fuel n out (ltb→lt n 10 e)) (omega arith)
  | inr e ↦
      rw (digits-more fuel n out (ground arith))
        (length-digits_more fuel (n / 10) (b'0' + n % 10) out)
]

print_ℕ-longer : (n : ℕ) → 0 < length (print_ℕ n)
unfolding print_ℕ
print_ℕ-longer n = length-digits n n []

scan-print : (max n : ℕ) → n ≤ max → scan max (print_ℕ n) 0 ≡ some n
unfolding print_ℕ scan
scan-print max n h = scan-digits max (suc n) n [] (omega arith) h

parse_digits-scan : (max : ℕ) (s : Text) → 0 < length s → parse_digits max s ≡ scan max s 0
unfolding parse_digits
parse_digits-scan max [] h = absurd (omega arith)
parse_digits-scan max (c ∷ s) h = refl

parse_digits-print : (max n : ℕ) → n ≤ max → parse_digits max (print_ℕ n) ≡ some n
parse_digits-print max n h =
    parse_digits-scan max (print_ℕ n) (print_ℕ-longer n) ∙ scan-print max n h

digit-bounds : (c : ℕ) → is_digit c ≡ true → (b'0' ≤ c) × (c ≤ b'9')
unfolding is_digit
digit-bounds c h = ground arith

-- A text of digits has no sign.
parse_u64-digits : (s : Text) → All IsDigit s → parse_u64 s ≡ parse_digits max_u64 s
unfolding parse_u64 parse_digits
parse_u64-digits [] h = refl
parse_u64-digits (c ∷ s) h = ground (arith, digit-bounds c h.0)

parse_i64-digits :
    (s : Text) → All IsDigit s → parse_i64 s ≡ (parse_digits max_i64 s >>= λ n. some (pos n))
unfolding parse_i64 parse_digits
parse_i64-digits [] h = refl
parse_i64-digits (c ∷ s) h = ground (arith, digit-bounds c h.0)

parse_u64-print : (n : ℕ) → n ≤ max_u64 → parse_u64 (print_ℕ n) ≡ some n
parse_u64-print n h =
    parse_u64-digits (print_ℕ n) (print_ℕ-IsDigit n) ∙ parse_digits-print max_u64 n h

-- The range of an `i64`.
abbrev pub IsI64 : ℤ → Type 0
IsI64 (pos n) = n ≤ max_i64
IsI64 (negsuc n) = n ≤ max_i64

parse_i64-minus :
    (s : Text) → parse_i64 (b'-' ∷ s) ≡ (parse_digits (max_i64 + 1) s >>= λ n. some (neg n))
unfolding parse_i64
parse_i64-minus s = refl

parse_i64-print : (i : ℤ) → IsI64 i → parse_i64 (print_ℤ i) ≡ some i
unfolding print_ℤ neg
parse_i64-print (pos n) h =
    rw (parse_i64-digits (print_ℕ n) (print_ℕ-IsDigit n)) (rw (parse_digits-print max_i64 n h) refl)
parse_i64-print (negsuc n) h =
    rw (parse_i64-minus (print_ℕ (suc n)))
      (rw (parse_digits-print (max_i64 + 1) (suc n) (omega arith)) refl)

Lacks-digits : (s : Text) → All IsDigit s → Lacks b'_' s
Lacks-digits s h = All-imp s (λ c d. let b = digit-bounds c d in λ e. omega arith) h

Lacks-print_ℤ : (i : ℤ) → Lacks b'_' (print_ℤ i)
unfolding print_ℤ
Lacks-print_ℤ (pos n) = Lacks-digits (print_ℕ n) (print_ℕ-IsDigit n)
Lacks-print_ℤ (negsuc n) =
    ((λ e. omega arith), Lacks-digits (print_ℕ (suc n)) (print_ℕ-IsDigit (suc n)))

contains-append : (d : ℕ) (w s : Text) → contains (w ++ d ∷ s) d ≡ true
unfolding contains
contains-append d [] s = ground arith
contains-append d (c ∷ w) s = ground (arith, contains-append d w s)

split-cursor :
    (t : ℕ) (i : ℤ) → split b'_' (create_compound_cursor t i) ≡ print_ℕ t ∷ print_ℤ i ∷ []
unfolding create_compound_cursor join
split-cursor t i =
    split-join b'_' (print_ℕ t ∷ print_ℤ i ∷ []) (cc)
      (Lacks-digits (print_ℕ t) (print_ℕ-IsDigit t), (Lacks-print_ℤ i, tt))

parse_parts-some :
    (a b : Text) (t : ℕ) (i : ℤ)
    → parse_u64 a ≡ some t
    → parse_i64 b ≡ some i
    → parse_parts a b ≡ ok t i
unfolding parse_parts
parse_parts-some a b t i ha hb = rw (parse_parts, ha, hb) refl

cursor-contains : (t : ℕ) (i : ℤ) → contains (create_compound_cursor t i) b'_' ≡ true
unfolding create_compound_cursor
cursor-contains t i = contains-append b'_' (print_ℕ t) (print_ℤ i)

-- A cursor that is made of a `u64` and an `i64` is read back as these.
pub parse-create :
    (t : ℕ) (i : ℤ)
    → t ≤ max_u64
    → IsI64 i
    → parse_compound_cursor (create_compound_cursor t i) ≡ ok t i
unfolding parse_compound_cursor
parse-create t i ht hi =
    rw (cursor-contains t i, split-cursor t i)
      (parse_parts-some (print_ℕ t) (print_ℤ i) t i (parse_u64-print t ht) (parse_i64-print i hi))

no_underscore : (s : Text) → Lacks b'_' s → contains s b'_' ≡ false
unfolding contains
no_underscore [] h = refl
no_underscore (c ∷ s) h = ground (arith, h.0, no_underscore s h.1)

-- A printed timestamp alone is read with the greatest row id.
parse-timestamp : (t : ℕ) → t ≤ max_u64 → parse_compound_cursor (print_ℕ t) ≡ ok t (pos max_i64)
unfolding parse_compound_cursor parse_simple
parse-timestamp t ht =
    rw
      (
        no_underscore (print_ℕ t) (Lacks-digits (print_ℕ t) (print_ℕ-IsDigit t)),
        parse_simple,
        parse_u64-print t ht,
      )
      refl
