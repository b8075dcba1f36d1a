-- ===== src/Util/Hex/RoundTrip.antt =====
-- util/encoding.go: reading back what was written, and what is read at all.
use mulsigo.Prelude.{
  ℕ, zero, suc, ◌-◌, ◌*◌, ◌/◌, ◌%◌, ◌<◌, ◌≤◌, ◌≡◌, refl, Bool, true, false, Option, none, some, [],
  ◌∷◌, ◌++◌, Bytes, length, take, All, ok, ◌>>=◌, or_fail, ltb, arith, Bool-cases, ltb→lt,
  Option-cases, inl, inr, append-nil, ap, sym, ◌∙◌,
}
use mulsigo.Client.Identity.{hex_digit, hex_encode}
use mulsigo.Util.Base64.RoundTrip.{IsByte}
use mulsigo.Util.Hex.{
  Error, bad_hex, hex_value, hex_decode, zeros, get_hex, read_string, read_hex, write_hex,
  string_to_element,
}

hex_value-hex_digit : (n : ℕ) → n < 16 → hex_value (hex_digit n) ≡ some n
unfolding hex_value hex_digit
hex_value-hex_digit n h = ground arith

pub hex_decode-hex_encode : (bs : Bytes) → All IsByte bs → hex_decode (hex_encode bs) ≡ some bs
unfolding hex_decode hex_encode
hex_decode-hex_encode [] h = refl
hex_decode-hex_encode (b ∷ bs) h =
    ground
      (arith, hex_value-hex_digit (b / 16), hex_value-hex_digit (b % 16), hex_decode-hex_encode bs)

length-hex_encode : (bs : Bytes) → length (hex_encode bs) ≡ length bs * 2
unfolding hex_encode
length-hex_encode [] = refl
length-hex_encode (b ∷ bs) = omega (arith, length-hex_encode bs)

-- No zero byte stands in a text that is decoded.
hex_value_zero : hex_value 0 ≡ none
unfolding hex_value
hex_value_zero = refl

hex_decode_zero : (s t : Bytes) → hex_decode (s ++ 0 ∷ t) ≡ none
unfolding hex_decode
hex_decode_zero [] [] = refl
hex_decode_zero [] (c ∷ t) = ground (arith, hex_value_zero)
hex_decode_zero (a ∷ []) t = ground (arith, hex_value_zero)
hex_decode_zero (a ∷ b ∷ s) t = ground (arith, hex_decode_zero s t)

length-zeros : (n : ℕ) → length (zeros n) ≡ n
unfolding zeros
length-zeros zero = refl
length-zeros (suc n) = ap suc (length-zeros n)

padded_fails : (s : Bytes) (n : ℕ) → 0 < n → hex_decode (s ++ zeros n) ≡ none
unfolding zeros
padded_fails s zero h = absurd (omega arith)
padded_fails s (suc n) h = hex_decode_zero s (zeros n)

length-hex_decode : (s bs : Bytes) → hex_decode s ≡ some bs → length s ≡ length bs * 2
unfolding hex_decode
length-hex_decode [] bs h = ground arith
length-hex_decode (a ∷ []) bs h = ground arith
length-hex_decode (a ∷ b ∷ s) bs h = elim (Option-cases (hex_decode s)) [
  | inl bad ↦ ground arith
  | inr (cs, good) ↦ ground (arith, length-hex_decode s cs good)
]

unpadded : (s : Bytes) (n : ℕ) → n ≡ 0 → s ++ zeros n ≡ s
unfolding zeros
unpadded s zero h = append-nil s
unpadded s (suc n) h = absurd (omega arith)

take_more : (xs ys : Bytes) (n : ℕ) → n ≡ length xs → take n (xs ++ ys) ≡ xs
take_more [] ys zero h = refl
take_more [] ys (suc n) h = absurd (omega arith)
take_more (x ∷ xs) ys zero h = absurd (omega arith)
take_more (x ∷ xs) ys (suc n) h = ap (◌∷◌ x) (take_more xs ys n (omega arith))

read_string_start :
    (xs ys : Bytes) (n : ℕ) → n ≡ length xs → 0 < n → read_string (xs ++ ys) n ≡ ok xs
unfolding read_string
read_string_start [] ys n h k = absurd (omega arith)
read_string_start (x ∷ xs) ys n h k = ap ok (take_more (x ∷ xs) ys n h)

get_hex_full :
    (s : Bytes) (len : ℕ) → length s ≡ len * 2 → get_hex (ok s) len ≡ or_fail (hex_decode s) bad_hex
unfolding get_hex
get_hex_full s len h =
    let enough : ltb (length s) len ≡ false = ground arith in
    rw (enough, unpadded s (len * 2 - length s) (omega arith)) refl

get_hex_short :
    (s : Bytes) (len : ℕ) {bs : Bytes} → length s < len * 2 → get_hex (ok s) len ≡ ok bs → ⊥
unfolding get_hex
get_hex_short s len h e = ground (arith, padded_fails s (len * 2 - length s))

or_fail_ok : (o : Option Bytes) {bs : Bytes} → or_fail {E = Error} o bad_hex ≡ ok bs → o ≡ some bs
or_fail_ok none h = cc
or_fail_ok (some b) h = cc

-- `getHex` succeeds exactly if the reader has filled the whole buffer with hexadecimal digits, though
-- its own test asks for half of that; the result has the length asked for.
pub get_hex_lem :
    (s bs : Bytes) (len : ℕ)
    → length s ≤ len * 2
    → (get_hex (ok s) len ≡ ok bs
        → (length s ≡ len * 2) × (hex_decode s ≡ some bs) × (length bs ≡ len))
      × ((length s ≡ len * 2) → hex_decode s ≡ some bs → get_hex (ok s) len ≡ ok bs)
get_hex_lem s bs len h = (
  λ e. elim (Bool-cases (ltb (length s) (len * 2))) [
    | inl short ↦ absurd (get_hex_short s len (ltb→lt _ _ short) e)
    | inr full ↦
        let long : length s ≡ len * 2 = ground arith in
        let good = or_fail_ok (hex_decode s) (sym (get_hex_full s len long) ∙ e) in
        (long, good, omega (arith, length-hex_decode s bs good))
  ],
  λ long good. get_hex_full s len long ∙ rw good refl,
)

-- An element that is written in hexadecimal is read back, also if more text follows, provided that
-- the group decodes what it has encoded.
pub string_to_element-write_hex :
    {P : Type 0} (marshal : P → Option Bytes) (unmarshal : Bytes → P × Bool) (size : ℕ) (p : P)
    (buf rest : Bytes)
    → marshal p ≡ some buf
    → unmarshal buf ≡ (p, true)
    → All IsByte buf
    → length buf ≡ size
    → 0 < size
    → (write_hex marshal unmarshal size p >>= λ s.
        string_to_element marshal unmarshal size (s ++ rest))
      ≡ ok p
string_to_element-write_hex marshal unmarshal size p buf rest m u bytes n some_size =
    let s = hex_encode buf in
    let long = length-hex_encode buf in
    let read = read_string_start s rest (size * 2) (omega arith) (omega arith) in
    let got =
      (get_hex_lem s buf size (omega arith)).1 (omega arith) (hex_decode-hex_encode buf bytes) in
    unfold string_to_element read_hex write_hex in rw (m, read, got, u) refl
