-- ===== src/Base17/Division.antt =====
-- The repeated division keeps the number: what is left of it and the digits found so far spell
-- the number at the start.
use native.Mathlib.Nat.{pow-suc, pow-succ', mul_assoc}
use knish_io_client_c.Base17.{base17_char, is_zero, divide, put_left, divide_loop, pad_left}
use knish_io_client_c.Hex.{IsByte}
use knish_io_client_c.MolecularHash.Enumerate.{IsBase17}
use knish_io_client_c.Prelude.{
  ℕ, zero, suc, ◌+◌, ◌-◌, ◌*◌, ◌/◌, ◌%◌, ◌^◌, ◌<◌, ◌≤◌, ◌≡◌, refl, ap, ◌∙◌, sym, Bool, true, ◌&&◌,
  some, [], ◌∷◌, ◌++◌, ltb, leb, ◌==◌, if◌then◌else◌, Bytes, length, replicate, All, arith,
  all_below, all_below_sound, Bool-cases, inl, inr, length-append, length-replicate, ◌||◌,
}

-- The value of bytes, and of base-17 text, read behind the value `acc` of what stands before.
abbrev pub value256 : ℕ → Bytes → ℕ
value256 acc [] = acc
value256 acc (b ∷ num) = value256 (acc * 256 + b) num

unfoldable pub base17_digit : ℕ → ℕ
base17_digit c = if leb c b'9' then c - b'0' else c - b'a' + 10

abbrev pub value17 : ℕ → Bytes → ℕ
value17 acc [] = acc
value17 acc (c ∷ text) = value17 (acc * 17 + base17_digit c) text

is_digit : ℕ → Bool
is_digit v =
    base17_digit (base17_char v) == v
    && ((leb b'0' (base17_char v) && leb (base17_char v) b'9')
        || (leb b'a' (base17_char v) && leb (base17_char v) b'g'))

is_digit_table : all_below 17 is_digit ≡ true
unfolding all_below is_digit base17_digit base17_char
is_digit_table = refl

digit_of_char : (v : ℕ) → v < 17 → (base17_digit (base17_char v) ≡ v) × IsBase17 (base17_char v)
unfolding is_digit
digit_of_char v h = (
  ground (arith, all_below_sound 17 is_digit v is_digit_table h),
  ground (arith, all_below_sound 17 is_digit v is_digit_table h),
)

record Divided (q r : ℕ) (num : Bytes) : Type 0 where
  value : value256 (17 * q + r) num ≡ 17 * value256 q (divide r num).0 + (divide r num).1
  small : (divide r num).1 < 17
  in_range : All IsByte (divide r num).0

divide-Divided : (q r : ℕ) (num : Bytes) → r < 17 → All IsByte num → Divided q r num
unfolding divide
divide-Divided q r [] h b = record { value = refl; small = h; in_range = tt }
divide-Divided q r (x ∷ num) h (bx, b) =
    let t = r * 256 + x in
    let d = divide-Divided (q * 256 + t / 17) (t % 17) num (omega arith) b in
    let small : t / 17 % 256 ≡ t / 17 = omega arith in
    let e : (17 * q + r) * 256 + x ≡ 17 * (q * 256 + t / 17) + t % 17 = omega arith in
    record { value = rw (small, e) d.value; small = d.small; in_range = (omega arith, d.in_range) }

is_zero-value256 : (num : Bytes) → is_zero num ≡ true → value256 0 num ≡ 0
unfolding is_zero
is_zero-value256 [] h = refl
is_zero-value256 (x ∷ num) h = ground (arith, is_zero-value256 num)

value256-zero : (acc : ℕ) (num : Bytes) → value256 acc num ≡ 0 → (acc ≡ 0) × (is_zero num ≡ true)
unfolding is_zero
value256-zero acc [] h = (h, refl)
value256-zero acc (x ∷ num) h =
    let ih = value256-zero (acc * 256 + x) num h in
    (omega (arith, ih.0), ground (arith, ih.0, ih.1))

record Digits (n : ℕ) (k : ℕ) (out text : Bytes) : Type 0 where
  value : value17 0 text ≡ n
  base17 : All IsBase17 out → All IsBase17 text
  short : length text ≤ k + length out

divide_loop-Digits :
    (fuel k : ℕ) (num out : Bytes)
    → k < fuel
    → k + length out ≤ 64
    → All IsByte num
    → value256 0 num < 17 ^ k
    → (text : Bytes) × (divide_loop fuel num out ≡ some text)
      × Digits (value17 (value256 0 num) out) k out text
unfolding divide_loop
divide_loop-Digits zero k num out f room b h = absurd (omega arith)
divide_loop-Digits (suc fuel) zero num out f room b h = elim (Bool-cases (is_zero num)) [
  | inl z ↦ (
    out,
    rw z,
    record { value = rw (is_zero-value256 num z); base17 = λ a. a; short = omega arith },
  )
  | inr z ↦ let none_left = (value256-zero 0 num (omega arith)).1 in absurd (cc none_left)
]
divide_loop-Digits (suc fuel) (suc k) num out f room b h = elim (Bool-cases (is_zero num)) [
  | inl z ↦ (
    out,
    rw z,
    record { value = rw (is_zero-value256 num z); base17 = λ a. a; short = omega arith },
  )
  | inr z ↦
      let d = divide-Divided 0 0 num (omega arith) b in
      let c = digit_of_char (divide 0 num).1 d.small in
      let open_room : ltb (length out) 64 ≡ true = ground arith in
      let fits : put_left (base17_char (divide 0 num).1) out ≡ base17_char (divide 0 num).1 ∷ out =
        rw open_room in
      let (text, e, g) =
        divide_loop-Digits fuel k (divide 0 num).0 (base17_char (divide 0 num).1 ∷ out)
          (omega arith) (omega arith) d.in_range (omega (arith, d.value, pow-suc 17 k)) in
      let n : value256 0 (divide 0 num).0 * 17 + base17_digit (base17_char (divide 0 num).1)
          ≡ value256 0 num =
        omega (arith, c.0, d.value) in
      (
        text,
        rw z (rw fits e),
        record {
          value = g.value ∙ ap (λ m. value17 m out) n;
          base17 = λ a. g.base17 (c.1, a);
          short = omega (arith, g.short);
        },
      )
]

pub value256-lt :
    (acc m : ℕ) (num : Bytes) → acc < m → All IsByte num → value256 acc num < m * 256 ^ length num
value256-lt acc m [] h b = let e : m * 256 ^ 0 ≡ m = omega arith in rw e h
value256-lt acc m (x ∷ num) h (bx, b) =
    let ih = value256-lt (acc * 256 + x) (m * 256) num (omega arith) b in
    let e : m * 256 ^ suc (length num) ≡ m * 256 * 256 ^ length num =
      ap (λ k. m * k) (pow-succ' 256 (length num)) ∙ sym (mul_assoc m 256 (256 ^ length num)) in
    rw e ih

value17-replicate : (n : ℕ) (text : Bytes) → value17 0 (replicate n b'0' ++ text) ≡ value17 0 text
unfolding base17_digit
value17-replicate zero text = refl
value17-replicate (suc n) text = value17-replicate n text

replicate-IsBase17 :
    (n : ℕ) (text : Bytes) → All IsBase17 text → All IsBase17 (replicate n b'0' ++ text)
replicate-IsBase17 zero text h = h
replicate-IsBase17 (suc n) text h = (refl, replicate-IsBase17 n text h)

-- A number below 17 to the 63 is written out within 64 rounds: 64 characters of its value.
pub record Written (n : ℕ) (num : Bytes) : Type 0 where
  pub text : Bytes
  pub loop : divide_loop 64 num [] ≡ some text
  pub value : value17 0 (pad_left text) ≡ n
  pub base17 : All IsBase17 (pad_left text)
  pub full : length (pad_left text) ≡ 64

pub divide_loop-Written :
    (num : Bytes) → All IsByte num → value256 0 num < 17 ^ 63 → Written (value256 0 num) num
divide_loop-Written num b h =
    let (text, e, d) = divide_loop-Digits 64 63 num [] (omega arith) (omega arith) b h in
    let pad : length (replicate {A = ℕ} (64 - length text) b'0') ≡ 64 - length text =
      length-replicate (64 - length text) b'0' in
    record {
      text = text;
      loop = e;
      value = value17-replicate (64 - length text) text ∙ d.value;
      base17 = replicate-IsBase17 (64 - length text) text (d.base17 tt);
      full = length-append (replicate (64 - length text) b'0') text ∙ omega (arith, pad, d.short);
    }
