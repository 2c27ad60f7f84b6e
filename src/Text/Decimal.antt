-- ===== src/Text/Decimal.antt =====
-- Printing a uint64 in decimal and reading it back.
use native.Mathlib.Nat.{pow-suc}
use plexplore.Prelude.{
  ℕ, zero, suc, ◌+◌, ◌-◌, ◌/◌, ◌%◌, ◌^◌, ◌≤◌, ◌<◌, ◌≡◌, refl, ◌∙◌, some, [], ◌∷◌, ◌++◌, arith, ltb,
  Bool-cases, inl, inr, length, length-append, All, lt→ltb,
}
use plexplore.Ingest.Models.{Bytes}
use plexplore.Text.{digits_loop, decimal, zeros, padded, parse_digits, parse_uint, u64_mod}

parse-digits_loop :
    (fuel n : ℕ) (acc : Bytes)
    → n < 10 ^ suc fuel
    → n < u64_mod
    → parse_digits 0 (digits_loop (suc fuel) n acc) ≡ parse_digits n acc
unfolding digits_loop parse_digits
parse-digits_loop zero n acc h u = rw (lt→ltb n 10 h) (ground arith)
parse-digits_loop (suc fuel) n acc h u = elim (Bool-cases (ltb n 10)) [
  | inl small ↦ rw small (ground arith)
  | inr large ↦ rw large (
      parse-digits_loop fuel (n / 10) ((b'0' + n % 10) ∷ acc) (omega (arith, pow-suc 10 (suc fuel)))
        (omega arith)
      ∙ ground arith)
]

parse-zeros : (k : ℕ) (s : Bytes) → parse_digits 0 (zeros k ++ s) ≡ parse_digits 0 s
unfolding parse_digits
parse-zeros zero s = refl
parse-zeros (suc k) s = parse-zeros k s

-- Reading back the twenty digits of a uint64 gives the number.
pub parse-padded : (n : ℕ) → n < u64_mod → parse_digits 0 (padded n) ≡ some n
unfolding padded parse_digits
parse-padded n h =
    parse-zeros (20 - length (decimal n)) (decimal n)
    ∙ (unfold decimal in parse-digits_loop 19 n [] (omega arith) h)

-- Every byte is a decimal digit.
abbrev pub AllDigits : Bytes → Type 0
AllDigits = All λ c. (b'0' ≤ c) × (c ≤ b'9')

digits_loop-AllDigits :
    (fuel n : ℕ) (acc : Bytes) → AllDigits acc → AllDigits (digits_loop fuel n acc)
unfolding digits_loop
digits_loop-AllDigits zero n acc h = h
digits_loop-AllDigits (suc fuel) n acc h = elim (Bool-cases (ltb n 10)) [
  | inl small ↦ rw small ((ground arith, ground arith), h)
  | inr large ↦
      rw large (
        digits_loop-AllDigits fuel (n / 10) ((b'0' + n % 10) ∷ acc) ((omega arith, omega arith), h))
]

zeros-AllDigits : (k : ℕ) (s : Bytes) → AllDigits s → AllDigits (zeros k ++ s)
zeros-AllDigits zero s h = h
zeros-AllDigits (suc k) s h = ((omega arith, omega arith), zeros-AllDigits k s h)

pub padded-AllDigits : (n : ℕ) → AllDigits (padded n)
unfolding padded decimal
padded-AllDigits n =
    zeros-AllDigits (20 - length (decimal n)) (decimal n) (digits_loop-AllDigits 20 n [] tt)

length-zeros : (k : ℕ) → length (zeros k) ≡ k
length-zeros zero = refl
length-zeros (suc k) = omega (arith, length-zeros k)

parse_uint-cons :
    (s : Bytes) (n : ℕ) → 0 < length s → parse_digits 0 s ≡ some n → parse_uint s ≡ some n
unfolding parse_uint
parse_uint-cons [] n h e = elim h [ ]
parse_uint-cons (c ∷ s) n h e = e

-- `strconv.ParseUint` undoes `%020d` on every uint64.
pub parse_uint-padded : (n : ℕ) → n < u64_mod → parse_uint (padded n) ≡ some n
parse_uint-padded n h = parse_uint-cons (padded n) n (not_empty n) (parse-padded n h)
  where
    not_empty : (k : ℕ) → 0 < length (padded k)
    not_empty k =
        unfold padded in
        omega (
          arith,
          length-append (zeros (20 - length (decimal k))) (decimal k),
          length-zeros (20 - length (decimal k)),
        )
