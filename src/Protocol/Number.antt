-- ===== src/Protocol/Number.antt =====
-- `parse_sequence` against the number that a string of digits spells.
use obs_vscode_privacy_guard.Base.{
  All, Bytes, [], arith, foldl, length, refl, some, sym, u64_mod, ℕ, ◌*◌, ◌+◌, ◌-◌, ◌<◌, ◌↔◌, ◌∙◌,
  ◌∷◌, ◌≡◌, ◌≢◌, ◌≤◌,
}
use obs_vscode_privacy_guard.Protocol.{digit_count, digit_value, parse_sequence}

abbrev pub IsDigit : ℕ → Type 0
IsDigit c = (b'0' ≤ c) × (c ≤ b'9')

-- The decimal number that digits spell, with no bound.
abbrev pub number_from : ℕ → Bytes → ℕ
number_from = foldl (λ n c. n * 10 + (c - b'0'))

-- `n` in decimal, with any number of leading zeros, and within 64 bits.
pub record Spells (s : Bytes) (n : ℕ) : Type 0 where
  pub some_digit : s ≢ []
  pub digits : All IsDigit s
  pub spelled : number_from 0 s ≡ n
  pub fits : n < u64_mod

digit_count-le : (s : Bytes) → digit_count s ≤ length s
unfolding digit_count
digit_count-le [] = omega arith
digit_count-le (c ∷ s) = ground (arith, digit_count-le s)

digit_count-All : (s : Bytes) → (digit_count s ≡ length s) ↔ All IsDigit s
unfolding digit_count
digit_count-All [] = ((λ _. tt), λ _. refl)
digit_count-All (c ∷ s) =
    (λ e. ground (arith, digit_count-All s), λ h. ground (arith, digit_count-All s))

digit_value-number_from : (s : Bytes) (n : ℕ) → All IsDigit s → digit_value n s ≡ number_from n s
unfolding digit_value
digit_value-number_from [] n h = refl
digit_value-number_from (c ∷ s) n (hc, hs) =
    ground (arith, digit_value-number_from s (n * 10 + (c - b'0')) hs)

some_digit-digit_count : (s : Bytes) → s ≡ [] → digit_count s ≡ 0
unfolding digit_count
some_digit-digit_count [] q = refl
some_digit-digit_count (c ∷ s) q = cc

length-zero : (s : Bytes) → length s ≡ 0 → s ≡ []
length-zero [] q = refl
length-zero (c ∷ s) q = absurd (omega arith)

parse_sequence_cases :
    (s : Bytes) (n : ℕ)
    → (parse_sequence s ≡ some n)
      ↔ ((digit_count s ≢ 0) × (digit_count s ≡ length s) × (digit_value 0 s ≡ n) × (n < u64_mod))
unfolding parse_sequence
parse_sequence_cases s n = (λ e. ground arith, λ h. ground arith)

-- A sequence is read exactly from one or more digits, with nothing before or behind them, that
-- spell a number within 64 bits; and it is that number.
pub parse_sequence_iff : (s : Bytes) (n : ℕ) → (parse_sequence s ≡ some n) ↔ Spells s n
parse_sequence_iff s n = (to, from)
  where
    to : parse_sequence s ≡ some n → Spells s n
    to e =
        let (ne, whole, value, fits) = (parse_sequence_cases s n).0 e in
        let digits = (digit_count-All s).0 whole in
        record {
          some_digit = λ q. ne (some_digit-digit_count s q);
          digits = digits;
          spelled = sym (digit_value-number_from s 0 digits) ∙ value;
          fits = fits;
        }

    from : Spells s n → parse_sequence s ≡ some n
    from h =
        let whole = (digit_count-All s).1 h.digits in
        (parse_sequence_cases s n).1 (
          (λ q. h.some_digit (length-zero s (sym whole ∙ q))),
          whole,
          digit_value-number_from s 0 h.digits ∙ h.spelled,
          h.fits,
        )
