-- ===== src/Driver/Log/Parse.antt =====
-- driver/log.c: reading the line of a record back.
use ikgt_usage.Base.{
  ℕ, zero, suc, ◌+◌, ◌*◌, ◌-◌, ◌/◌, ◌%◌, ◌^◌, ◌<◌, ◌≡◌, refl, ap, List, [], ◌∷◌, ◌++◌, append_assoc,
  arith, Bool, true, false, ◌||◌, ltb, ◌==◌, if◌then◌else◌, Bool-cases, inl, inr,
}
use ikgt_usage.Base.Text.{digit_char, print_digits, print_decimal, print_hex}
use ikgt_usage.PolicyCommon.{LogEntry}
use ikgt_usage.Driver.Log.{format_record}

-- The value of a digit, upper case.
unfoldable digit_value : ℕ → ℕ
digit_value c = if ltb c 58 then c - 48 else c - 55

abbrev is_separator : ℕ → Bool
is_separator c = (c == 44) || (c == 10)

-- A number up to the next comma or line end, and what follows it.
unfoldable pub read_field : ℕ → ℕ → List ℕ → ℕ × List ℕ
unfolding digit_value
read_field radix value [] = (value, [])
read_field radix value (c ∷ cs) =
    let rest = read_field radix (value * radix + digit_value c) cs in
    if is_separator c then (value, cs) else rest

digit_lem :
    (d : ℕ) → d < 16 → (digit_value (digit_char d) ≡ d) × (is_separator (digit_char d) ≡ false)
unfolding digit_value digit_char
digit_lem d h = ground arith

read_field_digit :
    (radix value d : ℕ) (cs : List ℕ)
    → d < 16
    → read_field radix value (digit_char d ∷ cs) ≡ read_field radix (value * radix + d) cs
unfolding read_field
read_field_digit radix value d cs h = rw ((digit_lem d h).1, (digit_lem d h).0) refl

read_decimal :
    (fuel n : ℕ) (rest : List ℕ)
    → n < 10 ^ fuel
    → read_field 10 0 (print_digits fuel 10 n rest) ≡ read_field 10 n rest
unfolding print_digits
read_decimal zero n rest h = ap (λ k. read_field 10 k rest) (omega arith)
read_decimal (suc fuel) n rest h = elim (Bool-cases (n / 10 == 0)) [
  | inl e ↦
      rw (e, read_field_digit 10 0 (n % 10) rest (omega arith))
        (ap (λ k. read_field 10 k rest) (ground (arith, e)))
  | inr e ↦
      rw
        (
          e,
          read_decimal fuel (n / 10) (digit_char (n % 10) ∷ rest) (omega arith),
          read_field_digit 10 (n / 10) (n % 10) rest (omega arith),
        )
        (ap (λ k. read_field 10 k rest) (omega arith))
]

read_hex :
    (fuel n : ℕ) (rest : List ℕ)
    → n < 16 ^ fuel
    → read_field 16 0 (print_digits fuel 16 n rest) ≡ read_field 16 n rest
unfolding print_digits
read_hex zero n rest h = ap (λ k. read_field 16 k rest) (omega arith)
read_hex (suc fuel) n rest h = elim (Bool-cases (n / 16 == 0)) [
  | inl e ↦
      rw (e, read_field_digit 16 0 (n % 16) rest (omega arith))
        (ap (λ k. read_field 16 k rest) (ground (arith, e)))
  | inr e ↦
      rw
        (
          e,
          read_hex fuel (n / 16) (digit_char (n % 16) ∷ rest) (omega arith),
          read_field_digit 16 (n / 16) (n % 16) rest (omega arith),
        )
        (ap (λ k. read_field 16 k rest) (omega arith))
]

print_digits_append :
    (fuel radix n : ℕ) (s rest : List ℕ)
    → print_digits fuel radix n s ++ rest ≡ print_digits fuel radix n (s ++ rest)
unfolding print_digits
print_digits_append zero radix n s rest = refl
print_digits_append (suc fuel) radix n s rest = elim (Bool-cases (n / radix == 0)) [
  | inl e ↦ rw e refl
  | inr e ↦ rw e (print_digits_append fuel radix (n / radix) (digit_char (n % radix) ∷ s) rest)
]

read_decimal_field :
    (n c : ℕ) (t rest : List ℕ)
    → n < 10 ^ 20
    → is_separator c ≡ true
    → read_field 10 0 ((print_decimal n ++ c ∷ t) ++ rest) ≡ (n, t ++ rest)
unfolding print_decimal read_field
read_decimal_field n c t rest h sep =
    rw
      (
        append_assoc (print_decimal n) (c ∷ t) rest,
        print_digits_append 20 10 n [] (c ∷ (t ++ rest)),
        read_decimal 20 n (c ∷ (t ++ rest)) h,
        sep,
      )
      refl

read_hex_field :
    (n c : ℕ) (t rest : List ℕ)
    → n < 16 ^ 16
    → is_separator c ≡ true
    → read_field 16 0 ((print_hex n ++ c ∷ t) ++ rest) ≡ (n, t ++ rest)
unfolding print_hex read_field
read_hex_field n c t rest h sep =
    rw
      (
        append_assoc (print_hex n) (c ∷ t) rest,
        print_digits_append 16 16 n [] (c ∷ (t ++ rest)),
        read_hex 16 n (c ∷ (t ++ rest)) h,
        sep,
      )
      refl

-- What a line says.
pub record Line : Type 0 where
  pub cpu_index : ℕ
  pub seq_num : ℕ
  pub reason : ℕ
  pub qualification : ℕ
  pub rip : ℕ
  pub gva : ℕ

-- The line that a text begins with, and what follows it.
unfoldable pub read_line : List ℕ → Line × List ℕ
unfolding read_field
read_line text =
    let (cpu_index, t1) = read_field 10 0 text in
    let (seq_num, t2) = read_field 10 0 t1 in
    let (reason, t3) = read_field 10 0 t2 in
    let (qualification, t4) = read_field 16 0 t3 in
    let (rip, t5) = read_field 16 0 t4 in
    let (gva, t6) = read_field 16 0 t5 in
    (
      record {
        cpu_index = cpu_index;
        seq_num = seq_num;
        reason = reason;
        qualification = qualification;
        rip = rip;
        gva = gva;
      },
      t6,
    )

-- The values of an entry are within their widths.
pub record InWidth (e : LogEntry) : Type 0 where
  pub seq_num : e.seq_num < 2 ^ 64
  pub reason : e.reason < 2 ^ 32
  pub qualification : e.qualification < 2 ^ 64
  pub rip : e.rip < 2 ^ 64
  pub gva : e.gva < 2 ^ 64

-- The line that `dump_log` prints for a record on a CPU determines the CPU's number and the record's
-- sequence number, reason, qualification, instruction pointer and address, whatever follows it on the
-- page, as long as each of them is within its width: a reader that splits the text at commas and line
-- ends gets them back.
pub read_line-format_record :
    (cpu_index : ℕ) (e : LogEntry) (rest : List ℕ)
    → cpu_index < 2 ^ 32
    → InWidth e
    → read_line (format_record cpu_index e ++ rest) ≡ (
      record {
        cpu_index = cpu_index;
        seq_num = e.seq_num;
        reason = e.reason;
        qualification = e.qualification;
        rip = e.rip;
        gva = e.gva;
      },
      rest,
    )
unfolding read_line format_record
read_line-format_record cpu_index e rest h w =
    rw (read_decimal_field cpu_index 44 _ rest (omega arith) refl) (
      rw (read_decimal_field e.seq_num 44 _ rest (omega (arith, w.seq_num)) refl) (
        rw (read_decimal_field e.reason 44 _ rest (omega (arith, w.reason)) refl) (
          rw (read_hex_field e.qualification 44 _ rest (omega (arith, w.qualification)) refl) (
            rw (read_hex_field e.rip 44 _ rest (omega (arith, w.rip)) refl)
              (rw (read_hex_field e.gva 10 [] rest (omega (arith, w.gva)) refl) refl)))))
