-- ===== src/Kernel/Text/RoundTrip.antt =====
-- SC_ReadInt of userprog/exception.cc on every line, and on the line that SC_PrintInt printed.
use nach_operator_system.Prelude.{
  ltb_ℤ, if◌then◌else◌, ltb, Bool-cases, inl, inr, take-length, ℕ, zero, suc, ◌^◌, ◌≤◌, ◌<◌, ◌≡◌,
  ◌≢◌, refl, ◌∙◌, Bool, true, false, some, List, [], ◌∷◌, ◌++◌, arith, length, get_elem?, pos, ap,
  wrap_neg, to_int, take, drop, length-take, negsuc,
}
use mathlib.Core.List.{append_assoc}
use nach_operator_system.Machine.{read_register}
use nach_operator_system.Kernel.{Kernel, returns, write_reg, set_result}
use nach_operator_system.Kernel.Console.{
  ended, full, put_char, read_line, console_read, console_write, key_of, plain,
}
use nach_operator_system.Kernel.Numbers.{minus_sign, parse_int, numeral}
use nach_operator_system.Kernel.Numbers.Reading.{all_digits, is_digit, spelled, parse_int-spelled}
use nach_operator_system.Kernel.Numbers.Printing.{
  numeral-IsNumeral, parse_int-numeral, parse_int-negative,
}
use nach_operator_system.Kernel.Text.{sys_print_int, sys_read_int, finish_read_int}

is_digit-plain : (c : ℕ) → is_digit c ≡ true → key_of c ≡ plain
is_digit-plain c h = ground arith

read_line-digit :
    (c : ℕ) (rest : List ℕ) (n : ℕ)
    → is_digit c ≡ true
    → read_line (suc n) (c ∷ rest) ≡ put_char c (read_line n rest)
unfolding read_line
read_line-digit c rest n h = ground arith

read_line-key :
    (c : ℕ) (rest : List ℕ) (n : ℕ)
    → key_of c ≡ plain
    → read_line (suc n) (c ∷ rest) ≡ put_char c (read_line n rest)
unfolding read_line
read_line-key c rest n h = ground (arith, h)

read_line-minus :
    (rest : List ℕ) (n : ℕ)
    → read_line (suc n) (minus_sign ∷ rest) ≡ put_char minus_sign (read_line n rest)
unfolding read_line
read_line-minus rest n = refl

-- A line of digits is read up to its end.
read_line-digits :
    (text rest : List ℕ) (n : ℕ)
    → length text < n
    → all_digits text ≡ true
    → read_line n (text ++ 10 ∷ rest) ≡ ended text rest
unfolding read_line
read_line-digits text rest zero h digits = absurd (omega arith)
read_line-digits [] rest (suc n) h digits = refl
read_line-digits (c ∷ text) rest (suc n) h digits =
    read_line-digit c (text ++ 10 ∷ rest) n (ground arith)
    ∙ ap (put_char c) (read_line-digits text rest n (omega arith) (ground arith))

-- A line with no end of line, EOF or CTRL-A inside.
abbrev pub AllPlain : List ℕ → Type 0
AllPlain [] = Unit {0}
AllPlain (c ∷ rest) = (key_of c ≡ plain) × AllPlain rest

read_line-plain :
    (text rest : List ℕ) (n : ℕ)
    → length text < n
    → AllPlain text
    → read_line n (text ++ 10 ∷ rest) ≡ ended text rest
unfolding read_line
read_line-plain text rest zero h all = absurd (omega arith)
read_line-plain [] rest (suc n) h all = refl
read_line-plain (c ∷ text) rest (suc n) h (key, all) =
    read_line-key c (text ++ 10 ∷ rest) n key
    ∙ ap (put_char c) (read_line-plain text rest n (omega arith) all)

read_line-full :
    (text rest : List ℕ) (n : ℕ)
    → n ≤ length text
    → AllPlain text
    → read_line n (text ++ rest) ≡ full (take n text) (drop n (text ++ rest))
unfolding read_line
read_line-full text rest zero h all = refl
read_line-full [] rest (suc n) h all = absurd (omega arith)
read_line-full (c ∷ text) rest (suc n) h (key, all) =
    read_line-key c (text ++ rest) n key
    ∙ ap (put_char c) (read_line-full text rest n (omega arith) all)

module _ {File World : Type 0} where
  read_int-line :
      (k : Kernel File World) (text rest : List ℕ)
      → read_line 101 (text ++ 10 ∷ rest) ≡ ended text rest
      → length text ≤ 100
      → sys_read_int (record k { input = text ++ 10 ∷ rest })
        ≡ write_reg 2 (parse_int text) (record k { input = rest })
  unfolding sys_read_int console_read finish_read_int
  read_int-line k text rest h short = rw h (ground arith)

  -- ReadInt on a line of at most 100 characters gives in r2 the `int` that the line spells, as one
  -- minus sign at most and digits whose value is an `int`, and 0 on any other such line. On a longer
  -- line it reads 101 characters and gives -2. The line has no EOF and no CTRL-A inside.
  pub read_int-spelled :
      (k : Kernel File World) (text rest : List ℕ)
      → AllPlain text
      → (length text ≤ 100
          → sys_read_int (record k { input = text ++ 10 ∷ rest })
            ≡ write_reg 2 (spelled text) (record k { input = rest }))
        × (100 < length text
            → sys_read_int (record k { input = text ++ 10 ∷ rest })
              ≡ set_result (negsuc 1) (record k { input = drop 101 (text ++ 10 ∷ rest) }))
  unfolding sys_read_int console_read finish_read_int
  read_int-spelled k text rest all = (
    λ short.
        read_int-line k text rest (read_line-plain text rest 101 (omega arith) all) short
        ∙ ap (λ v. write_reg 2 v (record k { input = rest })) (parse_int-spelled text),
    λ long.
        rw (read_line-full text (10 ∷ rest) 101 (omega arith) all)
          (rw (length-take 101 text) (ground (arith, long))),
  )

  -- What is written for a sign and a numeral.
  print_int_lem :
      (k : Kernel File World) (w : ℕ) (negative : Bool) (text : List ℕ)
      → get_elem? k.machine.registers 4 ≡ some w
      → ltb_ℤ (to_int w) (pos 0) ≡ negative
      → numeral (to_int (if negative then wrap_neg w else w)) ≡ some text
      → sys_print_int k
        ≡ returns (record k { output = k.output ++ (if negative then minus_sign ∷ text else text) })
  unfolding sys_print_int console_write read_register
  print_int_lem k w true text at sign run = rw at (
      rw sign (
        rw run (
          ap (λ o. returns (record k { output = o }))
            (ap (λ l. (k.output ++ minus_sign ∷ []) ++ l) (take-length text)
              ∙ append_assoc k.output (minus_sign ∷ []) text))))
  print_int_lem k w false text at sign run = rw at (
      rw sign (rw run (ap (λ l. returns (record k { output = k.output ++ l })) (take-length text))))

  -- PrintInt writes one line for every `int` but -2147483648, and ReadInt on that line gives the
  -- number back in r2.
  pub read_int-print_int :
      (k reader : Kernel File World) (w : ℕ) (rest : List ℕ)
      → get_elem? k.machine.registers 4 ≡ some w
      → w < 2 ^ 32
      → w ≢ 2 ^ 31
      → (text : List ℕ) × (sys_print_int k ≡ returns (record k { output = k.output ++ text }))
        × (sys_read_int (record reader { input = text ++ 10 ∷ rest })
            ≡ write_reg 2 w (record reader { input = rest }))
  read_int-print_int k reader w rest at hw not_min = elim (Bool-cases (ltb w (2 ^ 31))) [
    | inl small ↦
        let (text, run, t) = numeral-IsNumeral w (ground arith) in
        let magnitude : to_int w ≡ pos w = ground arith in
        let line = read_line-digits text rest 101 (omega (arith, t.short)) t.digits in
        (
          text,
          print_int_lem k w false text at (ground arith) (ap numeral magnitude ∙ run),
          read_int-line reader text rest line (omega (arith, t.short))
              ∙ ap (λ v. write_reg 2 v (record reader { input = rest }))
                  (parse_int-numeral 10 w text t (ground arith)),
        )
    | inr large ↦
        let n = wrap_neg w in
        let (text, run, t) = numeral-IsNumeral n (ground arith) in
        let magnitude : to_int n ≡ pos n = ground arith in
        let line =
          read_line-minus (text ++ 10 ∷ rest) 100
          ∙ ap (put_char minus_sign)
              (read_line-digits text rest 100 (omega (arith, t.short)) t.digits) in
        (
          minus_sign ∷ text,
          print_int_lem k w true text at (ground arith) (ap numeral magnitude ∙ run),
          read_int-line reader (minus_sign ∷ text) rest line (omega (arith, t.short))
              ∙ ap (λ v. write_reg 2 v (record reader { input = rest }))
                  (parse_int-negative 10 n text t (ground arith) ∙ ground arith),
        )
  ]
