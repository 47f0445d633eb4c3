-- ===== src/Kernel/Numbers.antt =====
-- The arithmetic of SC_ReadInt and SC_PrintInt, two cases of ExceptionHandler in
-- userprog/exception.cc: from the characters of a line to a number, and back.
pub mod Reading
pub mod Swapping
pub mod Printing
use nach_operator_system.Prelude.{
  ℕ, zero, suc, ◌+◌, ◌-◌, ◌*◌, ◌/◌, ◌%◌, Bool, true, false, ◌&&◌, ◌||◌, not, Option, some, none,
  List, [], ◌∷◌, ltb, leb, ◌==◌, if◌then◌else◌, length, get_elem?, ◌>>=◌, ℤ, pos, negsuc, ltb_ℤ,
  to_int, word_mod, wrap_neg,
}
use nach_operator_system.Machine.{store_at}

abbrev pub max_int_length : ℕ
max_int_length = 100

-- '-' and '0'.
abbrev pub minus_sign : ℕ
minus_sign = 45

abbrev pub digit_zero : ℕ
digit_zero = 48

-- Whether one more digit takes `num` out of the range of `int`.
abbrev pub too_large : Bool → ℕ → ℕ → Bool
too_large neg num c =
    ltb_ℤ (pos 214748364) (to_int num)
    || ((num == 214748364)
        && ((neg && ltb 8 (c - digit_zero)) || (not neg && ltb 7 (c - digit_zero))))

-- The `for` loop over the characters, with `num` and `ele`; `num` is kept as its 32 bits. A
-- character from 128 on is negative as a `char`, and no digit either way.
unfoldable pub read_digits : Bool → List ℕ → ℕ → ℕ → ℕ
read_digits neg [] num ele = num
read_digits neg (c ∷ rest) num ele =
    let num' = (num * 10 + c - digit_zero) % word_mod in
    let after = read_digits neg rest num' (if num' == 0 then ele else suc ele) in
    if ele == 10
    then 0
    else if ltb c digit_zero || ltb 57 c
    then 0
    else if too_large neg num c
    then 0
    else after

-- The number that a line of one character or more stands for.
unfoldable pub parse_int : List ℕ → ℕ
unfolding read_digits
parse_int [] = 0
parse_int (c ∷ rest) =
    if c == minus_sign
    then wrap_neg (read_digits true rest 0 0)
    else read_digits false (c ∷ rest) 0 0

-- The `do` loop that fills `s`, with room for `left` digits.
unfoldable pub put_digits : ℕ → ℕ → Option (List ℕ)
put_digits zero n = none
put_digits (suc left) n =
    let rest = put_digits left (n / 10) in
    if ltb 0 (n / 10)
    then (rest >>= λ ds. some ((n % 10 + digit_zero) ∷ ds))
    else some ((n % 10 + digit_zero) ∷ [])

-- For an `n` below zero, which -1 * n is for INT_MIN, the remainder is not above zero, and the loop
-- ends after one round.
abbrev pub digits_of : ℤ → Option (List ℕ)
digits_of (pos n) = put_digits max_int_length n
digits_of (negsuc n) = some ((digit_zero - suc n % 10) ∷ [])

-- The loop that swaps s[size - i] and s[i - 1] while `mid < i`; `i` falls with `left`.
unfoldable pub swap_loop : ℕ → ℕ → ℕ → List ℕ → Option (List ℕ)
swap_loop zero size i s = some s
swap_loop (suc left) size i s = do
  tmp ← get_elem? s (size - i)
  other ← get_elem? s (i - 1)
  s1 ← store_at s (size - i) other
  s2 ← store_at s1 (i - 1) tmp
  swap_loop left size (i - 1) s2

-- Both loops: the characters that are written after the sign.
unfoldable pub numeral : ℤ → Option (List ℕ)
unfolding put_digits swap_loop
numeral z = digits_of z >>= λ s. swap_loop (length s - length s / 2) (length s) (length s) s
