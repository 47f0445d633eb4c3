-- ===== src/Kernel/Numbers/Printing.antt =====
-- The digits that SC_PrintInt of userprog/exception.cc writes: the first loop gives them from the
-- last one on, and the swaps turn them round.
use nach_operator_system.Prelude.{
  ℕ, zero, suc, ◌+◌, ◌-◌, ◌*◌, ◌/◌, ◌%◌, ◌^◌, ◌≤◌, ◌<◌, ◌≡◌, refl, ◌∙◌, true, ◌&&◌, some, List, [],
  ◌∷◌, ◌++◌, ltb, arith, length, length-append, pos, sym, subst, wrap_neg, Bool-cases, inl, inr,
}
use mathlib.Core.List.{reverse, reverse-cons}
use native.Mathlib.Nat.{pow-suc}
use nach_operator_system.Kernel.Numbers.{digit_zero, put_digits, numeral, minus_sign, parse_int}
use nach_operator_system.Kernel.Numbers.Reading.{all_digits, value, parse_int-spelled}
use nach_operator_system.Kernel.Numbers.Swapping.{swap_loop-reverse}

all_digits-append : (xs ys : List ℕ) → all_digits (xs ++ ys) ≡ (all_digits xs && all_digits ys)
all_digits-append [] ys = refl
all_digits-append (x ∷ xs) ys = ground (arith, all_digits-append xs ys)

value-append : (xs ys : List ℕ) (n : ℕ) → value n (xs ++ ys) ≡ value (value n xs) ys
value-append [] ys n = refl
value-append (x ∷ xs) ys n = value-append xs ys (n * 10 + (x - digit_zero))

-- The decimal digits of `n`, at most `k` of them.
pub record IsNumeral (k n : ℕ) (text : List ℕ) : Type 0 where
  pub some_digit : 0 < length text
  pub short : length text ≤ k
  pub digits : all_digits text ≡ true
  pub spells : value 0 text ≡ n

IsNumeral-one : (k n : ℕ) → n < 10 → IsNumeral (suc k) n ((n % 10 + digit_zero) ∷ [])
IsNumeral-one k n h = record {
  some_digit = omega arith;
  short = omega arith;
  digits = ground arith;
  spells = omega arith;
}

IsNumeral-last :
    (k n : ℕ) (text : List ℕ)
    → IsNumeral k (n / 10) text
    → IsNumeral (suc k) n (text ++ (n % 10 + digit_zero) ∷ [])
IsNumeral-last k n text t =
    let one = (n % 10 + digit_zero) ∷ [] in
    record {
      some_digit = omega (arith, length-append text one, t.some_digit);
      short = omega (arith, length-append text one, t.short);
      digits = all_digits-append text one ∙ ground (arith, t.digits);
      spells = value-append text one 0 ∙ omega (arith, t.spells);
    }

put_digits-more :
    (left n : ℕ) (ds : List ℕ)
    → ltb 0 (n / 10) ≡ true
    → put_digits left (n / 10) ≡ some ds
    → put_digits (suc left) n ≡ some ((n % 10 + digit_zero) ∷ ds)
unfolding put_digits
put_digits-more left n ds more run = rw more (rw run refl)

put_digits-IsNumeral :
    (left k n : ℕ)
    → k ≤ left
    → n < 10 ^ suc k
    → (ds : List ℕ) × (put_digits (suc left) n ≡ some ds) × IsNumeral (suc k) n (reverse ds)
unfolding put_digits
put_digits-IsNumeral left zero n hk h =
    ((n % 10 + digit_zero) ∷ [], ground arith, IsNumeral-one 0 n (omega arith))
put_digits-IsNumeral zero (suc k) n hk h = absurd (omega arith)
put_digits-IsNumeral (suc left) (suc k) n hk h = elim (Bool-cases (ltb 0 (n / 10))) [
  | inl more ↦
      let small : n / 10 < 10 ^ suc k = omega (arith, pow-suc 10 (suc k)) in
      let (ds, run, t) = put_digits-IsNumeral left k (n / 10) (omega arith) small in
      let turned = sym (reverse-cons (n % 10 + digit_zero) ds) in
      (
        (n % 10 + digit_zero) ∷ ds,
        put_digits-more (suc left) n ds more run,
        subst (IsNumeral (suc (suc k)) n) turned (IsNumeral-last (suc k) n (reverse ds) t),
      )
  | inr last ↦ ((n % 10 + digit_zero) ∷ [], ground arith, IsNumeral-one (suc k) n (ground arith))
]

-- PrintInt writes the decimal digits of a number that is not below zero.
pub numeral-IsNumeral :
    (n : ℕ) → n < 10 ^ 10 → (text : List ℕ) × (numeral (pos n) ≡ some text) × IsNumeral 10 n text
unfolding numeral
numeral-IsNumeral n h =
    let (ds, run, t) = put_digits-IsNumeral 99 9 n (omega arith) h in
    (reverse ds, rw run (swap_loop-reverse ds), t)

-- ReadInt gives back what the digits spell.
pub parse_int-numeral :
    (k n : ℕ) (text : List ℕ) → IsNumeral k n text → n < 2 ^ 31 → parse_int text ≡ n
parse_int-numeral k n [] t h = absurd (omega (arith, t.some_digit))
parse_int-numeral k n (c ∷ rest) t h =
    parse_int-spelled (c ∷ rest) ∙ ground (arith, t.digits, t.spells)

pub parse_int-negative :
    (k n : ℕ) (text : List ℕ)
    → IsNumeral k n text
    → n ≤ 2 ^ 31
    → parse_int (minus_sign ∷ text) ≡ wrap_neg n
parse_int-negative k n text t h =
    parse_int-spelled (minus_sign ∷ text) ∙ ground (arith, t.digits, t.spells)
