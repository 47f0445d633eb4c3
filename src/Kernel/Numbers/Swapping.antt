-- ===== src/Kernel/Numbers/Swapping.antt =====
-- The second loop of SC_PrintInt of userprog/exception.cc, which swaps the digits from both ends.
use nach_operator_system.Prelude.{
  ℕ, zero, suc, ◌+◌, ◌-◌, ◌*◌, ◌/◌, ◌≤◌, ◌<◌, ◌≡◌, refl, ◌∙◌, Bool, true, false, ◌&&◌, Option, some,
  none, List, [], ◌∷◌, ◌++◌, ltb, leb, ◌==◌, if◌then◌else◌, arith, length, get_elem?, set,
  length-set, length-append, get_elem?-set, get_elem?-some, ap, lt→ltb, ap₂, eq_of_some, Bool-cases,
  inl, inr,
}
use mathlib.Core.List.{reverse, reverse-cons}
use nach_operator_system.Kernel.Numbers.{swap_loop}

-- What two loops over `f` leave: the places from `size - i` up to `i` read backwards.
abbrev Mirror : {A : Type 0} → ℕ → ℕ → (ℕ → A) → ℕ → A
Mirror size i f j = if leb (size - i) j && ltb j i then f (size - 1 - j) else f j

abbrev Swap : {A : Type 0} → ℕ → ℕ → (ℕ → A) → ℕ → A
Swap p q f j = if j == q then f p else if j == p then f q else f j

module _ {A : Type 0} (f : ℕ → A) (size i : ℕ) (h : i ≤ size) (middle : size < 2 * i) where
  Mirror-Swap : (j : ℕ) → Mirror size (i - 1) (Swap (size - i) (i - 1) f) j ≡ Mirror size i f j
  Mirror-Swap j = elim (Bool-cases (j == (i - 1))) [
    | inl last ↦ let same : size - 1 - j ≡ size - i = ground arith in ground (arith, ap f same)
    | inr not_last ↦ elim (Bool-cases (j == (size - i))) [
      | inl first ↦ let same : size - 1 - j ≡ i - 1 = ground arith in ground (arith, ap f same)
      | inr not_first ↦ ground arith
    ]
  ]

if-cong :
    {A : Type 0} (b : Bool) {x x' y y' : A}
    → x ≡ x'
    → y ≡ y'
    → (if b then x else y) ≡ (if b then x' else y')
if-cong true p q = p
if-cong false p q = q

record Swapped (size i : ℕ) (s : List ℕ) (run : Option (List ℕ)) : Type 0 where
  pub out : List ℕ
  pub returns : run ≡ some out
  pub same_length : length out ≡ length s
  pub mirrored : (j : ℕ) → get_elem? out j ≡ Mirror size i (get_elem? s) j

get_elem?-swapped :
    (s : List ℕ) (p q a b : ℕ)
    → get_elem? s p ≡ some a
    → get_elem? s q ≡ some b
    → p < length s
    → q < length s
    → (j : ℕ) → get_elem? (set (set s p b) q a) j ≡ Swap p q (get_elem? s) j
get_elem?-swapped s p q a b at_p at_q hp hq j =
    let long : q < length (set s p b) = omega (arith, length-set s p b) in
    get_elem?-set (set s p b) q j a long ∙ ground (arith, get_elem?-set s p j b hp)

swap_loop-step :
    (left size i : ℕ) (s : List ℕ) (a b : ℕ)
    → get_elem? s (size - i) ≡ some a
    → get_elem? s (i - 1) ≡ some b
    → size - i < length s
    → i - 1 < length s
    → swap_loop (suc left) size i s
      ≡ swap_loop left size (i - 1) (set (set s (size - i) b) (i - 1) a)
unfolding swap_loop
swap_loop-step left size i s a b at_p at_q hp hq =
    let long : i - 1 < length (set s (size - i) b) = omega (arith, length-set s (size - i) b) in
    rw (at_p, at_q) (rw (lt→ltb _ _ hp) (rw (lt→ltb _ _ long) refl))

swap_loop-Swapped :
    (left size i : ℕ) (s : List ℕ)
    → length s ≡ size
    → i ≡ size / 2 + left
    → i ≤ size
    → Swapped size i s (swap_loop left size i s)
unfolding swap_loop
swap_loop-Swapped zero size i s hs hi h = record {
  out = s;
  returns = refl;
  same_length = refl;
  mirrored = λ j. ground arith;
}
swap_loop-Swapped (suc left) size i s hs hi h =
    let p : size - i < length s = omega arith in
    let q : i - 1 < length s = omega arith in
    let (a, at_p) = get_elem?-some s (size - i) p in
    let (b, at_q) = get_elem?-some s (i - 1) q in
    let s2 = set (set s (size - i) b) (i - 1) a in
    let l2 : length s2 ≡ length s = length-set _ (i - 1) a ∙ length-set s (size - i) b in
    let rest = swap_loop-Swapped left size (i - 1) s2 (l2 ∙ hs) (omega arith) (omega arith) in
    record {
      out = rest.out;
      returns = swap_loop-step left size i s a b at_p at_q p q ∙ rest.returns;
      same_length = rest.same_length ∙ l2;
      mirrored = λ j.
          rest.mirrored j
          ∙ if-cong (leb (size - (i - 1)) j && ltb j (i - 1))
              (get_elem?-swapped s (size - i) (i - 1) a b at_p at_q p q (size - 1 - j))
              (get_elem?-swapped s (size - i) (i - 1) a b at_p at_q p q j)
          ∙ Mirror-Swap (get_elem? s) size i h (omega arith) j;
    }

get_elem?-append :
    (xs ys : List ℕ) (j : ℕ)
    → get_elem? (xs ++ ys) j
      ≡ (if ltb j (length xs) then get_elem? xs j else get_elem? ys (j - length xs))
get_elem?-append [] ys j = ground arith
get_elem?-append (x ∷ xs) ys zero = ground arith
get_elem?-append (x ∷ xs) ys (suc j) = get_elem?-append xs ys j ∙ ground arith

pub length-reverse : (s : List ℕ) → length (reverse s) ≡ length s
length-reverse [] = refl
length-reverse (x ∷ s) =
    ap length (reverse-cons x s)
    ∙ omega (arith, length-append (reverse s) (x ∷ []), length-reverse s)

get_elem?-past : (s : List ℕ) (j : ℕ) → length s ≤ j → get_elem? s j ≡ none
get_elem?-past [] j h = refl
get_elem?-past (x ∷ s) zero h = absurd (omega arith)
get_elem?-past (x ∷ s) (suc j) h = get_elem?-past s j (omega arith)

get_elem?-reverse :
    (s : List ℕ) (j : ℕ)
    → get_elem? (reverse s) j ≡ (if ltb j (length s) then get_elem? s (length s - 1 - j) else none)
get_elem?-reverse [] j = ground arith
get_elem?-reverse (x ∷ s) j =
    ap (λ l. get_elem? l j) (reverse-cons x s)
    ∙ get_elem?-append (reverse s) (x ∷ []) j
    ∙ elim (Bool-cases (ltb j (length s))) [
      | inl below ↦
          let same : length s - j ≡ suc (length s - 1 - j) = ground arith in
          ground (arith, length-reverse s, get_elem?-reverse s j, ap (get_elem? (x ∷ s)) same)
      | inr past ↦ elim (Bool-cases (j == length s)) [
        | inl last ↦
            let same : length s - j ≡ 0 = ground arith in
            ground (
              arith,
              length-reverse s,
              ap (get_elem? (x ∷ s)) same,
              ap (get_elem? (x ∷ [])) {x = j - length (reverse s)} {y = 0}
                  (ground (arith, length-reverse s)),
            )
        | inr beyond ↦ ground (
          arith,
          length-reverse s,
          get_elem?-past (x ∷ []) (j - length (reverse s)) (ground (arith, length-reverse s)),
        )
      ]
    ]

get_elem?-ext : (xs ys : List ℕ) → ((j : ℕ) → get_elem? xs j ≡ get_elem? ys j) → xs ≡ ys
get_elem?-ext [] [] h = refl
get_elem?-ext [] (y ∷ ys) h = absurd (ground (arith, h 0))
get_elem?-ext (x ∷ xs) [] h = absurd (ground (arith, h 0))
get_elem?-ext (x ∷ xs) (y ∷ ys) h =
    ap₂ ◌∷◌ (eq_of_some x y (h 0)) (get_elem?-ext xs ys (λ j. h (suc j)))

-- The second loop of PrintInt reverses the digits.
pub swap_loop-reverse :
    (s : List ℕ) → swap_loop (length s - length s / 2) (length s) (length s) s ≡ some (reverse s)
swap_loop-reverse s =
    let n = length s in
    let done = swap_loop-Swapped (n - n / 2) n n s refl (omega arith) (omega arith) in
    done.returns
    ∙ ap some (
        get_elem?-ext done.out (reverse s) (λ j. done.mirrored j ∙ elim (Bool-cases (ltb j n)) [
          | inl below ↦ ground (arith, get_elem?-reverse s j)
          | inr past ↦ ground (arith, get_elem?-reverse s j, get_elem?-past s j (ground arith))
        ]))
