-- ===== src/LinkedList/Chain.antt =====
-- What a list of threads/list.cc stands for: the sequence of its keys and items, from the first
-- element to the last.
use nach_operator_system.Prelude.{
  ℕ, zero, suc, ◌≤◌, ◌≡◌, refl, ◌∙◌, Bool, true, false, not, ◌&&◌, ◌||◌, Option, some, none, List,
  [], ◌∷◌, ◌==◌, if◌then◌else◌, length, ℤ, arith, ltb,
}
use nach_operator_system.LinkedList.{ListElement, LinkedList}

abbrev pub has : ℕ → List ℕ → Bool
has a [] = false
has a (b ∷ bs) = (a == b) || has a bs

abbrev pub last_of : List ℕ → Option ℕ
last_of [] = none
last_of (a ∷ []) = some a
last_of (a ∷ b ∷ bs) = last_of (b ∷ bs)

abbrev pub all_below : ℕ → List ℕ → Bool
all_below n [] = true
all_below n (a ∷ bs) = ltb a n && all_below n bs

module _ {A : Type 0} where
  -- From `p` on, `next` leads through the elements at the addresses, which differ, to NULL.
  pub data Chain (f : ℕ → Option (ListElement A)) : Option ℕ → List ℕ → List (ℤ × A) → Type 0 where
    nil : {p : Option ℕ} → p ≡ none → Chain f p [] []
    cons :
        {p : Option ℕ} {a : ℕ} {q : Option ℕ} {k : ℤ} {x : A} {bs : List ℕ} {xs : List (ℤ × A)}
        → p ≡ some a
        → f a ≡ some (record { next = q; key = k; item = x })
        → has a bs ≡ false
        → Chain f q bs xs
        → Chain f p (a ∷ bs) ((k, x) ∷ xs)

  pub record Represents (l : LinkedList A) (xs : List (ℤ × A)) : Type 0 where
    pub addresses : List ℕ
    pub chain : Chain l.cells l.first addresses xs
    pub ends : l.last ≡ last_of addresses
    pub given : all_below l.fresh addresses ≡ true

  -- A chain survives a change elsewhere.
  pub frame :
      {f g : ℕ → Option (ListElement A)} {p : Option ℕ} {bs : List ℕ} {xs : List (ℤ × A)}
      → ((b : ℕ) → has b bs ≡ true → g b ≡ f b)
      → Chain f p bs xs
      → Chain g p bs xs
  frame same (nil at) = nil at
  frame same (cons {a} at e out c) =
      cons at (same a (ground arith) ∙ e) out (frame (λ b i. same b (ground arith)) c)

-- As many different numbers below `n` as there are at most.
except : ℕ → List ℕ → List ℕ
except a [] = []
except a (b ∷ bs) = let rest = except a bs in if a == b then rest else b ∷ rest

abbrev pub distinct : List ℕ → Bool
distinct [] = true
distinct (a ∷ bs) = not (has a bs) && distinct bs

has-except : (a b : ℕ) (bs : List ℕ) → has b bs ≡ false → has b (except a bs) ≡ false
unfolding except
has-except a b [] h = refl
has-except a b (c ∷ bs) h = ground (arith, has-except a b bs)

distinct-except : (a : ℕ) (bs : List ℕ) → distinct bs ≡ true → distinct (except a bs) ≡ true
unfolding except
distinct-except a [] h = refl
distinct-except a (b ∷ bs) h = ground (arith, distinct-except a bs, has-except a b bs)

length-except_absent : (a : ℕ) (bs : List ℕ) → has a bs ≡ false → length (except a bs) ≡ length bs
unfolding except
length-except_absent a [] h = refl
length-except_absent a (b ∷ bs) h = ground (arith, length-except_absent a bs)

length-except : (a : ℕ) (bs : List ℕ) → distinct bs ≡ true → length bs ≤ suc (length (except a bs))
unfolding except
length-except a [] h = omega arith
length-except a (b ∷ bs) h = ground (arith, length-except a bs, length-except_absent a bs)

all_below-except :
    (n : ℕ) (bs : List ℕ) → all_below (suc n) bs ≡ true → all_below n (except n bs) ≡ true
unfolding except
all_below-except n [] h = refl
all_below-except n (b ∷ bs) h = ground (arith, all_below-except n bs)

pub length-distinct :
    (n : ℕ) (bs : List ℕ) → distinct bs ≡ true → all_below n bs ≡ true → length bs ≤ n
length-distinct zero [] h below = omega arith
length-distinct zero (b ∷ bs) h below = absurd (ground arith)
length-distinct (suc n) bs h below = omega (
  arith,
  length-except n bs h,
  length-distinct n (except n bs) (distinct-except n bs h) (all_below-except n bs below),
)

pub below-has : (n b : ℕ) (bs : List ℕ) → all_below n bs ≡ true → has b bs ≡ true → ltb b n ≡ true
below-has n b [] below h = absurd (cc)
below-has n b (c ∷ bs) below h = ground (arith, below-has n b bs)

pub all_below-has :
    (n : ℕ) (bs : List ℕ) → ((b : ℕ) → has b bs ≡ true → ltb b n ≡ true) → all_below n bs ≡ true
all_below-has n [] h = refl
all_below-has n (b ∷ bs) h = ground (arith, h b, all_below-has n bs (λ c i. h c (ground arith)))

-- A new address is none of a list's.
pub fresh-absent : (n : ℕ) (bs : List ℕ) → all_below n bs ≡ true → has n bs ≡ false
fresh-absent n [] below = refl
fresh-absent n (b ∷ bs) below = ground (arith, fresh-absent n bs)

module _ {A : Type 0} {f : ℕ → Option (ListElement A)} where
  Chain-distinct :
      {p : Option ℕ} {bs : List ℕ} {xs : List (ℤ × A)} → Chain f p bs xs → distinct bs ≡ true
  Chain-distinct (nil at) = refl
  Chain-distinct (cons at e out c) = ground (arith, out, Chain-distinct c)

  pub length-Chain :
      {p : Option ℕ} {bs : List ℕ} {xs : List (ℤ × A)} (n : ℕ)
      → Chain f p bs xs
      → all_below n bs ≡ true
      → length bs ≤ n
  length-Chain {bs} n c below = length-distinct n bs (Chain-distinct c) below

pub last_of-has :
    (b : ℕ) (bs : List ℕ) → (z : ℕ) × (last_of (b ∷ bs) ≡ some z) × (has z (b ∷ bs) ≡ true)
last_of-has b [] = (b, refl, ground arith)
last_of-has b (c ∷ bs) = let (z, at, inside) = last_of-has c bs in (z, at, ground (arith, inside))
