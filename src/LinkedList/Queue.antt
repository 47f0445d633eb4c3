-- ===== src/LinkedList/Queue.antt =====
-- Append, Prepend and Remove of threads/list.cc against a sequence.
use nach_operator_system.Prelude.{
  ℕ, suc, ◌≡◌, refl, sym, ap, ◌∙◌, Bool, true, false, ◌||◌, Option, some, none, List, [], ◌∷◌, ◌++◌,
  ◌==◌, if◌then◌else◌, ℤ, pos, arith, eq_of_some,
}
use nach_operator_system.LinkedList.{
  ListElement, LinkedList, update, new_element, is_empty, append, prepend, remove, drop_key,
}
use nach_operator_system.LinkedList.Chain.{
  Chain, nil, cons, Represents, has, last_of, all_below, below-has, all_below-has, last_of-has,
}
use nach_operator_system.LinkedList.Refinement.{
  alone, before, absent, framed, head_of, tail_of, sorted_remove-Represents,
}

-- The chain with a new element behind its last one, at `z`.
record Snoc {A : Type 0} (f : ℕ → Option (ListElement A)) (p : Option ℕ) (z a : ℕ) (bs : List ℕ)
    (xs : List (ℤ × A)) (key : ℤ) (item : A) : Type 0 where
  pub last : ListElement A
  pub at : f z ≡ some last
  pub chain :
      Chain
        (update f z (some (record last { next = some a })))
        p
        (bs ++ a ∷ [])
        (xs ++ (key, item) ∷ [])

pub has-append : (b : ℕ) (bs cs : List ℕ) → has b (bs ++ cs) ≡ (has b bs || has b cs)
has-append b [] cs = refl
has-append b (c ∷ bs) cs = ground (arith, has-append b bs cs)

last_of-append : (a : ℕ) (bs : List ℕ) → last_of (bs ++ a ∷ []) ≡ some a
last_of-append a [] = refl
last_of-append a (b ∷ []) = refl
last_of-append a (b ∷ c ∷ bs) = last_of-append a (c ∷ bs)

if_false : {B : Type 0} (b : Bool) (x y : B) → b ≡ false → (if b then x else y) ≡ y
if_false b x y h = rw h refl

update_ne : {B : Type 0} (f : ℕ → B) (z b : ℕ) (v : B) → (z == b) ≡ false → update f z v b ≡ f b
update_ne f z b v h = rw h refl

module _ {A : Type 0} where
  Snoc-Chain :
      (f : ℕ → Option (ListElement A)) (p : Option ℕ) (z a : ℕ) (bs : List ℕ) (xs : List (ℤ × A))
      (key : ℤ) (item : A)
      → Chain f p bs xs
      → last_of bs ≡ some z
      → has a bs ≡ false
      → f a ≡ some (record { next = none; key = key; item = item })
      → Snoc f p z a bs xs key item
  Snoc-Chain f p z a [] xs key item c ends apart new = absurd (cc)
  Snoc-Chain f p z a (b ∷ bs) [] key item c ends apart new = elim c [ ]
  Snoc-Chain f p z a (b ∷ []) ((k, x) ∷ []) key item (cons at here out (nil at_end)) ends apart
        new =
      let same : b ≡ z = eq_of_some b z ends in
      record {
        last = record { next = none; key = k; item = x };
        at =
            ap f (sym same) ∙ here ∙ ap (λ n. some (record { next = n; key = k; item = x })) at_end;
        chain =
            cons at (ground arith) (ground arith) (cons refl (ground (arith, new)) refl (nil refl));
      }
  Snoc-Chain f p z a (b ∷ []) ((k, x) ∷ y ∷ ys) key item (cons at here out c) ends apart new =
      elim c [ ]
  Snoc-Chain f p z a (b ∷ b' ∷ bs) ((k, x) ∷ xs) key item (cons {q} at here out c) ends apart new =
      let ih = Snoc-Chain f q z a (b' ∷ bs) xs key item c ends (ground arith) new in
      let (z', at_z, inside) = last_of-has b' bs in
      let same : z' ≡ z = eq_of_some z' z (sym at_z ∙ ends) in
      let differ : (z == b) ≡ false = ground (arith, out, inside, same) in
      let outside : has b ((b' ∷ bs) ++ a ∷ []) ≡ false =
        has-append b (b' ∷ bs) (a ∷ []) ∙ ground (arith, out, apart) in
      record {
        last = ih.last;
        at = ih.at;
        chain = cons at (update_ne f z b _ differ ∙ here) outside ih.chain;
      }

  append_run :
      (l : LinkedList A) (item : A) (b z : ℕ) (e : ListElement A)
      → l.first ≡ some b
      → l.last ≡ some z
      → (new_element item (pos 0) l).cells z ≡ some e
      → append item l
        ≡ some (record (new_element item (pos 0) l) {
          cells =
              update (new_element item (pos 0) l).cells z (some (record e { next = some l.fresh }));
          last = some l.fresh;
        })
  unfolding append
  append_run l item b z e at ends here = rw at (rw ends (rw here refl))

  append-Chain :
      (l : LinkedList A) (item : A) (bs : List ℕ) (xs : List (ℤ × A))
      → Chain l.cells l.first bs xs
      → l.last ≡ last_of bs
      → all_below l.fresh bs ≡ true
      → (l' : LinkedList A) × (append item l ≡ some l') × Represents l' (xs ++ (pos 0, item) ∷ [])
  unfolding append
  append-Chain l item [] [] (nil at) ends given =
      let l1 = new_element item (pos 0) l in
      (record l1 { first = some l.fresh; last = some l.fresh }, rw at refl, alone l (pos 0) item)
  append-Chain l item [] (_ ∷ xs) c ends given = elim c [ ]
  append-Chain l item (b ∷ bs) [] c ends given = elim c [ ]
  append-Chain l item (b ∷ bs) ((k, x) ∷ xs) (cons at here out c) ends given =
      let whole = cons at here out c in
      let l1 = new_element item (pos 0) l in
      let a = l.fresh in
      let (z, at_z, inside) = last_of-has b bs in
      let ys = (k, x) ∷ xs in
      let apart = absent l (pos 0) item (b ∷ bs) ys whole ends given in
      let s : Snoc l1.cells l.first z a (b ∷ bs) ys (pos 0) item =
        Snoc-Chain l1.cells l.first z a (b ∷ bs) ys (pos 0) item
          (framed l (pos 0) item (b ∷ bs) ys whole ends given) at_z apart (ground arith) in
      (
        record l1 {
          cells = update l1.cells z (some (record s.last { next = some a }));
          last = some a;
        },
        append_run l item b z s.last at (ends ∙ at_z) s.at,
        record {
          addresses = (b ∷ bs) ++ a ∷ [];
          chain = s.chain;
          ends = sym (last_of-append a (b ∷ bs));
          given =
              all_below-has (suc a) ((b ∷ bs) ++ a ∷ [])
                λ d i. ground (arith, has-append d (b ∷ bs) (a ∷ []), below-has a d (b ∷ bs) given);
        },
      )

  prepend-Chain :
      (l : LinkedList A) (item : A) (bs : List ℕ) (xs : List (ℤ × A))
      → Chain l.cells l.first bs xs
      → l.last ≡ last_of bs
      → all_below l.fresh bs ≡ true
      → (l' : LinkedList A) × (prepend item l ≡ some l') × Represents l' ((pos 0, item) ∷ xs)
  unfolding prepend
  prepend-Chain l item [] [] (nil at) ends given =
      let l1 = new_element item (pos 0) l in
      (record l1 { first = some l.fresh; last = some l.fresh }, rw at refl, alone l (pos 0) item)
  prepend-Chain l item [] (_ ∷ xs) c ends given = elim c [ ]
  prepend-Chain l item (b ∷ bs) [] c ends given = elim c [ ]
  prepend-Chain l item (b ∷ bs) ((k, x) ∷ xs) (cons at here out c) ends given =
      let (l', runs, r) =
        before l (pos 0) item (b ∷ bs) ((k, x) ∷ xs) (cons at here out c) ends given b bs at refl in
      (l', if_false (is_empty l) _ _ (rw at refl) ∙ runs, r)

  abbrev pub item_of : Option (ℤ × A) → Option A
  item_of none = none
  item_of (some (key, item)) = some item

  dropped :
      (o : Option (ℤ × A)) (l : LinkedList A)
      → ◌≡◌ {A = Option (Option A × LinkedList A)} (some (drop_key (o, l))) (some (item_of o, l))
  dropped none l = refl
  dropped (some e) l = refl

  -- On a list that stands for a sequence, Append puts an item behind it and Prepend before it, each
  -- with the key 0, and Remove takes the first pair off and gives its item, or NULL for an empty
  -- list: so Append and Remove are a queue.
  pub queue-Represents :
      (l : LinkedList A) (xs : List (ℤ × A)) (item : A)
      → Represents l xs
      → ((l' : LinkedList A) × (append item l ≡ some l') × Represents l' (xs ++ (pos 0, item) ∷ []))
        × ((l' : LinkedList A) × (prepend item l ≡ some l') × Represents l' ((pos 0, item) ∷ xs))
        × ((l' : LinkedList A) × (remove l ≡ some (item_of (head_of xs), l'))
            × Represents l' (tail_of xs))
  unfolding remove
  queue-Represents l xs item r =
      let (l', runs, r') = sorted_remove-Represents l xs r in
      (
        append-Chain l item r.addresses xs r.chain r.ends r.given,
        prepend-Chain l item r.addresses xs r.chain r.ends r.given,
        (l', rw runs (dropped (head_of xs) l'), r'),
      )
