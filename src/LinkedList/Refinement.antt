-- ===== src/LinkedList/Refinement.antt =====
-- The methods of List in threads/list.cc against the operations on sequences that they stand for.
use nach_operator_system.Prelude.{
  ℕ, suc, ◌≡◌, refl, sym, ap, subst, ◌∙◌, Bool, true, false, ◌||◌, Option, some, none, List, [],
  ◌∷◌, ◌==◌, if◌then◌else◌, ℤ, arith, ltb, ltb_ℤ, Bool-cases, inl, inr,
}
use nach_operator_system.LinkedList.{
  ListElement, LinkedList, update, same_pointer, put_first, insert_loop, insert_from, remove_from,
  new_element, new_list, sorted_insert, sorted_remove,
}
use nach_operator_system.LinkedList.Chain.{
  Chain, nil, cons, Represents, has, last_of, all_below, frame, length-Chain, below-has,
  all_below-has, fresh-absent, last_of-has,
}
use nach_operator_system.LinkedList.Inserting.{insert_by, insert_loop-Inserted}

joined-below :
    (n p : ℕ) (bs after : List ℕ)
    → all_below n (p ∷ bs) ≡ true
    → ((b : ℕ) → has b after ≡ (has b bs || (n == b)))
    → all_below (suc n) (p ∷ after) ≡ true
joined-below n p bs after given members =
    all_below-has (suc n) (p ∷ after) λ b i. ground (arith, members b, below-has n b (p ∷ bs) given)

module _ {A : Type 0} where
  pub new_list-Represents : Represents {A = A} new_list []
  new_list-Represents = record { addresses = []; chain = nil refl; ends = refl; given = refl }

  module _ (l : LinkedList A) (key : ℤ) (item : A) where
    abbrev a : ℕ
    a = l.fresh

    -- The first element of an empty list.
    pub alone :
        Represents
          (record (new_element item key l) { first = some a; last = some a })
          ((key, item) ∷ [])
    alone = record {
      addresses = a ∷ [];
      chain = cons refl (ground arith) refl (nil refl);
      ends = refl;
      given = ground arith;
    }

    module _ (addresses : List ℕ) (xs : List (ℤ × A)) (c : Chain l.cells l.first addresses xs)
        (ends : l.last ≡ last_of addresses) (given : all_below a addresses ≡ true) where
      pub absent : has a addresses ≡ false
      absent = fresh-absent a addresses given

      still_given : (b : ℕ) → has b addresses ≡ true → ltb b (suc a) ≡ true
      still_given b h = ground (arith, below-has a b addresses given h)

      pub framed : Chain (new_element item key l).cells l.first addresses xs
      framed = frame (λ b i. ground (arith, absent)) c

      pub before :
          (p : ℕ) (bs : List ℕ)
          → l.first ≡ some p
          → addresses ≡ p ∷ bs
          → (l' : LinkedList A) × (put_first a (new_element item key l) ≡ some l')
            × Represents l' ((key, item) ∷ xs)
      before p bs at same =
          let l1 = new_element item key l in
          let made : l1.cells a ≡ some (record { next = none; key = key; item = item }) =
            ground arith in
          let front : ListElement A = record { next = l.first; key = key; item = item } in
          let cells' = update l1.cells a (some front) in
          (
            record l1 { cells = cells'; first = some a },
            rw made refl,
            record {
              addresses = a ∷ addresses;
              chain = cons refl (ground arith) absent (frame (λ b i. ground (arith, absent)) c);
              ends = ends ∙ ap last_of same ∙ sym (ap (λ z. last_of (a ∷ z)) same);
              given = all_below-has (suc a) (a ∷ addresses) (λ b i. ground (arith, still_given b));
            },
          )

    insert_at :
        (p : ℕ) (e : ListElement A) (less : Bool)
        → l.first ≡ some p
        → (new_element item key l).cells p ≡ some e
        → ltb_ℤ key e.key ≡ less
        → sorted_insert item key l ≡ (
            if less
            then put_first a (new_element item key l)
            else insert_loop (suc a) p a key (new_element item key l))
    unfolding sorted_insert insert_from
    insert_at p e less at here small =
        let l1 = new_element item key l in
        ap (λ o. insert_from o a key l1) at ∙ rw here (rw small refl)

    sorted_insert-Chain :
        (addresses : List ℕ) (xs : List (ℤ × A))
        → Chain l.cells l.first addresses xs
        → l.last ≡ last_of addresses
        → all_below a addresses ≡ true
        → (l' : LinkedList A) × (sorted_insert item key l ≡ some l')
          × Represents l' (insert_by key item xs)
    unfolding sorted_insert insert_from
    sorted_insert-Chain [] [] (nil at) ends given = (
      record (new_element item key l) { first = some a; last = some a },
      ap (λ o. insert_from o a key (new_element item key l)) at,
      alone,
    )
    sorted_insert-Chain [] (_ ∷ xs) c ends given = elim c [ ]
    sorted_insert-Chain (p ∷ bs) [] c ends given = elim c [ ]
    sorted_insert-Chain (p ∷ bs) ((k, x) ∷ xs) (cons {q} at here out c) ends given =
        let whole = cons at here out c in
        let l1 = new_element item key l in
        let absent' = absent (p ∷ bs) ((k, x) ∷ xs) whole ends given in
        let made : l1.cells a ≡ some (record { next = none; key = key; item = item }) =
          ground arith in
        let e : ListElement A = record { next = q; key = k; item = x } in
        let here' : l1.cells p ≡ some e = ground (arith, here, absent') in
        elim (Bool-cases (ltb_ℤ key k)) [
          | inl less ↦
              let (l', runs, r) = before (p ∷ bs) ((k, x) ∷ xs) whole ends given p bs at refl in
              let inserted : (key, item) ∷ (k, x) ∷ xs ≡ insert_by key item ((k, x) ∷ xs) =
                rw less refl in
              (l', insert_at p e true at here' less ∙ runs, subst (Represents l') inserted r)
          | inr more ↦
              let started : Chain l1.cells (some p) (p ∷ bs) ((k, x) ∷ xs) =
                subst (λ o. Chain l1.cells o (p ∷ bs) ((k, x) ∷ xs)) at
                  (framed (p ∷ bs) ((k, x) ∷ xs) whole ends given) in
              let n = length-Chain a whole given in
              let i =
                insert_loop-Inserted a key item (suc a) l1 p k x bs xs started ends absent' made
                  (omega (arith, n)) in
              let inserted : (k, x) ∷ insert_by key item xs ≡ insert_by key item ((k, x) ∷ xs) =
                rw more refl in
              (
                i.out,
                insert_at p e false at here' more ∙ i.returns,
                record {
                  addresses = p ∷ i.after;
                  chain =
                      subst
                        (λ o. Chain i.out.cells o (p ∷ i.after) (insert_by key item ((k, x) ∷ xs)))
                        (sym (i.first ∙ at))
                        (subst (Chain i.out.cells (some p) (p ∷ i.after)) inserted i.chain);
                  ends = i.ends;
                  given =
                      ap (λ f. all_below f (p ∷ i.after)) i.fresh
                      ∙ joined-below a p bs i.after given i.members;
                },
              )
        ]

  -- SortedInsert puts the item behind every element whose key is not greater, and before the rest:
  -- whatever sequence of keys and items the list stands for before, it stands for the sequence with
  -- the item inserted afterwards. The loop always ends.
  pub sorted_insert-Represents :
      (l : LinkedList A) (xs : List (ℤ × A)) (item : A) (key : ℤ)
      → Represents l xs
      → (l' : LinkedList A) × (sorted_insert item key l ≡ some l')
        × Represents l' (insert_by key item xs)
  sorted_insert-Represents l xs item key r =
      sorted_insert-Chain l key item r.addresses xs r.chain r.ends r.given

  -- What SortedRemove gives of a sequence.
  abbrev pub head_of : List (ℤ × A) → Option (ℤ × A)
  head_of [] = none
  head_of (e ∷ xs) = some e

  abbrev pub tail_of : List (ℤ × A) → List (ℤ × A)
  tail_of [] = []
  tail_of (e ∷ xs) = xs

  sorted_remove-Chain :
      (l : LinkedList A) (addresses : List ℕ) (xs : List (ℤ × A))
      → Chain l.cells l.first addresses xs
      → l.last ≡ last_of addresses
      → all_below l.fresh addresses ≡ true
      → (l' : LinkedList A) × (sorted_remove l ≡ some (head_of xs, l')) × Represents l' (tail_of xs)
  unfolding sorted_remove remove_from
  sorted_remove-Chain l [] [] (nil at) ends given = (
    l,
    ap (λ o. remove_from o l) at,
    record { addresses = []; chain = nil at; ends = ends; given = refl },
  )
  sorted_remove-Chain l [] (_ ∷ xs) c ends given = elim c [ ]
  sorted_remove-Chain l (p ∷ bs) [] c ends given = elim c [ ]
  sorted_remove-Chain l (p ∷ []) ((k, x) ∷ []) (cons at here out (nil at_end)) ends given =
      let same : same_pointer l.first l.last ≡ true = rw at (rw ends (ground arith)) in
      (
        record l { first = none; last = none; cells = update l.cells p none },
        ap (λ o. remove_from o l) at ∙ rw here (rw same refl),
        record { addresses = []; chain = nil refl; ends = refl; given = refl },
      )
  sorted_remove-Chain l (p ∷ []) ((k, x) ∷ (_ ∷ _)) (cons at here out c) ends given = elim c [ ]
  sorted_remove-Chain l (p ∷ (b ∷ bs)) ((k, x) ∷ []) (cons at here out c) ends given = elim c [ ]
  sorted_remove-Chain l (p ∷ (b ∷ bs)) ((k, x) ∷ (y ∷ ys)) (cons {q} at here out c) ends given =
      let (z, at_z, inside) = last_of-has b bs in
      let apart : (p == z) ≡ false = ground (arith, out, inside) in
      let differ : same_pointer l.first l.last ≡ false = rw at (rw (ends ∙ at_z) apart) in
      (
        record l { first = q; cells = update l.cells p none },
        ap (λ o. remove_from o l) at ∙ rw here (rw differ refl),
        record {
          addresses = b ∷ bs;
          chain = frame (λ z i. ground (arith, out)) c;
          ends = ends;
          given = ground (arith, given);
        },
      )

  -- SortedRemove takes the first pair off the sequence that the list stands for and gives it, or
  -- leaves an empty list as it is and gives NULL.
  pub sorted_remove-Represents :
      (l : LinkedList A) (xs : List (ℤ × A))
      → Represents l xs
      → (l' : LinkedList A) × (sorted_remove l ≡ some (head_of xs, l')) × Represents l' (tail_of xs)
  sorted_remove-Represents l xs r = sorted_remove-Chain l r.addresses xs r.chain r.ends r.given
