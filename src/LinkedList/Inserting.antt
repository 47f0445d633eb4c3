-- ===== src/LinkedList/Inserting.antt =====
-- SortedInsert of threads/list.cc against insertion into a sequence.
use nach_operator_system.Prelude.{
  ℕ, zero, suc, ◌≤◌, ◌≡◌, refl, sym, subst, ◌∙◌, true, false, ◌||◌, Option, some, none, List, [],
  ◌∷◌, ◌==◌, if◌then◌else◌, length, ℤ, arith, ltb_ℤ, Bool-cases, inl, inr,
}
use nach_operator_system.LinkedList.{ListElement, LinkedList, update, insert_loop}
use nach_operator_system.LinkedList.Chain.{Chain, nil, cons, has, last_of, frame}

module _ {A : Type 0} where
  -- Behind every element whose key is not greater.
  abbrev pub insert_by : ℤ → A → List (ℤ × A) → List (ℤ × A)
  insert_by key item [] = (key, item) ∷ []
  insert_by key item ((k, x) ∷ xs) =
      let rest = insert_by key item xs in
      if ltb_ℤ key k then (key, item) ∷ (k, x) ∷ xs else (k, x) ∷ rest

  -- What the loop leaves that starts at the element `p` of key `k`.
  pub record Inserted (l : LinkedList A) (p a : ℕ) (k key : ℤ) (x item : A) (bs : List ℕ)
      (xs : List (ℤ × A)) (run : Option (LinkedList A)) : Type 0 where
    pub out : LinkedList A
    pub returns : run ≡ some out
    pub after : List ℕ
    pub chain : Chain out.cells (some p) (p ∷ after) ((k, x) ∷ insert_by key item xs)
    pub ends : out.last ≡ last_of (p ∷ after)
    pub first : out.first ≡ l.first
    pub fresh : out.fresh ≡ l.fresh
    pub outside : (b : ℕ) → has b (p ∷ bs) ≡ false → (a == b) ≡ false → out.cells b ≡ l.cells b
    pub members : (b : ℕ) → has b after ≡ (has b bs || (a == b))

  module _ (a : ℕ) (key : ℤ) (item : A) where
    at_end :
        (l : LinkedList A) (p : ℕ) (k : ℤ) (x : A)
        → l.cells p ≡ some (record { next = none; key = k; item = x })
        → l.last ≡ some p
        → (a == p) ≡ false
        → l.cells a ≡ some (record { next = none; key = key; item = item })
        → (left : ℕ) → Inserted l p a k key x item [] [] (insert_loop (suc left) p a key l)
    unfolding insert_loop
    at_end l p k x here ends apart new left = record {
      out = record l {
        cells = update l.cells p (some (record { next = some a; key = k; item = x }));
        last = some a;
      };
      returns = rw here (rw ends (rw here refl));
      after = a ∷ [];
      chain =
          cons refl (ground arith) (ground arith) (cons refl (ground (arith, new)) refl (nil refl));
      ends = refl;
      first = refl;
      fresh = refl;
      outside = λ b h ne. ground arith;
      members = λ b. ground arith;
    }

    between :
        (l : LinkedList A) (p q : ℕ) (k k' : ℤ) (x x' : A) (r : Option ℕ) (bs : List ℕ)
        (xs : List (ℤ × A))
        → l.cells p ≡ some (record { next = some q; key = k; item = x })
        → l.cells q ≡ some (record { next = r; key = k'; item = x' })
        → has p (q ∷ bs) ≡ false
        → has q bs ≡ false
        → Chain l.cells r bs xs
        → l.last ≡ last_of (q ∷ bs)
        → has a (p ∷ q ∷ bs) ≡ false
        → l.cells a ≡ some (record { next = none; key = key; item = item })
        → ltb_ℤ key k' ≡ true
        → (left : ℕ)
        → Inserted l p a k key x item (q ∷ bs) ((k', x') ∷ xs) (insert_loop (suc left) p a key l)
    unfolding insert_loop
    between l p q k k' x x' r bs xs here there out_p out_q c ends apart new less left =
        let new' : ListElement A = record { next = some q; key = key; item = item } in
        let p' : ListElement A = record { next = some a; key = k; item = x } in
        let cells' = update (update l.cells a (some new')) p (some p') in
        let p_kept : update l.cells a (some new') p
            ≡ some (record { next = some q; key = k; item = x }) =
          ground (arith, here) in
        let inserted : insert_by key item ((k', x') ∷ xs) ≡ (key, item) ∷ (k', x') ∷ xs =
          rw less refl in
        record {
          out = record l { cells = cells' };
          returns = rw here (rw there (rw less (rw new (rw p_kept refl))));
          after = a ∷ q ∷ bs;
          chain =
              subst (λ ys. Chain cells' (some p) (p ∷ a ∷ q ∷ bs) ((k, x) ∷ ys)) (sym inserted)
                (cons refl (ground arith) (ground arith) (
                  cons refl (ground arith) (ground arith)
                    (cons refl (ground (arith, there)) out_q (frame (λ b i. ground arith) c))));
          ends = ends;
          first = refl;
          fresh = refl;
          outside = λ b h ne. ground arith;
          members = λ b. ground arith;
        }

    pub insert_loop-Inserted :
        (left : ℕ) (l : LinkedList A) (p : ℕ) (k : ℤ) (x : A) (bs : List ℕ) (xs : List (ℤ × A))
        → Chain l.cells (some p) (p ∷ bs) ((k, x) ∷ xs)
        → l.last ≡ last_of (p ∷ bs)
        → has a (p ∷ bs) ≡ false
        → l.cells a ≡ some (record { next = none; key = key; item = item })
        → length (p ∷ bs) ≤ left
        → Inserted l p a k key x item bs xs (insert_loop left p a key l)
    unfolding insert_loop
    insert_loop-Inserted zero l p k x bs xs c ends apart new fuel = absurd (omega arith)
    insert_loop-Inserted (suc left) l p k x [] [] (cons at here out (nil at_nil)) ends apart new
          fuel =
        at_end l p k x
          (subst (λ q. l.cells p ≡ some (record { next = q; key = k; item = x })) at_nil here) ends
          (ground arith) new left
    insert_loop-Inserted (suc left) l p k x [] (y ∷ ys) (cons at here out c) ends apart new fuel =
        elim c [ ]
    insert_loop-Inserted (suc left) l p k x (q ∷ bs) [] (cons at here out c) ends apart new fuel =
        elim c [ ]
    insert_loop-Inserted (suc left) l p k x (q ∷ bs) ((k', x') ∷ xs)
          (cons at raw out (cons {q = r} at_q there out' c)) ends apart new fuel =
        let here =
          subst (λ q'. l.cells p ≡ some (record { next = q'; key = k; item = x })) at_q raw in
        elim (Bool-cases (ltb_ℤ key k')) [
          | inl less ↦
              between l p q k k' x x' r bs xs here there out out' c ends apart new less left
          | inr more ↦
              let ih =
                insert_loop-Inserted left l q k' x' bs xs (cons refl there out' c) ends
                  (ground arith) new (omega arith) in
              let inserted : insert_by key item ((k', x') ∷ xs) ≡ (k', x') ∷ insert_by key item xs =
                rw more refl in
              record {
                out = ih.out;
                returns = rw here (rw there (rw more ih.returns));
                after = q ∷ ih.after;
                chain =
                    subst (λ ys. Chain ih.out.cells (some p) (p ∷ q ∷ ih.after) ((k, x) ∷ ys))
                      (sym inserted)
                      (cons refl (ih.outside p out (ground arith) ∙ here)
                        (ground (arith, ih.members p)) ih.chain);
                ends = ih.ends;
                first = ih.first;
                fresh = ih.fresh;
                outside = λ b h ne. ih.outside b (ground arith) ne;
                members = λ b. ground (arith, ih.members b);
              }
        ]
