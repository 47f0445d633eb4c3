-- ===== src/LinkedList/Sorting.antt =====
-- SortedInsert of threads/list.cc keeps the keys in order.
use nach_operator_system.Prelude.{◌≡◌, refl, Bool, true, ◌&&◌, List, [], ◌∷◌, ℤ, leb_ℤ, arith}
use nach_operator_system.LinkedList.Inserting.{insert_by}

module _ {A : Type 0} where
  -- No key is below `k`, and the keys do not fall.
  abbrev pub sorted_from : ℤ → List (ℤ × A) → Bool
  sorted_from k [] = true
  sorted_from k ((k', x) ∷ xs) = leb_ℤ k k' && sorted_from k' xs

  abbrev pub is_sorted : List (ℤ × A) → Bool
  is_sorted [] = true
  is_sorted ((k, x) ∷ xs) = sorted_from k xs

  sorted_from-insert_by :
      (k key : ℤ) (item : A) (xs : List (ℤ × A))
      → leb_ℤ k key ≡ true
      → sorted_from k xs ≡ true
      → sorted_from k (insert_by key item xs) ≡ true
  sorted_from-insert_by k key item [] h s = ground arith
  sorted_from-insert_by k key item ((k', x) ∷ xs) h s =
      ground (arith, sorted_from-insert_by k' key item xs)

  pub is_sorted-insert_by :
      (key : ℤ) (item : A) (xs : List (ℤ × A))
      → is_sorted xs ≡ true
      → is_sorted (insert_by key item xs) ≡ true
  is_sorted-insert_by key item [] s = ground arith
  is_sorted-insert_by key item ((k, x) ∷ xs) s = ground (arith, sorted_from-insert_by k key item xs)

  pub sorted_from-is_sorted :
      (k : ℤ) (xs : List (ℤ × A)) → sorted_from k xs ≡ true → is_sorted xs ≡ true
  sorted_from-is_sorted k [] s = refl
  sorted_from-is_sorted k ((k', x) ∷ xs) s = ground arith
