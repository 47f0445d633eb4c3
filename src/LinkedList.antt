-- ===== src/LinkedList.antt =====
-- threads/list.h and list.cc: singly linked lists with a key for each element. An address is a
-- number; `cells` holds the elements that `new` has made and `delete` has not ended, and the
-- addresses from `fresh` on were never given out. `none` is a dereference of anything else.
mod Examples
pub mod Chain
pub mod Inserting
pub mod Refinement
pub mod Queue
pub mod Sorting
use nach_operator_system.Prelude.{
  ℕ, zero, suc, ◌+◌, Bool, true, false, Option, some, none, List, [], ◌∷◌, ◌==◌, if◌then◌else◌, ℤ,
  pos, ltb_ℤ, ◌>>=◌,
}

pub record ListElement (A : Type 0) : Type 0 where
  pub next : Option ℕ
  pub key : ℤ
  pub item : A

pub record LinkedList (A : Type 0) : Type 0 where
  pub first : Option ℕ
  pub last : Option ℕ
  pub cells : ℕ → Option (ListElement A)
  pub fresh : ℕ

abbrev pub update {ℓ} : {B : Type ℓ} → (ℕ → B) → ℕ → B → ℕ → B
update f a v b = if a == b then v else f b

abbrev pub new_list : {A : Type 0} → LinkedList A
new_list = record { first = none; last = none; cells = λ a. none; fresh = 0 }

-- `ptr1 == ptr2`.
abbrev pub same_pointer : Option ℕ → Option ℕ → Bool
same_pointer none none = true
same_pointer none (some b) = false
same_pointer (some a) none = false
same_pointer (some a) (some b) = a == b

module _ {A : Type 0} where
  abbrev pub is_empty : LinkedList A → Bool
  is_empty l = elim l.first [ none ↦ true | some a ↦ false ]

  -- `new ListElement(item, sortKey)`, at the address `fresh`.
  abbrev pub new_element : A → ℤ → LinkedList A → LinkedList A
  new_element item key l = record l {
    cells = update l.cells l.fresh (some (record { next = none; key = key; item = item }));
    fresh = suc l.fresh;
  }

  -- `ptr->next = q`.
  abbrev pub set_next : Option ℕ → Option ℕ → LinkedList A → Option (LinkedList A)
  set_next ptr q l = do
    a ← ptr
    e ← l.cells a
    some (record l { cells = update l.cells a (some (record e { next = q })) })

  -- `last->next = element; last = element;`.
  abbrev pub put_last : ℕ → LinkedList A → Option (LinkedList A)
  put_last a l = set_next l.last (some a) l >>= λ l1. some (record l1 { last = some a })

  unfoldable pub append : A → LinkedList A → Option (LinkedList A)
  append item l =
      let l1 = new_element item (pos 0) l in
      if is_empty l
      then some (record l1 { first = some l.fresh; last = some l.fresh })
      else put_last l.fresh l1

  -- `element->next = first; first = element;`.
  abbrev pub put_first : ℕ → LinkedList A → Option (LinkedList A)
  put_first a l = set_next (some a) l.first l >>= λ l1. some (record l1 { first = some a })

  unfoldable pub prepend : A → LinkedList A → Option (LinkedList A)
  prepend item l =
      let l1 = new_element item (pos 0) l in
      if is_empty l
      then some (record l1 { first = some l.fresh; last = some l.fresh })
      else put_first l.fresh l1

  -- The loop of SortedInsert at `ptr`, for the element at `a`. Its rounds are bounded by the number
  -- of elements ever made.
  unfoldable pub insert_loop : ℕ → ℕ → ℕ → ℤ → LinkedList A → Option (LinkedList A)
  insert_loop zero ptr a key l = none
  insert_loop (suc left) ptr a key l = l.cells ptr >>= λ e. elim e.next [
    | none ↦ put_last a l
    | some q ↦ l.cells q >>= λ n.
        let rest = insert_loop left q a key l in
        if ltb_ℤ key n.key
        then (set_next (some a) (some q) l >>= set_next (some ptr) (some a))
        else rest
  ]

  -- SortedInsert of the element at `a`, by the pointer `first`.
  unfoldable pub insert_from : Option ℕ → ℕ → ℤ → LinkedList A → Option (LinkedList A)
  unfolding insert_loop
  insert_from none a key l = some (record l { first = some a; last = some a })
  insert_from (some p) a key l =
      l.cells p >>= λ e. if ltb_ℤ key e.key then put_first a l else insert_loop l.fresh p a key l

  unfoldable pub sorted_insert : A → ℤ → LinkedList A → Option (LinkedList A)
  unfolding insert_from
  sorted_insert item key l = insert_from l.first l.fresh key (new_element item key l)

  unfoldable pub remove_from : Option ℕ → LinkedList A → Option (Option (ℤ × A) × LinkedList A)
  remove_from none l = some (none, l)
  remove_from (some p) l = l.cells p >>= λ e.
      let l1 =
        if same_pointer l.first l.last
        then record l { first = none; last = none }
        else record l { first = e.next } in
      some (some (e.key, e.item), record l1 { cells = update l1.cells p none })

  -- The key and the item of the element that was first, if any.
  unfoldable pub sorted_remove : LinkedList A → Option (Option (ℤ × A) × LinkedList A)
  unfolding remove_from
  sorted_remove l = remove_from l.first l

  abbrev pub drop_key : Option (ℤ × A) × LinkedList A → Option A × LinkedList A
  drop_key (none, l) = (none, l)
  drop_key (some (key, item), l) = (some item, l)

  unfoldable pub remove : LinkedList A → Option (Option A × LinkedList A)
  unfolding sorted_remove
  remove l = sorted_remove l >>= λ r. some (drop_key r)
