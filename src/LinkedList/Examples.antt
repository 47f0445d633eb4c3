-- ===== src/LinkedList/Examples.antt =====
-- A list of two elements: tests of the methods, and the laws at it.
use nach_operator_system.Prelude.{ℕ, zero, suc, ◌≡◌, refl, some, none, [], ◌∷◌, ◌++◌, pos}
use nach_operator_system.LinkedList.{LinkedList, append, prepend, remove, sorted_insert}
use nach_operator_system.LinkedList.Chain.{Represents, nil, cons}
use nach_operator_system.LinkedList.Inserting.{insert_by}
use nach_operator_system.LinkedList.Refinement.{head_of, tail_of, sorted_insert-Represents}
use nach_operator_system.LinkedList.Queue.{item_of, queue-Represents}

-- The items 10 and 30 with their own values for keys.
abbrev two : LinkedList ℕ
two = record {
  first = some 1;
  last = some 0;
  cells = λ a. elim a [
    | zero ↦ some (record { next = none; key = pos 30; item = 30 })
    | suc b ↦ elim b [
      | zero ↦ some (record { next = some 0; key = pos 10; item = 10 })
      | suc c ↦ none
    ]
  ];
  fresh = 2;
}

two-Represents : Represents two ((pos 10, 10) ∷ (pos 30, 30) ∷ [])
two-Represents = record {
  addresses = 1 ∷ 0 ∷ [];
  chain = cons refl refl refl (cons refl refl refl (nil refl));
  ends = refl;
  given = refl;
}

sorted_insert-Represents_example :
    (l' : LinkedList ℕ) × (sorted_insert 20 (pos 20) two ≡ some l')
    × Represents l' (insert_by (pos 20) 20 ((pos 10, 10) ∷ (pos 30, 30) ∷ []))
sorted_insert-Represents_example =
    sorted_insert-Represents two ((pos 10, 10) ∷ (pos 30, 30) ∷ []) 20 (pos 20) two-Represents

queue-Represents_example :
    ((l' : LinkedList ℕ) × (append 7 two ≡ some l')
      × Represents l' (((pos 10, 10) ∷ (pos 30, 30) ∷ []) ++ (pos 0, 7) ∷ []))
    × ((l' : LinkedList ℕ) × (prepend 7 two ≡ some l')
        × Represents l' ((pos 0, 7) ∷ (pos 10, 10) ∷ (pos 30, 30) ∷ []))
    × ((l' : LinkedList ℕ) × (remove two
          ≡ some (item_of (head_of ((pos 10, 10) ∷ (pos 30, 30) ∷ [])), l'))
        × Represents l' (tail_of ((pos 10, 10) ∷ (pos 30, 30) ∷ [])))
queue-Represents_example = queue-Represents two ((pos 10, 10) ∷ (pos 30, 30) ∷ []) 7 two-Represents
