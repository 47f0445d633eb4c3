-- ===== src/Directory/Examples.antt =====
-- A directory of three entries: tests, and the laws on it.
use nach_operator_system.Prelude.{
  ℕ, ◌≡◌, refl, ◌⊎◌, true, false, some, [], ◌∷◌, pos, minus_one, if◌then◌else◌, CString, arith,
  strncmp_eq, str_eq,
}
use nach_operator_system.Directory.{Directory, DirectoryEntry, find, find_index, add, remove}
use nach_operator_system.Directory.Lookup.{IsValid, has, same_name}
use nach_operator_system.Directory.Adding.{AllUsed, add-outcome}
use nach_operator_system.Directory.Removing.{remove-outcome}

abbrev readme : CString
readme = 114 ∷ 101 ∷ 97 ∷ 100 ∷ []

abbrev notes : CString
notes = 110 ∷ 111 ∷ 116 ∷ 101 ∷ []

abbrev free_slot : DirectoryEntry
free_slot = record { in_use = false; sector = pos 0; name = readme }

abbrev entry_of : CString → ℕ → DirectoryEntry
entry_of name s = record { in_use = true; sector = pos s; name = name }

abbrev one_file : Directory
one_file = record { table_size = 3; table = free_slot ∷ entry_of readme 7 ∷ free_slot ∷ [] }

one_file-IsValid : IsValid one_file
unfolding has strncmp_eq
one_file-IsValid = record {
  sized = refl;
  unique = ((λ h. absurd (ground arith)), ((λ h. refl), ((λ h. absurd (ground arith)), tt)));
}

find-readme : (find one_file readme ≡ some (pos 7)) × (find one_file notes ≡ some minus_one)
unfolding find find_index strncmp_eq str_eq
find-readme = (refl, refl)

add-outcome_example :
    ((has one_file.table notes ≡ true) × (add notes (pos 9) one_file ≡ some (false, one_file)))
    ⊎ ((has one_file.table notes ≡ false)
        × AllUsed one_file 0
        × (add notes (pos 9) one_file ≡ some (false, one_file)))
    ⊎ ((has one_file.table notes ≡ false)
        × (d' : Directory) × (add notes (pos 9) one_file ≡ some (true, d'))
        × IsValid d'
        × ((other : CString)
            → find d' other
              ≡ (if same_name notes other then some (pos 9) else find one_file other)))
add-outcome_example = add-outcome one_file notes (pos 9) one_file-IsValid

remove-outcome_example :
    ((has one_file.table readme ≡ false) × (remove readme one_file ≡ some (false, one_file)))
    ⊎ ((has one_file.table readme ≡ true)
        × (d' : Directory) × (remove readme one_file ≡ some (true, d'))
        × IsValid d'
        × ((other : CString)
            → find d' other
              ≡ (if same_name readme other then some minus_one else find one_file other)))
remove-outcome_example = remove-outcome one_file readme one_file-IsValid
