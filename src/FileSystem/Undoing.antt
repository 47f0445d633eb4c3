-- ===== src/FileSystem/Undoing.antt =====
-- FileSystem::Remove after FileSystem::Create: it takes back all that Create did.
use nach_operator_system.Prelude.{
  ℕ, ◌<◌, ◌≡◌, refl, ap, sym, ◌∙◌, ◌⊎◌, inl, inr, Bool, true, false, not, ◌&&◌, ◌||◌, ◌==◌, some, ℤ,
  pos, minus_one, eqb_ℤ, if◌then◌else◌, CString, arith, subst, eq_of_some, Bool-cases, ==_iff,
}
use nach_operator_system.BitMap.{BitMap, clear}
use nach_operator_system.BitMap.Laws.{marked, marked-set_bit}
use nach_operator_system.Directory
use nach_operator_system.Directory.{Directory}
use nach_operator_system.Directory.Lookup.{
  has, lookup, same_name, find_lem, has-same, same_name_refl,
}
use nach_operator_system.Directory.Removing.{lookup-absent}
use nach_operator_system.FileHeader.{FileHeader}
use nach_operator_system.FileHeader.Allocating.{elem, Holds}
use nach_operator_system.OpenFile.{Disk}
use nach_operator_system.FileSystem.{FileSystem, Fresh, create, remove}
use nach_operator_system.FileSystem.Storing.{IsVolume, Stores, IsFresh}
use nach_operator_system.FileSystem.Created.{IsSound, Created, has_of_lookup, pos-ne-minus_one}
use nach_operator_system.FileSystem.Removing.{IsFile, remove-Removed}

undone :
    (a b x : Bool)
    → (a ≡ true → x ≡ false)
    → (b ≡ true → x ≡ false)
    → (not (a || b) && (b || (a || x))) ≡ x
undone true b x h1 h2 = sym (h1 refl)
undone false true x h1 h2 = sym (h2 refl)
undone false false x h1 h2 = refl

neither : (a b : Bool) → (a || b) ≡ false → (a ≡ false) × (b ≡ false)
neither a b h = (ground (arith, h), ground (arith, h))

pub either : (a b : Bool) → (a ≡ true) ⊎ (b ≡ true) → (a || b) ≡ true
either a b h = ground (arith, h)

module _ (fresh : Fresh) (fs : FileSystem) (maps dirs : ℕ → ℤ) (v : IsVolume fs maps dirs)
    (f : IsFresh fresh) (disk : Disk) (d : Directory) (m : BitMap) (name : CString) (size : ℕ)
    (stored : Stores maps dirs disk d m) (sound : IsSound maps dirs d m) where
  module _ (c : Created fresh maps dirs disk d m name size (create fresh fs name size disk)) where
    pub created_marks :
        (j : ℕ)
        → j < 1024
        → marked c.m' j ≡ (elem j c.allocated.taken || (c.sector == j || marked m j))
    created_marks j hj =
        let a = c.allocated in
        let same_map : c.m' ≡ a.b' = cc (a.returns) in
        let below : c.sector < m.num_bits = omega (arith, stored.num_bits, c.in_range) in
        ap (λ x. marked x j) same_map
        ∙ a.marks j (omega (arith, stored.num_bits, hj))
        ∙ ap (λ x. elem j a.taken || x) (marked-set_bit m sound.free_map c.sector j below)

    pub created_blocks :
        (j : ℕ)
        → elem j c.allocated.taken ≡ true
        → (j < 1024) × (marked m j ≡ false) × ((c.sector == j) ≡ false)
    created_blocks j h =
        let (inside, free) = c.allocated.were_free j h in
        let below : c.sector < m.num_bits = omega (arith, stored.num_bits, c.in_range) in
        let (other, clear) =
          neither (c.sector == j) (marked m j)
            (sym (marked-set_bit m sound.free_map c.sector j below) ∙ free) in
        (omega (arith, inside, stored.num_bits), clear, other)

    pub created-IsFile : IsFile maps dirs c.disk' c.m' c.sector c.allocated.taken
    created-IsFile =
        let a = c.allocated in
        let same_header : a.header' ≡ c.header = cc (a.returns) in
        let marks = created_marks in
        let mine = created_blocks in
        record {
          header = c.header;
          parsed = c.written;
          listed = subst (λ (h : FileHeader). Holds h.data_sectors 0 a.taken) same_header a.listed;
          count = a.count ∙ sym a.sectors ∙ ap (λ (h : FileHeader). h.num_sectors) same_header;
          distinct = a.distinct;
          taken = λ j h.
              let (inside, clear, other) = mine j h in
              (
                inside,
                marks j inside ∙ either (elem j a.taken) (c.sector == j || marked m j) (inl h),
              );
          own = λ j h. let (inside, clear, other) = mine j h in sound.reserved j inside clear;
          in_range = c.in_range;
          sector_taken =
              marks c.sector c.in_range
              ∙ either (elem c.sector a.taken) (c.sector == c.sector || marked m c.sector)
                  (inr (ground arith));
          sector_own = sound.reserved c.sector c.in_range c.was_free;
          apart = elim (Bool-cases (elem c.sector a.taken)) [
            | inl h ↦ let (inside, clear, other) = mine c.sector h in absurd (ground (arith, other))
            | inr h ↦ h
          ];
        }

  module _ (absent : has d.table name ≡ false)
      (c : Created fresh maps dirs disk d m name size (create fresh fs name size disk)) where
    pub created_lookup : lookup c.d'.table name ≡ pos c.sector
    created_lookup = eq_of_some (lookup c.d'.table name) (pos c.sector) (
        sym (find_lem c.d' name c.sound.directory.sized)
        ∙ c.named name
        ∙ rw (same_name_refl name) refl)

    found_before :
        (other : CString)
        → (if same_name name other
            then some minus_one
            else if same_name name other
            then some (pos c.sector)
            else Directory.find d other)
          ≡ Directory.find d other
    found_before other = elim (Bool-cases (same_name name other)) [
      | inl same ↦
          let gone : has d.table other ≡ false = sym (has-same d.table name other same) ∙ absent in
          rw same (
            sym
              (find_lem d other sound.directory.sized ∙ ap some (lookup-absent d.table other gone)))
      | inr apart ↦ rw apart refl
    ]

    -- Remove takes back a Create that returned TRUE: it returns TRUE, every name is found as before
    -- the Create, and every mark of the bit map is what it was.
    pub remove-create :
        (disk2 : Disk) × (d2 : Directory) × (m2 : BitMap) × (remove fresh fs name c.disk'
          ≡ some (true, disk2))
        × Stores maps dirs disk2 d2 m2
        × IsSound maps dirs d2 m2
        × ((other : CString) → Directory.find d2 other ≡ Directory.find d other)
        × ((j : ℕ) → j < 1024 → marked m2 j ≡ marked m j)
    remove-create =
        let there = created_lookup in
        let here : has c.d'.table name ≡ true =
          has_of_lookup c.d'.table name
            (ap (λ z. not (eqb_ℤ z minus_one)) there ∙ ap not (pos-ne-minus_one c.sector)) in
        let r =
          remove-Removed fresh fs maps dirs v f c.disk' c.d' c.m' name c.stores c.sound c.sector
            c.allocated.taken (created-IsFile c) there here in
        (
          r.disk',
          r.d',
          r.m',
          r.returns,
          r.stores,
          r.sound,
          λ other.
              r.named other
              ∙ ap (λ x. if same_name name other then some minus_one else x) (c.named other)
              ∙ found_before other,
          λ j hj.
              r.marks j hj
              ∙ ap (λ x. not (c.sector == j || elem j c.allocated.taken) && x)
                  (created_marks c j hj)
              ∙ undone (c.sector == j) (elem j c.allocated.taken) (marked m j)
                  (λ h.
                    let same : c.sector ≡ j = (==_iff c.sector j).0 h in
                    ap (marked m) (sym same) ∙ c.was_free)
                  (λ h. let (inside, clear, other) = created_blocks c j h in clear),
        )
