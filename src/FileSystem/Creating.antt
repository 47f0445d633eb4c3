-- ===== src/FileSystem/Creating.antt =====
-- FileSystem::Create of filesys/filesys.cc, against the directory, the bit map and the headers that
-- the disk holds.
use nach_operator_system.Prelude.{
  ℕ, ◌+◌, ◌^◌, ◌≤◌, ◌<◌, ◌≡◌, refl, ap, sym, ◌∙◌, ◌⊎◌, inl, inr, Bool, true, false, not, some, ℤ,
  pos, minus_one, eqb_ℤ, length, if◌then◌else◌, CString, arith, subst, Bool-cases, lt→ltb,
}
use nach_operator_system.BitMap
use nach_operator_system.BitMap.{BitMap}
use nach_operator_system.BitMap.Laws
use nach_operator_system.BitMap.Laws.{marked, set_bit, set_bit-IsValid, marked-set_bit}
use nach_operator_system.BitMap.Find.{find-Finds}
use nach_operator_system.Directory
use nach_operator_system.Directory.{DirectoryEntry, Directory, matches}
use nach_operator_system.Directory.Lookup
use nach_operator_system.Directory.Lookup.{has, lookup, same_name, find_lem}
use nach_operator_system.Directory.Adding.{add-outcome}
use nach_operator_system.FileHeader.{FileHeader, allocate}
use nach_operator_system.FileHeader.Allocating.{Allocated, elem, sized, allocate-outcome}
use nach_operator_system.OpenFile.{Disk}
use nach_operator_system.FileSystem.{
  FileSystem, Fresh, create, create_file, enter_file, flush_create,
}
use nach_operator_system.BitMap.Count.{free_count}
use nach_operator_system.FileSystem.Codec.{IsHeader}
use nach_operator_system.FileSystem.Storing.{
  IsVolume, Stores, IsFresh, load_directory-Stores, load_free_map-Stores,
}
use nach_operator_system.FileSystem.Keeping.{sector-IsInt, set_bit-IsWords, allocate-Fits}
use nach_operator_system.FileSystem.Tables.{NoZero, add-Fits}
use nach_operator_system.FileSystem.Created.{
  IsSound, needed, needed-lt, still_clear, Refusal, Created, has_of_lookup, pos-ne-minus_one,
  too_few,
}
use nach_operator_system.FileSystem.Flushing.{flush_create-Stores}

module _ (fresh : Fresh) (fs : FileSystem) (maps dirs : ℕ → ℤ) (v : IsVolume fs maps dirs) where
  module _ (f : IsFresh fresh) (disk : Disk) (d : Directory) (m : BitMap) (name : CString)
      (size : ℕ) (stored : Stores maps dirs disk d m) (sound : IsSound maps dirs d m)
      (no_zero : NoZero name) (fits : size ≤ 3840) where
    allocated-Created :
        (n : ℕ) (d' : Directory) (h : FileHeader) (m' : BitMap)
        → has d.table name ≡ false
        → n < 1024
        → marked m n ≡ false
        → Directory.add name (pos n) d ≡ some (true, d')
        → Lookup.IsValid d'
        → ((other : CString)
            → Directory.find d' other
              ≡ (if same_name name other then some (pos n) else Directory.find d other))
        → allocate fresh.header (set_bit m n) size ≡ some (true, h, m')
        → Allocated (sized fresh.header size) (set_bit m n) 0 (needed size) (some (h, m'))
        → Created fresh maps dirs disk d m name size (flush_create fresh fs (pos n) h d' m' disk)
    allocated-Created n d' h m' absent below free added valid named ran a =
        let count : length d.table ≡ 10 = sym sound.directory.sized ∙ stored.table_size in
        let k =
          add-Fits name (pos n) d d' true no_zero (sector-IsInt n below) sound.entries added in
        let (words, ints, size_of_map) =
          allocate-Fits fresh.header h (set_bit m n) m' size stored.num_bits
            (set_bit-IsWords m n sound.words) f.ints ran in
        let map_size : length m'.map ≡ 32 =
          size_of_map ∙ set_bit-IsValid m n sound.free_map ∙ rw (stored.num_bits) refl in
        let same_header : h ≡ a.header' = cc (a.returns) in
        let same_map : m' ≡ a.b' = cc (a.returns) in
        let bits : m'.num_bits ≡ 1024 =
          ap (λ (x : BitMap). x.num_bits) same_map ∙ a.bits ∙ stored.num_bits in
        let bytes : h.num_bytes ≡ size =
          ap (λ (x : FileHeader). x.num_bytes) same_header ∙ a.bytes in
        let sectors : h.num_sectors ≡ needed size =
          ap (λ (x : FileHeader). x.num_sectors) same_header ∙ a.sectors in
        let few : needed size < 2 ^ 31 = needed-lt size fits in
        let good : IsHeader h = record {
          bytes = omega (arith, bytes);
          sectors = omega (arith, sectors, few);
          size = ap (λ (x : FileHeader). length x.data_sectors) same_header ∙ a.entries ∙ f.sectors;
          ints = ints;
        } in
        let (disk', run, stores, header, others) =
          flush_create-Stores fresh fs maps dirs v disk d d' m m' h (pos n) stored good
            (lt→ltb n 1024 below) (sound.reserved n below free) (k.table_size ∙ stored.table_size)
            (k.count ∙ count) k.entries bits map_size words in
        record {
          disk' = disk';
          d' = d';
          m' = m';
          sector = n;
          header = h;
          returns = run;
          stores = stores;
          sound = record {
            directory = valid;
            entries = k.entries;
            free_map = subst (λ x. Laws.IsValid x) (sym same_map) a.valid;
            words = words;
            reserved = λ j hj clear. sound.reserved j hj (
                still_clear m m' n j (elem j a.taken) sound.free_map
                  (omega (arith, stored.num_bits))
                  (ap (λ x. marked x j) same_map ∙ a.marks j (omega (arith, stored.num_bits)))
                  clear);
          };
          named = named;
          in_range = below;
          was_free = free;
          written = header;
          allocated = a;
          others = others;
        }

    -- Create where the name is new, Find returned sector `n` and Add returned `a`.
    create_entered :
        (n : ℕ) (a : Bool × Directory)
        → not (eqb_ℤ (lookup d.table name) minus_one) ≡ false
        → BitMap.find m ≡ some (pos n, set_bit m n)
        → Directory.add name (pos n) d ≡ some a
        → create fresh fs name size disk ≡ enter_file fresh fs (pos n) (set_bit m n) size disk a
    unfolding create create_file
    create_entered n a absent found added =
        let dl = load_directory-Stores fresh fs maps dirs v disk d m stored in
        let fl = load_free_map-Stores fresh fs maps dirs v f disk d m stored in
        let fd = find_lem d name sound.directory.sized in
        let sector : eqb_ℤ (pos n) minus_one ≡ false = pos-ne-minus_one n in
        rw dl (rw fd (rw absent (rw fl (rw found (rw sector (rw added refl))))))

    -- Allocate has the last word: too few sectors are left, or the file is created.
    entered-Created :
        (n : ℕ) (d' : Directory)
        → has d.table name ≡ false
        → n < m.num_bits
        → marked m n ≡ false
        → Directory.add name (pos n) d ≡ some (true, d')
        → Lookup.IsValid d'
        → ((other : CString)
            → Directory.find d' other
              ≡ (if same_name name other then some (pos n) else Directory.find d other))
        → ((enter_file fresh fs (pos n) (set_bit m n) size disk (true, d') ≡ some (false, disk))
            × (free_count m < 1 + needed size))
          ⊎ Created fresh maps dirs disk d m name size
              (enter_file fresh fs (pos n) (set_bit m n) size disk (true, d'))
    unfolding enter_file
    entered-Created n d' absent below free added valid named =
        let (count, counted, cases) =
          allocate-outcome fresh.header (set_bit m n) size (set_bit-IsValid m n sound.free_map)
            f.sectors fits in
        elim cases [
          | inl (less, ran) ↦
              inl (rw ran refl, too_few m n count size sound.free_map below free counted less)
          | inr (enough, h, m', ran, a) ↦ inr (
              subst (λ r. Created fresh maps dirs disk d m name size r) (rw ran refl)
                (allocated-Created n d' h m' absent (omega (arith, below, stored.num_bits)) free
                  added valid named ran a))
        ]

    -- Create of a file of at most MaxFileSize bytes, on a disk whose directory and bit map are whole:
    -- it fails no ASSERT. Either it returns FALSE and the disk is what it was, since the name is
    -- there, no sector or no entry is free, or too few sectors are free for the header and the data;
    -- or it returns TRUE and the file is created: its header, in a sector that was free, has sectors
    -- that were free, the name leads to it, every other name is found as before, and the directory
    -- and the bit map on the disk are whole again.
    pub create-Created :
        ((create fresh fs name size disk ≡ some (false, disk)) × Refusal d m name size)
        ⊎ Created fresh maps dirs disk d m name size (create fresh fs name size disk)
    unfolding create create_file enter_file
    create-Created =
        let dl = load_directory-Stores fresh fs maps dirs v disk d m stored in
        let fl = load_free_map-Stores fresh fs maps dirs v f disk d m stored in
        let fd = find_lem d name sound.directory.sized in
        elim (Bool-cases (not (eqb_ℤ (lookup d.table name) minus_one))) [
          | inl there ↦ inl (rw dl (rw fd (rw there refl)), inl (has_of_lookup d.table name there))
          | inr absent ↦ elim (find-Finds m) [
            | inl (e, all) ↦ inl (rw dl (rw fd (rw absent (rw fl (rw e refl)))), inr (inl all))
            | inr (n, e, first) ↦ elim (add-outcome d name (pos n) sound.directory) [
              | inl (h, added) ↦ inl (create_entered n (false, d) absent e added, inl h)
              | inr (inl (h, used, added)) ↦
                  inl (create_entered n (false, d) absent e added, inr (inr (inl used)))
              | inr (inr (h, d', added, valid, named)) ↦
                  let all = create_entered n (true, d') absent e added in
                  elim (entered-Created n d' h first.below first.is_clear added valid named) [
                    | inl (refused, few) ↦ inl (all ∙ refused, inr (inr (inr few)))
                    | inr c ↦
                        inr (subst (λ r. Created fresh maps dirs disk d m name size r) (sym all) c)
                  ]
            ]
          ]
        ]
