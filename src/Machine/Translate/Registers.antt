-- ===== src/Machine/Translate/Registers.antt =====
-- Machine::Translate of machine/translate.cc leaves the registers alone.
use nach_operator_system.Prelude.{
  ℕ, ◌/◌, ◌%◌, ◌≡◌, refl, Bool, true, false, Option, some, none, List, get_elem?, ◌>>=◌,
  if◌then◌else◌, ◌*◌, ◌+◌, assert, subst, ◌&&◌, leb,
}
use nach_operator_system.Machine.{
  Machine, TranslationEntry, num_phys_pages, memory_size, page_size, tlb_size,
}
use nach_operator_system.Machine.Translate.{
  Translated, Located, missing, slot, translate, finish, walk, locate_page, locate_tlb, misaligned,
}

module _ (m : Machine) where
  -- A result on a machine with the registers of `m`.
  abbrev Same : Option (Translated × Machine) → Type 0
  Same none = Unit {0}
  Same (some (t, m')) = m'.registers ≡ m.registers

  Same-if :
      (b : Bool) (x y : Option (Translated × Machine)) → Same x → Same y → Same (if b then x else y)
  Same-if true x y p q = p
  Same-if false x y p q = q

  Same->>= :
      {A : Type 0}
      → (o : Option A) (f : A → Option (Translated × Machine)) → ((a : A) → Same (f a))
      → Same (o >>= f)
  Same->>= none f p = tt
  Same->>= (some a) f p = p a

  finish-Same :
      (table : List TranslationEntry) (put : List TranslationEntry → Machine) (offset size : ℕ)
      (writing : Bool)
      → ((t : List TranslationEntry) → (put t).registers ≡ m.registers)
      → (l : Located) → Same (finish m table put offset size writing l)
  unfolding finish
  finish-Same table put offset size writing keeps (missing e) = refl
  finish-Same table put offset size writing keeps (slot i) = Same->>= (get_elem? table i) _ (λ e.
      Same-if (e.read_only && writing) _ _ refl (
        Same-if (leb num_phys_pages e.physical_page) _ _ refl (
          Same->>= (assert (leb (e.physical_page * page_size + offset + size) memory_size)) _
            (λ u. keeps _))))

  walk-Same :
      (addr size : ℕ) (writing : Bool) (tlb table : Option (List TranslationEntry))
      → Same (walk m addr size writing tlb table)
  unfolding walk
  walk-Same addr size writing none none = tt
  walk-Same addr size writing (some tlb) (some table) = tt
  walk-Same addr size writing none (some table) =
      Same->>= (locate_page table m.page_table_size (addr / page_size)) _
        (finish-Same table _ (addr % page_size) size writing (λ t. refl))
  walk-Same addr size writing (some tlb) none =
      Same->>= (locate_tlb tlb tlb_size 0 (addr / page_size)) _
        (finish-Same tlb _ (addr % page_size) size writing (λ t. refl))

  translate-Same : (addr size : ℕ) (writing : Bool) → Same (translate addr size writing m)
  unfolding translate
  translate-Same addr size writing =
      Same-if (misaligned addr size) _ _ refl (walk-Same addr size writing m.tlb m.page_table)

  pub translate-registers :
      (addr size : ℕ) (writing : Bool) {t : Translated} {m' : Machine}
      → translate addr size writing m ≡ some (t, m')
      → m'.registers ≡ m.registers
  translate-registers addr size writing h = subst Same h (translate-Same addr size writing)
