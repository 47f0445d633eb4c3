-- ===== src/STable.antt =====
-- threads/STable.h, STable.cc, Sem.h and Sem.cc: the semaphores that user programs name.
mod Examples
pub mod Invariant
pub mod Creating
pub mod Calls
use nach_operator_system.Prelude.{
  ℕ, zero, suc, ◌+◌, ◌≡◌, Bool, true, false, not, Option, some, none, List, ltb, length, get_elem?,
  set, assert, ◌>>=◌, ◌>>◌, if◌then◌else◌, ℤ, pos, negsuc, minus_one, eqb_ℤ, CString, str_eq,
}
use nach_operator_system.BitMap.{BitMap, new_bit_map, test, find}
use nach_operator_system.Semaphore.{Semaphore, new_semaphore, try_p, v}

-- `char name[32]`.
abbrev pub name_size : ℕ
name_size = 32

pub record Sem : Type 0 where
  pub name : CString
  pub sem : Semaphore

-- An entry of `semTab` is NULL or points to its Sem.
pub record STable : Type 0 where
  pub bm : BitMap
  pub sem_tab : List (Option Sem)
  pub size : ℕ

-- `strcpy(name, na)`: the name and its terminator have to fit.
unfoldable pub new_sem : CString → ℤ → Option Sem
new_sem name init =
    assert (ltb (length name) name_size) >> some (record { name = name; sem = new_semaphore init })

-- For a size above zero: the constructor returns at once, and leaves the object as it was found,
-- for any other.
abbrev pub all_null : ℕ → List (Option Sem)
all_null zero = List.[]
all_null (suc n) = List.◌∷◌ none (all_null n)

unfoldable pub new_s_table : ℕ → List ℕ → Option STable
new_s_table isize garbage = do
  assert (ltb 0 isize)
  bm ← new_bit_map isize garbage
  some (record { bm = bm; sem_tab = all_null isize; size = isize })

-- `semTab[i]`, dereferenced.
pub sem_at : STable → ℕ → Option Sem
sem_at t i = get_elem? t.sem_tab i >>= λ s. s

-- The loop that Create, Wait and Signal share: the first marked entry of this name.
pub find_name : ℕ → ℕ → CString → STable → Option (Option ℕ)
find_name zero i name t = some none
find_name (suc left) i name t =
    let rest = find_name left (suc i) name t in
    test t.bm (pos i) >>= λ marked.
    if marked
    then (sem_at t i >>= λ s. if str_eq name s.name then some (some i) else rest)
    else rest

pub put_sem : STable → ℕ → Sem → Option STable
put_sem t i s =
    assert (ltb i (length t.sem_tab)) >> some (record t { sem_tab = set t.sem_tab i (some s) })

pub find_free_solt : STable → Option (ℤ × STable)
find_free_solt t = find t.bm >>= λ (r : ℤ × BitMap). some (r.0, record t { bm = r.1 })

-- `semTab[solt] = new Sem(name, init)`, for a slot that Find has given.
pub put_new : CString → ℤ → ℤ × STable → Option (ℤ × STable)
unfolding put_sem
put_new name init (negsuc n, t) = some (minus_one, t)
put_new name init (pos i, t) = do s ← new_sem name init; t' ← put_sem t i s; some (pos 0, t')

unfoldable pub create : CString → ℤ → STable → Option (ℤ × STable)
unfolding find_name sem_at put_new find_free_solt
create name init t =
    find_name t.size 0 name t
    >>= elim [ some i ↦ some (minus_one, t) | none ↦ find_free_solt t >>= put_new name init ]

-- A call of Wait returns -1, or runs P on a semaphore, which passes (0) or goes to sleep.
pub data Waited : Type 0 where
  no_such_name : Waited
  passed : Waited
  asleep : ℕ → Waited

pub p_at : ℕ → ℕ → STable → Option (Waited × STable)
unfolding put_sem sem_at
p_at thread i t = do
  s ← sem_at t i
  let r = try_p thread s.sem
  t' ← put_sem t i (record s { sem = r.1 })
  some (if r.0 then passed else asleep i, t')

unfoldable pub wait : ℕ → CString → STable → Option (Waited × STable)
unfolding find_name sem_at p_at
wait thread name t =
    find_name t.size 0 name t >>= elim [ none ↦ some (no_such_name, t) | some i ↦ p_at thread i t ]

-- Signal returns with the thread that V has made ready, if any.
pub v_at : ℕ → STable → Option (ℤ × Option ℕ × STable)
unfolding put_sem sem_at
v_at i t = do
  s ← sem_at t i
  let r = v s.sem
  t' ← put_sem t i (record s { sem = r.1 })
  some (pos 0, r.0, t')

unfoldable pub signal : CString → STable → Option (ℤ × Option ℕ × STable)
unfolding find_name sem_at v_at
signal name t =
    find_name t.size 0 name t >>= elim [ none ↦ some (minus_one, none, t) | some i ↦ v_at i t ]
