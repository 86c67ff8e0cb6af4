-- ===== src/Susp/Pointers.antt =====
-- lib/ltaskLib.c: link_susp_task and unlink_susp_task over pointers. A cell of `Mem` holds a task
-- pointer. The address of a list head is a cell, and the address of a task's `nxt_susp` is the task:
-- `task_t **i` is a number, and `*i` is `m i`. The loops take fuel; `none` means that it ran out.
pub mod Link
pub mod Unlink
pub use cross_compile.Base.{Distinct}
use cross_compile.Base.{
  ℕ, zero, suc, ◌≡◌, ◌≢◌, Bool, true, false, Option, none, some, List, [], ◌∷◌, ◌==◌, if◌then◌else◌,
  elem,
}

abbrev pub Mem : Type 0
Mem = ℕ → ℕ

abbrev pub write : Mem → ℕ → ℕ → Mem
write m i v j = if j == i then v else m j

-- The `while (*i)` of `link_susp_task` and the `*i = new_entry` behind it.
pub link_walk : ℕ → Mem → ℕ → ℕ → Option Mem
link_walk zero m i new_entry = none
link_walk (suc fuel) m i new_entry = elim (m i == 0) [
  | true ↦ some (write m i new_entry)
  | false ↦ elim (m i == new_entry) [
    | true ↦ link_walk fuel (write m i (m (m i))) i new_entry
    | false ↦ link_walk fuel m (m i) new_entry
  ]
]

pub link_susp_task : ℕ → Mem → ℕ → ℕ → Option Mem
link_susp_task fuel m list_head new_entry =
    if new_entry == 0 then some m else link_walk fuel (write m new_entry 0) list_head new_entry

-- The `while (*i && (*i != entry))` of `unlink_susp_task`, with the removal behind it.
pub unlink_walk : ℕ → Mem → ℕ → ℕ → Option Mem
unlink_walk zero m i entry = none
unlink_walk (suc fuel) m i entry = elim (m i == 0) [
  | true ↦ some m
  | false ↦ elim (m i == entry) [
    | true ↦ some (write (write m i (m (m i))) entry 0)
    | false ↦ unlink_walk fuel m (m i) entry
  ]
]

pub unlink_susp_task : ℕ → Mem → ℕ → ℕ → Option Mem
unlink_susp_task fuel m list_head entry =
    if entry == 0 then some m else unlink_walk fuel m list_head entry

-- `*i` heads the NULL-terminated list `xs`.
abbrev pub Chain : Mem → ℕ → List ℕ → Type 0
Chain m i [] = m i ≡ 0
Chain m i (x ∷ xs) = (m i ≡ x) × (x ≢ 0) × Chain m x xs
