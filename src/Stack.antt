-- ===== src/Stack.antt =====
-- src/memory/stack.c: a stack of reserved memory that grows by an atomic addition. A pointer is a number.
-- `commits` says whether `ms_commit` succeeds; `none` is where the assertion on it fails. One allocation is
-- modelled as one step, in which the compare-and-exchange of the committed top meets the value loaded.
pub mod Laws
mod Tests
use moonsugar.Prelude.{
  ℕ, ◌+◌, ◌-◌, ◌^◌, ◌%◌, Bool, true, false, Option, none, some, List, [], ◌∷◌, u64, sub64, ltb, leb,
  ◌==◌, if◌then◌else◌,
}
use moonsugar.Api.{MsResult, success, memory, default_alignment, null}
use moonsugar.Util.{choose}
use moonsugar.Heap.{dealloc_thr}

-- `ms_stack`.
pub record Stack : Type 0 where
  pub base : ℕ
  pub size : ℕ
  pub top : ℕ
  pub committed_top : ℕ

-- `ms_stack_construct`; `reserve` is what `ms_reserve` answers.
pub construct : (ℕ → ℕ) → Stack → ℕ → MsResult × Stack
construct reserve stack max_size =
    let base = reserve max_size in
    if base == null
    then (memory, stack)
    else (success, record { base = base; size = max_size; top = base; committed_top = base })

-- `ms_stack_destroy`; then the memory that is released.
pub destroy : Stack → Stack × ℕ × ℕ
destroy stack =
    (record { base = null; size = 0; top = null; committed_top = null }, stack.base, stack.size)

-- The size that an allocation takes, the padding of its alignment included.
abbrev pub padded_size : ℕ → ℕ → ℕ
padded_size size alignment =
    choose size (u64 (sub64 (u64 (size + alignment)) 1)) (leb alignment default_alignment)

-- `ms_stack_malloc`.
pub malloc : (ℕ → ℕ → Bool) → Stack → ℕ → ℕ → Option (ℕ × Stack)
malloc commits stack size alignment =
    let ptr = stack.top in
    let end_ptr = u64 (ptr + padded_size size alignment) in
    let grown = record stack { top = end_ptr } in
    if ltb stack.committed_top end_ptr
    then (if commits stack.committed_top (end_ptr - stack.committed_top)
        then some (ptr, record grown { committed_top = end_ptr })
        else none)
    else some (ptr, grown)

-- `ms_stack_clear`; then the memory that is decommitted, where any is.
pub clear : Stack → Stack × List (ℕ × ℕ)
clear stack =
    let committed_size = sub64 stack.committed_top stack.base in
    (
      record stack { top = stack.base; committed_top = stack.base },
      if ltb dealloc_thr committed_size
          then (stack.committed_top - (committed_size - dealloc_thr), committed_size - dealloc_thr)
            ∷ []
          else [],
    )
