-- ===== src/Coroutine.antt =====
-- src/coroutine.c: coroutines and the scheduler that runs them. What a handler does to its context is not
-- under src/: `call` runs the handler on a context and a status in a world, and gives the new status.
-- Handlers do not reach into the scheduler that runs them. `none` is an access outside the slots.
mod Rows
mod Pass
pub mod RunOnce
pub mod Finish
mod Tests
use moonsugar.Prelude.{
  ℕ, zero, suc, ◌+◌, ◌-◌, ◌^◌, Bool, true, false, Option, none, some, List, get_elem?,
  set as set_elem, u32, sub32, ltb, ◌==◌, if◌then◌else◌, ◌>>=◌,
}

-- `MS_CO_SCHEDULER_MAX_COROUTINES`, `MS_CO_STATUS_BEGIN` and `MS_CO_STATUS_COMPLETED`.
abbrev pub max_coroutines : ℕ
max_coroutines = 1024

abbrev pub status_begin : ℕ
status_begin = 0

abbrev pub status_completed : ℕ
status_completed = 0xffffffff

-- `ms_co_coroutine`; the pointers are numbers.
pub record Coroutine : Type 0 where
  pub handler : ℕ
  pub context : ℕ
  pub status : ℕ

-- `ms_co_scheduler`.
pub record Scheduler : Type 0 where
  pub coroutines : List Coroutine
  pub count : ℕ

-- `ms_co_construct`.
pub co_construct : ℕ → ℕ → Coroutine
co_construct handler context = record {
  handler = handler;
  context = context;
  status = status_begin;
}

-- `ms_co_scheduler_construct`.
pub scheduler_construct : Scheduler → Scheduler
scheduler_construct scheduler = record scheduler { count = 0 }

-- `ms_co_schedule`; the Boolean is the 1 or 0 returned.
pub schedule : Scheduler → ℕ → ℕ → Bool × Scheduler
unfolding co_construct
schedule scheduler handler context =
    if ltb scheduler.count max_coroutines
    then (
      true,
      record scheduler {
        coroutines = set_elem scheduler.coroutines scheduler.count (co_construct handler context);
        count = u32 (scheduler.count + 1);
      },
    )
    else (false, scheduler)

-- `remove_coroutine`: the last slot in use takes the place of the one removed.
pub remove_coroutine : Scheduler → ℕ → Option Scheduler
remove_coroutine scheduler coro_index =
    let count = sub32 scheduler.count 1 in
    get_elem? scheduler.coroutines count >>= λ last.
    some (record { coroutines = set_elem scheduler.coroutines coro_index last; count = count })

module _ {W : Type 0} (call : ℕ → ℕ → ℕ → W → ℕ × W) where
  -- `ms_co_execute`: the coroutine afterwards, and whether it has completed.
  pub execute : Coroutine → W → Bool × Coroutine × W
  execute c w =
      let (status, w') = call c.handler c.context c.status w in
      (status == status_completed, record c { status = status }, w')

  -- The loop of `ms_co_scheduler_run_once`, down from the slot below the number of rounds left.
  pub run_from : ℕ → Scheduler → W → Option (Scheduler × W)
  unfolding execute
  run_from zero scheduler w = some (scheduler, w)
  run_from (suc i) scheduler w = get_elem? scheduler.coroutines i >>= λ c.
      let (completed, c', w') = execute c w in
      let ran = record scheduler { coroutines = set_elem scheduler.coroutines i c' } in
      (if completed then remove_coroutine ran i else some ran) >>= λ next. run_from i next w'

  -- `ms_co_scheduler_run_once`.
  pub run_once : Scheduler → W → Option (Scheduler × W)
  unfolding run_from
  run_once scheduler w = run_from scheduler.count scheduler w

  -- `ms_co_scheduler_loop` with fuel; `none` too where the fuel runs out.
  pub loop : ℕ → Scheduler → W → Option (Scheduler × W)
  unfolding run_once
  loop zero scheduler w = none
  loop (suc fuel) scheduler w =
      let next = (run_once scheduler w >>= λ out. loop fuel out.0 out.1) in
      if ltb 0 scheduler.count then next else some (scheduler, w)
