-- ===== src/Spinlock.antt =====
-- xv6_lab3/spinlock.c: spinlocks, and the nesting of `pushcli` and `popcli` that keeps interrupts off
-- while a processor holds one.
pub mod Nesting
mod Tests
use slab_study.Common.{
  ℕ, ◌+◌, ◌-◌, Bool, true, false, Option, some, none, ◌==◌, ◌&&◌, not, ltb, if◌then◌else◌, update,
}

-- The interrupt flag of a processor, and the part of `struct cpu` that counts `pushcli`.
pub record CpuState : Type 0 where
  pub enabled : Bool
  pub ncli : ℕ
  pub intena : Bool

-- `struct spinlock`; a pointer to a processor is its index, and null is `none`. The fields `name` and
-- `pcs` are for debugging.
pub record Lock : Type 0 where
  pub locked : Bool
  pub cpu : Option ℕ

pub initlock : Lock
initlock = record { locked = false; cpu = none }

pub pushcli : CpuState → CpuState
pushcli c = record {
  enabled = false;
  ncli = c.ncli + 1;
  intena = if c.ncli == 0 then c.enabled else c.intena;
}

-- `none` is a panic, "popcli - interruptible" or "popcli".
pub popcli : CpuState → Option CpuState
popcli c =
    let left = c.ncli - 1 in
    if c.enabled
    then none
    else if ltb c.ncli 1
    then none
    else some (record c { ncli = left; enabled = left == 0 && c.intena })

-- `lock->cpu == mycpu()`
abbrev pub is_cpu : Option ℕ → ℕ → Bool
is_cpu none me = false
is_cpu (some i) me = i == me

-- `holding`, between its `pushcli` and `popcli`.
pub holding : ℕ → Lock → Bool
holding me lock = lock.locked && is_cpu lock.cpu me

-- What an `acquire` by processor `me` comes to when it has tried `xchg` once.
pub data Try : Type 0 where
  reentered : Try  -- the panic "acquire"
  spins : Try
  acquired : Try

-- `acquire` up to its first `xchg`. A processor that spins does the `xchg` again, with its interrupts off.
pub acquire : ℕ → Lock → CpuState → Try × Lock × CpuState
acquire me lock c =
    if holding me lock
    then (reentered, lock, pushcli c)
    else if lock.locked
    then (spins, lock, pushcli c)
    else (acquired, record { locked = true; cpu = some me }, pushcli c)

-- One more `xchg` of a processor that spins.
pub spin : ℕ → Lock → Try × Lock
spin me lock =
    if lock.locked then (spins, lock) else (acquired, record { locked = true; cpu = some me })

-- `none` is the panic "release", or one of `popcli`.
pub release : ℕ → Lock → CpuState → Option (Lock × CpuState)
release me lock c =
    if holding me lock
    then elim (popcli c) [
      | some c' ↦ some (record { locked = false; cpu = none }, c')
      | none ↦ none
    ]
    else none
