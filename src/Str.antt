-- ===== src/Str.antt =====
-- xv6_lab3/string.c: all but `memset`, which is assembly. Memory is a function from addresses to bytes,
-- and what the routines touch does not wrap round the address space.
pub mod Copy
pub mod Compare
pub mod Bounded
mod Tests
use slab_study.Common.{
  ℕ, zero, suc, ◌+◌, ◌-◌, Bool, true, false, ◌==◌, ◌&&◌, ◌||◌, not, ltb, if◌then◌else◌, ℤ, pos,
  Option, some, none, negsuc, update,
}

-- `while(n-- > 0) *d++ = *s++;`
pub copy_up : (ℕ → ℕ) → ℕ → ℕ → ℕ → ℕ → ℕ
copy_up mem d s zero = mem
copy_up mem d s (suc n) = copy_up (update mem d (mem s)) (d + 1) (s + 1) n

-- `while(n-- > 0) *--d = *--s;`, where `d` and `s` are the addresses before `n` was added.
pub copy_down : (ℕ → ℕ) → ℕ → ℕ → ℕ → ℕ → ℕ
copy_down mem d s zero = mem
copy_down mem d s (suc n) = copy_down (update mem (d + n) (mem (s + n))) d s n

pub memmove : (ℕ → ℕ) → ℕ → ℕ → ℕ → ℕ → ℕ
memmove mem dst src n =
    if ltb src dst && ltb dst (src + n) then copy_down mem dst src n else copy_up mem dst src n

-- A difference of two bytes, as an int.
pub byte_diff : ℕ → ℕ → ℤ
byte_diff a b = if ltb a b then negsuc (b - a - 1) else pos (a - b)

pub memcmp : (ℕ → ℕ) → ℕ → ℕ → ℕ → ℤ
memcmp mem s1 s2 zero = pos 0
memcmp mem s1 s2 (suc n) =
    let rest = memcmp mem (s1 + 1) (s2 + 1) n in
    if not (mem s1 == mem s2) then byte_diff (mem s1) (mem s2) else rest

pub strncmp : (ℕ → ℕ) → ℕ → ℕ → ℕ → ℤ
strncmp mem p q zero = pos 0
strncmp mem p q (suc n) =
    let rest = strncmp mem (p + 1) (q + 1) n in
    if not (mem p == 0) && mem p == mem q then rest else byte_diff (mem p) (mem q)

-- `while(n-- > 0) *s++ = 0;`
pub pad : (ℕ → ℕ) → ℕ → ℕ → ℕ → ℕ
pad mem s zero = mem
pad mem s (suc n) = pad (update mem s 0) (s + 1) n

-- The `n` of `strncpy` and `safestrcpy` is not negative.
pub strncpy : (ℕ → ℕ) → ℕ → ℕ → ℕ → ℕ → ℕ
strncpy mem s t zero = mem
strncpy mem s t (suc n) =
    let mem' = update mem s (mem t) in
    let rest = strncpy mem' (s + 1) (t + 1) n in if mem t == 0 then pad mem' (s + 1) n else rest

-- `while(--n > 0 && (*s++ = *t++) != 0); *s = 0;`, where `n` is already decremented.
pub copy_ended : (ℕ → ℕ) → ℕ → ℕ → ℕ → ℕ → ℕ
copy_ended mem s t zero = update mem s 0
copy_ended mem s t (suc n) =
    let mem' = update mem s (mem t) in
    let rest = copy_ended mem' (s + 1) (t + 1) n in
    if mem t == 0 then update mem' (s + 1) 0 else rest

pub safestrcpy : (ℕ → ℕ) → ℕ → ℕ → ℕ → ℕ → ℕ
safestrcpy mem s t zero = mem
safestrcpy mem s t (suc n) = copy_ended mem s t n

-- The loop of `strlen` from the index `n` on; `none` is that the fuel ends before the string.
pub strlen_from : ℕ → (ℕ → ℕ) → ℕ → ℕ → Option ℕ
strlen_from zero mem s n = none
strlen_from (suc fuel) mem s n =
    let rest = strlen_from fuel mem s (n + 1) in if mem (s + n) == 0 then some n else rest

pub strlen : ℕ → (ℕ → ℕ) → ℕ → Option ℕ
strlen fuel mem s = strlen_from fuel mem s 0
