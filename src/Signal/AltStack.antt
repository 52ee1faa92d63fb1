-- ===== src/Signal/AltStack.antt =====
-- kernel/signal.c: the alternate stack, `sigaltstack`, and the mask that `sigpending` returns.
use sbunix.Base.{
  ℕ, ◌+◌, ◌^◌, ◌≤◌, ◌<◌, ◌≡◌, refl, ◌⊎◌, inl, inr, Bool, true, false, not, ◌&&◌, ◌||◌, ◌==◌, ltb,
  leb, arith, Option, none, some, if◌then◌else◌, add64, Bool-cases, eq_of_==,
}
use sbunix.Base.Int.{ℤ, pos, minus}
use sbunix.Base.Errno.{eperm, efault, einval, enomem}
use sbunix.Memory.{page_size, kvmem_offset}
use sbunix.Signal.{Pcb, Sigset, User, null, faults, holds}

abbrev pub minsigstksz : ℕ
minsigstksz = 2048

-- `stack_t`; the flags of an installed stack are 0 or SS_DISABLE.
pub record Stack : Type 0 where
  pub ss_sp : ℕ
  pub disabled : Bool
  pub ss_size : ℕ

-- What the user passes: the flags are a number, of which 0 and SS_DISABLE, 2, are allowed.
pub record StackArg : Type 0 where
  pub ss_sp : ℕ
  pub ss_flags : ℕ
  pub ss_size : ℕ

abbrev pub no_stack : Stack
no_stack = record { ss_sp = 0; disabled = true; ss_size = 0 }

pub sp_on_altstack : Stack → ℕ → Bool
sp_on_altstack st sp =
    not (st.disabled || (st.ss_sp == 0) || (st.ss_size == 0))
    && leb st.ss_sp sp
    && ltb sp (add64 st.ss_sp st.ss_size)

-- The checks of a new stack; the result is the errno, or 0.
pub check_stack : Bool → StackArg → ℕ
check_stack on_alt s =
    if on_alt
    then eperm
    else if not ((s.ss_flags == 0) || (s.ss_flags == 2))
    then einval
    else if s.ss_flags == 2
    then 0
    else if ltb (add64 s.ss_sp s.ss_size) s.ss_sp
    then einval
    else if ltb s.ss_sp page_size || ltb kvmem_offset (add64 s.ss_sp s.ss_size)
    then einval
    else if ltb s.ss_size minsigstksz
    then enomem
    else 0

pub install_stack : StackArg → Stack
install_stack s =
    if s.ss_flags == 2
    then no_stack
    else record { ss_sp = s.ss_sp; disabled = false; ss_size = s.ss_size }

-- The result, the stack, and what is stored through `oss`: the old stack, and whether the caller is
-- on it. `sp` is the caller's stack pointer.
pub sys_sigaltstack : Stack → ℕ → User StackArg → User Unit → ℤ × Stack × Option (Stack × Bool)
sys_sigaltstack st sp faults oss = (minus efault, st, none)
sys_sigaltstack st sp null null = (pos 0, st, none)
sys_sigaltstack st sp null faults = (minus efault, st, none)
sys_sigaltstack st sp null (holds _) = (pos 0, st, some (st, sp_on_altstack st sp))
sys_sigaltstack st sp (holds s) oss =
    let e = check_stack (sp_on_altstack st sp) s in
    if not (e == 0) then (minus e, st, none) else elim oss [
      | null ↦ (pos 0, install_stack s, none)
      | faults ↦ (minus efault, st, none)
      | holds _ ↦ (pos 0, install_stack s, some (st, sp_on_altstack st sp))
    ]

-- `none` is a null pointer or one that faults, and then the result is -EFAULT.
pub sys_sigpending : Pcb → User Unit → ℤ × Option Sigset
sys_sigpending p null = (minus efault, none)
sys_sigpending p faults = (minus efault, none)
sys_sigpending p (holds _) = (pos 0, some p.sig_pending)

-- The stack is disabled, or lies in user memory without wrapping around and is large enough.
abbrev pub IsGood : Stack → Type 0
IsGood st =
    (st.disabled ≡ true)
    ⊎ ((page_size ≤ st.ss_sp) × (st.ss_sp + st.ss_size ≤ kvmem_offset) × (minsigstksz ≤ st.ss_size))

install_stack-IsGood :
    (s : StackArg) (b : Bool)
    → s.ss_sp < 2 ^ 64
    → s.ss_size < 2 ^ 64
    → check_stack b s ≡ 0
    → IsGood (install_stack s)
unfolding check_stack install_stack
install_stack-IsGood s b w w' e = elim (Bool-cases (s.ss_flags == 2)) [
  | inl t ↦ rw t (inl refl)
  | inr t ↦ rw t (inr (ground arith, ground arith, ground arith))
]

-- Whatever a user passes in words of 64 bits, `sigaltstack` leaves the process with a stack that is
-- disabled, or that lies in user memory without wrapping around and is large enough.
pub sys_sigaltstack-IsGood :
    (st : Stack) (sp : ℕ) (ss : User StackArg) (oss : User Unit)
    → ((s : StackArg) → ss ≡ holds s → (s.ss_sp < 2 ^ 64) × (s.ss_size < 2 ^ 64))
    → IsGood st
    → IsGood (sys_sigaltstack st sp ss oss).1
unfolding sys_sigaltstack
sys_sigaltstack-IsGood st sp faults oss w g = g
sys_sigaltstack-IsGood st sp null null w g = g
sys_sigaltstack-IsGood st sp null faults w g = g
sys_sigaltstack-IsGood st sp null (holds _) w g = g
sys_sigaltstack-IsGood st sp (holds s) oss w g =
    elim (Bool-cases (check_stack (sp_on_altstack st sp) s == 0)) [
      | inr e ↦ rw e g
      | inl e ↦
          let good =
            install_stack-IsGood s (sp_on_altstack st sp) (w s refl).0 (w s refl).1
              (eq_of_== (check_stack (sp_on_altstack st sp) s) 0 e) in
          rw e (cases oss good)
    ]
  where
    cases :
        (o : User Unit)
        → IsGood (install_stack s)
        → IsGood
            (elim o as (λ _. ℤ × Stack × Option (Stack × Bool)) [
              | null ↦ (pos 0, install_stack s, none)
              | faults ↦ (minus efault, st, none)
              | holds _ ↦ (pos 0, install_stack s, some (st, sp_on_altstack st sp))
            ]).1
    cases null k = k
    cases faults k = g
    cases (holds _) k = k
