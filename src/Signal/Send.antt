-- ===== src/Signal/Send.antt =====
-- Sending a signal: the depth of the calls, and what cannot be blocked.
use sbunix.Base.{
  ℕ, suc, ◌≡◌, refl, sym, ap, ◌∙◌, inl, inr, false, ◌||◌, ◌==◌, leb, arith, update, Bool-cases,
  fun_ext,
}
use sbunix.Base.Int.{ℤ, pos, negsuc}
use sbunix.Signal.{
  Pcb, Table, Sigset, Sigaction, User, null, faults, holds, sigkill, sigstop, sigchld, sig_dfl,
  send_within, send_signal, sanitize, set_action, masked, nsig, send_step, sys_sigaction,
  sys_sigprocmask,
}

-- A SIGCHLD is sent without a further call.
send_within-sigchld :
    (n : ℕ) (t : Table) (i : ℕ) → send_within (suc n) t i sigchld ≡ send_within 1 t i sigchld
unfolding send_within send_step
send_within-sigchld n t i = refl

-- Two calls inside each other are enough: with more depth allowed, `send_signal` does the same.
pub send_within-enough :
    (n : ℕ) (t : Table) (i sig : ℕ) → send_within (suc (suc n)) t i sig ≡ send_signal t i sig
unfolding send_signal send_within
send_within-enough n t i sig =
    ap (λ f. send_step f t i sig)
      (fun_ext λ s. fun_ext λ j. send_within-sigchld n s j ∙ sym (send_within-sigchld 0 s j))

-- SIGKILL and SIGSTOP are not blocked, and have no handler.
pub record Unmaskable (p : Pcb) : Type 0 where
  pub kill_open : p.sig_blocked sigkill ≡ false
  pub stop_open : p.sig_blocked sigstop ≡ false
  pub kill_default : (p.sig_handlers sigkill).handler ≡ sig_dfl
  pub stop_default : (p.sig_handlers sigstop).handler ≡ sig_dfl

-- Whatever its arguments, `sigaction` leaves SIGKILL and SIGSTOP without handlers and open.
pub sys_sigaction-Unmaskable :
    (p : Pcb) (sig : ℤ) (act : User Sigaction) (oldact : User Unit)
    → Unmaskable p
    → Unmaskable (sys_sigaction p sig act oldact).1
unfolding sys_sigaction
sys_sigaction-Unmaskable p (negsuc n) act oldact u = u
sys_sigaction-Unmaskable p (pos sig) act oldact u = elim (Bool-cases ((sig == 0) || leb nsig sig)) [
  | inl e ↦ rw e u
  | inr e ↦ elim (Bool-cases ((sig == sigkill) || (sig == sigstop))) [
    | inl e' ↦ rw (e, e') u
    | inr e' ↦ rw (e, e') (cases act oldact e')
  ]
]
  where
    install : Sigaction → Pcb
    install a = record p {
      sig_handlers = update p.sig_handlers sig (record a { mask = sanitize a.mask });
    }

    good : (a : Sigaction) → ((sig == sigkill) || (sig == sigstop)) ≡ false → Unmaskable (install a)
    good a e = record {
      kill_open = u.kill_open;
      stop_open = u.stop_open;
      kill_default = ground (arith, u.kill_default);
      stop_default = ground (arith, u.stop_default);
    }

    cases :
        (act : User Sigaction) (oldact : User Unit)
        → ((sig == sigkill) || (sig == sigstop)) ≡ false
        → Unmaskable (set_action p sig act oldact).1
    cases faults o e = u
    cases null faults e = u
    cases null null e = u
    cases null (holds _) e = u
    cases (holds a) faults e = u
    cases (holds a) null e = good a e
    cases (holds a) (holds _) e = good a e

masked-Unmaskable :
    (p : Pcb) (how : ℕ) (s : Sigset)
    → Unmaskable p
    → Unmaskable (record p { sig_blocked = masked how p.sig_blocked (sanitize s) })
masked-Unmaskable p how s u = record {
  kill_open = ground (arith, u.kill_open);
  stop_open = ground (arith, u.stop_open);
  kill_default = u.kill_default;
  stop_default = u.stop_default;
}

-- Whatever its arguments, `sigprocmask` leaves SIGKILL and SIGSTOP open.
pub sys_sigprocmask-Unmaskable :
    (p : Pcb) (how : ℕ) (set : User Sigset) (oldset : User Unit)
    → Unmaskable p
    → Unmaskable (sys_sigprocmask p how set oldset).1
unfolding sys_sigprocmask
sys_sigprocmask-Unmaskable p how null null u = u
sys_sigprocmask-Unmaskable p how null faults u = u
sys_sigprocmask-Unmaskable p how null (holds _) u = u
sys_sigprocmask-Unmaskable p how faults oldset u = elim (Bool-cases (leb 3 how)) [
  | inl e ↦ rw e u
  | inr e ↦ rw e u
]
sys_sigprocmask-Unmaskable p how (holds s) null u = elim (Bool-cases (leb 3 how)) [
  | inl e ↦ rw e u
  | inr e ↦ rw e (masked-Unmaskable p how s u)
]
sys_sigprocmask-Unmaskable p how (holds s) faults u = elim (Bool-cases (leb 3 how)) [
  | inl e ↦ rw e u
  | inr e ↦ rw e u
]
sys_sigprocmask-Unmaskable p how (holds s) (holds _) u = elim (Bool-cases (leb 3 how)) [
  | inl e ↦ rw e u
  | inr e ↦ rw e (masked-Unmaskable p how s u)
]
