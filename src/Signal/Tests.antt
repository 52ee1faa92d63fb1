-- ===== src/Signal/Tests.antt =====
-- kernel/signal.c at concrete inputs.
use sbunix.Base.{◌≡◌, refl, true, false, ◌==◌, ◌||◌, [], ◌∷◌}
use sbunix.Base.{inl, ◌<◌, ◌^◌, arith, subst}
use sbunix.Base.Int.{pos}
use sbunix.Signal.AltStack.{StackArg, no_stack, sys_sigaltstack, IsGood, sys_sigaltstack-IsGood}
use sbunix.Signal.{User, faults}
use sbunix.Signal.{
  Pcb, Table, Sigaction, proc_running, pick_actionable, send_within, send_signal, sys_sigaction,
  sys_sigprocmask, null, holds, sigkill,
}
use sbunix.Signal.Restart.{pick_actionable-again}
use sbunix.Signal.Pick.{Picked, pick_actionable-Picked}
use sbunix.Signal.Send.{
  Unmaskable, sys_sigaction-Unmaskable, sys_sigprocmask-Unmaskable, send_within-enough,
}

-- A process with SIGTERM and SIGCHLD pending.
abbrev busy : Pcb
busy = record {
  pid = 7;
  parent_pid = 1;
  pgid = 7;
  is_user = true;
  state = proc_running;
  wake_tick = 0;
  continued_pending = false;
  last_signal = 0;
  stopped_reported = false;
  sig_pending = λ i. (i == 15) || (i == 17);
  sig_blocked = λ i. false;
  sig_handlers = λ i. record { handler = 0; mask = λ j. false; flags = 0 };
  sig_suspend_active = false;
  sig_suspend_saved_mask = λ i. false;
}

abbrev table : Table
table = record { procs = 0 ∷ []; pcb = λ i. busy }

abbrev catching : Sigaction
catching = record { handler = 4096; mask = λ i. true; flags = 0 }

busy-Unmaskable : Unmaskable busy
busy-Unmaskable = record {
  kill_open = refl;
  stop_open = refl;
  kill_default = refl;
  stop_default = refl;
}

pick_actionable-Picked_example : Picked busy (pick_actionable busy).0 (pick_actionable busy).1
pick_actionable-Picked_example = pick_actionable-Picked busy

sys_sigaction-Unmaskable_example : Unmaskable (sys_sigaction busy (pos 15) (holds catching) null).1
sys_sigaction-Unmaskable_example =
    sys_sigaction-Unmaskable busy (pos 15) (holds catching) null busy-Unmaskable

sys_sigprocmask-Unmaskable_example : Unmaskable (sys_sigprocmask busy 2 (holds (λ i. true)) null).1
sys_sigprocmask-Unmaskable_example =
    sys_sigprocmask-Unmaskable busy 2 (holds (λ i. true)) null busy-Unmaskable

send_within-enough_example : send_within 5 table 0 sigkill ≡ send_signal table 0 sigkill
send_within-enough_example = send_within-enough 3 table 0 sigkill

-- A stack of 8192 bytes at 0x10000.
abbrev wanted : StackArg
wanted = record { ss_sp = 65536; ss_flags = 0; ss_size = 8192 }

sys_sigaltstack-IsGood_example : IsGood (sys_sigaltstack no_stack 4096 (holds wanted) null).1
sys_sigaltstack-IsGood_example =
    sys_sigaltstack-IsGood no_stack 4096 (holds wanted) null (λ s e. small s e) (inl refl)
  where
    small : (s : StackArg) → holds wanted ≡ holds s → (s.ss_sp < 2 ^ 64) × (s.ss_size < 2 ^ 64)
    small s e =
        subst
          (λ (x : User StackArg). elim x as (λ _. Type 0) [
            | null ↦ Unit
            | faults ↦ Unit
            | holds y ↦ (y.ss_sp < 2 ^ 64) × (y.ss_size < 2 ^ 64)
          ])
          e (omega arith, omega arith)

pick_actionable-again_example :
    (pick_actionable (pick_actionable busy).0).1 ≡ (pick_actionable busy).1
pick_actionable-again_example = pick_actionable-again busy
