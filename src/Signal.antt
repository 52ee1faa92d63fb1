-- ===== src/Signal.antt =====
-- kernel/signal.c: sending, choosing and delivering signals. A mask of signals is a test on signal
-- numbers, bit `i` for the number `i`. A process is named by an index; `procs` is the list from
-- `proc_list_head()` on. A signal number is a natural number where the source has an `int` that its
-- callers have checked, and an integer in the system calls.
pub mod Pick
pub mod Send
pub mod AltStack
pub mod Restart
mod Tests
use sbunix.Base.{
  ℕ, zero, suc, ◌+◌, ◌&&◌, ◌||◌, Bool, true, false, not, Option, none, some, List, [], ◌∷◌, ◌==◌,
  ltb, leb, if◌then◌else◌, update,
}
use sbunix.Base.Int.{ℤ, pos, negsuc, minus, is_negative}
use sbunix.Base.Errno.{esrch, einval, efault}

abbrev pub nsig : ℕ
nsig = 32

abbrev pub sigkill : ℕ
sigkill = 9

abbrev pub sigchld : ℕ
sigchld = 17

abbrev pub sigcont : ℕ
sigcont = 18

abbrev pub sigstop : ℕ
sigstop = 19

abbrev pub sigtstp : ℕ
sigtstp = 20

abbrev pub sigttin : ℕ
sigttin = 21

abbrev pub sigttou : ℕ
sigttou = 22

abbrev pub sig_dfl : ℕ
sig_dfl = 0

abbrev pub sig_ign : ℕ
sig_ign = 1

-- The codes `ACT_TERM`, `ACT_IGN`, `ACT_CORE`, `ACT_STOP` and `ACT_CONT`.
pub data ActionCode : Type 0 where
  act_term : ActionCode
  act_ign : ActionCode
  act_core : ActionCode
  act_stop : ActionCode
  act_cont : ActionCode

-- The numbers that the table leaves out have the code 0, `ACT_TERM`.
abbrev pub default_action : ℕ → ActionCode
default_action i =
    if (i == 3) || (i == 4) || (i == 5) || (i == 6) || (i == 7) || (i == 8) || (i == 11)
    then act_core
    else if i == sigchld
    then act_ign
    else if i == sigcont
    then act_cont
    else if (i == sigstop) || (i == sigtstp) || (i == sigttin) || (i == sigttou)
    then act_stop
    else act_term

abbrev pub Sigset : Type 0
Sigset = ℕ → Bool

-- `struct sigaction`, less its restorer.
pub record Sigaction : Type 0 where
  pub handler : ℕ
  pub mask : Sigset
  pub flags : ℕ

pub data State : Type 0 where
  proc_unused : State
  proc_ready : State
  proc_running : State
  proc_sleeping : State
  proc_stopped : State
  proc_zombie : State

abbrev pub is_stopped : State → Bool
is_stopped proc_stopped = true
is_stopped _ = false

abbrev pub is_sleeping : State → Bool
is_sleeping proc_sleeping = true
is_sleeping _ = false

abbrev pub is_unused : State → Bool
is_unused proc_unused = true
is_unused _ = false

abbrev pub is_zombie : State → Bool
is_zombie proc_zombie = true
is_zombie _ = false

-- The fields of `struct pcb` that the signals use.
pub record Pcb : Type 0 where
  pub pid : ℕ
  pub parent_pid : ℕ
  pub pgid : ℕ
  pub is_user : Bool
  pub state : State
  pub wake_tick : ℕ
  pub continued_pending : Bool
  pub last_signal : ℕ
  pub stopped_reported : Bool
  pub sig_pending : Sigset
  pub sig_blocked : Sigset
  pub sig_handlers : ℕ → Sigaction
  pub sig_suspend_active : Bool
  pub sig_suspend_saved_mask : Sigset

pub record Table : Type 0 where
  pub procs : List ℕ
  pub pcb : ℕ → Pcb

abbrev pub set_pcb : Table → ℕ → Pcb → Table
set_pcb t i p = record t { pcb = update t.pcb i p }

-- `mask |= 1ULL << i` and `mask &= ~(1ULL << i)`
abbrev pub raise : Sigset → ℕ → Sigset
raise m i = update m i true

abbrev pub lower : Sigset → ℕ → Sigset
lower m i = update m i false

-- The numbers from 1 to 31, of which there are `n` from `i` on.
unfoldable pub any_from : ℕ → ℕ → (ℕ → Bool) → Bool
any_from zero i f = false
any_from (suc n) i f = f i || any_from n (i + 1) f

abbrev pub deliverable : Pcb → Sigset
deliverable p i = p.sig_pending i && not (p.sig_blocked i)

-- `sig_has_pending`, on the signals that exist.
abbrev pub sig_has_pending : Pcb → Bool
sig_has_pending p = any_from 31 1 (deliverable p)

pub sig_is_no_op : Pcb → ℕ → Bool
sig_is_no_op p i =
    ((p.sig_handlers i).handler == sig_ign)
    || (((p.sig_handlers i).handler == sig_dfl) && (elim (default_action i) [
      | act_ign ↦ true
      | act_cont ↦ true
      | act_term ↦ false
      | act_core ↦ false
      | act_stop ↦ false
    ]))

-- The loop of `pick_actionable`, `n` rounds from `i` on, with the mask of its start.
pub pick_from : ℕ → ℕ → Sigset → Pcb → ℕ → Pcb × ℕ
pick_from zero i d p found = (p, found)
pick_from (suc n) i d p found =
    let drop = pick_from n (i + 1) d (record p { sig_pending = lower p.sig_pending i }) found in
    let take = pick_from n (i + 1) d p (if found == 0 then i else found) in
    let skip = pick_from n (i + 1) d p found in
    if not (d i) then skip else if sig_is_no_op p i then drop else take

-- The process after the call, and the signal found, or 0.
pub pick_actionable : Pcb → Pcb × ℕ
unfolding pick_from
pick_actionable p = pick_from 31 1 (deliverable p) p 0

pub sig_has_actionable : Pcb → Bool
sig_has_actionable p = any_from 31 1 (λ i. deliverable p i && not (sig_is_no_op p i))

-- `proc_wakeup` of kernel/proc.c.
abbrev pub wakeup_from : List ℕ → Table → ℕ → Table
wakeup_from [] t pid = t
wakeup_from (i ∷ is) t pid =
    wakeup_from is
      (if ((t.pcb i).pid == pid) && is_sleeping (t.pcb i).state
        then set_pcb t i (record (t.pcb i) { state = proc_ready })
        else t)
      pid

abbrev pub proc_wakeup : Table → ℕ → Table
proc_wakeup t pid = wakeup_from t.procs t pid

-- The first process of the list with this number.
abbrev pub find_pid : List ℕ → Table → ℕ → Option ℕ
find_pid [] t pid = none
find_pid (i ∷ is) t pid =
    let rest = find_pid is t pid in if (t.pcb i).pid == pid then some i else rest

-- The first step of `send_signal`: SIGKILL and SIGSTOP cannot be blocked or handled.
pub force : Pcb → ℕ → Pcb
force p sig =
    if (sig == sigkill) || (sig == sigstop)
    then record p {
      sig_blocked = lower p.sig_blocked sig;
      sig_handlers = update p.sig_handlers sig (record (p.sig_handlers sig) { handler = sig_dfl });
    }
    else p

-- SIGCONT drains the stop signals.
abbrev pub drain : Sigset → Sigset
drain m = lower (lower (lower (lower m sigstop) sigtstp) sigttin) sigttou

abbrev pub is_stop_signal : ℕ → Bool
is_stop_signal sig = (sig == sigtstp) || (sig == sigttin) || (sig == sigttou) || (sig == sigstop)

-- `send_signal`, with `call` for its calls of itself, which send SIGCHLD.
pub send_step : (Table → ℕ → Table) → Table → ℕ → ℕ → Table
unfolding force
send_step call t i sig =
    let chld : Table → Table =
      λ s. elim (find_pid s.procs s (s.pcb i).parent_pid) [ some j ↦ call s j | none ↦ s ] in
    let t1 = set_pcb t i (force (t.pcb i) sig) in
    let t2 =
      if sig == sigcont
      then set_pcb t1 i (record (t1.pcb i) { sig_pending = drain (t1.pcb i).sig_pending })
      else t1 in
    let t3 =
      if (sig == sigcont) && is_stopped (t2.pcb i).state
      then proc_wakeup
          (chld (
            set_pcb t2 i
              (record (t2.pcb i) { state = proc_ready; wake_tick = 0; continued_pending = true })))
          (t2.pcb i).parent_pid
      else t2 in
    let t4 = set_pcb t3 i (record (t3.pcb i) { sig_pending = raise (t3.pcb i).sig_pending sig }) in
    let t5 =
      if (sig == sigkill) && is_stopped (t4.pcb i).state
      then chld (set_pcb t4 i (record (t4.pcb i) { state = proc_ready; wake_tick = 0 }))
      else t4 in
    let t6 =
      if is_sleeping (t5.pcb i).state && sig_has_pending (t5.pcb i)
      then set_pcb t5 i (record (t5.pcb i) { state = proc_ready; wake_tick = 0 })
      else t5 in
    if not (t.pcb i).is_user || (sig == 0) || leb nsig sig
    then t
    else if (sig == sigcont) && leb ((t3.pcb i).sig_handlers sigcont).handler sig_ign
    then t3
    else if is_stop_signal sig && is_stopped (t3.pcb i).state
    then t3
    else t6

-- `send_signal` with at most `depth` calls inside each other; `send_signal` says that two are
-- enough.
pub send_within : ℕ → Table → ℕ → ℕ → Table
send_within zero t i sig = t
send_within (suc depth) t i sig = send_step (λ s j. send_within depth s j sigchld) t i sig

pub send_signal : Table → ℕ → ℕ → Table
unfolding send_within
send_signal t i sig = send_within 2 t i sig

pub send_signal_by_pid : Table → ℕ → ℕ → Table
send_signal_by_pid t pid sig = elim (find_pid t.procs t pid) [
  | some i ↦ send_signal t i sig
  | none ↦ t
]

-- The loop of `send_signal_pgrp` over the rest of the list, with the number of hits.
pub send_pgrp_from : List ℕ → Table → ℕ → ℕ → ℕ → Table × ℕ
send_pgrp_from [] t pgid sig hits = (t, hits)
send_pgrp_from (i ∷ is) t pgid sig hits =
    let hit = send_pgrp_from is (send_signal t i sig) pgid sig (hits + 1) in
    let miss = send_pgrp_from is t pgid sig hits in
    if is_unused (t.pcb i).state then miss else if not ((t.pcb i).pgid == pgid) then miss else hit

pub send_signal_pgrp : Table → ℕ → ℕ → Table × ℕ
unfolding send_pgrp_from
send_signal_pgrp t pgid sig = send_pgrp_from t.procs t pgid sig 0

-- Is there a process in the group?
abbrev pub has_member : List ℕ → Table → ℕ → Bool
has_member [] t pgid = false
has_member (i ∷ is) t pgid =
    (not (is_unused (t.pcb i).state) && ((t.pcb i).pgid == pgid)) || has_member is t pgid

-- The loop of `kill(-1, sig)` by the process `me`.
pub broadcast_from : List ℕ → Table → ℕ → ℕ → ℕ → Table × ℕ
broadcast_from [] t me sig n = (t, n)
broadcast_from (i ∷ is) t me sig n =
    let p = t.pcb i in
    let hit = broadcast_from is (if sig == 0 then t else send_signal t i sig) me sig (n + 1) in
    let miss = broadcast_from is t me sig n in
    if is_unused p.state || is_zombie p.state
    then miss
    else if not p.is_user
    then miss
    else if i == me
    then miss
    else if p.pid == 1
    then miss
    else hit

-- The end of `sys_kill` and of `sys_killpg`, for the group `pgid`.
abbrev pub kill_group : Table → ℕ → ℕ → Table × ℤ
kill_group t pgid sig =
    if sig == 0
    then (t, if has_member t.procs t pgid then pos 0 else minus esrch)
    else let (t', hits) = send_signal_pgrp t pgid sig in
      (t', if hits == 0 then minus esrch else pos 0)

-- `me` is the caller's process.
pub sys_kill : Table → ℕ → ℤ → ℤ → Table × ℤ
unfolding send_signal_by_pid broadcast_from
sys_kill t me pid (negsuc _) = (t, minus einval)
sys_kill t me (pos zero) (pos sig) =
    if leb nsig sig then (t, minus einval) else kill_group t (t.pcb me).pgid sig
sys_kill t me (pos (suc n)) (pos sig) =
    if leb nsig sig then (t, minus einval) else elim (find_pid t.procs t (suc n)) [
      | some i ↦ (if sig == 0 then t else send_signal t i sig, pos 0)
      | none ↦ (t, minus esrch)
    ]
sys_kill t me (negsuc zero) (pos sig) =
    let (t', delivered) = broadcast_from t.procs t me sig 0 in
    if leb nsig sig then (t, minus einval) else (t', if ltb 0 delivered then pos 0 else minus esrch)
sys_kill t me (negsuc (suc n)) (pos sig) =
    if leb nsig sig then (t, minus einval) else kill_group t (suc (suc n)) sig

pub sys_killpg : Table → ℕ → ℤ → ℤ → Table × ℤ
sys_killpg t me (negsuc _) sig = (t, minus einval)
sys_killpg t me (pos pgid) (negsuc _) = (t, minus einval)
sys_killpg t me (pos pgid) (pos sig) =
    if leb nsig sig
    then (t, minus einval)
    else kill_group t (if pgid == 0 then (t.pcb me).pgid else pgid) sig

-- Where `check_signals` leaves the process: back to user code, at the end, stopped, or in a
-- handler.
pub data Next : Type 0 where
  resumes : Next
  exits : ℕ → Next
  stops : Next
  handles : ℕ → ℕ → Next

-- The stop of the process `i` by the signal.
abbrev pub stop_current : Table → ℕ → ℕ → Table
stop_current t i sig =
    let t1 =
      set_pcb t i
        (record (t.pcb i) { state = proc_stopped; last_signal = sig; stopped_reported = false }) in
    proc_wakeup (send_signal_by_pid t1 (t1.pcb i).parent_pid sigchld) (t1.pcb i).parent_pid

-- `proc_exit_current` does not return; the frame of a handler is not built here.
pub check_signals : Table → ℕ → Table × Next
unfolding pick_actionable
check_signals t i =
    let (p, sig) = pick_actionable (t.pcb i) in
    let idle =
      if p.sig_suspend_active
      then record p { sig_blocked = p.sig_suspend_saved_mask; sig_suspend_active = false }
      else p in
    let t1 = set_pcb t i (record p { sig_pending = lower p.sig_pending sig }) in
    let h = ((t1.pcb i).sig_handlers sig).handler in
    if not (t.pcb i).is_user
    then (t, resumes)
    else if sig == 0
    then (set_pcb t i idle, resumes)
    else if sig == sigkill
    then (t1, exits sig)
    else if sig == sigstop
    then (stop_current t1 i sig, stops)
    else if h == sig_dfl
    then elim (default_action sig) [
      | act_stop ↦ (stop_current t1 i sig, stops)
      | act_term ↦ (t1, exits sig)
      | act_core ↦ (t1, exits sig)
      | act_ign ↦ (t1, exits sig)
      | act_cont ↦ (t1, exits sig)
    ]
    else (t1, handles sig h)

-- What a pointer of a system call leads to.
pub data User (A : Type 0) : Type 0 where
  null : User A
  faults : User A
  holds : A → User A

-- SIGKILL and SIGSTOP removed from a mask.
abbrev pub sanitize : Sigset → Sigset
sanitize m = lower (lower m sigkill) sigstop

-- `sys_sigaction` for a signal that can be handled: both copies come before the change.
abbrev pub set_action : Pcb → ℕ → User Sigaction → User Unit → ℤ × Pcb × Option Sigaction
set_action p sig faults oldact = (minus efault, p, none)
set_action p sig null faults = (minus efault, p, none)
set_action p sig null null = (pos 0, p, none)
set_action p sig null (holds _) = (pos 0, p, some (p.sig_handlers sig))
set_action p sig (holds a) faults = (minus efault, p, none)
set_action p sig (holds a) null = (
  pos 0,
  record p { sig_handlers = update p.sig_handlers sig (record a { mask = sanitize a.mask }) },
  none,
)
set_action p sig (holds a) (holds _) = (
  pos 0,
  record p { sig_handlers = update p.sig_handlers sig (record a { mask = sanitize a.mask }) },
  some (p.sig_handlers sig),
)

-- The result, the process, and what is stored through `oldact` or `oldset`, whose pointer is null,
-- faults, or is good.
pub sys_sigaction : Pcb → ℤ → User Sigaction → User Unit → ℤ × Pcb × Option Sigaction
sys_sigaction p (negsuc _) act oldact = (minus einval, p, none)
sys_sigaction p (pos sig) act oldact =
    if (sig == 0) || leb nsig sig
    then (minus einval, p, none)
    else if (sig == sigkill) || (sig == sigstop)
    then (minus einval, p, none)
    else set_action p sig act oldact

-- The new mask by `how`: `SIG_BLOCK`, `SIG_UNBLOCK` or `SIG_SETMASK`.
abbrev pub masked : ℕ → Sigset → Sigset → Sigset
masked how old s =
    if how == 0 then (λ i. old i || s i) else if how == 1 then (λ i. old i && not (s i)) else s

pub sys_sigprocmask : Pcb → ℕ → User Sigset → User Unit → ℤ × Pcb × Option Sigset
sys_sigprocmask p how set oldset = elim set [
  | null ↦ elim oldset [
    | faults ↦ (minus efault, p, none)
    | null ↦ (pos 0, p, none)
    | holds _ ↦ (pos 0, p, some p.sig_blocked)
  ]
  | faults ↦ if leb 3 how then (minus einval, p, none) else (minus efault, p, none)
  | holds s ↦
      let q = record p { sig_blocked = masked how p.sig_blocked (sanitize s) } in
      if leb 3 how then (minus einval, p, none) else elim oldset [
        | faults ↦ (minus efault, p, none)
        | null ↦ (pos 0, q, none)
        | holds _ ↦ (pos 0, q, some p.sig_blocked)
      ]
]
