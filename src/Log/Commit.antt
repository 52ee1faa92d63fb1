-- ===== src/Log/Commit.antt =====
-- The commit of a transaction: which blocks reach the disk, and in which order.
use sbunix.Base.{
  ℕ, zero, suc, ◌+◌, ◌≤◌, ◌<◌, ◌≡◌, refl, ap, ◌∙◌, inl, true, some, List, [], ◌∷◌, ◌++◌, arith,
  update_ne, update_self, subst,
}
use sbunix.Base.Sets.{has}
use sbunix.Bio.{Buf, Block, Cache}
use sbunix.Bio.Write.{Wrote}
use sbunix.Log.{Log, header, install_from, install_trans, log_blocks_from, commit, log_hdr_max}
use sbunix.Log.Write.{
  InLog, Outside, Ready, Ready-Wrote, log_block-Wrote, install_block-Wrote, write_log_header-Wrote,
}
use sbunix.Log.Writes.{
  Disk, Misses, apply-Misses, Wrotes, Wrotes-refl, Wrotes-cons, Wrotes-trans, logs, homes,
  logs-Misses, apply-logs,
}

-- The entry `i` of the transaction: a dirty buffer of the cache, of the block that the entry names.
abbrev pub Pinned : Log → Cache → Disk → ℕ → Type 0
Pinned l c w i =
    (k : ℕ) × (l.bufs i ≡ some k)
    × (has k c.order ≡ true)
    × ((c.slot k).dirty ≡ true)
    × ((c.slot k).blockno ≡ l.blocks i)
    × ((c.slot k).valid ≡ true)
    × ((c.slot k).block ≡ w i)

-- A transaction that can be committed, with the data `w` for its entries.
pub record Pending (l : Log) (c : Cache) (w : Disk) : Type 0 where
  pub fits : l.nblocks + 1 ≤ l.size
  pub few : l.nblocks ≤ log_hdr_max
  pub pinned : (i : ℕ) → i < l.nblocks → Pinned l c w i

-- Step 1: the data of the entries goes to the blocks of the log.
log_blocks_from-Wrotes :
    (n i : ℕ) (l : Log) (w : Disk) (c : Cache)
    → Ready l c
    → i + n + 1 ≤ l.size
    → ((j : ℕ) → i ≤ j → j < i + n → Pinned l c w j)
    → (c' : Cache) × (log_blocks_from n i l c ≡ some c') × Wrotes l c (logs n i l w) c'
unfolding log_blocks_from
log_blocks_from-Wrotes zero i l w c r s p = (c, refl, Wrotes-refl r)
log_blocks_from-Wrotes (suc n) i l w c r s p =
    let (k, e, h, t, b, vk, x) = p i (omega arith) (omega arith) in
    let (c1, e1, v) = log_block-Wrote l i k r (omega arith, omega arith) e t in
    let keep = λ (j : ℕ) (q : i + 1 ≤ j) (q' : j < i + 1 + n).
      let (m, em, hm, tm, bm, vm, xm) = p j (omega arith) (omega arith) in
      let o = r.clean m hm tm in
      let same : c1.slot m ≡ c.slot m = v.spared m tm (λ u. omega (arith, o, u, s)) in
      let z : Pinned l c1 w j = (
        m,
        em,
        v.same.members m ∙ hm,
        ap (λ (y : Buf). y.dirty) same ∙ tm,
        ap (λ (y : Buf). y.blockno) same ∙ bm,
        ap (λ (y : Buf). y.valid) same ∙ vm,
        ap (λ (y : Buf). y.block) same ∙ xm,
      ) in
      z in
    let (c2, e2, u) =
      log_blocks_from-Wrotes n (i + 1) l w c1 (Ready-Wrote l r v) (omega arith) keep in
    (c2, rw e1 e2, Wrotes-cons (subst (λ y. Wrote c (l.start + 1 + i) y c1) x v) u)

-- Step 3: the blocks of the log go to their homes.
pub install_from-Wrotes :
    (n i : ℕ) (l : Log) (w : Disk) (c : Cache)
    → Ready l c
    → i + n + 1 ≤ l.size
    → ((j : ℕ) → i ≤ j → j < i + n → Outside l (l.blocks j))
    → ((j : ℕ) → i ≤ j → j < i + n → c.disk (l.start + 1 + j) ≡ w j)
    → (c' : Cache) × (install_from n i l c ≡ some c') × Wrotes l c (homes n i l w) c'
unfolding install_from
install_from-Wrotes zero i l w c r s o d = (c, refl, Wrotes-refl r)
install_from-Wrotes (suc n) i l w c r s o d =
    let out = o i (omega arith) (omega arith) in
    let (c1, e1, v) = install_block-Wrote l i r (omega arith, omega arith) out in
    let keep = λ (j : ℕ) (q : i + 1 ≤ j) (q' : j < i + 1 + n).
      let z : c1.disk (l.start + 1 + j) ≡ w j =
        ap (λ f. f (l.start + 1 + j)) v.disk
        ∙ update_ne c.disk (l.blocks i) (l.start + 1 + j) (c.disk (l.start + 1 + i))
            (λ u. omega (arith, out, u, s))
        ∙ d j (omega arith) (omega arith) in
      z in
    let (c2, e2, u) =
      install_from-Wrotes n (i + 1) l w c1 (Ready-Wrote l r v) (omega arith)
        (λ j q q'. o j (omega arith) (omega arith)) keep in
    (
      c2,
      rw e1 e2,
      Wrotes-cons (subst (λ y. Wrote c (l.blocks i) y c1) (d i (omega arith) (omega arith)) v) u,
    )

pub homes-Misses :
    (b n i : ℕ) (l : Log) (w : Disk)
    → ((j : ℕ) → i ≤ j → j < i + n → Outside l (l.blocks j))
    → InLog l b
    → Misses b (homes n i l w)
homes-Misses b zero i l w o h = tt
homes-Misses b (suc n) i l w o h = (
  λ e. omega (arith, h, e, o i (omega arith) (omega arith)),
  homes-Misses b n (i + 1) l w (λ j q q'. o j (omega arith) (omega arith)) h,
)

-- The transaction's header, and the header that clears it, over the header block `d`.
abbrev pub cleared : Log → Log
cleared l = record l { nblocks = 0 }

Ready-cleared : {l : Log} {c : Cache} → Ready l c → Ready (cleared l) c
Ready-cleared r = record {
  cached = r.cached;
  small = r.small;
  room = r.room;
  bounded = r.bounded;
  clean = r.clean;
}

-- The writes of a commit, in the order in which they reach the disk.
abbrev pub commit_writes : Log → Disk → Block → List (ℕ × Block)
commit_writes l w d =
    logs l.nblocks 0 l w
    ++ ((l.start, header l d)
        ∷ (homes l.nblocks 0 l w ++ ((l.start, header (cleared l) (header l d)) ∷ [])))

module _ {c : Cache} (l : Log) (w : Disk) (r : Ready l c) (p : Pending l c w) where
  start_in : InLog l l.start
  start_in = (omega arith, omega (arith, p.fits))

  home_out : (j : ℕ) → 0 ≤ j → j < 0 + l.nblocks → Outside l (l.blocks j)
  home_out j _ h =
      let (k, e, hk, t, b, vk, x) = p.pinned j (omega (arith, h)) in
      subst (λ y. Outside l y) b (r.clean k hk t)

  -- On a cache that the log can work with, and for a transaction that fits into the log and whose
  -- entries are dirty buffers of the cache, a commit does not panic. Its writes are the entries'
  -- data to the log, the header, the data to its homes, and the cleared header, in this order and
  -- no others.
  pub commit-Wrotes :
      (c' : Cache) × (commit l c ≡ some c') × Wrotes l c (commit_writes l w (c.disk l.start)) c'
  unfolding commit install_trans
  commit-Wrotes =
      let (c1, e1, v1) =
        log_blocks_from-Wrotes l.nblocks 0 l w c r (omega (arith, p.fits))
          (λ j _ h. p.pinned j (omega (arith, h))) in
      let (c2, e2, v2) = write_log_header-Wrote l v1.ready start_in in
      let start1 : c1.disk l.start ≡ c.disk l.start =
        ap (λ f. f l.start) v1.disk
        ∙ apply-Misses l.start (logs l.nblocks 0 l w) c.disk
            (logs-Misses l.start l.nblocks 0 l w (inl (omega arith))) in
      let logged = λ (j : ℕ) (q : 0 ≤ j) (q' : j < 0 + l.nblocks).
        let z : c2.disk (l.start + 1 + j) ≡ w j =
          ap (λ f. f (l.start + 1 + j)) v2.disk
          ∙ update_ne c1.disk l.start (l.start + 1 + j) (header l (c1.disk l.start))
              (λ u. omega (arith, u))
          ∙ ap (λ f. f (l.start + 1 + j)) v1.disk
          ∙ apply-logs l.nblocks 0 j l w c.disk q q' in
        z in
      let (c3, e3, v3) =
        install_from-Wrotes l.nblocks 0 l w c2 (Ready-Wrote l v1.ready v2) (omega (arith, p.fits))
          home_out logged in
      let (c4, e4, v4) = write_log_header-Wrote (cleared l) (Ready-cleared v3.ready) start_in in
      let start3 : c3.disk l.start ≡ header l (c.disk l.start) =
        ap (λ f. f l.start) v3.disk
        ∙ apply-Misses l.start (homes l.nblocks 0 l w) c2.disk
            (homes-Misses l.start l.nblocks 0 l w home_out start_in)
        ∙ ap (λ f. f l.start) v2.disk
        ∙ update_self c1.disk l.start (header l (c1.disk l.start))
        ∙ ap (λ x. header l x) start1 in
      let last : Wrotes l c3 ((l.start, header (cleared l) (c3.disk l.start)) ∷ []) c4 =
        Wrotes-cons v4 (Wrotes-refl (Ready-Wrote l v3.ready v4)) in
      (
        c4,
        rw (e1, e2, e3, e4) refl,
        Wrotes-trans v1 (
            Wrotes-cons (subst (λ x. Wrote c1 l.start (header l x) c2) start1 v2) (
              Wrotes-trans v3
                (subst (λ x. Wrotes l c3 ((l.start, header (cleared l) x) ∷ []) c4) start3 last))),
      )
