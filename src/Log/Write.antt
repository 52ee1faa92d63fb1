-- ===== src/Log/Write.antt =====
-- The disk writes of the log, one at a time: a log block, the header, an installed block.
use sbunix.Base.{
  ℕ, ◌+◌, ◌≤◌, ◌<◌, ◌≡◌, ◌≢◌, refl, sym, ap, ◌∙◌, ◌⊎◌, true, false, some, arith, ◌^◌, add32,
  update_ne, Bool-cases, inl, inr, subst,
}
use sbunix.Base.Sets.{has, count}
use sbunix.Bio.{Buf, Block, Cache, is_victim, brelse}
use sbunix.Bio.Cached.{IsCache}
use sbunix.Bio.Read.{Got, Got-at, bread-Got}
use sbunix.Bio.Write.{
  IsSmall, Wrote, Wrote-IsSmall, Wrote-room, brelse-Released, overwrite, overwrite-Overwrote,
  put-Wrote,
}
use sbunix.Bio.Copy.{Got-IsCache, Got-room, copy-Wrote}
use sbunix.Log.{Log, header, write_log_header, install_block, log_block}

-- The blocks of the log, its header included.
abbrev pub InLog : Log → ℕ → Type 0
InLog l b = (l.start ≤ b) × (b < l.start + l.size)

abbrev pub Outside : Log → ℕ → Type 0
Outside l b = (b < l.start) ⊎ (l.start + l.size ≤ b)

-- A cache that the log can work with: two buffers can be evicted, no block of
-- the log is dirty, and the log ends below the block 2^32.
pub record Ready (l : Log) (c : Cache) : Type 0 where
  pub cached : IsCache c
  pub small : IsSmall c
  pub room : 2 ≤ count (is_victim c) c.order
  pub bounded : l.start + l.size < 2 ^ 32
  pub clean :
      (k : ℕ) → has k c.order ≡ true → (c.slot k).dirty ≡ true → Outside l ((c.slot k).blockno)

pub Ready-Wrote :
    {c c' : Cache} {b : ℕ} {d : Block} (l : Log) → Ready l c → Wrote c b d c' → Ready l c'
Ready-Wrote {c} {c'} l r w = record {
  cached = w.cached;
  small = Wrote-IsSmall r.small w;
  room = omega (arith, Wrote-room w, r.room);
  bounded = r.bounded;
  clean = λ k h t.
      let (t0, e) = w.dirt k t in
      subst (λ (x : Buf). Outside l (x.blockno)) (sym e)
        (r.clean k (sym (w.same.members k) ∙ h) t0);
}

-- A buffer got for a block of the log is clean.
pub Got-clean :
    {c c1 : Cache} {b i : ℕ} (l : Log)
    → Ready l c
    → InLog l b
    → Got c b i c1
    → (c.slot i).dirty ≡ false
Got-clean {c} {b} {i} l r inl' g = elim (Bool-cases (c.slot i).dirty) [
  | inr f ↦ f
  | inl t ↦ absurd (omega (arith, inl', r.clean i g.here t, (g.kept t).0))
]

-- The header goes to its block, over what the disk has there.
pub write_log_header-Wrote :
    {c : Cache} (l : Log)
    → Ready l c
    → InLog l l.start
    → (c' : Cache) × (write_log_header l c ≡ some c')
      × Wrote c l.start (header l (c.disk l.start)) c'
unfolding write_log_header
write_log_header-Wrote {c} l r inside =
    let (i, got) = bread-Got l.start r.cached (omega (arith, r.room)) in
    let (c1, e, g) = got in
    let d = header l ((c1.slot i).block) in
    let o = overwrite-Overwrote c1 i d in
    let v1 = Got-IsCache r.cached g in
    let rel =
      brelse-Released (overwrite c1 i d) i (rw o.order v1.nodup)
        (rw o.order (g.same.members i ∙ g.here)) in
    let same : d ≡ header l (c.disk l.start) =
      ap (λ x. header l x)
        (ap (λ (x : Buf). x.block) (Got-at g) ∙ g.clean (Got-clean l r inside g)) in
    (
      brelse (overwrite c1 i d) i,
      rw e refl,
      subst (λ x. Wrote c l.start x (brelse (overwrite c1 i d) i)) same
          (put-Wrote d r.cached r.small g o rel),
    )

-- The number of a block of the log does not wrap.
place :
    {c : Cache} (l : Log) (i : ℕ)
    → Ready l c
    → InLog l (l.start + 1 + i)
    → add32 l.start (1 + i) ≡ l.start + 1 + i
place l i r inside = omega (arith, inside, r.bounded)

-- The data of a pending block goes to its block of the log.
pub log_block-Wrote :
    {c : Cache} (l : Log) (i k : ℕ)
    → Ready l c
    → InLog l (l.start + 1 + i)
    → l.bufs i ≡ some k
    → (c.slot k).dirty ≡ true
    → (c' : Cache) × (log_block l i c ≡ some c') × Wrote c (l.start + 1 + i) ((c.slot k).block) c'
unfolding log_block
log_block-Wrote {c} l i k r inside eb dk =
    let (lb, got) = bread-Got (l.start + 1 + i) r.cached (omega (arith, r.room)) in
    let (c1, e, g) = got in
    let d = (c1.slot k).block in
    let o = overwrite-Overwrote c1 lb d in
    let v1 = Got-IsCache r.cached g in
    let rel =
      brelse-Released (overwrite c1 lb d) lb (rw o.order v1.nodup)
        (rw o.order (g.same.members lb ∙ g.here)) in
    let f = Got-clean l r inside g in
    let ne : k ≢ lb = λ q. cc (sym dk ∙ ap (λ x. (c.slot x).dirty) q ∙ f) in
    let same : d ≡ (c.slot k).block =
      ap (λ (x : Buf). x.block) (ap (λ h. h k) g.slots ∙ update_ne c.slot lb k g.buf ne) in
    (
      brelse (overwrite c1 lb d) lb,
      rw (place l i r inside, e, eb) refl,
      subst (λ x. Wrote c (l.start + 1 + i) x (brelse (overwrite c1 lb d) lb)) same
          (put-Wrote d r.cached r.small g o rel),
    )

-- On a cache that the log can work with, `install_block` of an entry whose log block is in the log
-- and whose home is outside it does not panic. It makes one disk write, of what the disk has in the
-- log block, to the home, and keeps the cache's invariant, the pins and the dirty buffers of
-- other blocks.
pub install_block-Wrote :
    {c : Cache} (l : Log) (i : ℕ)
    → Ready l c
    → InLog l (l.start + 1 + i)
    → Outside l (l.blocks i)
    → (c' : Cache) × (install_block l i c ≡ some c')
      × Wrote c (l.blocks i) (c.disk (l.start + 1 + i)) c'
unfolding install_block
install_block-Wrote {c} l i r inside out =
    let (a, got) = bread-Got (l.start + 1 + i) r.cached (omega (arith, r.room)) in
    let (c1, e, g) = got in
    let v1 = Got-IsCache r.cached g in
    let (k, got2) = bread-Got (l.blocks i) v1 (omega (arith, r.room, Got-room r.cached g)) in
    let (c2, e2, h) = got2 in
    let d = (c2.slot a).block in
    let o = overwrite-Overwrote c2 k d in
    let v2 = Got-IsCache v1 h in
    let rel =
      brelse-Released (overwrite c2 k d) a (rw o.order v2.nodup)
        (rw o.order (h.same.members a ∙ g.same.members a ∙ g.here)) in
    let hk : has k ((overwrite c2 k d).order) ≡ true = rw o.order (h.same.members k ∙ h.here) in
    let rel2 =
      brelse-Released (brelse (overwrite c2 k d) a) k rel.same.nodup (rel.same.members k ∙ hk) in
    (
      brelse (brelse (overwrite c2 k d) a) k,
      rw (place l i r inside, e, e2) refl,
      copy-Wrote r.cached r.small (omega arith) (Got-clean l r inside g) g h o rel rel2,
    )
