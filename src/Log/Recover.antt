-- ===== src/Log/Recover.antt =====
-- Recovery: what `recover_from_log` writes, as a function of the disk.
use sbunix.Base.{
  ℕ, ◌+◌, ◌≤◌, ◌<◌, ◌≡◌, refl, sym, ap, ◌∙◌, inl, inr, Bool, true, not, Option, some, List, [], ◌∷◌,
  ◌++◌, arith, append-nil, update, Bool-cases, ◌>>=◌, subst, ltb, if◌then◌else◌,
}
use sbunix.Base.Sets.{count-congr}
use sbunix.Bio.{Buf, Block, Cache, bread, brelse, is_victim}
use sbunix.Bio.Read.{Got-at, bread-Got}
use sbunix.Bio.Write.{Wrote, brelse-Released}
use sbunix.Bio.Peek.{Peeked, peek-Peeked}
use sbunix.Log.{Log, is_oob, install_trans, read_entries, clear_log, recover_from_log, log_hdr_max}
use sbunix.Log.Write.{InLog, Outside, Ready, Ready-Wrote, write_log_header-Wrote, Got-clean}
use sbunix.Log.Writes.{Disk, apply-Misses, Wrotes, Wrotes-refl, Wrotes-cons, Wrotes-trans, homes}
use sbunix.Log.Commit.{cleared, install_from-Wrotes, homes-Misses}
use sbunix.Log.Header.{header-cleared, is_oob-Outside, Loaded, read_entries-Loaded}

-- The log with the entries of the header block `d`, and whether all of them are accepted.
abbrev pub parsed : Log → Block → Log × Bool
parsed l d = read_entries (d 0) 0 d (record l { nblocks = d 0 })

abbrev pub clearing : Log → Disk → List (ℕ × Block)
clearing l d = (l.start, update (d l.start) 0 0) ∷ []

-- The writes of a recovery from the disk `d`.
abbrev pub recover_writes : Log → Disk → List (ℕ × Block)
recover_writes l d =
    let h = d l.start in
    if ltb log_hdr_max (h 0)
    then clearing l d
    else if not (parsed l h).1
    then clearing l d
    else if ltb 0 (h 0)
    then homes (h 0) 0 (parsed l h).0 (λ j. d (l.start + 1 + j)) ++ clearing l d
    else []

-- `Ready` is about the log's place only.
Ready-moved :
    {l l' : Log} {c : Cache} → l'.start ≡ l.start → l'.size ≡ l.size → Ready l c → Ready l' c
Ready-moved {l} {l'} {c} e e' r = record {
  cached = r.cached;
  small = r.small;
  room = r.room;
  bounded = omega (arith, r.bounded, e, e');
  clean = λ k h t. let o = r.clean k h t in omega (arith, o, e, e');
}

Wrotes-moved :
    {l l' : Log} {c c' : Cache} {ws : List (ℕ × Block)}
    → l'.start ≡ l.start
    → l'.size ≡ l.size
    → Wrotes l c ws c'
    → Wrotes l' c ws c'
Wrotes-moved e e' v = record {
  ready = Ready-moved e e' v.ready;
  same = v.same;
  disk = v.disk;
  trace = v.trace;
  pins = v.pins;
  dirt = v.dirt;
}

-- Reading the header does not write.
peek_header :
    {c : Cache} (l : Log)
    → Ready l c
    → InLog l l.start
    → (hb : ℕ) × ((c1 : Cache) × (bread c l.start ≡ some (hb, c1))
        × ((c1.slot hb).block ≡ c.disk l.start)
        × Wrotes l c [] (brelse c1 hb))
peek_header {c} l r inside =
    let (i, got) = bread-Got l.start r.cached (omega (arith, r.room)) in
    let (c1, e, g) = got in
    let clean = Got-clean l r inside g in
    let rel = brelse-Released c1 i g.same.nodup (g.same.members i ∙ g.here) in
    let p = peek-Peeked r.cached r.small clean g rel in
    (i, (c1, e, ap (λ (x : Buf). x.block) (Got-at g) ∙ g.clean clean, Peeked-Wrotes r p))
  where
    Peeked-Wrotes : {c2 : Cache} → Ready l c → Peeked c c2 → Wrotes l c [] c2
    Peeked-Wrotes {c2} r p = record {
      ready = record {
        cached = p.cached;
        small = λ j. rw (p.pins j) (r.small j);
        room = rw (p.same.counts (is_victim c2)) (
            rw
              (count-congr (is_victim c2) (is_victim c) c.order
                (λ j h. rw (p.pins j, p.undirty j) refl))
              r.room);
        bounded = r.bounded;
        clean = λ k h t.
            let (t0, e) = p.dirt k t in
            subst (λ (x : Buf). Outside l (x.blockno)) (sym e)
              (r.clean k (sym (p.same.members k) ∙ h) t0);
      };
      same = p.same;
      disk = p.disk;
      trace = p.trace ∙ sym (append-nil c.trace);
      pins = p.pins;
      dirt = p.dirt;
    }

-- Clearing the log of `l'`, which lies where `l` does.
clear_log-Wrotes :
    {c : Cache} (l l' : Log)
    → l'.start ≡ l.start
    → l'.size ≡ l.size
    → Ready l c
    → 0 < l.size
    → (c' : Cache) × (clear_log l' c ≡ some (cleared l', c')) × Wrotes l c (clearing l c.disk) c'
unfolding clear_log
clear_log-Wrotes {c} l l' e e' r s =
    let r' : Ready (cleared l') c = Ready-moved e e' r in
    let (c1, e1, v) = write_log_header-Wrote (cleared l') r' (omega arith, omega (arith, e', s)) in
    let v' : Wrote c l.start (update (c.disk l.start) 0 0) c1 =
      subst (λ x. Wrote c x (update (c.disk x) 0 0) c1) e
        (subst (λ x. Wrote c l'.start x c1) (header-cleared l' (c.disk l'.start)) v) in
    (c1, rw e1 refl, Wrotes-cons v' (Wrotes-refl (Ready-Wrote l r v')))

-- `recover_from_log` after the header `d` was read and released.
abbrev rest : Log → Block → Cache → Option (Log × Cache)
rest l d c2 =
    let l' = (parsed l d).0 in
    if ltb log_hdr_max (d 0)
    then clear_log l c2
    else if not (parsed l d).1
    then clear_log l' c2
    else if ltb 0 l'.nblocks
    then (do c3 ← install_trans l' c2; clear_log l' c3)
    else some (l', c2)

-- The replay of the accepted entries, and the header cleared.
replay-Wrotes :
    {c : Cache} (l : Log) (h : Block)
    → Ready l c
    → log_hdr_max < l.size
    → h 0 ≤ log_hdr_max
    → c.disk l.start ≡ h
    → Loaded (h 0) 0 h (record l { nblocks = h 0 }) (parsed l h).0 true
    → (c3 : Cache) × ((c' : Cache) × (install_trans (parsed l h).0 c ≡ some c3)
        × (clear_log (parsed l h).0 c3 ≡ some (cleared (parsed l h).0, c'))
        × Wrotes l c
            (homes (h 0) 0 (parsed l h).0 (λ j. c.disk (l.start + 1 + j)) ++ clearing l c.disk)
            c')
unfolding install_trans is_oob
replay-Wrotes {c} l h r s few eh p =
    let l' = (parsed l h).0 in
    let w = λ (j : ℕ). c.disk (l.start + 1 + j) in
    let out = λ (j : ℕ) (q : 0 ≤ j) (q' : j < 0 + h 0).
      let (eb, nb) = p.entries refl j q q' in
      let o : Outside l (h (1 + j)) = is_oob-Outside l (h (1 + j)) r.bounded nb in
      let z : Outside l' (l'.blocks j) = omega (arith, o, eb, p.start, p.size) in z in
    let (c3, e3, v3) =
      install_from-Wrotes (h 0) 0 l' w c (Ready-moved p.start p.size r)
        (omega (arith, s, few, p.size)) out (λ j q q'. ap (λ x. c.disk (x + 1 + j)) p.start) in
    let v3' : Wrotes l c (homes (h 0) 0 l' w) c3 = Wrotes-moved (sym p.start) (sym p.size) v3 in
    let (c', e', v') = clear_log-Wrotes l l' p.start p.size v3'.ready (omega (arith, s)) in
    let same : c3.disk l.start ≡ c.disk l.start =
      ap (λ f. f l.start) v3'.disk
      ∙ apply-Misses l.start (homes (h 0) 0 l' w) c.disk (
          homes-Misses l.start (h 0) 0 l' w out
            (omega (arith, p.start), omega (arith, p.start, p.size, s))) in
    (
      c3,
      (
        c',
        rw p.nblocks e3,
        e',
        Wrotes-trans v3' (subst (λ x. Wrotes l c3 ((l.start, update x 0 0) ∷ []) c') same v'),
      ),
    )

-- On a cache that the log can work with, and with a log of more than 15 blocks, recovery does not
-- panic and leaves no pending blocks. Its disk writes are the cleared header alone when the count
-- in the header is above 15 or an entry is refused, the log blocks to their homes and then the
-- cleared header when there are entries, and none when there are none.
pub recover_from_log-Wrotes :
    {c : Cache} (l : Log)
    → Ready l c
    → log_hdr_max < l.size
    → (l' : Log) × ((c' : Cache) × (recover_from_log l c ≡ some (l', c'))
        × (l'.nblocks ≡ 0)
        × Wrotes l c (recover_writes l c.disk) c')
unfolding recover_from_log
recover_from_log-Wrotes {c} l r s =
    let (hb, peek) = peek_header l r (omega arith, omega (arith, s)) in
    let (c1, e, eh, v) = peek in
    let first : recover_from_log l c ≡ rest l (c.disk l.start) (brelse c1 hb) =
      rw e (ap (λ d. rest l d (brelse c1 hb)) eh) in
    let same = v.disk in
    let (l', found) = cases (brelse c1 hb) v.ready in
    let (c', e', z, u) = found in
    (
      l',
      (
        c',
        first ∙ ap (λ d. rest l (d l.start) (brelse c1 hb)) (sym same) ∙ e',
        z,
        Wrotes-trans v (subst (λ d. Wrotes l (brelse c1 hb) (recover_writes l d) c') same u),
      ),
    )
  where
    Goal : Cache → Type 0
    Goal c2 =
        (l' : Log) × ((c' : Cache) × (rest l (c2.disk l.start) c2 ≡ some (l', c'))
          × (l'.nblocks ≡ 0)
          × Wrotes l c2 (recover_writes l c2.disk) c')

    cases : (c2 : Cache) → Ready l c2 → Goal c2
    cases c2 r2 =
        let h = c2.disk l.start in
        let p = read_entries-Loaded (h 0) 0 h (record l { nblocks = h 0 }) in
        elim (Bool-cases (ltb log_hdr_max (h 0))) [
          | inl many ↦
              let (c', e', v') = clear_log-Wrotes l l refl refl r2 (omega (arith, s)) in
              (cleared l, (c', rw many e', refl, rw many v'))
          | inr few ↦ elim (Bool-cases (parsed l h).1) [
            | inr bad ↦
                let (c', e', v') =
                  clear_log-Wrotes l (parsed l h).0 p.start p.size r2 (omega (arith, s)) in
                (cleared (parsed l h).0, (c', rw (few, bad) e', refl, rw (few, bad) v'))
            | inl good ↦ elim (Bool-cases (ltb 0 (h 0))) [
              | inl more ↦
                  let p' =
                    subst (λ b. Loaded (h 0) 0 h (record l { nblocks = h 0 }) (parsed l h).0 b) good
                      p in
                  let (c3, found) = replay-Wrotes l h r2 s (ground (arith, few)) refl p' in
                  let (c', e3, e', v') = found in
                  (
                    cleared (parsed l h).0,
                    (c', rw (few, good, p.nblocks, more, e3) e', refl, rw (few, good, more) v'),
                  )
              | inr no_more ↦ (
                (parsed l h).0,
                (
                  c2,
                  rw (few, good, p.nblocks, no_more) refl,
                  ground (arith, no_more, p.nblocks),
                  rw (few, good, no_more) (Wrotes-refl r2),
                ),
              )
            ]
          ]
        ]
