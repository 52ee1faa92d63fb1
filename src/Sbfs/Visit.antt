-- ===== src/Sbfs/Visit.antt =====
-- `visit`: what one use of a block inside a transaction does, for the rest of the file system.
use sbunix.Base.{
  ℕ, ◌+◌, ◌≤◌, ◌<◌, ◌≡◌, refl, sym, ap, subst, ◌∙◌, ◌⊎◌, inl, inr, true, Option, none, some, arith,
  ◌==◌, update, update_self, eq_of_==, Bool-cases, fun_ext,
}
use sbunix.Base.Sets.{count, SameSet, SameSet-trans}
use sbunix.Bio.{Buf, Block, Cache, is_victim, brelse, bread, set_block}
use sbunix.Bio.Read.{Got, Got-at, bread-Got}
use sbunix.Bio.Write.{brelse-Released}
use sbunix.Bio.View.{view}
use sbunix.Log.{System, log_write, find_entry, log_hdr_max}
use sbunix.Log.Write.{Outside}
use sbunix.Log.Transaction.{
  Open, Entry, find_entry-Entry, added, renewed, log_write-added, log_write-renewed,
}
use sbunix.Sbfs.{save, visit}
use sbunix.Sbfs.Settle.{Settled-view, Settled-Open}
use sbunix.Sbfs.Ends.{
  Got-view, final, final_slots, left_Settled, changed_Settled, evictable, evictable_left,
}

-- Room for `n` more blocks in the transaction: in the entries, in the log and in the cache.
pub record Room (n : ℕ) (a : System) : Type 0 where
  pub entries : a.log.nblocks + n ≤ log_hdr_max
  pub blocks : a.log.nblocks + 1 + n ≤ a.log.size
  pub buffers : n + 2 ≤ count (is_victim a.cache) a.cache.order

abbrev pub cost : Option Block → ℕ
cost none = 0
cost (some d) = 1

abbrev pub stored : Option Block → (ℕ → Block) → ℕ → ℕ → Block
stored none v b = v
stored (some d) v b = update v b d

-- The effect of a visit of block `b` that replaces its data by `r`, or leaves them.
pub record Visited (a : System) (b : ℕ) (r : Option Block) (a' : System) : Type 0 where
  pub still_open : Open a'
  pub seen : view a'.cache ≡ stored r (view a.cache) b
  pub room : (n : ℕ) → Room (cost r + n) a → Room n a'
  pub start : a'.log.start ≡ a.log.start
  pub size : a'.log.size ≡ a.log.size
  pub disk : a'.cache.disk ≡ a.cache.disk

same_view : {v : ℕ → Block} {d : Block} (b : ℕ) → d ≡ v b → update v b d ≡ v
same_view {v} {d} b e = fun_ext λ x. elim (Bool-cases (x == b)) [
  | inl q ↦ rw q (e ∙ ap v (sym (eq_of_== x b q)))
  | inr q ↦ rw q
]

module _ {A : Type 0} (a : System) (b : ℕ) (f : Block → A × Option Block) (o : Open a)
    (out : Outside a.log b) where
  abbrev At : A × Option Block → Type 0
  At r = (a' : System) × (visit a b f ≡ some (r.0, a')) × Visited a b r.1 a'

  visit-left :
      (i : ℕ) (c1 : Cache)
      → bread a.cache b ≡ some (i, c1)
      → (g : Got a.cache b i c1) → (x : A) → f ((c1.slot i).block) ≡ (x, none)
      → At (x, none)
  unfolding visit save
  visit-left i c1 e g x ef =
      let z = brelse-Released c1 i g.same.nodup (g.same.members i ∙ g.here) in
      let c4 : Cache = brelse c1 i in
      let same = SameSet-trans g.same z.same in
      let slots : c4.slot ≡ update a.cache.slot i (final a b i g.buf.dirty g.buf.block) =
        final_slots a c1 c4 g.buf o g (fun_ext λ j. ground (arith, ap (λ s. s j) g.slots)) refl
          g.valid g.number z in
      let t = left_Settled a b i c4 o out g same slots (z.disk ∙ g.disk) in
      let more = evictable_left a b i c4 o out g g.buf.dirty g.buf.block g.dirty same slots in
      (
        record a { cache = c4 },
        simp (e, ef) refl,
        record {
          still_open = Settled-Open o t (omega (arith, o.ready.room, more));
          seen = Settled-view o t ∙ same_view b (Got-view o g);
          room = λ n r. record {
            entries = omega (arith, r.entries);
            blocks = omega (arith, r.blocks);
            buffers = omega (arith, r.buffers, more);
          };
          start = refl;
          size = refl;
          disk = z.disk ∙ g.disk;
        },
      )

  module _ (i : ℕ) (c1 : Cache) (e : bread a.cache b ≡ some (i, c1)) (g : Got a.cache b i c1)
      (x : A) (d : Block) (ef : f ((c1.slot i).block) ≡ (x, some d)) (room : Room 1 a) where
    -- The system that calls `log_write`, and the buffer that it marks.
    abbrev changed : System
    changed = record a { cache = set_block c1 i d }

    abbrev marked : Buf
    marked = record g.buf { block = d; dirty = true }

    visit-changed :
        (a2 : System)
        → log_write changed i ≡ some a2
        → a2.cache.order ≡ c1.order
        → a2.cache.slot ≡ update c1.slot i marked
        → a2.cache.disk ≡ c1.disk
        → a2.log.outstanding ≡ true
        → a2.log.start ≡ a.log.start
        → a2.log.size ≡ a.log.size
        → a2.log.nblocks ≤ a.log.nblocks + 1
        → ((j : ℕ)
            → j < a2.log.nblocks
            → ((j < a.log.nblocks)
                × (a2.log.bufs j ≡ a.log.bufs j)
                × (a2.log.blocks j ≡ a.log.blocks j))
              ⊎ ((a2.log.bufs j ≡ some i) × (a2.log.blocks j ≡ b)))
        → At (x, some d)
    unfolding visit save
    visit-changed a2 ew order slots2 disk open' start size more entered =
        let same2 : SameSet a.cache.order a2.cache.order =
          subst (SameSet a.cache.order) (sym order) g.same in
        let z = brelse-Released a2.cache i same2.nodup (same2.members i ∙ g.here) in
        let c4 : Cache = brelse a2.cache i in
        let same = SameSet-trans same2 z.same in
        let slots : c4.slot ≡ update a.cache.slot i (final a b i true d) =
          final_slots a a2.cache c4 marked o g slots2 refl g.valid g.number z in
        let dk = z.disk ∙ disk ∙ g.disk in
        let t =
          changed_Settled a b i c4 o out g d a2.log a2.sie same slots dk open' start size
            (omega (arith, room.blocks, more, size)) (omega (arith, room.entries, more)) entered in
        let fewer = evictable a b i c4 o out g true d same slots in
        (
          record a2 { cache = c4 },
          simp (e, ef, ew) refl,
          record {
            still_open = Settled-Open o t (omega (arith, room.buffers, fewer));
            seen = Settled-view o t;
            room = λ n r. record {
              entries = omega (arith, r.entries, more);
              blocks = omega (arith, r.blocks, more, size);
              buffers = omega (arith, r.buffers, fewer);
            };
            start = start;
            size = size;
            disk = dk;
          },
        )

    at_held : c1.slot i ≡ g.buf
    at_held = Got-at g

    number_held : (changed.cache.slot i).blockno ≡ b
    number_held =
        rw (update_self c1.slot i (record (c1.slot i) { block = d }))
          (ap (λ (y : Buf). y.blockno) at_held ∙ g.number)

    few_held : a.log.nblocks < log_hdr_max
    few_held = omega (arith, room.entries)

    visit-added : find_entry a.log.nblocks 0 a.log b ≡ none → At (x, some d)
    visit-added miss =
        let miss' : find_entry a.log.nblocks 0 a.log ((changed.cache.slot i).blockno) ≡ none =
          ap (find_entry a.log.nblocks 0 a.log) number_held ∙ miss in
        visit-changed (added changed i) (log_write-added changed i o.outstanding few_held miss')
          refl (fun_ext λ j. ground (arith, at_held)) refl o.outstanding refl refl (omega arith)
          (λ j h. elim (Bool-cases (j == a.log.nblocks)) [
            | inl q ↦ inr (ground arith, ground (arith, number_held))
            | inr q ↦ inl (ground (arith, h, q), ground arith, ground arith)
          ])

    visit-renewed :
        (j : ℕ)
        → find_entry a.log.nblocks 0 a.log b ≡ some j
        → j < a.log.nblocks
        → a.log.blocks j ≡ b
        → At (x, some d)
    visit-renewed j found lt eb =
        let found' : find_entry a.log.nblocks 0 a.log ((changed.cache.slot i).blockno) ≡ some j =
          ap (find_entry a.log.nblocks 0 a.log) number_held ∙ found in
        let (m, em, hm, tm, bm, vm, xm) = o.pending.pinned j lt in
        let same : m ≡ i = g.only m hm vm (bm ∙ eb) in
        let dirty : g.buf.dirty ≡ true =
          g.dirty ∙ ap (λ k. (a.cache.slot k).dirty) (sym same) ∙ tm in
        visit-changed (renewed changed i j)
          (log_write-renewed changed i j o.outstanding few_held found') refl
          (fun_ext λ k. ground (arith, at_held, dirty)) refl o.outstanding refl refl (omega arith)
          (λ k h. elim (Bool-cases (k == j)) [
            | inl q ↦ inr (ground arith, ground (arith, eb))
            | inr q ↦ inl (h, ground arith, refl)
          ])

  visit-replaced :
      (i : ℕ) (c1 : Cache)
      → bread a.cache b ≡ some (i, c1)
      → Got a.cache b i c1
      → (x : A) (d : Block) → f ((c1.slot i).block) ≡ (x, some d)
      → Room 1 a
      → At (x, some d)
  visit-replaced i c1 e g x d ef room =
      go (find_entry a.log.nblocks 0 a.log b) refl (find_entry-Entry a.log.nblocks 0 a.log b)
    where
      go :
          (r : Option ℕ)
          → find_entry a.log.nblocks 0 a.log b ≡ r
          → Entry a.log.nblocks 0 a.log b r
          → At (x, some d)
      go none q _ = visit-added i c1 e g x d ef room q
      go (some j) q (_, lt, eb) = visit-renewed i c1 e g x d ef room j q (omega (arith, lt)) eb

-- Inside a transaction, `visit` of a block outside the log, with room for a block more when it
-- replaces the data, does not panic and gives `f` the view of the block. The transaction stays
-- open, the view changes in that block only and as `f` says, the disk does not change, and the room
-- left is less by one block at most.
pub visit-Visited :
    {A : Type 0} (a : System) (b : ℕ) (f : Block → A × Option Block)
    → Open a
    → Outside a.log b
    → Room (cost (f (view a.cache b)).1) a
    → (a' : System) × (visit a b f ≡ some ((f (view a.cache b)).0, a'))
      × Visited a b ((f (view a.cache b)).1) a'
visit-Visited {A} a b f o out room =
    let (i, (c1, e, g)) = bread-Got b o.ready.cached (omega (arith, o.ready.room)) in
    let same : (c1.slot i).block ≡ view a.cache b =
      ap (λ (x : Buf). x.block) (Got-at g) ∙ Got-view o g in
    go i c1 e g (f (view a.cache b)) (ap f same) room
  where
    go :
        (i : ℕ) (c1 : Cache)
        → bread a.cache b ≡ some (i, c1)
        → Got a.cache b i c1
        → (r : A × Option Block) → f ((c1.slot i).block) ≡ r
        → Room (cost r.1) a
        → At a b f o out r
    go i c1 e g (x, none) ef room' = visit-left a b f o out i c1 e g x ef
    go i c1 e g (x, some d) ef room' = visit-replaced a b f o out i c1 e g x d ef room'

-- The same, for a result that is known.
pub visit-at :
    {A : Type 0} (a : System) (b : ℕ) (f : Block → A × Option Block) (x : A) (r : Option Block)
    → f (view a.cache b) ≡ (x, r)
    → Open a
    → Outside a.log b
    → Room (cost r) a
    → (a' : System) × (visit a b f ≡ some (x, a')) × Visited a b r a'
visit-at {A} a b f x r e o out room =
    subst (At a b f o out) e
      (visit-Visited a b f o out (subst (λ (q : A × Option Block). Room (cost q.1) a) (sym e) room))
