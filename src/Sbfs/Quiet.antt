-- ===== src/Sbfs/Quiet.antt =====
-- A use of blocks that changes none of them.
use sbunix.Base.{ℕ, ◌≡◌, refl, ◌∙◌, none, some, arith}
use sbunix.Bio.{Block}
use sbunix.Bio.View.{view}
use sbunix.Log.{System}
use sbunix.Log.Write.{Outside}
use sbunix.Log.Transaction.{Open}
use sbunix.Sbfs.{visit}
use sbunix.Sbfs.Visit.{Room, Visited, visit-at}

pub record Quiet (s s' : System) : Type 0 where
  pub still_open : Open s'
  pub seen : view s'.cache ≡ view s.cache
  pub room : (n : ℕ) → Room n s → Room n s'
  pub start : s'.log.start ≡ s.log.start
  pub size : s'.log.size ≡ s.log.size

pub Quiet-refl : {s : System} → Open s → Quiet s s
Quiet-refl o = record { still_open = o; seen = refl; room = λ n r. r; start = refl; size = refl }

pub Quiet-trans : {s s' s'' : System} → Quiet s s' → Quiet s' s'' → Quiet s s''
Quiet-trans p q = record {
  still_open = q.still_open;
  seen = q.seen ∙ p.seen;
  room = λ n r. q.room n (p.room n r);
  start = q.start ∙ p.start;
  size = q.size ∙ p.size;
}

-- A visit that leaves the data.
pub look-Quiet :
    {A : Type 0} (s : System) (b : ℕ) (f : Block → A)
    → Open s
    → Outside s.log b
    → (s' : System) × (visit s b (λ d. (f d, none)) ≡ some (f (view s.cache b), s')) × Quiet s s'
look-Quiet s b f o out =
    let (s', e, v) =
      visit-at s b (λ d. (f d, none)) (f (view s.cache b)) none refl o out
        (record {
          entries = omega (arith, o.pending.few);
          blocks = omega (arith, o.pending.fits);
          buffers = omega (arith, o.ready.room);
        }) in
    (s', e, quiet s' v)
  where
    quiet : (s' : System) → Visited s b none s' → Quiet s s'
    quiet s' v = record {
      still_open = v.still_open;
      seen = v.seen;
      room = λ n r. v.room n (record {
        entries = omega (arith, r.entries);
        blocks = omega (arith, r.blocks);
        buffers = omega (arith, r.buffers);
      });
      start = v.start;
      size = v.size;
    }
