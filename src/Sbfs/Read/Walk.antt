-- ===== src/Sbfs/Read/Walk.antt =====
-- `map_block` follows the addresses of the image.
use sbunix.Base.{
  ℕ, ◌+◌, ◌-◌, ◌/◌, ◌%◌, ◌<◌, ◌≡◌, ◌≢◌, refl, ap, ◌⊎◌, inl, inr, true, false, some, arith, ◌==◌,
  ltb, leb, if◌then◌else◌, Bool-cases,
}
use sbunix.Bio.{Block}
use sbunix.Bio.View.{view}
use sbunix.Log.{Log, System}
use sbunix.Log.Write.{Outside}
use sbunix.Log.Transaction.{Open}
use sbunix.Sbfs.Inode.{Dinode}
use sbunix.Sbfs.Read.{read_address, map_block}
use sbunix.Sbfs.Quiet.{Quiet, Quiet-refl, Quiet-trans, look-Quiet}

-- The entry `i` of an indirect block; there is none below the block 0.
abbrev pub below : (ℕ → Block) → ℕ → ℕ → ℕ
below v b i = if b == 0 then 0 else v b i

-- The block of a file's block `bn` in the image `v`: 7 direct addresses, 2 indirect blocks of 128
-- and a double-indirect block.
unfoldable pub address : (ℕ → Block) → Dinode → ℕ → ℕ
address v d bn =
    if ltb bn 7
    then d.addrs bn
    else if ltb bn 263
    then below v (d.addrs (7 + (bn - 7) / 128)) ((bn - 7) % 128)
    else if ltb bn 16647
    then below v (below v (d.addrs 9) ((bn - 263) / 128)) ((bn - 263) % 128)
    else 0

-- No address of the file points into the log.
pub record Mapped (l : Log) (v : ℕ → Block) (d : Dinode) : Type 0 where
  pub slots : (i : ℕ) → i < 10 → (d.addrs i ≡ 0) ⊎ Outside l (d.addrs i)
  pub inner : (i : ℕ) → i < 128 → (v (d.addrs 9) i ≡ 0) ⊎ Outside l (v (d.addrs 9) i)
  pub blocks : (bn : ℕ) → (address v d bn ≡ 0) ⊎ Outside l (address v d bn)

-- A read of an address.
read_address-below :
    (s : System) (b i : ℕ)
    → Open s
    → (b ≡ 0) ⊎ Outside s.log b
    → (s' : System) × ((if b == 0 then some (0, s) else read_address s b i)
        ≡ some (below (view s.cache) b i, s'))
      × Quiet s s'
read_address-below s b i o out = elim (Bool-cases (b == 0)) [
  | inl z ↦ (s, rw z refl, Quiet-refl o)
  | inr z ↦
      let n : b ≢ 0 = ground (arith, z) in
      let far : Outside s.log b = omega (arith, out, n) in
      let (s', e, q) = look-Quiet s b (λ d. d i) o far in (s', rw z e, q)
]

-- Inside a transaction, for a file whose addresses stay out of the log, `map_block` does not panic,
-- finds the address, or 0 behind a missing block, and changes nothing.
pub map_block-address :
    (s : System) (d : Dinode) (bn : ℕ)
    → Open s
    → Mapped s.log (view s.cache) d
    → (s' : System) × (map_block s d bn ≡ some (address (view s.cache) d bn, s')) × Quiet s s'
unfolding map_block address
map_block-address s d bn o m = elim (Bool-cases (ltb bn 7)) [
  | inl near ↦ (s, rw near refl, Quiet-refl o)
  | inr past ↦ elim (Bool-cases (ltb bn 263)) [
    | inl single ↦
        let lt : 7 + (bn - 7) / 128 < 10 = ground (arith, single, past) in
        let (s', e, q) =
          read_address-below s (d.addrs (7 + (bn - 7) / 128)) ((bn - 7) % 128) o
            (m.slots (7 + (bn - 7) / 128) lt) in
        (s', rw (past, single) e, q)
    | inr double ↦ elim (Bool-cases (leb 128 ((bn - 263) / 128))) [
      | inl big ↦
          let over : ltb bn 16647 ≡ false = ground (arith, big, double) in
          (s, rw (past, double, over, big) refl, Quiet-refl o)
      | inr small ↦
          let within : ltb bn 16647 ≡ true = ground (arith, small, double) in
          let lt : (bn - 263) / 128 < 128 = ground (arith, small) in
          two past double within small lt (Bool-cases (d.addrs 9 == 0))
    ]
  ]
]
  where
    v : ℕ → Block
    v = view s.cache

    oi : ℕ
    oi = (bn - 263) / 128

    Goal : Type 0
    Goal = (s' : System) × (map_block s d bn ≡ some (address v d bn, s')) × Quiet s s'

    two :
        ltb bn 7 ≡ false
        → ltb bn 263 ≡ false
        → ltb bn 16647 ≡ true
        → leb 128 oi ≡ false
        → oi < 128
        → ((d.addrs 9 == 0) ≡ true) ⊎ ((d.addrs 9 == 0) ≡ false)
        → Goal
    two past double within small lt (inl z) =
        (s, rw (past, double, within, small, z) refl, Quiet-refl o)
    two past double within small lt (inr n) =
        let n' : d.addrs 9 ≢ 0 = ground (arith, n) in
        let outer : Outside s.log (d.addrs 9) = omega (arith, m.slots 9 (omega arith), n') in
        let (s1, e1, q1) = look-Quiet s (d.addrs 9) (λ x. x oi) o outer in
        let out : (v (d.addrs 9) oi ≡ 0) ⊎ Outside s1.log (v (d.addrs 9) oi) =
          omega (arith, m.inner oi lt, q1.start, q1.size) in
        let (s2, e2, q2) =
          read_address-below s1 (v (d.addrs 9) oi) ((bn - 263) % 128) q1.still_open out in
        last s1 s2 e1 q1 e2 q2 past double within small n
      where
        last :
            (s1 s2 : System)
            → read_address s (d.addrs 9) oi ≡ some (v (d.addrs 9) oi, s1)
            → Quiet s s1
            → (if v (d.addrs 9) oi == 0
                then some (0, s1)
                else read_address s1 (v (d.addrs 9) oi) ((bn - 263) % 128))
              ≡ some (below (view s1.cache) (v (d.addrs 9) oi) ((bn - 263) % 128), s2)
            → Quiet s1 s2
            → ltb bn 7 ≡ false
            → ltb bn 263 ≡ false
            → ltb bn 16647 ≡ true
            → leb 128 oi ≡ false
            → (d.addrs 9 == 0) ≡ false
            → Goal
        last s1 s2 e1 q1 e2 q2 past double within small n = (
          s2,
          rw (past, double, within, small, n, e1, e2)
              (ap (λ w. some (below w (v (d.addrs 9) oi) ((bn - 263) % 128), s2)) q1.seen),
          Quiet-trans q1 q2,
        )
