-- ===== src/Pipe/Tests.antt =====
-- kernel/pipe.c at concrete inputs.
use sbunix.Base.{
  ℕ, ◌≤◌, ◌≡◌, refl, ◌⊎◌, arith, true, false, ◌==◌, [], ◌∷◌, ◌++◌, length, drop, map, if◌then◌else◌,
}
use sbunix.Base.Int.{pos, minus}
use sbunix.Base.Errno.{epipe}
use sbunix.Pipe.{Pipe, Wake, pipe_read, pipe_write, returned}
use sbunix.Pipe.Fifo.{IsValid, contents}
use sbunix.Pipe.Read.{Keeps, Took, Idle, pipe_read_lem}
use sbunix.Pipe.Write.{pipe_write-append, pipe_write-broken, pipe_write-drained, reader}

-- A pipe with the bytes 7, 8 and 9; the counter of the writes has passed 2^32.
abbrev wrapped : Pipe
wrapped = record {
  bytes = λ i. if i == 510 then 7 else (if i == 511 then 8 else 9);
  nread = 4294967294;
  nwrite = 1;
  readopen = true;
  writeopen = true;
}

abbrev unread : Pipe
unread = record wrapped { readopen = false }

wrapped-IsValid : IsValid wrapped
wrapped-IsValid = record { read_word = omega arith; write_word = omega arith; fits = omega arith }

-- An empty pipe, and a wake after which its writer has gone.
abbrev drained : Pipe
drained = record wrapped { nread = 1 }

abbrev hang_up : Wake
hang_up = record { others = λ p. record p { writeopen = false }; signalled = false }

drained-IsValid : IsValid drained
drained-IsValid = record { read_word = omega arith; write_word = omega arith; fits = omega arith }

hang_up-Keeps : Keeps (hang_up ∷ [])
hang_up-Keeps =
    (λ p v. record { read_word = v.read_word; write_word = v.write_word; fits = v.fits }, tt)

pipe_read_lem_example :
    Took (hang_up ∷ []) drained (pos 2) (pipe_read (hang_up ∷ []) drained (pos 2))
    ⊎ Idle (hang_up ∷ []) drained (pipe_read (hang_up ∷ []) drained (pos 2))
pipe_read_lem_example = pipe_read_lem (hang_up ∷ []) (pos 2) hang_up-Keeps drained-IsValid

pipe_write-append_example :
    let o = pipe_write [] wrapped (5 ∷ 6 ∷ []) in
    (o.result ≡ returned (pos 2))
    × (contents o.pipe ≡ contents wrapped ++ (5 ∷ 6 ∷ []))
    × IsValid o.pipe
    × (o.wakeups ≡ 1)
    × (o.killed ≡ false)
pipe_write-append_example = pipe_write-append [] (5 ∷ 6 ∷ []) wrapped-IsValid refl (omega arith)

pipe_write-broken_example :
    pipe_write [] unread (5 ∷ 6 ∷ [])
    ≡ record { result = returned (minus epipe); pipe = unread; wakeups = 0; killed = true }
pipe_write-broken_example = pipe_write-broken [] unread 5 (6 ∷ []) refl

pipe_write-drained_example :
    let o = pipe_write (map reader (3 ∷ 1 ∷ [])) wrapped (5 ∷ 6 ∷ []) in
    (o.result ≡ returned (pos 2))
    × IsValid o.pipe
    × ((taken : ℕ) × (taken ≤ length (contents wrapped ++ (5 ∷ 6 ∷ [])))
        × (contents o.pipe ≡ drop taken (contents wrapped ++ (5 ∷ 6 ∷ []))))
pipe_write-drained_example =
    pipe_write-drained (3 ∷ 1 ∷ []) (5 ∷ 6 ∷ []) wrapped-IsValid refl
      (omega arith, (omega arith, tt)) (omega arith)
