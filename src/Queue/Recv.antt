-- ===== src/Queue/Recv.antt =====
-- radqueue.c: receiving the header of a message, which may arrive in pieces.
use radlib.Base.{
  ℕ, ◌<◌, ◌≡◌, refl, ap, sym, ◌∙◌, true, false, if◌then◌else◌, ◌==◌, leb, Option, none, some, List,
  [], ◌∷◌, ◌++◌, append_assoc, append-nil, arith, Bool-cases, inl, inr,
}
use radlib.Base.Lists.{length, length-append}
use radlib.Queue.{QmsgHdr}

-- What `read` gives: some bytes, EAGAIN or EINTR, another failure, or the end of the pipe.
pub data Read : Type 0 where
  bytes : ℕ → List ℕ → Read
  again read_failed end_of_pipe : Read

-- How the reading ends; `waiting` is in the call of `read`.
pub data Reading : Type 0 where
  complete : List ℕ → Reading
  waiting failed closed : Reading

unfoldable recv_loop : (size : ℕ) → (got : List ℕ) → List Read → Reading
recv_loop size got [] = if leb size (length got) then complete got else waiting
recv_loop size got (r ∷ rs) =
    let more : Reading = elim r [
      | bytes b bs ↦ recv_loop size (got ++ b ∷ bs) rs
      | again ↦ recv_loop size got rs
      | read_failed ↦ failed
      | end_of_pipe ↦ closed
    ] in
    if leb size (length got) then complete got else more

-- TRUE with the header and the offset of the message's buffer, FALSE, or ERROR.
pub data Received : Type 0 where
  received : QmsgHdr → (msg : Option ℕ) → Received
  nothing recv_error in_read : Received

unfoldable pub recv : (size : ℕ) → (decode : List ℕ → QmsgHdr) → List Read → Received
unfolding recv_loop
recv size decode reads = elim (recv_loop size [] reads) [
  | complete got ↦
      let hdr = decode got in received hdr (if hdr.length == 0 then none else some hdr.bfr_offset)
  | waiting ↦ in_read
  | failed ↦ nothing
  | closed ↦ recv_error
]

-- The bytes of a sequence of reads, none of which fails or ends the pipe.
abbrev pub Delivers : List Read → List ℕ → Type 0
Delivers [] xs = xs ≡ []
Delivers (bytes b bs ∷ rs) xs = (ys : List ℕ) × (xs ≡ b ∷ bs ++ ys) × Delivers rs ys
Delivers (again ∷ rs) xs = Delivers rs xs
Delivers (read_failed ∷ rs) xs = ⊥
Delivers (end_of_pipe ∷ rs) xs = ⊥

nothing_left : (got xs : List ℕ) → length (got ++ xs) ≡ length got → got ++ xs ≡ got
nothing_left got [] e = append-nil got
nothing_left got (x ∷ xs) e = absurd (omega (arith, length-append got (x ∷ xs)))

recv_loop-complete :
    (size : ℕ) (got xs : List ℕ) (reads : List Read)
    → Delivers reads xs
    → length (got ++ xs) ≡ size
    → recv_loop size got reads ≡ complete (got ++ xs)
unfolding recv_loop
recv_loop-complete size got xs [] d e =
    let z : got ++ xs ≡ got = ap (λ r. got ++ r) d ∙ append-nil got in
    let n : length got ≡ size = ap length (sym z) ∙ e in
    let full : leb size (length got) ≡ true = ground arith in rw full (ap complete (sym z))
recv_loop-complete size got xs (again ∷ rs) d e = elim (Bool-cases (leb size (length got))) [
  | inl y ↦
      let n : length (got ++ xs) ≡ length got = ground (arith, length-append got xs) in
      rw y (ap complete (sym (nothing_left got xs n)))
  | inr n ↦ rw n (recv_loop-complete size got xs rs d e)
]
recv_loop-complete size got xs (bytes b bs ∷ rs) (ys, p, d) e =
    let q : got ++ xs ≡ (got ++ b ∷ bs) ++ ys =
      ap (λ r. got ++ r) p ∙ sym (append_assoc got (b ∷ bs) ys) in
    let more : length got < size = omega (arith, ap length p, length-append got xs, e) in
    let open_end : leb size (length got) ≡ false = ground arith in
    rw open_end (
      recv_loop-complete size (got ++ b ∷ bs) ys rs d (sym (ap length q) ∙ e) ∙ ap complete (sym q))
recv_loop-complete size got xs (read_failed ∷ rs) d e = absurd d
recv_loop-complete size got xs (end_of_pipe ∷ rs) d e = absurd d

-- However the bytes of a header are cut into pieces, with any number of interrupted reads between them,
-- `radQueueRecv` returns TRUE with that header, and with the offset of the buffer if the message has a
-- length.
pub recv-received :
    (size : ℕ) (decode : List ℕ → QmsgHdr) (header : List ℕ) (reads : List Read)
    → Delivers reads header
    → length header ≡ size
    → recv size decode reads
      ≡ received
          (decode header)
          (if (decode header).length == 0 then none else some (decode header).bfr_offset)
unfolding recv
recv-received size decode header reads d e =
    rw (recv, recv_loop-complete size [] header reads d e) refl
