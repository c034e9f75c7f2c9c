-- ===== src/ConfFile/Tokens.antt =====
-- radconffile.c: what `strtok` and `strchr` find in a text that is put together.
use radlib.Base.{ℕ, ◌≡◌, refl, ap, Bool, true, false, not, ◌&&◌, none, some, [], ◌∷◌, ◌++◌, arith}
use radlib.Base.Lists.{All}
use radlib.ConfFile.{Text, contains, skip_delims, token, strtok, split_at}

-- No character of the text is one of the others.
abbrev pub Free : (delims : Text) → Text → Type 0
Free delims t = All (λ c. contains c delims ≡ false) t

token-append :
    (ds t : Text) (d : ℕ) (rest : Text)
    → Free ds t
    → contains d ds ≡ true
    → token ds (t ++ d ∷ rest) ≡ (t, rest)
unfolding token
token-append ds [] d rest h m = rw m refl
token-append ds (c ∷ cs) d rest h m =
    rw h.0 (ap (λ (p : Text × Text). (c ∷ p.0, p.1)) (token-append ds cs d rest h.1 m))

pub strtok-append :
    (ds : Text) (c : ℕ) (cs : Text) (d : ℕ) (rest : Text)
    → Free ds (c ∷ cs)
    → contains d ds ≡ true
    → strtok ds (c ∷ (cs ++ d ∷ rest)) ≡ some (c ∷ cs, rest)
unfolding strtok skip_delims
strtok-append ds c cs d rest h m =
    rw (h.0, strtok, skip_delims) (ap some (token-append ds (c ∷ cs) d rest h m))

pub split_at-append :
    (c : ℕ) (t rest : Text) → Free (c ∷ []) t → split_at c (t ++ c ∷ rest) ≡ some (t, rest)
unfolding split_at
split_at-append c [] rest h = ground arith
split_at-append c (d ∷ ds) rest h = ground (arith, split_at-append c ds rest h.1)

pub split_at-none : (c : ℕ) (t : Text) → Free (c ∷ []) t → split_at c t ≡ none
unfolding split_at
split_at-none c [] h = refl
split_at-none c (d ∷ ds) h = ground (arith, split_at-none c ds h.1)

pub contains-Free : (c : ℕ) (t : Text) → Free (c ∷ []) t → contains c t ≡ false
contains-Free c [] h = refl
contains-Free c (d ∷ ds) h = ground (arith, contains-Free c ds h.1)

pub Free-append : (ds t u : Text) → Free ds t → Free ds u → Free ds (t ++ u)
Free-append ds [] u h k = k
Free-append ds (c ∷ cs) u h k = (h.0, Free-append ds cs u h.1 k)

abbrev pub none_of : (delims : Text) → Text → Bool
none_of ds [] = true
none_of ds (c ∷ cs) = not (contains c ds) && none_of ds cs

pub none_of-Free : (ds t : Text) → none_of ds t ≡ true → Free ds t
none_of-Free ds [] h = tt
none_of-Free ds (c ∷ cs) h = (ground arith, none_of-Free ds cs (ground arith))
