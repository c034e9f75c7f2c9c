-- ===== src/ConfFile/Print.antt =====
-- radconffile.c: an entry that is written and read again.
use radlib.Base.{
  ℕ, ◌<◌, ◌≡◌, refl, sym, ◌∙◌, ◌⊎◌, inl, inr, true, false, if◌then◌else◌, none, some, [], ◌∷◌, ◌++◌,
  append_assoc, arith,
}
use radlib.Base.Lists.{All-map, length}
use radlib.ConfFile.{
  Text, tab, newline, Entry, entry, Line, comment, added, is_space, skip_space, skip_delims,
  contains, strtok, key, instance_key, key_of, from_hash, value_and_remark, parse_entry, parse_line,
  print_entry, print_line, has_no_text,
}
use radlib.ConfFile.Tokens.{
  Free, Free-append, strtok-append, split_at-append, split_at-none, contains-Free,
}

-- No whitespace, and none of the marks of an entry.
abbrev pub word_delims : Text
word_delims = b'=' ∷ b'[' ∷ b']' ∷ b'#' ∷ 9 ∷ 10 ∷ 11 ∷ 12 ∷ 13 ∷ b' ' ∷ []

abbrev pub IsWord : Text → Type 0
IsWord = Free word_delims

abbrev pub IsRemark : Text → Type 0
IsRemark t = (t ≡ []) ⊎ ((cs : Text) × (t ≡ b'#' ∷ cs) × Free (newline ∷ []) cs)

abbrev pub value_delims : Text
value_delims = b' ' ∷ b'#' ∷ tab ∷ newline ∷ []

-- What a program may put into an entry so that it can be read again. An empty value allows no comment.
abbrev pub IsValue : (value remark : Text) → Type 0
IsValue [] r = r ≡ []
IsValue (c ∷ cs) r = Free value_delims (c ∷ cs) × IsRemark r

abbrev pub IsId : Text → Type 0
IsId [] = ⊥
IsId (c ∷ cs) = IsWord (c ∷ cs) × (length (c ∷ cs) < 64)

abbrev pub IsEntry : Entry → Type 0
IsEntry e =
    IsId e.id
    × IsWord e.instance_name
    × (length e.instance_name < 32)
    × IsValue e.value e.remark
    × (length e.remark < 128)

-- What stands behind the identifier and the `=`.
abbrev remark_text : Text → Text
remark_text [] = newline ∷ []
remark_text (c ∷ cs) = tab ∷ tab ∷ c ∷ (cs ++ newline ∷ [])

value_and_remark_end : value_and_remark (newline ∷ []) ≡ ([], [])
unfolding value_and_remark strtok skip_delims
value_and_remark_end = refl

remark-strtok :
    (cs : Text)
    → Free (newline ∷ []) cs
    → strtok (newline ∷ []) (tab ∷ b'#' ∷ (cs ++ newline ∷ [])) ≡ some (tab ∷ b'#' ∷ cs, [])
remark-strtok cs h = strtok-append (newline ∷ []) tab (b'#' ∷ cs) newline [] (refl, (refl, h)) refl

strtok_end : strtok (newline ∷ []) [] ≡ none
unfolding strtok skip_delims
strtok_end = refl

value-remark_text : (v r : Text) → IsValue v r → value_and_remark (v ++ remark_text r) ≡ (v, r)
unfolding value_and_remark from_hash
value-remark_text [] r h = rw h value_and_remark_end
value-remark_text (c ∷ cs) r (h, inl e) =
    rw (e, value_and_remark, strtok-append value_delims c cs newline [] h refl, strtok_end) refl
value-remark_text (c ∷ cs) r (h, inr (ds, e, n)) =
    rw
      (
        e,
        value_and_remark,
        strtok-append value_delims c cs tab (tab ∷ b'#' ∷ (ds ++ newline ∷ [])) h refl,
        remark-strtok ds n,
      )
      refl

-- What stands before the `=`.
abbrev key_text : (id instance_name : Text) → Text
key_text id [] = id
key_text id (c ∷ cs) = id ++ b'[' ∷ c ∷ (cs ++ b']' ∷ [])

IsWord-Free :
    (t : Text) (c : ℕ) → IsWord t → contains c (b'=' ∷ b'[' ∷ b']' ∷ []) ≡ true → Free (c ∷ []) t
IsWord-Free t c h m = All-map _ _ t (λ a p. ground arith) h

key_of-key_text :
    (id inst : Text)
    → IsWord id
    → length id < 64
    → IsWord inst
    → length inst < 32
    → key_of (key_text id inst) ≡ key id inst
unfolding key_of instance_key
key_of-key_text id [] w l v m =
    rw (key_of, split_at-none b'[' id (IsWord-Free id b'[' w refl)) (ground arith)
key_of-key_text id (c ∷ cs) w l v m =
    rw (key_of, split_at-append b'[' id (c ∷ (cs ++ b']' ∷ [])) (IsWord-Free id b'[' w refl))
      (rw
        (
          instance_key,
          split_at-append b']' (c ∷ cs) [] (IsWord-Free (c ∷ cs) b']' v refl),
          contains-Free b']' id (IsWord-Free id b']' w refl),
        )
        (ground arith))

abbrev key_delims : Text
key_delims = b'=' ∷ b' ' ∷ tab ∷ []

IsWord-key : (t : Text) → IsWord t → Free key_delims t
IsWord-key t h = All-map _ _ t (λ a p. ground arith) h

key_text-Free : (id inst : Text) → IsWord id → IsWord inst → Free key_delims (key_text id inst)
key_text-Free id [] h k = IsWord-key id h
key_text-Free id (c ∷ cs) h k =
    Free-append key_delims id (b'[' ∷ c ∷ (cs ++ b']' ∷ [])) (IsWord-key id h)
      (refl, Free-append key_delims (c ∷ cs) (b']' ∷ []) (IsWord-key (c ∷ cs) k) (refl, tt))

remark-print :
    (r : Text) → (if has_no_text r then [] else tab ∷ tab ∷ r) ++ newline ∷ [] ≡ remark_text r
remark-print [] = refl
remark-print (c ∷ cs) = refl

print_entry-texts :
    (e : Entry)
    → print_entry e ≡ key_text e.id e.instance_name ++ b'=' ∷ (e.value ++ remark_text e.remark)
unfolding print_entry
print_entry-texts e = rw (remark-print e.remark) (lemma e.instance_name)
  where
    lemma :
        (i : Text)
        → e.id
            ++ ((if has_no_text i then [] else b'[' ∷ (i ++ b']' ∷ []))
                ++ (b'=' ∷ (e.value ++ remark_text e.remark)))
          ≡ key_text e.id i ++ b'=' ∷ (e.value ++ remark_text e.remark)
    lemma [] = refl
    lemma (c ∷ cs) = sym (append_assoc e.id (b'[' ∷ c ∷ (cs ++ b']' ∷ [])) _)

parse_entry-texts :
    (c : ℕ) (cs i v r : Text)
    → IsId (c ∷ cs)
    → IsWord i
    → length i < 32
    → IsValue v r
    → length r < 128
    → parse_entry (key_text (c ∷ cs) i ++ b'=' ∷ (v ++ remark_text r))
      ≡ added (entry (record { id = c ∷ cs; instance_name = i; value = v; remark = r }))
unfolding parse_entry
parse_entry-texts c cs i v r (w, l) w' l' hv hr =
    rw (parse_entry, token_key i w', key_of-key_text (c ∷ cs) i w l w' l', value-remark_text v r hv)
      (ground arith)
  where
    token_key :
        (j : Text)
        → IsWord j
        → strtok key_delims (key_text (c ∷ cs) j ++ b'=' ∷ (v ++ remark_text r))
          ≡ some (key_text (c ∷ cs) j, v ++ remark_text r)
    token_key [] k = strtok-append key_delims c cs b'=' _ (key_text-Free (c ∷ cs) [] w k) refl
    token_key (d ∷ ds) k =
        strtok-append key_delims c (cs ++ b'[' ∷ d ∷ (ds ++ b']' ∷ [])) b'=' _
          (key_text-Free (c ∷ cs) (d ∷ ds) w k) refl

word-is_space : (c : ℕ) (cs : Text) → IsWord (c ∷ cs) → is_space c ≡ false
unfolding is_space
word-is_space c cs w = ground (arith, w.0)

starts_entry : (c : ℕ) (cs t : Text) → IsWord (c ∷ cs) → parse_line (c ∷ t) ≡ parse_entry (c ∷ t)
unfolding parse_line skip_space
starts_entry c cs t w = rw (parse_line, skip_space, word-is_space c cs w) (ground (arith, w.0))

starts_key :
    (c : ℕ) (cs j u : Text)
    → IsWord (c ∷ cs)
    → parse_line (key_text (c ∷ cs) j ++ u) ≡ parse_entry (key_text (c ∷ cs) j ++ u)
starts_key c cs [] u w = starts_entry c cs (cs ++ u) w
starts_key c cs (d ∷ ds) u w = starts_entry c cs _ w

-- An entry that is written can be read again.
pub parse_line-print_entry : (e : Entry) → IsEntry e → parse_line (print_entry e) ≡ added (entry e)
parse_line-print_entry e (hi, w, l, v, r) = rw (print_entry-texts e) (on e.id hi)
  where
    text : Text → Text
    text i = key_text i e.instance_name ++ b'=' ∷ (e.value ++ remark_text e.remark)

    on : (i : Text) → IsId i → parse_line (text i) ≡ added (entry (record e { id = i }))
    on [] h = absurd h
    on (c ∷ cs) h =
        starts_key c cs e.instance_name _ h.0
        ∙ parse_entry-texts c cs e.instance_name e.value e.remark h w l v r

-- A line of whitespace, or a comment from the first column.
abbrev pub IsComment : Text → Type 0
IsComment t = (skip_space t ≡ []) ⊎ ((cs : Text) × (t ≡ b'#' ∷ cs))

abbrev pub IsPlain : Line → Type 0
IsPlain (comment t) = IsComment t
IsPlain (entry e) = IsEntry e

-- What `radCfFlush` writes for a line, `radCfOpen` reads back as that line.
pub parse_line-print_line : (l : Line) → IsPlain l → parse_line (print_line l) ≡ added l
unfolding parse_line print_line skip_space is_space
parse_line-print_line (comment t) (inl e) = rw (parse_line, e) refl
parse_line-print_line (comment t) (inr (cs, e)) = rw e refl
parse_line-print_line (entry e) h = parse_line-print_entry e h
