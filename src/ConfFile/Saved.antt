-- ===== src/ConfFile/Saved.antt =====
-- radconffile.c: a file that radCfFlush wrote and radCfOpen reads.
use radlib.Base.{
  if◌then◌else◌, ℕ, zero, suc, ◌<◌, ◌≡◌, refl, sym, ap, ap₂, ◌∙◌, ◌==◌, ltb, ◌&&◌, not, eq_of_==,
  ◌⊎◌, inl, inr, Bool, true, false, Option, none, some, List, [], ◌∷◌, ◌++◌, append_assoc,
  append-nil, arith,
}
use radlib.Base.Lists.{All, All-map, length, length-append}
use radlib.SysDefs.{Status, ok, error}
use radlib.ConfFile.{
  Entry, tab, has_no_text, Text, newline, Line, comment, entry, open_file, print_entry, print_line,
  print_lines,
}
use radlib.ConfFile.Tokens.{Free, Free-append, none_of-Free}
use radlib.ConfFile.Print.{IsPlain}
use radlib.ConfFile.Lines.{IsOneLine, open_file-print_lines}
use radlib.ConfFile.Entries.{matches, get_entry}
use radlib.ConfFile.Entries.Laws.{first, value_of?, get_entry-first}
use radlib.ConfFile.Flush.{
  chars, text_hdr, hdr_lines, insert_text_hdr, with_hdr, write_lines, Flushed, flush, Stream,
  instance_text, remark_texts, entry_texts, put_all,
}

-- A line that is read back as it is written.
abbrev pub IsSaved : Line → Type 0
IsSaved l = IsPlain l × IsOneLine (print_line l)

-- Every write succeeds, and so does `fclose`.
abbrev pub Works : Stream → Type 0
Works out = ((w t : Text) → out.puts w t ≡ (w ++ t, true)) × ((w : Text) → out.close w ≡ w)

abbrev joined : List Text → Text
joined [] = []
joined (t ∷ ts) = t ++ joined ts

put_all-joined :
    (out : Stream) (w : Text) (ts : List Text) → Works out → put_all out w ts ≡ w ++ joined ts
unfolding put_all
put_all-joined out w [] h = sym (append-nil w)
put_all-joined out w (t ∷ ts) h =
    ap (λ o. put_all out o.0 ts) (h.0 w t)
    ∙ put_all-joined out (w ++ t) ts h
    ∙ append_assoc w t (joined ts)

remark-joined :
    (r : Text)
    → joined (remark_texts r ++ (newline ∷ []) ∷ [])
      ≡ (if has_no_text r then [] else tab ∷ tab ∷ r) ++ newline ∷ []
remark-joined [] = refl
remark-joined (c ∷ cs) = refl

joined-entry_texts : (e : Entry) → joined (entry_texts e) ≡ print_entry e
unfolding entry_texts print_entry
joined-entry_texts e = rw (remark-joined e.remark) (
    append_assoc e.id (instance_text e.instance_name ++ b'=' ∷ e.value) _
    ∙ ap (λ t. e.id ++ t)
        (append_assoc (instance_text e.instance_name) (b'=' ∷ e.value) _ ∙ on e.instance_name _))
  where
    on :
        (i rest : Text)
        → instance_text i ++ rest ≡ (if has_no_text i then [] else b'[' ∷ (i ++ b']' ∷ [])) ++ rest
    on [] rest = refl
    on (c ∷ cs) rest = refl

write_lines-print_lines :
    (out : Stream) (w : Text) (ls : List Line)
    → Works out
    → write_lines out w ls ≡ (w ++ print_lines ls, ok)
unfolding write_lines print_lines print_line
write_lines-print_lines out w [] h = ap (λ t. (t, ok)) (h.1 w ∙ sym (append-nil w))
write_lines-print_lines out w (comment t ∷ ls) h =
    ap (λ o. if o.1 then write_lines out o.0 ls else (out.close o.0, error)) (h.0 w t)
    ∙ write_lines-print_lines out (w ++ t) ls h
    ∙ ap (λ u. (u, ok)) (append_assoc w t (print_lines ls))
write_lines-print_lines out w (entry e ∷ ls) h =
    ap (λ t. write_lines out t ls)
      (put_all-joined out w (entry_texts e) h ∙ ap (λ t. w ++ t) (joined-entry_texts e))
    ∙ write_lines-print_lines out (w ++ print_entry e) ls h
    ∙ ap (λ u. (u, ok)) (append_assoc w (print_entry e) (print_lines ls))

-- A comment from the first column with a newline at its end only.
abbrev IsHdr : Text → Type 0
IsHdr t = (b : Text) × (t ≡ b'#' ∷ (b ++ newline ∷ [])) × Free (newline ∷ []) b × (length b < 510)

IsHdr-IsSaved : (t : Text) → IsHdr t → IsSaved (comment t)
unfolding print_line
IsHdr-IsSaved t (b, e, f, l) = (inr (b ++ newline ∷ [], e), (b'#' ∷ b, e, (refl, f), omega arith))

hdr_lines-IsSaved : (n : ℕ) (ts : List Text) → All IsHdr ts → All IsSaved (hdr_lines n ts)
unfolding hdr_lines
hdr_lines-IsSaved zero ts h = tt
hdr_lines-IsSaved (suc n) [] h = tt
hdr_lines-IsSaved (suc n) (t ∷ ts) h = (IsHdr-IsSaved t h.0, hdr_lines-IsSaved n ts h.1)

-- The test of a header line, less its `#`.
abbrev is_body : Text → Bool
is_body [] = false
is_body (c ∷ []) = c == newline
is_body (c ∷ d ∷ ds) = not (c == newline) && is_body (d ∷ ds)

is_body-split :
    (t : Text)
    → is_body t ≡ true
    → (b : Text) × (t ≡ b ++ newline ∷ []) × Free (newline ∷ []) b × (length b < length t)
is_body-split [] h = ground arith
is_body-split (c ∷ []) h = ([], ap (λ x. x ∷ []) (eq_of_== c newline h), tt, omega arith)
is_body-split (c ∷ d ∷ ds) h =
    let (b, e, f, l) = is_body-split (d ∷ ds) (ground arith) in
    (c ∷ b, ap (λ x. c ∷ x) e, (ground arith, f), omega arith)

abbrev is_hdr : Text → Bool
is_hdr [] = false
is_hdr (c ∷ cs) = c == b'#' && (is_body cs && ltb (length cs) 510)

abbrev all_hdr : List Text → Bool
all_hdr [] = true
all_hdr (t ∷ ts) = is_hdr t && all_hdr ts

is_hdr-IsHdr : (t : Text) → is_hdr t ≡ true → IsHdr t
is_hdr-IsHdr [] h = ground arith
is_hdr-IsHdr (c ∷ cs) h =
    let (b, e, f, l) = is_body-split cs (ground arith) in
    (b, ap₂ (λ x xs. x ∷ xs) (eq_of_== c b'#' (ground arith)) e, f, ground arith)

all_hdr-All : (ts : List Text) → all_hdr ts ≡ true → All IsHdr ts
all_hdr-All [] h = tt
all_hdr-All (t ∷ ts) h = (is_hdr-IsHdr t (ground arith), all_hdr-All ts (ground arith))

text_hdr-IsHdr : All IsHdr text_hdr
text_hdr-IsHdr = all_hdr-All text_hdr refl

-- What `radCfFlush` can name in its header: a name without a newline that fits into `fileName`.
abbrev pub IsFileName : Text → Type 0
IsFileName name = Free (newline ∷ []) name × (length name < 256)

abbrev title : Text
title = chars "  Filename: "

file_name-IsHdr :
    (name : Text) → IsFileName name → IsHdr (chars "#  Filename: " ++ (name ++ newline ∷ []))
file_name-IsHdr name (f, l) = (
  title ++ name,
  refl,
  Free-append (newline ∷ []) title name (none_of-Free (newline ∷ []) title refl) f,
  omega (arith, length-append title name),
)

All-append : (xs ys : List Line) → All IsSaved xs → All IsSaved ys → All IsSaved (xs ++ ys)
All-append [] ys h k = k
All-append (x ∷ xs) ys h k = (h.0, All-append xs ys h.1 k)

insert_text_hdr-IsSaved :
    (n : ℕ) (name : Text) (ls : List Line)
    → IsFileName name
    → All IsSaved ls
    → All IsSaved (insert_text_hdr n name ls)
unfolding insert_text_hdr
insert_text_hdr-IsSaved zero name ls f h = h
insert_text_hdr-IsSaved (suc n) name ls f h = (
  IsHdr-IsSaved (chars "#  Filename: " ++ (name ++ newline ∷ [])) (file_name-IsHdr name f),
  All-append (hdr_lines n text_hdr) ls (hdr_lines-IsSaved n text_hdr text_hdr-IsHdr) h,
)

with_hdr-IsSaved :
    (n : ℕ) (name : Text) (ls : List Line)
    → IsFileName name
    → All IsSaved ls
    → All IsSaved (with_hdr n name ls)
unfolding with_hdr
with_hdr-IsSaved n name [] f h = insert_text_hdr-IsSaved n name [] f h
with_hdr-IsSaved n name (comment t ∷ ls) f h = h
with_hdr-IsSaved n name (entry e ∷ ls) f h = insert_text_hdr-IsSaved n name (entry e ∷ ls) f h

-- The header has no entries.
first-hdr_lines :
    (id : Text) (i : Option Text) (n : ℕ) (ts : List Text) (ls : List Line)
    → first (matches id i) (hdr_lines n ts ++ ls) ≡ first (matches id i) ls
unfolding hdr_lines matches
first-hdr_lines id i zero ts ls = refl
first-hdr_lines id i (suc n) [] ls = refl
first-hdr_lines id i (suc n) (t ∷ ts) ls = first-hdr_lines id i n ts ls

first-insert_text_hdr :
    (id : Text) (i : Option Text) (n : ℕ) (name : Text) (ls : List Line)
    → first (matches id i) (insert_text_hdr n name ls) ≡ first (matches id i) ls
unfolding insert_text_hdr matches
first-insert_text_hdr id i zero name ls = refl
first-insert_text_hdr id i (suc n) name ls = first-hdr_lines id i n text_hdr ls

first-with_hdr :
    (id : Text) (i : Option Text) (n : ℕ) (name : Text) (ls : List Line)
    → first (matches id i) (with_hdr n name ls) ≡ first (matches id i) ls
unfolding with_hdr
first-with_hdr id i n name [] = first-insert_text_hdr id i n name []
first-with_hdr id i n name (comment t ∷ ls) = refl
first-with_hdr id i n name (entry e ∷ ls) = first-insert_text_hdr id i n name (entry e ∷ ls)

module _ (lock_ok open_ok : Bool) (buffers : ℕ) (out : Stream) (name : Text) (ls : List Line)
    (h : All IsSaved ls) (f : IsFileName name) (g : Works out) where
  abbrev after : List Line
  after = with_hdr buffers name ls

  open_file-after : open_file (print_lines after) ≡ some after
  open_file-after =
      let saved = with_hdr-IsSaved buffers name ls f h in
      open_file-print_lines after (All-map IsSaved IsPlain after (λ l p. p.0) saved)
        (All-map IsSaved (λ l. IsOneLine (print_line l)) after (λ l p. p.1) saved)

  get_entry-after : (id : Text) (i : Option Text) → get_entry id i after ≡ get_entry id i ls
  get_entry-after id i =
      get_entry-first id i after
      ∙ ap value_of? (first-with_hdr id i buffers name ls)
      ∙ sym (get_entry-first id i ls)

  -- Let every line be one that is read back as it is written, and the file's name fit into its field and
  -- have no newline. Where every write to the file and its fclose succeed, radCfFlush either cannot have the lock
  -- or open the file, and then writes nothing, changes nothing and returns ERROR; or it returns OK, and
  -- radCfOpen reads from the text that is written exactly the lines that the open file then has, in
  -- which radCfGetEntry finds for every key what it found before.
  pub flush-open_file :
      ((flush lock_ok open_ok buffers out name ls
          ≡ record { written = none; lines = ls; result = error })
        × ((lock_ok && open_ok) ≡ false))
      ⊎ ((text : Text) × (ls' : List Line) × (flush lock_ok open_ok buffers out name ls
            ≡ record { written = some text; lines = ls'; result = ok })
          × (open_file text ≡ some ls')
          × ((id : Text) (i : Option Text) → get_entry id i ls' ≡ get_entry id i ls))
  unfolding flush
  flush-open_file = go lock_ok open_ok
    where
      go :
          (lk op : Bool)
          → ((flush lk op buffers out name ls
                ≡ record { written = none; lines = ls; result = error })
              × ((lk && op) ≡ false))
            ⊎ ((text : Text) × (ls' : List Line) × (flush lk op buffers out name ls
                  ≡ record { written = some text; lines = ls'; result = ok })
                × (open_file text ≡ some ls')
                × ((id : Text) (i : Option Text) → get_entry id i ls' ≡ get_entry id i ls))
      go false op = inl (refl, refl)
      go true false = inl (refl, refl)
      go true true = inr (
        print_lines after,
        after,
        ap saved (write_lines-print_lines out [] after g),
        open_file-after,
        get_entry-after,
      )
        where
          saved : Text × Status → Flushed
          saved o = record { written = some o.0; lines = after; result = o.1 }
