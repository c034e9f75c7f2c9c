-- ===== src/ConfFile/Tests.antt =====
-- radconffile.c: runs, and the theorems at a concrete file.
use radlib.Base.{
  ◌++◌, if◌then◌else◌, ◌≡◌, refl, inl, inr, true, false, ◌⊎◌, Option, none, some, List, [], ◌∷◌,
  ◌&&◌, arith,
}
use radlib.Base.Lists.{All}
use radlib.SysDefs.{ok, error}
use radlib.ConfFile.{
  has_no_text, newline, Text, Line, comment, entry, Entry, added, fault, parse_line, open_file,
  print_line, print_lines, print_entry, parse_lines, fgets_all, parse_entry, key_of, instance_key,
  value_and_remark, strtok, token, skip_delims, split_at, from_hash, skip_space, is_space,
}
use radlib.ConfFile.Tokens.{none_of-Free}
use radlib.ConfFile.Print.{word_delims, value_delims, IsEntry}
use radlib.ConfFile.Saved.{IsSaved, flush-open_file}
use radlib.ConfFile.Entries.{text_eq, get_entry, put_entry, changed}
use radlib.ConfFile.Entries.First.{Apart}
use radlib.ConfFile.Entries.Put.{put_entry-get_entry}
use radlib.ConfFile.Walk.{walk, get_first_entry, walk-get_first_entry}
use radlib.ConfFile.Comments.{
  put_comment_before, is_comment_before, put_comment_before-is_comment_before,
}
use radlib.ConfFile.Flush.{Stream, with_hdr, write_lines, put_all, entry_texts, chars, flush}

abbrev port : Entry
port = record {
  id = chars "PORT";
  instance_name = chars "a";
  value = chars "80";
  remark = chars "# web";
}

abbrev host : Entry
host = record { id = chars "HOST"; instance_name = []; value = []; remark = [] }

abbrev file_lines : List Line
file_lines = comment (chars "# example\n") ∷ entry port ∷ comment (chars " \n") ∷ entry host ∷ []

file_text : print_lines file_lines ≡ chars "# example\nPORT[a]=80\t\t# web\n \nHOST=\n"
unfolding print_lines print_line print_entry
file_text = refl

file_read : open_file (chars "# example\nPORT[a]  80 # web\n \nHOST=\n") ≡ some file_lines
unfolding open_file parse_lines fgets_all parse_line parse_entry key_of instance_key
    value_and_remark strtok token skip_delims split_at from_hash skip_space is_space
file_read = refl

-- A comment directly behind the value is lost, and one behind an empty value becomes the value.
comment_lost : parse_line (chars "HOST=x#y\n") ≡ added (entry (record host { value = chars "x" }))
unfolding parse_line parse_entry key_of value_and_remark strtok token skip_delims split_at from_hash
    skip_space is_space
comment_lost = refl

comment_as_value :
    parse_line (chars "HOST= # y\n") ≡ added (entry (record host { value = chars "y" }))
unfolding parse_line parse_entry key_of value_and_remark strtok token skip_delims split_at from_hash
    skip_space is_space
comment_as_value = refl

bracket_order : parse_line (chars "a]b[c=1\n") ≡ fault
unfolding parse_line parse_entry key_of instance_key value_and_remark strtok token skip_delims
    split_at from_hash skip_space is_space
bracket_order = refl

port-IsEntry : IsEntry port
port-IsEntry = (
  (none_of-Free word_delims (chars "PORT") refl, omega arith),
  none_of-Free word_delims (chars "a") refl,
  omega arith,
  (
    none_of-Free value_delims (chars "80") refl,
    inr (chars " web", refl, none_of-Free (newline ∷ []) (chars " web") refl),
  ),
  omega arith,
)

file_lines-IsSaved : All IsSaved file_lines
unfolding print_line print_entry skip_space is_space
file_lines-IsSaved = (
  (
    inr (chars " example\n", refl),
    (chars "# example", refl, none_of-Free (newline ∷ []) (chars "# example") refl, omega arith),
  ),
  (
    (
      port-IsEntry,
      (
        chars "PORT[a]=80\t\t# web",
        refl,
        none_of-Free (newline ∷ []) (chars "PORT[a]=80\t\t# web") refl,
        omega arith,
      ),
    ),
    (
      (inl refl, (chars " ", refl, none_of-Free (newline ∷ []) (chars " ") refl, omega arith)),
      (
        (
          (
            (none_of-Free word_delims (chars "HOST") refl, omega arith),
            tt,
            omega arith,
            refl,
            omega arith,
          ),
          (chars "HOST=", refl, none_of-Free (newline ∷ []) (chars "HOST=") refl, omega arith),
        ),
        tt,
      ),
    ),
  ),
)

-- A stream that takes everything.
abbrev disk : Stream
disk = record { puts = λ w t. (w ++ t, true); close = λ w. w }

-- On a disk that is full after the first text, an entry is cut and the result is OK.
full : Stream
full = record { puts = λ w t. (if has_no_text w then t else w, true); close = λ w. w }

entry_cut :
    (flush true true 0 full (chars "a.conf") (comment (chars "#\n") ∷ entry host ∷ [])) ≡ record {
      written = some (chars "#\n");
      lines = comment (chars "#\n") ∷ entry host ∷ [];
      result = ok;
    }
unfolding full flush with_hdr write_lines put_all entry_texts
entry_cut = refl

flush-open_file_example :
    ((flush true true 0 disk (chars "a.conf") file_lines
        ≡ record { written = none; lines = file_lines; result = error })
      × ((true && true) ≡ false))
    ⊎ ((text : Text) × (ls' : List Line) × (flush true true 0 disk (chars "a.conf") file_lines
          ≡ record { written = some text; lines = ls'; result = ok })
        × (open_file text ≡ some ls')
        × ((id : Text) (i : Option Text) → get_entry id i ls' ≡ get_entry id i file_lines))
flush-open_file_example =
    flush-open_file true true 0 disk (chars "a.conf") file_lines file_lines-IsSaved
      (none_of-Free (newline ∷ []) (chars "a.conf") refl, omega arith) ((λ w t. refl), (λ w. refl))

put_entry-get_entry_example :
    ((ls' : List Line) × (put_entry true (chars "PORT") none (chars "81") none file_lines
        ≡ changed ls' ok)
      × (get_entry (chars "PORT") none ls' ≡ some (chars "81"))
      × ((id' : Text) (i' : Option Text)
          → Apart (chars "PORT") none id' i'
          → get_entry id' i' ls' ≡ get_entry id' i' file_lines))
    ⊎ ((put_entry true (chars "PORT") none (chars "81") none file_lines ≡ changed file_lines error)
        × (true ≡ false)
        × (get_entry (chars "PORT") none file_lines ≡ none))
put_entry-get_entry_example =
    put_entry-get_entry true (chars "PORT") none (chars "81") none file_lines
      (omega arith, omega arith, omega arith, omega arith)

walk-get_first_entry_example :
    walk 5 (chars "PORT") (get_first_entry (chars "PORT") file_lines) file_lines ≡ port ∷ []
unfolding text_eq
walk-get_first_entry_example = walk-get_first_entry (chars "PORT") file_lines 5 (omega arith)

put_comment_before-is_comment_before_example :
    ((put_comment_before true (chars "HOST") none (chars "# h\n") file_lines
        ≡ changed file_lines error)
      × (get_entry (chars "HOST") none file_lines ≡ none))
    ⊎ ((ls' : List Line) × (put_comment_before true (chars "HOST") none (chars "# h\n") file_lines
          ≡ changed ls' ok)
        × (is_comment_before (chars "HOST") none (chars "# h\n") ls' ≡ true)
        × ((id' : Text) (i' : Option Text) → get_entry id' i' ls' ≡ get_entry id' i' file_lines))
put_comment_before-is_comment_before_example =
    put_comment_before-is_comment_before (chars "HOST") none (chars "# h\n") file_lines
      (omega arith)

-- A space before the `=` makes the `=` the value.
space_before_equals :
    parse_line (chars "HOST = x\n") ≡ added (entry (record host { value = chars "=" }))
unfolding parse_line parse_entry key_of value_and_remark strtok token skip_delims split_at from_hash
    skip_space is_space
space_before_equals = refl
