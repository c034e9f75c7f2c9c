-- ===== src/ConfFile.antt =====
-- src/radconffile.c and h/radconffile.h: configuration files, which are read line by line into a list of
-- comments and entries, changed there, and written again. A text is the list of its characters; a line
-- is what `fgets` gives, its newline included.
pub mod Tokens
pub mod Print
pub mod Lines
pub mod Entries
mod Walk
pub mod Flush
mod Saved
pub mod Comments
mod Tests
use radlib.Base.{
  ℕ, suc, ◌+◌, ◌-◌, Bool, true, false, if◌then◌else◌, ◌==◌, ltb, leb, ◌&&◌, ◌||◌, not, Option, none,
  some, List, [], ◌∷◌, ◌++◌,
}
use radlib.Base.Lists.{length}

abbrev pub Text : Type 0
Text = List ℕ

-- A tab and a newline.
abbrev pub tab : ℕ
tab = 9

abbrev pub newline : ℕ
newline = 10

abbrev pub max_id_length : ℕ
max_id_length = 64

abbrev pub max_instance_length : ℕ
max_instance_length = 32

abbrev pub max_line_length : ℕ
max_line_length = 512

abbrev pub max_comment_length : ℕ
max_comment_length = 128

-- `CF_ENTRY_DATA_TYPE`, and a line of the list: `CF_COMMENT` or `CF_ENTRY`.
pub record Entry : Type 0 where
  pub id : Text
  pub instance_name : Text
  pub value : Text
  pub remark : Text

pub data Line : Type 0 where
  comment : Text → Line
  entry : Entry → Line

-- What is made of a line of the file: it is added, or skipped; or the program writes past a field, or
-- leaves one without an end mark, so that it later reads past it.
pub data Parsed : Type 0 where
  added : Line → Parsed
  skipped fault : Parsed

-- `isspace`.
unfoldable pub is_space : ℕ → Bool
is_space c = (leb 9 c && leb c 13) || (c == b' ')

-- The text from the first character that is no whitespace.
unfoldable pub skip_space : Text → Text
skip_space [] = []
skip_space (c ∷ cs) = if is_space c then skip_space cs else c ∷ cs

abbrev pub contains : ℕ → Text → Bool
contains c [] = false
contains c (d ∷ ds) = c == d || contains c ds

-- `strtok`: the next token and the text behind its delimiter, none if only delimiters are left.
unfoldable pub skip_delims : (delims : Text) → Text → Text
skip_delims delims [] = []
skip_delims delims (c ∷ cs) = if contains c delims then skip_delims delims cs else c ∷ cs

unfoldable pub token : (delims : Text) → Text → Text × Text
token delims [] = ([], [])
token delims (c ∷ cs) =
    let (t, rest) = token delims cs in if contains c delims then ([], cs) else (c ∷ t, rest)

unfoldable pub strtok : (delims : Text) → Text → Option (Text × Text)
strtok delims s = elim (skip_delims delims s) [ [] ↦ none | c ∷ cs ↦ some (token delims (c ∷ cs)) ]

-- `strchr`: the text before the first such character, and the text behind it.
unfoldable pub split_at : ℕ → Text → Option (Text × Text)
split_at c [] = none
split_at c (d ∷ ds) =
    let found : Option (Text × Text) = elim (split_at c ds) [
      | none ↦ none
      | some (before, behind) ↦ some (d ∷ before, behind)
    ] in
    if d == c then some ([], ds) else found

-- The identifier and the instance of a token.
pub data Key : Type 0 where
  key : (id instance_name : Text) → Key
  invalid overrun : Key

-- A token with a `[`, given what stands before it and behind it. A `]` before it makes the length of
-- the instance negative.
unfoldable pub instance_key : (before behind : Text) → Key
instance_key before behind =
    let id_too_long = ltb max_id_length (length before) in
    let inside : Key = elim (split_at b']' behind) [
      | none ↦ invalid
      | some (inst, rest) ↦
          if ltb max_instance_length (length inst) || id_too_long
          then invalid
          else if (length before == max_id_length) || (length inst == max_instance_length)
          then overrun
          else key before inst
    ] in
    if contains b']' before then (if id_too_long then invalid else overrun) else inside

unfoldable pub key_of : (token_text : Text) → Key
key_of t = elim (split_at b'[' t) [
  | some (before, behind) ↦ instance_key before behind
  | none ↦
      if ltb max_id_length (length t)
      then invalid
      else if length t == max_id_length
      then overrun
      else key t []
]

-- The text from the first `#`.
unfoldable pub from_hash : Text → Text
from_hash [] = []
from_hash (c ∷ cs) = if c == b'#' then c ∷ cs else from_hash cs

-- The value and the comment, from what stands behind the identifier.
unfoldable pub value_and_remark : Text → Text × Text
value_and_remark s = elim (strtok (b' ' ∷ b'#' ∷ tab ∷ newline ∷ []) s) [
  | none ↦ ([], [])
  | some (v, rest) ↦ elim (strtok (newline ∷ []) rest) [
    | none ↦ (v, [])
    | some (c, more) ↦ (v, from_hash c)
  ]
]

unfoldable pub parse_entry : Text → Parsed
parse_entry s = elim (strtok (b'=' ∷ b' ' ∷ tab ∷ []) s) [
  | none ↦ skipped
  | some (t, rest) ↦ elim (key_of t) [
    | invalid ↦ skipped
    | overrun ↦ fault
    | key id inst ↦
        let (v, c) = value_and_remark rest in
        if leb max_comment_length (length c)
        then fault
        else added (entry (record { id = id; instance_name = inst; value = v; remark = c }))
  ]
]

-- The body of the loop of `radCfOpen`.
unfoldable pub parse_line : Text → Parsed
parse_line line = elim (skip_space line) [
  | [] ↦ added (comment line)
  | c ∷ cs ↦ if c == b'#' then added (comment (c ∷ cs)) else parse_entry (c ∷ cs)
]

-- The loop of `radCfOpen`, while `radBufferGet` has a buffer; none if the program faults.
unfoldable pub parse_lines : List Text → Option (List Line)
parse_lines [] = some []
parse_lines (l ∷ ls) =
    let rest = parse_lines ls in
    elim (parse_line l) [
      | fault ↦ none
      | skipped ↦ rest
      | added x ↦ elim rest [ none ↦ none | some xs ↦ some (x ∷ xs) ]
    ]

abbrev pub has_no_text : Text → Bool
has_no_text [] = true
has_no_text (c ∷ cs) = false

-- `fgets` until the end of the file: a line ends behind a newline or when the buffer is full.
unfoldable pub fgets_all : (room : ℕ) → (got : Text) → Text → List Text
fgets_all room got [] = if has_no_text got then [] else got ∷ []
fgets_all room got (c ∷ cs) = elim ((c == newline) || leb room 1) [
  | true ↦ (got ++ c ∷ []) ∷ fgets_all (max_line_length - 1) [] cs
  | false ↦ fgets_all (room - 1) (got ++ c ∷ []) cs
]

unfoldable pub open_file : Text → Option (List Line)
open_file text = parse_lines (fgets_all (max_line_length - 1) [] text)

-- What `radCfFlush` writes for an entry and for a line.
unfoldable pub print_entry : Entry → Text
print_entry e =
    e.id
    ++ ((if has_no_text e.instance_name then [] else b'[' ∷ (e.instance_name ++ b']' ∷ []))
        ++ (b'='
            ∷ (e.value
                ++ ((if has_no_text e.remark then [] else tab ∷ tab ∷ e.remark) ++ newline ∷ []))))

unfoldable pub print_line : Line → Text
print_line (comment c) = c
print_line (entry e) = print_entry e

unfoldable pub print_lines : List Line → Text
print_lines [] = []
print_lines (l ∷ ls) = print_line l ++ print_lines ls
