-- ===== src/ConfFile/Entries.antt =====
-- radconffile.c: the entries of a file, found, read, changed and added; and its comments.
pub mod Laws
pub mod First
pub mod Put
use radlib.Base.{
  ℕ, suc, ◌+◌, Bool, true, false, if◌then◌else◌, ◌==◌, leb, ◌&&◌, ◌||◌, not, Option, none, some,
  List, [], ◌∷◌, ◌++◌,
}
use radlib.Base.Lists.{length, drop}
use radlib.SysDefs.{Status, ok, error}
use radlib.ConfFile.{
  Text, Line, comment, entry, Entry, max_id_length, max_instance_length, max_line_length,
  max_comment_length,
}

-- `strcmp(s, t) == 0`.
unfoldable pub text_eq : Text → Text → Bool
text_eq [] [] = true
text_eq [] (d ∷ ds) = false
text_eq (c ∷ cs) [] = false
text_eq (c ∷ cs) (d ∷ ds) = c == d && text_eq cs ds

-- The tests of `radCfFindEntryNodeAfter`; without an instance every instance matches.
abbrev pub same_instance : Entry → (wanted : Option Text) → Bool
same_instance e none = true
same_instance e (some i) = text_eq e.instance_name i

unfoldable pub matches : (id : Text) → (wanted : Option Text) → Line → Bool
matches id inst (comment t) = false
matches id inst (entry e) = text_eq e.id id && same_instance e inst

-- A node of the list: the lines before it, its line, and the lines behind it.
pub record Node : Type 0 where
  pub before : List Line
  pub this_line : Line
  pub behind : List Line

unfoldable pub find_entry_node_after :
    (id : Text) → (wanted : Option Text) → (passed rest : List Line) → Option Node
find_entry_node_after id inst passed [] = none
find_entry_node_after id inst passed (l ∷ ls) =
    let further = find_entry_node_after id inst (passed ++ l ∷ []) ls in
    if matches id inst l
    then some (record { before = passed; this_line = l; behind = ls })
    else further

unfoldable pub find_entry_node : (id : Text) → (wanted : Option Text) → List Line → Option Node
find_entry_node id inst ls = find_entry_node_after id inst [] ls

abbrev pub value_of : Line → Option Text
value_of (comment t) = none
value_of (entry e) = some e.value

-- `radCfGetEntry`; none is ERROR. The buffer of the caller holds a value of the file.
unfoldable pub get_entry : (id : Text) → (wanted : Option Text) → List Line → Option Text
get_entry id inst ls = elim (find_entry_node id inst ls) [
  | none ↦ none
  | some n ↦ value_of n.this_line
]

-- What a call makes of the list: the new list and its result; or the program writes past a field, or
-- leaves one without an end mark.
pub data Change : Type 0 where
  changed : List Line → Status → Change
  spoilt : Change

abbrev pub fits : (room : ℕ) → Text → Bool
fits room t = not (leb room (length t))

-- `sprintf(entry->comment, "# %s", comment)`.
abbrev pub remark_of : Option Text → (else_remark : Text) → Text
remark_of none t = t
remark_of (some c) t = b'#' ∷ b' ' ∷ c

abbrev pub or_empty : Option Text → Text
or_empty none = []
or_empty (some t) = t

-- `radCfPutEntry`: the entry that is found is updated, or a new one is added at the end.
unfoldable pub new_entry : (id : Text) → Option Text → (value : Text) → Option Text → Entry
new_entry id inst v c = record {
  id = id;
  instance_name = or_empty inst;
  value = v;
  remark = remark_of c [];
}

unfoldable pub update_line : (value : Text) → Option Text → Line → Line
update_line v c (comment t) = comment t
update_line v c (entry e) = entry (record e { value = v; remark = remark_of c e.remark })

unfoldable pub put_entry :
    (memory_ok : Bool)
    → (id : Text) → (wanted : Option Text) → (value : Text) → (comment : Option Text) → List Line
    → Change
put_entry memory_ok id inst v c ls =
    let texts_fit = fits max_line_length v && fits max_comment_length (remark_of c []) in
    elim (find_entry_node id inst ls) [
      | none ↦
          if not memory_ok
          then changed ls error
          else if fits max_id_length id && fits max_instance_length (or_empty inst) && texts_fit
          then changed (ls ++ entry (new_entry id inst v c) ∷ []) ok
          else spoilt
      | some n ↦
          if texts_fit
          then changed (n.before ++ update_line v c n.this_line ∷ n.behind) ok
          else spoilt
    ]
