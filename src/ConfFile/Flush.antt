-- ===== src/ConfFile/Flush.antt =====
-- radconffile.c: radCfFlush, which writes the lines to the file, behind a header if there is none.
use Prim.Native.Char.{code}
use Prim.Native.String.{String}
use radlib.Base.{ℕ, zero, suc, Bool, if◌then◌else◌, Option, none, some, List, [], ◌∷◌, ◌++◌}
use radlib.SysDefs.{Status, ok, error}
use radlib.ConfFile.{Entry, tab, Text, newline, Line, comment, entry}

-- The characters of a literal of the source.
abbrev pub chars : String → Text
chars String.[] = []
chars (String.◌∷◌ c cs) = code c ∷ chars cs

-- `textHdr`.
abbrev pub text_hdr : List Text
text_hdr =
    chars "#\n"
    ∷ chars "#  This file contains configuration information.  The format of the\n"
    ∷ chars "#  file is not order dependent.\n"
    ∷ chars "#\n"
    ∷ chars "#  Comments are started by the # sign and continue to the end of the line.\n"
    ∷ chars "#  Blank lines are ignored.  The maximum line length is 256 characters.\n"
    ∷ chars "#  The general format for entries is as follows:\n"
    ∷ chars "#\n"
    ∷ chars "#  <IDENTIFIER>[<INSTANCE>](=)<VALUE>(whitespace)(# COMMENT)\n"
    ∷ chars "#\n"
    ∷ chars "#  IDENTIFIER: a text string identifying the data to follow.  Max size\n"
    ∷ chars "#              is 32 characters.  No whitespace characters allowed.\n"
    ∷ chars "#  INSTANCE:   (OPTIONAL) a text string creating a unique instance of \n"
    ∷ chars "#              IDENTIFIER. Entries may or may not have an instance.\n"
    ∷ chars "#              No whitespace characters allowed.\n"
    ∷ chars "#              If the instance is present, the content of the instance\n"
    ∷ chars "#              is application specific.  Max size is 32 characters.\n"
    ∷ chars "#  (=):        (OPTIONAL) The delimiter between the identifier and the value\n"
    ∷ chars "#              can be any amount of whitespace or an '=' sign.\n"
    ∷ chars "#  VALUE:      a text string containing application specific information.\n"
    ∷ chars "#              No whitespace characters allowed.\n"
    ∷ chars "#  COMMENT:    (OPTIONAL) separated from the value string by any amount\n"
    ∷ chars "#              of whitespace and started with the '#' character.\n"
    ∷ chars "#\n"
    ∷ chars "#\n"
    ∷ []

-- The loop of `radCfInsertTextHdr`, with the number of buffers that there still are. It ends where there
-- is none left.
unfoldable pub hdr_lines : (buffers : ℕ) → List Text → List Line
hdr_lines zero ts = []
hdr_lines (suc n) [] = []
hdr_lines (suc n) (t ∷ ts) = comment t ∷ hdr_lines n ts

unfoldable pub insert_text_hdr : (buffers : ℕ) → (file_name : Text) → List Line → List Line
insert_text_hdr zero name ls = ls
insert_text_hdr (suc n) name ls =
    comment (chars "#  Filename: " ++ (name ++ newline ∷ [])) ∷ (hdr_lines n text_hdr ++ ls)

unfoldable pub with_hdr : (buffers : ℕ) → (file_name : Text) → List Line → List Line
with_hdr n name [] = insert_text_hdr n name []
with_hdr n name (comment t ∷ ls) = comment t ∷ ls
with_hdr n name (entry e ∷ ls) = insert_text_hdr n name (entry e ∷ ls)

-- The stream of the file: what it has got after a text is written to it, with whether the call reports
-- success, and what is in the file after `fclose`.
pub record Stream : Type 0 where
  pub puts : (got text : Text) → Text × Bool
  pub close : Text → Text

-- The three calls of `fprintf` for an entry, whose results are not looked at.
abbrev pub instance_text : Text → Text
instance_text [] = []
instance_text (c ∷ cs) = b'[' ∷ c ∷ (cs ++ b']' ∷ [])

abbrev pub remark_texts : Text → List Text
remark_texts [] = []
remark_texts (c ∷ cs) = (tab ∷ tab ∷ c ∷ cs) ∷ []

unfoldable pub entry_texts : Entry → List Text
entry_texts e =
    (e.id ++ (instance_text e.instance_name ++ b'=' ∷ e.value))
    ∷ (remark_texts e.remark ++ (newline ∷ []) ∷ [])

unfoldable pub put_all : Stream → (got : Text) → List Text → Text
put_all out w [] = w
put_all out w (t ∷ ts) = put_all out (out.puts w t).0 ts

-- The loop that writes, and `fclose`, with what the stream has got so far. A comment that is not written
-- ends it with ERROR; a failure for an entry, or of `fclose`, is not noticed.
unfoldable pub write_lines : Stream → (got : Text) → List Line → Text × Status
unfolding put_all entry_texts
write_lines out w [] = (out.close w, ok)
write_lines out w (comment t ∷ ls) =
    let (w', good) = out.puts w t in
    let rest = write_lines out w' ls in if good then rest else (out.close w', error)
write_lines out w (entry e ∷ ls) = write_lines out (put_all out w (entry_texts e)) ls

-- What a call leaves: the new text of the file, if it was opened, the list of lines, and the result.
-- The lock is released again on every way out once it is had.
pub record Flushed : Type 0 where
  pub written : Option Text
  pub lines : List Line
  pub result : Status

unfoldable pub flush :
    (lock_ok open_ok : Bool) → (buffers : ℕ) → Stream → (file_name : Text) → List Line → Flushed
unfolding with_hdr write_lines
flush lock_ok open_ok buffers out name ls =
    let ls' = with_hdr buffers name ls in
    let left = write_lines out [] ls' in
    if lock_ok
    then (if open_ok
        then record { written = some left.0; lines = ls'; result = left.1 }
        else record { written = none; lines = ls; result = error })
    else record { written = none; lines = ls; result = error }
