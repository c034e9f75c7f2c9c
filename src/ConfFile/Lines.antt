-- ===== src/ConfFile/Lines.antt =====
-- radconffile.c: a file of lines that is written and read again.
use radlib.Base.{
  ℕ, ◌-◌, ◌<◌, ◌≡◌, refl, ap, ◌∙◌, some, List, [], ◌∷◌, ◌++◌, append_assoc, map, arith,
}
use radlib.Base.Lists.{All, length}
use radlib.ConfFile.{
  Text, newline, Line, parse_lines, fgets_all, open_file, print_line, print_lines,
}
use radlib.ConfFile.Tokens.{Free}
use radlib.ConfFile.Print.{IsPlain, parse_line-print_line}

-- A text that ends at its only newline and fits into the buffer of `radCfOpen`.
abbrev pub IsOneLine : Text → Type 0
IsOneLine t = (b : Text) × (t ≡ b ++ newline ∷ []) × Free (newline ∷ []) b × (length b < 511)

goes_on :
    (c : ℕ) (cs rest got : Text) (room : ℕ)
    → Free (newline ∷ []) (c ∷ cs)
    → length (c ∷ cs) < room
    → fgets_all room got (c ∷ (cs ++ newline ∷ rest))
      ≡ fgets_all (room - 1) (got ++ c ∷ []) (cs ++ newline ∷ rest)
unfolding fgets_all
goes_on c cs rest got room h l = ground (arith, h.0)

fgets_all-line :
    (b rest got : Text) (room : ℕ)
    → Free (newline ∷ []) b
    → length b < room
    → fgets_all room got (b ++ newline ∷ rest)
      ≡ (got ++ (b ++ newline ∷ [])) ∷ fgets_all 511 [] rest
unfolding fgets_all
fgets_all-line [] rest got room h l = refl
fgets_all-line (c ∷ cs) rest got room h l =
    rw
      (
        goes_on c cs rest got room h l,
        fgets_all-line cs rest (got ++ c ∷ []) (room - 1) h.1 (omega arith),
        append_assoc got (c ∷ []) (cs ++ newline ∷ []),
      )
      refl

fgets_all-print_lines :
    (ls : List Line)
    → All (λ l. IsOneLine (print_line l)) ls
    → fgets_all 511 [] (print_lines ls) ≡ map print_line ls
unfolding print_lines fgets_all
fgets_all-print_lines [] h = refl
fgets_all-print_lines (l ∷ ls) ((b, e, f, n), h) =
    rw
      (
        print_lines,
        e,
        append_assoc b (newline ∷ []) (print_lines ls),
        fgets_all-line b (print_lines ls) [] 511 f n,
        fgets_all-print_lines ls h,
      )
      refl

parse_lines-map : (ls : List Line) → All IsPlain ls → parse_lines (map print_line ls) ≡ some ls
unfolding parse_lines
parse_lines-map [] h = refl
parse_lines-map (l ∷ ls) h =
    rw (parse_lines, parse_line-print_line l h.0, parse_lines-map ls h.1) refl

pub open_file-print_lines :
    (ls : List Line)
    → All IsPlain ls
    → All (λ l. IsOneLine (print_line l)) ls
    → open_file (print_lines ls) ≡ some ls
unfolding open_file
open_file-print_lines ls h n = ap parse_lines (fgets_all-print_lines ls n) ∙ parse_lines-map ls h
