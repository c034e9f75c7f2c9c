-- ===== src/ConfFile/Walk.antt =====
-- radconffile.c: radCfGetFirstEntry and radCfGetNextEntry, which go through the entries of an identifier.
use radlib.Base.{
  ℕ, zero, suc, ◌<◌, ◌≡◌, refl, ap, inl, inr, if◌then◌else◌, Option, none, some, List, [], ◌∷◌,
  Bool-cases, arith,
}
use radlib.Base.Lists.{length, drop}
use radlib.ConfFile.{Text, Line, comment, entry, Entry}
use radlib.ConfFile.Entries.{text_eq}

-- The number of the line that is found, and its entry. `lastSearchNode` is the number of a line, from 1,
-- and 0 for NULL.
unfoldable pub search_from : (id : Text) → (passed : ℕ) → List Line → Option (ℕ × Entry)
search_from id n [] = none
search_from id n (comment t ∷ ls) = search_from id (suc n) ls
search_from id n (entry e ∷ ls) =
    let further = search_from id (suc n) ls in if text_eq e.id id then some (suc n, e) else further

unfoldable pub get_next_entry :
    (id : Text) → (last_search_node : ℕ) → List Line → Option (ℕ × Entry)
get_next_entry id n ls = search_from id n (drop n ls)

unfoldable pub get_first_entry : (id : Text) → List Line → Option (ℕ × Entry)
get_first_entry id ls = get_next_entry id 0 ls

-- The calls of a client that asks for the next entry until there is none.
unfoldable pub walk : (fuel : ℕ) → (id : Text) → Option (ℕ × Entry) → List Line → List Entry
walk zero id o ls = []
walk (suc k) id none ls = []
walk (suc k) id (some (n, e)) ls = e ∷ walk k id (get_next_entry id n ls) ls

-- The entries of an identifier.
abbrev pub entries_of : (id : Text) → List Line → List Entry
entries_of id [] = []
entries_of id (comment t ∷ ls) = entries_of id ls
entries_of id (entry e ∷ ls) = if text_eq e.id id then e ∷ entries_of id ls else entries_of id ls

drop-suc :
    (n : ℕ) (ls : List Line) (x : Line) (xs : List Line) → drop n ls ≡ x ∷ xs → drop (suc n) ls ≡ xs
drop-suc zero [] x xs h = ground arith
drop-suc zero (l ∷ ls) x xs h = ground arith
drop-suc (suc n) [] x xs h = ground arith
drop-suc (suc n) (l ∷ ls) x xs h = drop-suc n ls x xs h

walk-search_from :
    (id : Text) (ls xs : List Line) (n k : ℕ)
    → drop n ls ≡ xs
    → length xs < k
    → walk k id (search_from id n xs) ls ≡ entries_of id xs
unfolding walk search_from get_next_entry
walk-search_from id ls xs n zero h l = absurd (omega arith)
walk-search_from id ls [] n (suc k) h l = refl
walk-search_from id ls (comment t ∷ xs) n (suc k) h l =
    walk-search_from id ls xs (suc n) (suc k) (drop-suc n ls (comment t) xs h) (omega arith)
walk-search_from id ls (entry e ∷ xs) n (suc k) h l = elim (Bool-cases (text_eq e.id id)) [
  | inl y ↦
      rw (search_from, y, walk, get_next_entry, drop-suc n ls (entry e) xs h)
        (ap (λ es. e ∷ es)
          (walk-search_from id ls xs (suc n) k (drop-suc n ls (entry e) xs h) (omega arith)))
  | inr m ↦
      rw (search_from, m)
        (walk-search_from id ls xs (suc n) (suc k) (drop-suc n ls (entry e) xs h) (omega arith))
]

-- A client that calls radCfGetFirstEntry and then radCfGetNextEntry until it fails gets every entry of
-- the identifier once, in the order of the file, and radCfGetNextEntry fails after at most as many calls
-- as the file has lines.
pub walk-get_first_entry :
    (id : Text) (ls : List Line) (fuel : ℕ)
    → length ls < fuel
    → walk fuel id (get_first_entry id ls) ls ≡ entries_of id ls
unfolding get_first_entry get_next_entry
walk-get_first_entry id ls fuel h = walk-search_from id ls ls 0 fuel refl h
