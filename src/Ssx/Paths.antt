-- ===== src/Ssx/Paths.antt =====
-- The directories that are searched for a file: add_directory_to_search_path() and the loop of the
-- constructor of ParseV2::File, src/ssx/parsev2.cpp. The parameter `open_file` stands for the file
-- system: the lines of a file, if it can be opened.
use libtabula.Prelude.{Bool, false, ◌||◌, List, [], ◌∷◌, ◌++◌, Option, none, if◌then◌else◌, or_else}
use libtabula.Prelude.Bytes.{Text, codes, text_eq}
use libtabula.Ssx.Tokens.{split_path}

-- path = *it++; path += LIBTABULA_PATH_SEPARATOR; path += file_name_.
unfoldable pub in_directory : Text → Text → Text
in_directory directory name = directory ++ b'/' ∷ name

-- The directory part: the parts before the last one, with separators between them.
unfoldable pub directory_of : Text → List Text → Text
directory_of path [] = path
directory_of path (last ∷ []) = path
directory_of path (next ∷ more) = directory_of (path ++ b'/' ∷ next) more

unfoldable pub mem_text : Text → List Text → Bool
mem_text s [] = false
mem_text s (t ∷ l) = text_eq t s || mem_text s l

unfoldable pub add_once : Text → List Text → List Text
unfolding mem_text
add_once path search_path =
    if mem_text path search_path then search_path else search_path ++ path ∷ []

unfoldable pub add_parts : List Text → List Text → List Text
unfolding directory_of add_once
add_parts [] search_path = search_path
add_parts (only ∷ []) search_path = search_path
add_parts (first ∷ last ∷ []) search_path =
    if text_eq first (codes ".") then search_path else add_once first search_path
add_parts (first ∷ next ∷ more) search_path =
    add_once (directory_of first (next ∷ more)) search_path

unfoldable pub add_directory_to_search_path : Text → List Text → List Text
unfolding add_parts
add_directory_to_search_path filepath search_path = add_parts (split_path filepath) search_path

module _ (open_file : Text → Option (List Text)) where
  unfoldable pub open_any : Text → List Text → Option (List Text)
  unfolding in_directory
  open_any name [] = none
  open_any name (directory ∷ later) =
      or_else (open_file (in_directory directory name)) (open_any name later)

  -- The name itself is tried first, then the directories in their order.
  unfoldable pub search : Text → List Text → Option (List Text)
  unfolding open_any
  search name search_path = or_else (open_file name) (open_any name search_path)
