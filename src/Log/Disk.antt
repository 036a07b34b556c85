-- ===== src/Log/Disk.antt =====
-- The file system as the code of the metric files uses it, sentinel-core/utils/file_utils.cc: the
-- content of each file by its path. Every file can be opened, and nobody else writes to them.
pub mod Laws
use sentinel_cpp.Prelude.{
  ◌==◌, not, ◌&&◌, if◌then◌else◌, Bool, true, false, Option, none, some, List, [], ◌∷◌,
}
use sentinel_cpp.Log.Format.{Text}
use sentinel_cpp.Log.Text.{text_eq, after}

abbrev pub Disk : Type 0
Disk = List (Text × Text)

unfoldable pub read_file : Text → Disk → Option Text
read_file path [] = none
read_file path ((p, content) ∷ files) =
    let rest = read_file path files in if text_eq p path then some content else rest

unfoldable pub write_file : Text → Text → Disk → Disk
write_file path text [] = (path, text) ∷ []
write_file path text ((p, content) ∷ files) =
    let rest = write_file path text files in
    if text_eq p path then (p, text) ∷ files else (p, content) ∷ rest

-- `remove`
unfoldable pub remove_file : Text → Disk → Disk
remove_file path [] = []
remove_file path ((p, content) ∷ files) =
    let rest = remove_file path files in if text_eq p path then rest else (p, content) ∷ rest

-- FileUtils::FileExists
unfoldable pub file_exists : Text → Disk → Bool
unfolding read_file
file_exists path disk = elim (read_file path disk) [ none ↦ false | some content ↦ true ]

-- A name in a directory, and not below another in it.
unfoldable pub is_entry : Text → Bool
is_entry [] = true
is_entry (c ∷ s) = let rest = is_entry s in not (c == b'/') && rest

-- FileUtils::ListFiles, of a directory whose path ends with the separator; the directories in it are
-- left out.
unfoldable pub list_files : Text → Disk → List Text
unfolding after is_entry
list_files dir [] = []
list_files dir ((p, content) ∷ files) =
    let rest = list_files dir files in
    elim (after dir p) [ none ↦ rest | some name ↦ if is_entry name then name ∷ rest else rest ]
