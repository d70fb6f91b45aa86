-- ===== src/Dwarf/LineTable/ByLine.antt =====
-- `path_ends_in` and `line_table::get_entries_by_line` of src/dwarf.cpp.
pub mod Suffix
use kdebugger.Common.{
  same_text, ℕ, zero, suc, ◌+◌, ◌-◌, Bool, true, false, ◌&&◌, ◌||◌, not, List, [], ◌∷◌, none, some,
  drop, length, ltb, get_elem?, if◌then◌else◌, ◌==◌, Outcome, ok, fail, undefined, ◌>>=◌, or_fail,
}
use kdebugger.Dwarf.Cursor.{Cursor}
use kdebugger.Dwarf.LineTable.{File, Table, Iterator, begin, next}

-- `std::equal` up to the end of the first.
unfoldable pub same_components : List (List ℕ) → List (List ℕ) → Bool
same_components [] q = true
same_components (a ∷ p) [] = false
same_components (a ∷ p) (b ∷ q) = same_text a b && same_components p q

-- A path as the components that its iterators visit.
unfoldable pub path_ends_in : List (List ℕ) → List (List ℕ) → Bool
unfolding same_components
path_ends_in lhs rhs =
    if ltb (length lhs) (length rhs)
    then false
    else same_components (drop (length lhs - length rhs) lhs) rhs

-- What `std::filesystem` says of a path, which is the bytes of its name.
pub record Paths : Type 0 where
  pub components : List ℕ → List (List ℕ)
  pub is_absolute : List ℕ → Bool

-- The path of an iterator's file.
abbrev pub path_at : Iterator → Outcome (List ℕ)
path_at it = do
  place ← or_fail it.current.file_entry
  file ← or_fail (get_elem? it.files place)
  ok file.path

abbrev pub is_match : Paths → List ℕ → List ℕ → Bool
is_match paths path entry_path =
    (paths.is_absolute path
      && same_components (paths.components entry_path) (paths.components path)
      && same_components (paths.components path) (paths.components entry_path))
    || (not (paths.is_absolute path)
        && path_ends_in (paths.components entry_path) (paths.components path))

-- The loop; a step takes a byte at least.
unfoldable pub entries_loop : ℕ → Table → Paths → List ℕ → Iterator → Outcome (List Iterator)
unfolding path_ends_in same_components
entries_loop zero t paths path it = fail undefined
entries_loop (suc fuel) t paths path it = elim it.position [
  | none ↦ ok []
  | some c ↦ do
    entry_path ← path_at it
    after ← next t it
    others ← entries_loop fuel t paths path after
    ok (if is_match paths path entry_path then it ∷ others else others)
]

-- The line is not used.
unfoldable pub get_entries_by_line :
    Table → List File → Cursor → Paths → List ℕ → ℕ → Outcome (List Iterator)
unfolding entries_loop
get_entries_by_line t files start paths path line = do
  it ← begin t files start
  entries_loop (length start.bytes + 1) t paths path it
