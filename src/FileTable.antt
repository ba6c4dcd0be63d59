-- ===== src/FileTable.antt =====
-- peekbeam/src/file_table.rs: paths for the Files panel. A text is the list of its characters.
use Prim.Native.Nat.{min}
use peekbeam.Prelude.{ℕ, ◌-◌, ◌/◌, List, [], ◌∷◌, ◌++◌, ◌||◌, leb, ltb, if◌then◌else◌}
use peekbeam.Data.Lists.{length, take, drop}
use peekbeam.Data.Utf8.{from_utf8_lossy}
use peekbeam.Common.{file_path_max}

-- '…'
abbrev pub ellipsis : ℕ
ellipsis = 0x2026

unfoldable pub format_path : List ℕ → ℕ → List ℕ
unfolding from_utf8_lossy
format_path path path_len =
    let len = min path_len (length path) in
    let text = from_utf8_lossy (take len path) in
    if leb file_path_max path_len then text ++ ellipsis ∷ [] else text

unfoldable pub truncate_middle : List ℕ → ℕ → List ℕ
truncate_middle path max_len =
    let char_count = length path in
    if leb char_count max_len || ltb max_len 5
    then path
    else let keep = max_len - 1 in
      let head = keep / 2 in
      let tail = keep - head in take head path ++ (ellipsis ∷ drop (char_count - tail) path)
