-- ===== src/Userspace/Proofs/Paths.antt =====
-- The texts of peekbeam/src/file_table.rs.
use Prim.Native.Nat.{min}
use peekbeam.Prelude.{
  ℕ, ◌+◌, ◌-◌, ◌/◌, ◌≤◌, ◌<◌, ◌≡◌, refl, sym, ap, ◌∙◌, true, List, [], ◌∷◌, ◌++◌, arith, leb, ltb,
  if◌then◌else◌,
}
use peekbeam.Data.Lists.{
  length, take, drop, All, length-append, length-take, length-drop, take-append, take_append_drop,
  drop-drop,
}
use peekbeam.Data.Utf8.{idle, first_byte, step_byte, decode_from, from_utf8_lossy}
use peekbeam.Common.{file_path_max}
use peekbeam.FileTable.{ellipsis, format_path, truncate_middle}

abbrev pub IsAscii : List ℕ → Type 0
IsAscii = All (λ b. b < 0x80)

ascii_text : (bs : List ℕ) → IsAscii bs → decode_from idle bs ≡ bs
unfolding decode_from step_byte first_byte
ascii_text [] small = refl
ascii_text (b ∷ bs) small =
    let plain : ltb b 0x80 ≡ true = ground (arith, small.0) in
    rw plain (ap (◌∷◌ b) (ascii_text bs small.1))

-- A path of ASCII characters in a buffer is shown as it is, whatever follows it in the buffer, with
-- an ellipsis if and only if it is 64 bytes long or longer.
pub format_path-ascii :
    (name rest : List ℕ)
    → IsAscii name
    → format_path (name ++ rest) (length name)
      ≡ (if leb file_path_max (length name) then name ++ ellipsis ∷ [] else name)
unfolding format_path from_utf8_lossy
format_path-ascii name rest small =
    let whole : min (length name) (length (name ++ rest)) ≡ length name =
      omega (arith, length-append name rest) in
    rw (whole, take-append name rest, ascii_text name small) refl

-- A cut path is exactly as long as it may be, and a path that fits is not cut: with room for five
-- characters or more, the length of the text is the lesser of the path's length and the limit.
pub length-truncate_middle :
    (path : List ℕ) (max_len : ℕ)
    → 5 ≤ max_len
    → length (truncate_middle path max_len) ≡ min (length path) max_len
unfolding truncate_middle
length-truncate_middle path max_len room =
    let keep = max_len - 1 in
    let head = keep / 2 in
    let tail = keep - head in
    ground (
      arith,
      room,
      length-append (take head path) (ellipsis ∷ drop (length path - tail) path),
      length-take head path,
      length-drop (length path - tail) path,
    )

-- The two ends of a path that stay when it is cut.
pub record IsCut (path shown : List ℕ) (max_len : ℕ) : Type 0 where
  pub head : List ℕ
  pub middle : List ℕ
  pub tail : List ℕ
  pub whole : path ≡ head ++ (middle ++ tail)
  pub cut : shown ≡ head ++ (ellipsis ∷ tail)
  pub head_length : length head ≡ (max_len - 1) / 2
  pub tail_length : length tail ≡ max_len - 1 - (max_len - 1) / 2

-- A path longer than the limit, which is five or more, is cut in the middle: the text is a beginning
-- of the path, an ellipsis and an end of the path, and the end is as long as the beginning or longer
-- by one, to fill the limit.
pub truncate_middle-IsCut :
    (path : List ℕ) (max_len : ℕ)
    → 5 ≤ max_len
    → max_len < length path
    → IsCut path (truncate_middle path max_len) max_len
unfolding truncate_middle
truncate_middle-IsCut path max_len room long =
    let head = (max_len - 1) / 2 in
    let tail = max_len - 1 - head in
    let k = length path - tail - head in
    let fits : head + k ≡ length path - tail = omega (arith, room, long) in
    let rest : drop k (drop head path) ≡ drop (length path - tail) path =
      drop-drop k head path ∙ ap (λ n. drop n path) fits in
    record {
      head = take head path;
      middle = take k (drop head path);
      tail = drop (length path - tail) path;
      whole =
          sym (take_append_drop head path)
          ∙ ap (◌++◌ (take head path)) (sym (take_append_drop k (drop head path)))
          ∙ ap (λ r. take head path ++ (take k (drop head path) ++ r)) rest;
      cut = ground (arith, room, long);
      head_length = omega (arith, length-take head path, room, long);
      tail_length = omega (arith, length-drop (length path - tail) path, room, long);
    }
