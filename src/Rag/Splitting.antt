-- ===== src/Rag/Splitting.antt =====
-- app/rag/chunking.py, `_split_content`: the parts of the text of a section.
pub mod Parts
pub mod Groups
mod Examples
use yjdlagent.Prelude.{
  ℕ, zero, suc, ◌+◌, ◌-◌, Bool, true, false, not, Option, none, some, List, [], ◌∷◌, ◌++◌, map,
  String, ltb, leb, ◌==◌, ◌&&◌, ◌||◌, length, take, str_eq, if◌then◌else◌,
}
use yjdlagent.Text.{strip, len, join, last_chars, lines_of_text}

abbrev pub newline : String
newline = "\n"

-- `[line.strip() for line in text.splitlines() if line.strip()]`
unfoldable pub kept_lines : List String → List String
unfolding strip
kept_lines [] = []
kept_lines (l ∷ ls) = if str_eq (strip l) "" then kept_lines ls else strip l ∷ kept_lines ls

-- The variables of the loop over the lines.
pub record Splitting : Type 0 where
  pub parts : List String
  pub current : List String
  pub current_size : ℕ

abbrev pub is_empty : List String → Bool
is_empty [] = true
is_empty (x ∷ xs) = false

-- 1 for the end of the line before, if there is one
abbrev pub separators : List String → ℕ
separators [] = 0
separators (x ∷ xs) = 1

unfoldable pub part_of : List String → String
unfolding strip join
part_of current = strip (join newline current)

-- `part[-overlap_chars:] if overlap_chars else ""`
unfoldable pub overlap_of : ℕ → String → String
unfolding last_chars
overlap_of overlap_chars part = if overlap_chars == 0 then "" else last_chars overlap_chars part

abbrev pub total_size : List String → ℕ
total_size [] = 0
total_size (l ∷ ls) = len l + total_size ls

abbrev pub restart : String → String → List String
restart overlap line = if str_eq overlap "" then line ∷ [] else overlap ∷ line ∷ []

unfoldable pub split_line : ℕ → ℕ → String → Splitting → Splitting
unfolding part_of overlap_of len
split_line max_chars overlap_chars line s =
    let additional = len line + separators s.current in
    let part = part_of s.current in
    let current = restart (overlap_of overlap_chars part) line in
    if not (is_empty s.current) && ltb max_chars (s.current_size + additional)
    then record {
      parts = s.parts ++ part ∷ [];
      current = current;
      current_size = total_size current + length current - 1;
    }
    else record {
      parts = s.parts;
      current = s.current ++ line ∷ [];
      current_size = s.current_size + additional;
    }

unfoldable pub split_lines : ℕ → ℕ → List String → Splitting → Splitting
unfolding split_line
split_lines max_chars overlap_chars [] s = s
split_lines max_chars overlap_chars (l ∷ ls) s =
    split_lines max_chars overlap_chars ls (split_line max_chars overlap_chars l s)

unfoldable pub last_part : Splitting → List String
unfolding part_of
last_part s = if is_empty s.current then s.parts else s.parts ++ part_of s.current ∷ []

abbrev pub nothing_split : Splitting
nothing_split = record { parts = []; current = []; current_size = 0 }

-- `_split_content`
unfoldable pub split_content : String → ℕ → ℕ → List String
unfolding split_lines last_part kept_lines lines_of_text strip len
split_content text max_chars overlap_chars =
    if leb (len text) max_chars
    then if str_eq (strip text) "" then [] else strip text ∷ []
    else last_part
        (split_lines max_chars overlap_chars (kept_lines (lines_of_text text)) nothing_split)
