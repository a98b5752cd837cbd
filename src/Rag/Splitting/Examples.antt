-- ===== src/Rag/Splitting/Examples.antt =====
-- A text of three lines.
use yjdlagent.Prelude.{◌≡◌, ◌≤◌, ◌<◌, refl, String, [], ◌∷◌, All, arith}
use yjdlagent.Text.{len, lines_of_text}
use yjdlagent.Rag.Splitting.Parts.{split_content-short}
use yjdlagent.Rag.Splitting.Groups.{Grouped, start, split_content-Grouped}
use yjdlagent.Rag.Splitting.{kept_lines, split_content}

abbrev three_lines : String
three_lines = "abcd\nefgh\n\n ij "

-- the second part is longer than 5 characters, by its overlap
three_parts : split_content three_lines 5 2 ≡ "abcd" ∷ "cd\nefgh" ∷ "gh\nij" ∷ []
unfolding split_content
three_parts = refl

three_lines-short : All (λ l. len l ≤ 4) (kept_lines (lines_of_text three_lines))
unfolding kept_lines lines_of_text len
three_lines-short = (omega arith, (omega arith, (omega arith, tt)))

split_content-short_example : All (λ p. len p ≤ 7) (split_content three_lines 5 2)
split_content-short_example =
    split_content-short three_lines 5 2 7 4 (omega arith) (omega arith) three_lines-short

three_lines-long : 5 < len three_lines
unfolding len
three_lines-long = omega arith

split_content-Grouped_example :
    Grouped 2 start (kept_lines (lines_of_text three_lines)) (split_content three_lines 5 2)
split_content-Grouped_example = split_content-Grouped 5 2 three_lines three_lines-long
