-- ===== src/Rag/Sections.antt =====
-- app/rag/chunking.py: the first loop of `chunk_document`, which divides the pages of a document into
-- sections by their headings. The decimal digits of Unicode are a parameter.
use Prim.Native.Char.{Char, code}
use Prim.Native.String.{◌++◌ as cat}
use yjdlagent.Prelude.{
  ℕ, ◌+◌, ◌-◌, Bool, false, not, Option, none, some, List, [], ◌∷◌, ◌++◌, String, ltb, ◌==◌, ◌&&◌,
  ◌||◌, take, str_eq, if◌then◌else◌,
}
use yjdlagent.Table.{any}
use yjdlagent.Rag.Contents.{any_in}
use yjdlagent.Rag.Splitting.{is_empty}
use yjdlagent.Text.{is_space, lstrip, strip, len, is_in, lines_of_text}

abbrev top_level_hints : List String
top_level_hints = "研究口径" ∷ "步行指数的含义" ∷ "步行指数计算" ∷ "基础设施覆盖率" ∷ "步行指数评价" ∷ "来源与核验" ∷ []

pub record Page : Type 0 where
  pub page_number : ℕ
  pub text : String
  pub tables : List String

pub record Document : Type 0 where
  pub document_id : String
  pub title : String
  pub source : String
  pub pages : List Page

-- SectionBuffer
pub record Section : Type 0 where
  pub path : List String
  pub page_start : ℕ
  pub page_end : ℕ
  pub lines : List String

-- The variables of the loop over the pages.
pub record Sectioning : Type 0 where
  pub sections : List Section
  pub current : Section
  pub hierarchy : List String
  pub page_paths : List (ℕ × List String)

abbrev pub kept : List Section → Section → List Section
kept sections current = if is_empty current.lines then sections else sections ++ current ∷ []

module _ (is_digit : ℕ → Bool) where
  abbrev digit_first : String → Bool
  digit_first String.[] = false
  digit_first (String.◌∷◌ c s) = is_digit (code c)

  abbrev before_number : Char → String × String → String × String
  before_number c (number, rest) = (String.◌∷◌ c number, rest)

  -- the longest text of the form \d+(\.\d+)* at the start, and the rest; `inside` says that a digit
  -- stands before
  unfoldable pub number_of : Bool → String → String × String
  number_of inside String.[] = ("", "")
  number_of inside (String.◌∷◌ c s) =
      let rest = number_of (is_digit (code c)) s in
      if is_digit (code c) || inside && code c == 46 && digit_first s
      then before_number c rest
      else ("", String.◌∷◌ c s)

  -- number.count(".")
  unfoldable pub dots : String → ℕ
  dots String.[] = 0
  dots (String.◌∷◌ c s) = (if code c == 46 then 1 else 0) + dots s

  abbrev space_first : String → Bool
  space_first String.[] = false
  space_first (String.◌∷◌ c s) = is_space (code c)

  unfoldable pub heading_of : String × String → Option (ℕ × String)
  unfolding dots lstrip is_in any is_space len
  heading_of (number, rest) =
      let title = lstrip rest in
      if str_eq number "" || not (space_first rest) || str_eq title ""
      then none
      else if ltb 45 (len title)
      then none
      else if dots number == 0 && not (any_in top_level_hints title)
      then none
      else some (dots number + 1, cat number (cat " " title))

  -- `_is_heading`: the level and the label of a heading
  unfoldable pub is_heading : String → Option (ℕ × String)
  unfolding heading_of number_of strip
  is_heading line = heading_of (number_of false (strip line))

  unfoldable pub read_heading : ℕ → ℕ × String → Sectioning → Sectioning
  read_heading page_number (level, label) s =
      let hierarchy = take (level - 1) s.hierarchy ++ label ∷ [] in
      record s {
        sections = kept s.sections s.current;
        hierarchy = hierarchy;
        current = record {
          path = hierarchy;
          page_start = page_number;
          page_end = page_number;
          lines = [];
        };
      }

  unfoldable pub read_line : ℕ → String → Sectioning → Sectioning
  unfolding is_heading read_heading
  read_line page_number line s = elim (is_heading line) [
    | some heading ↦ read_heading page_number heading s
    | none ↦ record s {
      current = record s.current { lines = s.current.lines ++ line ∷ []; page_end = page_number };
    }
  ]

  unfoldable pub read_lines : ℕ → List String → Sectioning → Sectioning
  unfolding read_line
  read_lines page_number [] s = s
  read_lines page_number (l ∷ ls) s = read_lines page_number ls (read_line page_number l s)

  abbrev or_title : String → List String → List String
  or_title title [] = title ∷ []
  or_title title (h ∷ hs) = h ∷ hs

  unfoldable pub read_pages : String → List Page → Sectioning → Sectioning
  unfolding read_lines lines_of_text
  read_pages title [] s = s
  read_pages title (p ∷ ps) s =
      let s' = read_lines p.page_number (lines_of_text p.text) s in
      read_pages title ps
        (record s' { page_paths = (p.page_number, or_title title s'.hierarchy) ∷ s'.page_paths })

  unfoldable pub sectioning : Document → Sectioning
  unfolding read_pages
  sectioning d = read_pages d.title d.pages (record {
    sections = [];
    current = record { path = d.title ∷ []; page_start = 1; page_end = 1; lines = [] };
    hierarchy = [];
    page_paths = [];
  })
