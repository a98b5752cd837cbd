-- ===== src/Rag/Splitting/Groups.antt =====
-- app/rag/chunking.py, `_split_content`: which lines stand in which part.
use mathlib.Core.List.{append_assoc, append-nil}
use yjdlagent.Prelude.{
  ◌∙◌, ℕ, ◌+◌, ◌-◌, ◌<◌, ◌≡◌, ◌⊎◌, arith, length, refl, sym, ap, List, [], ◌∷◌, ◌++◌, String, ltb,
  leb, false, Bool-cases, inl, inr, str_eq,
}
use yjdlagent.Text.{len, lines_of_text}
use yjdlagent.Rag.Splitting.{
  Splitting, is_empty, kept_lines, separators, total_size, part_of, overlap_of, restart, split_line,
  split_lines, last_part, nothing_split, split_content,
}

-- The end of the part before a part, which is put before its first line.
pub data Before : Type 0 where
  start : Before
  after : String → Before

-- the first line of a group and what stands before it
abbrev pub opening : ℕ → Before → String → List String
opening overlap_chars start line = line ∷ []
opening overlap_chars (after part) line = restart (overlap_of overlap_chars part) line

-- `Grouped n b lines parts`: the lines are cut into groups that are not empty, in order, and each
-- part is made of one group, behind the last `n` characters of the part before it.
pub data Grouped (overlap_chars : ℕ) : Before → List String → List String → Type 0 where
  nothing : (b : Before) → Grouped overlap_chars b [] []
  group :
      (b : Before) (line : String) (more rest parts : List String)
      → Grouped overlap_chars (after (part_of (opening overlap_chars b line ++ more))) rest parts
      → Grouped overlap_chars b
          (line ∷ more ++ rest)
          (part_of (opening overlap_chars b line ++ more) ∷ parts)

restart-full :
    (overlap line : String) (more : List String) → is_empty (restart overlap line ++ more) ≡ false
restart-full overlap line more = elim (Bool-cases (str_eq overlap "")) [
  | inl e ↦ rw e refl
  | inr e ↦ rw e refl
]

opening-full :
    (n : ℕ) (b : Before) (line : String) (more : List String)
    → is_empty (opening n b line ++ more) ≡ false
opening-full n start line more = refl
opening-full n (after part) line more = restart-full (overlap_of n part) line more

Grouped-cut :
    (n : ℕ) (b : Before) (line l : String) (more current ls added : List String)
    → current ≡ opening n b line ++ more
    → Grouped n (after (part_of current)) (l ∷ ls) added
    → Grouped n b (line ∷ more ++ l ∷ ls) (part_of current ∷ added)
Grouped-cut n b line l more current ls added e g =
    rw e (group b line more (l ∷ ls) added (rw e at g))

module _ (max_chars overlap_chars : ℕ) where
  abbrev size_with : String → Splitting → ℕ
  size_with l s = s.current_size + (len l + separators s.current)

  abbrev cut : String → Splitting → Splitting
  cut l s =
      let current = restart (overlap_of overlap_chars (part_of s.current)) l in
      record {
        parts = s.parts ++ part_of s.current ∷ [];
        current = current;
        current_size = total_size current + length current - 1;
      }

  abbrev kept : String → Splitting → Splitting
  kept l s = record { parts = s.parts; current = s.current ++ l ∷ []; current_size = size_with l s }

  -- A line either begins a group or continues the one before.
  split_line-cases :
      (l : String) (s : Splitting)
      → is_empty s.current ≡ false
      → (split_line max_chars overlap_chars l s ≡ cut l s)
        ⊎ (split_line max_chars overlap_chars l s ≡ kept l s)
  unfolding split_line
  split_line-cases l s full = elim (Bool-cases (ltb max_chars (size_with l s))) [
    | inl t ↦ inl (rw (full, t) refl)
    | inr n ↦ inr (rw (full, n) refl)
  ]

  -- What the loop adds to its parts, from a state whose `current` is the group that has begun.
  split_lines-Grouped :
      (ls : List String) (b : Before) (line : String) (more : List String) (s : Splitting)
      → s.current ≡ opening overlap_chars b line ++ more
      → (added : List String) × (last_part (split_lines max_chars overlap_chars ls s)
          ≡ s.parts ++ added)
        × Grouped overlap_chars b (line ∷ more ++ ls) added
  unfolding split_lines last_part
  split_lines-Grouped [] b line more s e = (
    part_of (opening overlap_chars b line ++ more) ∷ [],
    rw (e, opening-full overlap_chars b line more) refl,
    group b line more [] [] (nothing _),
  )
  split_lines-Grouped (l ∷ ls) b line more s e =
      let end_of : Splitting → List String =
        λ x. last_part (split_lines max_chars overlap_chars ls x) in
      elim (split_line-cases l s (rw e (opening-full overlap_chars b line more))) [
        | inl t ↦
            let (added, eq, g) =
              split_lines-Grouped ls (after (part_of s.current)) l [] (cut l s)
                (sym (append-nil _)) in
            (
              part_of s.current ∷ added,
              ap end_of t ∙ (eq ∙ append_assoc s.parts (part_of s.current ∷ []) added),
              Grouped-cut overlap_chars b line l more s.current ls added e g,
            )
        | inr n ↦
            let (added, eq, g) = split_lines-Grouped ls b line (more ++ l ∷ []) (kept l s) (
              ap (λ c. c ++ l ∷ []) e
              ∙ append_assoc (opening overlap_chars b line) more (l ∷ [])) in
            (added, ap end_of n ∙ eq, rw (append_assoc more (l ∷ []) ls) at g)
      ]

  all_lines-Grouped :
      (ls : List String)
      → Grouped overlap_chars start ls
          (last_part (split_lines max_chars overlap_chars ls nothing_split))
  unfolding split_lines last_part split_line
  all_lines-Grouped [] = nothing start
  all_lines-Grouped (l ∷ ls) =
      let (added, eq, g) = split_lines-Grouped ls start l [] (kept l nothing_split) refl in rw eq g

  -- A text of more than `max_chars` characters is cut at its lines only: the lines that are kept
  -- are divided, in order and without a gap, into groups of at least one line, and each part is one
  -- group, joined, behind the last `overlap_chars` characters of the part before it.
  pub split_content-Grouped :
      (text : String)
      → max_chars < len text
      → Grouped overlap_chars start
          (kept_lines (lines_of_text text))
          (split_content text max_chars overlap_chars)
  unfolding split_content
  split_content-Grouped text h =
      let long : leb (len text) max_chars ≡ false = ground arith in
      rw long (all_lines-Grouped (kept_lines (lines_of_text text)))
