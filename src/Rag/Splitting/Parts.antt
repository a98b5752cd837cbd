-- ===== src/Rag/Splitting/Parts.antt =====
-- app/rag/chunking.py, `_split_content`: how long the parts are.
use Prim.Native.String.{◌++◌ as cat}
use yjdlagent.Prelude.{
  ℕ, suc, ◌+◌, ◌-◌, ◌≤◌, ◌≡◌, ◌⊎◌, refl, List, [], ◌∷◌, ◌++◌, String, All, All-append, arith, ltb,
  leb, true, Bool-cases, inl, inr, ◌==◌, str_eq, length,
}
use yjdlagent.Text.{len, join, strip, lines_of_text}
use yjdlagent.Text.Lengths.{len-cat, len-join, len-strip, len-last_chars}
use yjdlagent.Rag.Splitting.{
  Splitting, newline, is_empty, kept_lines, separators, part_of, overlap_of, restart, total_size,
  split_line, split_lines, last_part, nothing_split, split_content,
}

-- What holds of the variables of the loop: `current_size` is the length of the lines of `current`
-- when they are joined, and neither it nor a part is longer than `bound`.
record Within (bound : ℕ) (s : Splitting) : Type 0 where
  counted : len (join newline s.current) ≡ s.current_size
  fits : s.current_size ≤ bound
  short : All (λ p. len p ≤ bound) s.parts

len-part_of : (current : List String) → len (part_of current) ≤ len (join newline current)
unfolding part_of
len-part_of current = len-strip (join newline current)

len-overlap_of : (n : ℕ) (part : String) → len (overlap_of n part) ≤ n
unfolding overlap_of len
len-overlap_of n part = elim (Bool-cases (n == 0)) [
  | inl e ↦ rw e omega arith
  | inr e ↦ rw e (len-last_chars n part)
]

len-append_line :
    (current : List String) (line : String)
    → len (join newline (current ++ line ∷ []))
      ≡ len (join newline current) + (len line + separators current)
unfolding join len
len-append_line [] line = omega arith
len-append_line (c ∷ cs) line = omega (arith, len-join newline c line cs)

len-pair :
    (overlap line : String)
    → len (join newline (overlap ∷ line ∷ [])) ≡ len overlap + suc (len line)
unfolding join len
len-pair overlap line =
    let inner : len (cat newline line) ≡ len newline + len line = len-cat newline line in
    omega (arith, len-cat overlap (cat newline line))

len-restart :
    (overlap line : String)
    → (len (join newline (restart overlap line))
        ≡ total_size (restart overlap line) + length (restart overlap line) - 1)
      × (len (join newline (restart overlap line)) ≤ len overlap + suc (len line))
unfolding join
len-restart overlap line = elim (Bool-cases (str_eq overlap "")) [
  | inl e ↦ rw e (omega arith, omega arith)
  | inr e ↦ rw e (omega (arith, len-pair overlap line), omega (arith, len-pair overlap line))
]

len-empty :
    (current : List String)
    → is_empty current ≡ true
    → len (join newline current) + separators current ≡ 0
unfolding join len
len-empty [] e = omega arith
len-empty (c ∷ cs) e = cc

module _ (max_chars overlap_chars bound longest : ℕ) (wide : max_chars ≤ bound)
    (room : overlap_chars + suc longest ≤ bound) where
  append_line-Within :
      (line : String) (s : Splitting)
      → len line ≤ longest
      → (is_empty s.current ≡ true)
        ⊎ (s.current_size + (len line + separators s.current) ≤ max_chars)
      → Within bound s
      → Within bound (record {
        parts = s.parts;
        current = s.current ++ line ∷ [];
        current_size = s.current_size + (len line + separators s.current);
      })
  append_line-Within line s l fit w = record {
    counted = omega (arith, len-append_line s.current line, w.counted);
    fits = elim fit [
      | inl e ↦ omega (arith, len-empty s.current e, w.counted)
      | inr f ↦ omega arith
    ];
    short = w.short;
  }

  restart-Within :
      (line : String) (s : Splitting)
      → len line ≤ longest
      → Within bound s
      → Within bound (record {
        parts = s.parts ++ part_of s.current ∷ [];
        current = restart (overlap_of overlap_chars (part_of s.current)) line;
        current_size =
            total_size (restart (overlap_of overlap_chars (part_of s.current)) line)
            + length (restart (overlap_of overlap_chars (part_of s.current)) line)
            - 1;
      })
  restart-Within line s l w =
      let overlap = overlap_of overlap_chars (part_of s.current) in
      let sizes = len-restart overlap line in
      record {
        counted = sizes.0;
        fits = omega (arith, sizes.0, sizes.1, len-overlap_of overlap_chars (part_of s.current));
        short =
            All-append (λ p. len p ≤ bound) s.parts (part_of s.current ∷ []) w.short
              (omega (arith, len-part_of s.current, w.counted, w.fits), tt);
      }

  split_line-Within :
      (line : String) (s : Splitting)
      → len line ≤ longest
      → Within bound s
      → Within bound (split_line max_chars overlap_chars line s)
  unfolding split_line
  split_line-Within line s l w = elim (Bool-cases (is_empty s.current)) [
    | inl e ↦ rw e (append_line-Within line s l (inl e) w)
    | inr e ↦
        elim (Bool-cases (ltb max_chars (s.current_size + (len line + separators s.current)))) [
          | inl t ↦ rw (e, t) (restart-Within line s l w)
          | inr n ↦ rw (e, n) (append_line-Within line s l (inr ground arith) w)
        ]
  ]

  split_lines-Within :
      (lines : List String) (s : Splitting)
      → All (λ l. len l ≤ longest) lines
      → Within bound s
      → Within bound (split_lines max_chars overlap_chars lines s)
  unfolding split_lines
  split_lines-Within [] s h w = w
  split_lines-Within (l ∷ ls) s h w =
      split_lines-Within ls (split_line max_chars overlap_chars l s) h.1
        (split_line-Within l s h.0 w)

last_part-short :
    (bound : ℕ) (s : Splitting) → Within bound s → All (λ p. len p ≤ bound) (last_part s)
unfolding last_part
last_part-short bound s w = elim (Bool-cases (is_empty s.current)) [
  | inl e ↦ rw e w.short
  | inr e ↦ rw e (
      All-append (λ p. len p ≤ bound) s.parts (part_of s.current ∷ []) w.short
        (omega (arith, len-part_of s.current, w.counted, w.fits), tt))
]

-- If no line of the text is longer than `longest`, then no part of it is longer than `max_chars` or
-- than an overlap, the end of its line and a longest line together, whichever is more. A line is
-- never cut, and the overlap before a line is not counted against `max_chars`.
pub split_content-short :
    (text : String) (max_chars overlap_chars bound longest : ℕ)
    → max_chars ≤ bound
    → overlap_chars + suc longest ≤ bound
    → All (λ l. len l ≤ longest) (kept_lines (lines_of_text text))
    → All (λ p. len p ≤ bound) (split_content text max_chars overlap_chars)
unfolding split_content
split_content-short text max_chars overlap_chars bound longest wide room h =
    elim (Bool-cases (leb (len text) max_chars)) [
      | inl e ↦ elim (Bool-cases (str_eq (strip text) "")) [
        | inl z ↦ rw (e, z) tt
        | inr z ↦
            let l : len text ≤ max_chars = ground arith in
            rw (e, z) (omega (arith, len-strip text, l, wide), tt)
      ]
      | inr e ↦ rw e (
          last_part-short bound _ (
            split_lines-Within max_chars overlap_chars bound longest wide room
              (kept_lines (lines_of_text text)) nothing_split h
              (record { counted = unfold join len in refl; fits = omega arith; short = tt })))
    ]
