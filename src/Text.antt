-- ===== src/Text.antt =====
-- Python's operations on texts that the program uses, by code points: `strip`, slices, `in`, `join`,
-- `splitlines`. Lengths has how long their results are.
pub mod Lengths
pub mod Editing
use Prim.Native.Char.{Char, code}
use Prim.Native.String.{◌++◌ as cat}
use yjdlagent.Prelude.{
  ◌-◌, List, [], ◌∷◌, true, false, ℕ, zero, suc, Bool, String, leb, ◌==◌, ◌&&◌, ◌||◌, if◌then◌else◌,
}

-- `chr(c).isspace()`
unfoldable pub is_space : ℕ → Bool
is_space c =
    leb 9 c && leb c 13
    || leb 28 c && leb c 32
    || c == 0x85
    || c == 0xa0
    || c == 0x1680
    || leb 0x2000 c && leb c 0x200a
    || c == 0x2028
    || c == 0x2029
    || c == 0x202f
    || c == 0x205f
    || c == 0x3000

unfoldable pub lstrip : String → String
unfolding is_space
lstrip String.[] = String.[]
lstrip (String.◌∷◌ c s) = if is_space (code c) then lstrip s else String.◌∷◌ c s

-- puts `c` before a text that has been stripped at its end
abbrev pub before_stripped : Char → String → String
before_stripped c String.[] = if is_space (code c) then String.[] else String.◌∷◌ c String.[]
before_stripped c (String.◌∷◌ d s) = String.◌∷◌ c (String.◌∷◌ d s)

unfoldable pub rstrip : String → String
unfolding is_space
rstrip String.[] = String.[]
rstrip (String.◌∷◌ c s) = before_stripped c (rstrip s)

unfoldable pub strip : String → String
unfolding lstrip rstrip
strip s = rstrip (lstrip s)

-- text[:n]
unfoldable pub slice_to : ℕ → String → String
slice_to zero s = String.[]
slice_to (suc n) String.[] = String.[]
slice_to (suc n) (String.◌∷◌ c s) = String.◌∷◌ c (slice_to n s)

-- text[n:]
unfoldable pub slice_from : ℕ → String → String
slice_from zero s = s
slice_from (suc n) String.[] = String.[]
slice_from (suc n) (String.◌∷◌ c s) = slice_from n s

-- len(text)
unfoldable pub len : String → ℕ
len String.[] = 0
len (String.◌∷◌ c s) = suc (len s)

-- text.startswith(prefix)
unfoldable pub starts_with : String → String → Bool
starts_with String.[] text = true
starts_with (String.◌∷◌ c p) String.[] = false
starts_with (String.◌∷◌ c p) (String.◌∷◌ d t) = code c == code d && starts_with p t

-- term in text
unfoldable pub is_in : String → String → Bool
unfolding starts_with
is_in term String.[] = starts_with term String.[]
is_in term (String.◌∷◌ c t) =
    let rest = is_in term t in if starts_with term (String.◌∷◌ c t) then true else rest

-- separator.join(texts)
unfoldable pub join : String → List String → String
join separator [] = String.[]
join separator (s ∷ []) = s
join separator (s ∷ t ∷ ts) = cat s (cat separator (join separator (t ∷ ts)))

-- text[-n:], for n > 0
unfoldable pub last_chars : ℕ → String → String
unfolding slice_from len
last_chars n s = slice_from (len s - n) s

abbrev is_line_end : ℕ → Bool
is_line_end c =
    leb 10 c && leb c 13 || leb 28 c && leb c 30 || c == 0x85 || c == 0x2028 || c == 0x2029

abbrev starts_with_newline : String → Bool
starts_with_newline String.[] = false
starts_with_newline (String.◌∷◌ c s) = code c == 10

-- puts a character before the first line
abbrev before_first : Char → List String → List String
before_first c [] = String.◌∷◌ c String.[] ∷ []
before_first c (l ∷ ls) = String.◌∷◌ c l ∷ ls

-- text.splitlines(), where "\r\n" is one end of a line
unfoldable pub lines_of_text : String → List String
lines_of_text String.[] = []
lines_of_text (String.◌∷◌ c s) =
    let rest = lines_of_text s in
    if is_line_end (code c)
    then if code c == 13 && starts_with_newline s then rest else String.[] ∷ rest
    else before_first c rest
