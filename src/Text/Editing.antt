-- ===== src/Text/Editing.antt =====
-- Python's `str.replace` and `str.rstrip(chars)`, by code points.
use Prim.Native.Char.{Char, code}
use Prim.Native.String.{◌++◌ as cat}
use yjdlagent.Prelude.{◌≡◌, refl, ◌-◌, ℕ, zero, suc, Bool, true, false, String, ◌==◌, if◌then◌else◌}
use yjdlagent.Text.{len, starts_with}

-- The text behind the next `skip` characters, with `old` replaced, for an `old` that is not empty.
unfoldable pub replace_after : String → String → ℕ → String → String
unfolding starts_with len
replace_after old new skip String.[] = String.[]
replace_after old new (suc skip) (String.◌∷◌ c s) = replace_after old new skip s
replace_after old new zero (String.◌∷◌ c s) =
    let replaced = cat new (replace_after old new (len old - 1) s) in
    let same = String.◌∷◌ c (replace_after old new zero s) in
    if starts_with old (String.◌∷◌ c s) then replaced else same

-- text.replace(old, new)
unfoldable pub replace : String → String → String → String
unfolding replace_after
replace old new text = replace_after old new 0 text

abbrev has_char : ℕ → String → Bool
has_char n String.[] = false
has_char n (String.◌∷◌ c s) = if code c == n then true else has_char n s

abbrev before_end : String → Char → String → String
before_end chars c String.[] = if has_char (code c) chars then String.[] else String.◌∷◌ c String.[]
before_end chars c (String.◌∷◌ d s) = String.◌∷◌ c (String.◌∷◌ d s)

-- text.rstrip(chars)
unfoldable pub rstrip_chars : String → String → String
rstrip_chars chars String.[] = String.[]
rstrip_chars chars (String.◌∷◌ c s) = before_end chars c (rstrip_chars chars s)

replaces : replace "ab" "x" "aabab-a" ≡ "axx-a"
unfolding replace
replaces = refl

strips_end : rstrip_chars "，,。 " "附近呢， 。" ≡ "附近呢"
unfolding rstrip_chars
strips_end = refl
