-- ===== src/Text/Lengths.antt =====
-- How long the texts are that the functions of Text make.
use Prim.Native.Char.{Char, code}
use Prim.Native.String.{◌++◌ as cat}
use Prim.Native.String.append
use yjdlagent.Prelude.{
  ℕ, zero, suc, ◌+◌, ◌-◌, ◌≤◌, ◌≡◌, List, [], ◌∷◌, ◌++◌, String, arith, Bool-cases, inl, inr,
}
use yjdlagent.Text.{
  len, is_space, lstrip, rstrip, strip, before_stripped, slice_from, slice_to, last_chars, join,
}

pub len-cat : (s t : String) → len (cat s t) ≡ len s + len t
unfolding len
len-cat String.[] t = rw append.nil omega arith
len-cat (String.◌∷◌ c s) t = rw append.cons omega (arith, len-cat s t)

len-lstrip : (s : String) → len (lstrip s) ≤ len s
unfolding lstrip len
len-lstrip String.[] = omega arith
len-lstrip (String.◌∷◌ c s) = ground (arith, len-lstrip s)

len-before_stripped : (c : Char) (s : String) → len (before_stripped c s) ≤ suc (len s)
unfolding len
len-before_stripped c String.[] = elim (Bool-cases (is_space (code c))) [
  | inl e ↦ rw e omega arith
  | inr e ↦ rw e omega arith
]
len-before_stripped c (String.◌∷◌ d s) = omega arith

len-rstrip : (s : String) → len (rstrip s) ≤ len s
unfolding rstrip len
len-rstrip String.[] = omega arith
len-rstrip (String.◌∷◌ c s) = omega (arith, len-rstrip s, len-before_stripped c (rstrip s))

pub len-strip : (s : String) → len (strip s) ≤ len s
unfolding strip
len-strip s = omega (arith, len-rstrip (lstrip s), len-lstrip s)

pub len-slice_from : (n : ℕ) (s : String) → len (slice_from n s) ≡ len s - n
unfolding slice_from len
len-slice_from zero s = omega arith
len-slice_from (suc n) String.[] = omega arith
len-slice_from (suc n) (String.◌∷◌ c s) = omega (arith, len-slice_from n s)

pub len-slice_to : (n : ℕ) (s : String) → len (slice_to n s) ≤ n
unfolding slice_to len
len-slice_to zero s = omega arith
len-slice_to (suc n) String.[] = omega arith
len-slice_to (suc n) (String.◌∷◌ c s) = omega (arith, len-slice_to n s)

pub len-last_chars : (n : ℕ) (s : String) → len (last_chars n s) ≤ n
unfolding last_chars
len-last_chars n s = omega (arith, len-slice_from (len s - n) s)

-- One more text at the end of a joined list that is not empty.
pub len-join :
    (separator s t : String) (ss : List String)
    → len (join separator ((s ∷ ss) ++ t ∷ []))
      ≡ len (join separator (s ∷ ss)) + len separator + len t
unfolding join
len-join separator s t [] =
    let outer : len (cat s (cat separator t)) ≡ len s + len (cat separator t) =
      len-cat s (cat separator t) in
    omega (arith, len-cat separator t)
len-join separator s t (u ∷ ss) =
    let outer = len-cat s (cat separator (join separator ((u ∷ ss) ++ t ∷ []))) in
    let outer' = len-cat s (cat separator (join separator (u ∷ ss))) in
    omega (
      arith,
      len-cat separator (join separator ((u ∷ ss) ++ t ∷ [])),
      len-cat separator (join separator (u ∷ ss)),
      len-join separator u t ss,
    )
