-- ===== src/Runtime/Answer.antt =====
-- app/agent/runtime.py: an answer is sent as `answer.delta` events of at most 80 characters.
use Prim.Native.String.{◌++◌ as cat}
use Prim.Native.String.append
use yjdlagent.Prelude.{
  ◌∙◌, ℕ, zero, suc, ◌≤◌, ◌<◌, ◌≡◌, refl, ap, List, [], ◌∷◌, String, All, arith,
}
use yjdlagent.Text.{slice_to, slice_from, len}
use yjdlagent.Text.Lengths.{len-slice_from, len-slice_to}

-- `for offset in range(0, len(answer), 80)`, with the part of the answer from the offset on
unfoldable pub pieces_from : ℕ → String → List String
unfolding slice_to slice_from
pieces_from zero rest = []
pieces_from (suc fuel) String.[] = []
pieces_from (suc fuel) (String.◌∷◌ c s) =
    slice_to 80 (String.◌∷◌ c s) ∷ pieces_from fuel (slice_from 80 (String.◌∷◌ c s))

-- As many rounds as the answer has characters are enough.
unfoldable pub pieces : String → List String
unfolding pieces_from len
pieces answer = pieces_from (len answer) answer

abbrev pub joined : List String → String
joined [] = String.[]
joined (p ∷ ps) = cat p (joined ps)

cat-slices : (n : ℕ) (s : String) → cat (slice_to n s) (slice_from n s) ≡ s
unfolding slice_to slice_from
cat-slices zero s = append.nil s
cat-slices (suc n) String.[] = append.nil String.[]
cat-slices (suc n) (String.◌∷◌ c s) =
    append.cons c (slice_to n s) (slice_from n s) ∙ ap (String.◌∷◌ c) (cat-slices n s)

joined-pieces_from : (fuel : ℕ) (s : String) → len s ≤ fuel → joined (pieces_from fuel s) ≡ s
unfolding pieces_from len
joined-pieces_from zero String.[] h = refl
joined-pieces_from zero (String.◌∷◌ c s) h = absurd (omega arith)
joined-pieces_from (suc fuel) String.[] h = refl
joined-pieces_from (suc fuel) (String.◌∷◌ c s) h =
    let rest = slice_from 80 (String.◌∷◌ c s) in
    let ih : joined (pieces_from fuel rest) ≡ rest =
      joined-pieces_from fuel rest (omega (arith, len-slice_from 79 s)) in
    ap (cat (slice_to 80 (String.◌∷◌ c s))) ih ∙ cat-slices 80 (String.◌∷◌ c s)

All-pieces_from :
    (fuel : ℕ) (s : String) → All (λ p. (0 < len p) × (len p ≤ 80)) (pieces_from fuel s)
unfolding pieces_from
All-pieces_from zero s = tt
All-pieces_from (suc fuel) String.[] = tt
All-pieces_from (suc fuel) (String.◌∷◌ c s) = (
  (unfold len slice_to in omega arith, len-slice_to 80 (String.◌∷◌ c s)),
  All-pieces_from fuel (slice_from 80 (String.◌∷◌ c s)),
)

-- The pieces of an answer, joined in order, are the answer, and each has 1 to 80 characters.
pub joined-pieces :
    (answer : String)
    → (joined (pieces answer) ≡ answer) × All (λ p. (0 < len p) × (len p ≤ 80)) (pieces answer)
unfolding pieces
joined-pieces answer =
    (joined-pieces_from (len answer) answer (omega arith), All-pieces_from (len answer) answer)
