-- ===== src/Workflow/References/Selection.antt =====
-- app/agent/workflow.py, `concise_rag_result_answer`: which references it chooses.
use yjdlagent.Prelude.{
  ◌≡◌, ◌⊎◌, refl, eq_iff, ◌≤◌, ℕ, suc, true, false, List, [], ◌∷◌, ◌++◌, String, ◌==◌, Bool-cases,
  inl, inr, All, length, length-append, arith,
}
use yjdlagent.Json.{Json}
use yjdlagent.Errors.{ok}
use yjdlagent.Python.{ℤ, pos, negsuc, Numbers, Ensures, Ensures-bind, Ensures-map, Ensures-refl}
use yjdlagent.Workflow.Candidates.{same_key}
use yjdlagent.Workflow.References.{
  Place, same_texts, same_place, Reference, is_seen, place_of, choose,
}

-- No reference is at the place of an earlier one.
abbrev pub Distinct : List Reference → Type 0
Distinct [] = Unit
Distinct (r ∷ rs) = All (λ (q : Reference). same_place r.1 q.1 ≡ false) rs × Distinct rs

same_texts_refl : (ss : List String) → same_texts ss ss ≡ true
same_texts_refl [] = refl
same_texts_refl (s ∷ ss) = rw ((eq_iff s s).1 refl, same_texts_refl ss)

same_key_refl : (k : ℤ) → same_key k k ≡ true
same_key_refl (pos n) = ground arith
same_key_refl (negsuc n) = ground arith

same_place_refl : (p : Place) → same_place p p ≡ true
same_place_refl p = rw (
  (eq_iff p.title p.title).1 refl,
  same_texts_refl p.section_path,
  same_key_refl p.page_start,
  same_key_refl p.page_end,
)

is_seen-append :
    (p : Place) (rs qs : List Reference) → is_seen p rs ≡ true → is_seen p (rs ++ qs) ≡ true
is_seen-append p [] qs h = absurd (cc)
is_seen-append p ((o, q) ∷ rs) qs h = elim (Bool-cases (same_place q p)) [
  | inl e ↦ rw e
  | inr e ↦ let later : is_seen p rs ≡ true = rw e at h in rw e (is_seen-append p rs qs later)
]

is_seen-last : (p : Place) (o : ℕ) (rs : List Reference) → is_seen p (rs ++ (o, p) ∷ []) ≡ true
is_seen-last p o [] = rw (same_place_refl p)
is_seen-last p o ((n, q) ∷ rs) = elim (Bool-cases (same_place q p)) [
  | inl e ↦ rw e
  | inr e ↦ rw e (is_seen-last p o rs)
]

All-snoc {ℓ} :
    {A : Type 0} (P : A → Type ℓ) (xs : List A) (x : A) → All P xs → P x → All P (xs ++ x ∷ [])
All-snoc P [] x h k = (k, tt)
All-snoc P (y ∷ ys) x h k = (h.0, All-snoc P ys x h.1 k)

Distinct-snoc :
    (o : ℕ) (p : Place) (rs : List Reference)
    → is_seen p rs ≡ false
    → Distinct rs
    → Distinct (rs ++ (o, p) ∷ [])
Distinct-snoc o p [] h d = (tt, tt)
Distinct-snoc o p ((n, q) ∷ rs) h d = elim (Bool-cases (same_place q p)) [
  | inl e ↦ let bad : true ≡ false = rw e at h in absurd (cc)
  | inr e ↦
      let later : is_seen p rs ≡ false = rw e at h in
      (
        All-snoc (λ (r : Reference). same_place q r.1 ≡ false) rs (o, p) d.0 e,
        Distinct-snoc o p rs later d.1,
      )
]

module _ (py : Numbers) where
  -- The place of a result is among the references.
  pub record IsCovered (rs : List Reference) (x : Json) : Type 0 where
    pub place : Place
    pub read : place_of py x ≡ ok place
    pub seen : is_seen place rs ≡ true

  -- What the loop gives for the results `xs`, after the references `before`.
  pub record IsSelection (before : List Reference) (xs : List Json) (rs : List Reference)
      : Type 0 where
    pub few : length rs ≤ 3
    pub distinct : Distinct rs
    pub complete : (length rs ≡ 3) ⊎ All (IsCovered rs) xs
    pub kept : (p : Place) → is_seen p before ≡ true → is_seen p rs ≡ true

  covers :
      (seen : List Reference) (x : Json) (xs : List Json) (rs : List Reference) (p : Place)
      → place_of py x ≡ ok p
      → IsSelection seen xs rs
      → is_seen p rs ≡ true
      → (length rs ≡ 3) ⊎ All (IsCovered rs) (x ∷ xs)
  covers seen x xs rs p e h k = elim h.complete [
    | inl three ↦ inl three
    | inr all ↦ inr (record { place = p; read = e; seen = k }, all)
  ]

  short :
      (o : ℕ) (p : Place) (rs : List Reference)
      → length rs ≤ 2
      → (length (rs ++ (o, p) ∷ []) == 3) ≡ false
      → length (rs ++ (o, p) ∷ []) ≤ 2
  short o p rs n l = ground (arith, length-append rs ((o, p) ∷ []))

  choose-IsSelection :
      (ordinal : ℕ) (seen : List Reference) (xs : List Json)
      → length seen ≤ 2
      → Distinct seen
      → Ensures (IsSelection seen xs) (choose py ordinal seen xs)
  unfolding choose
  choose-IsSelection ordinal seen [] n d = record {
    few = omega arith;
    distinct = d;
    complete = inr tt;
    kept = λ p h. h;
  }
  choose-IsSelection ordinal seen (x ∷ xs) n d =
      Ensures-bind (λ p. place_of py x ≡ ok p) (IsSelection seen (x ∷ xs)) (place_of py x) _
        (Ensures-refl (place_of py x))
        (λ p e. elim (Bool-cases (is_seen p seen)) [
          | inl s ↦ rw s (
              Ensures-map (IsSelection seen xs) (IsSelection seen (x ∷ xs))
                (choose py (suc ordinal) seen xs)
                (λ rs h. record {
                  few = h.few;
                  distinct = h.distinct;
                  complete = covers seen x xs rs p e h (h.kept p s);
                  kept = h.kept;
                })
                (choose-IsSelection (suc ordinal) seen xs n d))
          | inr s ↦ elim (Bool-cases (length (seen ++ (ordinal, p) ∷ []) == 3)) [
            | inl l ↦
                rw (s, l)
                  (record {
                    few = ground (arith, l);
                    distinct = Distinct-snoc ordinal p seen s d;
                    complete = inl (ground (arith, l));
                    kept = λ q h. is_seen-append q seen ((ordinal, p) ∷ []) h;
                  })
            | inr l ↦
                rw (s, l)
                  (Ensures-map (IsSelection (seen ++ (ordinal, p) ∷ []) xs)
                    (IsSelection seen (x ∷ xs))
                    (choose py (suc ordinal) (seen ++ (ordinal, p) ∷ []) xs)
                    (λ rs h. record {
                      few = h.few;
                      distinct = h.distinct;
                      complete =
                          covers (seen ++ (ordinal, p) ∷ []) x xs rs p e h
                            (h.kept p (is_seen-last p ordinal seen));
                      kept = λ q k. h.kept q (is_seen-append q seen ((ordinal, p) ∷ []) k);
                    })
                    (choose-IsSelection (suc ordinal) (seen ++ (ordinal, p) ∷ []) xs
                      (short ordinal p seen n l) (Distinct-snoc ordinal p seen s d)))
          ]
        ])

  -- Of any results the loop of `concise_rag_result_answer` chooses at most three references, no two at one place; with fewer than three the place of every result is among them.
  pub choose-results :
      (results : List Json) → Ensures (IsSelection [] results) (choose py 1 [] results)
  choose-results results = choose-IsSelection 1 [] results (omega arith) tt
