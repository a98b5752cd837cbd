-- ===== src/Workflow/Planning/Names.antt =====
-- app/agent/workflow.py, `normalize_catalog`: what the catalog holds that it lets through.
use yjdlagent.Prelude.{
  ◌≡◌, refl, ap, Bool, true, false, Option, none, some, List, [], ◌∷◌, String, ◌&&◌, All,
  Bool-cases, inl, inr, eq_iff, str_eq,
}
use yjdlagent.Json.{
  Json, Items, Fields, null, bool, num, real, text, iso, arr, obj, get_field, truthy,
}
use yjdlagent.Python.{Ensures, Ensures-map, Ensures-bind, list_of, member, str_eq-sym}
use yjdlagent.Tools.{data_of}
use yjdlagent.Workflow.Planning.{
  expected_catalog_version, v1_tool_names, is_false, is_timeout, has_schema, check_named,
  check_name, check_tool, check_tools, check_version, check_catalog, check_data, is_expected,
  normalize_catalog,
}

abbrev pub Distinct : List String → Type 0
Distinct [] = Unit
Distinct (n ∷ ns) = (member n ns ≡ false) × Distinct ns

member-cons :
    (m n : String) (seen : List String)
    → member m (n ∷ seen) ≡ false
    → (str_eq n m ≡ false) × (member m seen ≡ false)
member-cons m n seen h = elim (Bool-cases (str_eq n m)) [
  | inl e ↦ let bad : true ≡ false = rw e at h in absurd cc
  | inr e ↦ (e, rw e at h)
]

not_among :
    (n : String) (names seen : List String)
    → All (λ m. member m (n ∷ seen) ≡ false) names
    → member n names ≡ false
not_among n [] seen h = refl
not_among n (m ∷ ms) seen (x, h) =
    rw (str_eq-sym m n (member-cons m n seen x).0) (not_among n ms seen h)

still_fresh :
    (n : String) (names seen : List String)
    → All (λ m. member m (n ∷ seen) ≡ false) names
    → All (λ m. member m seen ≡ false) names
still_fresh n [] seen h = tt
still_fresh n (m ∷ ms) seen (x, h) = ((member-cons m n seen x).1, still_fresh n ms seen h)

is_expected-text : (v : Json) → is_expected v ≡ true → v ≡ text expected_catalog_version
is_expected-text (text s) e = ap (λ x. text x) ((eq_iff s expected_catalog_version).0 e)
is_expected-text null e = absurd cc
is_expected-text (bool b) e = absurd cc
is_expected-text (num n) e = absurd cc
is_expected-text (real s) e = absurd cc
is_expected-text (iso i) e = absurd cc
is_expected-text (arr xs) e = absurd cc
is_expected-text (obj fs) e = absurd cc

module _ (is_schema : Json → Bool) where
  -- A tool that the service may call, by its name.
  pub record IsTool (name : String) (tool : Fields) : Type 0 where
    pub named : get_field "name" tool ≡ some (text name)
    pub known : member name v1_tool_names ≡ true
    pub harmless : is_false (get_field "sideEffect" tool) ≡ true
    pub limited : is_timeout (get_field "timeoutMs" tool) ≡ true
    pub typed :
        (has_schema is_schema (get_field "inputSchema" tool)
          && has_schema is_schema (get_field "outputSchema" tool))
        ≡ true

  abbrev pub IsToolValue : String → Json → Type 0
  IsToolValue name (obj tool) = IsTool name tool
  IsToolValue name _ = ⊥

  -- The tools and their names, one by one.
  abbrev pub AreTools : List String → List Json → Type 0
  AreTools [] [] = Unit
  AreTools [] (t ∷ ts) = ⊥
  AreTools (n ∷ ns) [] = ⊥
  AreTools (n ∷ ns) (t ∷ ts) = IsToolValue n t × AreTools ns ts

  check_named-IsTool :
      (names : List String) (name : String) (tool : Fields)
      → get_field "name" tool ≡ some (text name)
      → Ensures
          (λ n. (member n names ≡ false) × IsTool n tool)
          (check_named is_schema names name tool)
  unfolding check_named
  check_named-IsTool names name tool e = elim (Bool-cases (member name names)) [
    | inl a ↦ rw a tt
    | inr a ↦ elim (Bool-cases (member name v1_tool_names)) [
      | inr b ↦ rw (a, b) tt
      | inl b ↦ elim (Bool-cases (is_false (get_field "sideEffect" tool))) [
        | inr c ↦ rw (a, b, c) tt
        | inl c ↦ elim (Bool-cases (is_timeout (get_field "timeoutMs" tool))) [
          | inr d ↦ rw (a, b, c, d) tt
          | inl d ↦
              elim (Bool-cases (
                has_schema is_schema (get_field "inputSchema" tool)
                && has_schema is_schema (get_field "outputSchema" tool))) [
                  | inr f ↦ rw (a, b, c, d, f) tt
                  | inl f ↦
                      rw (a, b, c, d, f)
                        (a, record { named = e; known = b; harmless = c; limited = d; typed = f })
                ]
        ]
      ]
    ]
  ]

  check_name-IsTool :
      (names : List String) (tool : Fields) (o : Option Json)
      → get_field "name" tool ≡ o
      → Ensures (λ n. (member n names ≡ false) × IsTool n tool) (check_name is_schema names tool o)
  unfolding check_name
  check_name-IsTool names tool none e = tt
  check_name-IsTool names tool (some null) e = tt
  check_name-IsTool names tool (some (bool b)) e = tt
  check_name-IsTool names tool (some (num n)) e = tt
  check_name-IsTool names tool (some (real s)) e = tt
  check_name-IsTool names tool (some (text name)) e = check_named-IsTool names name tool e
  check_name-IsTool names tool (some (iso t)) e = tt
  check_name-IsTool names tool (some (arr xs)) e = tt
  check_name-IsTool names tool (some (obj fs)) e = tt

  check_tool-IsTool :
      (names : List String) (t : Json)
      → Ensures (λ n. (member n names ≡ false) × IsToolValue n t) (check_tool is_schema names t)
  unfolding check_tool
  check_tool-IsTool names (obj tool) = check_name-IsTool names tool (get_field "name" tool) refl
  check_tool-IsTool names null = tt
  check_tool-IsTool names (bool b) = tt
  check_tool-IsTool names (num n) = tt
  check_tool-IsTool names (real s) = tt
  check_tool-IsTool names (text s) = tt
  check_tool-IsTool names (iso t) = tt
  check_tool-IsTool names (arr xs) = tt

  -- The names of the tools are new, and no two of them are the same.
  abbrev Checked : List String → List Json → Type 0
  Checked seen ts =
      (names : List String) × AreTools names ts
      × Distinct names
      × All (λ n. member n seen ≡ false) names

  Checked-cons :
      (seen : List String) (n : String) (t : Json) (ts : List Json)
      → member n seen ≡ false
      → IsToolValue n t
      → Checked (n ∷ seen) ts
      → Checked seen (t ∷ ts)
  Checked-cons seen n t ts new good (names, are, distinct, fresh) = (
    n ∷ names,
    (good, are),
    (not_among n names seen fresh, distinct),
    (new, still_fresh n names seen fresh),
  )

  check_tools-Checked :
      (seen : List String) (ts : List Json)
      → Ensures (λ _. Checked seen ts) (check_tools is_schema seen ts)
  unfolding check_tools
  check_tools-Checked seen [] = ([], tt, tt, tt)
  check_tools-Checked seen (t ∷ ts) =
      Ensures-bind (λ n. (member n seen ≡ false) × IsToolValue n t) (λ _. Checked seen (t ∷ ts))
        (check_tool is_schema seen t) _ (check_tool-IsTool seen t)
        (λ n h.
          Ensures-map (λ _. Checked (n ∷ seen) ts) (λ _. Checked seen (t ∷ ts))
            (check_tools is_schema (n ∷ seen) ts) (λ u c. Checked-cons seen n t ts h.0 h.1 c)
            (check_tools-Checked (n ∷ seen) ts))

  -- A catalog of the expected version, whose tools are known and have different names.
  pub record IsCatalog (response catalog : Fields) : Type 0 where
    pub sent : data_of response ≡ obj catalog
    pub tools : Items
    pub listed : get_field "tools" catalog ≡ some (arr tools)
    pub versioned : get_field "version" catalog ≡ some (text expected_catalog_version)
    pub names : List String
    pub good : AreTools names (list_of tools)
    pub distinct : Distinct names

  check_version-expected :
      (v : Option Json)
      → Ensures (λ _. v ≡ some (text expected_catalog_version)) (check_version is_schema v)
  unfolding check_version
  check_version-expected none = tt
  check_version-expected (some v) = elim (Bool-cases (truthy v)) [
    | inr e ↦ rw e tt
    | inl e ↦ elim (Bool-cases (is_expected v)) [
      | inl f ↦ rw (e, f) (ap (λ x. some x) (is_expected-text v f))
      | inr f ↦ rw (e, f) tt
    ]
  ]

  check_catalog-IsCatalog :
      (response catalog : Fields)
      → data_of response ≡ obj catalog
      → (o : Option Json) → get_field "tools" catalog ≡ o
      → Ensures (IsCatalog response) (check_catalog is_schema catalog o)
  check_catalog-IsCatalog response catalog e (some (arr tools)) t =
      Ensures-bind (λ _. get_field "version" catalog ≡ some (text expected_catalog_version))
        (IsCatalog response) (check_version is_schema (get_field "version" catalog)) _
        (check_version-expected (get_field "version" catalog))
        (λ u version.
          Ensures-bind (λ _. Checked [] (list_of tools)) (IsCatalog response)
            (check_tools is_schema [] (list_of tools)) _ (check_tools-Checked [] (list_of tools))
            (λ v checked. record {
              sent = e;
              tools = tools;
              listed = t;
              versioned = version;
              names = checked.0;
              good = checked.1;
              distinct = checked.2;
            }))
  check_catalog-IsCatalog response catalog e none t = tt
  check_catalog-IsCatalog response catalog e (some null) t = tt
  check_catalog-IsCatalog response catalog e (some (bool b)) t = tt
  check_catalog-IsCatalog response catalog e (some (num n)) t = tt
  check_catalog-IsCatalog response catalog e (some (real s)) t = tt
  check_catalog-IsCatalog response catalog e (some (text s)) t = tt
  check_catalog-IsCatalog response catalog e (some (iso i)) t = tt
  check_catalog-IsCatalog response catalog e (some (obj fs)) t = tt

  check_data-IsCatalog :
      (response : Fields) (d : Json)
      → data_of response ≡ d
      → Ensures (IsCatalog response) (check_data is_schema d)
  check_data-IsCatalog response (obj catalog) e =
      check_catalog-IsCatalog response catalog e (get_field "tools" catalog) refl
  check_data-IsCatalog response null e = tt
  check_data-IsCatalog response (bool b) e = tt
  check_data-IsCatalog response (num n) e = tt
  check_data-IsCatalog response (real s) e = tt
  check_data-IsCatalog response (text s) e = tt
  check_data-IsCatalog response (iso i) e = tt
  check_data-IsCatalog response (arr xs) e = tt

-- A catalog that is let through is what the service has sent, of the expected version. Its tools are
-- among the four of the first version of the contract and have different names; each has no side
-- effect, a positive time limit, and valid schemas of its arguments and its result.
pub normalize_catalog-IsCatalog :
    (is_schema : Json → Bool) (response : Fields)
    → Ensures (IsCatalog is_schema response) (normalize_catalog is_schema response)
unfolding normalize_catalog
normalize_catalog-IsCatalog is_schema response =
    check_data-IsCatalog is_schema response (data_of response) refl
