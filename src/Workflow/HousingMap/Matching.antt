-- ===== src/Workflow/HousingMap/Matching.antt =====
-- app/agent/workflow.py, `build_housing_search_map_result`: the features that the candidates and the roads are
-- shown as, and the groups that they stand in.
use mathlib.Core.List.{append_assoc, append-nil, Perm, perm_middle, perm_append_comm}
use mathlib.Core.List.Perm
use yjdlagent.Prelude.{
  ◌≡◌, ◌∙◌, refl, ◌+◌, true, Option, none, some, List, [], ◌∷◌, ◌++◌, String, Bool-cases, inl, inr,
  arith, length, length-append, str_eq,
}
use yjdlagent.Json.{Json, Fields, null, obj, end, field, dict, get_field}
use yjdlagent.Errors.{ok}
use yjdlagent.Python.{
  ℤ, Numbers, ◌>>=◌, Ensures, Ensures-any, Ensures-bind, Ensures-refl, get_of, or_default,
}
use yjdlagent.Workflow.Candidates.{
  Shown, Group, same_key, less_key, attributes_of, set_default, add_shown, insert_group,
  sort_groups, shown_count,
}
use yjdlagent.Workflow.HousingMap.{
  item_in, Role, housing_candidates, contributing_roads, is_valid, shown_as, bad_geometry, add_at,
  key_of, add_item, add_items,
}

abbrev pub all_shown : List Group → List Shown
all_shown [] = []
all_shown (g ∷ gs) = g.features ++ all_shown gs

length-all_shown : (gs : List Group) → length (all_shown gs) ≡ shown_count gs
length-all_shown [] = refl
length-all_shown (g ∷ gs) =
    omega (arith, length-append g.features (all_shown gs), length-all_shown gs)

-- A feature is added once, and none is lost.
add_shown-Perm :
    (key : ℤ) (layer_id : Json) (f : Shown) (gs : List Group)
    → Perm (all_shown (add_shown key layer_id f gs)) (f ∷ all_shown gs)
unfolding add_shown
add_shown-Perm key layer_id f [] = Perm.refl _
add_shown-Perm key layer_id f (g ∷ gs) = elim (Bool-cases (same_key g.key key)) [
  | inl same ↦ rw (same, append_assoc) (perm_middle g.features (all_shown gs))
  | inr other ↦ rw other (
      Perm.trans (Perm.append_left g.features (add_shown-Perm key layer_id f gs))
        (perm_middle g.features (all_shown gs)))
]

insert_group-Perm :
    (g : Group) (gs : List Group)
    → Perm (all_shown (insert_group g gs)) (g.features ++ all_shown gs)
insert_group-Perm g [] = Perm.refl _
insert_group-Perm g (k ∷ ks) = elim (Bool-cases (less_key k.key g.key)) [
  | inr before ↦ rw before (Perm.refl _)
  | inl after ↦
      let moved : Perm ((k.features ++ g.features) ++ all_shown ks)
          ((g.features ++ k.features) ++ all_shown ks) =
        Perm.append_right (all_shown ks) (perm_append_comm k.features g.features) in
      rw after (
        Perm.trans (Perm.append_left k.features (insert_group-Perm g ks)) (
          rw
            (
              append_assoc k.features g.features (all_shown ks),
              append_assoc g.features k.features (all_shown ks),
            )
            at moved))
]

pub sort_groups-Perm : (gs : List Group) → Perm (all_shown (sort_groups gs)) (all_shown gs)
unfolding sort_groups
sort_groups-Perm [] = Perm.refl _
sort_groups-Perm (g ∷ gs) =
    Perm.trans (insert_group-Perm g (sort_groups gs))
      (Perm.append_left g.features (sort_groups-Perm gs))

insert_group-count :
    (g : Group) (gs : List Group)
    → shown_count (insert_group g gs) ≡ length g.features + shown_count gs
insert_group-count g [] = refl
insert_group-count g (k ∷ ks) = elim (Bool-cases (less_key k.key g.key)) [
  | inr before ↦ rw before refl
  | inl after ↦ rw after (omega (arith, insert_group-count g ks))
]

sort_groups-count : (gs : List Group) → shown_count (sort_groups gs) ≡ shown_count gs
unfolding sort_groups
sort_groups-count [] = refl
sort_groups-count (g ∷ gs) =
    omega (arith, insert_group-count g (sort_groups gs), sort_groups-count gs)

pub length-sorted : (gs : List Group) → length (all_shown (sort_groups gs)) ≡ shown_count gs
length-sorted gs = length-all_shown (sort_groups gs) ∙ sort_groups-count gs

-- A value that is there is there afterwards.
abbrev pub Kept : Option Json → Option Json → Type 0
Kept none w = Unit
Kept (some v) w = w ≡ some v

Kept-refl : (v : Option Json) → Kept v v
Kept-refl none = tt
Kept-refl (some v) = refl

Kept-trans : (u v w : Option Json) → Kept u v → Kept v w → Kept u w
Kept-trans none v w h k = tt
Kept-trans (some x) v w h k = rw h at k

set_default-Kept :
    (j : String) (v : Json) (fs : Fields) (k : String)
    → Kept (get_field k fs) (get_field k (set_default j v fs))
unfolding set_default get_field
set_default-Kept j v end k = tt
set_default-Kept j v (field i w fs) k = elim (Bool-cases (str_eq i j)) [
  | inl same ↦ rw (same, set_default) (Kept-refl (get_field k (field i w fs)))
  | inr other ↦ elim (Bool-cases (str_eq i k)) [
    | inl here ↦ rw (other, set_default, here, get_field) refl
    | inr there ↦ rw (other, set_default, there, get_field) (set_default-Kept j v fs k)
  ]
]

-- The key of the id of an item.
abbrev pub id_key : Role → String
id_key housing_candidates = "housingId"
id_key contributing_roads = "roadId"

-- A candidate keeps all its attributes beside what is added, a road has its own.
abbrev pub KeepsAttributes : Role → Json → Json → Type 0
KeepsAttributes housing_candidates item out =
    (given full : Fields) × ((get_of "attributes" item >>= attributes_of) ≡ ok given)
    × (out ≡ obj full)
    × ((k : String) → Kept (get_field k given) (get_field k full))
KeepsAttributes contributing_roads item out =
    (get_of "attributes" item >>= λ a. ok (or_default (dict []) a)) ≡ ok out

module _ (py : Numbers) (whole : String → Option ℤ) where
  -- The feature shows the item: its id, its geometry, which the test of the role has taken, and its
  -- attributes.
  pub record ShowsItem (role : Role) (item : Json) (f : Shown) : Type 0 where
    pub id : item_in (id_key role) item ≡ ok f.id
    pub geometry : (get_of "geometry" item >>= λ g. ok (or_default null g)) ≡ ok f.geometry
    pub valid : is_valid py whole role f.geometry ≡ true
    pub attributes : KeepsAttributes role item f.attributes

  -- The features show the items one by one.
  abbrev pub ShowItems : Role → List Json → List Shown → Type 0
  ShowItems role [] [] = Unit
  ShowItems role (x ∷ xs) (f ∷ fs) = ShowsItem role x f × ShowItems role xs fs
  ShowItems role _ _ = ⊥

  ShowItems-snoc :
      (role : Role) (xs : List Json) (fs : List Shown) (x : Json) (f : Shown)
      → ShowItems role xs fs
      → ShowsItem role x f
      → ShowItems role (xs ++ x ∷ []) (fs ++ f ∷ [])
  ShowItems-snoc role [] [] x f h k = (k, tt)
  ShowItems-snoc role [] (g ∷ fs) x f h k = absurd h
  ShowItems-snoc role (y ∷ xs) [] x f h k = absurd h
  ShowItems-snoc role (y ∷ xs) (g ∷ fs) x f h k = (h.0, ShowItems-snoc role xs fs x f h.1 k)

  -- The groups hold the features of these items, and no others.
  abbrev pub Held : Role → List Json → List Group → Type 0
  Held role xs gs = (fs : List Shown) × ShowItems role xs fs × Perm (all_shown gs) fs

  shown_as-ShowsItem :
      (role : Role) (item geometry : Json)
      → (get_of "geometry" item >>= λ g. ok (or_default null g)) ≡ ok geometry
      → is_valid py whole role geometry ≡ true
      → Ensures (ShowsItem role item) (shown_as py whole role item geometry)
  shown_as-ShowsItem housing_candidates item geometry located v =
      let P = ShowsItem housing_candidates item in
      let attributes_in = get_of "attributes" item >>= attributes_of in
      Ensures-bind (λ a. attributes_in ≡ ok a) P attributes_in _ (Ensures-refl attributes_in)
        (λ given e. Ensures-any P (get_of "scores" item) _ (λ scores.
          Ensures-any P (get_of "spatialEvidence" item) _ (λ evidence.
            Ensures-any P (get_of "reasons" item) _ (λ reasons.
              Ensures-any P (get_of "warnings" item) _ (λ warnings.
                Ensures-bind (λ i. item_in "housingId" item ≡ ok i) P (item_in "housingId" item) _
                  (Ensures-refl (item_in "housingId" item))
                  (λ i h. record {
                    id = h;
                    geometry = located;
                    valid = v;
                    attributes = (
                      given,
                      _,
                      e,
                      refl,
                      λ k.
                          Kept-trans (get_field k given) _ _ (set_default-Kept "scores" _ given k) (
                            Kept-trans _ _ _ (set_default-Kept "spatialEvidence" _ _ k) (
                              Kept-trans _ _ _ (set_default-Kept "reasons" _ _ k)
                                (set_default-Kept "warnings" _ _ k))),
                    );
                  }))))))
  shown_as-ShowsItem contributing_roads item geometry located v =
      let P = ShowsItem contributing_roads item in
      Ensures-bind (λ i. item_in "roadId" item ≡ ok i) P (item_in "roadId" item) _
        (Ensures-refl (item_in "roadId" item))
        (λ i h.
          Ensures-bind (λ a. get_of "attributes" item ≡ ok a) P (get_of "attributes" item) _
            (Ensures-refl (get_of "attributes" item))
            (λ a e. record { id = h; geometry = located; valid = v; attributes = rw e refl }))

  add_shown-Held :
      (role : Role) (xs : List Json) (gs : List Group) (key : ℤ) (layer_id item : Json) (f : Shown)
      → Held role xs gs
      → ShowsItem role item f
      → Held role (xs ++ item ∷ []) (add_shown key layer_id f gs)
  add_shown-Held role xs gs key layer_id item f (fs, shown, same) k =
      let behind : Perm (f ∷ fs) (fs ++ f ∷ []) =
        Perm.symm (rw append-nil at (perm_middle {a = f} fs [])) in
      (
        fs ++ f ∷ [],
        ShowItems-snoc role xs fs item f shown k,
        Perm.trans (add_shown-Perm key layer_id f gs) (Perm.trans (Perm.cons f same) behind),
      )

  add_at-Held :
      (role : Role) (xs : List Json) (layer_id geometry item : Json) (gs : List Group)
      (key : Option ℤ)
      → (get_of "geometry" item >>= λ g. ok (or_default null g)) ≡ ok geometry
      → is_valid py whole role geometry ≡ true
      → Held role xs gs
      → Ensures (Held role (xs ++ item ∷ [])) (add_at py whole role layer_id geometry gs item key)
  add_at-Held housing_candidates xs layer_id geometry item gs none e v h = tt
  add_at-Held contributing_roads xs layer_id geometry item gs none e v h = tt
  add_at-Held role xs layer_id geometry item gs (some key) e v h =
      Ensures-bind (ShowsItem role item) (Held role (xs ++ item ∷ []))
        (shown_as py whole role item geometry) _ (shown_as-ShowsItem role item geometry e v)
        (λ f k. add_shown-Held role xs gs key layer_id item f h k)

  refused : (role : Role) (Q : List Group → Type 0) → Ensures Q (bad_geometry py whole role)
  refused housing_candidates Q = tt
  refused contributing_roads Q = tt

  add_item-Held :
      (role : Role) (xs : List Json) (gs : List Group) (item : Json)
      → Held role xs gs
      → Ensures (Held role (xs ++ item ∷ [])) (add_item py whole role gs item)
  unfolding add_item
  add_item-Held role xs gs item h =
      let P = Held role (xs ++ item ∷ []) in
      Ensures-any P (get_of "layerId" item) _ (λ layer_id.
        Ensures-bind (λ g. get_of "geometry" item ≡ ok g) P (get_of "geometry" item) _
          (Ensures-refl (get_of "geometry" item))
          (λ geometry e. elim (Bool-cases (is_valid py whole role (or_default null geometry))) [
            | inl v ↦ rw v (
                add_at-Held role xs (or_default null layer_id) (or_default null geometry) item gs
                  (key_of whole layer_id) (rw e refl) v h)
            | inr f ↦ rw f (refused role P)
          ]))

  add_items-Held :
      (role : Role) (done : List Json) (gs : List Group) (xs : List Json)
      → Held role done gs
      → Ensures (Held role (done ++ xs)) (add_items py whole role gs xs)
  unfolding add_items
  add_items-Held role done gs [] h = rw append-nil h
  add_items-Held role done gs (x ∷ xs) h =
      Ensures-bind (Held role (done ++ x ∷ [])) (Held role (done ++ x ∷ xs))
        (add_item py whole role gs x) _ (add_item-Held role done gs x h)
        (λ hs k. rw append_assoc at (add_items-Held role (done ++ x ∷ []) hs xs k))

  pub all_items-Held :
      (role : Role) (xs : List Json) → Ensures (Held role xs) (add_items py whole role [] xs)
  all_items-Held role xs = add_items-Held role [] [] xs ([], tt, Perm.refl [])
