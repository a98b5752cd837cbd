-- ===== src/Runtime/Catalog/Readiness.antt =====
-- app/agent/runtime.py, `refresh_catalog_health`: what a health refresh leaves.
use yjdlagent.Prelude.{
  both_true, ◌≡◌, ◌⊎◌, ◌∙◌, refl, sym, ap, eq_iff, Bool, true, Option, none, some, List, [], ◌∷◌,
  ◌++◌, String, str_eq, Bool-cases, inl, inr, ◌&&◌, if◌then◌else◌,
}
use yjdlagent.Json.{Json, Fields, null, bool, num, real, text, iso, arr, obj, get_field}
use yjdlagent.Errors.{Result, ok, err}
use yjdlagent.Python.{ℤ, Numbers, Ensures, Ensures-bind, Ensures-refl, item_of, dedupe, member}
use yjdlagent.Tools.{data_of}
use yjdlagent.Runtime.Catalog.{
  Service, is_ready, all_named, are_version, load_catalog, version_text, reported_versions,
  check_snapshot, check_health, settle, with_data, with_catalog, refresh_catalog_health,
}

-- A version that is reported is this one.
abbrev pub Agrees : String → List String → Type 0
Agrees v reported = (reported ≡ []) ⊎ (reported ≡ v ∷ [])

same_text : (v w : String) → str_eq w v ≡ true → w ≡ v
same_text v w h = (eq_iff w v).0 h

-- at most one text in each list
data AtMostOne : List String → Type 0 where
  no_text : AtMostOne []
  one_text : (w : String) → AtMostOne (w ∷ [])

are_version-text :
    (version : Json) (ws : List String)
    → are_version version ws ≡ true
    → (v : String) × (version ≡ text v) × (all_named v ws ≡ true) × ((ws ≡ []) → ⊥)
are_version-text version [] h = absurd (cc)
are_version-text (text v) (w ∷ ws) h = (v, refl, h, λ e. cc)
are_version-text null (w ∷ ws) h = absurd (cc)
are_version-text (bool b) (w ∷ ws) h = absurd (cc)
are_version-text (num n) (w ∷ ws) h = absurd (cc)
are_version-text (real s) (w ∷ ws) h = absurd (cc)
are_version-text (iso t) (w ∷ ws) h = absurd (cc)
are_version-text (arr xs) (w ∷ ws) h = absurd (cc)
are_version-text (obj fs) (w ∷ ws) h = absurd (cc)

agreed :
    (v : String) {a b : List String}
    → AtMostOne a
    → AtMostOne b
    → all_named v (dedupe (a ++ b)) ≡ true
    → Agrees v a × Agrees v b
agreed v no_text no_text h = (inl refl, inl refl)
agreed v (one_text w) no_text h =
    (inr (ap (λ x. x ∷ []) (same_text v w (both_true _ _ h).0)), inl refl)
agreed v no_text (one_text w) h =
    (inl refl, inr (ap (λ x. x ∷ []) (same_text v w (both_true _ _ h).0)))
agreed v (one_text w) (one_text u) h =
    let first : w ≡ v = same_text v w (both_true _ _ h).0 in
    elim (Bool-cases (str_eq w u)) [
      | inl e ↦
          (inr (ap (λ x. x ∷ []) first), inr (ap (λ x. x ∷ []) (sym (same_text u w e) ∙ first)))
      | inr e ↦
          let later : (str_eq u v && true) ≡ true =
            rw e at
              (both_true (str_eq w v) (all_named v (if member u (w ∷ []) then [] else u ∷ []))
                h).1 in
          (
            inr (ap (λ x. x ∷ []) first),
            inr (ap (λ x. x ∷ []) (same_text v u (both_true (str_eq u v) true later).0)),
          )
    ]

module _ (py : Numbers) (is_schema : Json → Bool) (is_at_most : ℤ → Bool) where
  -- A health answer that is ready, for this catalog: every version that it reports is the catalog's, and it
  -- reports one.
  pub record IsReady (catalog health : Fields) : Type 0 where
    pub snapshot : Fields
    pub has_snapshot : get_field "housingSnapshot" health ≡ some (obj snapshot)
    pub ready : is_ready (get_field "status" health) ≡ true
    pub snapshot_ready : is_ready (get_field "status" snapshot) ≡ true
    pub version : String
    pub catalog_version : item_of "version" catalog ≡ ok (text version)
    pub health_version :
        Agrees version (version_text py is_schema is_at_most (get_field "catalogVersion" health))
    pub snapshot_version :
        Agrees version (version_text py is_schema is_at_most (get_field "catalogVersion" snapshot))
    pub some_version : (reported_versions py is_schema is_at_most health snapshot ≡ []) → ⊥

  version_text-AtMostOne : (o : Option Json) → AtMostOne (version_text py is_schema is_at_most o)
  version_text-AtMostOne none = no_text
  version_text-AtMostOne (some null) = no_text
  version_text-AtMostOne (some (bool b)) = one_text _
  version_text-AtMostOne (some (num n)) = one_text _
  version_text-AtMostOne (some (real s)) = one_text _
  version_text-AtMostOne (some (text s)) = one_text _
  version_text-AtMostOne (some (iso t)) = one_text _
  version_text-AtMostOne (some (arr xs)) = one_text _
  version_text-AtMostOne (some (obj fs)) = one_text _

  check_snapshot-IsReady :
      (catalog health snapshot : Fields) (version : Json)
      → get_field "housingSnapshot" health ≡ some (obj snapshot)
      → item_of "version" catalog ≡ ok version
      → Ensures
          (λ u. IsReady catalog health)
          (check_snapshot py is_schema is_at_most health snapshot version)
  check_snapshot-IsReady catalog health snapshot version e f =
      elim (Bool-cases
        (is_ready (get_field "status" health) && is_ready (get_field "status" snapshot))) [
          | inr g ↦ rw g tt
          | inl g ↦
              elim (Bool-cases
                (are_version version (reported_versions py is_schema is_at_most health snapshot))) [
                  | inr k ↦ rw (g, k) tt
                  | inl k ↦
                      let named =
                        are_version-text version
                          (reported_versions py is_schema is_at_most health snapshot) k in
                      let same =
                        agreed named.0 (version_text-AtMostOne (get_field "catalogVersion" health))
                          (version_text-AtMostOne (get_field "catalogVersion" snapshot)) named.2 in
                      rw (g, k)
                        (record {
                          snapshot = snapshot;
                          has_snapshot = e;
                          ready = (both_true _ _ g).0;
                          snapshot_ready = (both_true _ _ g).1;
                          version = named.0;
                          catalog_version = f ∙ ap ok named.1;
                          health_version = same.0;
                          snapshot_version = same.1;
                          some_version = named.3;
                        })
                ]
        ]

  check_health-IsReady :
      (catalog health : Fields) (o : Option Json)
      → get_field "housingSnapshot" health ≡ o
      → Ensures
          (λ u. IsReady catalog health)
          (check_health py is_schema is_at_most catalog health o)
  check_health-IsReady catalog health (some (obj snapshot)) e =
      Ensures-bind (λ v. item_of "version" catalog ≡ ok v) (λ u. IsReady catalog health)
        (item_of "version" catalog) (check_snapshot py is_schema is_at_most health snapshot)
        (Ensures-refl (item_of "version" catalog))
        (λ version f. check_snapshot-IsReady catalog health snapshot version e f)
  check_health-IsReady catalog health o e = tt

  -- The health that the service has just answered.
  pub record IsCurrent (answered : Result Fields) (after : Service) : Type 0 where
    pub response : Fields
    pub given : answered ≡ ok response
    pub health : Fields
    pub read : data_of response ≡ obj health
    pub kept : after.tool_health ≡ some health

  pub record IsRefreshed (response answered : Result Fields) (after : Service) : Type 0 where
    pub catalog : Fields
    pub loaded : load_catalog py is_schema is_at_most response ≡ ok catalog
    pub kept : after.catalog ≡ some catalog
    pub no_error : after.initialization_error ≡ none
    pub current : IsCurrent answered after
    pub ready : IsReady catalog current.health

  pub record HasFailed (answered : Result Fields) (before after : Service) : Type 0 where
    pub catalog : after.catalog ≡ before.catalog
    pub initialization_error : after.initialization_error ≡ before.initialization_error
    pub health : (after.tool_health ≡ none) ⊎ IsCurrent answered after

  abbrev pub Outcome :
      Result Fields → Result Fields → Service → Service × Result (Unit {0}) → Type 0
  Outcome response answered before (after, ok u) = IsRefreshed response answered after
  Outcome response answered before (after, err e) = HasFailed answered before after

  settle-Outcome :
      (response : Result Fields) (s : Service) (catalog answer health : Fields)
      (r : Result (Unit {0}))
      → load_catalog py is_schema is_at_most response ≡ ok catalog
      → data_of answer ≡ obj health
      → Ensures (λ u. IsReady catalog health) r
      → Outcome response
          (ok answer)
          s
          (settle py is_schema is_at_most (record s { tool_health = some health }) catalog r)
  settle-Outcome response s catalog answer health (ok u) e d h = record {
    catalog = catalog;
    loaded = e;
    kept = refl;
    no_error = refl;
    current = record { response = answer; given = refl; health = health; read = d; kept = refl };
    ready = h;
  }
  settle-Outcome response s catalog answer health (err e) l d h = record {
    catalog = refl;
    initialization_error = refl;
    health =
        inr (record { response = answer; given = refl; health = health; read = d; kept = refl });
  }

  abbrev forgotten : Service → Service
  forgotten s = record s { tool_health = none }

  with_data-Outcome :
      (response : Result Fields) (s : Service) (catalog answer : Fields) (d : Json)
      → load_catalog py is_schema is_at_most response ≡ ok catalog
      → data_of answer ≡ d
      → Outcome response (ok answer) s (with_data py is_schema is_at_most (forgotten s) catalog d)
  with_data-Outcome response s catalog answer (obj health) e d =
      settle-Outcome response s catalog answer health
        (check_health py is_schema is_at_most catalog health (get_field "housingSnapshot" health)) e
        d (check_health-IsReady catalog health (get_field "housingSnapshot" health) refl)
  with_data-Outcome response s catalog answer other e d = record {
    catalog = refl;
    initialization_error = refl;
    health = inl refl;
  }

  with_catalog-Outcome :
      (response answered : Result Fields) (s : Service) (loaded : Result Fields)
      → load_catalog py is_schema is_at_most response ≡ loaded
      → Outcome response answered s
          (with_catalog py is_schema is_at_most (forgotten s) loaded answered)
  with_catalog-Outcome response answered s (err e) l = record {
    catalog = refl;
    initialization_error = refl;
    health = inl refl;
  }
  with_catalog-Outcome response (err e) s (ok catalog) l = record {
    catalog = refl;
    initialization_error = refl;
    health = inl refl;
  }
  with_catalog-Outcome response (ok answer) s (ok catalog) l =
      with_data-Outcome response s catalog answer (data_of answer) l refl

  -- A health refresh that succeeds keeps the catalog that it has loaded, clears the initialization error and keeps the health of this very answer, in which the service and the housing snapshot are READY and at least one version is reported, each being the catalog's. A refresh that raises leaves catalog and initialization error as they were and keeps no health but that of this answer: an earlier READY never survives.
  pub refresh_catalog_health-Outcome :
      (response answered : Result Fields) (s : Service)
      → Outcome response answered s
          (refresh_catalog_health py is_schema is_at_most response answered s)
  unfolding refresh_catalog_health
  refresh_catalog_health-Outcome response answered s =
      with_catalog-Outcome response answered s (load_catalog py is_schema is_at_most response) refl
