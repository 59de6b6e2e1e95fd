-- ===== src/Readers/Presets.antt =====
-- workflows/presets/reader.go: the cached list of the presets, with the detail of each.
use mathlib.Core.List.{map}
use cxone_sdk_golang.Prelude.{
  ℕ, suc, ◌≡◌, refl, Bool, true, false, String, Option, none, some, List, [], ◌∷◌, Bool-cases, inl,
  inr, if◌then◌else◌,
}
use cxone_sdk_golang.Prelude.Text.{text_less}
use cxone_sdk_golang.Prelude.Maps.{get}
use cxone_sdk_golang.Errors.{Error, nil, is_nil}
use cxone_sdk_golang.Endpoints.Users.{required}
use cxone_sdk_golang.Endpoints.Presets.{
  PresetDescriptor, PresetDetail, PresetApi, list_presets, get_preset,
}
use cxone_sdk_golang.Readers.{Places, index, element_at}

-- Preset; `backend` is the reader's
pub record Preset (W : Type 0) : Type 0 where
  pub backend : PresetApi W
  pub desc : PresetDescriptor
  pub loaded : Bool
  pub load_err : Error
  pub detail : Option PresetDetail

-- newPreset
abbrev pub new_preset : {W : Type 0} → PresetApi W → PresetDescriptor → Preset W
new_preset api desc = record {
  backend = api;
  desc = desc;
  loaded = false;
  load_err = nil;
  detail = none;
}

-- The maps and the sorted list point to presets of `presets`, which Detail changes in place.
-- `sort_slice` is sort.Slice on the pointers.
pub record PresetReader (W : Type 0) : Type 0 where
  pub backend : Option (PresetApi W)
  pub sort_slice : (ℕ → ℕ → Bool) → List ℕ → List ℕ
  pub loaded : Bool
  pub load_err : Error
  pub presets : List (Preset W)
  pub by_id : Places
  pub by_name : Places
  pub ordered : List ℕ

-- 0, 1, ... up to the length of a listing, from `n` on
abbrev pub places_of : {A : Type 0} → ℕ → List A → List ℕ
places_of n [] = []
places_of n (x ∷ xs) = n ∷ places_of (suc n) xs

abbrev pub name_at : List PresetDescriptor → ℕ → String
name_at descs n = elim (element_at descs n) [ none ↦ "" | some d ↦ d.name ]

module _ {W : Type 0} where
  -- the loop of ensureLoaded, and the sort
  unfoldable pub with_presets :
      PresetApi W → List PresetDescriptor → PresetReader W → PresetReader W
  with_presets api descs r = record r {
    loaded = true;
    presets = map (new_preset api) descs;
    by_id = index (λ d. d.id) true descs;
    by_name = index (λ d. d.name) true descs;
    ordered =
        r.sort_slice (λ i j. text_less (name_at descs i) (name_at descs j)) (places_of 0 descs);
  }

  unfoldable pub presets_loaded :
      PresetApi W
      → PresetReader W
      → (Option (List PresetDescriptor) × Error) × W
      → Error × (PresetReader W × W)
  presets_loaded api r ((none, e), w) = (e, (record r { load_err = e }, w))
  presets_loaded api r ((some descs, e), w) =
      if is_nil e then (nil, (with_presets api descs r, w)) else (e, (record r { load_err = e }, w))

  -- ensureLoaded
  unfoldable pub ensure_presets : PresetReader W → W → Error × (PresetReader W × W)
  ensure_presets r w = if r.loaded then (nil, (r, w)) else elim r.backend [
    | none ↦ (required "backend", (r, w))
    | some api ↦ presets_loaded api r (list_presets api [] w)
  ]

  -- List
  unfoldable pub list_of_presets : PresetReader W → W → (List ℕ × Error) × (PresetReader W × W)
  list_of_presets r w =
      let (e, (s, v)) = ensure_presets r w in
      if is_nil e then ((s.ordered, nil), (s, v)) else (([], e), (s, v))

  -- ByName
  unfoldable pub preset_by_name :
      String → PresetReader W → W → (Option ℕ × Error) × (PresetReader W × W)
  preset_by_name name r w =
      let (e, (s, v)) = ensure_presets r w in
      if is_nil e then ((get name s.by_name, nil), (s, v)) else ((none, e), (s, v))

  -- ByID
  unfoldable pub preset_by_id :
      String → PresetReader W → W → (Option ℕ × Error) × (PresetReader W × W)
  preset_by_id id r w =
      let (e, (s, v)) = ensure_presets r w in
      if is_nil e then ((get id s.by_id, nil), (s, v)) else ((none, e), (s, v))

  -- what Detail makes of a fetch
  unfoldable pub detail_fetched :
      Preset W → (Option PresetDetail × Error) × W → (Option PresetDetail × Error) × (Preset W × W)
  detail_fetched p ((d, e), w) =
      if is_nil e
      then ((d, nil), (record p { loaded = true; detail = d }, w))
      else ((none, e), (record p { load_err = e; loaded = false }, w))

  -- Detail
  unfoldable pub preset_detail : Preset W → W → (Option PresetDetail × Error) × (Preset W × W)
  preset_detail p w =
      if p.loaded
      then (if is_nil p.load_err
          then ((p.detail, nil), (p, w))
          else ((none, p.load_err), (record p { loaded = false; load_err = nil }, w)))
      else detail_fetched p (get_preset p.backend p.desc.id w)

  -- If the preset has no detail and the fetch succeeds with `d`: Detail returns `d`. The next call
  -- returns `d` and fetches nothing, unless an earlier call had failed: then it returns that call's
  -- error again, and the call after it fetches once more.
  pub preset_detail-twice :
      (p : Preset W) (w : W) (d : PresetDetail)
      → p.loaded ≡ false
      → (get_preset p.backend p.desc.id w).0 ≡ (some d, nil)
      → ((preset_detail p w).0 ≡ (some d, nil))
        × ((preset_detail (preset_detail p w).1.0 (preset_detail p w).1.1).0
            ≡ (if is_nil p.load_err then (some d, nil) else (none, p.load_err)))
        × ((preset_detail (preset_detail p w).1.0 (preset_detail p w).1.1).1.1
            ≡ (preset_detail p w).1.1)
        × ((preset_detail (preset_detail p w).1.0 (preset_detail p w).1.1).1.0.loaded
            ≡ is_nil p.load_err)
  unfolding preset_detail detail_fetched
  preset_detail-twice p w d unloaded there = elim (Bool-cases (is_nil p.load_err)) [
    | inl clean ↦ rw (unloaded, there, clean) (refl, refl, refl, refl)
    | inr stale ↦ rw (unloaded, there, stale) (refl, refl, refl, refl)
  ]
