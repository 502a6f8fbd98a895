-- ===== src/Registry/Load.antt =====
-- When load_registry of rom_analyzer/registry.py succeeds, and with which entries.
use rom_analyzer.Common.{
  ◌≡◌, refl, sym, ap, ◌∙◌, inl, inr, if◌then◌else◌, ◌↔◌, Bool, true, Option, none, some, List, [],
  ◌∷◌, arith, Pointwise, Bool-cases,
}
use rom_analyzer.Common.Text.{Text, codes}
use rom_analyzer.Common.Int.{pos}
use rom_analyzer.Registry.{
  ReferenceEntry, RawEntry, Loaded, loaded, raised, file_not_found, and_then, required, optional,
  join_path, build_entry, load_entry, load_registry,
}

loaded_injective {ℓ} : {A : Type ℓ} {a b : A} → loaded a ≡ loaded b → a ≡ b
loaded_injective h = cc

and_then_iff {ℓ κ} :
    {A : Type ℓ} {B : Type κ} (r : Loaded A) (f : A → Loaded B) (b : B)
    → (and_then r f ≡ loaded b) ↔ ((a : A) × (r ≡ loaded a) × (f a ≡ loaded b))
unfolding and_then
and_then_iff (loaded a) f b = (λ h. (a, refl, h), λ (c, p, q). ap f (loaded_injective p) ∙ q)
and_then_iff (raised e) f b = (λ h. cc, λ (c, p, q). cc)

required_iff {ℓ} :
    {A : Type ℓ} (key : Text) (o : Option A) (a : A) → (required key o ≡ loaded a) ↔ (o ≡ some a)
unfolding required
required_iff key none a = (λ h. cc, λ h. cc)
required_iff key (some b) a = (λ h. ap some (loaded_injective h), λ h. cc)

module _ (exists : Text → Bool) (reference_dir roms_dir : Text) where
  -- `e` is the entry that a table describes: its required keys are there, its annotation file
  -- exists, its paths are relative to the two directories, and its defaults are filled in.
  pub record IsEntryOf (raw : RawEntry) (e : ReferenceEntry) : Type 0 where
    pub json : Text
    pub rom : Text
    pub has_json : raw.json ≡ some json
    pub has_rom : raw.rom ≡ some rom
    pub has_id : raw.id ≡ some e.id
    pub has_family : raw.family ≡ some e.family
    pub has_variant : raw.variant ≡ some e.variant
    pub json_exists : exists (join_path reference_dir json) ≡ true
    pub json_path : e.json_path ≡ join_path reference_dir json
    pub rom_path : e.rom_path ≡ join_path roms_dir rom
    pub priority : e.priority ≡ optional (pos 0) raw.priority
    pub features : e.features ≡ optional [] raw.features
    pub notes : e.notes ≡ optional [] raw.notes

  load_if : RawEntry → Text → Loaded ReferenceEntry
  load_if raw json =
      if exists (join_path reference_dir json)
      then build_entry roms_dir (join_path reference_dir json) raw
      else and_then (required (codes "id") raw.id)
          (λ id. raised (file_not_found (join_path reference_dir json)))

  build_entry→IsEntryOf :
      (raw : RawEntry) (json : Text) (e : ReferenceEntry)
      → raw.json ≡ some json
      → exists (join_path reference_dir json) ≡ true
      → build_entry roms_dir (join_path reference_dir json) raw ≡ loaded e
      → IsEntryOf raw e
  unfolding build_entry
  build_entry→IsEntryOf raw json e j x h =
      let (id, p, h1) = (and_then_iff _ _ e).0 h in
      let (rom, q, h2) = (and_then_iff _ _ e).0 h1 in
      let (family, r, h3) = (and_then_iff _ _ e).0 h2 in
      let (variant, s, h4) = (and_then_iff _ _ e).0 h3 in
      let t = loaded_injective h4 in
      record {
        json = json;
        rom = rom;
        has_json = j;
        has_rom = (required_iff _ raw.rom rom).0 q;
        has_id = (required_iff _ raw.id id).0 p ∙ ap (λ (u : ReferenceEntry). some u.id) t;
        has_family =
            (required_iff _ raw.family family).0 r ∙ ap (λ (u : ReferenceEntry). some u.family) t;
        has_variant =
            (required_iff _ raw.variant variant).0 s
            ∙ ap (λ (u : ReferenceEntry). some u.variant) t;
        json_exists = x;
        json_path = sym (ap (λ (u : ReferenceEntry). u.json_path) t);
        rom_path = sym (ap (λ (u : ReferenceEntry). u.rom_path) t);
        priority = sym (ap (λ (u : ReferenceEntry). u.priority) t);
        features = sym (ap (λ (u : ReferenceEntry). u.features) t);
        notes = sym (ap (λ (u : ReferenceEntry). u.notes) t);
      }

  load_entry→IsEntryOf :
      (raw : RawEntry) (e : ReferenceEntry)
      → load_entry exists reference_dir roms_dir raw ≡ loaded e
      → IsEntryOf raw e
  unfolding load_entry load_if
  load_entry→IsEntryOf raw e h =
      let (json, p, q) = (and_then_iff (required (codes "json") raw.json) (load_if raw) e).0 h in
      elim (Bool-cases (exists (join_path reference_dir json))) [
        | inl x ↦
            build_entry→IsEntryOf raw json e ((required_iff _ raw.json json).0 p) x (rw x at q)
        | inr x ↦ let (_, _, bad) = (and_then_iff _ _ e).0 (rw x at q) in cc
      ]

  IsEntryOf→load_entry :
      (raw : RawEntry) (e : ReferenceEntry)
      → IsEntryOf raw e
      → load_entry exists reference_dir roms_dir raw ≡ loaded e
  unfolding load_entry build_entry and_then required
  IsEntryOf→load_entry raw e d =
      rw (d.has_json, d.json_exists, d.has_id, d.has_rom, d.has_family, d.has_variant)
        (ap loaded (ground (arith, d.json_path, d.rom_path, d.priority, d.features, d.notes)))

  -- load_registry succeeds exactly when every table describes an entry whose annotation file exists,
  -- and it gives those entries in the order of the tables.
  pub load_registry_iff :
      (raws : List RawEntry) (entries : List ReferenceEntry)
      → (load_registry exists reference_dir roms_dir raws ≡ loaded entries)
        ↔ Pointwise IsEntryOf raws entries
  unfolding load_registry
  load_registry_iff [] [] = (λ h. tt, λ h. refl)
  load_registry_iff [] (e ∷ entries) = (λ h. cc, λ h. absurd h)
  load_registry_iff (raw ∷ raws) [] = (
    λ h.
        let (_, _, q) = (and_then_iff _ _ []).0 h in
        let (_, _, bad) = (and_then_iff _ _ []).0 q in cc,
    λ h. absurd h,
  )
  load_registry_iff (raw ∷ raws) (e ∷ entries) = (
    λ h.
        let (d, p, q) = (and_then_iff _ _ (e ∷ entries)).0 h in
        let (ds, r, s) = (and_then_iff _ _ (e ∷ entries)).0 q in
        let same : d ∷ ds ≡ e ∷ entries = loaded_injective s in
        let head : d ≡ e = cc in
        let tail : ds ≡ entries = cc in
        (
          load_entry→IsEntryOf raw e (p ∙ ap loaded head),
          (load_registry_iff raws entries).0 (r ∙ ap loaded tail),
        ),
    λ (d, ds). (and_then_iff _ _ (e ∷ entries)).1 (
      e,
      IsEntryOf→load_entry raw e d,
      (and_then_iff _ _ (e ∷ entries)).1 (entries, (load_registry_iff raws entries).1 ds, refl),
    ),
  )
