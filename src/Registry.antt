-- ===== src/Registry.antt =====
-- rom_analyzer/registry.py: which references there are, and which of them serve a variant. The TOML
-- parser is not modelled: a raw entry is what it gives for one [[reference]] table.
pub mod Select
pub mod Load
mod Examples
use rom_analyzer.Common.{
  ℕ, Bool, true, false, not, Option, none, some, List, [], ◌∷◌, ◌++◌, map, filter, elem, ◌==◌,
  if◌then◌else◌,
}
use rom_analyzer.Common.Text.{Text, codes, text_eq, starts_with}
use rom_analyzer.Common.Int.{ℤ, pos, leb_ℤ}
use rom_analyzer.Common.Sort.{sort}

pub record ReferenceEntry : Type 0 where
  pub id : Text
  pub json_path : Text
  pub rom_path : Text
  pub family : Text
  pub variant : Text
  pub priority : ℤ
  pub features : List Text
  pub notes : Text

-- One table of the file; an optional key that is missing is `none`.
pub record RawEntry : Type 0 where
  pub id : Option Text
  pub json : Option Text
  pub rom : Option Text
  pub family : Option Text
  pub variant : Option Text
  pub priority : Option ℤ
  pub features : Option (List Text)
  pub notes : Option Text

pub data RegistryError : Type 0 where
  key_error : Text → RegistryError
  file_not_found : Text → RegistryError

pub data Loaded {ℓ} (A : Type ℓ) : Type ℓ where
  loaded : A → Loaded A
  raised : RegistryError → Loaded A

pub and_then {ℓ κ} : {A : Type ℓ} {B : Type κ} → Loaded A → (A → Loaded B) → Loaded B
and_then (loaded a) f = f a
and_then (raised e) f = raised e

-- `raw[key]`
pub required {ℓ} : {A : Type ℓ} → Text → Option A → Loaded A
required key none = raised (key_error key)
required key (some a) = loaded a

-- `raw.get(key, default)`
pub optional {ℓ} : {A : Type ℓ} → A → Option A → A
optional default none = default
optional default (some a) = a

-- `directory / name`: an absolute name stands for itself.
pub join_path : Text → Text → Text
join_path directory name =
    if starts_with name (codes "/") then name else directory ++ codes "/" ++ name

-- The constructor's arguments, read in the order of the source.
pub build_entry : Text → Text → RawEntry → Loaded ReferenceEntry
build_entry roms_dir json_path raw = and_then (required (codes "id") raw.id) (λ id.
    and_then (required (codes "rom") raw.rom) (λ rom.
      and_then (required (codes "family") raw.family) (λ family.
        and_then (required (codes "variant") raw.variant) (λ variant. loaded (record {
          id = id;
          json_path = json_path;
          rom_path = join_path roms_dir rom;
          family = family;
          variant = variant;
          priority = optional (pos 0) raw.priority;
          features = optional [] raw.features;
          notes = optional [] raw.notes;
        })))))

-- `exists` is what the file system says of a path.
module _ (exists : Text → Bool) where
  -- The message of the error names the entry's id, so a missing id is reported first.
  pub load_entry : Text → Text → RawEntry → Loaded ReferenceEntry
  load_entry reference_dir roms_dir raw = and_then (required (codes "json") raw.json) (λ json.
      if exists (join_path reference_dir json)
      then build_entry roms_dir (join_path reference_dir json) raw
      else and_then (required (codes "id") raw.id)
          (λ id. raised (file_not_found (join_path reference_dir json))))

  pub load_registry : Text → Text → List RawEntry → Loaded (List ReferenceEntry)
  load_registry reference_dir roms_dir [] = loaded []
  load_registry reference_dir roms_dir (raw ∷ raws) =
      and_then (load_entry reference_dir roms_dir raw) (λ entry.
        and_then (load_registry reference_dir roms_dir raws) (λ entries. loaded (entry ∷ entries)))

  pub partition_available : List ReferenceEntry → List ReferenceEntry × List ReferenceEntry
  partition_available entries =
      (filter (λ e. exists e.rom_path) entries, filter (λ e. not (exists e.rom_path)) entries)

-- `if ids: kept = [e for e in kept if e.id in ids]`
pub keep_included : List Text → List ReferenceEntry → List ReferenceEntry
keep_included [] kept = kept
keep_included (i ∷ ids) kept = filter (λ e. elem e.id (i ∷ ids)) kept

pub drop_excluded : List Text → List ReferenceEntry → List ReferenceEntry
drop_excluded [] kept = kept
drop_excluded (i ∷ ids) kept = filter (λ e. not (elem e.id (i ∷ ids))) kept

-- `a` may stand in front of `b` in the order of descending priority.
pub priority_leb : ReferenceEntry → ReferenceEntry → Bool
priority_leb a b = leb_ℤ b.priority a.priority

pub compatible : List ReferenceEntry → Text → List Text → List Text → List ReferenceEntry
compatible entries variant include_ids exclude_ids =
    drop_excluded exclude_ids
      (keep_included include_ids (filter (λ e. e.variant == variant) entries))

pub select_references : List ReferenceEntry → Text → List Text → List Text → List ReferenceEntry
select_references entries variant include_ids exclude_ids =
    sort priority_leb (compatible entries variant include_ids exclude_ids)
