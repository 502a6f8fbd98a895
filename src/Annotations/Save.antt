-- ===== src/Annotations/Save.antt =====
-- save_annotations of rom_analyzer/annotations_io.py, up to the JSON value that is dumped.
use rom_analyzer.Common.{Option, none, some, List, [], ◌∷◌, ◌++◌, map}
use rom_analyzer.Common.Text.{Text, codes}
use rom_analyzer.Common.Dict.{Dict}
use rom_analyzer.Common.Sort.{sort, by_key}
use rom_analyzer.Common.PyInt.Print.{hex_literal}
use rom_analyzer.Common.Json.{Json, string, number, dict_value, list_value}
use rom_analyzer.Types.Names.{category_name, tier_name}
use rom_analyzer.Annotations.{
  AnnotationParam, AnnotationSymbol, AnnotationFunction, StructMember, StructDefinition,
  AnnotationComment, AnnotationStore,
}

-- A field that is only written when there is a value.
abbrev pub present : Text → Option Text → Dict Text Json
present key none = []
present key (some t) = (key, string t) ∷ []

unfoldable pub symbol_value : AnnotationSymbol → Json
unfolding category_name tier_name
symbol_value s = dict_value fields
  where
    fields : Dict Text Json
    fields =
        (codes "name", string s.name)
          ∷ (codes "address", string (hex_literal s.address))
          ∷ (codes "category", string (category_name s.category))
          ∷ present (codes "data_type") s.data_type
        ++ (codes "confidence", string (tier_name s.confidence))
          ∷ (codes "source", string s.source)
          ∷ (codes "session", string s.session)
          ∷ (codes "timestamp", string s.timestamp)
          ∷ present (codes "verified_by") s.verified_by

unfoldable pub param_value : AnnotationParam → Json
param_value p = dict_value fields
  where
    fields : Dict Text Json
    fields =
        (codes "name", string p.name)
        ∷ (codes "storage", string p.storage)
        ∷ (codes "type", string p.type)
        ∷ []

-- `if f.params:`
unfoldable pub params_field : List AnnotationParam → Dict Text Json
unfolding param_value
params_field [] = []
params_field (p ∷ ps) = (codes "params", list_value (map param_value (p ∷ ps))) ∷ []

unfoldable pub function_value : AnnotationFunction → Json
unfolding tier_name params_field
function_value f = dict_value fields
  where
    fields : Dict Text Json
    fields =
        (codes "name", string f.name)
          ∷ (codes "entry_point", string (hex_literal f.entry_point))
          ∷ (codes "confidence", string (tier_name f.confidence))
          ∷ (codes "source", string f.source)
          ∷ (codes "session", string f.session)
          ∷ (codes "timestamp", string f.timestamp)
          ∷ present (codes "verified_by") f.verified_by
        ++ present (codes "return_type") f.return_type
        ++ params_field f.params

unfoldable pub member_value : StructMember → Json
member_value m = dict_value fields
  where
    fields : Dict Text Json
    fields =
        (codes "name", string m.name)
        ∷ (codes "offset", number m.offset)
        ∷ (codes "type", string m.type)
        ∷ []

unfoldable pub struct_value : StructDefinition → Json
unfolding member_value
struct_value sd = dict_value fields
  where
    fields : Dict Text Json
    fields =
        (codes "name", string sd.name)
        ∷ (codes "size", number sd.size)
        ∷ (codes "members", list_value (map member_value sd.members))
        ∷ []

unfoldable pub comment_value : AnnotationComment → Json
comment_value c = dict_value fields
  where
    fields : Dict Text Json
    fields =
        (codes "address", string (hex_literal c.address))
        ∷ (codes "type", string c.type)
        ∷ (codes "text", string c.text)
        ∷ (codes "session", string c.session)
        ∷ (codes "timestamp", string c.timestamp)
        ∷ present (codes "verified_by") c.verified_by

-- The three lists that are written by ascending address; equal addresses keep their order.
unfoldable pub sorted_store : AnnotationStore → AnnotationStore
sorted_store store = record store {
  symbols = sort (by_key (λ (s : AnnotationSymbol). s.address)) store.symbols;
  functions = sort (by_key (λ (f : AnnotationFunction). f.entry_point)) store.functions;
  comments = sort (by_key (λ (c : AnnotationComment). c.address)) store.comments;
}

unfoldable pub store_value : AnnotationStore → Json
unfolding symbol_value function_value struct_value comment_value
store_value store = dict_value fields
  where
    fields : Dict Text Json
    fields =
        (codes "schema_version", number store.schema_version)
        ∷ (codes "rom_id", string store.rom_id)
        ∷ (codes "rom_sha256", string store.rom_sha256)
        ∷ (codes "symbols", list_value (map symbol_value store.symbols))
        ∷ (codes "functions", list_value (map function_value store.functions))
        ∷ (codes "struct_definitions", list_value (map struct_value store.struct_definitions))
        ∷ (codes "comments", list_value (map comment_value store.comments))
        ∷ []

unfoldable pub save_annotations : AnnotationStore → Json
unfolding sorted_store store_value
save_annotations store = store_value (sorted_store store)
