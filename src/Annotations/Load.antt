-- ===== src/Annotations/Load.antt =====
-- load_annotations and load_reference_symbols of rom_analyzer/annotations_io.py, from the JSON value of
-- the file. Addresses are not negative; `none` is an exception, or a value of another type than that of
-- the field, which the code would store as it is.
use rom_analyzer.Common.{ℕ, Option, none, some, List, []}
use rom_analyzer.Common.Text.{Text, codes, text_eq}
use rom_analyzer.Common.Int.{ℤ, pos, negsuc}
use rom_analyzer.Common.PyInt.Base16.{int_base16}
use rom_analyzer.Common.Json.{
  Json, as_text, as_number, as_dict, as_optional, as_list_of, required, defaulted, ◌>>=◌,
}
use rom_analyzer.Types.{ReferenceSymbol, high}
use rom_analyzer.Types.Names.{as_category, as_tier}
use rom_analyzer.Annotations.{
  AnnotationParam, AnnotationSymbol, AnnotationFunction, StructMember, StructDefinition,
  AnnotationComment, AnnotationStore, reference_symbols,
}

unfoldable pub natural : ℤ → Option ℕ
natural (pos n) = some n
natural (negsuc n) = none

-- `int(v, 16)`
unfoldable pub as_address : Json → Option ℕ
unfolding natural
as_address v = do s ← as_text v; n ← int_base16 s; natural n

abbrev pub as_text? : Json → Option (Option Text)
as_text? = as_optional as_text

unfoldable pub load_symbol : Json → Option AnnotationSymbol
unfolding required defaulted
load_symbol v = do
  s ← as_dict v
  name ← required as_text s (codes "name")
  address ← required as_address s (codes "address")
  category ← required as_category s (codes "category")
  data_type ← defaulted as_text? none s (codes "data_type")
  confidence ← defaulted as_tier high s (codes "confidence")
  source ← defaulted as_text [] s (codes "source")
  verified_by ← defaulted as_text? none s (codes "verified_by")
  session ← defaulted as_text [] s (codes "session")
  timestamp ← defaulted as_text [] s (codes "timestamp")
  some (record {
    name = name;
    address = address;
    category = category;
    data_type = data_type;
    confidence = confidence;
    source = source;
    verified_by = verified_by;
    session = session;
    timestamp = timestamp;
  })

unfoldable pub load_param : Json → Option AnnotationParam
unfolding required
load_param v = do
  p ← as_dict v
  name ← required as_text p (codes "name")
  storage ← required as_text p (codes "storage")
  type ← required as_text p (codes "type")
  some (record { name = name; storage = storage; type = type })

unfoldable pub load_function : Json → Option AnnotationFunction
unfolding required defaulted load_param
load_function v = do
  f ← as_dict v
  name ← required as_text f (codes "name")
  entry_point ← required as_address f (codes "entry_point")
  confidence ← defaulted as_tier high f (codes "confidence")
  source ← defaulted as_text [] f (codes "source")
  verified_by ← defaulted as_text? none f (codes "verified_by")
  session ← defaulted as_text [] f (codes "session")
  timestamp ← defaulted as_text [] f (codes "timestamp")
  return_type ← defaulted as_text? none f (codes "return_type")
  params ← defaulted (as_list_of load_param) [] f (codes "params")
  some (record {
    name = name;
    entry_point = entry_point;
    confidence = confidence;
    source = source;
    verified_by = verified_by;
    session = session;
    timestamp = timestamp;
    return_type = return_type;
    params = params;
  })

unfoldable pub load_member : Json → Option StructMember
unfolding required
load_member v = do
  m ← as_dict v
  name ← required as_text m (codes "name")
  offset ← required as_number m (codes "offset")
  type ← required as_text m (codes "type")
  some (record { name = name; offset = offset; type = type })

unfoldable pub load_struct : Json → Option StructDefinition
unfolding required defaulted load_member
load_struct v = do
  sd ← as_dict v
  name ← required as_text sd (codes "name")
  size ← required as_number sd (codes "size")
  members ← defaulted (as_list_of load_member) [] sd (codes "members")
  some (record { name = name; size = size; members = members })

unfoldable pub load_comment : Json → Option AnnotationComment
unfolding required defaulted
load_comment v = do
  c ← as_dict v
  address ← required as_address c (codes "address")
  type ← required as_text c (codes "type")
  text ← required as_text c (codes "text")
  verified_by ← defaulted as_text? none c (codes "verified_by")
  session ← defaulted as_text [] c (codes "session")
  timestamp ← defaulted as_text [] c (codes "timestamp")
  some (record {
    address = address;
    type = type;
    text = text;
    verified_by = verified_by;
    session = session;
    timestamp = timestamp;
  })

unfoldable pub load_annotations : Json → Option AnnotationStore
unfolding defaulted load_symbol load_function load_struct load_comment
load_annotations v = do
  data' ← as_dict v
  symbols ← defaulted (as_list_of load_symbol) [] data' (codes "symbols")
  functions ← defaulted (as_list_of load_function) [] data' (codes "functions")
  structs ← defaulted (as_list_of load_struct) [] data' (codes "struct_definitions")
  comments ← defaulted (as_list_of load_comment) [] data' (codes "comments")
  schema_version ← defaulted as_number 1 data' (codes "schema_version")
  rom_id ← defaulted as_text [] data' (codes "rom_id")
  rom_sha256 ← defaulted as_text [] data' (codes "rom_sha256")
  some (record {
    schema_version = schema_version;
    rom_id = rom_id;
    rom_sha256 = rom_sha256;
    symbols = symbols;
    functions = functions;
    struct_definitions = structs;
    comments = comments;
  })

unfoldable pub load_reference_symbols : Json → Option (List ReferenceSymbol)
unfolding load_annotations
load_reference_symbols v = do store ← load_annotations v; some (reference_symbols store)
