-- ===== src/Annotations.antt =====
-- The store of rom_analyzer/annotations_io.py: what a reference's JSON file says of its ROM.
pub mod Load
pub mod Save
pub mod RoundTrip
mod Examples
use rom_analyzer.Common.{ℕ, Option, List, map, ◌++◌}
use rom_analyzer.Common.Text.{Text}
use rom_analyzer.Types.{SymbolCategory, function, ConfidenceTier, ReferenceSymbol}

pub record AnnotationParam : Type 0 where
  pub name : Text
  pub storage : Text
  pub type : Text

pub record AnnotationSymbol : Type 0 where
  pub name : Text
  pub address : ℕ
  pub category : SymbolCategory
  pub data_type : Option Text
  pub confidence : ConfidenceTier
  pub source : Text
  pub verified_by : Option Text
  pub session : Text
  pub timestamp : Text

pub record AnnotationFunction : Type 0 where
  pub name : Text
  pub entry_point : ℕ
  pub confidence : ConfidenceTier
  pub source : Text
  pub verified_by : Option Text
  pub session : Text
  pub timestamp : Text
  pub return_type : Option Text
  pub params : List AnnotationParam

pub record StructMember : Type 0 where
  pub name : Text
  pub offset : ℕ
  pub type : Text

pub record StructDefinition : Type 0 where
  pub name : Text
  pub size : ℕ
  pub members : List StructMember

pub record AnnotationComment : Type 0 where
  pub address : ℕ
  pub type : Text
  pub text : Text
  pub verified_by : Option Text
  pub session : Text
  pub timestamp : Text

pub record AnnotationStore : Type 0 where
  pub schema_version : ℕ
  pub rom_id : Text
  pub rom_sha256 : Text
  pub symbols : List AnnotationSymbol
  pub functions : List AnnotationFunction
  pub struct_definitions : List StructDefinition
  pub comments : List AnnotationComment

-- load_reference_symbols, from the store that load_annotations gives.
pub reference_symbols : AnnotationStore → List ReferenceSymbol
reference_symbols store =
    map (λ s. record { name = s.name; address = s.address; category = s.category }) store.symbols
    ++ map (λ f. record { name = f.name; address = f.entry_point; category = function })
        store.functions
