-- ===== src/Pipeline.antt =====
-- The stages of rom_analyzer/pipeline: what match_reference, arbitrate_references and classify_and_apply
-- compose of the parts.
pub mod Dedup
pub mod Reference
pub mod OneToOne
pub mod Arbitrate
pub mod Enrich
pub mod Targets
pub mod Writes
mod Examples
use rom_analyzer.Common.{ℕ, List, Option}
use rom_analyzer.Common.Text.{Text}
use rom_analyzer.Common.Dict.{Dict}
use rom_analyzer.Types.{ReferenceSymbol, MatchedFunction, PropagatedSymbol}
use rom_analyzer.Registry.{ReferenceEntry}
use rom_analyzer.DataRefs.{DataRef}
use rom_analyzer.Callgraph.{HeadlessRun}

-- The dump of a program, with the references into RAM.
pub record Run : Type 0 where
  pub dump : HeadlessRun
  pub ram_refs : List ℕ
  pub ram_data_refs : Dict ℕ (List DataRef)

pub record ReferenceMatchResult : Type 0 where
  pub entry : ReferenceEntry
  pub matches : List MatchedFunction
  pub propagated : List PropagatedSymbol
  pub ref_run : Option Run
  pub ref_symbols : List ReferenceSymbol
  pub data_labels : List PropagatedSymbol
  pub ram_labels : List PropagatedSymbol
  pub sig_matches : List MatchedFunction
  pub ram_labels_p2 : List PropagatedSymbol
  pub data_labels_p2 : List PropagatedSymbol
