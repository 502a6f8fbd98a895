-- ===== src/Enrich.antt =====
-- rom_analyzer/enrich.py: labels that one reference proposes for another, their classification, and the
-- verdicts.
pub mod Names
pub mod Classify
pub mod Gather
pub mod Reconcile
pub mod Apply
pub mod RoundTrip
mod Examples
pub mod VoteOrder
pub mod Majority
pub mod Merged
pub mod Items
use rom_analyzer.Common.{ℕ, Bool, Option, List}
use rom_analyzer.Common.Text.{Text}
use rom_analyzer.Types.{SymbolCategory}

pub data Direction : Type 0 where
  forward back : Direction

pub record LabelCandidate : Type 0 where
  pub target : Text
  pub direction : Direction
  pub address : ℕ
  pub category : SymbolCategory
  pub current : Option Text
  pub proposed : Text
  pub source : Text
  pub evidence : Text
  pub corroborating_sources : List Text

pub record ReconcileItem : Type 0 where
  pub target : Text
  pub direction : Direction
  pub address : ℕ
  pub category : SymbolCategory
  pub current : Option Text
  pub proposed : Text
  pub source : Text
  pub evidence : Text
  pub verdict : Text
  pub corroborated_by : List Text

pub record Classified : Type 0 where
  pub auto : List LabelCandidate
  pub review : List LabelCandidate
