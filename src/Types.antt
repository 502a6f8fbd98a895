-- ===== src/Types.antt =====
-- The dataclasses of rom_analyzer/types.py. A score is a `float` that is finite and not negative:
-- it is modelled by its IEEE 754 binary64 pattern, whose order as a number is the order of the
-- floats. Addresses and lengths are numbers; the bounds of a CRC region are integers.
pub mod Names
use rom_analyzer.Common.{ℕ, Bool, nat_eq}
use rom_analyzer.Common.Text.{Text}
use rom_analyzer.Common.Int.{ℤ}

pub data SymbolCategory : Type 0 where
  function data_symbol ram_global : SymbolCategory

pub data ConfidenceTier : Type 0 where
  auto inferred low medium high verified : ConfidenceTier

pub data CrcBand : Type 0 where
  partial_crc full_crc_only unprotected : CrcBand

abbrev pub Score : Type 0
Score = ℕ

pub record ReferenceSymbol : Type 0 where
  pub name : Text
  pub address : ℕ
  pub category : SymbolCategory

pub record MatchedFunction : Type 0 where
  pub ref_name : Text
  pub ref_address : ℕ
  pub new_address : ℕ
  pub similarity : Score
  pub source : Text
  pub reference : Text

pub record PropagatedSymbol : Type 0 where
  pub name : Text
  pub ref_address : ℕ
  pub new_address : ℕ
  pub category : SymbolCategory
  pub confidence : ConfidenceTier
  pub source : Text
  pub score : Score
  pub reference : Text
  pub family_match : Bool

pub record CrcRegion : Type 0 where
  pub full_start : ℤ
  pub full_end : ℤ
  pub partial_start : ℤ
  pub partial_end : ℤ

pub record FlashFreeBlock : Type 0 where
  pub band : CrcBand
  pub start : ℕ
  pub end : ℕ
  pub length : ℕ

pub record RamFreeBlock : Type 0 where
  pub start : ℕ
  pub end : ℕ
  pub length : ℕ
  pub note : Text
