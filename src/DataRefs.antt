-- ===== src/DataRefs.antt =====
-- The references of rom_analyzer/data_refs.py: an instruction of a function that refers to an address.
use rom_analyzer.Common.{ℕ, Option}
use rom_analyzer.Common.Text.{Text}

pub data DataRefType : Type 0 where
  read write scalar : DataRefType

pub record DataRef : Type 0 where
  pub instruction_offset : ℕ
  pub referenced_address : ℕ
  pub label : Option Text
  pub ref_type : DataRefType
