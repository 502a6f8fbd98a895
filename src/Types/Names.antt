-- ===== src/Types/Names.antt =====
-- The texts that stand for the literals of rom_analyzer/types.py.
use rom_analyzer.Common.{◌≡◌, refl, Option, none, some, if◌then◌else◌, ◌==◌}
use rom_analyzer.Common.Text.{Text, codes, text_eq}
use rom_analyzer.Common.Json.{Json, string}
use rom_analyzer.Types.{
  SymbolCategory, function, data_symbol, ram_global, ConfidenceTier, auto, inferred, low, medium,
  high, verified, CrcBand, partial_crc, full_crc_only, unprotected,
}

unfoldable pub category_name : SymbolCategory → Text
category_name function = codes "function"
category_name data_symbol = codes "data"
category_name ram_global = codes "ram_global"

unfoldable pub tier_name : ConfidenceTier → Text
tier_name auto = codes "auto"
tier_name inferred = codes "inferred"
tier_name low = codes "low"
tier_name medium = codes "medium"
tier_name high = codes "high"
tier_name verified = codes "verified"

unfoldable pub band_name : CrcBand → Text
band_name partial_crc = codes "partial_crc"
band_name full_crc_only = codes "full_crc_only"
band_name unprotected = codes "unprotected"

-- Which of the literals a value is; `none` where it is another value.
unfoldable pub as_category : Json → Option SymbolCategory
as_category (string s) =
    if s == codes "function"
    then some function
    else if s == codes "data"
    then some data_symbol
    else if s == codes "ram_global"
    then some ram_global
    else none
as_category _ = none

unfoldable pub as_tier : Json → Option ConfidenceTier
as_tier (string s) =
    if s == codes "auto"
    then some auto
    else if s == codes "inferred"
    then some inferred
    else if s == codes "low"
    then some low
    else if s == codes "medium"
    then some medium
    else if s == codes "high"
    then some high
    else if s == codes "verified"
    then some verified
    else none
as_tier _ = none

pub as_category-name : (c : SymbolCategory) → as_category (string (category_name c)) ≡ some c
unfolding as_category category_name
as_category-name function = refl
as_category-name data_symbol = refl
as_category-name ram_global = refl

pub as_tier-name : (t : ConfidenceTier) → as_tier (string (tier_name t)) ≡ some t
unfolding as_tier tier_name
as_tier-name auto = refl
as_tier-name inferred = refl
as_tier-name low = refl
as_tier-name medium = refl
as_tier-name high = refl
as_tier-name verified = refl
