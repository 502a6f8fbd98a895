-- ===== src/MutTable/Examples.antt =====
-- The theorem on rom_analyzer/mut_table.py at a function that reads a size and a pointer of the table.
use rom_analyzer.Common.{
  ◌+◌, ◌≡◌, ◌↔◌, refl, sym, ap, ◌∙◌, none, some, List, [], ◌∷◌, ℕ, nat_eq, zero, suc, get_elem?,
  length, arith,
}
use rom_analyzer.Common.Text.{codes}
use rom_analyzer.Common.Pick.{IsFirst}
use rom_analyzer.Common.Dict.{get, get_or}
use rom_analyzer.Types.{MatchedFunction}
use rom_analyzer.DataRefs.{DataRefType, DataRef, read, write}
use rom_analyzer.Callgraph.{HeadlessRun}
use rom_analyzer.Callgraph.Decode.{byte, word, find_mut_table_by_triplet}
use rom_analyzer.MutTable.{MutTableResult, half_word, differs, find_mut_table_in_run}
use rom_analyzer.MutTable.Reads.{
  IsRead, IsSizeRead, IsTableRead, differs_iff, find_mut_table_in_run_iff,
}

abbrev get_mut_pointer : MatchedFunction
get_mut_pointer = record {
  ref_name = codes "get_mut_pointer";
  ref_address = 0x100;
  new_address = 0x200;
  similarity = 0x3ff0000000000000;
  source = codes "mut_table";
  reference = [];
}

abbrev reference : DataRefType → ℕ → DataRef
reference kind address = record {
  instruction_offset = 4;
  referenced_address = address;
  label = none;
  ref_type = kind;
}

-- The first reference is no read, and of the other two one reads the size and one the table.
abbrev run : HeadlessRun
run = record {
  functions = 0x200 ∷ [];
  symbols = [];
  callees = [];
  data_refs = (0x200, reference write 2 ∷ reference read 2 ∷ reference read 0x20000 ∷ []) ∷ [];
}

-- `n` zeros in front of the bytes.
padded : ℕ → List ℕ → List ℕ
padded zero bytes = bytes
padded (suc n) bytes = 0 ∷ padded n bytes

get_elem?-padded :
    (n k : ℕ) (bytes : List ℕ) → get_elem? (padded n bytes) (n + k) ≡ get_elem? bytes k
unfolding padded
get_elem?-padded zero k bytes = let e : zero + k ≡ k = omega arith in ap (get_elem? bytes) e
get_elem?-padded (suc n) k bytes =
    let e : suc n + k ≡ suc (n + k) = omega arith in
    ap (get_elem? (0 ∷ padded n bytes)) e ∙ get_elem?-padded n k bytes

length-padded : (n : ℕ) (bytes : List ℕ) → length (padded n bytes) ≡ n + length bytes
unfolding padded
length-padded zero bytes = omega arith
length-padded (suc n) bytes = omega (arith, length-padded n bytes)

-- The size 100 at 2, and a pointer to 0x800000 at 0x20000.
abbrev pointer : List ℕ
pointer = 0 ∷ 0x80 ∷ 0 ∷ 0 ∷ []

abbrev image : List ℕ
image = 0 ∷ 0 ∷ 0 ∷ 100 ∷ padded 0x1fffc pointer

abbrev table : MutTableResult
table = record {
  table_address = 0x20000;
  table_size = 100;
  size_address = 2;
  triplet_mismatch = differs (find_mut_table_by_triplet image) 0x20000;
}

byte_of : (rom : List ℕ) (i b : ℕ) → get_elem? rom i ≡ some b → byte rom i ≡ b
unfolding byte
byte_of rom i b h = ground arith

pointed : word image 0x20000 ≡ 0x800000
unfolding word
pointed = omega (
  arith,
  byte_of image 0x20000 0 (get_elem?-padded 0x1fffc 0 pointer),
  byte_of image 0x20001 0x80 (get_elem?-padded 0x1fffc 1 pointer),
  byte_of image 0x20002 0 (get_elem?-padded 0x1fffc 2 pointer),
  byte_of image 0x20003 0 (get_elem?-padded 0x1fffc 3 pointer),
)

size_value : half_word image 2 ≡ 100
unfolding half_word byte
size_value = refl

image_length : length image ≡ 0x20004
image_length = omega (arith, length-padded 0x1fffc pointer)

table_read : IsTableRead image (reference read 0x20000)
table_read =
    (refl, omega arith, omega (arith, image_length), omega (arith, pointed), omega (arith, pointed))

size_read : IsSizeRead image (reference read 2)
size_read = (
  refl,
  omega arith,
  omega (arith, image_length),
  omega (arith, size_value),
  omega (arith, size_value),
)

reads : IsRead image (get_or run.data_refs 0x200 []) table
unfolding get_or get
reads = record {
  size_ref = reference read 2;
  table_ref = reference read 0x20000;
  one_size = record {
    first = record {
      front = reference write 2 ∷ [];
      rest = reference read 0x20000 ∷ [];
      split = refl;
      none_before = (λ q. ground arith, tt);
      holds = size_read;
    };
    none_behind = (λ q. omega (arith, q.1), tt);
  };
  one_table = record {
    first = record {
      front = reference write 2 ∷ reference read 2 ∷ [];
      rest = [];
      split = refl;
      none_before = (λ q. ground arith, (λ q. omega (arith, q.1), tt));
      holds = table_read;
    };
    none_behind = tt;
  };
  table_address = refl;
  size_address = refl;
  table_size = sym size_value;
  mismatch = differs_iff (find_mut_table_by_triplet image) 0x20000;
}

abbrev IsNamed : MatchedFunction → Type 0
IsNamed m = m.ref_name ≡ codes "get_mut_pointer"

first : IsFirst IsNamed (get_mut_pointer ∷ []) get_mut_pointer
first = record { front = []; rest = []; split = refl; none_before = tt; holds = refl }

found_table : find_mut_table_in_run (get_mut_pointer ∷ []) run image ≡ some table
found_table =
    (find_mut_table_in_run_iff (get_mut_pointer ∷ []) run image table).1
      (get_mut_pointer, first, reads)

find_mut_table_in_run_iff_example :
    (find_mut_table_in_run (get_mut_pointer ∷ []) run image ≡ some table) ↔ (
      (gmp : MatchedFunction) × IsFirst
        (λ (m : MatchedFunction). m.ref_name ≡ codes "get_mut_pointer")
        (get_mut_pointer ∷ [])
        gmp
      × IsRead image (get_or run.data_refs gmp.new_address []) table)
find_mut_table_in_run_iff_example = find_mut_table_in_run_iff (get_mut_pointer ∷ []) run image table
