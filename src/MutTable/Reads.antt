-- ===== src/MutTable/Reads.antt =====
-- Which reads of get_mut_pointer decide the table of rom_analyzer/mut_table.py.
use rom_analyzer.Common.{
  ℕ, ◌+◌, ◌≡◌, refl, sym, subst, ap, ◌∙◌, ◌↔◌, inl, inr, Bool, ◌&&◌, some, List, [], ◌∷◌, map,
  arith, ltb, leb, nat_eq, if◌then◌else◌, length, filter, Option-cases, ◌≤◌, ◌<◌, ◌≢◌, true, false,
  Option, none, ◌==◌,
}
use rom_analyzer.Common.Text.{Text, codes, text_eq, text_beq_iff}
use rom_analyzer.Common.Pick.{IsFirst, IsOnly, head, first_iff, filter_twice, filter-IsOnly_iff}
use rom_analyzer.Common.Dict.{get_or}
use rom_analyzer.Types.{MatchedFunction}
use rom_analyzer.DataRefs.{DataRefType, DataRef, read, write, scalar}
use rom_analyzer.Callgraph.{HeadlessRun}
use rom_analyzer.Callgraph.Decode.{word, find_mut_table_by_triplet}
use rom_analyzer.MutTable.{
  is_read, MutTableResult, first_named, half_word, add_candidate, candidates, differs, result_of,
  read_refs, find_mut_table_in_run,
}

-- A half word below 0x20000, in the image, that can be the size of the table.
abbrev is_size : List ℕ → DataRef → Bool
is_size rom r =
    ltb r.referenced_address 0x20000
    && leb (r.referenced_address + 2) (length rom)
    && leb 50 (half_word rom r.referenced_address)
    && leb (half_word rom r.referenced_address) 2000

-- A word from 0x20000 on, in the image, that is a pointer into RAM.
abbrev is_table : List ℕ → DataRef → Bool
is_table rom r =
    leb 0x20000 r.referenced_address
    && leb (r.referenced_address + 4) (length rom)
    && leb 0x800000 (word rom r.referenced_address)
    && ltb (word rom r.referenced_address) 0xc00000

with_value : List ℕ → DataRef → DataRef × ℕ
with_value rom r = (r, half_word rom r.referenced_address)

add_candidate_lem :
    (rom : List ℕ) (r : DataRef) (sizes tables : List DataRef)
    → add_candidate rom r (map (with_value rom) sizes, tables) ≡ (
      map (with_value rom) (if is_size rom r then r ∷ sizes else sizes),
      if is_table rom r then r ∷ tables else tables,
    )
unfolding add_candidate with_value
add_candidate_lem rom r sizes tables = ground arith

candidates_lem :
    (rom : List ℕ) (refs : List DataRef)
    → candidates rom refs
      ≡ (map (with_value rom) (filter (is_size rom) refs), filter (is_table rom) refs)
unfolding candidates
candidates_lem rom [] = refl
candidates_lem rom (r ∷ refs) =
    ap (add_candidate rom r) (candidates_lem rom refs)
    ∙ add_candidate_lem rom r (filter (is_size rom) refs) (filter (is_table rom) refs)

-- A read of a half word below 0x20000, in the image, that can be the size of the table.
abbrev pub IsSizeRead : List ℕ → DataRef → Type 0
IsSizeRead rom r =
    (r.ref_type ≡ read)
    × (r.referenced_address < 0x20000)
    × (r.referenced_address + 2 ≤ length rom)
    × (50 ≤ half_word rom r.referenced_address)
    × (half_word rom r.referenced_address ≤ 2000)

-- A read of a word from 0x20000 on, in the image, that is a pointer into RAM.
abbrev pub IsTableRead : List ℕ → DataRef → Type 0
IsTableRead rom r =
    (r.ref_type ≡ read)
    × (0x20000 ≤ r.referenced_address)
    × (r.referenced_address + 4 ≤ length rom)
    × (0x800000 ≤ word rom r.referenced_address)
    × (word rom r.referenced_address < 0xc00000)

-- Of the references, one reads a size and one reads a pointer of the table, and the result has these;
-- the mismatch says that the triplet scan finds a table at another address.
pub record IsRead (rom : List ℕ) (refs : List DataRef) (t : MutTableResult) : Type 0 where
  pub size_ref : DataRef
  pub table_ref : DataRef
  pub one_size : IsOnly (IsSizeRead rom) refs size_ref
  pub one_table : IsOnly (IsTableRead rom) refs table_ref
  pub table_address : t.table_address ≡ table_ref.referenced_address
  pub size_address : t.size_address ≡ size_ref.referenced_address
  pub table_size : t.table_size ≡ half_word rom size_ref.referenced_address
  pub mismatch :
      (t.triplet_mismatch ≡ true)
      ↔ ((a : ℕ) × (find_mut_table_by_triplet rom ≡ some a) × (a ≢ t.table_address))

is_read_iff : (k : DataRefType) → (is_read k ≡ true) ↔ (k ≡ read)
unfolding is_read
is_read_iff read = (λ h. refl, λ h. refl)
is_read_iff write = (λ h. cc, λ h. cc)
is_read_iff scalar = (λ h. cc, λ h. cc)

abbrev reads_size : List ℕ → DataRef → Bool
reads_size rom r = is_read r.ref_type && is_size rom r

abbrev reads_table : List ℕ → DataRef → Bool
reads_table rom r = is_read r.ref_type && is_table rom r

reads_size_iff : (rom : List ℕ) (r : DataRef) → (reads_size rom r ≡ true) ↔ IsSizeRead rom r
reads_size_iff rom r = ground (arith, is_read_iff r.ref_type)

reads_table_iff : (rom : List ℕ) (r : DataRef) → (reads_table rom r ≡ true) ↔ IsTableRead rom r
reads_table_iff rom r = ground (arith, is_read_iff r.ref_type)

IsOnly-size_iff :
    (rom : List ℕ) (refs : List DataRef) (r : DataRef)
    → (filter (is_size rom) (filter (λ r. is_read r.ref_type) refs) ≡ r ∷ [])
      ↔ IsOnly (IsSizeRead rom) refs r
IsOnly-size_iff rom refs r =
    subst (λ t. (t ≡ r ∷ []) ↔ IsOnly (IsSizeRead rom) refs r)
      (sym (filter_twice (λ (r : DataRef). is_read r.ref_type) (is_size rom) refs))
      (filter-IsOnly_iff (reads_size rom) (IsSizeRead rom) (reads_size_iff rom) refs r)

IsOnly-table_iff :
    (rom : List ℕ) (refs : List DataRef) (r : DataRef)
    → (filter (is_table rom) (filter (λ r. is_read r.ref_type) refs) ≡ r ∷ [])
      ↔ IsOnly (IsTableRead rom) refs r
IsOnly-table_iff rom refs r =
    subst (λ t. (t ≡ r ∷ []) ↔ IsOnly (IsTableRead rom) refs r)
      (sym (filter_twice (λ (r : DataRef). is_read r.ref_type) (is_table rom) refs))
      (filter-IsOnly_iff (reads_table rom) (IsTableRead rom) (reads_table_iff rom) refs r)

pub differs_iff :
    (o : Option ℕ) (addr : ℕ) → (differs o addr ≡ true) ↔ ((a : ℕ) × (o ≡ some a) × (a ≢ addr))
unfolding differs
differs_iff none addr = (λ h. cc, λ (a, e, n). cc)
differs_iff (some b) addr =
    (λ h. (b, refl, ground arith), λ (a, e, n). let same : b ≡ a = cc in ground arith)

same_truth : (a b : Bool) → (a ≡ true) ↔ (b ≡ true) → a ≡ b
same_truth true b h = sym (h.0 refl)
same_truth false true h = h.1 refl
same_truth false false h = refl

first_named_lem :
    (name : Text) (matches : List MatchedFunction)
    → first_named name matches ≡ head (filter (λ (m : MatchedFunction). m.ref_name == name) matches)
unfolding first_named head
first_named_lem name [] = refl
first_named_lem name (m ∷ matches) = ground (arith, first_named_lem name matches)

first_named_iff :
    (name : Text) (matches : List MatchedFunction) (m : MatchedFunction)
    → (first_named name matches ≡ some m)
      ↔ IsFirst (λ (m : MatchedFunction). m.ref_name ≡ name) matches m
first_named_iff name matches m =
    subst (λ t. (t ≡ some m) ↔ IsFirst (λ (m : MatchedFunction). m.ref_name ≡ name) matches m)
      (sym (first_named_lem name matches))
      (first_iff (λ (m : MatchedFunction). m.ref_name == name)
        (λ (m : MatchedFunction). m.ref_name ≡ name) (λ m. text_beq_iff m.ref_name name) matches m)

abbrev result : List ℕ → DataRef → DataRef → MutTableResult
result rom s u = record {
  table_address = u.referenced_address;
  table_size = half_word rom s.referenced_address;
  size_address = s.referenced_address;
  triplet_mismatch = differs (find_mut_table_by_triplet rom) u.referenced_address;
}

result_of→IsRead :
    (rom : List ℕ) (refs sizes tables : List DataRef) (t : MutTableResult)
    → filter (is_size rom) (filter (λ r. is_read r.ref_type) refs) ≡ sizes
    → filter (is_table rom) (filter (λ r. is_read r.ref_type) refs) ≡ tables
    → result_of rom (map (with_value rom) sizes, tables) ≡ some t
    → IsRead rom refs t
unfolding result_of with_value
result_of→IsRead rom refs [] tables t p q h = cc
result_of→IsRead rom refs (s ∷ []) [] t p q h = cc
result_of→IsRead rom refs (s ∷ []) (u ∷ []) t p q h =
    let e : result rom s u ≡ t = cc in
    record {
      size_ref = s;
      table_ref = u;
      one_size = (IsOnly-size_iff rom refs s).0 p;
      one_table = (IsOnly-table_iff rom refs u).0 q;
      table_address = sym (ap (λ (x : MutTableResult). x.table_address) e);
      size_address = sym (ap (λ (x : MutTableResult). x.size_address) e);
      table_size = sym (ap (λ (x : MutTableResult). x.table_size) e);
      mismatch =
          subst
            (λ (x : MutTableResult).
              (x.triplet_mismatch ≡ true)
              ↔ ((a : ℕ) × (find_mut_table_by_triplet rom ≡ some a) × (a ≢ x.table_address)))
            e (differs_iff (find_mut_table_by_triplet rom) u.referenced_address);
    }
result_of→IsRead rom refs (s ∷ []) (u ∷ v ∷ us) t p q h = cc
result_of→IsRead rom refs (s ∷ r ∷ rs) tables t p q h = cc

IsRead→result :
    (rom : List ℕ) (refs : List DataRef) (t : MutTableResult) (d : IsRead rom refs t)
    → result rom d.size_ref d.table_ref ≡ t
IsRead→result rom refs t d = ground (
  arith,
  d.table_address,
  d.size_address,
  d.table_size,
  mismatches,
  ap (differs (find_mut_table_by_triplet rom)) d.table_address,
)
  where
    scan :
        (differs (find_mut_table_by_triplet rom) t.table_address ≡ true)
        ↔ ((a : ℕ) × (find_mut_table_by_triplet rom ≡ some a) × (a ≢ t.table_address))
    scan = differs_iff (find_mut_table_by_triplet rom) t.table_address

    mismatches : t.triplet_mismatch ≡ differs (find_mut_table_by_triplet rom) t.table_address
    mismatches =
        same_truth t.triplet_mismatch (differs (find_mut_table_by_triplet rom) t.table_address)
          (λ h. scan.1 (d.mismatch.0 h), λ h. d.mismatch.1 (scan.0 h))

IsRead→result_of :
    (rom : List ℕ) (refs : List DataRef) (t : MutTableResult)
    → IsRead rom refs t
    → result_of rom (
      map (with_value rom) (filter (is_size rom) (filter (λ r. is_read r.ref_type) refs)),
      filter (is_table rom) (filter (λ r. is_read r.ref_type) refs),
    )
      ≡ some t
unfolding result_of with_value
IsRead→result_of rom refs t d = rw ((IsOnly-size_iff rom refs d.size_ref).1 d.one_size) (
    rw ((IsOnly-table_iff rom refs d.table_ref).1 d.one_table)
      (ap some (IsRead→result rom refs t d)))

-- find_mut_table_in_run gives a result exactly when a match is named get_mut_pointer and, of the
-- references of the first such match in the new image, exactly one reads a plausible size below
-- 0x20000 and exactly one reads, from there on, a word that points into RAM; the result has their
-- addresses and the size, and its flag is set exactly when the triplet scan finds a table elsewhere.
pub find_mut_table_in_run_iff :
    (matches : List MatchedFunction) (new_run : HeadlessRun) (rom : List ℕ) (t : MutTableResult)
    → (find_mut_table_in_run matches new_run rom ≡ some t) ↔ (
        (gmp : MatchedFunction) × IsFirst
          (λ (m : MatchedFunction). m.ref_name ≡ codes "get_mut_pointer")
          matches
          gmp
        × IsRead rom (get_or new_run.data_refs gmp.new_address []) t)
unfolding find_mut_table_in_run read_refs
find_mut_table_in_run_iff matches new_run rom t = (
  λ h. elim (Option-cases (first_named (codes "get_mut_pointer") matches)) [
    | inl e ↦ absurd (ground arith)
    | inr (gmp, e) ↦
        let refs = get_or new_run.data_refs gmp.new_address [] in
        let reads = filter (λ (r : DataRef). is_read r.ref_type) refs in
        let found : result_of rom (candidates rom reads) ≡ some t = ground arith in
        (
          gmp,
          (first_named_iff (codes "get_mut_pointer") matches gmp).0 e,
          result_of→IsRead rom refs (filter (is_size rom) reads) (filter (is_table rom) reads) t
              refl refl (ap (result_of rom) (sym (candidates_lem rom reads)) ∙ found),
        )
  ],
  λ (gmp, e, d).
      let refs = get_or new_run.data_refs gmp.new_address [] in
      let reads = filter (λ (r : DataRef). is_read r.ref_type) refs in
      let found = ap (result_of rom) (candidates_lem rom reads) ∙ IsRead→result_of rom refs t d in
      ground (arith, (first_named_iff (codes "get_mut_pointer") matches gmp).1 e, found),
)
