-- ===== src/Pipeline/OneToOne.antt =====
-- The matches that match_reference of rom_analyzer/pipeline/reference.py gives.
use rom_analyzer.Common.{
  ◌≡◌, ◌≢◌, refl, sym, ap, subst, ◌∙◌, ◌⊎◌, inl, inr, Bool, true, false, not, ◌&&◌, Option, none,
  some, List, [], ◌∷◌, ◌++◌, map, arith, In, Pairwise, Pairwise-append, In-append, In-map, map-In,
  if◌then◌else◌,
}
use rom_analyzer.Common.Mapped.{Pairwise-map}
use rom_analyzer.Common.Text.{Text}
use rom_analyzer.Types.{MatchedFunction, PropagatedSymbol}
use rom_analyzer.RamSignature.{signature_match}
use rom_analyzer.RamSignature.Matches.{match_by_ram_signature-IsOneToOne}
use rom_analyzer.RamSignature.Total.{match_by_ram_signature_total}
use rom_analyzer.Pipeline.{Run, ReferenceMatchResult}
use rom_analyzer.Pipeline.Dedup.{dedup_matches, dedup_matches_lem}
use rom_analyzer.Pipeline.Reference.{
  Inputs, raw_matches, is_given, min_jaccard, signature_pass, sig_matches_of, ram_labels_of,
  with_reference, reference_result, match_reference,
}

-- No two share an address on either side.
pub record IsOneToOne (ms : List MatchedFunction) : Type 0 where
  pub refs : Pairwise (λ (a b : MatchedFunction). a.ref_address ≢ b.ref_address) ms
  pub news : Pairwise (λ (a b : MatchedFunction). a.new_address ≢ b.new_address) ms

-- They share no address with the matches that exist.
record IsApart (existing ms : List MatchedFunction) : Type 0 where
  pub refs : (a b : MatchedFunction) → In a existing → In b ms → a.ref_address ≢ b.ref_address
  pub news : (a b : MatchedFunction) → In a existing → In b ms → a.new_address ≢ b.new_address

-- What the signatures add to matches that exist.
abbrev Adds : List MatchedFunction → Option (List MatchedFunction) → Type 0
Adds matches o =
    (sig : List MatchedFunction) × (o ≡ some sig) × IsOneToOne sig × IsApart matches sig

Adds-nothing : (matches : List MatchedFunction) → Adds matches (some [])
Adds-nothing matches = (
  [],
  refl,
  record { refs = tt; news = tt },
  record { refs = λ a b m n. absurd n; news = λ a b m n. absurd n },
)

signature_pass-Adds :
    (i : Inputs) (ref_run : Run) (matches : List MatchedFunction) (ram : List PropagatedSymbol)
    → Adds matches (signature_pass i ref_run matches ram)
unfolding signature_pass
signature_pass-Adds i ref_run matches ram =
    let (sig, e) = match_by_ram_signature_total 3 min_jaccard (omega arith) _ _ matches _ in
    let (cands, q, each_match, refs, news) =
      match_by_ram_signature-IsOneToOne _ _ matches _ 3 min_jaccard sig e in
    (
      sig,
      e,
      record { refs = refs; news = news },
      record {
        refs = λ a b m n p.
            let (c, v, w, same) = each_match b n in
            v.ref_open (
              subst (λ t. In t (map (λ (x : MatchedFunction). x.ref_address) matches))
                (p
                  ∙ sym (ap (λ (x : MatchedFunction). x.ref_address) same)
                  ∙ unfold signature_match in refl)
                (map-In (λ (x : MatchedFunction). x.ref_address) a matches m));
        news = λ a b m n p.
            let (c, v, w, same) = each_match b n in
            v.new_open (
              subst (λ t. In t (map (λ (x : MatchedFunction). x.new_address) matches))
                (p
                  ∙ sym (ap (λ (x : MatchedFunction). x.new_address) same)
                  ∙ unfold signature_match in refl)
                (map-In (λ (x : MatchedFunction). x.new_address) a matches m));
      },
    )

no_run :
    (i : Inputs) (matches : List MatchedFunction) (s : PropagatedSymbol)
    (ram : List PropagatedSymbol)
    → i.ref_run ≡ none
    → sig_matches_of i matches (s ∷ ram) ≡ some []
unfolding sig_matches_of
no_run i matches s ram e = rw e

with_run :
    (i : Inputs) (matches : List MatchedFunction) (s : PropagatedSymbol)
    (ram : List PropagatedSymbol) (ref_run : Run)
    → i.ref_run ≡ some ref_run
    → sig_matches_of i matches (s ∷ ram) ≡ (
        if not i.is_self_diff && is_given ref_run.ram_data_refs && is_given i.new_run.ram_data_refs
        then signature_pass i ref_run matches (s ∷ ram)
        else some [])
unfolding sig_matches_of
with_run i matches s ram ref_run e = rw e

sig_matches_of-Adds :
    (i : Inputs) (matches : List MatchedFunction) (ram : List PropagatedSymbol) (o : Option Run)
    → i.ref_run ≡ o
    → Adds matches (sig_matches_of i matches ram)
sig_matches_of-Adds i matches [] o e = unfold sig_matches_of in Adds-nothing matches
sig_matches_of-Adds i matches (s ∷ ram) none e =
    subst (Adds matches) (sym (no_run i matches s ram e)) (Adds-nothing matches)
sig_matches_of-Adds i matches (s ∷ ram) (some ref_run) e =
    subst (Adds matches) (sym (with_run i matches s ram ref_run e)) (
      guarded
        (not i.is_self_diff && is_given ref_run.ram_data_refs && is_given i.new_run.ram_data_refs))
  where
    guarded :
        (b : Bool)
        → Adds matches (if b then signature_pass i ref_run matches (s ∷ ram) else some [])
    guarded true = signature_pass-Adds i ref_run matches (s ∷ ram)
    guarded false = Adds-nothing matches

together :
    (matches sig : List MatchedFunction)
    → IsOneToOne matches
    → IsOneToOne sig
    → IsApart matches sig
    → IsOneToOne (matches ++ sig)
together matches sig v w a = record {
  refs = Pairwise-append matches sig v.refs w.refs a.refs;
  news = Pairwise-append matches sig v.news w.news a.news;
}

tagged :
    (id : Text) (ms : List MatchedFunction)
    → IsOneToOne ms
    → IsOneToOne (map (with_reference id) ms)
unfolding with_reference
tagged id ms v = record {
  refs = Pairwise-map (with_reference id) (λ a b. a.ref_address ≢ b.ref_address) ms v.refs;
  news = Pairwise-map (with_reference id) (λ a b. a.new_address ≢ b.new_address) ms v.news;
}

-- match_reference gives a result for every input, and in it no two matches share an address on either
-- side, whichever phases they come from; each bears the id of the reference, and its addresses are those
-- of a match of the phases before the RAM signatures or of a match by them.
pub match_reference-IsOneToOne :
    (i : Inputs)
    → (r : ReferenceMatchResult) × (match_reference i ≡ some r)
      × IsOneToOne r.matches
      × ((m : MatchedFunction)
          → In m r.matches
          → (a : MatchedFunction) × (In a (raw_matches i) ⊎ In a r.sig_matches)
            × (with_reference i.entry.id a ≡ m))
unfolding match_reference reference_result
match_reference-IsOneToOne i =
    let matches = dedup_matches (raw_matches i) in
    let (refs, news, from) = dedup_matches_lem (raw_matches i) in
    let (sig, e, v, apart) =
      sig_matches_of-Adds i matches (ram_labels_of i matches) i.ref_run refl in
    (
      reference_result i sig,
      rw e,
      tagged i.entry.id (matches ++ sig)
          (together matches sig (record { refs = refs; news = news }) v apart),
      λ m n.
          let (a, o, q) = In-map (with_reference i.entry.id) m (matches ++ sig) n in
          (a, elim ((In-append a matches sig).0 o) [ inl p ↦ inl (from a p) | inr p ↦ inr p ], q),
    )
