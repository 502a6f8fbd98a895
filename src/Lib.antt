-- ===== src/Lib.antt =====
-- A model of rom-analyzer, which finds the symbols of an M32R ROM by matching it against annotated
-- reference ROMs. The parts, and the files that model them:
--
-- Types: the dataclasses of rom_analyzer/types.py. A similarity or score is a finite float that is
--   not negative, and is modelled by its IEEE 754 binary64 pattern: the patterns, as numbers, are in
--   the order of the floats, and the program only compares them.
-- Flash: rom_analyzer/flash_space.py, the unprogrammed runs of the image (Flash/Stops,
--   Flash/Runs, Flash/Align).
-- Ram: rom_analyzer/ram_space.py, the gaps between referenced RAM addresses (Ram/Bounds,
--   Ram/Gaps).
-- Crc: rom_analyzer/crc.py, the CRC bounds in rom_crc_check_step (Crc/Constants, Crc/Operands,
--   Crc/Collect, Crc/Loads, Crc/Window, Crc/Bounded, Crc/Region, Crc/Idiom).
-- Merge: rom_analyzer/merge.py, one match and one symbol for each address (Merge/Rank,
--   Merge/Matches, Merge/Symbols, Merge/Disputes).
-- Propagate: rom_analyzer/propagate.py, labels of matched functions (Propagate/Labels) and the
--   gating of other ECU families (Propagate/Provenance).
-- Registry: rom_analyzer/registry.py, loading (Registry/Load) and selection (Registry/Select).
-- Annotations: the records of rom_analyzer/annotations_io.py, loading (Annotations/Load) and saving
--   (Annotations/Save, Annotations/RoundTrip).
-- Cleanup: rom_analyzer/cleanup.py, its three passes (Cleanup/Duplicates, Cleanup/Erased,
--   Cleanup/Loop, Cleanup/Names).
-- Callgraph: rom_analyzer/callgraph.py, the sizes of functions and the alignment of callees
--   (Callgraph/Align), the decoders (Callgraph/Decode), the anchors
--   (Callgraph/Anchors), bfs_preseed (Callgraph/Bfs), the similarity of bytes
--   (Callgraph/Similarity), bytecode_identity_match (Callgraph/Identity) and gap_fill (Callgraph/Gap).
-- DataRefs and LabelRefs: rom_analyzer/data_refs.py, its references and the labels that matched
--   functions propose (LabelRefs/Agreement).
-- MutTable: rom_analyzer/mut_table.py, the table that get_mut_pointer reads (MutTable/Reads).
-- RamSignature: rom_analyzer/ram_signature.py, the signatures and the candidates
--   (RamSignature/Candidates), the two tie filters (RamSignature/Best, RamSignature/Mutual) and the
--   matches (RamSignature/Matches).
-- Agent: rom_analyzer/agent_enrich.py, the state directory of the naming loop, its queues
--   (Agent/Queue, Agent/Rescore) and its end (Agent/Stop).
-- Enrich: rom_analyzer/enrich.py, the candidates and what is made of them: the names without meaning
--   (Enrich/Names), their classification (Enrich/Classify, Enrich/Items), gathering and merging
--   (Enrich/Gather, Enrich/VoteOrder, Enrich/Majority, Enrich/Merged), the file of verdicts (Enrich/Reconcile,
--   Enrich/RoundTrip), and its application to a store (Enrich/Apply and its children).
-- Pipeline: rom_analyzer/pipeline, match_reference (Pipeline/Reference, Pipeline/Dedup,
--   Pipeline/OneToOne), arbitrate_references (Pipeline/Arbitrate) and classify_and_apply
--   (Pipeline/Enrich, Pipeline/Targets, Pipeline/Writes).
-- CanSlots: rom_analyzer/can_slots.py, the decoding of the identifiers and the search of their tables
--   (CanSlots/Best).
-- Splice: rom_analyzer/mode23_bindings.py, the call sites that a patch replaces (Splice/Nearest).
-- Common: what these share: Python's str as a list of code points (Text), dict as an association
--   list in the order of insertion (Dict), sorted and max (Sort), int where it may be negative (Int)
--   and int(s, 0) on ASCII text (PyInt).
--
-- A Python set of numbers is a list that holds none twice, or one that is only asked for members. A
-- while loop is a function on fuel. The fuel is the length of what is scanned, or more; for gap_fill it
-- is the number of callees of the reference, since every pass but the last pairs one more of them; for
-- bfs_preseed it is the number of anchors and of pairs of callees, since each is queued once; for a
-- name that is made unique it is the length of the longest name in use. The theorems on the results
-- hold with this fuel. An exception is a value that carries its kind.
--
-- The parts pass on what they find: the matches of Callgraph go through Merge and Propagate into the
-- symbols that Merge arbitrates, and the regions that Crc finds classify the blocks of Flash. Pipeline
-- composes them: match_reference runs Callgraph, Propagate, LabelRefs and RamSignature in the order
-- of the code, arbitrate_references runs Merge over the references, and
-- classify_and_apply runs Enrich and Cleanup over the stores of Annotations.
--
-- Not modelled: the Ghidra calls (rom_analyzer/ghidra, rom_analyzer/diff.py), files and console
-- output, the text of reports and linker scripts (rom_analyzer/emit_ld.py and
-- rom_analyzer/pipeline/output.py), the decoding of OBD tables (rom_analyzer/obd_analysis.py), the
-- stage after the matching (rom_analyzer/pipeline/post_match.py), the command line and the scripts.
pub mod Common
pub mod Types
pub mod Flash
pub mod Ram
pub mod Crc
pub mod Merge
pub mod Propagate
pub mod Registry
pub mod Annotations
pub mod Cleanup
pub mod Callgraph
pub mod Agent
pub mod DataRefs
pub mod RamSignature
pub mod Enrich
pub mod Pipeline
pub mod CanSlots
pub mod Splice
pub mod MutTable
pub mod LabelRefs
