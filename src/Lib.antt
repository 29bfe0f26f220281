-- ===== src/Lib.antt =====
-- delink splits a linked binary back into relocatable objects. It reads the symbols of the binary,
-- attributes its code to compilation units, recovers from the machine code the relocations that the
-- linker applied, and writes one object for each unit. This library models that core.
--
-- How the parts meet: a symbol table (crates/delink-core/src/symtab.rs) or DWARF gives the units of
-- crates/delink-core/src/cu.rs; crates/delink-core/src/symbols.rs turns the units into a global
-- table with unique names and answers what an address refers to; a recovery pass for each
-- architecture asks that table for every branch and data reference of the code.
--
-- Prelude and its children: Boolean tests, lists under native numbers, machine integers as numbers
-- with their wrap-around written out, signed integers, texts as byte lists, byte slices.
-- Collections: BTreeMap as an ordered list of entries, HashMap as a list of entries whose order is
-- never read, sorting, deduplication and filtering.
-- Arch: crates/delink-arch/src/lib.rs.
-- Cu: the records of crates/delink-core/src/cu.rs, Cu/Ranges compute_debug_abbrev_range and
-- compute_debug_line_range.
-- Symbols: crates/delink-core/src/symbols.rs. Types has the data, Symbols the lookups (resolve,
-- resolve_into, resolve_data, resolve_got_slot) and maps_from_cus, Names disambiguate_names, Dynamic
-- the dynamic relocations and build_got_maps, Plt build_plt_map, Build the table of a binary.
-- Binary: crates/delink-core/src/binary.rs. Binary has the reads at an address, on sections that stand
-- for what the object crate gives, Load the checks of a file's header.
-- Symtab: crates/delink-core/src/symtab.rs. Read has read_symtab, Symtab collect_text_functions, Orphans
-- find_orphan_regions and text_functions, Index SymtabIndex::build, data_objects and
-- attribute_functions, Index/Units to_cu_index.
-- Arm: crates/delink-arm/src/recover.rs. Arm has the data and classify, Pools scan_pool_words and
-- code_runs, Emit handle_branch, emit_pcrel and emit_got, Recover the pass itself as a function on a
-- state of tracker, claims and output, Addend apply_addend.
-- Aarch64: crates/delink-aarch64/src/recover.rs. Aarch64 has the data and what is read of the
-- operands, Recover the pass on a state of tracker and output.
-- X64: crates/delink-x86_64/src/recover.rs. X64 has the data, Tables the jump tables, Recover the pass
-- on a state of output, marks of the image base and thread-local candidates; iced-x86 and the
-- SymbolResolver of the caller are parameters.
-- X86: crates/delink-x86/src/recover.rs, with the decoder of iced-x86 and the SymbolResolver of the
-- caller as parameters.
-- Dwarf: crates/delink-emit/src/dwarf_relocs.rs. Leb has read_uleb128 and read_sleb128, Forms form_size,
-- Abbrevs parse_abbrev_table, Info scan_debug_info, Line scan_debug_line, Ranges scan_debug_ranges
-- and scan_debug_loc. Restores says what a relocation of a DWARF section has to mean. There an
-- outcome has a case for an index that panics and one for a loop that is not at its end.
--
-- A &mut output or map is a state that each step takes and returns. A Result is an option where the
-- error carries nothing the code reads, and a sum otherwise. u64 and usize sums are taken modulo
-- 2 ^ 64, as in the release profile. The capstone disassembler is a parameter: an arbitrary
-- function from bytes to decoded instructions, with no assumption on what it decodes. The sections
-- of the object crate are a parameter in the same way.
--
-- Every loop is a structural recursion on what it walks, but for these: code_runs makes one round for
-- each whole word of the code, as its condition says, chunks_exact has as many rounds as bytes, each
-- of which takes one at least, and the growth of the pool set in recover has the three rounds of the
-- source. The entries of a jump table of x86-64 have as many rounds as bytes, of which each takes four,
-- and the stubs of a PLT as many as fit in the section. The loops of Dwarf and Cu/Ranges walk a cursor and have one round for each byte and
-- one more: a round reads a byte at least, and a cursor that a length leads back is written out.
-- String::from_utf8_lossy and from_utf8 are parameters.
--
-- Not modelled: log lines, the reading of files, DWARF through gimli, the writing of objects, and
-- the crates for Mach-O, PE and IDA exports.
pub mod Prelude
pub mod Collections
pub mod Arch
pub mod Cu
pub mod Symbols
pub mod Symtab
pub mod Arm
pub mod Aarch64
pub mod X86
pub mod Binary
pub mod X64
pub mod Dwarf
