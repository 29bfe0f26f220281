-- ===== src/Symbols/Plt/Layout.antt =====
-- crates/delink-core/src/symbols.rs, `build_plt_map`: a `.plt` of ARM that a linker has laid out.
use delink.Prelude.{
  ℕ, suc, ◌+◌, ◌-◌, ◌*◌, ◌%◌, ◌^◌, ◌<◌, ◌≤◌, ◌≡◌, refl, ap, ◌∙◌, sym, inl, inr, true, Option, none,
  some, List, [], ◌∷◌, ◌++◌, length, drop, leb, ◌==◌, if◌then◌else◌, or_else, arith, length-append,
  length-drop, take-append, drop-append, drop-drop, Option-cases,
}
use delink.Prelude.Text.{Str}
use delink.Prelude.Eq.{nat_eq}
use delink.Prelude.Bytes.{slice}
use delink.Prelude.Words.{add_u64}
use delink.Collections.HashMap
use delink.Collections.HashMap.{HashMap, get-insert}
use delink.Binary.{ElfSection}
use delink.Symbols.Dynamic.{DynReloc, add_name}
use delink.Symbols.Dynamic.Slots.{last_of, name_for, get-add_name, or_else_assoc, or_else-none}
use delink.Symbols.Plt.{slot_names_from, stub_name, decode_stubs, arm_stub_count, decode_arm_plt}
use delink.Symbols.Plt.Decode.{encode_stub, arm_plt_entry_got_slot-encode_stub}

-- A stub for each slot, from the address of the first one on.
abbrev pub stubs_for : (stub_addr : ℕ) → List ℕ → List ℕ
stubs_for stub_addr [] = []
stubs_for stub_addr (slot ∷ slots) =
    encode_stub (slot - (stub_addr + 8)) ++ stubs_for (stub_addr + 12) slots

-- Each slot is behind its stub, in reach of it, and the stubs are addresses.
abbrev pub AreInReach : (stub_addr : ℕ) → List ℕ → Type 0
AreInReach stub_addr [] = Unit
AreInReach stub_addr (slot ∷ slots) =
    (stub_addr + 8 ≤ slot)
    × (slot < stub_addr + 8 + 2 ^ 28)
    × (slot < 2 ^ 64)
    × AreInReach (stub_addr + 12) slots

-- The stub's entry, where its slot has a name.
abbrev add_stub : ℕ → Option Str → HashMap ℕ Str → HashMap ℕ Str
add_stub stub_addr none m = m
add_stub stub_addr (some name) m = HashMap.insert stub_addr name m

-- What a map has for the stubs, by the slots that they read.
abbrev pub MapsStubs : HashMap ℕ Str → (ℕ → Option Str) → (stub_addr : ℕ) → List ℕ → Type 0
MapsStubs m name stub_addr [] = Unit
MapsStubs m name stub_addr (slot ∷ slots) =
    (HashMap.get stub_addr m ≡ name slot) × MapsStubs m name (stub_addr + 12) slots

length-encode_stub : (distance : ℕ) → length (encode_stub distance) ≡ 12
unfolding encode_stub
length-encode_stub distance = refl

length-stubs_for :
    (stub_addr : ℕ) (slots : List ℕ) → length (stubs_for stub_addr slots) ≡ 12 * length slots
length-stubs_for stub_addr [] = refl
length-stubs_for stub_addr (slot ∷ slots) = omega (
  arith,
  length-append (encode_stub (slot - (stub_addr + 8))) (stubs_for (stub_addr + 12) slots),
  length-encode_stub (slot - (stub_addr + 8)),
  length-stubs_for (stub_addr + 12) slots,
)

-- The bytes of the first stub, where the rest of `.plt` starts with it.
slice-head :
    (bytes stub rest : List ℕ) (cursor : ℕ)
    → length stub ≡ 12
    → drop cursor bytes ≡ stub ++ rest
    → slice bytes cursor (cursor + 12) ≡ some stub
unfolding slice
slice-head bytes stub rest cursor size here =
    let total = length-drop cursor bytes in
    let whole = ap length here in
    let sum = length-append stub rest in
    let guard : leb (cursor + 12) (length bytes) ≡ true = ground arith in
    let forward : leb cursor (cursor + 12) ≡ true = ground arith in
    let width : cursor + 12 - cursor ≡ 12 = omega arith in
    rw (forward, guard, here, width, take-append 12 stub rest size)

stub_name-encode_stub :
    (names : HashMap ℕ Str) (plt_start cursor slot : ℕ)
    → plt_start + cursor + 8 ≤ slot
    → slot < plt_start + cursor + 8 + 2 ^ 28
    → slot < 2 ^ 64
    → stub_name names plt_start cursor (encode_stub (slot - (plt_start + cursor + 8)))
      ≡ HashMap.get slot names
unfolding stub_name
stub_name-encode_stub names plt_start cursor slot low high word =
    let distance = slot - (plt_start + cursor + 8) in
    let decoded =
      arm_plt_entry_got_slot-encode_stub distance (add_u64 plt_start cursor) (omega arith) in
    rw (decoded, stub_name) (ap (λ a. HashMap.get a names) (omega arith))

get-add_stub :
    (k a : ℕ) (name : Option Str) (m : HashMap ℕ Str)
    → HashMap.get k (add_stub a name m)
      ≡ (if k == a then or_else name (HashMap.get k m) else HashMap.get k m)
get-add_stub k a none m = ground arith
get-add_stub k a (some name) m = ground (arith, get-insert k a name m)

-- A round at a stub.
decode_stubs-step :
    (rounds : ℕ) (names : HashMap ℕ Str) (plt_start size : ℕ) (bytes stub rest : List ℕ)
    (cursor slot : ℕ) (m : HashMap ℕ Str)
    → cursor + 12 ≤ size
    → plt_start + cursor < 2 ^ 64
    → length stub ≡ 12
    → drop cursor bytes ≡ stub ++ rest
    → stub_name names plt_start cursor stub ≡ HashMap.get slot names
    → decode_stubs (suc rounds) names plt_start size bytes cursor m
      ≡ decode_stubs rounds names plt_start size bytes
          (cursor + 12)
          (add_stub (plt_start + cursor) (HashMap.get slot names) m)
unfolding decode_stubs
decode_stubs-step rounds names plt_start size bytes stub rest cursor slot m fits word width here
      named =
    let guard : leb (cursor + 12) size ≡ true = ground arith in
    let addr : (plt_start + cursor) % 2 ^ 64 ≡ plt_start + cursor = omega arith in
    rw (guard, slice-head bytes stub rest cursor width here, named)
      (elim (Option-cases (HashMap.get slot names)) [
        | inl absent ↦ rw absent refl
        | inr (name, found) ↦ rw (found, addr) refl
      ])

-- The stubs, one after the other: each gets the name of its slot, and what the map had below stays.
decode_stubs-stubs_for :
    (names : HashMap ℕ Str) (plt_start size : ℕ) (bytes slots : List ℕ) (cursor : ℕ)
    (m : HashMap ℕ Str)
    → size ≡ cursor + 12 * length slots
    → drop cursor bytes ≡ stubs_for (plt_start + cursor) slots
    → AreInReach (plt_start + cursor) slots
    → ((k : ℕ) → plt_start + cursor ≤ k → HashMap.get k m ≡ none)
    → (out : HashMap ℕ Str) × (decode_stubs (length slots) names plt_start size bytes cursor m
        ≡ some out)
      × MapsStubs out (λ slot. HashMap.get slot names) (plt_start + cursor) slots
      × ((k : ℕ) → k < plt_start + cursor → HashMap.get k out ≡ HashMap.get k m)
unfolding decode_stubs
decode_stubs-stubs_for names plt_start size bytes [] cursor m total here reach fresh =
    (m, refl, tt, λ k h. refl)
decode_stubs-stubs_for names plt_start size bytes (slot ∷ slots) cursor m total here reach fresh =
    let stub_addr = plt_start + cursor in
    let stub = encode_stub (slot - (stub_addr + 8)) in
    let more = stubs_for (stub_addr + 12) slots in
    let m' = add_stub stub_addr (HashMap.get slot names) m in
    let next : drop (cursor + 12) bytes ≡ more =
      sym (drop-drop cursor 12 bytes)
      ∙ ap (drop 12) here
      ∙ drop-append 12 stub more (length-encode_stub (slot - (stub_addr + 8))) in
    let assoc : plt_start + (cursor + 12) ≡ stub_addr + 12 = omega arith in
    let (out, decoded, mapped, kept) =
      decode_stubs-stubs_for names plt_start size bytes slots (cursor + 12) m' (omega arith)
        (rw assoc next) (rw assoc reach.3)
        (λ k above.
          get-add_stub k stub_addr (HashMap.get slot names) m ∙ ground (arith, fresh k)) in
    let step =
      decode_stubs-step (length slots) names plt_start size bytes stub more cursor slot m
        (omega arith) (omega (arith, reach.0, reach.2))
        (length-encode_stub (slot - (stub_addr + 8))) here
        (stub_name-encode_stub names plt_start cursor slot reach.0 reach.1 reach.2) in
    let at : HashMap.get stub_addr out ≡ HashMap.get slot names =
      kept stub_addr (omega arith)
      ∙ get-add_stub stub_addr stub_addr (HashMap.get slot names) m
      ∙ ground (arith, fresh stub_addr (omega arith)) in
    (
      out,
      step ∙ decoded,
      (at, rw assoc at mapped),
      λ k below.
          kept k (omega arith) ∙ get-add_stub k stub_addr (HashMap.get slot names) m ∙ ground arith,
    )

get-slot_names_from :
    (slot : ℕ) (rels : List DynReloc) (names : HashMap ℕ Str)
    → HashMap.get slot (slot_names_from rels names)
      ≡ or_else (last_of (name_for slot) rels) (HashMap.get slot names)
unfolding slot_names_from
get-slot_names_from slot [] names = refl
get-slot_names_from slot (r ∷ rels) names =
    get-slot_names_from slot rels (add_name r names)
    ∙ rw (
      get-add_name slot r names,
      or_else_assoc (last_of (name_for slot) rels) (name_for slot r) (HashMap.get slot names),
    )

MapsStubs-ext :
    (m : HashMap ℕ Str) (f g : ℕ → Option Str) (stub_addr : ℕ) (slots : List ℕ)
    → ((slot : ℕ) → f slot ≡ g slot)
    → MapsStubs m f stub_addr slots
    → MapsStubs m g stub_addr slots
MapsStubs-ext m f g stub_addr [] same h = tt
MapsStubs-ext m f g stub_addr (slot ∷ slots) same h =
    (h.0 ∙ same slot, MapsStubs-ext m f g (stub_addr + 12) slots same h.1)

-- A .plt that a linker has laid out for slots in reach, behind a header of 20 bytes, is decoded
-- without an index out of range, and each stub gets the name that the last relocation of its slot
-- gives: none, where no relocation of the slot has a name.
pub decode_arm_plt-stubs_for :
    (rels : List DynReloc) (plt_start : ℕ) (section : ElfSection) (header slots : List ℕ)
    → length header ≡ 20
    → section.size ≡ 20 + 12 * length slots
    → AreInReach (plt_start + 20) slots
    → (m : HashMap ℕ Str) × (decode_arm_plt rels plt_start section
          (header ++ stubs_for (plt_start + 20) slots)
        ≡ some m)
      × MapsStubs m (λ slot. last_of (name_for slot) rels) (plt_start + 20) slots
unfolding decode_arm_plt HashMap.get
decode_arm_plt-stubs_for rels plt_start section header slots width size reach =
    let names = slot_names_from rels [] in
    let (m, decoded, mapped, kept) =
      decode_stubs-stubs_for names plt_start section.size
        (header ++ stubs_for (plt_start + 20) slots) slots 20 [] size
        (drop-append 20 header (stubs_for (plt_start + 20) slots) width) reach (λ k h. refl) in
    let count : arm_stub_count section.size ≡ length slots = omega arith in
    (
      m,
      rw count decoded,
      MapsStubs-ext m (λ slot. HashMap.get slot names) (λ slot. last_of (name_for slot) rels)
          (plt_start + 20) slots
          (λ slot. get-slot_names_from slot rels [] ∙ or_else-none (last_of (name_for slot) rels))
          mapped,
    )
