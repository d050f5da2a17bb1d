-- ===== src/Paging/Entries.antt =====
-- The words of page directories and tables (kernel/include/mem/paging.h).
use saynaa_os.Prelude.{
  ℕ, ◌+◌, ◌*◌, ◌/◌, ◌%◌, ◌<◌, ◌≡◌, ◌==◌, has, true, sym, ap, ◌∙◌, arith, bit_and, bit_or,
}
use saynaa_os.Prelude.Bits.{dig, dig-bit_or, dig-bit_and, has-pow, dig-lt}
use saynaa_os.Prelude.Masks.{
  bit_and_flags, bit_and_frame, bit_and_ten, bit_and_one, bit_or_flags, bit_or_lt, bit_or_odd,
}
use saynaa_os.Paging.{
  u32, page_present, page_rw, page_large, page_frame, page_flags, table_entry, page_entry,
  table_index,
}

pub page_frame_lem : (e : ℕ) → e < u32 → page_frame e ≡ e / 4096 * 4096
unfolding page_frame
page_frame_lem e h = bit_and_frame e h

pub table_index_lem : (x : ℕ) → table_index x ≡ x / 4096 % 1024
unfolding table_index
table_index_lem x = bit_and_ten (x / 4096)

has_present : (e : ℕ) → e % 2 ≡ 1 → has e page_present ≡ true
has_present e h = ground (arith, bit_and_one e)

-- An aligned address with flags, of which the present flag is one.
pub record IsEntry (e addr : ℕ) : Type 0 where
  pub small : e < u32
  pub present : has e page_present ≡ true
  pub frame : page_frame e ≡ addr

entry_of :
    (addr f : ℕ) → addr % 4096 ≡ 0 → addr < u32 → f < 4096 → f % 2 ≡ 1 → IsEntry (addr + f) addr
entry_of addr f a s h odd = record {
  small = omega arith;
  present = has_present (addr + f) (omega arith);
  frame = page_frame_lem (addr + f) (omega arith) ∙ omega arith;
}

flags_lt : (flags : ℕ) → page_flags flags < 4096
unfolding page_flags
flags_lt flags = omega (arith, bit_and_flags flags)

pub page_entry-IsEntry :
    (phys flags : ℕ) → phys % 4096 ≡ 0 → phys < u32 → IsEntry (page_entry phys flags) phys
unfolding page_entry
page_entry-IsEntry phys flags a s =
    let fl : ℕ = page_flags flags in
    let first : bit_or phys page_present ≡ phys + 1 =
      ap (λ x. bit_or x 1) {x = phys} {y = phys + 0} (omega arith)
      ∙ bit_or_flags phys 0 1 a (omega arith) (omega arith) in
    let whole : bit_or (bit_or phys page_present) fl ≡ phys + bit_or 1 fl =
      ap (λ x. bit_or x fl) first ∙ bit_or_flags phys 1 fl a (omega arith) (flags_lt flags) in
    rw whole (
      entry_of phys (bit_or 1 fl) a s (bit_or_lt 12 1 fl (omega arith) (flags_lt flags))
        (omega (arith, bit_or_odd 1 fl)))

pub table_entry-IsEntry :
    (table flags : ℕ) → table % 4096 ≡ 0 → table < u32 → IsEntry (table_entry table flags) table
unfolding table_entry
table_entry-IsEntry table flags a s =
    let fl : ℕ = page_flags flags in
    let first : bit_or table page_present ≡ table + 1 =
      ap (λ x. bit_or x 1) {x = table} {y = table + 0} (omega arith)
      ∙ bit_or_flags table 0 1 a (omega arith) (omega arith) in
    let second : bit_or (bit_or table page_present) page_rw ≡ table + 3 =
      ap (λ x. bit_or x 2) first ∙ bit_or_flags table 1 2 a (omega arith) (omega arith) in
    let whole : bit_or (bit_or (bit_or table page_present) page_rw) fl ≡ table + bit_or 3 fl =
      ap (λ x. bit_or x fl) second ∙ bit_or_flags table 3 fl a (omega arith) (flags_lt flags) in
    rw whole (
      entry_of table (bit_or 3 fl) a s (bit_or_lt 12 3 fl (omega arith) (flags_lt flags))
        (omega (arith, bit_or_odd 3 fl)))

-- A table's entry is that of a large page exactly when the flags say so.
pub table_entry-page_large :
    (table flags : ℕ)
    → table % 4096 ≡ 0
    → has (table_entry table flags) page_large ≡ has flags page_large
unfolding table_entry page_flags dig
table_entry-page_large table flags a =
    let x : ℕ = bit_or (bit_or table page_present) page_rw in
    let none_there : dig table 7 ≡ 0 = omega arith in
    let digit : dig (bit_or x (bit_and flags 0xFFF)) 7 ≡ dig flags 7 = omega (
      arith,
      dig-bit_or x (bit_and flags 0xFFF) 7,
      dig-bit_or (bit_or table page_present) page_rw 7,
      dig-bit_or table page_present 7,
      dig-bit_and flags 0xFFF 7,
      none_there,
      dig-lt flags 7,
    ) in
    has-pow (bit_or x (bit_and flags 0xFFF)) 7 ∙ (ap (λ d. d == 1) digit ∙ sym (has-pow flags 7))
