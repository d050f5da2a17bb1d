-- ===== src/Pmm/Bitmap.antt =====
-- The bitmap as a set of blocks, and the operations on it.
use saynaa_os.Prelude.{
  ℕ, zero, suc, ◌+◌, ◌/◌, ◌%◌, ◌≡◌, ap, inl, inr, ◌==◌, ltb, leb, Bool, true, false, not, ◌&&◌,
  Bool-cases, if◌then◌else◌, arith,
}
use saynaa_os.Prelude.Bits.{has-bit_or, has-bit_and_not}
use saynaa_os.Pmm.{Pmm, mmap_set, mmap_unset, mmap_test, set_range, unset_range}

-- Block `b` is taken: `mmap_test` is not zero.
unfoldable pub taken : Pmm → ℕ → Bool
unfolding mmap_test
taken p b = not (mmap_test p b == 0)

-- `b` is one of the `num` blocks from `base` on.
abbrev pub among : (base num b : ℕ) → Bool
among base num b = leb base b && ltb b (base + num)

module _ (p : Pmm) (i b : ℕ) where
  pub taken-mmap_set : taken (mmap_set p i) b ≡ (if i == b then true else taken p b)
  unfolding taken mmap_set
  taken-mmap_set = elim (Bool-cases (i / 32 == b / 32)) [
    | inl same ↦ rw same (
        ground (
          arith,
          has-bit_or (p.bitmap (i / 32)) (i % 32) (b % 32),
          ap p.bitmap {x = i / 32} {y = b / 32},
        ))
    | inr other ↦ rw other (ground arith)
  ]

  pub taken-mmap_unset : taken (mmap_unset p i) b ≡ (if i == b then false else taken p b)
  unfolding taken mmap_unset
  taken-mmap_unset = elim (Bool-cases (i / 32 == b / 32)) [
    | inl same ↦ rw same (
        ground (
          arith,
          has-bit_and_not (p.bitmap (i / 32)) (i % 32) (b % 32),
          ap p.bitmap {x = i / 32} {y = b / 32},
        ))
    | inr other ↦ rw other (ground arith)
  ]

pub taken-set_range :
    (num : ℕ) (p : Pmm) (base b : ℕ)
    → taken (set_range p base num) b ≡ (if among base num b then true else taken p b)
unfolding set_range
taken-set_range zero p base b = ground arith
taken-set_range (suc num) p base b =
    ground (arith, taken-set_range num (mmap_set p base) (base + 1) b, taken-mmap_set p base b)

pub taken-unset_range :
    (num : ℕ) (p : Pmm) (base b : ℕ)
    → taken (unset_range p base num) b ≡ (if among base num b then false else taken p b)
unfolding unset_range
taken-unset_range zero p base b = ground arith
taken-unset_range (suc num) p base b =
    ground
      (arith, taken-unset_range num (mmap_unset p base) (base + 1) b, taken-mmap_unset p base b)
