-- ===== src/Fs/Ext2/Dirs.antt =====
-- The entries of a directory, which `readdir` numbers and `finddir` searches (kernel/src/fs/ext2.c).
use saynaa_os.Prelude.{
  ℕ, zero, suc, ◌+◌, ◌-◌, ◌<◌, ◌≤◌, ◌≡◌, refl, sym, ap, subst, ◌∙◌, ◌==◌, leb, true, false, ◌&&◌,
  Bool-cases, Option-cases, inl, inr, ◌⊎◌, Option, none, some, List, [], ◌∷◌, ◌++◌, if◌then◌else◌,
  length, length-append, take, get_elem?, arith, ◌||◌,
}
use saynaa_os.Libc.Strings.{same}
use saynaa_os.Fs.Ext2.{
  Ext2, Inode, Dirent, dirent_at, is_entry, is_dir, dev_name, ext2_block_ptr, ext2_get_inode,
  readdir_block, readdir_blocks, ext2_readdir,
}

-- The entries in use of one block from an offset on.
unfoldable pub block_entries : Ext2 → (fuel blk_ptr offset : ℕ) → List Dirent
block_entries fs zero blk_ptr offset = []
block_entries fs (suc fuel) blk_ptr offset =
    let d : Dirent = dirent_at fs.image (blk_ptr + offset) in
    let rest : List Dirent = block_entries fs fuel blk_ptr (offset + d.rec_len) in
    if leb fs.block_size offset || d.rec_len == 0 then [] else if is_entry d then d ∷ rest else rest

-- Those of the direct blocks from `b` on.
unfoldable pub entries : Ext2 → Inode → (n b : ℕ) → List Dirent
unfolding block_entries
entries fs inode zero b = []
entries fs inode (suc n) b =
    let rest : List Dirent = entries fs inode n (b + 1) in
    if inode.block b == 0 then rest else elim (ext2_block_ptr fs (inode.block b)) [
      | none ↦ rest
      | some blk_ptr ↦ block_entries fs fs.block_size blk_ptr 0 ++ rest
    ]

-- Each entry takes a byte at least, so that a block's size is fuel enough.
pub block_entries-suc :
    (fs : Ext2) (fuel blk_ptr offset : ℕ)
    → fs.block_size ≤ offset + fuel
    → block_entries fs (suc fuel) blk_ptr offset ≡ block_entries fs fuel blk_ptr offset
unfolding block_entries
block_entries-suc fs zero blk_ptr offset h =
    let past : leb fs.block_size offset ≡ true = ground arith in rw past refl
block_entries-suc fs (suc fuel) blk_ptr offset h =
    let d : Dirent = dirent_at fs.image (blk_ptr + offset) in
    elim (Bool-cases (leb fs.block_size offset || d.rec_len == 0)) [
      | inl stop ↦ rw stop refl
      | inr more ↦
          let next = block_entries-suc fs fuel blk_ptr (offset + d.rec_len) (ground arith) in
          rw more (ap (λ l. if is_entry d then d ∷ l else l) next)
    ]

-- The entry `index` of the entries `es`, of which `seen` came before; or how many have been seen.
abbrev Counts : List Dirent → (seen index : ℕ) → Option Dirent × ℕ → Type 0
Counts es seen index r =
    ((d : Dirent) × (get_elem? es (index - seen) ≡ some d)
      × (index < seen + length es)
      × (r ≡ (some d, index)))
    ⊎ ((seen + length es ≤ index) × (r ≡ (none, seen + length es)))

Counts-nil : (seen index : ℕ) → seen ≤ index → Counts [] seen index (none, seen)
Counts-nil seen index h = inr (omega arith, ap (λ n. (none, n)) (omega arith))

Counts-cons :
    (d : Dirent) (es : List Dirent) (seen index : ℕ) (r : Option Dirent × ℕ)
    → seen < index
    → Counts es (seen + 1) index r
    → Counts (d ∷ es) seen index r
Counts-cons d es seen index r h (inl (x, at, low, e)) = inl (
  x,
  ap (get_elem? (d ∷ es)) {x = index - seen} {y = suc (index - (seen + 1))} (omega arith) ∙ at,
  omega arith,
  e,
)
Counts-cons d es seen index r h (inr (past, e)) =
    inr (omega arith, e ∙ ap (λ n. (none, n)) (omega arith))

readdir_block-Counts :
    (fs : Ext2) (fuel blk_ptr offset seen index : ℕ)
    → seen ≤ index
    → Counts
        (block_entries fs fuel blk_ptr offset)
        seen
        index
        (readdir_block fs fuel blk_ptr offset seen index)
unfolding block_entries readdir_block
readdir_block-Counts fs zero blk_ptr offset seen index h = Counts-nil seen index h
readdir_block-Counts fs (suc fuel) blk_ptr offset seen index h =
    let d : Dirent = dirent_at fs.image (blk_ptr + offset) in
    elim (Bool-cases (leb fs.block_size offset)) [
      | inl past ↦ rw past (Counts-nil seen index h)
      | inr inside ↦ elim (Bool-cases (is_entry d)) [
        | inl used ↦
            let moves : (d.rec_len == 0) ≡ false = ground arith in
            elim (Bool-cases (seen == index)) [
              | inl here ↦
                  let same : seen ≡ index = ground arith in
                  rw (inside, used, moves, here)
                    (inl (
                      d,
                      ap (get_elem? (d ∷ block_entries fs fuel blk_ptr (offset + d.rec_len)))
                          {x = index - seen} {y = 0} (omega arith),
                      omega arith,
                      ap (λ n. (some d, n)) same,
                    ))
              | inr later ↦
                  let after : seen < index = ground arith in
                  rw (inside, used, moves, later)
                    (Counts-cons d _ seen index _ after (
                      readdir_block-Counts fs fuel blk_ptr (offset + d.rec_len) (seen + 1) index
                        (omega arith)))
            ]
        | inr unused ↦ elim (Bool-cases (d.rec_len == 0)) [
          | inl stuck ↦ rw (inside, unused, stuck) (Counts-nil seen index h)
          | inr moves ↦
              rw (inside, unused, moves)
                (readdir_block-Counts fs fuel blk_ptr (offset + d.rec_len) seen index h)
        ]
      ]
    ]

get_elem?-append :
    (xs ys : List Dirent) (i : ℕ)
    → ((i < length xs) × (get_elem? (xs ++ ys) i ≡ get_elem? xs i))
      ⊎ ((length xs ≤ i) × (get_elem? (xs ++ ys) i ≡ get_elem? ys (i - length xs)))
get_elem?-append [] ys i = inr (omega arith, ap (get_elem? ys) {x = i} {y = i - 0} (omega arith))
get_elem?-append (x ∷ xs) ys zero = inl (omega arith, refl)
get_elem?-append (x ∷ xs) ys (suc i) = elim (get_elem?-append xs ys i) [
  | inl (low, e) ↦ inl (omega arith, e)
  | inr (past, e) ↦ inr (
    omega arith,
    e ∙ ap (get_elem? ys) {x = i - length xs} {y = suc i - suc (length xs)} (omega arith),
  )
]

-- What is counted in one list and then in another is counted in both together.
Counts-append :
    (xs ys : List Dirent) (seen index : ℕ) (first : Option Dirent × ℕ)
    (rest : ℕ → Option Dirent × ℕ)
    → seen ≤ index
    → Counts xs seen index first
    → ((s : ℕ) → s ≤ index → Counts ys s index (rest s))
    → Counts
        (xs ++ ys)
        seen
        index
        (let (found, seen') = first in elim found [ none ↦ rest seen' | some d ↦ (some d, seen') ])
Counts-append xs ys seen index first rest h (inl (d, at, low, e)) more =
    elim (get_elem?-append xs ys (index - seen)) [
      | inl (small, same) ↦ inl (
        d,
        same ∙ at,
        omega (arith, length-append xs ys),
        ap
            (λ r.
              let (found, seen') = r in elim found [ none ↦ rest seen' | some d ↦ (some d, seen') ])
            e,
      )
      | inr (past, other) ↦ absurd (omega arith)
    ]
Counts-append xs ys seen index first rest h (inr (past, e)) more =
    subst
      (λ r.
        Counts (xs ++ ys) seen index
          (let (found, seen') = r in elim found [ none ↦ rest seen' | some d ↦ (some d, seen') ]))
      (sym e)
      (elim (more (seen + length xs) past) [
        | inl (d, at, low, is) ↦ elim (get_elem?-append xs ys (index - seen)) [
          | inl (small, same) ↦ absurd (omega arith)
          | inr (late, other) ↦ inl (
            d,
            other
                ∙ (ap (get_elem? ys) {x = index - seen - length xs} {y = index - (seen + length xs)}
                      (omega arith)
                    ∙ at),
            omega (arith, length-append xs ys),
            is,
          )
        ]
        | inr (none_left, is) ↦ inr (
          omega (arith, length-append xs ys),
          is
              ∙ ap (λ n. (none, n)) {x = seen + length xs + length ys}
                  {y = seen + length (xs ++ ys)} (omega (arith, length-append xs ys)),
        )
      ])

readdir_blocks-Counts :
    (fs : Ext2) (inode : Inode) (n b seen index : ℕ)
    → seen ≤ index
    → Counts (entries fs inode n b) seen index (readdir_blocks fs inode n b seen index)
unfolding entries readdir_blocks
readdir_blocks-Counts fs inode zero b seen index h = Counts-nil seen index h
readdir_blocks-Counts fs inode (suc n) b seen index h = elim (Bool-cases (inode.block b == 0)) [
  | inl hole ↦ rw hole (readdir_blocks-Counts fs inode n (b + 1) seen index h)
  | inr used ↦ elim (Option-cases (ext2_block_ptr fs (inode.block b))) [
    | inl out ↦ rw (used, out) (readdir_blocks-Counts fs inode n (b + 1) seen index h)
    | inr (blk_ptr, ptr) ↦
        rw (used, ptr)
          (Counts-append (block_entries fs fs.block_size blk_ptr 0) (entries fs inode n (b + 1))
            seen index (readdir_block fs fs.block_size blk_ptr 0 seen index)
            (λ s. readdir_blocks fs inode n (b + 1) s index) h
            (readdir_block-Counts fs fs.block_size blk_ptr 0 seen index h)
            (λ s low. readdir_blocks-Counts fs inode n (b + 1) s index low))
  ]
]

-- Of an inode that is found and is a directory, `readdir` gives the entries in use of the twelve
-- direct blocks by their number, with at most 255 characters of each name; the root has the entry
-- `dev` behind them; there are no others.
pub ext2_readdir-entries :
    (fs : Ext2) (number index : ℕ) (inode : Inode)
    → ext2_get_inode fs number ≡ some inode
    → is_dir inode ≡ true
    → let es : List Dirent = entries fs inode 12 0 in
      ((d : Dirent) × (get_elem? es index ≡ some d)
        × (ext2_readdir fs number index ≡ some (take 255 d.name, d.inode)))
      ⊎ ((length es ≤ index)
          × (ext2_readdir fs number index
              ≡ (if number == 2 && index == length es then some (dev_name, 0) else none)))
unfolding ext2_readdir
ext2_readdir-entries fs number index inode is dir =
    elim (readdir_blocks-Counts fs inode 12 0 0 index (omega arith)) [
      | inl (d, at, low, e) ↦ inl (
        d,
        ap (get_elem? (entries fs inode 12 0)) {x = index} {y = index - 0} (omega arith) ∙ at,
        rw (is, ext2_readdir, dir) (ap finish e),
      )
      | inr (past, e) ↦ inr (
        omega arith,
        rw (is, ext2_readdir, dir)
            (ap finish (
              e
              ∙ ap (λ n. (none, n)) {x = 0 + length (entries fs inode 12 0)}
                  {y = length (entries fs inode 12 0)} (omega arith))),
      )
    ]
  where
    finish : Option Dirent × ℕ → Option (List ℕ × ℕ)
    finish (found, seen) = elim found [
      | some d ↦ some (take 255 d.name, d.inode)
      | none ↦ if number == 2 && index == seen then some (dev_name, 0) else none
    ]
