-- ===== src/Fs/Ext2/Lookup.antt =====
-- Searching a directory by name (kernel/src/fs/ext2.c).
use saynaa_os.Prelude.{
  ℕ, zero, suc, ◌+◌, ◌<◌, ◌≡◌, ◌≢◌, ◌↔◌, ◌⊎◌, ◌&&◌, bit_and, take, refl, sym, ap, subst, ◌∙◌, ◌==◌,
  leb, true, false, Bool-cases, Option-cases, inl, inr, Option, none, some, List, [], ◌∷◌, ◌++◌,
  if◌then◌else◌, length, get_elem?, arith,
}
use saynaa_os.Prelude.Int.{pos}
use saynaa_os.Libc.Strings.{strncmp, same, same_iff, IsString}
use saynaa_os.Fs.Ext2.{
  Ext2, Inode, Dirent, dirent_at, is_entry, matches, ext2_block_ptr, finddir_block, finddir_blocks,
  ext2_finddir, ext2_make_node, ext2_get_inode, is_dir, dev_name, devfs_root, node_of,
}
use saynaa_os.Fs.Ext2.Dirs.{block_entries, entries}

-- The inode of the first entry of a name.
unfoldable first_match : List Dirent → List ℕ → Option ℕ
first_match [] name = none
first_match (d ∷ ds) name =
    let rest : Option ℕ = first_match ds name in if matches d name then some d.inode else rest

first_match-append :
    (xs ys : List Dirent) (name : List ℕ)
    → first_match (xs ++ ys) name
      ≡ elim (first_match xs name) [ none ↦ first_match ys name | some n ↦ some n ]
unfolding first_match
first_match-append [] ys name = refl
first_match-append (x ∷ xs) ys name = elim (Bool-cases (matches x name)) [
  | inl here ↦ rw here refl
  | inr other ↦ rw other (first_match-append xs ys name)
]

finddir_block-first_match :
    (fs : Ext2) (fuel blk_ptr offset : ℕ) (name : List ℕ)
    → finddir_block fs fuel blk_ptr offset name
      ≡ first_match (block_entries fs fuel blk_ptr offset) name
unfolding finddir_block block_entries first_match
finddir_block-first_match fs zero blk_ptr offset name = refl
finddir_block-first_match fs (suc fuel) blk_ptr offset name =
    let d : Dirent = dirent_at fs.image (blk_ptr + offset) in
    let later = finddir_block-first_match fs fuel blk_ptr (offset + d.rec_len) name in
    elim (Bool-cases (leb fs.block_size offset)) [
      | inl past ↦ rw past refl
      | inr inside ↦ elim (Bool-cases (is_entry d)) [
        | inl used ↦
            let moves : (d.rec_len == 0) ≡ false = ground arith in
            elim (Bool-cases (matches d name)) [
              | inl here ↦ rw (inside, used, moves, here) refl
              | inr other ↦ rw (inside, used, moves, other) later
            ]
        | inr unused ↦ elim (Bool-cases (d.rec_len == 0)) [
          | inl stuck ↦ rw (inside, unused, stuck) refl
          | inr moves ↦ rw (inside, unused, moves) later
        ]
      ]
    ]

-- The search of the direct blocks finds the first entry of the name among the entries of the
-- directory, and nothing if there is none.
finddir_blocks-first_match :
    (fs : Ext2) (inode : Inode) (n b : ℕ) (name : List ℕ)
    → finddir_blocks fs inode n b name ≡ first_match (entries fs inode n b) name
unfolding finddir_blocks entries first_match
finddir_blocks-first_match fs inode zero b name = refl
finddir_blocks-first_match fs inode (suc n) b name =
    let later = finddir_blocks-first_match fs inode n (b + 1) name in
    elim (Bool-cases (inode.block b == 0)) [
      | inl hole ↦ rw hole later
      | inr used ↦ elim (Option-cases (ext2_block_ptr fs (inode.block b))) [
        | inl out ↦ rw (used, out) later
        | inr (blk_ptr, ptr) ↦
            rw (used, ptr)
              (ap (by_block later_blocks)
                  (finddir_block-first_match fs fs.block_size blk_ptr 0 name)
                ∙ (ap
                      (λ o.
                        by_block o (first_match (block_entries fs fs.block_size blk_ptr 0) name))
                      later
                    ∙ sym (
                        first_match-append (block_entries fs fs.block_size blk_ptr 0)
                          (entries fs inode n (b + 1)) name)))
      ]
    ]
  where
    later_blocks : Option ℕ
    later_blocks = finddir_blocks fs inode n (b + 1) name

    by_block : Option ℕ → Option ℕ → Option ℕ
    by_block rest o = elim o [ none ↦ rest | some found ↦ some found ]

strncmp_eq : (s t : List ℕ) → length s ≡ length t → strncmp s t (length s) ≡ pos 0 → s ≡ t
unfolding strncmp
strncmp_eq [] [] l e = refl
strncmp_eq [] (y ∷ ys) l e = absurd (omega arith)
strncmp_eq (x ∷ xs) [] l e = absurd (omega arith)
strncmp_eq (x ∷ xs) (y ∷ ys) l e = elim (Bool-cases (x == y)) [
  | inl same ↦
      let first : x ≡ y = ground arith in
      let rest : xs ≡ ys = strncmp_eq xs ys (omega arith) (rw same at e) in cc
  | inr other ↦ absurd (ground arith)
]

strncmp_self : (n : ℕ) (s : List ℕ) → strncmp s s n ≡ pos 0
unfolding strncmp
strncmp_self zero s = refl
strncmp_self (suc n) [] = refl
strncmp_self (suc n) (x ∷ xs) =
    let self : (x == x) ≡ true = ground arith in rw self (strncmp_self n xs)

-- The test of the code holds for the name itself and for no other.
matches_iff : (d : Dirent) (name : List ℕ) → (matches d name ≡ true) ↔ (d.name ≡ name)
matches_iff d name = (
  λ e.
      let lengths : length d.name ≡ length name = ground arith in
      let zero_result : strncmp d.name name (length d.name) ≡ pos 0 = ground arith in
      strncmp_eq d.name name lengths zero_result,
  λ e. subst (λ n. matches d n ≡ true) e (self d),
)
  where
    self : (d : Dirent) → matches d d.name ≡ true
    self d =
        let same_length : (length d.name == length d.name) ≡ true = ground arith in
        rw (same_length, strncmp_self (length d.name) d.name) refl

-- No entry before `index` has the name.
abbrev pub NotBefore : List Dirent → List ℕ → (index : ℕ) → Type 0
NotBefore es name index =
    (j : ℕ) (other : Dirent) → j < index → get_elem? es j ≡ some other → other.name ≢ name

-- The first entry with the name.
abbrev pub FirstNamed : List Dirent → List ℕ → (index : ℕ) → Dirent → Type 0
FirstNamed es name index d =
    (get_elem? es index ≡ some d) × (d.name ≡ name) × NotBefore es name index

NotBefore-suc :
    (d : Dirent) (es : List Dirent) (name : List ℕ) (index : ℕ)
    → d.name ≢ name
    → NotBefore es name index
    → NotBefore (d ∷ es) name (suc index)
NotBefore-suc d es name index ne before zero other lt is =
    (let first : d ≡ other = some_injective is in λ e. ne (ap (λ x. x.name) first ∙ e))
  where
    some_injective : {x y : Dirent} → some x ≡ some y → x ≡ y
    some_injective e = cc
NotBefore-suc d es name index ne before (suc j) other lt is = before j other (omega arith) is

first_match-FirstNamed :
    (es : List Dirent) (name : List ℕ)
    → ((index : ℕ) × (d : Dirent) × FirstNamed es name index d
        × (first_match es name ≡ some d.inode))
      ⊎ (NotBefore es name (length es) × (first_match es name ≡ none))
unfolding first_match
first_match-FirstNamed [] name = inr (λ j other lt is. absurd (omega arith), refl)
first_match-FirstNamed (x ∷ xs) name = elim (Bool-cases (matches x name)) [
  | inl here ↦ inl (
    0,
    x,
    (refl, (matches_iff x name).0 here, λ j other lt is. absurd (omega arith)),
    rw here refl,
  )
  | inr there ↦
      let ne : x.name ≢ name =
        λ e. (let is : matches x name ≡ true = (matches_iff x name).1 e in cc) in
      elim (first_match-FirstNamed xs name) [
        | inl (index, d, (is, named, before), e) ↦
            inl (
              suc index,
              d,
              (is, named, NotBefore-suc x xs name index ne before),
              rw (there, e) refl,
            )
        | inr (before, e) ↦ inr (NotBefore-suc x xs name (length xs) ne before, rw (there, e) refl)
      ]
]

-- Searching a directory by a name gives the root of the device file system for the name "dev" in
-- the root; else the node, if its inode is found, of the first entry that has this very name, with
-- the number, the size and the kind of its inode and the first 63 characters of the name; and
-- nothing if no entry has it.
pub ext2_finddir-entries :
    (fs : Ext2) (number : ℕ) (inode : Inode) (name : List ℕ)
    → ext2_get_inode fs number ≡ some inode
    → is_dir inode ≡ true
    → IsString name
    → ((number ≡ 2)
        × (name ≡ b'd' ∷ b'e' ∷ b'v' ∷ [])
        × (ext2_finddir fs number name ≡ some devfs_root))
      ⊎ ((¬ ((number ≡ 2) × (name ≡ b'd' ∷ b'e' ∷ b'v' ∷ [])))
          × (((index : ℕ) × (d : Dirent) × FirstNamed (entries fs inode 12 0) name index d
                × (ext2_finddir fs number name ≡ elim (ext2_get_inode fs d.inode) [
                  | none ↦ none
                  | some i ↦
                      let flags : ℕ = if bit_and i.mode 0xF000 == 0x4000 then 2 else 1 in
                      some (node_of d.inode i.size flags (take 63 name))
                ]))
              ⊎ (NotBefore (entries fs inode 12 0) name (length (entries fs inode 12 0))
                  × (ext2_finddir fs number name ≡ none))))
unfolding ext2_finddir
ext2_finddir-entries fs number inode name is dir string =
    let searched = finddir_blocks-first_match fs inode 12 0 name in
    elim (Bool-cases (number == 2 && same name dev_name)) [
      | inl dev ↦
          let named : same name dev_name ≡ true = ground arith in
          inl (
            ground arith,
            (same_iff name dev_name string dev-IsString).0 named,
            rw (is, ext2_finddir, dir, dev) refl,
          )
      | inr other ↦ inr (
        λ (at, e).
            let named : same name dev_name ≡ true =
              (same_iff name dev_name string dev-IsString).1 e in
            ground arith,
        elim (first_match-FirstNamed (entries fs inode 12 0) name) [
          | inl (index, d, first, e) ↦
              inl (index, d, first, rw (is, ext2_finddir, dir, other, searched ∙ e) (made d.inode))
          | inr (before, e) ↦ inr (before, rw (is, ext2_finddir, dir, other, searched ∙ e) refl)
        ],
      )
    ]
  where
    dev-IsString : IsString dev_name
    dev-IsString = (λ e. omega arith, (λ e. omega arith, (λ e. omega arith, tt)))

    made :
        (n : ℕ)
        → ext2_make_node fs n name ≡ elim (ext2_get_inode fs n) [
          | none ↦ none
          | some i ↦
              let flags : ℕ = if bit_and i.mode 0xF000 == 0x4000 then 2 else 1 in
              some (node_of n i.size flags (take 63 name))
        ]
    made n = unfold ext2_make_node in refl
