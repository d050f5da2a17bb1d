-- ===== src/Sys/Files/Reads.antt =====
-- Reading and seeking in an open file (kernel/src/sys/syscall.c).
use saynaa_os.Prelude.{
  ℕ, zero, suc, ◌+◌, ◌%◌, ◌^◌, ◌<◌, ◌≤◌, ◌≡◌, ◌≢◌, refl, sym, ap, ◌∙◌, ◌==◌, true, false,
  Bool-cases, some, List, [], ◌∷◌, ◌++◌, if◌then◌else◌, has, arith, inl, inr, length, take, drop,
  length-take,
}
use saynaa_os.Prelude.Int.{ℤ, pos, negsuc}
use saynaa_os.Fs.Vfs.{VfsFileOps, vfs_read}
use saynaa_os.Sys.Process.{Fd}
use saynaa_os.Sys.Kernel.{Kernel, u32, fd_from_index, o_rdonly, read_active}
use saynaa_os.Sys.Files.{syscall_read, advance}
use saynaa_os.Sys.Files.Table.{fd_from_index-set_fd, fd_from_index-inside, OnlyFd}

-- The bytes of a content from an offset on, at most `size`.
abbrev pub part : List ℕ → (offset size : ℕ) → List ℕ
part content offset size = take size (drop offset content)

-- What the driver of a regular file promises: a read gives the bytes that there are.
pub record IsFile (ops : VfsFileOps ℕ) (node : ℕ) (content : List ℕ) : Type 0 where
  pub nonnull : node ≢ 0
  pub reads :
      (offset size : ℕ)
      → offset + size < u32
      → vfs_read ops (some node) offset size
        ≡ (pos (length (part content offset size)), part content offset size)
  pub small : length content < 2 ^ 31

take-nil : (n : ℕ) → ◌≡◌ {A = List ℕ} (take n []) []
take-nil zero = refl
take-nil (suc n) = refl

drop-nil : (n : ℕ) → ◌≡◌ {A = List ℕ} (drop n []) []
drop-nil zero = refl
drop-nil (suc n) = refl

-- A piece and the one behind it.
part_twice :
    (n m : ℕ) (xs : List ℕ) → take n xs ++ take m (drop (length (take n xs)) xs) ≡ take (n + m) xs
part_twice zero m xs = ap (λ k. take k xs) (omega arith)
part_twice (suc n) m [] = take-nil m ∙ sym (take-nil (suc n + m))
part_twice (suc n) m (x ∷ xs) =
    ap (λ l. x ∷ l) (part_twice n m xs)
    ∙ ap (λ k. take k (x ∷ xs)) {x = suc (n + m)} {y = suc n + m} (omega arith)

drop-drop : (n m : ℕ) (xs : List ℕ) → drop m (drop n xs) ≡ drop (n + m) xs
drop-drop zero m xs = ap (λ k. drop k xs) (omega arith)
drop-drop (suc n) m [] = drop-nil m ∙ sym (drop-nil (suc n + m))
drop-drop (suc n) m (x ∷ xs) =
    drop-drop n m xs ∙ ap (λ k. drop k (x ∷ xs)) {x = suc (n + m)} {y = suc n + m} (omega arith)

length-part :
    (content : List ℕ) (offset size : ℕ) → length (part content offset size) ≤ length content
length-part content offset size =
    omega (arith, length-take size (drop offset content), length-drop-le offset content)
  where
    length-drop-le : (n : ℕ) (xs : List ℕ) → length (drop n xs) ≤ length xs
    length-drop-le zero xs = omega arith
    length-drop-le (suc n) [] = omega arith
    length-drop-le (suc n) (x ∷ xs) = omega (arith, length-drop-le n xs)

module _ (ops : VfsFileOps ℕ) (length_of : ℕ → ℕ) (k : Kernel) (fd : ℕ) (entry : Fd)
    (is : fd_from_index k fd ≡ some entry) (content : List ℕ) where
  -- One read from a file that is open for reading: the bytes at the offset, by which it moves on.
  pub syscall_read_lem :
      (size : ℕ)
      → IsFile ops entry.node content
      → has entry.flags o_rdonly ≡ true
      → size ≢ 0
      → entry.offset + size < u32
      → let bytes : List ℕ = part content entry.offset size in
        let (r, got, k') = syscall_read ops length_of k fd true size in
        (r ≡ length bytes)
        × (got ≡ bytes)
        × (fd_from_index k' fd ≡ some (record entry { offset = entry.offset + length bytes }))
        × OnlyFd k k' fd
  unfolding syscall_read
  syscall_read_lem size file readable ne fits =
      let bytes : List ℕ = part content entry.offset size in
      let node_is : (entry.node == 0) ≡ false = ground (arith, file.nonnull) in
      let size_is : (size == 0) ≡ false = ground arith in
      let short : length bytes % u32 ≡ length bytes =
        omega (arith, length-part content entry.offset size, file.small) in
      let (running_ne, inside, used) = fd_from_index-inside k fd entry is in
      let offset : ℕ = entry.offset + length bytes in
      let sum : offset % u32 ≡ offset =
        omega (arith, length-take size (drop entry.offset content)) in
      let (now, others) =
        fd_from_index-set_fd k fd (record entry { offset = offset }) running_ne inside in
      let result : syscall_read ops length_of k fd true size
          ≡ (length bytes, bytes, moved_on bytes) =
        rw (size_is, is, syscall_read, readable, node_is)
          (ap finish (file.reads entry.offset size fits)
            ∙ ap (λ n. (n, bytes, moved_on bytes)) short) in
      rw result (elim (Bool-cases (length bytes == 0)) [
        | inl nothing ↦
            let same : entry.offset ≡ offset = ground arith in
            rw nothing
              (refl, refl, is ∙ ap (λ n. some (record entry { offset = n })) same, λ j h. refl)
        | inr some_bytes ↦ rw (some_bytes, sum) (refl, refl, now ∙ rw used refl, others)
      ])
    where
      moved_on : List ℕ → Kernel
      moved_on bytes = if length bytes == 0 then k else advance k fd entry (length bytes)

      finish : ℤ × List ℕ → ℕ × List ℕ × Kernel
      finish (r, bytes) = elim r [
        | negsuc m ↦ read_active k true size
        | pos n ↦ (n % u32, bytes, if n == 0 then k else advance k fd entry n)
      ]

-- Two reads with sizes that are not 0, one after the other, through an entry that is open for
-- reading and leads to a regular file, return together the bytes that one read of both sizes would
-- return, each its own number of them, and the offset moves on by as many, while no other entry
-- changes; offset and sizes are to add up to less than 2 ^ 32.
pub syscall_read_twice :
    (ops : VfsFileOps ℕ) (length_of : ℕ → ℕ) (k : Kernel) (fd : ℕ) (entry : Fd)
    → fd_from_index k fd ≡ some entry
    → (content : List ℕ) → IsFile ops entry.node content
    → has entry.flags o_rdonly ≡ true
    → (n m : ℕ) → n ≢ 0
    → m ≢ 0
    → entry.offset + n + m < u32
    → let (r, first, k') = syscall_read ops length_of k fd true n in
      let (s, second, k'') = syscall_read ops length_of k' fd true m in
      (first ++ second ≡ part content entry.offset (n + m))
      × (r ≡ length first)
      × (s ≡ length second)
      × (fd_from_index k'' fd ≡ some (record entry { offset = entry.offset + r + s }))
      × OnlyFd k k'' fd
syscall_read_twice ops length_of k fd entry is content file readable n m n_ne m_ne fits =
    let one : List ℕ = part content entry.offset n in
    let k' : Kernel = (syscall_read ops length_of k fd true n).2 in
    let (r, got, now, others) =
      syscall_read_lem ops length_of k fd entry is content n file readable n_ne (omega arith) in
    let next : Fd = record entry { offset = entry.offset + length one } in
    let two : List ℕ = part content next.offset m in
    let (s, got', now', others') =
      syscall_read_lem ops length_of k' fd next now content m file readable m_ne
        (omega (arith, length-take n (drop entry.offset content))) in
    let joined : one ++ two ≡ part content entry.offset (n + m) =
      ap (λ l. one ++ take m l) (sym (drop-drop entry.offset (length one) content))
      ∙ part_twice n m (drop entry.offset content) in
    (
      rw (got, got') joined,
      r ∙ ap length (sym got),
      s ∙ ap length (sym got'),
      rw (r, s) now',
      λ j ne. others' j ne ∙ others j ne,
    )
