-- ===== src/Sys/Files/Seek.antt =====
-- Seeking in an open file (kernel/src/sys/syscall.c).
use saynaa_os.Prelude.{
  ℕ, ◌+◌, ◌%◌, ◌^◌, ◌<◌, ◌≤◌, ◌≡◌, ◌≢◌, refl, ap, ◌∙◌, ◌==◌, leb, true, false, Option-cases,
  Bool-cases, Option, none, some, if◌then◌else◌, arith, inl, inr, ◌⊎◌,
}
use saynaa_os.Fs.Vfs.{VfsFileOps}
use saynaa_os.Sys.Process.{Fd}
use saynaa_os.Sys.Kernel.{Kernel, u32, minus_one, fd_from_index, set_fd, is_negative}
use saynaa_os.Sys.Files.{syscall_seek, seek_base, moved}
use saynaa_os.Sys.Files.Table.{fd_from_index-set_fd, fd_from_index-inside, OnlyFd}

-- What `whence` names: 0 the start of the file, 1 where its entry stands, 2 its end.
abbrev pub StartsAt : (length whence : ℕ) → Fd → (base : ℕ) → Type 0
StartsAt length whence entry base =
    ((whence ≡ 0) × (base ≡ 0))
    ⊎ ((whence ≡ 1) × (base ≡ entry.offset))
    ⊎ ((whence ≡ 2) × (base ≡ length))

module _ (ops : VfsFileOps ℕ) (length_of : ℕ → ℕ) (entry : Fd) (whence : ℕ) where
  seek_base-StartsAt :
      (base : ℕ)
      → seek_base ops length_of entry whence ≡ some base
      → StartsAt (length_of entry.node) whence entry base
  seek_base-StartsAt base e = ground arith

  seek_base-none : seek_base ops length_of entry whence ≡ none → 2 < whence
  seek_base-none e = ground arith

module _ (ops : VfsFileOps ℕ) (length_of : ℕ → ℕ) (base offset : ℕ) where
  moved-none :
      offset < u32
      → moved ops length_of base offset ≡ none
      → (is_negative offset ≡ true) × (base + offset < u32)
  moved-none h e = ground arith

  moved-some :
      (to : ℕ)
      → offset < u32
      → moved ops length_of base offset ≡ some to
      → base + offset ≡ to + (if is_negative offset then u32 else 0)
  moved-some to h e = ground arith

-- The branches after the entry is found, by the base.
syscall_seek-open :
    (ops : VfsFileOps ℕ) (length_of : ℕ → ℕ) (k : Kernel) (fd offset whence : ℕ) (entry : Fd)
    → fd_from_index k fd ≡ some entry
    → entry.node ≢ 0
    → offset < u32
    → ((seek_base ops length_of entry whence ≡ none)
        × (syscall_seek ops length_of k fd offset whence ≡ (minus_one, k)))
      ⊎ ((base : ℕ) × (seek_base ops length_of entry whence ≡ some base)
          × (base + offset < u32)
          × (is_negative offset ≡ true)
          × (syscall_seek ops length_of k fd offset whence ≡ (minus_one, k)))
      ⊎ ((base to : ℕ) × (seek_base ops length_of entry whence ≡ some base)
          × (base + offset ≡ to + (if is_negative offset then u32 else 0))
          × ((syscall_seek ops length_of k fd offset whence).0 ≡ to % u32)
          × (fd_from_index (syscall_seek ops length_of k fd offset whence).1 fd
              ≡ some (record entry { offset = to % u32 }))
          × OnlyFd k (syscall_seek ops length_of k fd offset whence).1 fd)
unfolding syscall_seek
syscall_seek-open ops length_of k fd offset whence entry is ne word_offset =
    let node_is : (entry.node == 0) ≡ false = ground arith in
    let (running_ne, inside, used) = fd_from_index-inside k fd entry is in
    elim (Option-cases (seek_base ops length_of entry whence)) [
      | inl nowhere ↦ inl (nowhere, rw (is, syscall_seek, node_is) (ap by_base nowhere))
      | inr (base, from) ↦
          let at : syscall_seek ops length_of k fd offset whence
              ≡ by_target (moved ops length_of base offset) =
            rw (is, syscall_seek, node_is) (ap by_base from) in
          elim (Option-cases (moved ops length_of base offset)) [
            | inl back ↦
                let (sign, low) = moved-none ops length_of base offset word_offset back in
                inr (inl (base, from, low, sign, at ∙ ap by_target back))
            | inr (to, e) ↦
                let result : syscall_seek ops length_of k fd offset whence ≡ by_target (some to) =
                  at ∙ ap by_target e in
                let (now, others) =
                  fd_from_index-set_fd k fd (record entry { offset = to % u32 }) running_ne
                    inside in
                inr (
                  inr (
                    base,
                    to,
                    from,
                    moved-some ops length_of base offset to word_offset e,
                    ap (λ v. v.0) result,
                    ap (λ v. fd_from_index v.1 fd) result ∙ (now ∙ rw used refl),
                    λ j other. ap (λ v. fd_from_index v.1 j) result ∙ others j other,
                  ))
          ]
    ]
  where
    by_target : Option ℕ → ℕ × Kernel
    by_target o = elim o [
      | none ↦ (minus_one, k)
      | some n ↦ (n % u32, set_fd k fd (record entry { offset = n % u32 }))
    ]

    by_base : Option ℕ → ℕ × Kernel
    by_base o = elim o [
      | none ↦ (minus_one, k)
      | some base ↦ by_target (moved ops length_of base offset)
    ]

-- Seeking fails and changes nothing if there is no entry, if its node is null, if `whence` is above
-- 2, or if the sum of the base that `whence` names and the signed offset is negative; else it moves
-- the offset of the entry to that sum, modulo 2 ^ 32, and returns it, with no other entry changed.
-- The base is 0 for `whence` 0, the offset of the entry for 1 and the length of the node for 2.
pub syscall_seek_lem :
    (ops : VfsFileOps ℕ) (length_of : ℕ → ℕ) (k : Kernel) (fd offset whence : ℕ)
    → offset < u32
    → ((syscall_seek ops length_of k fd offset whence ≡ (minus_one, k))
        × ((fd_from_index k fd ≡ none)
            ⊎ ((entry : Fd) × (fd_from_index k fd ≡ some entry) × (entry.node ≡ 0))
            ⊎ (2 < whence)
            ⊎ ((entry : Fd) × (base : ℕ) × (fd_from_index k fd ≡ some entry)
                × StartsAt (length_of entry.node) whence entry base
                × (2 ^ 31 ≤ offset)
                × (base + offset < u32))))
      ⊎ ((entry : Fd) × (base to : ℕ) × (fd_from_index k fd ≡ some entry)
          × (entry.node ≢ 0)
          × StartsAt (length_of entry.node) whence entry base
          × (base + offset ≡ to + (if leb (2 ^ 31) offset then u32 else 0))
          × ((syscall_seek ops length_of k fd offset whence).0 ≡ to % u32)
          × (fd_from_index (syscall_seek ops length_of k fd offset whence).1 fd
              ≡ some (record entry { offset = to % u32 }))
          × OnlyFd k (syscall_seek ops length_of k fd offset whence).1 fd)
unfolding syscall_seek
syscall_seek_lem ops length_of k fd offset whence word_offset =
    elim (Option-cases (fd_from_index k fd)) [
      | inl missing ↦ inl (rw (missing, syscall_seek) refl, inl missing)
      | inr (entry, is) ↦ elim (Bool-cases (entry.node == 0)) [
        | inl null ↦ inl (rw (is, syscall_seek, null) refl, inr (inl (entry, is, ground arith)))
        | inr node ↦
            let ne : entry.node ≢ 0 = ground arith in
            elim (syscall_seek-open ops length_of k fd offset whence entry is ne word_offset) [
              | inl (nowhere, fails) ↦
                  inl (fails, inr (inr (inl (seek_base-none ops length_of entry whence nowhere))))
              | inr (inl (base, from, low, sign, fails)) ↦ inl (
                fails,
                inr (
                    inr (
                      inr (
                        entry,
                        base,
                        is,
                        seek_base-StartsAt ops length_of entry whence base from,
                        ground arith,
                        low,
                      ))),
              )
              | inr (inr (base, to, from, sum, result, now, others)) ↦ inr (
                entry,
                base,
                to,
                is,
                ne,
                seek_base-StartsAt ops length_of entry whence base from,
                sum,
                result,
                now,
                others,
              )
            ]
      ]
    ]
