-- ===== src/Sys/Files/Table.antt =====
-- The table of open files: giving an entry out, and taking it back (kernel/src/sys/syscall.c).
use saynaa_os.Prelude.{
  ℕ, zero, suc, ◌+◌, ◌<◌, ◌≤◌, ◌≡◌, ◌≢◌, refl, sym, subst, ◌∙◌, ◌==◌, leb, true, false, ◌||◌,
  Bool-cases, Option-cases, none, some, if◌then◌else◌, has, arith, inl, inr, ◌⊎◌, Array,
}
use saynaa_os.Sys.Process.{Fd}
use saynaa_os.Sys.Kernel.{
  Kernel, minus_one, fd_from_index, free_fd, alloc_fd, set_fd, closed, running, proc_max_fd,
  is_negative, o_append,
}
use saynaa_os.Sys.Files.{syscall_close}

-- The search finds the first entry that is not used, or there is none.
free_fd-cases :
    (fds : Array Fd) (i n : ℕ)
    → ((free_fd fds i n ≡ none) × ((j : ℕ) → i ≤ j → j < i + n → (fds j).used ≡ true))
      ⊎ ((f : ℕ) × (free_fd fds i n ≡ some f)
          × (i ≤ f)
          × (f < i + n)
          × ((fds f).used ≡ false)
          × ((j : ℕ) → i ≤ j → j < f → (fds j).used ≡ true))
unfolding free_fd
free_fd-cases fds i zero = inl (refl, λ j low high. absurd (omega arith))
free_fd-cases fds i (suc n) = elim (Bool-cases (fds i).used) [
  | inr free ↦
      inr (i, rw free refl, omega arith, omega arith, free, λ j low high. absurd (omega arith))
  | inl used ↦ elim (free_fd-cases fds (i + 1) n) [
    | inl (e, all) ↦ inl (
      rw used e,
      λ j low high. elim (Bool-cases (i == j)) [
        | inl here ↦ ground arith
        | inr later ↦ all j (ground arith) (omega arith)
      ],
    )
    | inr (f, e, low, high, free, before) ↦ inr (
      f,
      rw used e,
      omega arith,
      omega arith,
      free,
      λ j lo hi. elim (Bool-cases (i == j)) [
        | inl here ↦ ground arith
        | inr later ↦ before j (ground arith) hi
      ],
    )
  ]
]

-- The entry that a new file gets.
abbrev pub opened : (node length flags : ℕ) → Fd
opened node length flags = record {
  used = true;
  flags = flags;
  offset = if has flags o_append then length else 0;
  node = node;
}

-- Entry `i` of the table in a state and in another: all others are the same.
abbrev pub OnlyFd : Kernel → Kernel → ℕ → Type 0
OnlyFd k k' i = (j : ℕ) → j ≢ i → fd_from_index k' j ≡ fd_from_index k j

pub fd_from_index-set_fd :
    (k : Kernel) (i : ℕ) (e : Fd)
    → k.current ≢ 0
    → i < proc_max_fd
    → (fd_from_index (set_fd k i e) i ≡ (if e.used then some e else none))
      × OnlyFd k (set_fd k i e) i
unfolding fd_from_index
fd_from_index-set_fd k i e ne small =
    let self : (k.current == k.current) ≡ true = ground arith in
    let here : (i == i) ≡ true = ground arith in
    let running_ne : (k.current == 0) ≡ false = ground arith in
    let sign : is_negative i ≡ false = ground arith in
    let fits : leb proc_max_fd i ≡ false = ground arith in
    (
      rw (self, running_ne, sign, fits, here) refl,
      λ j other. let differ : (i == j) ≡ false = ground arith in rw (self, differ) refl,
    )

fd_from_index-unused :
    (k : Kernel) (f : ℕ) → ((running k).fds f).used ≡ false → fd_from_index k f ≡ none
unfolding fd_from_index
fd_from_index-unused k f free =
    elim (Bool-cases (k.current == 0 || is_negative f || leb proc_max_fd f)) [
      | inl out ↦ rw out refl
      | inr fits ↦ rw (fits, free) refl
    ]

pub fd_from_index-inside :
    (k : Kernel) (fd : ℕ) (entry : Fd)
    → fd_from_index k fd ≡ some entry
    → (k.current ≢ 0) × (fd < proc_max_fd) × (entry.used ≡ true)
unfolding fd_from_index
fd_from_index-inside k fd entry e =
    elim (Bool-cases (k.current == 0 || is_negative fd || leb proc_max_fd fd)) [
      | inl out ↦ absurd (none_ne_some (rw out at e))
      | inr fits ↦ elim (Bool-cases ((running k).fds fd).used) [
        | inr free ↦ absurd (none_ne_some (rw (fits, free) at e))
        | inl used ↦ (
          ground arith,
          ground arith,
          subst (λ x. x.used ≡ true) (some_injective (rw (fits, used) at e)) used,
        )
      ]
    ]
  where
    none_ne_some : {x : Fd} → none ≢ some x
    none_ne_some e = cc

    some_injective : {x y : Fd} → some x ≡ some y → x ≡ y
    some_injective e = cc

-- With a process running and a node, opening gives out the first unused entry of the 32, at the
-- node's end if it is opened to append and at its start otherwise, and touches no other; when all
-- are used, it fails and changes nothing.
pub alloc_fd-first :
    (k : Kernel) (node length flags : ℕ)
    → k.current ≢ 0
    → node ≢ 0
    → (((j : ℕ) → j < proc_max_fd → ((running k).fds j).used ≡ true)
        × (alloc_fd k node length flags ≡ (minus_one, k)))
      ⊎ ((i : ℕ) × (i < proc_max_fd)
          × (fd_from_index k i ≡ none)
          × ((j : ℕ) → j < i → ((running k).fds j).used ≡ true)
          × ((alloc_fd k node length flags).0 ≡ i)
          × (fd_from_index (alloc_fd k node length flags).1 i ≡ some (opened node length flags))
          × OnlyFd k (alloc_fd k node length flags).1 i)
unfolding alloc_fd
alloc_fd-first k node length flags ne node_ne =
    let running_ne : (k.current == 0) ≡ false = ground arith in
    let node_is : (node == 0) ≡ false = ground arith in
    elim (free_fd-cases (running k).fds 0 proc_max_fd) [
      | inl (e, all) ↦ inl (λ j h. all j (omega arith) h, rw (running_ne, node_is, e) refl)
      | inr (f, e, low, high, free, before) ↦
          let (now, others) = fd_from_index-set_fd k f (opened node length flags) ne high in
          inr (
            f,
            high,
            fd_from_index-unused k f free,
            λ j h. before j (omega arith) h,
            rw (running_ne, node_is, e) refl,
            rw (running_ne, node_is, e) now,
            rw (running_ne, node_is, e) others,
          )
    ]

-- Closing an entry that is used gives 0, frees it, and leaves every other one; closing anything else
-- fails and changes nothing.
pub syscall_close_lem :
    (k : Kernel) (fd : ℕ)
    → ((fd_from_index k fd ≡ none) × (syscall_close k fd ≡ (minus_one, k)))
      ⊎ ((entry : Fd) × (fd_from_index k fd ≡ some entry)
          × ((syscall_close k fd).0 ≡ 0)
          × (fd_from_index (syscall_close k fd).1 fd ≡ none)
          × OnlyFd k (syscall_close k fd).1 fd)
unfolding syscall_close
syscall_close_lem k fd = elim (Option-cases (fd_from_index k fd)) [
  | inl e ↦ inl (e, rw (e, syscall_close) refl)
  | inr (entry, e) ↦
      let (ne, small, used) = fd_from_index-inside k fd entry e in
      let (now, others) = fd_from_index-set_fd k fd closed ne small in
      inr (
        entry,
        e,
        rw (e, syscall_close) refl,
        rw (e, syscall_close) now,
        rw (e, syscall_close) others,
      )
]

-- Opening and then closing the descriptor gives back the descriptors as they were.
pub syscall_close-alloc_fd :
    (k : Kernel) (node length flags : ℕ)
    → k.current ≢ 0
    → node ≢ 0
    → (alloc_fd k node length flags ≡ (minus_one, k))
      ⊎ (let (fd, k') = alloc_fd k node length flags in
          ((syscall_close k' fd).0 ≡ 0)
          × ((j : ℕ) → fd_from_index (syscall_close k' fd).1 j ≡ fd_from_index k j))
syscall_close-alloc_fd k node length flags ne node_ne =
    elim (alloc_fd-first k node length flags ne node_ne) [
      | inl (all, e) ↦ inl e
      | inr (i, small, was, before, fd_is, now, others) ↦
          let k' : Kernel = (alloc_fd k node length flags).1 in
          inr (
            subst
              (λ fd.
                ((syscall_close k' fd).0 ≡ 0)
                × ((j : ℕ) → fd_from_index (syscall_close k' fd).1 j ≡ fd_from_index k j))
              (sym fd_is)
              (elim (syscall_close_lem k' i) [
                | inl (nothing, e) ↦ absurd (some_ne_none (sym now ∙ nothing))
                | inr (entry, e, zero_is, after, rest) ↦ (
                  zero_is,
                  λ j. elim (Bool-cases (j == i)) [
                    | inl here ↦
                        let same : i ≡ j = ground arith in
                        subst (λ l. fd_from_index (syscall_close k' i).1 l ≡ fd_from_index k l) same
                          (after ∙ sym was)
                    | inr other ↦
                        let differ : j ≢ i = ground arith in rest j differ ∙ others j differ
                  ],
                )
              ]))
    ]
  where
    some_ne_none : {x : Fd} → some x ≢ none
    some_ne_none e = cc
