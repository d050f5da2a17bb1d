-- ===== src/Sys/Sched/Next.antt =====
-- The election of the next process (`sched_robin_next` of kernel/src/sys/sched_robin.c).
use mathlib.Core.List.Perm
use mathlib.Core.List.{Perm, perm_middle, perm_append_singleton}
use saynaa_os.Prelude.{
  ℕ, ◌≤◌, ◌≡◌, refl, sym, ap, subst, ◌∙◌, ◌==◌, ==_iff, ltb, not, ◌&&◌, Bool-cases, inl, inr, ◌⊎◌,
  Option, none, some, List, [], ◌∷◌, ◌++◌, append_assoc, append-nil, arith, Array, length,
}
use saynaa_os.Sys.Process.{Process}
use saynaa_os.Sys.Sched.{Sched, proc_valid, prune, tick, search, elect, head, sched_robin_next}
use saynaa_os.Sys.Sched.Ring.{valid, prune-valid}

-- Only the sleep of `p` changes, and a process that does not sleep goes on not to.
tick-sleep :
    (procs : Array Process) (p y : ℕ) → (procs y).sleep_ticks ≡ 0 → (tick procs p y).sleep_ticks ≡ 0
unfolding tick
tick-sleep procs p y e = elim (Bool-cases (p == y)) [
  | inl same ↦ rw same (ground (arith, ap (λ k. (procs k).sleep_ticks) ((==_iff p y).0 same)))
  | inr other ↦ rw other e
]

tick-valid : (procs : Array Process) (p y : ℕ) → proc_valid (tick procs p) y ≡ proc_valid procs y
unfolding tick proc_valid
tick-valid procs p y = elim (Bool-cases (p == y)) [
  | inl same ↦ rw same (
      ap
        (λ k.
          not (y == 0)
          && not ((procs k).directory == 0)
          && not ((procs k).saved_kernel_stack == 0)
          && (procs k).magic == 0xC0FE_BABE
          && (procs k).magic2 == 0xC0FE_BABE)
        ((==_iff p y).0 same))
  | inr other ↦ rw other refl
]

-- What the search does to the processes: no process becomes asleep, valid or invalid.
pub record Passes (procs procs' : Array Process) : Type 0 where
  pub awake : (y : ℕ) → (procs y).sleep_ticks ≡ 0 → (procs' y).sleep_ticks ≡ 0
  pub same_valid : (y : ℕ) → proc_valid procs' y ≡ proc_valid procs y

pub search-Passes :
    (nodes seen : List ℕ) (procs : Array Process) → Passes procs (search procs seen nodes).0
unfolding search
search-Passes [] seen procs = record { awake = λ y e. e; same_valid = λ y. refl }
search-Passes (x ∷ xs) seen procs = elim (Bool-cases (ltb 0 (procs x).sleep_ticks)) [
  | inr up ↦ rw up (record { awake = λ y e. e; same_valid = λ y. refl })
  | inl down ↦
      let rest = search-Passes xs (seen ++ x ∷ []) (tick procs x) in
      rw down (record {
        awake = λ y e. rest.awake y (tick-sleep procs x y e);
        same_valid = λ y. rest.same_valid y ∙ tick-valid procs x y;
      })
]

-- The result of a search, if there is one, is a split of the nodes.
search-split :
    (nodes seen : List ℕ) (procs : Array Process)
    → ((search procs seen nodes).1 ≡ none)
      ⊎ ((pre : List ℕ) × (x : ℕ) × (xs : List ℕ) × ((search procs seen nodes).1
            ≡ some (seen ++ pre, x, xs))
          × (nodes ≡ pre ++ x ∷ xs)
          × (((search procs seen nodes).0 x).sleep_ticks ≡ 0))
unfolding search
search-split [] seen procs = inl refl
search-split (x ∷ xs) seen procs = elim (Bool-cases (ltb 0 (procs x).sleep_ticks)) [
  | inr up ↦
      rw up (inr ([], x, xs, ap (λ l. some (l, x, xs)) (sym (append-nil seen)), refl, ground arith))
  | inl down ↦ elim (search-split xs (seen ++ x ∷ []) (tick procs x)) [
    | inl e ↦ rw down (inl e)
    | inr (pre, y, ys, e, split, up) ↦ rw down (
        inr (
          x ∷ pre,
          y,
          ys,
          e ∙ ap (λ l. some (l, y, ys)) (append_assoc seen (x ∷ []) pre),
          ap (λ l. x ∷ l) split,
          up,
        ))
  ]
]

-- With a process that does not sleep among the nodes the search ends there or before.
pub search-before :
    (a b seen : List ℕ) (y : ℕ) (procs : Array Process)
    → (procs y).sleep_ticks ≡ 0
    → (pre : List ℕ) × (x : ℕ) × (xs : List ℕ) × ((search procs seen (a ++ y ∷ b)).1
        ≡ some (seen ++ pre, x, xs))
      × (a ++ y ∷ b ≡ pre ++ x ∷ xs)
      × (length pre ≤ length a)
unfolding search
search-before [] b seen y procs up = ([], y, b, rw (up, append-nil) refl, refl, omega arith)
search-before (x ∷ a) b seen y procs up = elim (Bool-cases (ltb 0 (procs x).sleep_ticks)) [
  | inr here ↦ rw here (
    [],
    x,
    a ++ y ∷ b,
    ap (λ l. some (l, x, a ++ y ∷ b)) (sym (append-nil seen)),
    refl,
    omega arith,
  )
  | inl down ↦
      let (pre, z, zs, e, split, short) =
        search-before a b (seen ++ x ∷ []) y (tick procs x) (tick-sleep procs x y up) in
      rw down (
        x ∷ pre,
        z,
        zs,
        e ∙ ap (λ l. some (l, z, zs)) (append_assoc seen (x ∷ []) pre),
        ap (λ l. x ∷ l) split,
        omega arith,
      )
]

-- An election only moves nodes.
elect-perm :
    (h : ℕ) (ns pre : List ℕ) (x : ℕ) (xs : List ℕ)
    → ns ++ h ∷ [] ≡ pre ++ x ∷ xs
    → Perm (elect h ns (some (pre, x, xs))) (h ∷ ns)
unfolding elect
elect-perm h ns pre x [] e = Perm.refl (h ∷ ns)
elect-perm h ns pre x (r ∷ rs) e =
    Perm.trans (Perm.symm (perm_middle pre (r ∷ rs)))
      (subst (λ l. Perm l (h ∷ ns)) e (perm_append_singleton h ns))

-- The body of `sched_robin_next` after the pruning.
abbrev body : Sched → List ℕ → Option ℕ × Sched
body s [] = (none, record s { ring = [] })
body s (h ∷ ns) =
    let (procs, found) = search s.procs [] (ns ++ h ∷ []) in
    let ring : List ℕ = elect h ns found in (head ring, record { procs = procs; ring = ring })

next-body :
    (s : Sched) (ring : List ℕ) → prune s.procs s.ring ≡ ring → sched_robin_next s ≡ body s ring
unfolding sched_robin_next
next-body s [] e = rw (e, sched_robin_next) refl
next-body s (h ∷ ns) e = rw (e, sched_robin_next) refl

pub next-empty :
    (s : Sched) → valid s.procs s.ring ≡ [] → sched_robin_next s ≡ (none, record s { ring = [] })
next-empty s e = next-body s [] (prune-valid s.procs s.ring ∙ e)

module _ (s : Sched) (h : ℕ) (ns : List ℕ) (is : valid s.procs s.ring ≡ h ∷ ns) where
  abbrev pub found : Array Process × Option (List ℕ × ℕ × List ℕ)
  found = search s.procs [] (ns ++ h ∷ [])

  -- With a valid process in the list the call is a search and an election.
  pub next-elect :
      sched_robin_next s
      ≡ (head (elect h ns found.1), record { procs = found.0; ring = elect h ns found.1 })
  next-elect = next-body s (h ∷ ns) (prune-valid s.procs s.ring ∙ is)

-- The election keeps the valid processes, each as often as it was there, and drops the others; it
-- changes the validity of none.
pub sched_robin_next-perm :
    (s : Sched)
    → Perm (sched_robin_next s).1.ring (valid s.procs s.ring)
      × Passes s.procs (sched_robin_next s).1.procs
sched_robin_next-perm s = by_ring (valid s.procs s.ring) refl
  where
    by_ring :
        (ring : List ℕ)
        → valid s.procs s.ring ≡ ring
        → Perm (sched_robin_next s).1.ring ring × Passes s.procs (sched_robin_next s).1.procs
    by_ring [] e =
        rw (next-empty s e) (Perm.refl [], record { awake = λ y e. e; same_valid = λ y. refl })
    by_ring (h ∷ ns) e = rw (next-elect s h ns e) (
      elim (search-split (ns ++ h ∷ []) [] s.procs) [
        | inl asleep ↦
            subst (λ o. Perm (elect h ns o) (h ∷ ns)) (sym asleep)
              (unfold elect in perm_append_singleton h ns)
        | inr (pre, x, xs, o, split, up) ↦
            subst (λ o. Perm (elect h ns o) (h ∷ ns)) (sym o) (elect-perm h ns pre x xs split)
      ],
      search-Passes (ns ++ h ∷ []) [] s.procs,
    )
