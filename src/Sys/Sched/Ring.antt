-- ===== src/Sys/Sched/Ring.antt =====
-- Pruning the scheduler's list, and adding to it.
use saynaa_os.Prelude.{
  ℕ, ◌≡◌, refl, ap, true, Bool-cases, inl, inr, List, [], ◌∷◌, if◌then◌else◌, Array,
}
use saynaa_os.Sys.Process.{Process}
use saynaa_os.Sys.Sched.{proc_valid, drop_heads, drop_others, prune}

-- The processes of a list that are valid.
unfoldable pub valid : Array Process → List ℕ → List ℕ
valid procs [] = []
valid procs (p ∷ ps) =
    let rest : List ℕ = valid procs ps in if proc_valid procs p then p ∷ rest else rest

drop_others-valid : (procs : Array Process) (ps : List ℕ) → drop_others procs ps ≡ valid procs ps
unfolding drop_others valid
drop_others-valid procs [] = refl
drop_others-valid procs (p ∷ ps) =
    ap (λ l. if proc_valid procs p then p ∷ l else l) (drop_others-valid procs ps)

-- The two loops of `sched_robin_prune` keep exactly the valid processes, in order.
pub prune-valid : (procs : Array Process) (ring : List ℕ) → prune procs ring ≡ valid procs ring
unfolding prune drop_heads valid
prune-valid procs [] = refl
prune-valid procs (p ∷ ps) = elim (Bool-cases (proc_valid procs p)) [
  | inl e ↦ rw (e, prune) (ap (λ l. p ∷ l) (drop_others-valid procs ps))
  | inr ne ↦ rw (ne, prune) (prune-valid procs ps)
]

-- All processes of the list are valid.
abbrev pub AllValid : Array Process → List ℕ → Type 0
AllValid procs [] = Unit {0}
AllValid procs (p ∷ ps) = (proc_valid procs p ≡ true) × AllValid procs ps

pub valid-AllValid : (procs : Array Process) (ring : List ℕ) → AllValid procs (valid procs ring)
unfolding valid
valid-AllValid procs [] = tt
valid-AllValid procs (p ∷ ps) = elim (Bool-cases (proc_valid procs p)) [
  | inl e ↦ rw e (e, valid-AllValid procs ps)
  | inr ne ↦ rw ne (valid-AllValid procs ps)
]

pub valid_same :
    (procs : Array Process) (ring : List ℕ) → AllValid procs ring → valid procs ring ≡ ring
unfolding valid
valid_same procs [] v = refl
valid_same procs (p ∷ ps) v = rw v.0 (ap (λ l. p ∷ l) (valid_same procs ps v.1))
