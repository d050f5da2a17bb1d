-- ===== src/Sys/Sched/Turns.antt =====
-- Waiting for a turn: elections one after the other (kernel/src/sys/sched_robin.c).
use saynaa_os.Prelude.{
  ℕ, zero, suc, ◌≤◌, ◌≡◌, refl, sym, ap, subst, ◌∙◌, ◌==◌, Bool, true, false, ◌||◌, inl, inr, ◌⊎◌,
  Option, none, some, List, [], ◌∷◌, ◌++◌, append_assoc, arith, Array, length, length-append,
}
use saynaa_os.Sys.Process.{Process}
use saynaa_os.Sys.Sched.{Sched, proc_valid, search, elect, head, sched_robin_next}
use saynaa_os.Sys.Sched.Ring.{valid, AllValid, valid_same}
use saynaa_os.Sys.Sched.Next.{search-Passes, search-before, next-elect}

-- Two splits of one list, the first not behind the second.
split_order :
    (pre a : List ℕ) (x y : ℕ) (xs b : List ℕ)
    → a ++ y ∷ b ≡ pre ++ x ∷ xs
    → length pre ≤ length a
    → ((x ≡ y) × (pre ≡ a) × (xs ≡ b))
      ⊎ ((mid : List ℕ) × (a ≡ pre ++ x ∷ mid) × (xs ≡ mid ++ y ∷ b))
split_order [] [] x y xs b e h = inl (cc, refl, cc)
split_order [] (c ∷ a) x y xs b e h = inr (a, cc, cc)
split_order (c ∷ pre) [] x y xs b e h = absurd (omega arith)
split_order (c ∷ pre) (d ∷ a) x y xs b e h =
    let tails : a ++ y ∷ b ≡ pre ++ x ∷ xs = cc in
    elim (split_order pre a x y xs b tails (omega arith)) [
      | inl (same, pres, rests) ↦ inl (same, cc, rests)
      | inr (mid, heads, rests) ↦ inr (mid, cc, rests)
    ]

-- The nodes of a list in the order in which the election looks at them: those behind the head, then
-- the head.
unfoldable pub order : List ℕ → List ℕ
order [] = []
order (h ∷ ns) = ns ++ h ∷ []

-- The process `y` is valid and awake, the list is pruned, and `n` nodes come before `y`.
pub record Waits (y n : ℕ) (s : Sched) : Type 0 where
  pub pruned : AllValid s.procs s.ring
  pub before : List ℕ
  pub behind : List ℕ
  pub place : order s.ring ≡ before ++ y ∷ behind
  pub count : length before ≡ n
  pub awake : (s.procs y).sleep_ticks ≡ 0

AllValid-split :
    (procs : Array Process) (a b : List ℕ)
    → AllValid procs (a ++ b)
    → AllValid procs a × AllValid procs b
AllValid-split procs [] b v = (tt, v)
AllValid-split procs (p ∷ a) b v = let (va, vb) = AllValid-split procs a b v.1 in ((v.0, va), vb)

AllValid-join :
    (procs : Array Process) (a b : List ℕ)
    → AllValid procs a
    → AllValid procs b
    → AllValid procs (a ++ b)
AllValid-join procs [] b va vb = vb
AllValid-join procs (p ∷ a) b va vb = (va.0, AllValid-join procs a b va.1 vb)

AllValid-same :
    (procs procs' : Array Process) (ps : List ℕ)
    → ((a : ℕ) → proc_valid procs' a ≡ proc_valid procs a)
    → AllValid procs ps
    → AllValid procs' ps
AllValid-same procs procs' [] same v = tt
AllValid-same procs procs' (p ∷ ps) same v = (same p ∙ v.0, AllValid-same procs procs' ps same v.1)

pub last_same : (ns pre : List ℕ) (h y : ℕ) → ns ++ h ∷ [] ≡ pre ++ y ∷ [] → h ≡ y
last_same [] [] h y e = cc
last_same [] (p ∷ []) h y e = cc
last_same [] (p ∷ q ∷ pre) h y e = cc
last_same (n ∷ []) [] h y e = cc
last_same (n ∷ m ∷ ns) [] h y e = cc
last_same (n ∷ ns) (p ∷ pre) h y e = last_same ns pre h y (cc)

elect-head :
    (h : ℕ) (ns pre : List ℕ) (x : ℕ) (xs : List ℕ)
    → ns ++ h ∷ [] ≡ pre ++ x ∷ xs
    → head (elect h ns (some (pre, x, xs))) ≡ some x
unfolding elect
elect-head h ns pre x [] e = ap some (last_same ns pre h x e)
elect-head h ns pre x (r ∷ rs) e = refl

elect_behind :
    (h : ℕ) (ns pre : List ℕ) (x : ℕ) (mid : List ℕ) (y : ℕ) (behind : List ℕ)
    → elect h ns (some (pre, x, mid ++ y ∷ behind)) ≡ x ∷ pre ++ (mid ++ y ∷ behind)
unfolding elect
elect_behind h ns pre x [] y behind = refl
elect_behind h ns pre x (m ∷ ms) y behind = refl

module _ (y : ℕ) where
  abbrev pub Turned : ℕ → Option ℕ × Sched → Type 0
  Turned n (p, t) = (p ≡ some y) ⊎ ((m : ℕ) × (n ≡ suc m) × Waits y m t)

  turn_at :
      (h : ℕ) (ns : List ℕ) (procs : Array Process) (before behind pre : List ℕ) (x : ℕ)
      (xs : List ℕ)
      → ns ++ h ∷ [] ≡ before ++ y ∷ behind
      → AllValid procs (before ++ y ∷ behind)
      → (procs y).sleep_ticks ≡ 0
      → before ++ y ∷ behind ≡ pre ++ x ∷ xs
      → length pre ≤ length before
      → Turned (length before) (
        head (elect h ns (some (pre, x, xs))),
        record { procs = procs; ring = elect h ns (some (pre, x, xs)) },
      )
  turn_at h ns procs before behind pre x xs place v up split short =
      elim (split_order pre before x y xs behind split short) [
        | inl (same, pres, rests) ↦ inl (elect-head h ns pre x xs (place ∙ split) ∙ ap some same)
        | inr (mid, heads, rests) ↦
            let new : elect h ns (some (pre, x, xs)) ≡ x ∷ pre ++ (mid ++ y ∷ behind) =
              ap (λ l. elect h ns (some (pre, x, l))) rests
              ∙ elect_behind h ns pre x mid y behind in
            let (vp, vx) = AllValid-split procs pre (x ∷ xs) (subst (AllValid procs) split v) in
            rw new (
              inr (
                length (pre ++ mid),
                omega (arith, ap length heads, length-append pre (x ∷ mid), length-append pre mid),
                record {
                  pruned = (
                    vx.0,
                    AllValid-join procs pre (mid ++ y ∷ behind) vp
                        (subst (AllValid procs) rests vx.1),
                  );
                  before = pre ++ mid;
                  behind = behind ++ x ∷ [];
                  place =
                      unfold order in
                      append_assoc pre (mid ++ y ∷ behind) (x ∷ [])
                      ∙ (ap (λ l. pre ++ l) (append_assoc mid (y ∷ behind) (x ∷ []))
                          ∙ sym (append_assoc pre mid (y ∷ (behind ++ x ∷ []))));
                  count = refl;
                  awake = up;
                },
              ))
      ]

  -- One election: it is the turn of `y`, or one node fewer comes before it.
  pub turn : (n : ℕ) (s : Sched) → Waits y n s → Turned n (sched_robin_next s)
  turn n s w = by_ring s.ring refl
    where
      by_ring : (ring : List ℕ) → s.ring ≡ ring → Turned n (sched_robin_next s)
      by_ring [] e =
          let moved : order s.ring ≡ [] = unfold order in ap order e in
          let place : [] ≡ w.before ++ y ∷ w.behind = sym moved ∙ w.place in
          absurd (omega (arith, ap length place, length-append w.before (y ∷ w.behind)))
      by_ring (h ∷ ns) e =
          let moved : order s.ring ≡ ns ++ h ∷ [] = unfold order in ap order e in
          let place : ns ++ h ∷ [] ≡ w.before ++ y ∷ w.behind = sym moved ∙ w.place in
          let (pre, x, xs, o, split, short) =
            search-before w.before w.behind [] y s.procs w.awake in
          let passes = search-Passes (ns ++ h ∷ []) [] s.procs in
          let v : AllValid s.procs (h ∷ ns) = subst (AllValid s.procs) e w.pruned in
          let after : Array Process = (search s.procs [] (ns ++ h ∷ [])).0 in
          let v' : AllValid after (w.before ++ y ∷ w.behind) = subst (AllValid after) place (
            AllValid-same s.procs after (ns ++ h ∷ []) passes.same_valid
              (AllValid-join s.procs ns (h ∷ []) v.1 (v.0, tt))) in
          let same_found = ap (λ l. (search s.procs [] l).1) place ∙ o in
          let is : valid s.procs s.ring ≡ h ∷ ns = valid_same s.procs s.ring w.pruned ∙ e in
          rw (next-elect s h ns is, same_found)
            (subst
              (λ k. Turned k (
                head (elect h ns (some (pre, x, xs))),
                record { procs = after; ring = elect h ns (some (pre, x, xs)) },
              ))
              w.count
              (turn_at h ns after w.before w.behind pre x xs place v' (passes.awake y w.awake) split
                short))

  -- What happens to the processes between two elections, if it leaves `y` awake and none valid or
  -- invalid that was not.
  pub record IsQuiet (env : Array Process → Array Process) : Type 0 where
    pub same_valid : (procs : Array Process) (a : ℕ) → proc_valid (env procs) a ≡ proc_valid procs a
    pub awake : (procs : Array Process) → (procs y).sleep_ticks ≡ 0 → (env procs y).sleep_ticks ≡ 0

  Waits-quiet :
      (n : ℕ) (s : Sched) (env : Array Process → Array Process)
      → IsQuiet env
      → Waits y n s
      → Waits y n (record s { procs = env s.procs })
  Waits-quiet n s env q w = record {
    pruned = AllValid-same s.procs (env s.procs) s.ring (q.same_valid s.procs) w.pruned;
    before = w.before;
    behind = w.behind;
    place = w.place;
    count = w.count;
    awake = q.awake s.procs w.awake;
  }

-- The results of `k` elections, with `env i` between them, counted down.
unfoldable pub elections : (ℕ → Array Process → Array Process) → ℕ → Sched → List (Option ℕ)
elections env zero s = []
elections env (suc k) s =
    let (p, t) = sched_robin_next s in p ∷ elections env k (record t { procs = env k t.procs })

unfoldable pub elected : ℕ → List (Option ℕ) → Bool
elected y [] = false
elected y (none ∷ ps) = elected y ps
elected y (some p ∷ ps) = p == y || elected y ps

elected_first :
    (y : ℕ) (p : Option ℕ) (ps : List (Option ℕ)) → p ≡ some y → elected y (p ∷ ps) ≡ true
unfolding elected
elected_first y p ps e = subst (λ o. elected y (o ∷ ps) ≡ true) (sym e) (ground arith)

elected_later :
    (y : ℕ) (p : Option ℕ) (ps : List (Option ℕ)) → elected y ps ≡ true → elected y (p ∷ ps) ≡ true
unfolding elected
elected_later y none ps h = h
elected_later y (some p) ps h = ground arith

-- A process that is awake in a pruned list is elected before long: if `n` nodes come before it, it
-- is among the results of the next `n + 1` elections, as long as what happens between them adds and
-- removes no node, leaves the process awake, and makes no process valid or invalid that was not;
-- the sleep times of the others may change in any way.
pub elections-elected :
    (n y : ℕ) (s : Sched) (env : ℕ → Array Process → Array Process)
    → Waits y n s
    → ((k : ℕ) → IsQuiet y (env k))
    → elected y (elections env (suc n) s) ≡ true
unfolding elections
elections-elected zero y s env w q = elim (turn y zero s w) [
  | inl now ↦ elected_first y (sched_robin_next s).0 _ now
  | inr (m, e, w') ↦ absurd (omega arith)
]
elections-elected (suc n) y s env w q = elim (turn y (suc n) s w) [
  | inl now ↦ elected_first y (sched_robin_next s).0 _ now
  | inr (m, e, w') ↦
      let t : Sched = (sched_robin_next s).1 in
      let fewer : Waits y n (record t { procs = env (suc n) t.procs }) =
        subst (λ k. Waits y k (record t { procs = env (suc n) t.procs })) {x = m} {y = n}
          (omega arith) (Waits-quiet y m t (env (suc n)) (q (suc n)) w') in
      elected_later y (sched_robin_next s).0 _
        (elections-elected n y (record t { procs = env (suc n) t.procs }) env fewer q)
]
