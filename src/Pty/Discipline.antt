-- ===== src/Pty/Discipline.antt =====
-- The abstract line discipline: what a terminal's user types, what the program behind the slave end
-- may read, and what the master end is shown, as three lists of bytes. Both queues keep what fits.
use saynaa_os.Prelude.{
  ℕ, ◌+◌, ◌-◌, ◌==◌, ltb, has, ◌&&◌, ◌||◌, none, some, List, [], ◌∷◌, ◌++◌, if◌then◌else◌, take,
  length,
}
use saynaa_os.Pty.{
  Termios, icanon, echo, onlcr, ocrnl, onlret, nl, cr, bs, verase, pty_translate_input,
  pty_line_cap,
}
use saynaa_os.Pty.Fifo.{room}

pub record View : Type 0 where
  -- the line that is being typed
  pub line : List ℕ
  -- what the slave end can read
  pub ready : List ℕ
  -- what the master end can read
  pub shown : List ℕ

-- What of `xs` still fits behind `q`.
abbrev pub clip : List ℕ → List ℕ → List ℕ
clip q xs = take room (q ++ xs)

-- Output processing of one character.
unfoldable pub cooked : ℕ → ℕ → List ℕ
cooked oflag c =
    if c == cr && has oflag ocrnl
    then nl ∷ []
    else if c == cr && has oflag onlret
    then []
    else if c == nl && has oflag onlcr
    then cr ∷ c ∷ []
    else c ∷ []

unfoldable pub cook : ℕ → List ℕ → List ℕ
cook oflag [] = []
cook oflag (c ∷ cs) = cooked oflag c ++ cook oflag cs

-- All but the last element.
unfoldable pub init : List ℕ → List ℕ
init [] = []
init (x ∷ []) = []
init (x ∷ y ∷ xs) = x ∷ init (y ∷ xs)

module _ (t : Termios) where
  unfoldable pub show : View → List ℕ → View
  show v cs = record v { shown = clip v.shown (cook t.c_oflag cs) }

  unfoldable pub echoed : View → List ℕ → View
  unfolding show
  echoed v cs = if has t.c_lflag echo then show v cs else v

  unfoldable pub accept : View → ℕ → View × ℕ
  accept v c =
      if has t.c_lflag icanon
      then (if c == t.c_cc verase || c == bs
          then (if ltb 0 (length v.line)
              then (echoed (record v { line = init v.line }) (bs ∷ b' ' ∷ bs ∷ []), 0)
              else (v, 0))
          else if c == nl
          then (
            echoed (record v { line = []; ready = clip v.ready (v.line ++ nl ∷ []) }) (c ∷ []),
            1,
          )
          else if ltb (length v.line) (pty_line_cap - 1)
          then (echoed (record v { line = v.line ++ c ∷ [] }) (c ∷ []), 1)
          else (v, 0))
      else (echoed (record v { ready = clip v.ready (c ∷ []) }) (c ∷ []), 1)

  unfoldable pub typed : View → ℕ → View × ℕ
  typed v c = elim (pty_translate_input t c) [ none ↦ (v, 0) | some ch ↦ accept v ch ]

  -- The state after all of `cs` is typed, and how many characters count as written.
  unfoldable pub typed_all : View → List ℕ → View × ℕ
  unfolding typed
  typed_all v [] = (v, 0)
  typed_all v (c ∷ cs) =
      let rest : View × ℕ = typed_all (typed v c).0 cs in (rest.0, (typed v c).1 + rest.1)
