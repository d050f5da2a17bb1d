-- ===== src/Pty/Line.antt =====
-- Input from the master end against the abstract discipline.
pub mod Typing
use saynaa_os.Prelude.{
  ℕ, zero, suc, ◌+◌, ◌-◌, ◌<◌, ◌≤◌, ◌≡◌, ◌≢◌, refl, sym, ap, ap₂, subst, ◌∙◌, List, [], ◌∷◌, ◌++◌,
  arith, inl, inr, ◌==◌, ◌&&◌, ◌||◌, not, ltb, has, Bool, true, Bool-cases, if◌then◌else◌, take,
  append-nil, append_assoc, slice, write, Array, length, Option, none, some, Option-cases,
}
use saynaa_os.Pty.{
  Pty, Termios, to_slave, pty_echo_char, pty_echo_backspace, pty_commit_line, accept, master_char,
  pty_master_write_data, pty_line_cap, icanon, echo, verase, nl, bs, pty_translate_input,
}
use saynaa_os.Pty.Discipline
use saynaa_os.Pty.Discipline.{View, clip, init, echoed, show}
use saynaa_os.Pty.Output.{
  Shows, to_slave_lem, clip-clip, pty_write_output_lem, pty_write_output-term,
}

-- The state once the line that is being typed is handed to the slave end.
abbrev committed : View → View
committed v = record v { line = []; ready = clip v.ready (v.line ++ nl ∷ []) }

-- Writing behind a slice makes it longer.
slice-write :
    (a : Array ℕ) (i n c : ℕ) → slice (write a (i + n) c) i (suc n) ≡ slice a i n ++ c ∷ []
slice-write a i zero c = ap (λ x. x ∷ []) (ground arith)
slice-write a i (suc n) c =
    ap₂ ◌∷◌ (ground arith)
      (ap (λ k. slice (write a k c) (i + 1) (suc n)) (omega arith) ∙ slice-write a (i + 1) n c)

length-slice : (a : Array ℕ) (i n : ℕ) → length (slice a i n) ≡ n
length-slice a i zero = refl
length-slice a i (suc n) = ap suc (length-slice a (i + 1) n)

init-slice : (a : Array ℕ) (i n : ℕ) → init (slice a i (suc n)) ≡ slice a i n
unfolding init
init-slice a i zero = refl
init-slice a i (suc n) = ap (λ l. a i ∷ l) (init-slice a (i + 1) n)

module _ (p : Pty) (v : View) (s : Shows p v) where
  echo_char_lem : (c : ℕ) → Shows (pty_echo_char p c) (echoed p.term v (c ∷ []))
  unfolding pty_echo_char echoed
  echo_char_lem c = elim (Bool-cases (has p.term.c_lflag echo)) [
    | inl on ↦ rw on (pty_write_output_lem (c ∷ []) p v s)
    | inr off ↦ rw off s
  ]

  echo_backspace_lem : Shows (pty_echo_backspace p) (echoed p.term v (bs ∷ b' ' ∷ bs ∷ []))
  unfolding pty_echo_backspace echoed
  echo_backspace_lem = elim (Bool-cases (has p.term.c_lflag echo)) [
    | inl on ↦ rw on (pty_write_output_lem (bs ∷ b' ' ∷ bs ∷ []) p v s)
    | inr off ↦ rw off s
  ]

  -- Another line buffer.
  with_line :
      (a : Array ℕ) (n : ℕ) {l : List ℕ}
      → n < pty_line_cap
      → slice a 0 n ≡ l
      → Shows (record p { line_buf = a; line_len = n }) (record v { line = l })
  with_line a n fits e = record {
    master_read = s.master_read;
    master_write = s.master_write;
    line_fits = fits;
    line = e;
    ready = s.ready;
    shown = s.shown;
  }

  length-line : length v.line ≡ p.line_len
  length-line = sym (ap length s.line) ∙ length-slice p.line_buf 0 p.line_len

  commit_lem : Shows (pty_commit_line p) (committed v)
  unfolding pty_commit_line
  commit_lem = elim (Bool-cases (p.line_len == 0)) [
    | inl empty ↦
        let nothing : v.line ≡ [] = sym s.line ∙ ap (slice p.line_buf 0) {y = 0} (ground arith) in
        let sent = to_slave_lem p v s (nl ∷ []) in
        rw empty (record {
          master_read = sent.master_read;
          master_write = sent.master_write;
          line_fits = sent.line_fits;
          line = sent.line ∙ nothing;
          ready = sent.ready ∙ ap (λ l. clip v.ready (l ++ nl ∷ [])) (sym nothing);
          shown = sent.shown;
        })
    | inr full ↦
        let text : List ℕ = slice p.line_buf 0 p.line_len in
        let first = to_slave_lem p v s text in
        let sent =
          to_slave_lem (to_slave p text) (record v { ready = clip v.ready text }) first (nl ∷ []) in
        rw full (record {
          master_read = sent.master_read;
          master_write = sent.master_write;
          line_fits = omega arith;
          line = refl;
          ready =
              sent.ready
              ∙ (clip-clip v.ready text (nl ∷ []) ∙ ap (λ l. clip v.ready (l ++ nl ∷ [])) s.line);
          shown = sent.shown;
        })
  ]

-- Echo and commit leave the settings alone.
echo_char-term : (p : Pty) (c : ℕ) → (pty_echo_char p c).term ≡ p.term
unfolding pty_echo_char
echo_char-term p c = ground (arith, pty_write_output-term (c ∷ []) p)

commit-term : (p : Pty) → (pty_commit_line p).term ≡ p.term
unfolding pty_commit_line
commit-term p = ground arith

echo_backspace-term : (p : Pty) → (pty_echo_backspace p).term ≡ p.term
unfolding pty_echo_backspace
echo_backspace-term p = ground (arith, pty_write_output-term (bs ∷ b' ' ∷ bs ∷ []) p)

-- The state, the count and the settings after a step of the driver are those of the discipline.
abbrev pub Implements : Termios → Pty × ℕ → View × ℕ → Type 0
Implements t (p, n) (v, m) = Shows p v × (n ≡ m) × (p.term ≡ t)

module _ (p : Pty) (v : View) (s : Shows p v) where
  erase_lem :
      (ltb 0 p.line_len ≡ true)
      → Shows
          (pty_echo_backspace (record p { line_len = p.line_len - 1 }))
          (echoed p.term (record v { line = init v.line }) (bs ∷ b' ' ∷ bs ∷ []))
  erase_lem some_left = echo_backspace_lem _ _ (
      with_line p v s p.line_buf (p.line_len - 1) (omega (arith, s.line_fits)) (
        sym (init-slice p.line_buf 0 (p.line_len - 1))
        ∙ (ap (λ n. init (slice p.line_buf 0 n)) {x = suc (p.line_len - 1)} {y = p.line_len}
              (ground arith)
            ∙ ap init s.line)))

  store_lem :
      (c : ℕ)
      → ltb p.line_len (pty_line_cap - 1) ≡ true
      → Shows
          (pty_echo_char
            (record p { line_buf = write p.line_buf p.line_len c; line_len = p.line_len + 1 })
            c)
          (echoed p.term (record v { line = v.line ++ c ∷ [] }) (c ∷ []))
  store_lem c fits =
      echo_char_lem _ _
        (with_line p v s (write p.line_buf p.line_len c) (p.line_len + 1) (ground arith) (
          ap (slice (write p.line_buf p.line_len c) 0) {y = suc p.line_len} (omega arith)
          ∙ ((ap (λ k. slice (write p.line_buf k c) 0 (suc p.line_len)) (omega arith)
                ∙ slice-write p.line_buf 0 p.line_len c)
              ∙ ap (λ l. l ++ c ∷ []) s.line)))
        c

  accept_lem : (c : ℕ) → Implements p.term (accept p c) (Discipline.accept p.term v c)
  unfolding accept Discipline.accept
  accept_lem c = elim (Bool-cases (has p.term.c_lflag icanon)) [
    | inr raw ↦ rw raw (
      echo_char_lem _ _ (to_slave_lem p v s (c ∷ [])) c,
      refl,
      echo_char-term (to_slave p (c ∷ [])) c,
    )
    | inl line ↦ elim (Bool-cases (c == p.term.c_cc verase || c == bs)) [
      | inl erase ↦ elim (Bool-cases (ltb 0 p.line_len)) [
        | inl more ↦
            rw (line, erase, length-line p v s, more)
              (erase_lem more, refl, echo_backspace-term (record p { line_len = p.line_len - 1 }))
        | inr nothing ↦ rw (line, erase, length-line p v s, nothing) (s, refl, refl)
      ]
      | inr keep ↦ elim (Bool-cases (c == nl)) [
        | inl end ↦
            rw (line, keep, end)
              (
                subst
                    (λ t.
                      Shows (pty_echo_char (pty_commit_line p) c) (echoed t (committed v) (c ∷ [])))
                    (commit-term p) (echo_char_lem (pty_commit_line p) _ (commit_lem p v s) c),
                refl,
                echo_char-term (pty_commit_line p) c ∙ commit-term p,
              )
        | inr char ↦ elim (Bool-cases (ltb p.line_len (pty_line_cap - 1))) [
          | inl fits ↦
              rw (line, keep, char, length-line p v s, fits)
                (
                  store_lem c fits,
                  refl,
                  echo_char-term
                      (record p {
                        line_buf = write p.line_buf p.line_len c;
                        line_len = p.line_len + 1;
                      })
                      c,
                )
          | inr full ↦ rw (line, keep, char, length-line p v s, full) (s, refl, refl)
        ]
      ]
    ]
  ]

  master_char_lem : (c : ℕ) → Implements p.term (master_char p c) (Discipline.typed p.term v c)
  unfolding master_char Discipline.typed
  master_char_lem c = elim (Option-cases (pty_translate_input p.term c)) [
    | inl dropped ↦ rw (dropped, Discipline.typed, master_char) (s, refl, refl)
    | inr (ch, got) ↦ rw (got, Discipline.typed, master_char) (accept_lem ch)
  ]

-- From any terminal in its invariant, which shows the abstract state `v`: whatever the master end
-- writes, the driver goes to the state of the abstract discipline under its current settings and
-- counts as many characters; its invariant and settings survive.
pub pty_master_write_data_refines :
    (cs : List ℕ) (p : Pty) (v : View)
    → Shows p v
    → Implements p.term (pty_master_write_data p cs) (Discipline.typed_all p.term v cs)
unfolding pty_master_write_data Discipline.typed_all
pty_master_write_data_refines [] p v s = (s, refl, refl)
pty_master_write_data_refines (c ∷ cs) p v s =
    let (s', count, same) = master_char_lem p v s c in
    let (s'', total, same') =
      subst
        (λ t.
          Implements t (pty_master_write_data (master_char p c).0 cs)
            (Discipline.typed_all t (Discipline.typed p.term v c).0 cs))
        same (pty_master_write_data_refines cs (master_char p c).0 _ s') in
    (s'', ap₂ ◌+◌ count total, same')
