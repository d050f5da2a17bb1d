-- ===== src/Pty/Output.antt =====
-- Output to the master end against the abstract discipline.
use saynaa_os.Prelude.{
  ℕ, ◌<◌, ◌≡◌, refl, sym, ap, ◌∙◌, List, [], ◌∷◌, ◌++◌, arith, inl, inr, ◌==◌, ◌&&◌, has,
  Bool-cases, take, append-nil, append_assoc, slice,
}
use saynaa_os.Ring.{Ring}
use saynaa_os.Pty.{
  Pty, Termios, to_master, to_slave, output_char, pty_write_output, pty_line_cap, ocrnl, onlret,
  onlcr, nl, cr,
}
use saynaa_os.Pty.Fifo
use saynaa_os.Pty.Fifo.{bytes, room, fifo_write_lem, take-take-append, take-bytes}
use saynaa_os.Pty.Discipline.{View, clip, cooked, cook, show}

-- The terminal `p` is in its invariant and in the abstract state `v`.
pub record Shows (p : Pty) (v : View) : Type 0 where
  pub master_read : Fifo.IsValid p.master_read
  pub master_write : Fifo.IsValid p.master_write
  pub line_fits : p.line_len < pty_line_cap
  pub line : slice p.line_buf 0 p.line_len ≡ v.line
  pub ready : bytes p.master_write ≡ v.ready
  pub shown : bytes p.master_read ≡ v.shown

module _ (p : Pty) (v : View) (s : Shows p v) where
  pub to_master_lem : (xs : List ℕ) → Shows (to_master p xs) (record v { shown = clip v.shown xs })
  to_master_lem xs =
      let (valid, now, count) = fifo_write_lem p.master_read xs s.master_read in
      record {
        master_read = valid;
        master_write = s.master_write;
        line_fits = s.line_fits;
        line = s.line;
        ready = s.ready;
        shown = now ∙ ap (λ l. clip l xs) s.shown;
      }

  -- The list shown may be replaced by an equal one.
  pub Shows-shown : {l : List ℕ} → v.shown ≡ l → Shows p (record v { shown = l })
  Shows-shown e = record {
    master_read = s.master_read;
    master_write = s.master_write;
    line_fits = s.line_fits;
    line = s.line;
    ready = s.ready;
    shown = s.shown ∙ e;
  }

  pub to_slave_lem : (xs : List ℕ) → Shows (to_slave p xs) (record v { ready = clip v.ready xs })
  to_slave_lem xs =
      let (valid, now, count) = fifo_write_lem p.master_write xs s.master_write in
      record {
        master_read = s.master_read;
        master_write = valid;
        line_fits = s.line_fits;
        line = s.line;
        ready = now ∙ ap (λ l. clip l xs) s.ready;
        shown = s.shown;
      }

-- Two writes are one of both pieces.
pub clip-clip : (q xs ys : List ℕ) → clip (clip q xs) ys ≡ clip q (xs ++ ys)
clip-clip q xs ys = take-take-append room (q ++ xs) ys ∙ ap (take room) (append_assoc q xs ys)

pub clip-nil : (q : Ring ℕ) → Fifo.IsValid q → clip (bytes q) [] ≡ bytes q
clip-nil q v = rw append-nil (take-bytes q v)

module _ (p : Pty) (v : View) (s : Shows p v) where
  output_char_lem :
      (c : ℕ)
      → Shows (output_char p c) (record v { shown = clip v.shown (cooked p.term.c_oflag c) })
  unfolding output_char cooked
  output_char_lem c = elim (Bool-cases (c == cr && has p.term.c_oflag ocrnl)) [
    | inl a ↦ rw a (to_master_lem p v s (nl ∷ []))
    | inr a ↦ elim (Bool-cases (c == cr && has p.term.c_oflag onlret)) [
      | inl b ↦
          rw (a, b)
            (Shows-shown p v s (
              sym s.shown
              ∙ (sym (clip-nil p.master_read s.master_read) ∙ ap (λ l. clip l []) s.shown)))
      | inr b ↦ elim (Bool-cases (c == nl && has p.term.c_oflag onlcr)) [
        | inl d ↦
            rw (a, b, d)
              (Shows-shown _ _
                (to_master_lem (to_master p (cr ∷ [])) (record v { shown = clip v.shown (cr ∷ []) })
                  (to_master_lem p v s (cr ∷ [])) (c ∷ []))
                (clip-clip v.shown (cr ∷ []) (c ∷ [])))
        | inr d ↦ rw (a, b, d) (to_master_lem p v s (c ∷ []))
      ]
    ]
  ]

-- Output leaves the settings alone.
output_char-term : (p : Pty) (c : ℕ) → (output_char p c).term ≡ p.term
unfolding output_char
output_char-term p c = ground arith

-- From any terminal in its invariant, which shows the abstract state `v`: whatever the slave end
-- writes, the master end is shown its processed form, as much as fits; the invariant, the line
-- and what the slave can read stay.
pub pty_write_output_lem :
    (cs : List ℕ) (p : Pty) (v : View)
    → Shows p v
    → Shows (pty_write_output p cs) (show p.term v cs)
unfolding pty_write_output show cook
pty_write_output_lem [] p v s =
    Shows-shown p v s
      (sym s.shown ∙ (sym (clip-nil p.master_read s.master_read) ∙ ap (λ l. clip l []) s.shown))
pty_write_output_lem (c ∷ cs) p v s =
    Shows-shown _ _ (pty_write_output_lem cs (output_char p c) _ (output_char_lem p v s c)) (
      ap (λ t. clip (clip v.shown (cooked p.term.c_oflag c)) (cook (Termios.c_oflag t) cs))
        (output_char-term p c)
      ∙ clip-clip v.shown (cooked p.term.c_oflag c) (cook p.term.c_oflag cs))

pub pty_write_output-term : (cs : List ℕ) (p : Pty) → (pty_write_output p cs).term ≡ p.term
unfolding pty_write_output
pty_write_output-term [] p = refl
pty_write_output-term (c ∷ cs) p = pty_write_output-term cs (output_char p c) ∙ output_char-term p c
