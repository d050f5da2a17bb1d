-- ===== src/Pty/Line/Typing.antt =====
-- Typing in canonical mode: plain characters, the erase character and the end of the line.
use saynaa_os.Prelude.{
  ℕ, ◌+◌, ◌<◌, ◌≤◌, ◌≡◌, refl, sym, ap, ap₂, ◌∙◌, List, [], ◌∷◌, ◌++◌, arith, ◌==◌, ◌||◌, has, true,
  false, some, length, length-append, append_assoc, take, drop, append-nil,
}
use saynaa_os.Pty.{
  Pty, Termios, icanon, verase, nl, bs, pty_translate_input, pty_master_write_data, fifo_read,
}
use saynaa_os.Pty.Fifo.{room, bytes, fifo_read_lem, take_all, drop_all}
use saynaa_os.Pty.Discipline.{View, clip, init, echoed, show, accept, typed, typed_all}
use saynaa_os.Pty.Output.{Shows}
use saynaa_os.Pty.Line.{pty_master_write_data_refines}

-- A character that input processing leaves alone and that means nothing but itself.
pub record IsPlain (t : Termios) (c : ℕ) : Type 0 where
  pub kept : pty_translate_input t c ≡ some c
  pub no_erase : (c == t.c_cc verase || c == bs) ≡ false
  pub no_newline : (c == nl) ≡ false

abbrev pub AllPlain : Termios → List ℕ → Type 0
AllPlain t [] = Unit {0}
AllPlain t (c ∷ cs) = IsPlain t c × AllPlain t cs

init-snoc : (xs : List ℕ) (x : ℕ) → init (xs ++ x ∷ []) ≡ xs
unfolding init
init-snoc [] x = refl
init-snoc (y ∷ []) x = refl
init-snoc (y ∷ z ∷ xs) x = ap (λ l. y ∷ l) (init-snoc (z ∷ xs) x)

module _ (t : Termios) (canonical : has t.c_lflag icanon ≡ true) where
  typed_plain :
      (v : View) (c : ℕ)
      → IsPlain t c
      → length v.line < room
      → ((typed t v c).0.line ≡ v.line ++ c ∷ [])
        × ((typed t v c).0.ready ≡ v.ready)
        × ((typed t v c).1 ≡ 1)
  unfolding typed accept echoed show
  typed_plain v c p fits = ground arith

  typed_all_plain :
      (cs : List ℕ) (v : View)
      → AllPlain t cs
      → length v.line + length cs ≤ room
      → ((typed_all t v cs).0.line ≡ v.line ++ cs)
        × ((typed_all t v cs).0.ready ≡ v.ready)
        × ((typed_all t v cs).1 ≡ length cs)
  unfolding typed_all
  typed_all_plain [] v p fits = (sym (append-nil v.line), refl, refl)
  typed_all_plain (c ∷ cs) v p fits =
      let (line, ready, one) = typed_plain v c p.0 (omega arith) in
      let (lines, same, count) =
        typed_all_plain cs (typed t v c).0 p.1
          (omega (arith, ap length line, length-append v.line (c ∷ []))) in
      (
        lines ∙ (ap (λ l. l ++ cs) line ∙ append_assoc v.line (c ∷ []) cs),
        same ∙ ready,
        omega (arith, one, count),
      )

  typed_newline :
      (v : View)
      → pty_translate_input t nl ≡ some nl
      → (nl == t.c_cc verase) ≡ false
      → ((typed t v nl).0.line ≡ [])
        × ((typed t v nl).0.ready ≡ clip v.ready (v.line ++ nl ∷ []))
        × ((typed t v nl).1 ≡ 1)
  unfolding typed accept echoed show
  typed_newline v kept no_erase = ground arith

  typed_all-snoc :
      (cs : List ℕ) (v : View) (c : ℕ)
      → (typed_all t v (cs ++ c ∷ [])).0 ≡ (typed t (typed_all t v cs).0 c).0
  unfolding typed_all
  typed_all-snoc [] v c = refl
  typed_all-snoc (d ∷ cs) v c = typed_all-snoc cs (typed t v d).0 c

  erase_step :
      (w : View) (e : ℕ)
      → pty_translate_input t e ≡ some e
      → e ≡ t.c_cc verase
      → 0 < length w.line
      → ((typed t w e).0.line ≡ init w.line) × ((typed t w e).0.ready ≡ w.ready)
  unfolding typed accept echoed show
  erase_step w e kept is more = ground arith

  -- A character and then the erase character: the line and what the slave can read are as before.
  typed_erase :
      (v : View) (c e : ℕ)
      → IsPlain t c
      → pty_translate_input t e ≡ some e
      → e ≡ t.c_cc verase
      → length v.line < room
      → ((typed t (typed t v c).0 e).0.line ≡ v.line)
        × ((typed t (typed t v c).0 e).0.ready ≡ v.ready)
  typed_erase v c e p kept is fits =
      let (line, ready, one) = typed_plain v c p fits in
      let more : 0 < length (typed t v c).0.line =
        omega (arith, ap length line, length-append v.line (c ∷ [])) in
      let (line', ready') = erase_step (typed t v c).0 e kept is more in
      (line' ∙ (ap init line ∙ init-snoc v.line c), ready' ∙ ready)

module _ (p : Pty) (v : View) (s : Shows p v) (canonical : has p.term.c_lflag icanon ≡ true) where
  -- In canonical mode, for a terminal in its invariant, plain characters that fit the line leave
  -- what the slave end can read as it was.
  plain_held :
      (cs : List ℕ)
      → AllPlain p.term cs
      → length v.line + length cs ≤ room
      → bytes (pty_master_write_data p cs).0.master_write ≡ bytes p.master_write
  plain_held cs plain fits =
      let (s', count, same) = pty_master_write_data_refines cs p v s in
      s'.ready ∙ ((typed_all_plain p.term canonical cs v plain fits).1 ∙ sym s.ready)

  -- In canonical mode, for a terminal in its invariant with an empty line and nothing left to
  -- read: after a line of plain characters that fits, and a newline that input processing leaves
  -- alone and that is not the erase character, the slave end reads that line with its newline,
  -- and nothing else is left.
  pub line_read :
      (cs : List ℕ)
      → v.line ≡ []
      → v.ready ≡ []
      → AllPlain p.term cs
      → pty_translate_input p.term nl ≡ some nl
      → (nl == p.term.c_cc verase) ≡ false
      → length cs < room
      → let p' = (pty_master_write_data p (cs ++ nl ∷ [])).0 in
        ((fifo_read p'.master_write (length cs + 1)).0 ≡ cs ++ nl ∷ [])
        × (bytes (fifo_read p'.master_write (length cs + 1)).1 ≡ [])
  line_read cs no_line nothing plain kept no_erase fits =
      let w : View = (typed_all p.term v cs).0 in
      let (line, ready, count) =
        typed_all_plain p.term canonical cs v plain (omega (arith, ap length no_line)) in
      let (done, sent, one) = typed_newline p.term canonical w kept no_erase in
      let (s', total, same) = pty_master_write_data_refines (cs ++ nl ∷ []) p v s in
      let text : List ℕ = cs ++ nl ∷ [] in
      let held : bytes (pty_master_write_data p text).0.master_write ≡ text =
        s'.ready
        ∙ (ap View.ready (typed_all-snoc p.term canonical cs v nl)
            ∙ (sent
                ∙ (ap₂ (λ q l. clip q (l ++ nl ∷ [])) (ready ∙ nothing)
                      (line ∙ ap (λ l. l ++ cs) no_line)
                    ∙ take_all room text (omega (arith, length-append cs (nl ∷ [])))))) in
      let n : length cs + 1 ≡ length text = omega (arith, length-append cs (nl ∷ [])) in
      let (valid, got, left) =
        fifo_read_lem (length cs + 1) (pty_master_write_data p text).0.master_write
          s'.master_write in
      (
        got ∙ (ap₂ take n held ∙ take_all (length text) text (omega arith)),
        left ∙ (ap₂ drop n held ∙ drop_all text),
      )
