-- ===== src/Input/Keyboard/Queue.antt =====
-- The text queue of the keyboard: what typing adds, what a read takes, and the driver's invariant.
use saynaa_os.Prelude.{
  ℕ, zero, suc, ◌≡◌, ◌≢◌, refl, ap, ◌∙◌, List, [], ◌∷◌, ◌++◌, arith, true, some, take, drop, inl,
  inr, bit_and,
}
use saynaa_os.Ring.{Ring, push, discard}
use saynaa_os.Ring.Queue
use saynaa_os.Ring.Contents
use saynaa_os.Ring.Contents.{contents, length-contents, used-lt, discard-IsValid}
use saynaa_os.Ring.Overwrite.{push-IsValid, push_refines, pop-cases}
use saynaa_os.Ring.History.{push_all-last}
use saynaa_os.Input.Events.{dev_kbd_push_event, kbdq_len}
use saynaa_os.Input.Keyboard.{
  Keyboard, ttyq_len, ttyq_push, ttyq_pop, deliver, keyboard_handler, pop_up_to, keyboard_read,
  translate_key,
}

-- All four indices lie in their arrays.
pub record IsValid (k : Keyboard) : Type 0 where
  pub text : Contents.IsValid ttyq_len k.tty_q
  pub events : Contents.IsValid kbdq_len k.events

module _ (k : Keyboard) (v : IsValid k) where
  deliver-IsValid : (code ch : ℕ) → IsValid (deliver k code ch)
  unfolding deliver ttyq_push dev_kbd_push_event
  deliver-IsValid code ch = ground (
    arith,
    push-IsValid ttyq_len k.tty_q v.text ch,
    push-IsValid kbdq_len k.events v.events (record { keycode = code; pressed = 1; repr = ch }),
  )

  -- No interrupt takes an index of either queue out of its array.
  pub keyboard_handler-IsValid : (sc : ℕ) → IsValid (keyboard_handler k sc)
  unfolding keyboard_handler
  keyboard_handler-IsValid sc =
      ground
        (arith, deliver-IsValid (bit_and sc 0x7F) (translate_key k.caps k.shift (bit_and sc 0x7F)))

-- What a read returns, and what it leaves, is the split of the queue at that length.
pub pop_up_to_lem :
    (n : ℕ) (q : Ring ℕ)
    → Contents.IsValid ttyq_len q
    → ((pop_up_to n q).0 ≡ take n (contents ttyq_len q))
      × (contents ttyq_len (pop_up_to n q).1 ≡ drop n (contents ttyq_len q))
      × Contents.IsValid ttyq_len (pop_up_to n q).1
unfolding pop_up_to ttyq_pop
pop_up_to_lem zero q v = (refl, refl, v)
pop_up_to_lem (suc n) q v = elim (pop-cases ttyq_len q v) [
  | inl (nothing, e) ↦ rw (e, pop_up_to, e, nothing) (refl, refl, v)
  | inr (more, e) ↦
      let (bytes, rest, v') = pop_up_to_lem n (discard ttyq_len q) (discard-IsValid ttyq_len q v) in
      rw (e, pop_up_to, e, more) (ap (λ xs. q.buf q.r ∷ xs) bytes, rest, v')
]

-- In the driver's invariant, a read with a buffer, of a size that is not 0, takes the oldest
-- characters, as many as it asks for or as there are, and keeps the rest in order. The invariant
-- survives it.
keyboard_read_lem :
    (k : Keyboard) (sz : ℕ)
    → IsValid k
    → sz ≢ 0
    → ((keyboard_read k true sz).0 ≡ some (take sz (contents ttyq_len k.tty_q)))
      × (contents ttyq_len (keyboard_read k true sz).1.tty_q ≡ drop sz (contents ttyq_len k.tty_q))
      × IsValid (keyboard_read k true sz).1
unfolding keyboard_read
keyboard_read_lem k sz v ne = ground (arith, pop_up_to_lem sz k.tty_q v.text)

-- Every character of `cs` pushed in order.
unfoldable pub type : Ring ℕ → List ℕ → Ring ℕ
type q [] = q
type q (c ∷ cs) = type (ttyq_push q c) cs

type_refines :
    (q : Ring ℕ) (cs : List ℕ)
    → Contents.IsValid ttyq_len q
    → contents ttyq_len (type q cs) ≡ Queue.push_all 255 (contents ttyq_len q) cs
unfolding type ttyq_push Queue.push_all
type_refines q [] v = refl
type_refines q (c ∷ cs) v =
    type_refines (push ttyq_len q c) cs (push-IsValid ttyq_len q v c)
    ∙ ap (λ l. Queue.push_all 255 l cs) (push_refines ttyq_len q v (omega arith) c)

-- Characters pushed onto a text queue with valid indices leave it with the last 255 of what it
-- held and what was pushed: when full, it gives up its oldest character for the newest.
pub type-last :
    (q : Ring ℕ) (cs : List ℕ)
    → Contents.IsValid ttyq_len q
    → contents ttyq_len (type q cs) ≡ Queue.last 255 (contents ttyq_len q ++ cs)
type-last q cs v =
    type_refines q cs v
    ∙ push_all-last 255 cs (contents ttyq_len q) (omega arith)
        (omega (arith, length-contents ttyq_len q v, used-lt ttyq_len q v))
