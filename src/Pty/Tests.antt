-- ===== src/Pty/Tests.antt =====
-- Runs of the pseudo-terminals on small inputs.
use saynaa_os.Prelude.{
  ℕ, ◌+◌, ◌<◌, ◌≤◌, ◌≡◌, refl, true, false, none, some, List, [], ◌∷◌, ◌++◌, arith, ◌==◌, has,
  length,
}
use saynaa_os.Ring.{Ring}
use saynaa_os.Pty.{
  Pty, nl, icanon, verase, pty_translate_input, fifo_read, fifo_write, pty_write_output,
  pty_master_write_data,
}
use saynaa_os.Pty.Fifo.{room, bytes, fifo_read-fifo_write}
use saynaa_os.Pty.Fifo as Fifo
use saynaa_os.Pty.Discipline.{show, typed_all}
use saynaa_os.Pty.Output.{Shows, pty_write_output_lem}
use saynaa_os.Pty.Line.{Implements, pty_master_write_data_refines}
use saynaa_os.Pty.Line.Typing.{AllPlain, line_read}
use saynaa_os.Pty.Endpoint.{pty_ioctl}
use saynaa_os.Pty.Endpoint.Invariant.{
  IsValid, view, view-Shows, Call, calls, calls-IsValid, pty_ioctl_frame,
}
use saynaa_os.Fs.Device.{Device, device_register, make_node}
use saynaa_os.Pty.Table.{
  Ptys, pty_max, free_slot, master_name, slave_name, new_pty, endpoint_device, pty_create,
  pts_readdir,
}
use saynaa_os.Pty.Table.Laws.{slot, first, second}

-- A terminal with the defaults.
abbrev fresh : Pty
fresh = new_pty 0

-- "ab"
abbrev text : List ℕ
text = b'a' ∷ b'b' ∷ []

fresh-IsValid : IsValid fresh
unfolding new_pty
fresh-IsValid = record {
  master_read = (omega arith, omega arith);
  master_write = (omega arith, omega arith);
  line_fits = omega arith;
}

fresh-Shows : Shows fresh (view fresh)
fresh-Shows = view-Shows fresh fresh-IsValid

-- A typed line is read as it was typed, and shown with a carriage return.
fresh_line :
    (bytes (pty_master_write_data fresh (text ++ nl ∷ [])).0.master_write ≡ text ++ nl ∷ [])
    × (bytes (pty_master_write_data fresh (text ++ nl ∷ [])).0.master_read
        ≡ b'a' ∷ b'b' ∷ 13 ∷ nl ∷ [])
unfolding pty_master_write_data saynaa_os.Ring.Contents.contents saynaa_os.Ring.used
    pty_translate_input new_pty saynaa_os.Pty.accept saynaa_os.Pty.pty_echo_char pty_write_output
    saynaa_os.Pty.pty_commit_line fifo_write saynaa_os.Pty.fifo_free saynaa_os.Pty.fifo_count
fresh_line = (refl, refl)

pty_master_write_data_refines_example :
    Implements fresh.term
      (pty_master_write_data fresh text)
      (typed_all fresh.term (view fresh) text)
pty_master_write_data_refines_example =
    pty_master_write_data_refines text fresh (view fresh) fresh-Shows

pty_write_output_lem_example :
    Shows (pty_write_output fresh text) (show fresh.term (view fresh) text)
pty_write_output_lem_example = pty_write_output_lem text fresh (view fresh) fresh-Shows

plain_text : AllPlain fresh.term text
unfolding new_pty pty_translate_input
plain_text = (
  record { kept = refl; no_erase = refl; no_newline = refl },
  (record { kept = refl; no_erase = refl; no_newline = refl }, tt),
)

canonical : has fresh.term.c_lflag icanon ≡ true
unfolding new_pty
canonical = refl

nl_kept : pty_translate_input fresh.term nl ≡ some nl
unfolding new_pty pty_translate_input
nl_kept = refl

nl_no_erase : (nl == fresh.term.c_cc verase) ≡ false
unfolding new_pty
nl_no_erase = refl

empty_line : (view fresh).line ≡ []
unfolding view new_pty
empty_line = refl

empty_ready : (view fresh).ready ≡ []
unfolding view saynaa_os.Ring.Contents.contents saynaa_os.Ring.used new_pty
empty_ready = refl

two_fit : length (view fresh).line + length text ≤ room
unfolding view new_pty
two_fit = omega arith

line_read_example :
    let p' = (pty_master_write_data fresh (text ++ nl ∷ [])).0 in
    ((fifo_read p'.master_write (length text + 1)).0 ≡ text ++ nl ∷ [])
    × (bytes (fifo_read p'.master_write (length text + 1)).1 ≡ [])
line_read_example =
    line_read fresh (view fresh) fresh-Shows canonical text empty_line empty_ready plain_text
      nl_kept nl_no_erase (omega arith)

abbrev queue : Ring ℕ
queue = record { buf = λ _. 0; r = 4095; w = 4095 }

queue-IsValid : Fifo.IsValid queue
queue-IsValid = (omega arith, omega arith)

fifo_read-fifo_write_example :
    ((fifo_read (fifo_write queue text).1 (length text)).0 ≡ text)
    × (bytes (fifo_read (fifo_write queue text).1 (length text)).1 ≡ [])
unfolding saynaa_os.Ring.Contents.contents saynaa_os.Ring.used
fifo_read-fifo_write_example = fifo_read-fifo_write queue text queue-IsValid refl (omega arith)

abbrev script : List Call
script = Call.write_master true true text ∷ Call.read_slave true true 2 ∷ []

calls-IsValid_example : IsValid (calls fresh script)
calls-IsValid_example = calls-IsValid script fresh fresh-IsValid

pty_ioctl_frame_example :
    let q = (pty_ioctl fresh true 0x5401 none).2 in
    (q.master_read ≡ fresh.master_read)
    × (q.master_write ≡ fresh.master_write)
    × (q.line_buf ≡ fresh.line_buf)
    × (q.line_len ≡ fresh.line_len)
pty_ioctl_frame_example = pty_ioctl_frame fresh true 0x5401 none

-- No terminal, and no device.
abbrev nobody : Ptys
nobody = record { slots = λ _. none; devices = [] }

abbrev one_pty : Ptys
one_pty = (pty_create nobody 4096 8192).1

one_pty_made : pty_create nobody 4096 8192 ≡ (some 0, one_pty)
unfolding pty_create device_register saynaa_os.Fs.Device.find_device saynaa_os.Libc.Strings.same
one_pty_made = refl

one_pty_listed : pts_readdir one_pty 0 true ≡ some (b'0' ∷ [], 1)
unfolding pts_readdir pty_create device_register saynaa_os.Fs.Device.find_device
    saynaa_os.Libc.Strings.same
one_pty_listed = refl

-- Another device has the name that the first slave end needs.
abbrev squatted : Ptys
squatted =
    let other : Device = endpoint_device 16384 (slave_name 0) in
    record { slots = λ _. none; devices = (other, make_node other) ∷ [] }

first_slot : slot squatted 4096 8192 < pty_max
unfolding free_slot
first_slot = omega arith

first_ok : (first squatted 4096 8192).0 ≡ true
unfolding device_register free_slot endpoint_device master_name saynaa_os.Fs.Device.find_device
    saynaa_os.Libc.Strings.same slave_name
first_ok = refl

second_refused : (second squatted 4096 8192).0 ≡ false
unfolding device_register free_slot endpoint_device slave_name saynaa_os.Fs.Device.find_device
    master_name saynaa_os.Libc.Strings.same
second_refused = refl
