-- ===== src/Pty/Table.antt =====
-- The table of terminals (kernel/src/fs/dev/dev_pty.c): creation with the two devices that it
-- registers, the directory /dev/pts, and the lookup by number.
pub mod Laws
use saynaa_os.Prelude.{
  ℕ, zero, suc, ◌+◌, ◌-◌, ◌*◌, ◌/◌, ◌%◌, ◌<◌, ◌==◌, ltb, leb, Bool, true, false, not, ◌||◌, ◌&&◌,
  Option, none, some, List, [], ◌∷◌, ◌++◌, if◌then◌else◌, length, Array, write, ◌^◌,
}
use saynaa_os.Pty.{Pty, default_termios, default_winsize}
use saynaa_os.Prelude.Int.{ℤ, negsuc}
use saynaa_os.Fs.Device.{Device, Node, Registry, device_register, make_node}

abbrev pub pty_max : ℕ
pty_max = 16

-- `g_ptys`, and the device registry.
pub record Ptys : Type 0 where
  pub slots : Array (Option Pty)
  pub devices : Registry

abbrev pub is_some : Option Pty → Bool
is_some none = false
is_some (some p) = true

-- `while (id < PTY_MAX && g_ptys[id]) id++`, with `n` rounds left.
unfoldable pub free_slot : Array (Option Pty) → (id n : ℕ) → ℕ
free_slot slots id zero = id
free_slot slots id (suc n) =
    let rest : ℕ = free_slot slots (id + 1) n in if is_some (slots id) then rest else id

-- A number in decimal, as `snprintf` writes one below 100.
unfoldable pub decimal : ℕ → List ℕ
decimal n = if ltb n 10 then (b'0' + n) ∷ [] else (b'0' + n / 10) ∷ (b'0' + n % 10) ∷ []

-- `ptm%u` and `pts%u`
unfoldable pub master_name : ℕ → List ℕ
unfolding decimal
master_name id = b'p' ∷ b't' ∷ b'm' ∷ decimal id

unfoldable pub slave_name : ℕ → List ℕ
unfolding decimal
slave_name id = b'p' ∷ b't' ∷ b's' ∷ decimal id

-- A terminal after `memset` and the defaults. `fg_pgid` is -1.
unfoldable pub new_pty : ℕ → Pty
unfolding default_termios default_winsize
new_pty id = record {
  id = id;
  term = default_termios;
  winsz = default_winsize;
  master_read = record { buf = λ _. 0; r = 0; w = 0 };
  master_write = record { buf = λ _. 0; r = 0; w = 0 };
  line_buf = λ _. 0;
  line_len = 0;
  fg_pgid = 0xFFFF_FFFF;
}

unfoldable pub endpoint_device : ℕ → List ℕ → Device
endpoint_device addr name = record {
  addr = addr;
  name = name;
  read = true;
  write = true;
  ioctl = true;
}

-- `pty_create`. `master` and `slave` are the addresses that `kmalloc` gives the two devices; it
-- aborts rather than return null.
unfoldable pub pty_create : Ptys → (master slave : ℕ) → Option ℕ × Ptys
unfolding free_slot master_name slave_name new_pty endpoint_device
pty_create t master slave =
    let id : ℕ = free_slot t.slots 0 pty_max in
    if leb pty_max id
    then (none, t)
    else (let (ok1, g1) =
          device_register t.devices (some (endpoint_device master (master_name id))) in
        if not ok1
        then (none, record t { devices = g1 })
        else (let (ok2, g2) = device_register g1 (some (endpoint_device slave (slave_name id))) in
            if not ok2
            then (none, record t { devices = g2 })
            else (some id, record { slots = write t.slots id (some (new_pty id)); devices = g2 })))

-- The master's node and the number that is stored through `out_id`.
unfoldable pub pty_open_master : Ptys → (master slave : ℕ) → Option (Node × ℕ) × Ptys
unfolding pty_create
pty_open_master t master slave =
    let (made, t') = pty_create t master slave in
    (
      elim made [
        | none ↦ none
        | some id ↦ some (make_node (endpoint_device master (master_name id)), id)
      ],
      t',
    )

-- /dev/ptmx itself refuses both.
unfoldable pub ptmx_read : ℤ
ptmx_read = negsuc 0

unfoldable pub ptmx_write : ℤ
ptmx_write = negsuc 0

unfoldable pub pty_get : Ptys → ℕ → Option Pty
pty_get t id = if leb pty_max id then none else t.slots id

-- The loop of `pts_readdir` with `n` rounds left: the number of the entry.
unfoldable pub readdir_from : Array (Option Pty) → (index seen i n : ℕ) → Option ℕ
readdir_from slots index seen i zero = none
readdir_from slots index seen i (suc n) =
    let rest : Option ℕ = readdir_from slots index seen (i + 1) n in
    let later : Option ℕ = readdir_from slots index (seen + 1) (i + 1) n in
    if not (is_some (slots i)) then rest else if seen == index then some i else later

-- The name and the inode of the entry; `dirent` says whether the pointer is not null.
unfoldable pub pts_readdir : Ptys → ℕ → (dirent : Bool) → Option (List ℕ × ℕ)
unfolding readdir_from decimal
pts_readdir t index false = none
pts_readdir t index true = elim (readdir_from t.slots index 0 0 pty_max) [
  | none ↦ none
  | some i ↦ some (decimal i, i + 1)
]

-- The loop over the digits; `none` at a character that is none.
unfoldable pub parse_id : ℕ → List ℕ → Option ℕ
parse_id id [] = some id
parse_id id (c ∷ cs) =
    let rest : Option ℕ = parse_id ((id * 10 + (c - b'0')) % 2 ^ 32) cs in
    if ltb c b'0' || ltb b'9' c then none else rest

-- The terminal whose slave end `pts_finddir` returns the node of.
unfoldable pub pts_finddir : Ptys → List ℕ → Option Pty
unfolding parse_id pty_get
pts_finddir t name =
    if length name == 0
    then none
    else elim (parse_id 0 name) [ none ↦ none | some id ↦ pty_get t id ]
