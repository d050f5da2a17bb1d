-- ===== src/Fs/Device.antt =====
-- The device registry (kernel/src/fs/device.c): up to 64 devices under distinct names, each with a
-- node of the virtual file system. A device is known by its address; of its operations the registry
-- needs to know which are there.
pub mod Laws
use saynaa_os.Prelude.{
  ℕ, zero, suc, ◌+◌, ◌<◌, ◌==◌, leb, Bool, true, false, Option, none, some, List, [], ◌∷◌, ◌++◌,
  if◌then◌else◌, length, take, get_elem?,
}
use saynaa_os.Prelude.Int.{ℤ, negsuc}
use saynaa_os.Libc.Strings.{same}

-- `device_t`: its address, its name, and whether `read`, `write` and `ioctl` are not null.
pub record Device : Type 0 where
  pub addr : ℕ
  pub name : List ℕ
  pub read : Bool
  pub write : Bool
  pub ioctl : Bool

-- `vfs_node_t` as `device_register` fills it: the private pointer, and which operations forward to
-- the device.
pub record Node : Type 0 where
  pub name : List ℕ
  pub flags : ℕ
  pub fs_private : ℕ
  pub read : Bool
  pub write : Bool
  pub ioctl : Bool

abbrev pub device_max_count : ℕ
device_max_count = 64

abbrev pub vfs_node_file : ℕ
vfs_node_file = 1

-- `g_devices`, in the order of registration, each device with its node.
abbrev pub Registry : Type 0
Registry = List (Device × Node)

unfoldable pub device_count : Registry → ℕ
device_count g = length g

-- Past the count there is null.
unfoldable pub device_by_index : Registry → ℕ → Option (Device × Node)
device_by_index g index = get_elem? g index

unfoldable pub find_device : Registry → List ℕ → Option (Device × Node)
find_device [] name = none
find_device ((d, n) ∷ g) name = if same name d.name then some (d, n) else find_device g name

unfoldable pub device_lookup : Registry → Option (List ℕ) → Option (Device × Node)
device_lookup g none = none
device_lookup g (some name) = find_device g name

-- The node that a registration writes; 63 characters of the name fit.
unfoldable pub make_node : Device → Node
make_node d = record {
  name = take 63 d.name;
  flags = vfs_node_file;
  fs_private = d.addr;
  read = d.read;
  write = d.write;
  ioctl = d.ioctl;
}

unfoldable pub add_device : Registry → Device → Bool × Registry
add_device g d = if length d.name == 0 then (false, g) else elim (find_device g d.name) [
  | some old ↦ (false, g)
  | none ↦
      if leb device_max_count (length g) then (false, g) else (true, g ++ (d, make_node d) ∷ [])
]

-- `none` is the null pointer.
unfoldable pub device_register : Registry → Option Device → Bool × Registry
unfolding add_device
device_register g none = (false, g)
device_register g (some d) = add_device g d

unfoldable pub device_get_vfs_node : Option (Device × Node) → Option Node
device_get_vfs_node none = none
device_get_vfs_node (some (d, n)) = some n

-- The forwarding of a node's read: -1 without a device or without its operation.
unfoldable pub device_vfs_read : Option Device → (Device → ℤ) → ℤ
device_vfs_read none read = negsuc 0
device_vfs_read (some d) read = if d.read then read d else negsuc 0

unfoldable pub device_vfs_write : Option Device → (Device → ℤ) → ℤ
device_vfs_write none write = negsuc 0
device_vfs_write (some d) write = if d.write then write d else negsuc 0

unfoldable pub device_vfs_ioctl : Option Device → (Device → ℤ) → ℤ
device_vfs_ioctl none ioctl = negsuc 0
device_vfs_ioctl (some d) ioctl = if d.ioctl then ioctl d else negsuc 0
