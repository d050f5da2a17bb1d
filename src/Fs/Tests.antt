-- ===== src/Fs/Tests.antt =====
-- Runs of the file system's operations on small inputs.
use saynaa_os.Prelude.{
  ℕ, ◌+◌, ◌≡◌, refl, ap, true, false, none, some, List, [], ◌∷◌, ◌++◌, if◌then◌else◌, arith,
}
use saynaa_os.Libc.Strings.{same, IsString}
use saynaa_os.Fs.Vfs.{VfsFileOps, vfs_walk, slash}
use saynaa_os.Fs.Vfs.Segments.{components}
use saynaa_os.Fs.Vfs.Walk.{Short, resolve, vfs_walk-resolve}
use saynaa_os.Fs.Device.{Device, Registry, find_device, make_node, device_register}
use saynaa_os.Fs.Device.Laws.{IsValid}

-- A tree of numbered nodes: each directory below 3 has an entry `a`, the next node.
abbrev chain : VfsFileOps ℕ
chain = record {
  read = λ n. none;
  write = λ n. none;
  ioctl = λ n. none;
  readdir = λ n. none;
  finddir = λ n. some (λ name. if same name (b'a' ∷ []) then some (n + 1) else none);
}

-- "//a/a"
abbrev path : List ℕ
path = slash ∷ slash ∷ b'a' ∷ slash ∷ b'a' ∷ []

walk_chain : vfs_walk chain 0 path ≡ some (some 2)
unfolding vfs_walk saynaa_os.Fs.Vfs.walk_loop saynaa_os.Fs.Vfs.skip saynaa_os.Fs.Vfs.descend same
    saynaa_os.Fs.Vfs.segment
walk_chain = refl

walk_missing : vfs_walk chain 0 (slash ∷ b'b' ∷ []) ≡ some none
unfolding vfs_walk saynaa_os.Fs.Vfs.walk_loop saynaa_os.Fs.Vfs.skip saynaa_os.Fs.Vfs.descend same
    saynaa_os.Fs.Vfs.segment
walk_missing = refl

path-Short : Short (components path)
unfolding components saynaa_os.Fs.Vfs.Segments.components_from
path-Short = (omega arith, (omega arith, tt))

vfs_walk-resolve_example : vfs_walk chain 0 path ≡ some (resolve chain 0 (components path))
vfs_walk-resolve_example = vfs_walk-resolve chain 0 path path-Short

abbrev zero_device : Device
zero_device = record { addr = 4096; name = b'z' ∷ []; read = true; write = false; ioctl = false }

abbrev null_device : Device
null_device = record { addr = 8192; name = b'n' ∷ []; read = true; write = true; ioctl = false }

abbrev one_device : Registry
one_device = (zero_device, make_node zero_device) ∷ []

one_device-IsValid : IsValid one_device
one_device-IsValid = record {
  count = omega arith;
  names = ((λ e. omega arith, tt), unfold find_device in refl, tt);
}

null_device-IsString : IsString null_device.name
null_device-IsString = (λ e. omega arith, tt)

register_twice : device_register one_device (some zero_device) ≡ (false, one_device)
unfolding device_register find_device same
register_twice = refl

abbrev two_devices : Registry
two_devices = one_device ++ (null_device, make_node null_device) ∷ []

registered : device_register one_device (some null_device) ≡ (true, two_devices)
unfolding device_register find_device two_devices same
registered = refl

abbrev letter : List ℕ → ℕ
letter [] = 0
letter (c ∷ cs) = c

differ : zero_device.name ≡ null_device.name → ⊥
differ e =
    let first : letter zero_device.name ≡ letter null_device.name = ap letter e in omega arith
