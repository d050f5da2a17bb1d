-- ===== src/Fs/Device/Laws.antt =====
-- The registry's invariant, and what a registration changes.
use saynaa_os.Prelude.{
  ℕ, ◌<◌, ◌≤◌, ◌≡◌, ◌≢◌, refl, sym, ap, ◌∙◌, ◌==◌, ==_iff, leb, Bool, true, false, Bool-cases, inl,
  inr, ◌⊎◌, Option, none, some, Option-cases, List, [], ◌∷◌, ◌++◌, if◌then◌else◌, length,
  length-append, arith,
}
use mathlib.Core.Bool.{false≢true}
use saynaa_os.Libc.Strings.{same, same_iff, IsString}
use saynaa_os.Fs.Device.{
  Device, Node, Registry, find_device, device_lookup, make_node, add_device, device_register,
  device_max_count,
}

-- No name of the registry is that of another device behind it, and all are strings.
abbrev pub Distinct : Registry → Type 0
Distinct [] = Unit {0}
Distinct ((d, n) ∷ g) = IsString d.name × (find_device g d.name ≡ none) × Distinct g

pub record IsValid (g : Registry) : Type 0 where
  pub count : length g ≤ device_max_count
  pub names : Distinct g

some_ne_none : {A : Type 0} {x : A} → some x ≡ none → ⊥
some_ne_none e = cc

find_device-append :
    (g : Registry) (d : Device) (n : Node) (name : List ℕ)
    → find_device (g ++ (d, n) ∷ []) name ≡ elim (find_device g name) [
      | none ↦ if same name d.name then some (d, n) else none
      | some x ↦ some x
    ]
unfolding find_device
find_device-append [] d n name = ground arith
find_device-append ((c, m) ∷ g) d n name = elim (Bool-cases (same name c.name)) [
  | inl e ↦ rw e refl
  | inr ne ↦ rw (ne, find_device) (find_device-append g d n name)
]

same_sym : (a b : List ℕ) → IsString a → IsString b → same a b ≡ false → same b a ≡ false
same_sym a b va vb ne = elim (Bool-cases (same b a)) [
  | inr e ↦ e
  | inl e ↦ absurd (false≢true (sym ne ∙ (same_iff a b va vb).1 (sym ((same_iff b a vb va).0 e))))
]

-- A device behind the first is found, if at all, under another name.
new_name :
    (c d : Device) (m : Node) (g : Registry)
    → find_device ((c, m) ∷ g) d.name ≡ none
    → (same d.name c.name ≡ false) × (find_device g d.name ≡ none)
unfolding find_device
new_name c d m g h = elim (Bool-cases (same d.name c.name)) [
  | inl e ↦ absurd (some_ne_none (rw e at h))
  | inr ne ↦ (ne, rw ne at h)
]

Distinct-append :
    (g : Registry) (d : Device) (n : Node)
    → Distinct g
    → IsString d.name
    → find_device g d.name ≡ none
    → Distinct (g ++ (d, n) ∷ [])
Distinct-append [] d n v str new = (str, unfold find_device in refl, tt)
Distinct-append ((c, m) ∷ g) d n v str new =
    let (other, fresh) = new_name c d m g new in
    let other' : same c.name d.name ≡ false = same_sym d.name c.name str v.0 other in
    (
      v.0,
      find_device-append g d n c.name ∙ (rw (v.1, other') refl),
      Distinct-append g d n v.2 str fresh,
    )

-- `device_register` refuses a device, and changes nothing, if its name is empty or taken or the
-- registry full; otherwise the device, with its node, stands behind all others.
pub device_register_lem :
    (g : Registry) (d : Device)
    → ((d.name ≡ []
          ⊎ ((x : Device × Node) × (device_lookup g (some d.name) ≡ some x))
          ⊎ (device_max_count ≤ length g))
        × (device_register g (some d) ≡ (false, g)))
      ⊎ ((d.name ≢ [])
          × (device_lookup g (some d.name) ≡ none)
          × (length g < device_max_count)
          × (device_register g (some d) ≡ (true, g ++ (d, make_node d) ∷ [])))
unfolding device_register add_device device_lookup
device_register_lem g d = elim (Bool-cases (length d.name == 0)) [
  | inl e ↦ inl (inl (empty d.name ((==_iff _ _).0 e)), rw e refl)
  | inr ne ↦ elim (Option-cases (find_device g d.name)) [
    | inr (x, old) ↦ inl (inr (inl (x, old)), rw (ne, old) refl)
    | inl new ↦ elim (Bool-cases (leb device_max_count (length g))) [
      | inl full ↦ inl (inr (inr (ground arith)), rw (ne, new, full) refl)
      | inr room ↦ inr (
        λ z. absurd (false≢true (sym ne ∙ ap (λ l. length l == 0) z)),
        new,
        ground arith,
        rw (ne, new, room) refl,
      )
    ]
  ]
]
  where
    empty : (l : List ℕ) → length l ≡ 0 → l ≡ []
    empty [] h = refl
    empty (c ∷ cs) h = absurd (omega arith)

-- A registration of a device whose name is a string, successful or not, keeps the registry's
-- invariant: at most 64 devices, under distinct names.
device_register-IsValid :
    (g : Registry) (d : Device)
    → IsValid g
    → IsString d.name
    → IsValid (device_register g (some d)).1
device_register-IsValid g d v str = elim (device_register_lem g d) [
  | inl (why, e) ↦ rw e v
  | inr (name, new, room, e) ↦ rw e (record {
    count = omega (arith, length-append g ((d, make_node d) ∷ []));
    names = Distinct-append g d (make_node d) v.names str (unfold device_lookup in new);
  })
]

-- After a successful registration of a device whose name is a string, that device is found under
-- its name.
pub device_lookup-device_register :
    (g g' : Registry) (d : Device)
    → IsString d.name
    → device_register g (some d) ≡ (true, g')
    → device_lookup g' (some d.name) ≡ some (d, make_node d)
unfolding device_lookup
device_lookup-device_register g g' d sd e = elim (device_register_lem g d) [
  | inl (why, same_reg) ↦ absurd (false≢true (ap (λ (r : Bool × Registry). r.0) (sym same_reg ∙ e)))
  | inr (nonempty, new, room, added) ↦
      let is : g' ≡ g ++ (d, make_node d) ∷ [] =
        ap (λ (r : Bool × Registry). r.1) (sym e ∙ added) in
      let self : same d.name d.name ≡ true = (same_iff d.name d.name sd sd).1 refl in
      ap (λ r. find_device r d.name) is
      ∙ (find_device-append g d (make_node d) d.name ∙ (rw (new, self) refl))
]

-- A registration, successful or not, leaves what is found under every other name as it was; both
-- names are strings.
device_lookup_other :
    (g : Registry) (d : Device) (name : List ℕ)
    → IsString d.name
    → IsString name
    → name ≢ d.name
    → device_lookup (device_register g (some d)).1 (some name) ≡ device_lookup g (some name)
unfolding device_lookup
device_lookup_other g d name sd sn ne = elim (device_register_lem g d) [
  | inl (why, e) ↦ rw e refl
  | inr (nonempty, new, room, e) ↦
      let other : same name d.name ≡ false = elim (Bool-cases (same name d.name)) [
        | inr f ↦ f
        | inl t ↦ absurd (ne ((same_iff name d.name sn sd).0 t))
      ] in
      rw e (find_device-append g d (make_node d) name ∙ behind (find_device g name) other)
]
  where
    behind :
        (o : Option (Device × Node)) {b : Bool}
        → b ≡ false
        → (elim o [ none ↦ if b then some (d, make_node d) else none | some x ↦ some x ]) ≡ o
    behind none f = rw f refl
    behind (some x) f = refl
