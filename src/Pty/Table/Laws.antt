-- ===== src/Pty/Table/Laws.antt =====
-- Creation and lookup of terminals.
use saynaa_os.Prelude.{
  ℕ, zero, suc, ◌+◌, ◌-◌, ◌<◌, ◌≤◌, ◌≡◌, refl, sym, subst, ap, ◌∙◌, ◌==◌, ltb, leb, Bool, true,
  false, Bool-cases, inl, inr, ◌⊎◌, Option, none, some, Option-cases, List, [], ◌∷◌, length, arith,
  write, Array, all_below,
}
use saynaa_os.Pty.{Pty}
use saynaa_os.Fs.Device.{Device, Registry, device_register, device_lookup, make_node}
use saynaa_os.Fs.Device.Laws.{device_register_lem, device_lookup-device_register}
use mathlib.Core.Bool.{false≢true}
use saynaa_os.Libc.Strings.{IsString}
use saynaa_os.Pty.Table.{
  Ptys, pty_max, is_some, free_slot, decimal, master_name, slave_name, new_pty, endpoint_device,
  pty_create, pty_get, readdir_from, pts_readdir, parse_id, pts_finddir,
}

none_ne_some : {A : Type 0} {x : A} → none ≡ some x → ⊥
none_ne_some e = cc

decimal_digits : (n : ℕ) → n < 100 → parse_id 0 (decimal n) ≡ some n
unfolding parse_id decimal
decimal_digits n h = ground arith

free_slot_lem :
    (slots : Array (Option Pty)) (n id : ℕ)
    → let c = free_slot slots id n in
      (id ≤ c)
      × (c ≤ id + n)
      × ((c ≡ id + n) ⊎ (slots c ≡ none))
      × ((d : ℕ) → id ≤ d → d < c → is_some (slots d) ≡ true)
unfolding free_slot
free_slot_lem slots zero id =
    (omega arith, omega arith, inl (omega arith), λ d lo hi. absurd (omega arith))
free_slot_lem slots (suc n) id = elim (Bool-cases (is_some (slots id))) [
  | inl full ↦
      let (lo, hi, end, before) = free_slot_lem slots n (id + 1) in
      rw full (
        omega arith,
        omega arith,
        ground arith,
        λ d lo' hi'. ground (arith, before d, ap (λ i. is_some (slots i)) {x = id} {y = d}),
      )
  | inr free ↦
      rw free
        (omega arith, omega arith, inr (empty (slots id) free), λ d lo' hi'. absurd (omega arith))
]
  where
    empty : (o : Option Pty) → is_some o ≡ false → o ≡ none
    empty none e = refl
    empty (some p) e = cc

readdir_from_lem :
    (slots : Array (Option Pty)) (n index seen i c : ℕ)
    → readdir_from slots index seen i n ≡ some c
    → (c < i + n) × ((p : Pty) × (slots c ≡ some p))
unfolding readdir_from
readdir_from_lem slots zero index seen i c e = cc
readdir_from_lem slots (suc n) index seen i c e = elim (Option-cases (slots i)) [
  | inl gone ↦
      let (hi, there) = readdir_from_lem slots n index seen (i + 1) c (rw gone at e) in
      (omega arith, there)
  | inr (p, there) ↦ elim (Bool-cases (seen == index)) [
    | inl here ↦ let is : i ≡ c = ground arith in (omega arith, (p, sym (ap slots is) ∙ there))
    | inr more ↦
        let (hi, later) =
          readdir_from_lem slots n index (seen + 1) (i + 1) c (rw (there, more) at e) in
        (omega arith, later)
  ]
]

length-decimal : (n : ℕ) → (length (decimal n) == 0) ≡ false
unfolding decimal
length-decimal n = ground arith

finddir-decimal : (t : Ptys) (n : ℕ) → n < pty_max → pts_finddir t (decimal n) ≡ t.slots n
unfolding pts_finddir pty_get
finddir-decimal t n h = ground (arith, length-decimal n, decimal_digits n)

-- A name that the directory /dev/pts lists is that of a terminal of the table, which the lookup of
-- that name finds.
pts_finddir-pts_readdir :
    (t : Ptys) (index : ℕ) (name : List ℕ) (inode : ℕ)
    → pts_readdir t index true ≡ some (name, inode)
    → (p : Pty) × (pts_finddir t name ≡ some p) × (pty_get t (inode - 1) ≡ some p)
unfolding pts_readdir
pts_finddir-pts_readdir t index name inode e =
    elim (Option-cases (readdir_from t.slots index 0 0 pty_max)) [
      | inl gone ↦ absurd (none_ne_some (rw (gone, pts_readdir) at e))
      | inr (c, found) ↦
          let (hi, (p, there)) = readdir_from_lem t.slots pty_max index 0 0 c found in
          let listed : some (decimal c, c + 1) ≡ some (name, inode) =
            rw (found, pts_readdir) at e in
          let number : c + 1 ≡ inode = cc in
          let text : decimal c ≡ name = cc in
          let get : pty_get t c ≡ some p = unfold pty_get in (ground arith) in
          (
            p,
            sym (ap (pts_finddir t) text) ∙ (finddir-decimal t c hi ∙ there),
            ap (pty_get t) {y = c} (omega arith) ∙ get,
          )
    ]

-- The names 4294967296 to 4294967299 lead to where the terminals 0 to 3 are, if they are there.
pts_finddir_wraps :
    (t : Ptys) (id : ℕ)
    → id < 4
    → pts_finddir t
        (b'4' ∷ b'2' ∷ b'9' ∷ b'4' ∷ b'9' ∷ b'6' ∷ b'7' ∷ b'2' ∷ b'9' ∷ (b'6' + id) ∷ [])
      ≡ pty_get t id
unfolding pts_finddir parse_id
pts_finddir_wraps t id h = ground arith

some_injective : {A : Type 0} {x y : A} → some x ≡ some y → x ≡ y
some_injective e = cc

all_below_intro : (n : ℕ) (p : ℕ → Bool) → ((x : ℕ) → x < n → p x ≡ true) → all_below n p ≡ true
unfolding all_below
all_below_intro zero p h = refl
all_below_intro (suc n) p h =
    rw (h n (omega arith)) (all_below_intro n p (λ x lt. h x (omega arith)))

decimal-IsString : (n : ℕ) → IsString (decimal n)
unfolding decimal
decimal-IsString n = elim (Bool-cases (ltb n 10)) [
  | inl e ↦ rw e (λ z. omega arith, tt)
  | inr ne ↦ rw ne (λ z. omega arith, (λ z. omega arith, tt))
]

module _ (t : Ptys) (master slave : ℕ) where
  abbrev pub slot : ℕ
  slot = free_slot t.slots 0 pty_max

  abbrev pub master_device : Device
  master_device = endpoint_device master (master_name slot)

  abbrev pub slave_device : Device
  slave_device = endpoint_device slave (slave_name slot)

  abbrev pub first : Bool × Registry
  first = device_register t.devices (some master_device)

  abbrev pub second : Bool × Registry
  second = device_register first.1 (some slave_device)

  full : pty_max ≤ slot → pty_create t master slave ≡ (none, t)
  unfolding pty_create
  full h = ground arith

  refused :
      slot < pty_max
      → first.0 ≡ false
      → pty_create t master slave ≡ (none, record t { devices = first.1 })
  unfolding pty_create
  refused h e = ground arith

  dangling :
      slot < pty_max
      → first.0 ≡ true
      → second.0 ≡ false
      → pty_create t master slave ≡ (none, record t { devices = second.1 })
  unfolding pty_create
  dangling h e1 e2 = ground arith

  created :
      slot < pty_max
      → first.0 ≡ true
      → second.0 ≡ true
      → pty_create t master slave ≡ (
        some slot,
        record { slots = write t.slots slot (some (new_pty slot)); devices = second.1 },
      )
  unfolding pty_create
  created h e1 e2 = ground arith

  -- If a slot is free, and the slave's device is refused after the master's was registered, no
  -- terminal is made, but the master's device, whose memory is freed, is still found under its
  -- name.
  pty_create_dangling :
      slot < pty_max
      → first.0 ≡ true
      → second.0 ≡ false
      → ((pty_create t master slave).0 ≡ none)
        × (device_lookup (pty_create t master slave).1.devices (some (master_name slot))
            ≡ some (master_device, make_node master_device))
  unfolding endpoint_device master_name
  pty_create_dangling h e1 e2 =
      let is : first ≡ (true, first.1) = ap (λ (b : Bool). (b, first.1)) e1 in
      let str : IsString (master_name slot) =
        unfold master_name in
        (λ z. omega arith, (λ z. omega arith, (λ z. omega arith, decimal-IsString slot))) in
      let there = device_lookup-device_register t.devices first.1 master_device str is in
      let same_reg : second.1 ≡ first.1 = elim (device_register_lem first.1 slave_device) [
        | inl (why, e) ↦ ap (λ (r : Bool × Registry). r.1) e
        | inr (name, new, room, e) ↦
            absurd (false≢true (sym e2 ∙ ap (λ (r : Bool × Registry). r.0) e))
      ] in
      (
        ap (λ (r : Option ℕ × Ptys). r.0) (dangling h e1 e2),
        ap (λ (r : Option ℕ × Ptys). device_lookup r.1.devices (some (master_name slot)))
              (dangling h e1 e2)
            ∙ (ap (λ r. device_lookup r (some (master_name slot))) same_reg ∙ there),
      )

  -- A creation that succeeds takes the first free slot for a terminal with the defaults, and leaves
  -- every other slot as it was.
  pty_create_lem :
      (id : ℕ) (t' : Ptys)
      → pty_create t master slave ≡ (some id, t')
      → (id < pty_max)
        × (t.slots id ≡ none)
        × (all_below id (λ d. is_some (t.slots d)) ≡ true)
        × (t'.slots ≡ write t.slots id (some (new_pty id)))
  pty_create_lem id t' e = elim (Bool-cases (leb pty_max slot)) [
    | inl none_left ↦ absurd (not_made id t' (full (ground arith)) e)
    | inr room ↦ elim (Bool-cases first.0) [
      | inr bad ↦ absurd (not_made id t' (refused (ground arith) bad) e)
      | inl e1 ↦ elim (Bool-cases second.0) [
        | inr bad ↦ absurd (not_made id t' (dangling (ground arith) e1 bad) e)
        | inl e2 ↦
            let is = sym e ∙ created (ground arith) e1 e2 in
            let number : id ≡ slot = some_injective (ap (λ (r : Option ℕ × Ptys). r.0) is) in
            let kept = ap (λ (r : Option ℕ × Ptys). r.1.slots) is in
            subst
              (λ k.
                (k < pty_max)
                × (t.slots k ≡ none)
                × (all_below k (λ d. is_some (t.slots d)) ≡ true)
                × (t'.slots ≡ write t.slots k (some (new_pty k))))
              (sym number) (taken_slot (ground arith) kept)
      ]
    ]
  ]
    where
      not_made :
          (id : ℕ) (t' : Ptys) {g : Ptys}
          → pty_create t master slave ≡ (none, g)
          → pty_create t master slave ≡ (some id, t')
          → ⊥
      not_made id t' a b = none_ne_some (ap (λ (r : Option ℕ × Ptys). r.0) (sym a ∙ b))

      taken_slot :
          {new : Array (Option Pty)}
          → slot < pty_max
          → new ≡ write t.slots slot (some (new_pty slot))
          → (slot < pty_max)
            × (t.slots slot ≡ none)
            × (all_below slot (λ d. is_some (t.slots d)) ≡ true)
            × (new ≡ write t.slots slot (some (new_pty slot)))
      taken_slot h kept =
          let (lo, hi, is_free, below) = free_slot_lem t.slots pty_max 0 in
          (
            h,
            elim is_free [ inl f ↦ absurd (omega arith) | inr f ↦ f ],
            all_below_intro slot (λ d. is_some (t.slots d)) (λ d lt. below d (omega arith) lt),
            kept,
          )
