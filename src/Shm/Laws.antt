-- ===== src/Shm/Laws.antt =====
-- The pages of shared memory: getting them, and giving them back (kernel/src/mem/shm.c).
use saynaa_os.Prelude.{
  ℕ, zero, suc, ◌+◌, ◌/◌, ◌<◌, ◌≤◌, ◌≡◌, ◌≢◌, refl, ap, ◌∙◌, ◌==◌, Bool, true, false, ◌||◌,
  Bool-cases, inl, inr, ◌⊎◌, none, some, List, [], ◌∷◌, ◌++◌, if◌then◌else◌, Array, write, arith,
  length, length-append,
}
use saynaa_os.Pmm.{Pmm, block_size, pmm_free_page}
use saynaa_os.Pmm.Bitmap.{taken, taken-mmap_unset}
use saynaa_os.Pmm.Alloc.{IsValid, Takes, pmm_alloc_page_lem}
use saynaa_os.Shm.{ShmObj, find_from, free_all, free_present, alloc_all}

-- A block is one of the pages.
unfoldable pub held : List ℕ → ℕ → Bool
held [] b = false
held (a ∷ pages) b = a / block_size == b || held pages b

held-append : (xs ys : List ℕ) (b : ℕ) → held (xs ++ ys) b ≡ (held xs b || held ys b)
unfolding held
held-append [] ys b = refl
held-append (x ∷ xs) ys b = ground (arith, held-append xs ys b)

free_all-taken :
    (pages : List ℕ) (p : Pmm) (b : ℕ)
    → taken (free_all p pages) b ≡ (if held pages b then false else taken p b)
unfolding free_all held pmm_free_page
free_all-taken [] p b = refl
free_all-taken (a ∷ pages) p b =
    ground
      (arith, free_all-taken pages (pmm_free_page p a) b, taken-mmap_unset p (a / block_size) b)

-- From `p` to `q` the pages were taken, which were free.
pub record Took (p q : Pmm) (pages : List ℕ) : Type 0 where
  pub free : (b : ℕ) → held pages b ≡ true → taken p b ≡ false
  pub now : (b : ℕ) → taken q b ≡ (if held pages b then true else taken p b)
  pub not_null : held pages 0 ≡ false
  pub valid : IsValid q

pub Took-nil : (p : Pmm) → IsValid p → Took p p []
unfolding held
Took-nil p v = record { free = λ b e. cc; now = λ b. refl; not_null = refl; valid = v }

Took-snoc :
    (p q r : Pmm) (pages : List ℕ) (addr : ℕ)
    → IsValid p
    → Took p q pages
    → Takes q r addr 1
    → Took p r (pages ++ addr ∷ [])
unfolding held
Took-snoc p q r pages addr v t s = record {
  free = λ b h. ground (arith, held-append pages (addr ∷ []) b, t.free b, t.now b, s.free b);
  now = λ b. ground (arith, held-append pages (addr ∷ []) b, s.now b, t.now b);
  not_null = ground (arith, held-append pages (addr ∷ []) 0, t.not_null, s.not_null, s.aligned);
  valid = s.valid;
}

pub undo :
    (p q : Pmm) (pages : List ℕ) → Took p q pages → (b : ℕ) → taken (free_all q pages) b ≡ taken p b
undo p q pages t b = ground (arith, free_all-taken pages q b, t.now b, t.free b)

pub alloc_all-cases :
    (n : ℕ) (p q : Pmm) (got : List ℕ)
    → IsValid p
    → Took p q got
    → (alloc_all q n got ≡ none)
      ⊎ ((r : Pmm) × (alloc_all q n got ≡ some (none, r)) × ((b : ℕ) → taken r b ≡ taken p b))
      ⊎ ((pages : List ℕ) × (r : Pmm) × (alloc_all q n got ≡ some (some pages, r))
          × (length pages ≡ length got + n)
          × Took p r pages)
unfolding alloc_all
alloc_all-cases zero p q got v t = inr (inr (got, q, refl, omega arith, t))
alloc_all-cases (suc n) p q got v t = elim (pmm_alloc_page_lem q t.valid) [
  | inl (full, e) ↦ inl (rw (e, alloc_all) refl)
  | inr (inl (room, e, all)) ↦ inr (inl (free_all q got, rw (e, alloc_all) refl, undo p q got t))
  | inr (inr (room, addr, r, e, takes)) ↦
      let ne : (addr == 0) ≡ false = ground (arith, takes.not_null) in
      let step : alloc_all q (suc n) got ≡ alloc_all r n (got ++ addr ∷ []) =
        rw (e, alloc_all, ne) refl in
      elim (alloc_all-cases n p r (got ++ addr ∷ []) v (Took-snoc p q r got addr v t takes)) [
        | inl stops ↦ inl (step ∙ stops)
        | inr (inl (r', is, same)) ↦ inr (inl (r', step ∙ is, same))
        | inr (inr (pages, r', is, size, took)) ↦
            inr (inr (pages, r', step ∙ is, omega (arith, length-append got (addr ∷ [])), took))
      ]
]

pub free_present-free_all :
    (pages : List ℕ) (p : Pmm) → held pages 0 ≡ false → free_present p pages ≡ free_all p pages
unfolding free_present free_all held
free_present-free_all [] p h = refl
free_present-free_all (a ∷ pages) p h =
    let ne : (a == 0) ≡ false = ground arith in
    rw ne (free_present-free_all pages (pmm_free_page p a) (ground arith))

pub find_from-some :
    (objs : Array ShmObj) (id i n f : ℕ) → find_from objs id i n ≡ some f → (i ≤ f) × (f < i + n)
unfolding find_from
find_from-some objs id i zero f e = cc
find_from-some objs id i (suc n) f e = elim (Bool-cases ((objs i).id == id)) [
  | inl here ↦ let same : i ≡ f = some_injective (rw here at e) in (omega arith, omega arith)
  | inr other ↦
      let (low, high) = find_from-some objs id (i + 1) n f (rw other at e) in
      (omega arith, omega arith)
]
  where
    some_injective : {x y : ℕ} → some x ≡ some y → x ≡ y
    some_injective e = cc

-- An object with an id that no other has is found.
pub find_from-write :
    (objs : Array ShmObj) (obj : ShmObj) (slot i n : ℕ)
    → ((j : ℕ) → i ≤ j → j < i + n → (objs j).id ≢ obj.id)
    → i ≤ slot
    → slot < i + n
    → find_from (write objs slot obj) obj.id i n ≡ some slot
unfolding find_from
find_from-write objs obj slot i zero fresh low high = absurd (omega arith)
find_from-write objs obj slot i (suc n) fresh low high = elim (Bool-cases (slot == i)) [
  | inl here ↦
      let self : (obj.id == obj.id) ≡ true = ground arith in
      rw (here, self) (ap some (ground arith))
  | inr later ↦
      let other : ((objs i).id == obj.id) ≡ false = ground (arith, fresh i) in
      rw (later, other)
        (find_from-write objs obj slot (i + 1) n (λ j lo hi. fresh j (omega arith) (omega arith))
          (ground arith) (omega arith))
]
