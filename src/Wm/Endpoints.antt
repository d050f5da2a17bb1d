-- ===== src/Wm/Endpoints.antt =====
-- The endpoints of processes (kernel/src/fs/dev/dev_wm.c).
use saynaa_os.Prelude.{
  ℕ, zero, suc, ◌+◌, ◌≡◌, ◌≢◌, refl, sym, ap, subst, ◌∙◌, arith, ◌==◌, false, if◌then◌else◌, Array,
  write, write_self, write_ne, Bool-cases, inl, inr, Option, none, some,
}
use saynaa_os.Wm.{
  wm_endpoints, Endpoint, Wm, find_from, find_ep, ensure_ep, empty_queue, register_sender,
}

find_from_lem :
    (n : ℕ) (eps : Array Endpoint) (pid i j : ℕ)
    → find_from eps pid i n ≡ some j
    → (eps j).pid ≡ pid
unfolding find_from
find_from_lem zero eps pid i j e = absurd (ground arith)
find_from_lem (suc n) eps pid i j e = elim (Bool-cases ((eps i).pid == pid)) [
  | inl here ↦ let at : i ≡ j = ground arith in subst (λ k. (eps k).pid ≡ pid) at (ground arith)
  | inr later ↦
      find_from_lem n eps pid (i + 1) j
        (subst (λ b. (if b then some i else find_from eps pid (i + 1) n) ≡ some j) later e)
]

-- From `m` on, endpoints are only given to processes that have none.
pub record Grows (m m' : Wm) : Type 0 where
  pub server : m'.server_pid ≡ m.server_pid
  pub kept : (k : ℕ) → (m.eps k).pid ≢ 0 → m'.eps k ≡ m.eps k

pub Grows-refl : (m : Wm) → Grows m m
Grows-refl m = record { server = refl; kept = λ k h. refl }

some-inj : (i j : ℕ) → ◌≡◌ {A = Option ℕ} (some i) (some j) → i ≡ j
some-inj i j e = ground (arith, e)

pub ensure_ep_lem :
    (m : Wm) (pid : ℕ)
    → Grows m (ensure_ep m pid).1
      × ((j : ℕ) → (ensure_ep m pid).0 ≡ some j → ((ensure_ep m pid).1.eps j).pid ≡ pid)
unfolding ensure_ep find_ep
ensure_ep_lem m pid = by_found (find_from m.eps pid 0 wm_endpoints) refl
  where
    by_free :
        (free : Option ℕ)
        → find_from m.eps 0 0 wm_endpoints ≡ free
        → let r : Option ℕ × Wm = elim free [
          | none ↦ (none, m)
          | some i ↦
              (some i, record m { eps = write m.eps i (record { pid = pid; q = empty_queue }) })
        ] in
          Grows m r.1 × ((j : ℕ) → r.0 ≡ some j → (r.1.eps j).pid ≡ pid)
    by_free none e = (Grows-refl m, λ j h. absurd (ground arith))
    by_free (some i) e =
        let free = find_from_lem wm_endpoints m.eps 0 0 i e in
        (
          record {
            server = refl;
            kept = λ k h.
                write_ne m.eps i k (record { pid = pid; q = empty_queue })
                  (λ z. h (sym (ap (λ x. (m.eps x).pid) z) ∙ free));
          },
          λ j h.
              ap (λ e'. e'.pid)
                (subst
                  (λ x.
                    write m.eps i (record { pid = pid; q = empty_queue }) x
                    ≡ record { pid = pid; q = empty_queue })
                  (some-inj i j h) (write_self m.eps i (record { pid = pid; q = empty_queue }))),
        )

    by_found :
        (found : Option ℕ)
        → find_from m.eps pid 0 wm_endpoints ≡ found
        → Grows m (ensure_ep m pid).1
          × ((j : ℕ) → (ensure_ep m pid).0 ≡ some j → ((ensure_ep m pid).1.eps j).pid ≡ pid)
    by_found none e = rw (ensure_ep, e) (by_free (find_from m.eps 0 0 wm_endpoints) refl)
    by_found (some i) e =
        rw (ensure_ep, e)
          (
            Grows-refl m,
            λ j h.
                ap (λ x. (m.eps x).pid) (sym (some-inj i j h))
                ∙ find_from_lem wm_endpoints m.eps pid 0 i e,
          )

pub register_sender_lem : (m : Wm) (src : ℕ) → m.server_pid ≢ 0 → Grows m (register_sender m src)
unfolding register_sender
register_sender_lem m src h =
    let e : (m.server_pid == 0) ≡ false = ground (arith, h) in
    subst
      (λ b.
        Grows m
          (ensure_ep (if b then (ensure_ep (record m { server_pid = src }) src).1 else m) src).1)
      (sym e) (ensure_ep_lem m src).0
