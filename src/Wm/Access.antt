-- ===== src/Wm/Access.antt =====
-- Which endpoints a write of the device reaches (kernel/src/fs/dev/dev_wm.c).
use saynaa_os.Prelude.{
  ℕ, ◌+◌, ◌≡◌, ◌≢◌, refl, sym, ap, subst, ◌∙◌, List, arith, ltb, ◌==◌, not, ◌&&◌, ◌||◌, Bool, false,
  if◌then◌else◌, length, take, drop, write, write_ne, Bool-cases, inl, inr, Option, none, some,
}
use saynaa_os.Ring.{Ring}
use saynaa_os.Wm.{
  Wm, ensure_ep, wm_max_payload, hdr_size, word_at, put_message, enqueue_msg, register_sender,
  dev_wm_write,
}
use saynaa_os.Wm.Endpoints.{Grows, Grows-refl, ensure_ep_lem, register_sender_lem}

-- A message for `dst` reaches no endpoint but those of `dst` and of nobody.
pub record Reaches (m : Wm) (dst : ℕ) (m' : Wm) : Type 0 where
  pub server : m'.server_pid ≡ m.server_pid
  pub kept : (k : ℕ) → (m.eps k).pid ≢ 0 → (m.eps k).pid ≢ dst → m'.eps k ≡ m.eps k

Grows-Reaches : (m m' : Wm) (dst : ℕ) → Grows m m' → Reaches m dst m'
Grows-Reaches m m' dst g = record { server = g.server; kept = λ k h h'. g.kept k h }

Reaches-Grows : (m m' m'' : Wm) (dst : ℕ) → Grows m m' → Reaches m' dst m'' → Reaches m dst m''
Reaches-Grows m m' m'' dst g r = record {
  server = r.server ∙ g.server;
  kept = λ k h h'.
      let same = g.kept k h in
      let pid : (m'.eps k).pid ≡ (m.eps k).pid = ap (λ x. x.pid) same in
      r.kept k (λ z. h (sym pid ∙ z)) (λ z. h' (sym pid ∙ z)) ∙ same;
}

second :
    {A : Type 0}
    → (x : A) {b : A} (y c : Wm) → ◌≡◌ {A = Option (A × Wm)} (some (x, y)) (some (b, c))
    → y ≡ c
second x y c e = ap (λ o. elim o [ none ↦ y | some r ↦ r.1 ]) e

enqueue_msg_lem :
    (m : Wm) (dst src type : ℕ) (payload : List ℕ) (ok : Bool) (m' : Wm)
    → enqueue_msg m dst src type payload ≡ some (ok, m')
    → Reaches m dst m'
unfolding enqueue_msg
enqueue_msg_lem m dst src type payload ok m' e =
    elim (Bool-cases (ltb wm_max_payload (length payload))) [
      | inl long ↦
          subst (Reaches m dst) (second false m m' (subst (λ b. body b ≡ some (ok, m')) long e))
            (Grows-Reaches m m dst (Grows-refl m))
      | inr short ↦
          by_ep (ensure_ep m dst).0 (ensure_ep_lem m dst).1
            (subst (λ b. body b ≡ some (ok, m')) short e)
    ]
  where
    grown : Wm
    grown = (ensure_ep m dst).1

    stored : (i : ℕ) → Option (Bool × Ring ℕ) → Option (Bool × Wm)
    stored i put = elim put [
      | none ↦ none
      | some (ok, q) ↦
          some (
            ok,
            record grown { eps = write grown.eps i (record { pid = (grown.eps i).pid; q = q }) },
          )
    ]

    sent : Option ℕ → Option (Bool × Wm)
    sent ep = elim ep [
      | none ↦ some (false, grown)
      | some i ↦ stored i (put_message (grown.eps i).q src type payload)
    ]

    body : Bool → Option (Bool × Wm)
    body b = if b then some (false, m) else sent (ensure_ep m dst).0

    by_put :
        (i : ℕ) (put : Option (Bool × Ring ℕ))
        → (grown.eps i).pid ≡ dst
        → stored i put ≡ some (ok, m')
        → Reaches m dst m'
    by_put i none owner e = absurd (ground (arith, e))
    by_put i (some (done, q)) owner e =
        let after : Wm = record grown {
          eps = write grown.eps i (record { pid = (grown.eps i).pid; q = q });
        } in
        subst (Reaches m dst) (second done after m' e) (
          Reaches-Grows m grown after dst (ensure_ep_lem m dst).0 (record {
            server = refl;
            kept = λ k h h'.
                write_ne grown.eps i k (record { pid = (grown.eps i).pid; q = q })
                  (λ z. h' (ap (λ x. (grown.eps x).pid) (sym z) ∙ owner));
          }))

    by_ep :
        (ep : Option ℕ)
        → ((j : ℕ) → ep ≡ some j → (grown.eps j).pid ≡ dst)
        → sent ep ≡ some (ok, m')
        → Reaches m dst m'
    by_ep none owner e =
        subst (Reaches m dst) (second false grown m' e)
          (Grows-Reaches m grown dst (ensure_ep_lem m dst).0)
    by_ep (some i) owner e =
        by_put i (put_message (grown.eps i).q src type payload) (owner i refl) e

server_only : (a s d : ℕ) → a ≢ s → (not (a == s) && not (d == s)) ≡ false → d ≡ s
server_only a s d h e = ground arith

-- When there is a server, a process that is not the server reaches, whatever it writes, no endpoint
-- but the server's and those of nobody, and does not change who the server is.
pub dev_wm_write-client :
    (m : Wm) (src : ℕ) (buffer : Option (List ℕ)) (r : Option ℕ) (m' : Wm)
    → m.server_pid ≢ 0
    → src ≢ m.server_pid
    → dev_wm_write m (some src) buffer ≡ some (r, m')
    → Reaches m m.server_pid m'
unfolding dev_wm_write
dev_wm_write-client m src none r m' h h' e =
    subst (Reaches m m.server_pid) (second {A = Option ℕ} none m m' e)
      (Grows-Reaches m m m.server_pid (Grows-refl m))
dev_wm_write-client m src (some buffer) r m' h h' e = elim (Bool-cases bad) [
  | inl refused ↦
      subst (Reaches m m.server_pid)
        (second {A = Option ℕ} none m m' (subst (λ b. checked b ≡ some (r, m')) refused e))
        (Grows-Reaches m m m.server_pid (Grows-refl m))
  | inr fine ↦
      let e' = subst (λ b. checked b ≡ some (r, m')) fine e in
      elim (Bool-cases (not (src == m1.server_pid) && not (dst == m1.server_pid))) [
        | inl denied ↦
            subst (Reaches m m.server_pid)
              (second {A = Option ℕ} none m1 m' (subst (λ b. allowed b ≡ some (r, m')) denied e'))
              (Grows-Reaches m m1 m.server_pid grows)
        | inr go ↦
            let to : dst ≡ m.server_pid =
              server_only src m1.server_pid dst (λ z. h' (z ∙ grows.server)) go ∙ grows.server in
            subst (λ d. Reaches m d m') to
              (by_sent (enqueue_msg m1 dst src (word_at buffer 4) (take len (drop hdr_size buffer)))
                refl (subst (λ b. allowed b ≡ some (r, m')) go e'))
      ]
]
  where
    len : ℕ
    len = word_at buffer 8

    bad : Bool
    bad =
        ltb (length buffer) hdr_size
        || ltb wm_max_payload len
        || ltb (length buffer) (hdr_size + len)

    m1 : Wm
    m1 = register_sender m src

    grows : Grows m m1
    grows = register_sender_lem m src h

    dst : ℕ
    dst = if word_at buffer 0 == 0 then m1.server_pid else word_at buffer 0

    result : Option (Bool × Wm) → Option (Option ℕ × Wm)
    result sent = elim sent [
      | none ↦ none
      | some (ok, m2) ↦ some (if ok then some (hdr_size + len) else none, m2)
    ]

    allowed : Bool → Option (Option ℕ × Wm)
    allowed b =
        if b
        then some (none, m1)
        else result (enqueue_msg m1 dst src (word_at buffer 4) (take len (drop hdr_size buffer)))

    checked : Bool → Option (Option ℕ × Wm)
    checked b =
        if b
        then some (none, m)
        else allowed (not (src == m1.server_pid) && not (dst == m1.server_pid))

    by_sent :
        (sent : Option (Bool × Wm))
        → enqueue_msg m1 dst src (word_at buffer 4) (take len (drop hdr_size buffer)) ≡ sent
        → result sent ≡ some (r, m')
        → Reaches m dst m'
    by_sent none s e = absurd (ground (arith, e))
    by_sent (some (ok, m2)) s e =
        subst (Reaches m dst) (second (if ok then some (hdr_size + len) else none) m2 m' e) (
          Reaches-Grows m m1 m2 dst grows (
            enqueue_msg_lem m1 dst src (word_at buffer 4) (take len (drop hdr_size buffer)) ok m2
              s))
