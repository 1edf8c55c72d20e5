-- ===== src/Message/Ctrlmsg.antt =====
-- The control messages between a role and its thread (src/messages.c): a type, sent by its name, and two
-- pointers. `none` is a failed assertion, a call that waits, or a read past the table
-- of names.
use libnrm.Prelude.{
  ◌>>=◌, bind_some, ℕ, zero, suc, ◌+◌, ◌<◌, ◌≡◌, refl, sym, ap, ◌∙◌, Option, none, some, List, [],
  ◌∷◌, ◌++◌, arith, ltb, length, get_elem?, if◌then◌else◌,
}
use mathlib.Core.List.{append_assoc, append-nil}
use libnrm.Prelude.Int.{ℤ, pos, negsuc}
use libnrm.Prelude.Bytes.{Bytes, ascii, bytes_eq}
use libnrm.Ext.Czmq.{Pipes}

-- nrm_ctrlmsg_table, at the indices NRM_CTRLMSG_TYPE_TERM and so on
abbrev pub ctrlmsg_table : List Bytes
ctrlmsg_table = ascii "$TERM" ∷ ascii "SEND" ∷ ascii "RECV" ∷ ascii "PUB" ∷ ascii "SUB" ∷ []

-- NRM_CTRLMSG_TYPE_MAX
abbrev pub ctrlmsg_max : ℕ
ctrlmsg_max = 5

-- nrm_ctrlmsg_t2s: a name, NULL out of range, or a read past the table
unfoldable pub t2s : ℤ → Option (Option Bytes)
t2s (negsuc n) = some none
t2s (pos n) =
    if ltb ctrlmsg_max n then some none else (get_elem? ctrlmsg_table n >>= (λ s. some (some s)))

-- The loop of nrm_ctrlmsg_s2t over the rest of the table, from the index `i`.
unfoldable pub s2t_from : List Bytes → ℕ → Bytes → ℤ
s2t_from [] i string = negsuc 0
s2t_from (s ∷ l) i string =
    let rest = s2t_from l (i + 1) string in if bytes_eq string s then pos i else rest

-- nrm_ctrlmsg_s2t
unfoldable pub s2t : Bytes → ℤ
unfolding s2t_from
s2t string = s2t_from ctrlmsg_table 0 string

-- assert(err == 0)
unfoldable pub asserted : {A : Type 0} → ℤ → A → Option A
asserted (pos zero) a = some a
asserted err a = none

-- Several control messages, of types by their numbers, and what is received for them.
module _ (P : Type 0) where
  abbrev pub Sent : Type 0
  Sent = List (ℕ × P × P)

  abbrev pub InRange : Sent → Type 0
  InRange [] = Unit {0}
  InRange ((n, p, q) ∷ l) = (n < 5) × InRange l

  unfoldable pub as_received : Sent → List (ℤ × P × P)
  as_received [] = []
  as_received ((n, p, q) ∷ l) = (pos n, p, q) ∷ as_received l

module _ {P : Type 0} (ps : Pipes P) where
  -- nrm_ctrlmsg__send
  unfoldable pub send : ps.Pipe → ℤ → P → P → Option (ℤ × ps.Pipe)
  unfolding t2s asserted
  send socket type p1 p2 = do
    found ← t2s type
    typestring ← found
    let (err, k) = ps.zsock_send socket typestring p1 p2
    asserted err (err, k)

  -- nrm_ctrlmsg__recv, with locations for both pointers
  unfoldable pub recv : ps.Pipe → Option (ℤ × (ℤ × P × P) × ps.Pipe)
  unfolding s2t asserted
  recv socket = do r ← ps.zsock_recv socket; asserted r.0 (r.0, (s2t r.1.0, r.1.1, r.1.2), r.2)

  -- nrm_ctrlmsg_sendmsg, nrm_ctrlmsg_pub and nrm_ctrlmsg_sub, which sends a NULL pointer
  unfoldable pub sendmsg : ps.Pipe → ℤ → P → P → Option (ℤ × ps.Pipe)
  unfolding send
  sendmsg socket type msg to = send socket type msg to

  unfoldable pub ctrlmsg_pub : ps.Pipe → ℤ → P → P → Option (ℤ × ps.Pipe)
  unfolding send
  ctrlmsg_pub socket (pos (suc (suc (suc zero)))) topic msg = send socket (pos 3) topic msg
  ctrlmsg_pub socket type topic msg = none

  unfoldable pub ctrlmsg_sub : P → ps.Pipe → ℤ → P → Option (ℤ × ps.Pipe)
  unfolding send
  ctrlmsg_sub null socket (pos (suc (suc (suc (suc zero))))) topic = send socket (pos 4) topic null
  ctrlmsg_sub null socket type topic = none

  -- nrm_ctrlmsg_recvmsg, with a location for the sender
  unfoldable pub recvmsg : ps.Pipe → Option (P × ℤ × P × ps.Pipe)
  unfolding recv
  recvmsg socket = do r ← recv socket; let (type, p, q) = r.1; some (p, type, q, r.2)

  unfoldable pub send_all : ps.Pipe → Sent P → Option ps.Pipe
  unfolding send
  send_all socket [] = some socket
  send_all socket ((n, p, q) ∷ l) = do r ← send socket (pos n) p q; send_all r.1 l

  unfoldable pub recv_all : ℕ → ps.Pipe → Option (List (ℤ × P × P) × ps.Pipe)
  unfolding recv
  recv_all zero socket = some ([], socket)
  recv_all (suc n) socket = do r ← recv socket; rest ← recv_all n r.2; some (r.1 ∷ rest.0, rest.1)

named : (n : ℕ) → n < 5 → (s : Bytes) × (t2s (pos n) ≡ some (some s)) × (s2t s ≡ pos n)
unfolding t2s s2t bytes_eq
named zero h = (ascii "$TERM", refl, refl)
named (suc zero) h = (ascii "SEND", refl, refl)
named (suc (suc zero)) h = (ascii "RECV", refl, refl)
named (suc (suc (suc zero))) h = (ascii "PUB", refl, refl)
named (suc (suc (suc (suc zero)))) h = (ascii "SUB", refl, refl)
named (suc (suc (suc (suc (suc n))))) h = absurd (omega arith)

module _ {P : Type 0} (ps : Pipes P) where
  sends :
      (k : ps.Pipe) (n : ℕ) (p q : P) (s : Bytes)
      → t2s (pos n) ≡ some (some s)
      → (k1 : ps.Pipe) × (send ps k (pos n) p q ≡ some (pos 0, k1))
        × (ps.queue k1 ≡ ps.queue k ++ (s, p, q) ∷ [])
  unfolding send asserted
  sends k n p q s e =
      let (k1, sent, held) = ps.send_lem k s p q in
      (
        k1,
        ap
              (λ f. f >>= (λ o.
                o >>= (λ t. let (err, c) = ps.zsock_send k t p q in asserted err (err, c))))
              e
            ∙ ap (λ r. let (err, c) = r in asserted err (err, c)) sent,
        held,
      )

  receives :
      (k : ps.Pipe) (n : ℕ) (p q : P) (s : Bytes) (l : List (Bytes × P × P))
      → s2t s ≡ pos n
      → ps.queue k ≡ (s, p, q) ∷ l
      → (k1 : ps.Pipe) × (recv ps k ≡ some (pos 0, (pos n, p, q), k1)) × (ps.queue k1 ≡ l)
  unfolding recv asserted
  receives k n p q s l e held =
      let (k1, got, rest) = ps.recv_lem k (s, p, q) l held in
      (
        k1,
        bind_some got (λ r. asserted r.0 (r.0, (s2t r.1.0, r.1.1, r.1.2), r.2))
            ∙ ap (λ t. some (pos 0, (t, p, q), k1)) e,
        rest,
      )

  queued :
      (l : Sent P)
      → InRange P l
      → (w : List (Bytes × P × P)) × ((k : ps.Pipe)
          → (k1 : ps.Pipe) × (send_all ps k l ≡ some k1) × (ps.queue k1 ≡ ps.queue k ++ w))
        × ((k : ps.Pipe)
            → ps.queue k ≡ w
            → (k1 : ps.Pipe) × (recv_all ps (length l) k ≡ some (as_received P l, k1))
              × (ps.queue k1 ≡ []))
  unfolding send_all recv_all as_received
  queued [] h = ([], λ k. (k, refl, sym (append-nil (ps.queue k))), λ k e. (k, refl, e))
  queued ((n, p, q) ∷ l) h =
      let (s, to, from) = named n h.0 in
      let (w, sent, got) = queued l h.1 in
      (
        (s, p, q) ∷ w,
        λ k.
            let (k1, one, held) = sends k n p q s to in
            let (k2, all, total) = sent k1 in
            (
              k2,
              bind_some one (λ r. send_all ps r.1 l) ∙ all,
              total ∙ ap (λ v. v ++ w) held ∙ append_assoc (ps.queue k) ((s, p, q) ∷ []) w,
            ),
        λ k e.
            let (k1, one, held) = receives k n p q s w from e in
            let (k2, all, left) = got k1 held in
            (
              k2,
              bind_some one
                    (λ r. recv_all ps (length l) r.2 >>= (λ rest. some (r.1 ∷ rest.0, rest.1)))
                  ∙ bind_some all (λ rest. some ((pos n, p, q) ∷ rest.0, rest.1)),
              left,
            ),
      )

  -- Control messages of the five types, sent by nrm_ctrlmsg__send on an empty pipe, are received by
  -- nrm_ctrlmsg__recv with the same types and pointers, in the same order, and nothing is left.
  pub recv_all-send_all :
      (l : Sent P) (k : ps.Pipe)
      → InRange P l
      → ps.queue k ≡ []
      → (k1 : ps.Pipe) × (k2 : ps.Pipe) × (send_all ps k l ≡ some k1)
        × (recv_all ps (length l) k1 ≡ some (as_received P l, k2))
        × (ps.queue k2 ≡ [])
  recv_all-send_all l k h e =
      let (w, sent, got) = queued l h in
      let (k1, all, held) = sent k in
      let (k2, back, left) = got k1 (held ∙ ap (λ v. v ++ w) e) in (k1, k2, all, back, left)
