-- ===== src/Locking/Mailbox/Ring.antt =====
-- The ring buffer of a mailbox as a queue of bytes.
use mathlib.Core.Path.{subst}
use ucas_oslab.Base.{
  ℕ, zero, suc, ◌+◌, ◌-◌, ◌%◌, ◌≤◌, ◌<◌, ◌≡◌, refl, ap, ◌∙◌, List, [], ◌∷◌, ◌++◌, arith, ==_ne,
  ==_refl,
}
use ucas_oslab.Base.Update.{update, update_self}
use ucas_oslab.Locking.Mailbox.{Mailbox, Mailboxes, max_mbox_length, send_byte, recv_byte}

-- The `n` bytes of the ring from the index `i`.
abbrev pub bytes_from : (ℕ → ℕ) → ℕ → ℕ → List ℕ
bytes_from buffer i zero = []
bytes_from buffer i (suc n) = buffer i ∷ bytes_from buffer ((i + 1) % max_mbox_length) n

-- The bytes that wait in a mailbox, the oldest first.
abbrev pub contents : Mailbox → List ℕ
contents mbox = bytes_from mbox.buffer mbox.head mbox.used

pub record IsValid (mbox : Mailbox) : Type 0 where
  pub head_in : mbox.head < max_mbox_length
  pub used_in : mbox.used ≤ max_mbox_length
  pub tail_at : mbox.tail ≡ (mbox.head + mbox.used) % max_mbox_length

bytes_from_append :
    (buffer : ℕ → ℕ) (i n v : ℕ)
    → i < max_mbox_length
    → n < max_mbox_length
    → bytes_from (update buffer ((i + n) % max_mbox_length) v) i (suc n)
      ≡ bytes_from buffer i n ++ (v ∷ [])
bytes_from_append buffer i zero v h k =
    let here : (i + 0) % max_mbox_length ≡ i = omega arith in
    rw here (ap (λ (t : ℕ). t ∷ []) (update_self buffer i v))
bytes_from_append buffer i (suc n) v h k =
    let j = (i + suc n) % max_mbox_length in
    let next = (i + 1) % max_mbox_length in
    let same : (next + n) % max_mbox_length ≡ j = omega arith in
    let rest : bytes_from (update buffer j v) next (suc n) ≡ bytes_from buffer next n ++ (v ∷ []) =
      subst
        (λ a. bytes_from (update buffer a v) next (suc n) ≡ bytes_from buffer next n ++ (v ∷ []))
        same (bytes_from_append buffer next n v (omega arith) (omega arith)) in
    let away : update buffer j v i ≡ buffer i = rw (==_ne j i (λ e. omega arith)) refl in
    ap (λ (b : ℕ). b ∷ bytes_from (update buffer j v) next (suc n)) away
    ∙ ap (λ t. buffer i ∷ t) rest

-- A byte sent to a mailbox that has room is the last of its bytes.
pub contents-send_byte :
    (w : Mailboxes) (id byte : ℕ)
    → IsValid (w.mailboxes id)
    → (w.mailboxes id).used < max_mbox_length
    → (contents ((send_byte w id byte).mailboxes id) ≡ contents (w.mailboxes id) ++ (byte ∷ []))
      × IsValid ((send_byte w id byte).mailboxes id)
      × (((send_byte w id byte).mailboxes id).used ≡ (w.mailboxes id).used + 1)
unfolding send_byte
contents-send_byte w id byte v room =
    let mbox = w.mailboxes id in
    let one : mbox.used + 1 ≡ suc mbox.used = omega arith in
    rw (==_refl id, v.tail_at, one)
      (
        bytes_from_append mbox.buffer mbox.head mbox.used byte v.head_in room,
        record { head_in = v.head_in; used_in = omega arith; tail_at = omega arith },
        refl,
      )

-- A byte received from a mailbox that has one is the first of its bytes.
pub contents-recv_byte :
    (w : Mailboxes) (id : ℕ)
    → IsValid (w.mailboxes id)
    → 0 < (w.mailboxes id).used
    → (contents (w.mailboxes id) ≡ (recv_byte w id).0 ∷ contents ((recv_byte w id).1.mailboxes id))
      × IsValid ((recv_byte w id).1.mailboxes id)
      × (((recv_byte w id).1.mailboxes id).used + 1 ≡ (w.mailboxes id).used)
unfolding recv_byte
contents-recv_byte w id v some_used =
    let mbox = w.mailboxes id in
    let one : mbox.used ≡ suc (mbox.used - 1) = omega arith in
    rw (==_refl id) (
      ap (bytes_from mbox.buffer mbox.head) one,
      record {
        head_in = omega arith;
        used_in = omega (arith, v.used_in);
        tail_at = omega (arith, v.tail_at, v.used_in);
      },
      omega arith,
    )
