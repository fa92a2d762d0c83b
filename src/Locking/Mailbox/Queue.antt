-- ===== src/Locking/Mailbox/Queue.antt =====
-- Sending and receiving refine a queue: the bytes come out in the order in which they went in.
use mathlib.Core.List.{append-nil, append_assoc}
use ucas_oslab.Base.{
  ℕ, zero, suc, ◌+◌, ◌%◌, ◌≤◌, ◌<◌, ◌≡◌, refl, sym, ap, ◌∙◌, List, [], ◌∷◌, ◌++◌, arith, lt→ltb,
  length, ==_ne,
}
use ucas_oslab.Base.Run.{ok}
use ucas_oslab.Base.Update.{update, update_self}
use ucas_oslab.Locking.Mailbox.{
  Mailboxes, max_mbox_length, send_byte, recv_byte, send_rounds, recv_rounds,
}
use ucas_oslab.Locking.Mailbox.Ring.{
  bytes_from, contents, IsValid, contents-send_byte, contents-recv_byte,
}

-- `n` bytes of a message from the offset `i`.
abbrev pub message_bytes : (ℕ → ℕ) → ℕ → ℕ → List ℕ
message_bytes message i zero = []
message_bytes message i (suc n) = message i ∷ message_bytes message (i + 1) n

-- While the bytes that are left fit, the rounds send them all, without a wait: they are queued behind
-- those that the mailbox had, in order.
pub contents-send_rounds :
    (w : Mailboxes) (id task : ℕ) (message : ℕ → ℕ) (sent left : ℕ)
    → IsValid (w.mailboxes id)
    → (w.mailboxes id).used + left ≤ max_mbox_length
    → (w' : Mailboxes) × (send_rounds w id task message sent left ≡ ok (sent + left, w'))
      × (contents (w'.mailboxes id) ≡ contents (w.mailboxes id) ++ message_bytes message sent left)
      × IsValid (w'.mailboxes id)
unfolding send_rounds
contents-send_rounds w id task message sent zero v room =
    let all : sent ≡ sent + 0 = omega arith in
    (w, ap (λ n. ok (n, w)) all, sym (append-nil (contents (w.mailboxes id))), v)
contents-send_rounds w id task message sent (suc left) v room =
    let (more, valid, one) = contents-send_byte w id (message sent) v (omega arith) in
    let (w', e, queued, last) =
      contents-send_rounds (send_byte w id (message sent)) id task message (sent + 1) left valid
        (omega (arith, one)) in
    let all : sent + 1 + left ≡ sent + suc left = omega arith in
    (
      w',
      rw (lt→ltb (w.mailboxes id).used max_mbox_length (omega arith))
          (e ∙ ap (λ n. ok (n, w')) all),
      queued
          ∙ ap (λ t. t ++ message_bytes message (sent + 1) left) more
          ∙ append_assoc (contents (w.mailboxes id)) (message sent ∷ [])
              (message_bytes message (sent + 1) left),
      last,
    )

-- While the mailbox has the bytes asked for, the rounds receive them all, without a wait: the message
-- gets the oldest ones, in order, from the offset `received` on, and the others stay.
pub contents-recv_rounds :
    (w : Mailboxes) (id task : ℕ) (message : ℕ → ℕ) (received left : ℕ)
    → IsValid (w.mailboxes id)
    → left ≤ (w.mailboxes id).used
    → (message' : ℕ → ℕ) × (w' : Mailboxes) × (recv_rounds w id task message received left
        ≡ ok (message', received + left, w'))
      × (message_bytes message' received left ++ contents (w'.mailboxes id)
          ≡ contents (w.mailboxes id))
      × ((j : ℕ) → j < received → message' j ≡ message j)
      × IsValid (w'.mailboxes id)
unfolding recv_rounds
contents-recv_rounds w id task message received zero v has =
    let all : received ≡ received + 0 = omega arith in
    (message, w, ap (λ n. ok (message, n, w)) all, refl, λ j h. refl, v)
contents-recv_rounds w id task message received (suc left) v has =
    let byte = (recv_byte w id).0 in
    let now = update message received byte in
    let (first_byte, valid, one) = contents-recv_byte w id v (omega arith) in
    let (message', w', e, taken, kept, last) =
      contents-recv_rounds (recv_byte w id).1 id task now (received + 1) left valid
        (omega (arith, one)) in
    let all : received + 1 + left ≡ received + suc left = omega arith in
    let got : message' received ≡ byte =
      kept received (omega arith) ∙ update_self message received byte in
    (
      message',
      w',
      rw (lt→ltb 0 (w.mailboxes id).used (omega arith)) (e ∙ ap (λ n. ok (message', n, w')) all),
      ap (λ b. b ∷ (message_bytes message' (received + 1) left ++ contents (w'.mailboxes id))) got
          ∙ ap (λ t. byte ∷ t) taken
          ∙ sym first_byte,
      λ j h. kept j (omega arith) ∙ rw (==_ne received j (λ e. omega arith)) refl,
      last,
    )

length-bytes_from : (buffer : ℕ → ℕ) (i n : ℕ) → length (bytes_from buffer i n) ≡ n
length-bytes_from buffer i zero = refl
length-bytes_from buffer i (suc n) = ap suc (length-bytes_from buffer ((i + 1) % max_mbox_length) n)

length-message_bytes : (message : ℕ → ℕ) (i n : ℕ) → length (message_bytes message i n) ≡ n
length-message_bytes message i zero = refl
length-message_bytes message i (suc n) = ap suc (length-message_bytes message (i + 1) n)

append_prefix : (xs ys zs : List ℕ) → length xs ≡ length ys → xs ++ zs ≡ ys → xs ≡ ys
append_prefix [] [] zs h e = refl
append_prefix [] (y ∷ ys) zs h e = absurd (omega arith)
append_prefix (x ∷ xs) [] zs h e = absurd (omega arith)
append_prefix (x ∷ xs) (y ∷ ys) zs h e =
    let tails = append_prefix xs ys zs (omega arith) (ground arith) in ground arith

-- A message of at most 256 bytes (max_mbox_length) that is sent to a valid mailbox with no bytes in it
-- is sent whole without a wait; receiving as many bytes then ends without a wait, and they are those
-- of the message.
pub recv_rounds-send_rounds :
    (w : Mailboxes) (id task other : ℕ) (message buffer : ℕ → ℕ) (n : ℕ)
    → IsValid (w.mailboxes id)
    → (w.mailboxes id).used ≡ 0
    → n ≤ max_mbox_length
    → (full : Mailboxes) × (message' : ℕ → ℕ) × (last : Mailboxes) × (send_rounds w id task message
          0 n
        ≡ ok (n, full))
      × (recv_rounds full id other buffer 0 n ≡ ok (message', n, last))
      × (message_bytes message' 0 n ≡ message_bytes message 0 n)
recv_rounds-send_rounds w id task other message buffer n v none_used small =
    let (full, sent, queued, valid) =
      contents-send_rounds w id task message 0 n v (omega (arith, none_used)) in
    let nothing : contents (w.mailboxes id) ≡ [] =
      ap (bytes_from (w.mailboxes id).buffer (w.mailboxes id).head) none_used in
    let whole : contents (full.mailboxes id) ≡ message_bytes message 0 n =
      queued ∙ ap (λ t. t ++ message_bytes message 0 n) nothing in
    let count : (full.mailboxes id).used ≡ n =
      sym (
        length-bytes_from (full.mailboxes id).buffer (full.mailboxes id).head
          (full.mailboxes id).used)
      ∙ ap length whole
      ∙ length-message_bytes message 0 n in
    let (message', last, received, taken, kept, end) =
      contents-recv_rounds full id other buffer 0 n valid (omega (arith, count)) in
    let zero_n : 0 + n ≡ n = omega arith in
    (
      full,
      message',
      last,
      sent ∙ ap (λ k. ok (k, full)) zero_n,
      received ∙ ap (λ k. ok (message', k, last)) zero_n,
      append_prefix (message_bytes message' 0 n) (message_bytes message 0 n)
          (contents (last.mailboxes id))
          (length-message_bytes message' 0 n ∙ sym (length-message_bytes message 0 n))
          (taken ∙ whole),
    )
