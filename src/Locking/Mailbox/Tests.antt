-- ===== src/Locking/Mailbox/Tests.antt =====
-- An empty mailbox whose ring starts near its end.
use ucas_oslab.Base.{ℕ, ◌+◌, ◌≡◌, refl, false, [], ◌++◌, arith}
use ucas_oslab.Base.Run.{ok}
use ucas_oslab.Sched.{running}
use ucas_oslab.Locking.Mailbox.{Mailboxes, send_rounds, recv_rounds}
use ucas_oslab.Locking.Mailbox.Ring.{IsValid, contents}
use ucas_oslab.Locking.Mailbox.Queue.{message_bytes, contents-send_rounds, recv_rounds-send_rounds}

abbrev edge : Mailboxes
edge = record {
  tasks = record { status = λ p. running; held = λ p. false; ready_queue = [] };
  mailboxes = λ id. record {
    name = λ i. 0;
    buffer = λ i. 0;
    nref = 1;
    used = 0;
    head = 255;
    tail = 255;
    empty = [];
    full = [];
  };
  mbox_ref = λ id. 1;
}

edge-IsValid : IsValid (edge.mailboxes 2)
edge-IsValid = record { head_in = omega arith; used_in = omega arith; tail_at = refl }

contents-send_rounds_example :
    (w' : Mailboxes) × (send_rounds edge 2 4 (λ i. i + 65) 0 3 ≡ ok (3, w'))
    × (contents (w'.mailboxes 2) ≡ [] ++ message_bytes (λ i. i + 65) 0 3)
    × IsValid (w'.mailboxes 2)
contents-send_rounds_example =
    contents-send_rounds edge 2 4 (λ i. i + 65) 0 3 edge-IsValid (omega arith)

recv_rounds-send_rounds_example :
    (full : Mailboxes) × (message' : ℕ → ℕ) × (last : Mailboxes) × (send_rounds edge 2 4
        (λ i. i + 65)
        0
        3
      ≡ ok (3, full))
    × (recv_rounds full 2 5 (λ i. 0) 0 3 ≡ ok (message', 3, last))
    × (message_bytes message' 0 3 ≡ message_bytes (λ i. i + 65) 0 3)
recv_rounds-send_rounds_example =
    recv_rounds-send_rounds edge 2 4 5 (λ i. i + 65) (λ i. 0) 3 edge-IsValid refl (omega arith)
