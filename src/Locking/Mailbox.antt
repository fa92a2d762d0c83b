-- ===== src/Locking/Mailbox.antt =====
-- kernel/locking/mailbox.cpp. The mutex of a mailbox is taken and given back within each round of the
-- loops of `do_mbox_send` and `do_mbox_recv`, and a round keeps the kernel lock up to its call of
-- `do_scheduler`; so no task finds the mutex taken, and it is left out. The message in user memory is
-- the byte at each offset. `place` is the task's place in the bitmaps (get_pcb_index).
pub mod Ring
pub mod Queue
mod Tests
use ucas_oslab.Base.{
  ℕ, zero, suc, ◌+◌, ◌-◌, ◌%◌, ◌==◌, ltb, leb, Bool, true, false, not, ◌||◌, ◌&&◌, Option, none,
  some, List, [], ◌∷◌, if◌then◌else◌,
}
use ucas_oslab.Base.Int.{ℤ, pos, negsuc}
use ucas_oslab.Base.Run.{Run, ok, halt}
use ucas_oslab.Base.Update.{update}
use ucas_oslab.Libs.Strings.{Chars, strcmp}
use ucas_oslab.Locking.Slots.{first, for_each, eq_ℤ, has_ref, add_ref, drop_ref}
use ucas_oslab.Sched.{Tasks, list_shift, do_block, do_unblock, unblock_list}

abbrev pub max_mbox_length : ℕ
max_mbox_length = 256

abbrev pub mbox_num : ℕ
mbox_num = 8

-- `empty` and `full` are the wait lists of the two conditions.
pub record Mailbox : Type 0 where
  pub name : Chars
  pub buffer : ℕ → ℕ
  pub nref : ℕ
  pub used : ℕ
  pub head : ℕ
  pub tail : ℕ
  pub empty : List ℕ
  pub full : List ℕ

pub record Mailboxes : Type 0 where
  pub tasks : Tasks
  pub mailboxes : ℕ → Mailbox
  pub mbox_ref : ℕ → ℕ

abbrev pub put_mbox : Mailboxes → ℕ → Mailbox → Tasks → Mailboxes
put_mbox w id mbox ts = record w { tasks = ts; mailboxes = update w.mailboxes id mbox }

abbrev pub mailbox_init : Mailbox
mailbox_init = record {
  name = λ i. 0;
  buffer = λ i. 0;
  nref = 0;
  used = 0;
  head = 0;
  tail = 0;
  empty = [];
  full = [];
}

-- The tasks that wait are woken, those on `full` first.
abbrev pub mailbox_destruct : Mailboxes → ℕ → Mailboxes
mailbox_destruct w id =
    let mbox = w.mailboxes id in
    put_mbox w id mailbox_init (unblock_list (unblock_list w.tasks mbox.full) mbox.empty)

abbrev pub set_ref : Mailboxes → ℕ → ℕ → Mailboxes
set_ref w id ref = record w { mbox_ref = update w.mbox_ref id ref }

unfoldable pub init_mbox : Mailboxes → Mailboxes
init_mbox w = for_each mbox_num (λ i v. put_mbox (set_ref v i 0) i mailbox_init v.tasks) w

abbrev pub cleanup_round : ℕ → ℕ → Mailboxes → Mailboxes
cleanup_round place i w =
    let left = drop_ref (w.mbox_ref i) place in
    let v = set_ref w i left in
    if has_ref (w.mbox_ref i) place then (if left == 0 then mailbox_destruct v i else v) else w

unfoldable pub cleanup_mailboxes : Mailboxes → ℕ → Mailboxes
cleanup_mailboxes w place = for_each mbox_num (cleanup_round place) w

abbrev is_equal : Option ℤ → Bool
is_equal none = false
is_equal (some diff) = eq_ℤ diff (pos 0)

-- `fuel` bounds the comparison of two names.
abbrev pub in_use : ℕ → Mailboxes → Chars → ℕ → Bool
in_use fuel w name i = not (w.mbox_ref i == 0) && is_equal (strcmp fuel (w.mailboxes i).name name)

abbrev pub unused : Mailboxes → ℕ → Bool
unused w i = w.mbox_ref i == 0

abbrev pub refer : Mailboxes → ℕ → ℕ → Mailboxes
refer w id place =
    let mbox = w.mailboxes id in
    set_ref (put_mbox w id (record mbox { nref = mbox.nref + 1 }) w.tasks) id
      (add_ref (w.mbox_ref id) place)

-- The name is copied into the mailbox; it fits the 32 bytes there, which `strcpy` does not test.
abbrev allocated : Mailboxes → ℕ → Chars → Option ℕ → Run (ℕ × Mailboxes)
allocated w place name none = halt
allocated w place name (some id) =
    ok (id, refer (put_mbox w id (record mailbox_init { name = name }) w.tasks) id place)

abbrev found : Mailboxes → ℕ → Chars → Option ℕ → Run (ℕ × Mailboxes)
found w place name (some id) = ok (id, refer w id place)
found w place name none = allocated w place name (first (unused w) mbox_num 0)

unfoldable pub do_mbox_open : ℕ → Mailboxes → ℕ → Chars → Run (ℕ × Mailboxes)
do_mbox_open fuel w place name = found w place name (first (in_use fuel w name) mbox_num 0)

-- An index that the tests of `mbox_idx` and of `mbox_ref` let pass.
abbrev pub usable : Mailboxes → ℤ → Option ℕ
usable w (negsuc n) = none
usable w (pos id) = if not (ltb id mbox_num) || (w.mbox_ref id == 0) then none else some id

-- A mailbox in use has a reference at least, so that `nref` does not fall below zero.
abbrev close_at : Mailboxes → Option ℕ → Mailboxes
close_at w none = w
close_at w (some id) =
    let mbox = w.mailboxes id in
    let left = mbox.nref - 1 in
    let v = put_mbox w id (record mbox { nref = left }) w.tasks in
    if ltb 0 left then v else mailbox_destruct (set_ref v id 0) id

unfoldable pub do_mbox_close : Mailboxes → ℤ → Mailboxes
do_mbox_close w mbox_idx = close_at w (usable w mbox_idx)

-- `condition_signal`: the tasks after it, and the wait list.
abbrev woken : Tasks → Option (ℕ × Tasks × List ℕ) → Tasks × List ℕ
woken ts none = (ts, [])
woken ts (some (p, ts', queue)) = (do_unblock ts' p, queue)

abbrev pub signal : Tasks → List ℕ → Tasks × List ℕ
signal ts queue = woken ts (list_shift ts queue)

-- A byte sent while there is room, and one received while there is one.
unfoldable pub send_byte : Mailboxes → ℕ → ℕ → Mailboxes
send_byte w id byte =
    let mbox = w.mailboxes id in
    let (ts, queue) = signal w.tasks mbox.empty in
    put_mbox w id
      (record mbox {
        buffer = update mbox.buffer mbox.tail byte;
        tail = (mbox.tail + 1) % max_mbox_length;
        used = mbox.used + 1;
        empty = queue;
      })
      ts

unfoldable pub recv_byte : Mailboxes → ℕ → ℕ × Mailboxes
recv_byte w id =
    let mbox = w.mailboxes id in
    let (ts, queue) = signal w.tasks mbox.full in
    (
      mbox.buffer mbox.head,
      put_mbox w id
          (record mbox {
            head = (mbox.head + 1) % max_mbox_length;
            used = mbox.used - 1;
            full = queue;
          })
          ts,
    )

abbrev wait_full : Mailboxes → ℕ → Run (Tasks × List ℕ) → Run Mailboxes
wait_full w id halt = halt
wait_full w id (ok (ts, queue)) = ok (put_mbox w id (record (w.mailboxes id) { full = queue }) ts)

abbrev wait_empty : Mailboxes → ℕ → Run (Tasks × List ℕ) → Run Mailboxes
wait_empty w id halt = halt
wait_empty w id (ok (ts, queue)) = ok (put_mbox w id (record (w.mailboxes id) { empty = queue }) ts)

abbrev sent_so_far : ℕ → Run Mailboxes → Run (ℕ × Mailboxes)
sent_so_far sent halt = halt
sent_so_far sent (ok w) = ok (sent, w)

-- The rounds of the loop of `do_mbox_send` that run with no wait, `left` of them at most, from the byte
-- `sent`: the count of bytes sent, below the length if the task waits.
unfoldable pub send_rounds : Mailboxes → ℕ → ℕ → (ℕ → ℕ) → ℕ → ℕ → Run (ℕ × Mailboxes)
send_rounds w id task message sent zero = ok (sent, w)
send_rounds w id task message sent (suc left) =
    let rest = send_rounds (send_byte w id (message sent)) id task message (sent + 1) left in
    if ltb (w.mailboxes id).used max_mbox_length
    then rest
    else sent_so_far sent (wait_full w id (do_block w.tasks task (w.mailboxes id).full))

abbrev received_so_far : (ℕ → ℕ) → ℕ → Run Mailboxes → Run ((ℕ → ℕ) × ℕ × Mailboxes)
received_so_far message received halt = halt
received_so_far message received (ok w) = ok (message, received, w)

unfoldable pub recv_rounds : Mailboxes → ℕ → ℕ → (ℕ → ℕ) → ℕ → ℕ → Run ((ℕ → ℕ) × ℕ × Mailboxes)
recv_rounds w id task message received zero = ok (message, received, w)
recv_rounds w id task message received (suc left) =
    let (byte, v) = recv_byte w id in
    let rest = recv_rounds v id task (update message received byte) (received + 1) left in
    if ltb 0 (w.mailboxes id).used
    then rest
    else received_so_far message received
        (wait_empty w id (do_block w.tasks task (w.mailboxes id).empty))

-- A call, up to its end or its first wait, by the count of the bytes moved: the source returns 0 from a
-- call that moves all of them without a wait, and 1 after a wait. `none` is an index that is refused.
abbrev pub do_mbox_send : Mailboxes → ℕ → ℤ → (ℕ → ℕ) → ℕ → Option (Run (ℕ × Mailboxes))
do_mbox_send w task mbox_idx message length = elim (usable w mbox_idx) [
  | none ↦ none
  | some id ↦ some (send_rounds w id task message 0 length)
]

abbrev pub do_mbox_recv : Mailboxes → ℕ → ℤ → (ℕ → ℕ) → ℕ → Option (Run ((ℕ → ℕ) × ℕ × Mailboxes))
do_mbox_recv w task mbox_idx message length = elim (usable w mbox_idx) [
  | none ↦ none
  | some id ↦ some (recv_rounds w id task message 0 length)
]
