-- ===== src/Mm/Pipe/Take.antt =====
-- What a task takes from a pipe: the pages that were given, in their order.
use ucas_oslab.Base.{
  ℕ, suc, ◌+◌, ◌*◌, ◌/◌, ◌%◌, ◌<◌, ◌≡◌, refl, sym, ap, ◌∙◌, ◌==◌, Bool, true, false, Option, none,
  some, List, [], ◌∷◌, ◌++◌, length, arith, ==_ne, ==_refl,
}
use mathlib.Core.Path.{subst}
use ucas_oslab.Base.Int.{pos}
use ucas_oslab.Base.Run.{ok}
use ucas_oslab.Mm.Frames.{Frames, fits, Room, Room-detach_pageframe, Room-attach_pageframe}
use ucas_oslab.Mm.Pipe.{
  Segment, pipe_seg_phys, pipe_seg_swap, Pipes, pipe_max_count, pipe_page_size, pop_pipe,
  frames_cleared, attach_segment, bound, pipe_clear_dest_mapping, accepts, give_loop, take_loop,
  finished, returned, unaligned, pipe_lookup_by_index, pipe_give_pages, pipe_take_pages,
}
use ucas_oslab.Mm.Pipe.Give.{Mapped, Unmapped, give_loop-Gave}

-- The page that was at the receiver's address is given back, which makes room.
Room-frames_cleared :
    (f : Frames) (group n : ℕ) (o : Option Segment)
    → Room f group n
    → Room (frames_cleared f o) group n
Room-frames_cleared f group n none h = h
Room-frames_cleared f group n (some (pipe_seg_phys page)) h =
    Room-detach_pageframe f group (f.owner page) n h
Room-frames_cleared f group n (some (pipe_seg_swap swap_id)) h = h

Room-attach_segment :
    (f : Frames) (group n : ℕ) (seg : Segment)
    → Room f group (n + 1)
    → (f' : Frames) × (attach_segment f group seg ≡ fits f') × Room f' group n
Room-attach_segment f group n (pipe_seg_phys page) h = Room-attach_pageframe f page group n h
Room-attach_segment f group n (pipe_seg_swap swap_id) h = (f, refl, omega (arith, h))

-- The state after a page is taken, with the frames `f`.
abbrev took : Pipes → ℕ → ℕ → ℕ → Segment → List Segment → Frames → Pipes
took w idx task va seg segs f =
    bound (pipe_clear_dest_mapping (pop_pipe w idx segs) task va) task va seg f

take_loop-took :
    (n : ℕ) (tables : ℕ → Bool) (idx task va processed : ℕ) (w : Pipes) (seg : Segment)
    (segs : List Segment) (f : Frames)
    → tables va ≡ true
    → (w.pipes idx).segments ≡ seg ∷ segs
    → attach_segment (frames_cleared w.frames (w.maps task va)) (w.group_of task) seg ≡ fits f
    → take_loop (suc n) tables idx task va processed w
      ≡ take_loop n tables idx task
          (va + pipe_page_size)
          (processed + pipe_page_size)
          (took w idx task va seg segs f)
unfolding take_loop
take_loop-took n tables idx task va processed w seg segs f has is room = rw (has, is, room) refl

took_here :
    (w : Pipes) (idx task va : ℕ) (seg : Segment) (segs : List Segment) (f : Frames)
    → (took w idx task va seg segs f).maps task va ≡ some seg
took_here w idx task va seg segs f = rw (==_refl task, ==_refl va) refl

took_away :
    (w : Pipes) (idx task va a : ℕ) (seg : Segment) (segs : List Segment) (f : Frames)
    → a < va
    → (took w idx task va seg segs f).maps task a ≡ w.maps task a
took_away w idx task va a seg segs f h =
    rw (==_refl task, ==_ne va a (λ e. omega (arith, e, h))) refl

segments-took :
    (w : Pipes) (idx task va : ℕ) (seg : Segment) (segs : List Segment) (f : Frames)
    → ((took w idx task va seg segs f).pipes idx).segments ≡ segs
segments-took w idx task va seg segs f = rw (==_refl idx) refl

-- What taking the pages `segs` does.
pub record Took (w : Pipes) (idx task va : ℕ) (segs : List Segment) (w' : Pipes) : Type 0 where
  pub emptied : (w'.pipes idx).segments ≡ []
  pub arrived : Mapped (w'.maps task) va segs
  pub lower : (a : ℕ) → a < va → w'.maps task a ≡ w.maps task a

pub take_loop-Took :
    (segs : List Segment) (tables : ℕ → Bool) (idx task va processed : ℕ) (w : Pipes)
    → ((a : ℕ) → tables a ≡ true)
    → (w.pipes idx).segments ≡ segs
    → Room w.frames (w.group_of task) (length segs)
    → (w' : Pipes) × (take_loop (length segs) tables idx task va processed w
        ≡ ok (finished (processed + length segs * pipe_page_size) w'))
      × Took w idx task va segs w'
unfolding take_loop
take_loop-Took [] tables idx task va processed w has is room = (
  w,
  ap (λ (n : ℕ). ok (finished n w)) (omega arith),
  record { emptied = is; arrived = tt; lower = λ a h. refl },
)
take_loop-Took (seg ∷ segs) tables idx task va processed w has is room =
    let group = w.group_of task in
    let (f, attached, room') =
      Room-attach_segment (frames_cleared w.frames (w.maps task va)) group (length segs) seg (
        Room-frames_cleared w.frames group (length segs + 1) (w.maps task va)
          (omega (arith, room))) in
    let w1 = took w idx task va seg segs f in
    let (w', runs, t) =
      take_loop-Took segs tables idx task (va + pipe_page_size) (processed + pipe_page_size) w1 has
        (segments-took w idx task va seg segs f) room' in
    (
      w',
      take_loop-took (length segs) tables idx task va processed w seg segs f (has va) is attached
          ∙ runs
          ∙ ap (λ (n : ℕ). ok (finished n w')) (omega arith),
      record {
        emptied = t.emptied;
        arrived = (t.lower va (omega arith) ∙ took_here w idx task va seg segs f, t.arrived);
        lower = λ a h. t.lower a (omega (arith, h)) ∙ took_away w idx task va a seg segs f h;
      },
    )

-- The sizes of a call that moves whole pages.
aligned-length : (va n : ℕ) → va % pipe_page_size ≡ 0 → unaligned va (n * pipe_page_size) ≡ false
aligned-length va n h = let whole : n * 4096 % 4096 ≡ 0 = omega arith in ground (arith, h, whole)

lookup-used :
    (w : Pipes) (i : ℕ)
    → i < pipe_max_count
    → (w.pipes i).used ≡ true
    → pipe_lookup_by_index w (pos i) ≡ some i
lookup-used w i h used = ground (arith, h, used)

-- A call that moves whole pages is the loop.
pipe_give_pages-give_loop :
    (w w' : Pipes) (memory : ℕ → Bool) (task i src n : ℕ)
    → i < pipe_max_count
    → (w.pipes i).used ≡ true
    → src % pipe_page_size ≡ 0
    → 0 < n
    → give_loop n memory i task src 0 w ≡ fits (n * pipe_page_size, w')
    → pipe_give_pages w memory task (pos i) src (n * pipe_page_size)
      ≡ fits (pos (n * pipe_page_size), w')
unfolding pipe_give_pages
pipe_give_pages-give_loop w w' memory task i src n h used aligned some_in runs =
    let pages : n * 4096 / 4096 ≡ n = omega arith in
    let moved : (n * 4096 == 0) ≡ false = ground (arith, some_in) in
    rw (lookup-used w i h used, aligned-length src n aligned, moved, pages, runs, moved) refl

pipe_take_pages-take_loop :
    (w w' : Pipes) (tables : ℕ → Bool) (task i dest n : ℕ)
    → i < pipe_max_count
    → (w.pipes i).used ≡ true
    → dest % pipe_page_size ≡ 0
    → 0 < n
    → take_loop n tables i task dest 0 w ≡ ok (finished (n * pipe_page_size) w')
    → pipe_take_pages w tables task (pos i) dest (n * pipe_page_size)
      ≡ ok (returned (pos (n * pipe_page_size)) w')
unfolding pipe_take_pages
pipe_take_pages-take_loop w w' tables task i dest n h used aligned some_in runs =
    let pages : n * 4096 / 4096 ≡ n = omega arith in
    let moved : (n * 4096 == 0) ≡ false = ground (arith, some_in) in
    rw (lookup-used w i h used, aligned-length dest n aligned, moved, pages, runs, moved) refl

-- Through an empty pipe in use that is not closing, with memory for the segments, with page tables for
-- the receiver's addresses and with room in the receiver's group for as many pages, the pages that a
-- task gives reach the task that takes as many: neither call waits or has to swap a page out, both
-- return the number of bytes, the sender's addresses are not mapped after the first call, the
-- receiver's have the same pages in the same order after the second, and the pipe is empty.
pub pipe_take_pages-pipe_give_pages :
    (w : Pipes) (memory tables : ℕ → Bool) (i sender receiver src dest : ℕ) (segs : List Segment)
    → ((a : ℕ) → memory a ≡ true)
    → ((a : ℕ) → tables a ≡ true)
    → Room w.frames (w.group_of receiver) (length segs)
    → i < pipe_max_count
    → (w.pipes i).used ≡ true
    → accepts (w.pipes i) ≡ true
    → (w.pipes i).segments ≡ []
    → Mapped (w.maps sender) src segs
    → 0 < length segs
    → src % pipe_page_size ≡ 0
    → dest % pipe_page_size ≡ 0
    → (w' w'' : Pipes) × (pipe_give_pages w memory sender (pos i) src (length segs * pipe_page_size)
        ≡ fits (pos (length segs * pipe_page_size), w'))
      × (pipe_take_pages w' tables receiver (pos i) dest (length segs * pipe_page_size)
          ≡ ok (returned (pos (length segs * pipe_page_size)) w''))
      × Unmapped (w'.maps sender) src segs
      × Mapped (w''.maps receiver) dest segs
      × ((w''.pipes i).segments ≡ [])
pipe_take_pages-pipe_give_pages w memory tables i sender receiver src dest segs has stand room h
      used opened empty m some_in s_ok d_ok =
    let n = length segs in
    let (w', gives, g) = give_loop-Gave segs memory i sender src 0 w has m opened in
    let room' =
      subst (λ (f : ℕ → ℕ). Room w'.frames (f receiver) n) (sym g.same_groups)
        (g.room (w.group_of receiver) n room) in
    let (w'', takes, t) =
      take_loop-Took segs tables i receiver dest 0 w' stand (g.holds ∙ ap (λ xs. xs ++ segs) empty)
        room' in
    (
      w',
      w'',
      pipe_give_pages-give_loop w w' memory sender i src n h used s_ok some_in
          (gives ∙ ap (λ (k : ℕ). fits (k, w')) (omega arith)),
      pipe_take_pages-take_loop w' w'' tables receiver i dest n h (g.still_used ∙ used) d_ok some_in
          (takes ∙ ap (λ (k : ℕ). ok (finished k w'')) (omega arith)),
      g.gone,
      t.arrived,
      t.emptied,
    )
