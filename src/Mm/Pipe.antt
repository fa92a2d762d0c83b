-- ===== src/Mm/Pipe.antt =====
-- kernel/mm/pipe.c: pages that are moved from the address space of one task to that of another. `maps` is
-- what stands at an address in the page table of each task. Whether kmalloc has a block for the segment of
-- an address is an argument (`memory`), and so is whether the page tables of an address stand
-- (`tables`). Where a table must be made or a full group has to swap a page out, the model ends. The
-- locks of the pipes are held within one operation.
pub mod Open
mod Give
mod Take
mod Tests
use ucas_oslab.Base.{
  ℕ, zero, suc, ◌+◌, ◌-◌, ◌/◌, ◌%◌, ◌^◌, ◌==◌, leb, ltb, not, ◌&&◌, ◌||◌, Bool, true, false, Option,
  none, some, List, [], ◌∷◌, ◌++◌, take, if◌then◌else◌,
}
use ucas_oslab.Base.Int.{ℤ, pos, negsuc}
use ucas_oslab.Base.Run.{Run, ok, halt, ◌>>=◌}
use ucas_oslab.Base.Update.{update}
use ucas_oslab.Locking.Slots.{first, has_ref, add_ref, drop_ref, for_each}
use ucas_oslab.Mm.Frames.{
  Frames, Fits, full, fits, and_then, page_group_kernel, attach_pageframe, detach_pageframe,
  free_pageframe,
}
use ucas_oslab.Mm.Swap.{Swap, free_swap}
use ucas_oslab.Sched.{Tasks, do_block, unblock_list}

abbrev pub pipe_max_count : ℕ
pipe_max_count = 32

abbrev pub pipe_name_max_len : ℕ
pipe_name_max_len = 32

abbrev pub pipe_page_size : ℕ
pipe_page_size = 4096

-- A segment is one page, in a frame or at a location of the swap area.
pub data Segment : Type 0 where
  pipe_seg_phys : ℕ → Segment
  pipe_seg_swap : ℕ → Segment

pub record Pipe : Type 0 where
  pub used : Bool
  pub name : List ℕ
  pub segments : List Segment
  pub reader_wait_list : List ℕ
  pub buffered_bytes : ℕ
  pub refcnt : ℕ
  pub ref_bitmap : ℕ
  pub closing : Bool

-- `group_of` is the group of a task (get_current_pagegroup).
pub record Pipes : Type 0 where
  pub tasks : Tasks
  pub pipes : ℕ → Pipe
  pub maps : ℕ → ℕ → Option Segment
  pub group_of : ℕ → ℕ
  pub frames : Frames
  pub swap : Swap

abbrev pub pipe_entry_clear : Pipe
pipe_entry_clear = record {
  used = false;
  name = [];
  segments = [];
  reader_wait_list = [];
  buffered_bytes = 0;
  refcnt = 0;
  ref_bitmap = 0;
  closing = false;
}

abbrev pub put_pipe : Pipes → ℕ → Pipe → Pipes
put_pipe w idx pipe = record w { pipes = update w.pipes idx pipe }

abbrev pub pipe_lookup_by_index : Pipes → ℤ → Option ℕ
pipe_lookup_by_index w (negsuc n) = none
pipe_lookup_by_index w (pos i) =
    if leb pipe_max_count i then none else (if (w.pipes i).used then some i else none)

abbrev pub set_map : Pipes → ℕ → ℕ → Option Segment → Pipes
set_map w task va entry = record w { maps = update w.maps task (update (w.maps task) va entry) }

-- `free_swap` is called with a location of the swap area, where it expects the number of a slot.
abbrev pub pipe_free_segment : Pipes → Segment → Fits Pipes
pipe_free_segment w (pipe_seg_phys page) =
    and_then (attach_pageframe w.frames page page_group_kernel)
      (λ (f : Frames). fits (record w { frames = free_pageframe f page }))
pipe_free_segment w (pipe_seg_swap swap_id) = fits (record w { swap = free_swap w.swap swap_id })

-- `detach_pageframe` of the sender's page.
abbrev pub frames_left : Pipes → ℕ → Segment → Frames
frames_left w task (pipe_seg_phys page) = detach_pageframe w.frames (w.group_of task)
frames_left w task (pipe_seg_swap swap_id) = w.frames

abbrev detached : Pipes → ℕ → ℕ → Bool → Option Segment → Option (Segment × Pipes)
detached w task va has_memory none = none
detached w task va has_memory (some seg) =
    if has_memory
    then some (seg, set_map (record w { frames = frames_left w task seg }) task va none)
    else none

abbrev pub pipe_detach_page_from_sender : Pipes → ℕ → ℕ → Bool → Option (Segment × Pipes)
pipe_detach_page_from_sender w task va has_memory = detached w task va has_memory (w.maps task va)

abbrev pub accepts : Pipe → Bool
accepts pipe = not pipe.closing && pipe.used

abbrev pub pipe_push_segment : Pipes → ℕ → Segment → Bool × Pipes
pipe_push_segment w idx seg =
    let pipe = w.pipes idx in
    if accepts pipe
    then (
      true,
      put_pipe (record w { tasks = unblock_list w.tasks pipe.reader_wait_list }) idx
          (record pipe {
            segments = pipe.segments ++ (seg ∷ []);
            buffered_bytes = (pipe.buffered_bytes + pipe_page_size) % 2 ^ 64;
            reader_wait_list = [];
          }),
    )
    else (false, w)

abbrev pub pushed_or_back : Bool × Pipes → Segment → Fits (Bool × Pipes)
pushed_or_back (true, w) seg = fits (true, w)
pushed_or_back (false, w) seg =
    and_then (pipe_free_segment w seg) (λ (w' : Pipes). fits (false, w'))

abbrev pub give_page : Pipes → ℕ → Option (Segment × Pipes) → Fits (Bool × Pipes)
give_page w idx none = fits (false, w)
give_page w idx (some (seg, w1)) = pushed_or_back (pipe_push_segment w1 idx seg) seg

abbrev pub go_on : ℕ → Fits (Bool × Pipes) → (ℕ → Pipes → Fits (ℕ × Pipes)) → Fits (ℕ × Pipes)
go_on processed full rest = full
go_on processed (fits (true, w)) rest = rest (processed + pipe_page_size) w
go_on processed (fits (false, w)) rest = fits (processed, w)

-- The pages from `cursor` on, with `n` left: how many bytes were moved.
unfoldable pub give_loop : ℕ → (ℕ → Bool) → ℕ → ℕ → ℕ → ℕ → Pipes → Fits (ℕ × Pipes)
give_loop zero memory idx task cursor processed w = fits (processed, w)
give_loop (suc n) memory idx task cursor processed w =
    go_on processed (give_page w idx (pipe_detach_page_from_sender w task cursor (memory cursor)))
      (give_loop n memory idx task (cursor + pipe_page_size))

abbrev pub unaligned : ℕ → ℕ → Bool
unaligned va length = not (va % pipe_page_size == 0) || not (length % pipe_page_size == 0)

abbrev moved_bytes : ℕ × Pipes → Fits (ℤ × Pipes)
moved_bytes (processed, w) = fits (if processed == 0 then negsuc 0 else pos processed, w)

abbrev give_to : Pipes → (ℕ → Bool) → ℕ → ℕ → ℕ → Option ℕ → Fits (ℤ × Pipes)
give_to w memory task src length none = fits (negsuc 0, w)
give_to w memory task src length (some idx) =
    if unaligned src length
    then fits (negsuc 0, w)
    else (if length == 0
        then fits (pos 0, w)
        else and_then (give_loop (length / pipe_page_size) memory idx task src 0 w) moved_bytes)

unfoldable pub pipe_give_pages : Pipes → (ℕ → Bool) → ℕ → ℤ → ℕ → ℕ → Fits (ℤ × Pipes)
pipe_give_pages w memory task idx src length =
    give_to w memory task src length (pipe_lookup_by_index w idx)

-- How the receiver comes out of the loop: at its end, asleep on the pipe, or before a page that needs a
-- table or room, with the bytes so far.
pub data Taken : Type 0 where
  finished : ℕ → Pipes → Taken
  waits : ℕ → Pipes → Taken
  stops : ℕ → Pipes → Taken

abbrev pub drop_bytes : ℕ → ℕ
drop_bytes bytes = if leb pipe_page_size bytes then bytes - pipe_page_size else 0

-- What `pipe_clear_dest_mapping` gives back.
abbrev pub frames_cleared : Frames → Option Segment → Frames
frames_cleared f none = f
frames_cleared f (some (pipe_seg_phys page)) = free_pageframe f page
frames_cleared f (some (pipe_seg_swap swap_id)) = f

abbrev pub swap_cleared : Swap → Option Segment → Swap
swap_cleared s none = s
swap_cleared s (some (pipe_seg_phys page)) = s
swap_cleared s (some (pipe_seg_swap swap_id)) = free_swap s swap_id

abbrev pub pipe_clear_dest_mapping : Pipes → ℕ → ℕ → Pipes
pipe_clear_dest_mapping w task va =
    set_map
      (record w {
        frames = frames_cleared w.frames (w.maps task va);
        swap = swap_cleared w.swap (w.maps task va);
      })
      task va none

abbrev pub attach_segment : Frames → ℕ → Segment → Fits Frames
attach_segment f group (pipe_seg_phys page) = attach_pageframe f page group
attach_segment f group (pipe_seg_swap swap_id) = fits f

abbrev pub bound : Pipes → ℕ → ℕ → Segment → Frames → Pipes
bound w task va seg f = set_map (record w { frames = f }) task va (some seg)

abbrev pub pipe_install_segment_to_dest : Pipes → ℕ → ℕ → Segment → Fits Pipes
pipe_install_segment_to_dest w task va seg =
    and_then (attach_segment w.frames (w.group_of task) seg)
      (λ (f : Frames). fits (bound w task va seg f))

abbrev pub installed : ℕ → Pipes → Fits Pipes → (ℕ → Pipes → Run Taken) → Run Taken
installed processed w full rest = ok (stops processed w)
installed processed w (fits w') rest = rest (processed + pipe_page_size) w'

abbrev pub pop_pipe : Pipes → ℕ → List Segment → Pipes
pop_pipe w idx segs = put_pipe w idx (record (w.pipes idx) {
  segments = segs;
  buffered_bytes = drop_bytes (w.pipes idx).buffered_bytes;
})

abbrev pub sleep_reader : ℕ → Pipes → ℕ → Tasks × List ℕ → Taken
sleep_reader processed w idx (tasks, readers) = waits processed (
    put_pipe (record w { tasks = tasks }) idx (record (w.pipes idx) { reader_wait_list = readers }))

-- The round of one page: what the pipe holds decides.
abbrev pub take_page : ℕ → Pipes → ℕ → ℕ → ℕ → List Segment → (ℕ → Pipes → Run Taken) → Run Taken
take_page processed w idx task cursor [] rest =
    if accepts (w.pipes idx)
    then (do_block w.tasks task (w.pipes idx).reader_wait_list >>= λ (asleep : Tasks × List ℕ).
        ok (sleep_reader processed w idx asleep))
    else ok (finished processed w)
take_page processed w idx task cursor (seg ∷ segs) rest =
    let cleared = pipe_clear_dest_mapping (pop_pipe w idx segs) task cursor in
    installed processed w (pipe_install_segment_to_dest cleared task cursor seg) rest

unfoldable pub take_loop : ℕ → (ℕ → Bool) → ℕ → ℕ → ℕ → ℕ → Pipes → Run Taken
take_loop zero tables idx task cursor processed w = ok (finished processed w)
take_loop (suc n) tables idx task cursor processed w =
    if tables cursor
    then take_page processed w idx task cursor (w.pipes idx).segments
        (take_loop n tables idx task (cursor + pipe_page_size))
    else ok (stops processed w)

-- What the call comes to: it returns, or it sleeps or stops as the loop does.
pub data TakeResult : Type 0 where
  returned : ℤ → Pipes → TakeResult
  asleep : ℕ → Pipes → TakeResult
  stopped : ℕ → Pipes → TakeResult

abbrev pub to_result : Taken → TakeResult
to_result (finished processed w) = returned (if processed == 0 then negsuc 0 else pos processed) w
to_result (waits processed w) = asleep processed w
to_result (stops processed w) = stopped processed w

abbrev take_from : Pipes → (ℕ → Bool) → ℕ → ℕ → ℕ → Option ℕ → Run TakeResult
take_from w tables task dest length none = ok (returned (negsuc 0) w)
take_from w tables task dest length (some idx) =
    if unaligned dest length
    then ok (returned (negsuc 0) w)
    else (if length == 0
        then ok (returned (pos 0) w)
        else (take_loop (length / pipe_page_size) tables idx task dest 0 w >>= λ (t : Taken).
            ok (to_result t)))

unfoldable pub pipe_take_pages : Pipes → (ℕ → Bool) → ℕ → ℤ → ℕ → ℕ → Run TakeResult
pipe_take_pages w tables task idx dest length =
    take_from w tables task dest length (pipe_lookup_by_index w idx)
