-- ===== src/Mm/Pipe/Open.antt =====
-- kernel/mm/pipe.c: opening a pipe by its name, and what is left of the pipes of a task that ends
-- (cleanup_pipe).
use ucas_oslab.Base.{
  ℕ, ◌+◌, ◌-◌, ◌==◌, not, ◌&&◌, Bool, true, false, Option, none, some, List, [], ◌∷◌, take,
  if◌then◌else◌,
}
use ucas_oslab.Base.Int.{ℤ, pos, negsuc}
use ucas_oslab.Locking.Slots.{first, has_ref, add_ref, drop_ref, for_each}
use ucas_oslab.Mm.Frames.{Fits, fits, and_then}
use ucas_oslab.Sched.{unblock_list}
use ucas_oslab.Mm.Pipe.{
  Segment, Pipe, Pipes, pipe_max_count, pipe_name_max_len, pipe_entry_clear, put_pipe,
  pipe_free_segment,
}

abbrev pub pipe_name_equals : List ℕ → List ℕ → Bool
pipe_name_equals [] [] = true
pipe_name_equals [] (y ∷ ys) = false
pipe_name_equals (x ∷ xs) [] = false
pipe_name_equals (x ∷ xs) (y ∷ ys) = x == y && pipe_name_equals xs ys

-- The pipe of that name, and a free one.
abbrev pub is_named : Pipes → List ℕ → ℕ → Bool
is_named w local_name i = (w.pipes i).used && pipe_name_equals (w.pipes i).name local_name

abbrev pub is_free : Pipes → ℕ → Bool
is_free w i = not (w.pipes i).used

abbrev join_pipe : ℕ → Pipe → Pipe
join_pipe pcb_index pipe =
    if has_ref pipe.ref_bitmap pcb_index
    then pipe
    else record pipe { ref_bitmap = add_ref pipe.ref_bitmap pcb_index; refcnt = pipe.refcnt + 1 }

abbrev new_pipe : ℕ → List ℕ → Pipe
new_pipe pcb_index local_name = record pipe_entry_clear {
  name = local_name;
  used = true;
  ref_bitmap = add_ref 0 pcb_index;
  refcnt = 1;
}

abbrev open_free : Pipes → ℕ → List ℕ → Option ℕ → ℤ × Pipes
open_free w pcb_index local_name none = (negsuc 0, w)
open_free w pcb_index local_name (some i) = (pos i, put_pipe w i (new_pipe pcb_index local_name))

abbrev open_named : Pipes → ℕ → List ℕ → Option ℕ → ℤ × Pipes
open_named w pcb_index local_name (some i) = (pos i, put_pipe w i (join_pipe pcb_index (w.pipes i)))
open_named w pcb_index local_name none =
    open_free w pcb_index local_name (first (is_free w) pipe_max_count 0)

-- A null pointer is `none`.
unfoldable pub pipe_open : Pipes → ℕ → Option (List ℕ) → ℤ × Pipes
pipe_open w pcb_index none = (negsuc 0, w)
pipe_open w pcb_index (some name) =
    let local_name = take (pipe_name_max_len - 1) name in
    open_named w pcb_index local_name (first (is_named w local_name) pipe_max_count 0)

abbrev pipe_release_segments_locked : List Segment → Pipes → Fits Pipes
pipe_release_segments_locked [] w = fits w
pipe_release_segments_locked (seg ∷ segs) w =
    and_then (pipe_free_segment w seg) (pipe_release_segments_locked segs)

abbrev pipe_destroy_locked : Pipes → ℕ → Fits Pipes
pipe_destroy_locked w idx =
    let pipe = w.pipes idx in
    and_then (pipe_release_segments_locked pipe.segments w) (λ (w1 : Pipes). fits (
      put_pipe (record w1 { tasks = unblock_list w1.tasks pipe.reader_wait_list }) idx
        pipe_entry_clear))

abbrev leave_pipe : ℕ → Pipe → Pipe
leave_pipe pcb_index pipe = record pipe {
  ref_bitmap = drop_ref pipe.ref_bitmap pcb_index;
  refcnt = pipe.refcnt - 1;
}

abbrev cleanup_round : ℕ → ℕ → Pipes → Fits Pipes
cleanup_round pcb_index i w =
    let pipe = w.pipes i in
    let left = put_pipe w i (leave_pipe pcb_index pipe) in
    if pipe.used && has_ref pipe.ref_bitmap pcb_index
    then (if (leave_pipe pcb_index pipe).refcnt == 0 then pipe_destroy_locked left i else fits left)
    else fits w

unfoldable pub cleanup_pipe : Pipes → ℕ → Fits Pipes
cleanup_pipe w pcb_index =
    for_each pipe_max_count (λ i r. and_then r (cleanup_round pcb_index i)) (fits w)
