-- ===== src/Mm/Pipe/Tests.antt =====
-- Task 2 gives two pages, one of them swapped out, and task 3 takes them.
use ucas_oslab.Base.{
  ◌*◌, ◌≡◌, refl, true, false, none, some, List, [], ◌∷◌, ◌==◌, arith, if◌then◌else◌,
}
use ucas_oslab.Base.Int.{pos, negsuc}
use ucas_oslab.Base.Run.{ok}
use ucas_oslab.Sched.{ready}
use ucas_oslab.Mm.Frames.{fits}
use ucas_oslab.Mm.Pipe.{
  Segment, pipe_seg_phys, pipe_seg_swap, Pipes, pipe_entry_clear, pipe_give_pages, pipe_take_pages,
  returned,
}
use ucas_oslab.Mm.Pipe.Open.{pipe_open}
use ucas_oslab.Mm.Pipe.Give.{Mapped, Unmapped}
use ucas_oslab.Mm.Pipe.Take.{pipe_take_pages-pipe_give_pages}

abbrev booted : Pipes
booted = record {
  tasks = record { status = λ p. ready; held = λ p. false; ready_queue = [] };
  pipes = λ i. pipe_entry_clear;
  maps = λ task va.
      if task == 2
      then (if va == 8192
          then some (pipe_seg_phys 77)
          else (if va == 12288 then some (pipe_seg_swap 5) else none))
      else none;
  group_of = λ task. task;
  frames = record {
    owner = λ page. 2;
    groups = λ group. record { capacity = 8; used = 6 };
    freed = [];
  };
  swap = record { taken = λ slot. true; used = 9; next_idx = 0; base = 0 };
}

-- Pipe 0, which task 2 opened as `a`.
abbrev piped : Pipes
piped = (pipe_open booted 2 (some (97 ∷ []))).1

first_pipe : (pipe_open booted 2 (some (97 ∷ []))).0 ≡ pos 0
unfolding pipe_open
first_pipe = refl

same_pipe : (pipe_open piped 3 (some (97 ∷ []))).0 ≡ pos 0
unfolding pipe_open
same_pipe = refl

no_name : pipe_open booted 2 none ≡ (negsuc 0, booted)
unfolding pipe_open
no_name = refl

abbrev moved : List Segment
moved = pipe_seg_phys 77 ∷ pipe_seg_swap 5 ∷ []

pipe_take_pages-pipe_give_pages_example :
    (w' w'' : Pipes) × (pipe_give_pages piped (λ a. true) 2 (pos 0) 8192 (2 * 4096)
      ≡ fits (pos (2 * 4096), w'))
    × (pipe_take_pages w' (λ a. true) 3 (pos 0) 4096 (2 * 4096)
        ≡ ok (returned (pos (2 * 4096)) w''))
    × Unmapped (w'.maps 2) 8192 moved
    × Mapped (w''.maps 3) 4096 moved
    × ((w''.pipes 0).segments ≡ [])
unfolding pipe_open
pipe_take_pages-pipe_give_pages_example =
    pipe_take_pages-pipe_give_pages piped (λ a. true) (λ a. true) 0 2 3 8192 4096 moved (λ a. refl)
      (λ a. refl) (omega arith) (omega arith) refl refl refl (refl, (refl, tt)) (omega arith) refl
      refl
