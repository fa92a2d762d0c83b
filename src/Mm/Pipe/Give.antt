-- ===== src/Mm/Pipe/Give.antt =====
-- What a task gives to a pipe, page after page.
use ucas_oslab.Base.{
  ℕ, suc, ◌+◌, ◌*◌, ◌%◌, ◌^◌, ◌<◌, ◌≡◌, refl, sym, ap, ◌∙◌, Bool, true, Option, none, some, List,
  [], ◌∷◌, ◌++◌, length, arith, ==_refl, ==_ne,
}
use mathlib.Core.Path.{subst}
use mathlib.Core.List.{append_assoc, append-nil}
use ucas_oslab.Base.Update.{update, update_self}
use ucas_oslab.Sched.{unblock_list}
use ucas_oslab.Mm.Frames.{fits, Room, Room-detach_pageframe}
use ucas_oslab.Mm.Pipe.{
  Segment, pipe_seg_phys, pipe_seg_swap, Pipes, pipe_page_size, put_pipe, set_map, accepts,
  frames_left, give_loop,
}

-- The pages of a list stand one after another from an address on.
abbrev pub Mapped : (ℕ → Option Segment) → ℕ → List Segment → Type 0
Mapped map va [] = Unit
Mapped map va (seg ∷ segs) = (map va ≡ some seg) × Mapped map (va + pipe_page_size) segs

-- None of them is mapped.
abbrev pub Unmapped : (ℕ → Option Segment) → ℕ → List Segment → Type 0
Unmapped map va [] = Unit
Unmapped map va (seg ∷ segs) = (map va ≡ none) × Unmapped map (va + pipe_page_size) segs

pub Mapped-update :
    (map : ℕ → Option Segment) (a va : ℕ) (v : Option Segment) (segs : List Segment)
    → a < va
    → Mapped map va segs
    → Mapped (update map a v) va segs
Mapped-update map a va v [] h m = tt
Mapped-update map a va v (seg ∷ segs) h (here, m) = (
  rw (==_ne a va (λ e. omega (arith, e))) here,
  Mapped-update map a (va + pipe_page_size) v segs (omega arith) m,
)

-- The state after a page is given.
abbrev given : Pipes → ℕ → ℕ → ℕ → Segment → Pipes
given w idx task va seg =
    let pipe = w.pipes idx in
    put_pipe
      (record (set_map (record w { frames = frames_left w task seg }) task va none) {
        tasks = unblock_list w.tasks pipe.reader_wait_list;
      })
      idx
      (record pipe {
        segments = pipe.segments ++ (seg ∷ []);
        buffered_bytes = (pipe.buffered_bytes + pipe_page_size) % 2 ^ 64;
        reader_wait_list = [];
      })

give_loop-given :
    (n : ℕ) (memory : ℕ → Bool) (idx task va processed : ℕ) (w : Pipes) (seg : Segment)
    → memory va ≡ true
    → w.maps task va ≡ some seg
    → accepts (w.pipes idx) ≡ true
    → give_loop (suc n) memory idx task va processed w
      ≡ give_loop n memory idx task
          (va + pipe_page_size)
          (processed + pipe_page_size)
          (given w idx task va seg)
unfolding give_loop
give_loop-given n memory idx task va processed w seg has is opened = rw (has, is, opened) refl

-- What giving the pages `segs` does.
pub record Gave (w : Pipes) (idx task va : ℕ) (segs : List Segment) (w' : Pipes) : Type 0 where
  pub holds : (w'.pipes idx).segments ≡ (w.pipes idx).segments ++ segs
  pub still_open : accepts (w'.pipes idx) ≡ true
  pub still_used : (w'.pipes idx).used ≡ (w.pipes idx).used
  pub gone : Unmapped (w'.maps task) va segs
  pub others : (p : ℕ) → (task ≡ p → ⊥) → w'.maps p ≡ w.maps p
  pub lower : (a : ℕ) → a < va → w'.maps task a ≡ w.maps task a
  pub same_groups : w'.group_of ≡ w.group_of
  pub room : (group n : ℕ) → Room w.frames group n → Room w'.frames group n

given_pipe :
    (w : Pipes) (idx task va : ℕ) (seg : Segment)
    → ((given w idx task va seg).pipes idx).segments ≡ (w.pipes idx).segments ++ (seg ∷ [])
given_pipe w idx task va seg = rw (==_refl idx) refl

given_used :
    (w : Pipes) (idx task va : ℕ) (seg : Segment)
    → ((given w idx task va seg).pipes idx).used ≡ (w.pipes idx).used
given_used w idx task va seg = rw (==_refl idx) refl

given_open :
    (w : Pipes) (idx task va : ℕ) (seg : Segment)
    → accepts ((given w idx task va seg).pipes idx) ≡ accepts (w.pipes idx)
given_open w idx task va seg = rw (==_refl idx) refl

given_map :
    (w : Pipes) (idx task va : ℕ) (seg : Segment)
    → (given w idx task va seg).maps task ≡ update (w.maps task) va none
given_map w idx task va seg = update_self w.maps task (update (w.maps task) va none)

given_others :
    (w : Pipes) (idx task va p : ℕ) (seg : Segment)
    → (task ≡ p → ⊥)
    → (given w idx task va seg).maps p ≡ w.maps p
given_others w idx task va p seg ne = rw (==_ne task p ne) refl

-- Pages that leave make room.
Room-frames_left :
    (w : Pipes) (task group n : ℕ) (seg : Segment)
    → Room w.frames group n
    → Room (frames_left w task seg) group n
Room-frames_left w task group n (pipe_seg_phys page) h =
    Room-detach_pageframe w.frames group (w.group_of task) n h
Room-frames_left w task group n (pipe_seg_swap swap_id) h = h

pub give_loop-Gave :
    (segs : List Segment) (memory : ℕ → Bool) (idx task va processed : ℕ) (w : Pipes)
    → ((a : ℕ) → memory a ≡ true)
    → Mapped (w.maps task) va segs
    → accepts (w.pipes idx) ≡ true
    → (w' : Pipes) × (give_loop (length segs) memory idx task va processed w
        ≡ fits (processed + length segs * pipe_page_size, w'))
      × Gave w idx task va segs w'
unfolding give_loop
give_loop-Gave [] memory idx task va processed w has m opened = (
  w,
  ap (λ (n : ℕ). fits (n, w)) (omega arith),
  record {
    holds = sym (append-nil (w.pipes idx).segments);
    still_open = opened;
    still_used = refl;
    gone = tt;
    others = λ p ne. refl;
    lower = λ a h. refl;
    same_groups = refl;
    room = λ group n h. h;
  },
)
give_loop-Gave (seg ∷ segs) memory idx task va processed w has (here, m) opened =
    let w1 = given w idx task va seg in
    let (w', runs, g) =
      give_loop-Gave segs memory idx task (va + pipe_page_size) (processed + pipe_page_size) w1 has
        (subst (λ f. Mapped f (va + pipe_page_size) segs) (sym (given_map w idx task va seg))
          (Mapped-update (w.maps task) va (va + pipe_page_size) none segs (omega arith) m))
        (given_open w idx task va seg ∙ opened) in
    (
      w',
      give_loop-given (length segs) memory idx task va processed w seg (has va) here opened
          ∙ runs
          ∙ ap (λ (n : ℕ). fits (n, w')) (omega arith),
      record {
        holds =
            g.holds
            ∙ ap (λ xs. xs ++ segs) (given_pipe w idx task va seg)
            ∙ append_assoc (w.pipes idx).segments (seg ∷ []) segs;
        still_open = g.still_open;
        still_used = g.still_used ∙ given_used w idx task va seg;
        gone = (
          g.lower va (omega arith)
              ∙ ap (λ (f : ℕ → Option Segment). f va) (given_map w idx task va seg)
              ∙ update_self (w.maps task) va none,
          g.gone,
        );
        others = λ p ne. g.others p ne ∙ given_others w idx task va p seg ne;
        lower = λ a h.
            g.lower a (omega (arith, h))
            ∙ ap (λ (f : ℕ → Option Segment). f a) (given_map w idx task va seg)
            ∙ apart a h;
        same_groups = g.same_groups;
        room = λ group n h. g.room group n (Room-frames_left w task group n seg h);
      },
    )
  where
    apart : (a : ℕ) → a < va → update (w.maps task) va none a ≡ w.maps task a
    apart a h = rw (==_ne va a (λ e. omega (arith, e, h))) refl
