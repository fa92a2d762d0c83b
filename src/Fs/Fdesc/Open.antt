-- ===== src/Fs/Fdesc/Open.antt =====
-- A file that is opened gets a descriptor that nobody uses; and the flags that a mode gives.
use ucas_oslab.Base.{ℕ, ◌%◌, ◌<◌, ◌≡◌, refl, ◌==◌, Bool, true, false, some, arith, ==_refl, ==_ne}
use ucas_oslab.Base.Run.{ok}
use ucas_oslab.Base.Update.{update}
use ucas_oslab.Locking.Slots.{first-some, first_found, first_bound}
use ucas_oslab.Fs.Cache.{Sectors}
use ucas_oslab.Fs.Inode.{Files, fs_type_dir}
use ucas_oslab.Fs.Inode.Table.{inode_open, inode_unlock}
use ucas_oslab.Fs.Inode.Map.{put_inode}
use ucas_oslab.Fs.Fdesc.{
  Fdesc, Fds, num_fdescs, num_max_proc_fd, free_fd, free_fdesc, open_inode, is_writable,
  is_readable,
}

-- Any mode but 0 makes a descriptor both readable and writable.
pub is_writable-is_readable :
    (mode : ℕ) → (mode % 4 == 0) ≡ false → (is_writable mode ≡ true) × (is_readable mode ≡ true)
is_writable-is_readable mode h = (ground arith, ground arith)

-- `fd` names the new descriptor `p` for the inode `x`.
pub record Installed {S : Sectors} (w : Fds S) (x fd p : ℕ) (w' : Fds S) : Type 0 where
  pub fd_in : fd < num_max_proc_fd
  pub fd_free : free_fd w fd ≡ true
  pub place_in : p < num_fdescs
  pub place_free : free_fdesc w p ≡ true
  pub named : w'.fd_table fd ≡ some p
  pub holds : (w'.fdesc_array p).inode ≡ x
  pub in_use : (w'.fdesc_array p).valid ≡ true
  pub at_start : ((w'.fdesc_array p).rpos ≡ 0) × ((w'.fdesc_array p).wpos ≡ 0)
  pub other_fds : (i : ℕ) → (fd ≡ i → ⊥) → w'.fd_table i ≡ w.fd_table i
  pub other_fdescs : (i : ℕ) → (p ≡ i → ⊥) → w'.fdesc_array i ≡ w.fdesc_array i
  pub unlocked : (w'.files.inodes x).acquired ≡ false

-- Opening a loaded inode that is no directory succeeds while the task has a free number and the kernel a
-- free descriptor: the number and the descriptor were both free, the descriptor starts at 0 and is the
-- inode's, the other numbers and descriptors stay, and the inode is unlocked.
pub open_inode-Installed :
    {S : Sectors} (w : Fds S) (x i k : ℕ) (readable writable : Bool)
    → (w.files.inodes x).valid ≡ true
    → ((w.files.inodes x).disk.type == fs_type_dir) ≡ false
    → i < num_max_proc_fd
    → free_fd w i ≡ true
    → k < num_fdescs
    → free_fdesc w k ≡ true
    → (fd : ℕ) × (p : ℕ) × (w' : Fds S) × (open_inode w x readable writable ≡ ok (some fd, w'))
      × Installed w x fd p w'
unfolding open_inode inode_open inode_unlock
open_inode-Installed {S = S} w x i k readable writable loaded file hi at_i hk at_k =
    let (fd, found_fd) =
      first_found (free_fd w) num_max_proc_fd 0 i at_i (omega arith) (omega arith) in
    let (p, found_p) = first_found (free_fdesc w) num_fdescs 0 k at_k (omega arith) (omega arith) in
    let fd_low = first_bound (free_fd w) num_max_proc_fd 0 fd found_fd in
    let p_low = first_bound (free_fdesc w) num_fdescs 0 p found_p in
    let inode = w.files.inodes x in
    let files : Files S = put_inode w.files x (record inode { acquired = true }) in
    let done : Files S = put_inode files x (record (files.inodes x) { acquired = false }) in
    let fdesc : Fdesc = record {
      inode = x;
      valid = true;
      wpos = 0;
      rpos = 0;
      readable = readable;
      writable = writable;
    } in
    let w' : Fds S = record {
      files = done;
      fdesc_array = update w.fdesc_array p fdesc;
      fd_table = update w.fd_table fd (some p);
    } in
    (
      fd,
      p,
      w',
      rw (loaded, ==_refl x, file, found_fd, found_p, ==_refl x) refl,
      record {
        fd_in = omega arith;
        fd_free = first-some (free_fd w) num_max_proc_fd 0 fd found_fd;
        place_in = omega arith;
        place_free = first-some (free_fdesc w) num_fdescs 0 p found_p;
        named = rw (==_refl fd) refl;
        holds = rw (==_refl p) refl;
        in_use = rw (==_refl p) refl;
        at_start = rw (==_refl p) (refl, refl);
        other_fds = λ j ne. rw (==_ne fd j ne) refl;
        other_fdescs = λ j ne. rw (==_ne p j ne) refl;
        unlocked = rw (==_refl x) refl;
      },
    )
