-- ===== src/Fs/Fdesc.antt =====
-- kernel/fs/fs.cpp: the operations on the file descriptors of the running task. A descriptor is named by
-- its place in `fdesc_array`; `fd_table` is the task's, with none for NULL. Positions and lengths lie
-- below 2^31, so that an int holds them.
pub mod Open
mod Tests
use ucas_oslab.Base.{
  ℕ, zero, suc, ◌+◌, ◌-◌, ◌/◌, ◌%◌, ◌^◌, ◌==◌, ltb, leb, min, max, Bool, true, false, not, ◌||◌,
  ◌&&◌, Option, none, some, if◌then◌else◌,
}
use ucas_oslab.Base.Int.{ℤ, pos, negsuc, ◌+ℤ◌, pos_part}
use ucas_oslab.Base.Run.{Run, ok, halt, ◌>>=◌, ◌>>◌, asserts, for_run}
use ucas_oslab.Base.Update.{update}
use ucas_oslab.Libs.Strings.{Memory}
use ucas_oslab.Locking.Slots.{first}
use ucas_oslab.Fs.Cache.{Sectors}
use ucas_oslab.Fs.Inode.{Diskinode, Inode, Files, fs_type_dir}
use ucas_oslab.Fs.Inode.Table.{inode_open, inode_unlock, inode_deref, inode_close}
use ucas_oslab.Fs.Inode.Data.{ReadDone, Devices, ◌>>=?◌, inode_read, inode_write}

abbrev pub num_fdescs : ℕ
num_fdescs = 32

abbrev pub num_max_proc_fd : ℕ
num_max_proc_fd = 8

abbrev pub err_fd_invalid : ℤ
err_fd_invalid = pos 6

pub record Fdesc : Type 0 where
  pub inode : ℕ
  pub valid : Bool
  pub wpos : ℕ
  pub rpos : ℕ
  pub readable : Bool
  pub writable : Bool

pub record Fds (S : Sectors) : Type 0 where
  pub files : Files S
  pub fdesc_array : ℕ → Fdesc
  pub fd_table : ℕ → Option ℕ

pub data Whence : Type 0 where
  seek_set seek_cur seek_end seek_other : Whence

-- The two flags of `do_open`, by the bits of O_RDONLY = 1, O_WRONLY = 2 and O_RDWR = 3.
abbrev pub is_writable : ℕ → Bool
is_writable mode = mode / 2 % 2 == 1 || not (mode % 4 == 0)

abbrev pub is_readable : ℕ → Bool
is_readable mode = mode % 2 == 1 || not (mode % 4 == 0)

abbrev run_then {κ} :
    {A : Type 0} {B : Type κ} → Option (Run A) → (A → Option (Run B)) → Option (Run B)
run_then none rest = none
run_then (some r) rest = r >>=? rest

-- The place that `do_lseek` goes to, and 0 for one before the start.
abbrev pub seek_target : Whence → Fdesc → ℕ → ℤ → ℤ
seek_target seek_set fdesc size offset = offset
seek_target seek_cur fdesc size offset = pos (max fdesc.rpos fdesc.wpos) +ℤ offset
seek_target seek_end fdesc size offset = pos size +ℤ offset
seek_target seek_other fdesc size offset = pos (max fdesc.rpos fdesc.wpos)

module _ {S : Sectors} where
  -- The descriptor that `fd` names; none for NULL or a number out of range.
  abbrev in_table : Fds S → ℕ → Option ℕ
  in_table w n = if ltb n num_max_proc_fd then w.fd_table n else none

  abbrev pub lookup_fd : Fds S → ℤ → Option ℕ
  lookup_fd w (pos n) = in_table w n
  lookup_fd w (negsuc n) = none

  abbrev pub put_fdesc : Fds S → ℕ → Fdesc → Fds S
  put_fdesc w p fdesc = record w { fdesc_array = update w.fdesc_array p fdesc }

  abbrev set_files : Fds S → Files S → Fds S
  set_files w files = record w { files = files }

  -- The tail of `do_open`, with the inode that the path gives; -1 is none.
  abbrev pub free_fd : Fds S → ℕ → Bool
  free_fd w i = elim (w.fd_table i) [ none ↦ true | some p ↦ false ]

  abbrev pub free_fdesc : Fds S → ℕ → Bool
  free_fdesc w i = not (w.fdesc_array i).valid

  abbrev pub give_up : Fds S → ℕ → Run (Option ℕ × Fds S)
  give_up w x = inode_close w.files x >>= λ s. ok (none, set_files w s)

  abbrev pub install :
      Fds S → ℕ → (readable writable : Bool) → ℕ → Option ℕ → Run (Option ℕ × Fds S)
  install w x readable writable fd none = give_up w x
  install w x readable writable fd (some p) =
      let fdesc : Fdesc = record {
        inode = x;
        valid = true;
        wpos = 0;
        rpos = 0;
        readable = readable;
        writable = writable;
      } in
      let v = put_fdesc w p fdesc in
      let t : Fds S = record v { fd_table = update v.fd_table fd (some p) } in
      inode_unlock t.files x >>= λ s. ok (some fd, set_files t s)

  abbrev pub with_fd : Fds S → ℕ → (readable writable : Bool) → Option ℕ → Run (Option ℕ × Fds S)
  with_fd w x readable writable none = give_up w x
  with_fd w x readable writable (some fd) =
      install w x readable writable fd (first (free_fdesc w) num_fdescs 0)

  unfoldable pub open_inode : Fds S → ℕ → (readable writable : Bool) → Run (Option ℕ × Fds S)
  open_inode w x readable writable = inode_open w.files x >>= λ s.
      (if (s.inodes x).disk.type == fs_type_dir
        then give_up (set_files w s) x
        else with_fd (set_files w s) x readable writable (first (free_fd w) num_max_proc_fd 0))

  abbrev close_at : Fds S → ℕ → ℕ → Run (Fds S)
  close_at w fd p =
      let fdesc = w.fdesc_array p in
      inode_deref w.files fdesc.inode >>= λ s.
      let v = put_fdesc (set_files w s) p (record fdesc { valid = false }) in
      ok (record v { fd_table = update v.fd_table fd none })

  abbrev closed : Fds S → ℕ → Option ℕ → Run (ℤ × Fds S)
  closed w fd none = ok (err_fd_invalid, w)
  closed w fd (some p) = close_at w fd p >>= λ v. ok (pos 0, v)

  abbrev close_number : Fds S → ℕ → Run (ℤ × Fds S)
  close_number w n = if ltb n num_max_proc_fd then closed w n (w.fd_table n) else ok (pos 0, w)

  unfoldable pub do_close : Fds S → ℤ → Run (ℤ × Fds S)
  do_close w (pos n) = close_number w n
  do_close w (negsuc n) = ok (pos 0, w)

  -- `do_read`, on the fuel of `inode_read`: the count, the descriptors and the memory.
  abbrev read_end : Fds S → ℕ → ReadDone S → Option (Run (ℕ × Fds S × Memory))
  read_end w p r =
      let fdesc = w.fdesc_array p in
      let v = put_fdesc w p (record fdesc { rpos = (fdesc.rpos + r.total) % 2 ^ 32 }) in
      inode_unlock r.files fdesc.inode >>=? λ s. some (ok (r.total, set_files v s, r.mem))

  abbrev read_fd :
      ℕ
      → Devices S
      → Fds S
      → Memory
      → (buff length : ℕ) → Option ℕ
      → Option (Run (ℕ × Fds S × Memory))
  read_fd fuel dev w mem buff length none = some (ok (0, w, mem))
  read_fd fuel dev w mem buff length (some p) =
      let fdesc = w.fdesc_array p in
      inode_open w.files fdesc.inode >>=? λ s.
      run_then (inode_read fuel dev s fdesc.inode mem buff fdesc.rpos length) (read_end w p)

  pub do_read :
      ℕ → Devices S → Fds S → Memory → ℤ → (buff length : ℕ) → Option (Run (ℕ × Fds S × Memory))
  do_read fuel dev w mem fd buff length = read_fd fuel dev w mem buff length (lookup_fd w fd)

  abbrev write_end : Fds S → ℕ → ℕ × Files S → Option (Run (ℕ × Fds S))
  write_end w p (total, files) =
      let fdesc = w.fdesc_array p in
      let v = put_fdesc w p (record fdesc { wpos = (fdesc.wpos + total) % 2 ^ 32 }) in
      inode_unlock files fdesc.inode >>=? λ s. some (ok (total, set_files v s))

  abbrev write_fd :
      ℕ → Devices S → Fds S → Memory → (buff length : ℕ) → Option ℕ → Option (Run (ℕ × Fds S))
  write_fd fuel dev w mem buff length none = some (ok (0, w))
  write_fd fuel dev w mem buff length (some p) =
      let fdesc = w.fdesc_array p in
      inode_open w.files fdesc.inode >>=? λ s.
      run_then (inode_write fuel dev s fdesc.inode mem buff fdesc.wpos length) (write_end w p)

  pub do_write : ℕ → Devices S → Fds S → Memory → ℤ → (buff length : ℕ) → Option (Run (ℕ × Fds S))
  do_write fuel dev w mem fd buff length = write_fd fuel dev w mem buff length (lookup_fd w fd)

  abbrev seek_fd : Fds S → ℤ → Whence → Option ℕ → Run (ℤ × Fds S)
  seek_fd w offset whence none = ok (err_fd_invalid, w)
  seek_fd w offset whence (some p) =
      let fdesc = w.fdesc_array p in
      inode_open w.files fdesc.inode >>= λ s. inode_unlock s fdesc.inode >>= λ t.
      let target = pos_part (seek_target whence fdesc (s.inodes fdesc.inode).disk.size offset) in
      let size = (t.inodes fdesc.inode).disk.size in
      ok (
        pos target,
        put_fdesc (set_files w t) p (record fdesc { wpos = target; rpos = min target size }),
      )

  unfoldable pub do_lseek : Fds S → ℤ → ℤ → Whence → Run (ℤ × Fds S)
  do_lseek w fd offset whence = seek_fd w offset whence (lookup_fd w fd)

  -- One round of the loop of `cleanup_fd`.
  abbrev cleanup_round : ℕ → Fds S → Option ℕ → Run (Fds S)
  cleanup_round i w none = ok w
  cleanup_round i w (some p) =
      let x = (w.fdesc_array p).inode in
      (if (w.files.inodes x).acquired then inode_unlock w.files x else ok w.files) >>= λ s.
      close_at (set_files w s) i p

  unfoldable pub cleanup_fd : Fds S → Run (Fds S)
  cleanup_fd w = for_run num_max_proc_fd 0 (λ i v. cleanup_round i v (v.fd_table i)) w
