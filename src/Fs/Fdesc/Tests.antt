-- ===== src/Fs/Fdesc/Tests.antt =====
-- A loaded file at place 3, and a task with one open file.
use ucas_oslab.Base.{ℕ, ◌≡◌, refl, ◌==◌, true, false, none, some, arith, if◌then◌else◌}
use ucas_oslab.Base.Run.{ok}
use ucas_oslab.Fs.Sample.{card, empty}
use ucas_oslab.Fs.Inode.{new_diskinode, no_inode}
use ucas_oslab.Fs.Fdesc.{Fds, open_inode}
use ucas_oslab.Fs.Fdesc.Open.{Installed, open_inode-Installed}

abbrev one_open : Fds card
one_open = record {
  files = record {
    store = empty;
    inodes = λ x.
        if x == 3
        then record { disk = new_diskinode 2 130; valid = true; ref_count = 1; acquired = false }
        else no_inode;
  };
  fdesc_array = λ p. record {
    inode = 0;
    valid = p == 0;
    wpos = 0;
    rpos = 0;
    readable = true;
    writable = true;
  };
  fd_table = λ fd. if fd == 0 then some 0 else none;
}

open_inode-Installed_example :
    (fd : ℕ) × (p : ℕ) × (w' : Fds card) × (open_inode one_open 3 true false ≡ ok (some fd, w'))
    × Installed one_open 3 fd p w'
open_inode-Installed_example =
    open_inode-Installed one_open 3 5 7 true false refl refl (omega arith) refl (omega arith) refl
