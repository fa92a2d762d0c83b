-- ===== src/Fs/Inode/Tests.antt =====
-- An inode of a file of 5000 bytes with two blocks, in memory over the empty file system.
use ucas_oslab.Base.{◌≡◌, refl, ◌==◌, true, arith, if◌then◌else◌}
use ucas_oslab.Base.Run.{ok}
use ucas_oslab.Fs.Sample.{card, card-IsLawful, empty, empty-IsValid}
use ucas_oslab.Fs.Inode.{Diskinode, Files, minus_one, no_inode}
use ucas_oslab.Fs.Inode.Layout.{Fits, SameFields}
use ucas_oslab.Fs.Inode.Table.{inode_ref, write_inode, read_inode}
use ucas_oslab.Fs.Inode.Reload.{read_inode-write_inode}
use ucas_oslab.Base.{min, ◌-◌}
use ucas_oslab.Base.Run.{halt}
use ucas_oslab.Fs.Inode.Data.{Devices, inode_read}
use ucas_oslab.Fs.Inode.Data.Bounds.{Ended, inode_read-Ended}
use ucas_oslab.Fs.Inode.Alias.{inode_ref_again}

abbrev two_blocks : Diskinode
two_blocks = record {
  type = 2;
  link_count = 1;
  inode_num = 130;
  size = 5000;
  blocks = 0;
  direct = λ i. if i == 0 then 547 else if i == 1 then 548 else minus_one;
  indirect = minus_one;
  double_indirect = minus_one;
}

two_blocks-Fits : Fits two_blocks
two_blocks-Fits = record {
  type = omega arith;
  link_count = omega arith;
  inode_num = omega arith;
  size = omega arith;
  blocks = omega arith;
  direct = λ i h. ground arith;
  indirect = omega arith;
  double_indirect = omega arith;
}

abbrev one_file : Files card
one_file = record {
  store = empty;
  inodes = λ x.
      if x == 3
      then record { disk = two_blocks; valid = true; ref_count = 1; acquired = true }
      else no_inode;
}

read_inode-write_inode_example :
    (t : Files card) × (u : Files card) × (write_inode one_file 3 ≡ ok t)
    × (read_inode t 3 ≡ ok u)
    × SameFields (u.inodes 3).disk two_blocks
read_inode-write_inode_example =
    read_inode-write_inode card-IsLawful one_file 3 0 empty-IsValid (omega arith) (omega arith) refl
      two_blocks-Fits

inode_ref_again_example :
    (t : Files card) × (u : Files card) × (inode_ref one_file 5 ≡ ok (0, t))
    × (inode_ref t 6 ≡ ok (0, u))
    × ((u.inodes 0).ref_count ≡ 1)
inode_ref_again_example = inode_ref_again one_file 5 6 0 refl refl refl

abbrev no_devices : Devices card
no_devices = record {
  read = λ id s x mem dest offset length. halt;
  write = λ id s x mem src offset length. halt;
}

inode_read-Ended_example :
    Ended (min 100 (5000 - 4990)) (inode_read 101 no_devices one_file 3 (λ a. 0) 8192 4990 100)
inode_read-Ended_example =
    inode_read-Ended no_devices one_file 3 (λ a. 0) 8192 4990 100 101 refl (omega arith)
      (omega arith) (omega arith)
