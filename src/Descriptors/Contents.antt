-- ===== src/Descriptors/Contents.antt =====
-- Reading and writing through numbers: fd_pread and fd_pwrite of
-- limine-c-template-x86-64/kernel/src/vfs.c down to the files of tmpfs.c.
use willow_os.Prelude.{ℕ, ◌+◌, ◌≡◌, ◌≢◌, ◌<◌, ◌∙◌, ap, refl, false, some, ◌==◌, arith}
use willow_os.Memory.{Memory}
use willow_os.Tmpfs.{File, file, tmpfs_write_to_file, tmpfs_read_from_file}
use willow_os.Memory.Disjoint.{Apart}
use willow_os.Tmpfs.Contents.{Blocks, tmpfs_write-read}
use willow_os.Vfs.{
  regular_ops, Nodes, put_entry, vnode_tmpfs_read_from_file, vnode_tmpfs_write_to_file,
}
use willow_os.Descriptors.{
  OaHash, Printing, Descriptors, print_key, file_at, pread, pwrite, vfs_int_fd_to_vfs_file,
  fd_pread, fd_pwrite,
}
use willow_os.Descriptors.Table.{IsIntact, IsFresh, SameFiles, print_key-SameFiles}

module _ (h : OaHash) (p : Printing) where
  abbrev with_nodes : Nodes → Descriptors h p → Descriptors h p
  with_nodes s d = record d { nodes = s }

  abbrev with_file : (entry : ℕ) → File → Nodes → Nodes
  with_file entry f s = record s { entries = put_entry s.entries entry (file f) }

  -- Through a number that stands for the file at `a`, whose node is that of a regular file, the calls
  -- are those of tmpfs.c.
  module _ (buf fd a : ℕ) (d : Descriptors h p) (fresh : IsFresh h p buf d) (ok : IsIntact h p d)
      (is : file_at h p fd d ≡ a) (real : a ≢ 0) (f : File) where
    abbrev node : ℕ
    node = (d.files a).vnode

    abbrev entry : ℕ
    entry = (d.nodes.vnodes node).vnode_data

    found_lem : vfs_int_fd_to_vfs_file h p buf fd d ≡ some (a, print_key h p buf fd d)
    unfolding vfs_int_fd_to_vfs_file
    found_lem =
        let s = print_key-SameFiles h p buf d fresh fd ok in
        let e : (a == 0) ≡ false = ground arith in rw (s.same fd, is, e) refl

    fd_pwrite_lem :
        (new buffer size offset : ℕ) (m : Memory)
        → (d.nodes.vnodes node).vnode_ops ≡ regular_ops
        → d.nodes.entries entry ≡ file f
        → (let (f', m') = tmpfs_write_to_file new buffer size offset f m in
            fd_pwrite h p buf fd new buffer size offset d m
            ≡ some (with_nodes (with_file entry f' d.nodes) (print_key h p buf fd d), m'))
    unfolding fd_pwrite pwrite vnode_tmpfs_write_to_file
    fd_pwrite_lem new buffer size offset m regular at = rw (found_lem, regular, at) refl

    fd_pread_lem :
        (buffer size offset : ℕ) (m : Memory)
        → (d.nodes.vnodes node).vnode_ops ≡ regular_ops
        → d.nodes.entries entry ≡ file f
        → (let (count, f', m') = tmpfs_read_from_file buffer size offset f m in
            fd_pread h p buf fd buffer size offset d m
            ≡ some (count, with_nodes (with_file entry f' d.nodes) (print_key h p buf fd d), m'))
    unfolding fd_pread pread vnode_tmpfs_read_from_file
    fd_pread_lem buffer size offset m regular at = rw (found_lem, regular, at) refl

  module _ (buf fd a : ℕ) (d : Descriptors h p) (fresh : IsFresh h p buf d) (ok : IsIntact h p d)
      (is : file_at h p fd d ≡ a) (real : a ≢ 0) (f : File) where
    -- What is written through a number is read back through it: if its file's node is that of a
    -- regular file, the write is not empty, ends below 2^64 and uses blocks that do not meet, the
    -- target does not meet what was written, the keys of the table are intact, and the two key
    -- buffers are none of them, then both calls succeed, the read answers the number of bytes, and
    -- the target holds the bytes of the buffer.
    pub fd_pwrite-fd_pread :
        (buf2 new buffer size offset target : ℕ) (m : Memory)
        → (d.nodes.vnodes (d.files a).vnode).vnode_ops ≡ regular_ops
        → d.nodes.entries (d.nodes.vnodes (d.files a).vnode).vnode_data ≡ file f
        → IsFresh h p buf2 d
        → Blocks new buffer size offset f m
        → 0 < size
        → Apart target size
            ((tmpfs_write_to_file new buffer size offset f m).0.data_address + offset)
            size
        → (d1 : Descriptors h p) × (m1 : Memory) × (d2 : Descriptors h p) × (m2 : Memory)
          × (fd_pwrite h p buf fd new buffer size offset d m ≡ some (d1, m1))
          × (fd_pread h p buf2 fd target size offset d1 m1 ≡ some (size, d2, m2))
          × ((i : ℕ) → i < size → m2 (target + i) ≡ m (buffer + i))
    fd_pwrite-fd_pread buf2 new buffer size offset target m regular at fresh2 blocks some_bytes
          apart =
        (
          d1,
          m1,
          reread,
          read_back.2,
          fd_pwrite_lem buf fd a d fresh ok is real f new buffer size offset m regular at,
          fd_pread_again ∙ ap (λ count. some (count, reread, read_back.2)) bytes.0,
          bytes.1,
        )
      where
        entry : ℕ
        entry = (d.nodes.vnodes (d.files a).vnode).vnode_data

        written : File × Memory
        written = tmpfs_write_to_file new buffer size offset f m

        m1 : Memory
        m1 = written.1

        d1 : Descriptors h p
        d1 = with_nodes (with_file entry written.0 d.nodes) (print_key h p buf fd d)

        read_back : ℕ × File × Memory
        read_back = tmpfs_read_from_file target size offset written.0 m1

        reread : Descriptors h p
        reread = with_nodes (with_file entry read_back.1 d1.nodes) (print_key h p buf2 fd d1)

        bytes :
            (read_back.0 ≡ size) × ((i : ℕ) → i < size → read_back.2 (target + i) ≡ m (buffer + i))
        bytes = tmpfs_write-read new buffer size offset target f m blocks some_bytes apart

        s : SameFiles h p d (print_key h p buf fd d)
        s = print_key-SameFiles h p buf d fresh fd ok

        there : d1.nodes.entries entry ≡ file written.0
        there = ground arith

        fd_pread_again :
            fd_pread h p buf2 fd target size offset d1 m1 ≡ some (read_back.0, reread, read_back.2)
        fd_pread_again =
            fd_pread_lem buf2 fd a d1 fresh2 s.intact (s.same fd ∙ is) real written.0 target size
              offset m1 regular there
